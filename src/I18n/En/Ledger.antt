-- ===== src/I18n/En/Ledger.antt =====
-- client/src/i18n/locales/en/ledger.ts: the English texts of the group ledger.
use bhidne_ho.Prelude.{List, [], ◌∷◌, String}

unfoldable pub ledger : List (String × String)
ledger =
    ("ledger", "Ledger")
    ∷ ("ledger_settlements", "Ledger & settlements")
    ∷ ("balances", "Balances")
    ∷ ("my_settlements", "My settlements")
    ∷ ("room_results", "Room results")
    ∷ ("net", "Net")
    ∷ ("player", "Player")
    ∷ ("from", "From")
    ∷ ("to", "To")
    ∷ ("amount", "Amount")
    ∷ ("status", "Status")
    ∷ ("payment", "Payment")
    ∷ ("suggested", "Suggested")
    ∷ ("awaiting_payment", "Awaiting payment")
    ∷ ("awaiting_confirmation", "Awaiting confirmation")
    ∷ ("resolved", "Resolved")
    ∷ ("to_pay", "To pay")
    ∷ ("to_receive", "To receive")
    ∷ ("two_party_summary", "Two-party summary")
    ∷ ("start_table_settlement", "Start table settlement")
    ∷ ("settle_game", "Settle game")
    ∷ ("in_settlement", "In settlement")
    ∷ ("open", "Open")
    ∷ ("mark_paid", "Mark paid")
    ∷ ("confirm_received", "Confirm received")
    ∷ ("no_completed_game_results_yet", "No completed game results yet.")
    ∷ ("show_room_table_codes", "Show room/table codes")
    ∷ ("hide_room_table_codes", "Hide room/table codes")
    ∷ ("game_number", "Game {{number}}")
    ∷ ("count_games", "{{count}} games")
    ∷ ("player_pays_first", "{{player}} pays first")
    ∷ ("place_place_payment", "{{place}} place payment")
    ∷ ("placement_bets_paid_to_first_place", "Placement bets · paid to first place")
    ∷ ("payer_payee_amount", "{{payer}} → {{payee}} · {{amount}}")
    ∷ (
      "game_results_and_records_only_payments_happen_outside_bhidne_ho",
      "Game results and records only. Payments happen outside Bhidne Ho.",
    )
    ∷ ("game_summary", "Game {{number}} · {{game}} · {{date}}")
    ∷ []
