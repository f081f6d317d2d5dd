-- ===== src/I18n/Ne/Ledger.antt =====
-- client/src/i18n/locales/ne/ledger.ts: the Nepali texts of the group ledger.
use bhidne_ho.Prelude.{List, [], ◌∷◌, String}

unfoldable pub ledger : List (String × String)
ledger =
    ("ledger", "हिसाब")
    ∷ ("ledger_settlements", "हिसाब र हिसाब मिलान")
    ∷ ("balances", "बाँकी हिसाब")
    ∷ ("my_settlements", "मेरो हिसाब मिलान")
    ∷ ("room_results", "कोठाका नतिजाहरू")
    ∷ ("net", "खुद हिसाब")
    ∷ ("player", "खेलाडी")
    ∷ ("from", "दिने")
    ∷ ("to", "पाउने")
    ∷ ("amount", "परिमाण")
    ∷ ("status", "अवस्था")
    ∷ ("payment", "भुक्तानी")
    ∷ ("suggested", "प्रस्तावित")
    ∷ ("awaiting_payment", "भुक्तानीको प्रतीक्षामा")
    ∷ ("awaiting_confirmation", "पुष्टिको प्रतीक्षामा")
    ∷ ("resolved", "हिसाब मिलिसकेको")
    ∷ ("to_pay", "तिर्नुपर्ने")
    ∷ ("to_receive", "पाउनुपर्ने")
    ∷ ("two_party_summary", "दुई जनाबीचको हिसाब")
    ∷ ("start_table_settlement", "टेबलको हिसाब मिलान सुरु गर्ने")
    ∷ ("settle_game", "खेलको हिसाब मिलाउने")
    ∷ ("in_settlement", "हिसाब मिलाउँदै")
    ∷ ("open", "हिसाब बाँकी")
    ∷ ("mark_paid", "तिरेको जनाउने")
    ∷ ("confirm_received", "पाएको पुष्टि गर्ने")
    ∷ ("no_completed_game_results_yet", "सकिएका खेलको नतिजा छैन।")
    ∷ ("show_room_table_codes", "कोठा/टेबलको कोड देखाउने")
    ∷ ("hide_room_table_codes", "कोठा/टेबलको कोड लुकाउने")
    ∷ ("game_number", "खेल {{number}}")
    ∷ ("count_games", "{{count}} खेल")
    ∷ ("player_pays_first", "पहिले {{player}} ले तिर्ने")
    ∷ ("place_place_payment", "{{place}} स्थानको भुक्तानी")
    ∷ ("placement_bets_paid_to_first_place", "स्थानअनुसार दाउ · पहिलो स्थानलाई दिने")
    ∷ ("payer_payee_amount", "{{payer}} → {{payee}} · {{amount}}")
    ∷ (
      "game_results_and_records_only_payments_happen_outside_bhidne_ho",
      "यहाँ नतिजा र हिसाब मात्र राखिन्छ। भुक्तानी भिड्ने होबाहिर हुन्छ।",
    )
    ∷ ("game_summary", "खेल {{number}} · {{game}} · {{date}}")
    ∷ []
