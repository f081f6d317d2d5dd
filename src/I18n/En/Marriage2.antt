-- ===== src/I18n/En/Marriage2.antt =====
-- client/src/i18n/locales/en/marriage.ts: the English texts of the group marriage, part 2 of 2.
use bhidne_ho.Prelude.{List, [], ◌∷◌, String}

unfoldable pub marriage_2 : List (String × String)
marriage_2 =
    ("marriage_eligible_show_marriage", "Marriage eligible · Show Marriage")
    ∷ ("marriage_eligible_view_options", "Marriage eligible · View options")
    ∷ ("review_finish", "Review finish")
    ∷ ("view_winning_hand", "View winning hand")
    ∷ ("winning_hand", "Winning hand")
    ∷ ("your_winning_cards", "Your winning cards")
    ∷ ("winning_after_maal", "Winning after Maal")
    ∷ (
      "visible_discard_card_helps_before_after_cards_needed",
      "Visible discard {{card}} helps: {{before}} → {{after}} cards needed.",
    )
    ∷ (
      "improves_coverage_to_covered_target_cards",
      "improves coverage to {{covered}}/{{target}} cards",
    )
    ∷ ("completes_a_winning_hand", "completes a winning hand")
    ∷ ("you_can_take_it_using_the_draw_control", "You can take it using the draw control.")
    ∷ ("wait_until_the_draw_action_allows_it", "Wait until the draw action allows it.")
    ∷ ("wait_until_the_server_allows_this_draw", "Wait until the server allows this draw.")
    ∷ ("you_can_show_after_drawing_on_your_turn", "You can show after drawing on your turn.")
    ∷ (
      "you_can_show_marriage_when_finishing_is_allowed_on_your_turn",
      "You can show Marriage when finishing is allowed on your turn.",
    )
    ∷ ("shown_cards", "Shown cards")
    ∷ ("view_shown_cards", "View shown cards")
    ∷ ("player_s_shown_cards", "{{player}}’s shown cards")
    ∷ ("view_player_s_shown_cards", "View {{player}}’s shown cards")
    ∷ ("showed_3_sequences_tunnelas", "showed 3 sequences / Tunnelas.")
    ∷ ("showed_7_dublees", "showed 7 Dublees.")
    ∷ ("completed_the_8th_dublee", "completed the 8th Dublee.")
    ∷ ("completed_a_winning_hand", "completed a winning hand.")
    ∷ ("player_won_the_round", "{{player}} won the round!")
    ∷ ("round_won", "🏆 Round won!")
    ∷ ("winner", "Winner")
    ∷ ("winner_player", "Winner: {{player}}")
    ∷ ("game_result", "Game result")
    ∷ ("round_results", "Round results")
    ∷ ("winning_declaration", "Winning declaration")
    ∷ ("won_because_all_other_players_folded", "won because all other players folded.")
    ∷ ("marriage_complete_view_the_result", "Marriage complete · view the result")
    ∷ ("marriage_the_table_has_updated", "Marriage · the table has updated")
    ∷ ("winning_pair_unavailable_in_this_snapshot", "Winning pair unavailable in this snapshot.")
    ∷ ("player_stats_appear_when_the_game_starts", "Player stats appear when the game starts.")
    ∷ ("points", "Points")
    ∷ ("scoring_rules", "Scoring rules")
    ∷ ("propose_scoring_rules", "Propose scoring rules")
    ∷ ("scoring_rules_are_loading", "Scoring rules are loading.")
    ∷ ("how_the_points_were_calculated", "How the points were calculated")
    ∷ ("maal_points_points", "Maal points: {{points}}")
    ∷ ("own_maal_points", "Own Maal: {{points}}")
    ∷ ("total_maal_points", "Total Maal: {{points}}")
    ∷ ("maal_net", "Maal net")
    ∷ ("winner_payment_points", "Winner payment: {{points}}")
    ∷ ("tunnela_bonus", "Tunnela bonus")
    ∷ ("tunnela_bonus_applies_to", "Tunnela bonus applies to")
    ∷ ("extra_points_per_tunnela", "Extra points per Tunnela")
    ∷ ("initial_tunnela_declaration_count", "Initial Tunnela declaration: {{count}}")
    ∷ ("initially_declared_tunnelas", "Initially declared Tunnelas")
    ∷ ("shown_tunnelas", "Shown Tunnelas")
    ∷ ("all_final_tunnelas", "All final Tunnelas")
    ∷ ("extra_per_loser_dublee_win", "Extra per loser: Dublee win")
    ∷ ("loser_payment_maal_seen", "Loser payment: Maal seen")
    ∷ ("loser_payment_maal_unseen", "Loser payment: Maal unseen")
    ∷ ("maal_points_all_players", "Maal points: all players")
    ∷ ("maal_points_seen_players_only", "Maal points: seen players only")
    ∷ ("all_players", "all players")
    ∷ ("seen_players_only", "seen players only")
    ∷ ("marriage_combination", "Marriage combination")
    ∷ ("house_bonus_default", "House bonus (default)")
    ∷ ("simple_points", "Simple points")
    ∷ ("totals_for_1_2_3_copies_or_combinations", "Totals for 1 / 2 / 3 copies or combinations")
    ∷ ("none", "None")
    ∷ ("off", "Off")
    ∷ ("on", "On")
    ∷ ("no_scoring_cards", "No scoring cards.")
    ∷ (
      "maal_points_are_not_counted_because_maal_was_not_seen",
      "Maal points are not counted because Maal was not seen.",
    )
    ∷ ("item_count_points_points", "{{item}} × {{count}}: {{points}} points")
    ∷ ("net_maal_payment_total", "Net: {{maal}} + ({{payment}}) = {{total}}")
    ∷ ("tap_draw", "Tap to draw")
    ∷ ("eligible_choices", "Eligible to see Maal · {{count}} {{choice}}{{suffix}}")
    ∷ (
      "visible_discard_progress",
      "Visible discard {{card}} helps: {{before}} → {{after}} cards needed. {{hint}}",
    )
    ∷ ("visible_discard_pair", "Visible discard {{card}} completes an eighth pair. {{hint}}")
    ∷ ("visible_discard_finish", "Visible discard {{card}} {{result}}. {{hint}}")
    ∷ (
      "wildcards_hint",
      "Wildcards: Man, every {{rank}}-rank card, {{jhiplu}} and {{poplu}}. Ace is low in sequences.",
    )
    ∷ (
      "current_hand_progress",
      "Your current hand · {{count}} cards. This compares missing cards, not winning odds.",
    )
    ∷ (
      "maal_points_summary",
      "Total Maal: {{points}}. Positive points are won; negative points are paid.",
    )
    ∷ (
      "maal_loser_payment",
      "Each loser pays {{seen}} if Maal seen, otherwise {{unseen}}, plus {{bonus}} for a completed Dublee win.",
    )
    ∷ (
      "additional_bonus",
      "Additional bonus: {{count}} × {{rate}} = {{points}}. These cards can also earn Maal points.",
    )
    ∷ ("maal_net_formula", "Maal net: {{players}} x {{own}} - {{total}} = {{net}}")
    ∷ []
