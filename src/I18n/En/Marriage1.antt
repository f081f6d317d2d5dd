-- ===== src/I18n/En/Marriage1.antt =====
-- client/src/i18n/locales/en/marriage.ts: the English texts of the group marriage, part 1 of 2.
use bhidne_ho.Prelude.{List, [], ◌∷◌, String}

unfoldable pub marriage_1 : List (String × String)
marriage_1 =
    ("folded", "Folded")
    ∷ ("eligible_combination_count_one", "Eligible to see Maal · {{count}} combination ready")
    ∷ ("eligible_combination_count_other", "Eligible to see Maal · {{count}} combinations ready")
    ∷ ("eligible_combination_count", "Eligible to see Maal · {{count}} combinations ready")
    ∷ ("your_turn_draw_a_card", "Your turn · Draw a card")
    ∷ ("your_turn_select_a_card_to_discard", "Your turn · Select a card to discard")
    ∷ ("your_turn_confirm_discard", "Your turn · Confirm discard")
    ∷ ("your_turn_finish_round", "Your turn · Finish round")
    ∷ ("your_turn_take_a_card", "Your turn · take a card")
    ∷ ("your_turn_show_finish_or_discard", "Your turn · show, finish, or discard")
    ∷ ("waiting_for_turn", "Waiting for turn")
    ∷ ("take_stock_count", "Take stock · {{count}}")
    ∷ ("take_discard", "Take discard")
    ∷ ("tap_to_take_from_deck", "Tap to take from deck")
    ∷ ("tap_to_take_from_discard", "Tap to take from discard")
    ∷ ("taking_a_card", "Taking a card")
    ∷ ("taking_card", "Taking card…")
    ∷ ("deck_count", "Deck · {{count}}")
    ∷ ("discard_pile", "Discard pile")
    ∷ ("last_discard", "Last discard")
    ∷ ("just_drawn", "Just drawn")
    ∷ ("new", "NEW")
    ∷ ("you_drew_card", "You drew {{card}}")
    ∷ ("select_a_card_to_discard", "Select a card to discard")
    ∷ ("discard_card", "Discard {{card}}")
    ∷ ("confirm_your_discard_below", "Confirm your discard below")
    ∷ ("card_moving_to_discard", "Card moving to discard")
    ∷ ("card_moving_to_player", "Card moving to player")
    ∷ ("tap_to_select", "Tap to select")
    ∷ ("fold", "Fold")
    ∷ ("confirm_fold", "Confirm fold")
    ∷ ("folding", "Folding")
    ∷ ("folded_watching_this_round", "Folded · Watching this round")
    ∷ ("fold_this_round_you_can_keep_watching", "Fold this round? You can keep watching.")
    ∷ ("finish_round", "Finish round")
    ∷ ("confirm_finish", "Confirm finish")
    ∷ ("show_marriage", "Show Marriage")
    ∷ ("confirm_show", "Confirm & show")
    ∷ ("initial_tunnelas", "Initial Tunnelas")
    ∷ ("initial_tunnelas_shown", "Initial Tunnelas shown")
    ∷ ("declare_your_initial_tunnelas", "Declare your initial Tunnelas")
    ∷ ("choose_tunnelas_to_show", "Choose Tunnelas to show")
    ∷ ("show_selected_tunnelas", "Show selected Tunnelas")
    ∷ ("declare_no_tunnela", "Declare no Tunnela")
    ∷ ("no_tunnela_declare_none", "No Tunnela · Declare none")
    ∷ ("tunnela_detected_choose_to_show", "Tunnela detected · Choose to show")
    ∷ ("tunnela_number", "Tunnela {{number}}")
    ∷ ("reveal_cards_to_check_tunnela", "Reveal cards to check Tunnela")
    ∷ ("recording_declaration", "Recording declaration…")
    ∷ (
      "declaration_recorded_waiting_for_other_players",
      "Declaration recorded · waiting for other players.",
    )
    ∷ ("waiting_for_tunnela_declarations", "Waiting for Tunnela declarations")
    ∷ ("player_showed_initial_tunnelas", "{{player}} showed initial Tunnelas")
    ∷ ("declared_tunnelas_before_play", "declared Tunnelas before play.")
    ∷ ("your_path_to_maal", "Your path to Maal")
    ∷ ("maal", "Maal")
    ∷ ("maal_hidden", "Maal hidden")
    ∷ ("maal_not_seen", "Maal not seen")
    ∷ ("maal_seen", "Maal seen")
    ∷ ("seeing_maal", "Seeing Maal")
    ∷ ("view_maal", "View Maal")
    ∷ ("tap_to_see_the_maal", "Tap to see the Maal")
    ∷ ("tap_to_hide_the_maal", "Tap to hide the Maal")
    ∷ ("checking_maal", "Checking Maal…")
    ∷ ("reveal_cards_to_check_maal", "Reveal cards to check Maal")
    ∷ ("maal_not_eligible", "Maal not eligible")
    ∷ ("maal_eligible_show_for_maal", "Maal eligible · Show for Maal")
    ∷ ("maal_eligible_view_options", "Maal eligible · View options")
    ∷ (
      "eligible_to_see_maal_count_combinations_ready",
      "Eligible to see Maal · {{count}} combinations ready",
    )
    ∷ ("a_qualifying_declaration_is_ready", "A qualifying declaration is ready")
    ∷ ("both_routes_qualify_your_choice", "Both routes qualify — your choice")
    ∷ ("choose_your_route_to_maal", "Choose your route to Maal")
    ∷ ("choose_cards_to_show", "Choose cards to show")
    ∷ ("cards_to_show_count", "Cards to show · {{count}}")
    ∷ ("3_sequences_tunnelas", "3 sequences / Tunnelas")
    ∷ ("three_sequences_tunnelas", "Three sequences / Tunnelas")
    ∷ ("three_melds", "Three melds")
    ∷ ("7_dublees", "7 Dublees")
    ∷ ("seven_dublees", "Seven Dublees")
    ∷ ("sequence_tunnela", "Sequence / Tunnela")
    ∷ ("sequence", "Sequence")
    ∷ ("tunnela", "Tunnela")
    ∷ ("dublee", "Dublee")
    ∷ ("natural_groups", "Natural groups")
    ∷ ("have_cards", "Have: {{cards}}")
    ∷ ("need", "NEED")
    ∷ ("needed_card", "Needed {{card}}")
    ∷ ("need_cards", "Need: {{cards}}")
    ∷ ("count_more_cards_needed", "{{count}} more cards needed")
    ∷ ("held_total_held", "{{held}}/{{total}} held")
    ∷ ("ready_total_groups_ready", "{{ready}}/{{total}} groups ready")
    ∷ ("route_progress", "{{route}} progress")
    ∷ ("need_a_new_matching_pair", "Need a new matching pair.")
    ∷ ("need_a_new_natural_sequence_or_tunnela", "Need a new natural sequence or Tunnela.")
    ∷ (
      "both_routes_need_the_same_number_of_additional_cards",
      "Both routes need the same number of additional cards.",
    )
    ∷ (
      "route_needs_fewer_additional_cards_from_this_hand",
      "{{route}} needs fewer additional cards from this hand.",
    )
    ∷ ("outside_this_plan_count_cards", "Outside this plan · {{count}} cards")
    ∷ ("select_kind_group_number_in_my_hand", "Select {{kind}} group {{number}} in my hand")
    ∷ ("combination_number_of_total", "Combination {{number}} of {{total}}")
    ∷ ("option_number_of_total", "Option {{number}} of {{total}}")
    ∷ ("previous_combination", "Previous combination")
    ∷ ("next_combination", "Next combination")
    ∷ ("previous_option", "Previous option")
    ∷ ("next_option", "Next option")
    ∷ ("review_this_combination", "Review this combination")
    ∷ ("review_3_sequences_tunnelas", "Review 3 sequences / Tunnelas")
    ∷ ("review_7_dublees", "Review 7 Dublees")
    ∷ ("ready_to_review_and_show", "Ready to review and show")
    ∷ ("not_shown", "Not shown")
    ∷ ("already_shown", "Already shown")
    ∷ ("maal_unlocked", "✓ Maal unlocked · {{cards}}")
    ∷ ("maal_unlocked_2", "✦ Maal unlocked")
    ∷ ("player_unlocked_maal", "{{player}} unlocked Maal")
    ∷ (
      "your_hand_no_longer_qualifies_go_back_to_your_cards",
      "Your hand no longer qualifies. Go back to your cards.",
    )
    ∷ ("your_eighth_dublee", "Your eighth Dublee")
    ∷ ("track_eighth_dublee", "Track eighth Dublee")
    ∷ ("waiting_for_a_matching_card", "Waiting for a matching card")
    ∷ ("cards_waiting_for_a_partner", "Cards waiting for a partner")
    ∷ ("need_another_card", "Need another {{card}}.")
    ∷ ("ready_pairs", "Ready pairs")
    ∷ ("eighth_dublee_ready", "Eighth Dublee ready")
    ∷ ("dublee_finish", "Dublee finish")
    ∷ ("winning_eighth_pair", "Winning eighth pair")
    ∷ ("seven_previously_shown_dublees", "Seven previously shown Dublees")
    ∷ ("locked_qualification_cards", "Locked qualification cards")
    ∷ ("man_cannot_form_a_natural_dublee", "Man cannot form a natural Dublee.")
    ∷ (
      "card_cannot_form_a_new_pair_the_other_two_copies_are_already_locked",
      "{{card}} cannot form a new pair: the other two copies are already locked.",
    )
    ∷ (
      "visible_discard_card_completes_an_eighth_pair",
      "Visible discard {{card}} completes an eighth pair.",
    )
    ∷ ("your_path_to_a_winning_hand", "Your path to a winning hand")
    ∷ ("plan_winning_hand", "Plan winning hand")
    ∷ ("cards_outside_these_groups", "Cards outside these groups")
    ∷ ("suggested_completed_groups", "Suggested completed groups")
    ∷ ("covered_target_remaining_cards_grouped", "{{covered}}/{{target}} remaining cards grouped")
    ∷ ("one_card_gaps_among_the_remaining_cards", "One-card gaps among the remaining cards")
    ∷ ("sequence_wildcards", "Sequence (wildcards)")
    ∷ ("set", "Set")
    ∷ ("a_wildcard", "a wildcard")
    ∷ ("suggested_final_discard", "Suggested final discard")
    ∷ ("final_discard", "Final discard")
    ∷ ("final_discard_card", "Final discard: {{card}}")
    ∷ ("final_discard_excluded_from_scoring", "Final discard · excluded from scoring")
    ∷ ("remaining_in_your_hand_count_cards", "Remaining in your hand · {{count}} cards")
    ∷ ("winning_groups_ready", "Winning groups ready")
    ∷ ("checking_marriage", "Checking Marriage…")
    ∷ ("reveal_cards_to_check_marriage", "Reveal cards to check Marriage")
    ∷ ("marriage_not_eligible", "Marriage not eligible")
    ∷ []
