-- ===== src/I18n/Ne/Flush.antt =====
-- client/src/i18n/locales/ne/flush.ts: the Nepali texts of the group flush.
use bhidne_ho.Prelude.{List, [], ◌∷◌, String}

unfoldable pub flush : List (String × String)
flush =
    ("blind", "ब्लाइन्ड")
    ∷ ("seen", "तास हेरेको")
    ∷ ("blind_see_cards_when_eligible", "ब्लाइन्ड · मिल्दा तास हेर्ने")
    ∷ ("see_cards", "तास हेर्ने")
    ∷ ("tap_to_see_cards", "तास हेर्न थिच्ने")
    ∷ ("tap_to_hide_cards", "तास लुकाउन थिच्ने")
    ∷ ("bet", "चाल")
    ∷ ("blind_bet", "ब्लाइन्ड चाल")
    ∷ ("bet_minimum_points_points", "न्यूनतम चाल · {{points}} अङ्क")
    ∷ ("bet_double_points_points", "दोब्बर चाल · {{points}} अङ्क")
    ∷ ("double", "दोब्बर")
    ∷ ("bets_count", "चाल {{count}}")
    ∷ ("count_bets", "{{count}} चाल")
    ∷ ("bet_history", "चालको इतिहास")
    ∷ ("fold", "प्याक गर्ने")
    ∷ ("pack", "प्याक गर्ने")
    ∷ ("folded", "प्याक गरेको")
    ∷ ("player_folded", "{{player}} ले प्याक गर्नुभयो")
    ∷ ("show", "शो गर्ने")
    ∷ ("show_points_points", "शो गर्ने · {{points}} अङ्क")
    ∷ ("private_side_show", "निजी साइड शो")
    ∷ ("request_side_show", "साइड शो माग्ने")
    ∷ ("accept_side_show", "साइड शो स्वीकार गर्ने")
    ∷ ("decline_side_show", "साइड शो अस्वीकार गर्ने")
    ∷ ("accept_or_decline_player_s_side_show", "{{player}} को साइड शो स्वीकार वा अस्वीकार गर्ने")
    ∷ ("side_show_status", "साइड शो: {{status}}")
    ∷ ("final_show", "अन्तिम शो")
    ∷ ("view_final_show", "अन्तिम शो हेर्ने")
    ∷ ("reveal_or_fold", "तास देखाउने वा प्याक गर्ने")
    ∷ (
      "player_can_fold_or_reveal_their_cards", "{{player}} ले प्याक गर्न वा तास देखाउन सक्नुहुन्छ।",
    )
    ∷ ("player_s_shown_hand", "{{player}} ले देखाएको तास")
    ∷ ("opponent_card", "अर्को खेलाडीको तास")
    ∷ ("your_card", "तपाईँको तास")
    ∷ ("player_shown_card", "{{player}} ले देखाएको तास")
    ∷ ("flip_player_s_cards", "{{player}} को तास खोल्ने")
    ∷ ("seated", "सिटमा बसेको")
    ∷ ("empty", "खाली")
    ∷ ("total", "जम्मा")
    ∷ ("total_pot", "जम्मा पोट")
    ∷ ("payout", "प्राप्त अङ्क")
    ∷ ("you_lost", "तपाईँ हार्नुभयो")
    ∷ ("you_stay", "तपाईँ खेलमै रहनुभयो")
    ∷ ("round_number", "राउन्ड {{number}}")
    ∷ ("round_result", "राउन्डको नतिजा")
    ∷ ("round_complete", "राउन्ड सकियो")
    ∷ ("view_round_result", "राउन्डको नतिजा हेर्ने")
    ∷ ("results_appear_after_the_first_round", "पहिलो राउन्डपछि नतिजा देखिन्छ।")
    ∷ ("bets_appear_after_the_game_starts", "खेल सुरु भएपछि चालहरू देखिन्छन्।")
    ∷ ("why_are_some_actions_unavailable", "केही चाल किन चल्न मिल्दैन?")
    ∷ ("hide_action_help", "चालसम्बन्धी मद्दत लुकाउने")
    ∷ ("waiting_for_the_creator_to_lock_the_table", "आयोजकले खेलाडी पक्का गर्न पर्खँदै।")
    ∷ ("reconnecting_updating_game", "फेरि जोडिँदै… खेल अद्यावधिक हुँदैछ")
    ∷ ("flush_rules", "फ्लसका नियम")
    ∷ ("propose_flush_rules", "फ्लसका नियम प्रस्ताव गर्ने")
    ∷ ("allow_private_side_show", "निजी साइड शो गर्न दिने")
    ∷ ("boot_per_player_0_disables", "प्रतिखेलाडी बुट (० राखे लाग्दैन)")
    ∷ ("personal_bets_before_side_show", "साइड शोअघि आफैँले लगाउनुपर्ने चाल")
    ∷ ("seen_bet_multiplier", "तास हेरेपछिको चालको गुणक")
    ∷ ("personal_blind_bets_before_show", "शोअघि आफैँले लगाउनुपर्ने ब्लाइन्ड चाल")
    ∷ ("blind_show_at_most_n_active_players", "ब्लाइन्ड शो: बढीमा N सक्रिय खेलाडी")
    ∷ ("allow_blind_show", "ब्लाइन्ड शो गर्न दिने")
    ∷ ("allow_seen_show", "तास हेरेपछि शो गर्न दिने")
    ∷ ("show_only_with_two_players", "दुई खेलाडी बाँकी हुँदा मात्र शो")
    ∷ ("minimum_players", "न्यूनतम खेलाडी")
    ∷ ("maximum_players", "अधिकतम खेलाडी")
    ∷ ("show_cost_multiplier_0_is_free", "शोको लागत गुणक (० राखे निःशुल्क)")
    ∷ ("ace_sequence_order", "एक्काको सिक्वेन्स क्रम")
    ∷ ("akq_first_a23_second", "AKQ पहिलो, A23 दोस्रो")
    ∷ ("a23_first", "A23 पहिलो")
    ∷ ("a23_lowest", "A23 सबैभन्दा तल")
    ∷ ("equal_hands", "बराबर हात")
    ∷ ("show_requester_loses", "शो माग्ने खेलाडी हार्ने")
    ∷ ("split_pot", "पोट बाँड्ने")
    ∷ ("bet_short", "{{kind}} · {{points}} अङ्क")
    ∷ ("player_shows", "{{player}} ले तास देखाउँदै")
    ∷ ("net", "खुद अङ्क")
    ∷ []
