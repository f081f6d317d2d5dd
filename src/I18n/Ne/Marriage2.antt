-- ===== src/I18n/Ne/Marriage2.antt =====
-- client/src/i18n/locales/ne/marriage.ts: the Nepali texts of the group marriage, part 2 of 2.
use bhidne_ho.Prelude.{List, [], ◌∷◌, String}

unfoldable pub marriage_2 : List (String × String)
marriage_2 =
    ("marriage_eligible_show_marriage", "म्यारिज पुग्यो · देखाउने")
    ∷ ("marriage_eligible_view_options", "म्यारिज पुग्यो · विकल्प हेर्ने")
    ∷ ("review_finish", "टुङ्ग्याउनुअघि जाँच्ने")
    ∷ ("view_winning_hand", "जित्ने हात हेर्ने")
    ∷ ("winning_hand", "जित्ने हात")
    ∷ ("your_winning_cards", "तपाईँका जित्ने तास")
    ∷ ("winning_after_maal", "माल हेरेपछि जित्ने")
    ∷ (
      "visible_discard_card_helps_before_after_cards_needed",
      "फालिएको {{card}} काम लाग्छ: चाहिने तास {{before}} → {{after}}।",
    )
    ∷ ("improves_coverage_to_covered_target_cards", "{{target}} मध्ये {{covered}} तास मिल्छन्")
    ∷ ("completes_a_winning_hand", "जित्ने हात पूरा हुन्छ")
    ∷ ("you_can_take_it_using_the_draw_control", "तास लिने बटनबाट यो लिन सक्नुहुन्छ।")
    ∷ ("wait_until_the_draw_action_allows_it", "तास लिन मिल्ने समयसम्म पर्खने।")
    ∷ ("wait_until_the_server_allows_this_draw", "सर्भरले यो तास लिन अनुमति नदिएसम्म पर्खने।")
    ∷ ("you_can_show_after_drawing_on_your_turn", "आफ्नो पालोमा तास तानेपछि देखाउन सक्नुहुन्छ।")
    ∷ (
      "you_can_show_marriage_when_finishing_is_allowed_on_your_turn",
      "आफ्नो पालोमा खेल टुङ्ग्याउन मिल्दा म्यारिज देखाउन सक्नुहुन्छ।",
    )
    ∷ ("shown_cards", "देखाइएका तास")
    ∷ ("view_shown_cards", "देखाइएका तास हेर्ने")
    ∷ ("player_s_shown_cards", "{{player}} ले देखाएका तास")
    ∷ ("view_player_s_shown_cards", "{{player}} ले देखाएका तास हेर्ने")
    ∷ ("showed_3_sequences_tunnelas", "३ सिक्वेन्स / टनेला देखाउनुभयो।")
    ∷ ("showed_7_dublees", "७ डुप्ली देखाउनुभयो।")
    ∷ ("completed_the_8th_dublee", "आठौँ डुप्ली पूरा गर्नुभयो।")
    ∷ ("completed_a_winning_hand", "जित्ने हात पूरा गर्नुभयो।")
    ∷ ("player_won_the_round", "{{player}} ले राउन्ड जित्नुभयो!")
    ∷ ("round_won", "🏆 राउन्ड जित्नुभयो!")
    ∷ ("winner", "विजेता")
    ∷ ("winner_player", "विजेता: {{player}}")
    ∷ ("game_result", "खेलको नतिजा")
    ∷ ("round_results", "राउन्डको नतिजा")
    ∷ ("winning_declaration", "जित्ने घोषणाको तास")
    ∷ ("won_because_all_other_players_folded", "अरू सबैले हात छोडेकाले जित्नुभयो।")
    ∷ ("marriage_complete_view_the_result", "म्यारिज सकियो · नतिजा हेर्ने")
    ∷ ("marriage_the_table_has_updated", "म्यारिज · टेबल अद्यावधिक भयो")
    ∷ ("winning_pair_unavailable_in_this_snapshot", "अहिलेको विवरणमा जित्ने जोडी उपलब्ध छैन।")
    ∷ ("player_stats_appear_when_the_game_starts", "खेल सुरु भएपछि खेलाडीको विवरण देखिन्छ।")
    ∷ ("points", "अङ्क")
    ∷ ("scoring_rules", "अङ्कका नियम")
    ∷ ("propose_scoring_rules", "अङ्कका नियम प्रस्ताव गर्ने")
    ∷ ("scoring_rules_are_loading", "अङ्कका नियम लोड हुँदैछन्।")
    ∷ ("how_the_points_were_calculated", "अङ्क कसरी हिसाब भयो")
    ∷ ("maal_points_points", "मालका अङ्क: {{points}}")
    ∷ ("own_maal_points", "आफ्नो माल: {{points}}")
    ∷ ("total_maal_points", "जम्मा माल: {{points}}")
    ∷ ("maal_net", "मालको खुद हिसाब")
    ∷ ("winner_payment_points", "विजेतालाई दिने: {{points}}")
    ∷ ("tunnela_bonus", "टनेलाको थप अङ्क")
    ∷ ("tunnela_bonus_applies_to", "टनेलाको थप अङ्क लागू हुने")
    ∷ ("extra_points_per_tunnela", "प्रति टनेला थप अङ्क")
    ∷ ("initial_tunnela_declaration_count", "सुरुमा घोषित टनेला: {{count}}")
    ∷ ("initially_declared_tunnelas", "सुरुमा घोषणा गरिएका टनेला")
    ∷ ("shown_tunnelas", "देखाइएका टनेला")
    ∷ ("all_final_tunnelas", "अन्तिम हातका सबै टनेला")
    ∷ ("extra_per_loser_dublee_win", "डुप्ली जित्दा प्रतिहारेका खेलाडीबाट थप")
    ∷ ("loser_payment_maal_seen", "हारेको भुक्तानी: माल हेरेको")
    ∷ ("loser_payment_maal_unseen", "हारेको भुक्तानी: माल नहेरेको")
    ∷ ("maal_points_all_players", "मालका अङ्क: सबै खेलाडी")
    ∷ ("maal_points_seen_players_only", "मालका अङ्क: माल हेरेका खेलाडी मात्र")
    ∷ ("all_players", "सबै खेलाडी")
    ∷ ("seen_players_only", "माल हेरेका खेलाडी मात्र")
    ∷ ("marriage_combination", "म्यारिज मिलान")
    ∷ ("house_bonus_default", "हाउस बोनस (पूर्वनिर्धारित)")
    ∷ ("simple_points", "सरल अङ्क")
    ∷ ("totals_for_1_2_3_copies_or_combinations", "१ / २ / ३ प्रति वा मिलानको जम्मा")
    ∷ ("none", "कुनै छैन")
    ∷ ("off", "बन्द")
    ∷ ("on", "चालु")
    ∷ ("no_scoring_cards", "अङ्क आउने तास छैन।")
    ∷ (
      "maal_points_are_not_counted_because_maal_was_not_seen",
      "माल नहेरेकाले मालका अङ्क गनिँदैनन्।",
    )
    ∷ ("item_count_points_points", "{{item}} × {{count}}: {{points}} अङ्क")
    ∷ ("net_maal_payment_total", "खुद हिसाब: {{maal}} + ({{payment}}) = {{total}}")
    ∷ ("tap_draw", "तास लिन थिच्ने")
    ∷ ("eligible_choices", "माल हेर्न योग्य · {{count}} {{choice}}{{suffix}}")
    ∷ (
      "visible_discard_progress",
      "फालिएको {{card}} ले मद्दत गर्छ: {{before}} → {{after}} तास चाहिन्छ। {{hint}}",
    )
    ∷ ("visible_discard_pair", "फालिएको {{card}} ले आठौँ जोडी पूरा गर्छ। {{hint}}")
    ∷ ("visible_discard_finish", "फालिएको {{card}} {{result}}। {{hint}}")
    ∷ (
      "wildcards_hint",
      "जोकर: मान, {{rank}} अङ्कका सबै तास, {{jhiplu}} र {{poplu}}। सिक्वेन्समा एक्का सानो हुन्छ।",
    )
    ∷ (
      "current_hand_progress",
      "अहिलेको हात · {{count}} तास। यसले चाहिने तास तुलना गर्छ, जित्ने सम्भावना होइन।",
    )
    ∷ (
      "maal_points_summary",
      "जम्मा माल: {{points}}। धनात्मक अङ्क जितेका हुन्; ऋणात्मक अङ्क तिर्नुपर्ने हुन्।",
    )
    ∷ (
      "maal_loser_payment",
      "प्रत्येक हार्नेले माल हेरेको भए {{seen}}, नहेरेको भए {{unseen}} तिर्छ; डुप्लीबाट जितेमा थप {{bonus}}।",
    )
    ∷ (
      "additional_bonus",
      "थप बोनस: {{count}} × {{rate}} = {{points}}। यी तासले मालको अङ्क पनि पाउन सक्छन्।",
    )
    ∷ ("maal_net_formula", "खुद माल: {{players}} × {{own}} - {{total}} = {{net}}")
    ∷ []
