-- ===== src/I18n/Ne/Marriage1.antt =====
-- client/src/i18n/locales/ne/marriage.ts: the Nepali texts of the group marriage, part 1 of 2.
use bhidne_ho.Prelude.{List, [], ◌∷◌, String}

unfoldable pub marriage_1 : List (String × String)
marriage_1 =
    ("folded", "हात छोडेको")
    ∷ ("eligible_combination_count_one", "माल हेर्न योग्य · {{count}} संयोजन तयार")
    ∷ ("eligible_combination_count_other", "माल हेर्न योग्य · {{count}} संयोजन तयार")
    ∷ ("eligible_combination_count", "माल हेर्न योग्य · {{count}} संयोजन तयार")
    ∷ ("your_turn_draw_a_card", "तपाईँको पालो · तास तान्ने")
    ∷ ("your_turn_select_a_card_to_discard", "तपाईँको पालो · फाल्ने तास छान्ने")
    ∷ ("your_turn_confirm_discard", "तपाईँको पालो · तास फाल्ने पक्का गर्ने")
    ∷ ("your_turn_finish_round", "तपाईँको पालो · राउन्ड टुङ्ग्याउने")
    ∷ ("your_turn_take_a_card", "तपाईँको पालो · तास लिने")
    ∷ ("your_turn_show_finish_or_discard", "तपाईँको पालो · देखाउने, टुङ्ग्याउने वा तास फाल्ने")
    ∷ ("waiting_for_turn", "पालो पर्खँदै")
    ∷ ("take_stock_count", "डेकबाट तान्ने · {{count}}")
    ∷ ("take_discard", "फालिएको तास लिने")
    ∷ ("tap_to_take_from_deck", "डेकबाट तान्न थिच्ने")
    ∷ ("tap_to_take_from_discard", "फालिएको तास लिन थिच्ने")
    ∷ ("taking_a_card", "तास लिँदै")
    ∷ ("taking_card", "तास लिँदै…")
    ∷ ("deck_count", "डेक · {{count}}")
    ∷ ("discard_pile", "फालिएका तासको थुप्रो")
    ∷ ("last_discard", "पछिल्लो फालिएको तास")
    ∷ ("just_drawn", "भर्खर तानिएको")
    ∷ ("new", "नयाँ")
    ∷ ("you_drew_card", "तपाईँले {{card}} तान्नुभयो")
    ∷ ("select_a_card_to_discard", "फाल्ने तास छान्ने")
    ∷ ("discard_card", "{{card}} फाल्ने")
    ∷ ("confirm_your_discard_below", "तल तास फाल्ने पुष्टि गर्ने")
    ∷ ("card_moving_to_discard", "तास फालिँदैछ")
    ∷ ("card_moving_to_player", "तास खेलाडीको हातमा जाँदैछ")
    ∷ ("tap_to_select", "छान्न थिच्ने")
    ∷ ("fold", "हात छोड्ने")
    ∷ ("confirm_fold", "हात छोड्ने पुष्टि गर्ने")
    ∷ ("folding", "हात छोड्दै")
    ∷ ("folded_watching_this_round", "हात छोडियो · यो राउन्ड हेर्दै")
    ∷ (
      "fold_this_round_you_can_keep_watching",
      "यो राउन्डको हात छोड्ने? हेर्न जारी राख्न सक्नुहुन्छ।",
    )
    ∷ ("finish_round", "राउन्ड टुङ्ग्याउने")
    ∷ ("confirm_finish", "टुङ्ग्याउने पुष्टि गर्ने")
    ∷ ("show_marriage", "म्यारिज देखाउने")
    ∷ ("confirm_show", "पक्का गरेर देखाउने")
    ∷ ("initial_tunnelas", "सुरुमा परेका टनेला")
    ∷ ("initial_tunnelas_shown", "सुरुका टनेला देखाइए")
    ∷ ("declare_your_initial_tunnelas", "सुरुमा परेका टनेला घोषणा गर्ने")
    ∷ ("choose_tunnelas_to_show", "देखाउने टनेला छान्ने")
    ∷ ("show_selected_tunnelas", "छानिएका टनेला देखाउने")
    ∷ ("declare_no_tunnela", "टनेला छैन भन्ने")
    ∷ ("no_tunnela_declare_none", "टनेला छैन · घोषणा गर्ने")
    ∷ ("tunnela_detected_choose_to_show", "टनेला भेटियो · देखाउन छान्ने")
    ∷ ("tunnela_number", "टनेला {{number}}")
    ∷ ("reveal_cards_to_check_tunnela", "टनेला जाँच्न तास खोल्ने")
    ∷ ("recording_declaration", "घोषणा दर्ता हुँदैछ…")
    ∷ ("declaration_recorded_waiting_for_other_players", "घोषणा दर्ता भयो · अरू खेलाडीलाई पर्खँदै।")
    ∷ ("waiting_for_tunnela_declarations", "टनेला घोषणाहरू पर्खँदै")
    ∷ ("player_showed_initial_tunnelas", "{{player}} ले सुरुका टनेला देखाउनुभयो")
    ∷ ("declared_tunnelas_before_play", "खेल सुरु हुनुअघि टनेला घोषणा गर्नुभयो।")
    ∷ ("your_path_to_maal", "माल हेर्न पुग्ने बाटो")
    ∷ ("maal", "माल")
    ∷ ("maal_hidden", "माल लुकाइएको")
    ∷ ("maal_not_seen", "माल हेरेको छैन")
    ∷ ("maal_seen", "माल हेरिसकेको")
    ∷ ("seeing_maal", "माल हेर्ने")
    ∷ ("view_maal", "माल हेर्ने")
    ∷ ("tap_to_see_the_maal", "माल हेर्न थिच्ने")
    ∷ ("tap_to_hide_the_maal", "माल लुकाउन थिच्ने")
    ∷ ("checking_maal", "माल हेर्न मिल्छ कि जाँच्दै…")
    ∷ ("reveal_cards_to_check_maal", "माल हेर्न मिल्छ कि जाँच्न तास खोल्ने")
    ∷ ("maal_not_eligible", "माल हेर्न अझै पुगेन")
    ∷ ("maal_eligible_show_for_maal", "माल हेर्न पुग्यो · तास देखाउने")
    ∷ ("maal_eligible_view_options", "माल हेर्न पुग्यो · विकल्प हेर्ने")
    ∷ ("eligible_to_see_maal_count_combinations_ready", "माल हेर्न पुग्यो · {{count}} मिलान तयार")
    ∷ ("a_qualifying_declaration_is_ready", "माल हेर्न पुग्ने मिलान तयार छ")
    ∷ ("both_routes_qualify_your_choice", "दुवै बाटोबाट माल हेर्न पुग्यो — आफैँ छान्ने")
    ∷ ("choose_your_route_to_maal", "माल हेर्ने बाटो छान्ने")
    ∷ ("choose_cards_to_show", "देखाउने तास छान्ने")
    ∷ ("cards_to_show_count", "देखाउने तास · {{count}}")
    ∷ ("3_sequences_tunnelas", "३ सिक्वेन्स / टनेला")
    ∷ ("three_sequences_tunnelas", "तीन सिक्वेन्स / टनेला")
    ∷ ("three_melds", "तीन मिलान")
    ∷ ("7_dublees", "७ डुप्ली")
    ∷ ("seven_dublees", "सात डुप्ली")
    ∷ ("sequence_tunnela", "सिक्वेन्स / टनेला")
    ∷ ("sequence", "सिक्वेन्स")
    ∷ ("tunnela", "टनेला")
    ∷ ("dublee", "डुप्ली")
    ∷ ("natural_groups", "जोकर नचाहिने मिलान")
    ∷ ("have_cards", "हातमा: {{cards}}")
    ∷ ("need", "चाहिने")
    ∷ ("needed_card", "चाहिने तास {{card}}")
    ∷ ("need_cards", "चाहिने: {{cards}}")
    ∷ ("count_more_cards_needed", "अझै {{count}} तास चाहिन्छ")
    ∷ ("held_total_held", "{{total}} मध्ये {{held}} तास हातमा")
    ∷ ("ready_total_groups_ready", "{{total}} मध्ये {{ready}} मिलान तयार")
    ∷ ("route_progress", "{{route}} को प्रगति")
    ∷ ("need_a_new_matching_pair", "अर्को उस्तै तासको जोडी चाहिन्छ।")
    ∷ ("need_a_new_natural_sequence_or_tunnela", "अर्को जोकरबिनाको सिक्वेन्स वा टनेला चाहिन्छ।")
    ∷ ("both_routes_need_the_same_number_of_additional_cards", "दुवै बाटोलाई बराबर थप तास चाहिन्छ।")
    ∷ (
      "route_needs_fewer_additional_cards_from_this_hand",
      "यस हातबाट {{route}} का लागि कम थप तास चाहिन्छ।",
    )
    ∷ ("outside_this_plan_count_cards", "यस मिलानबाहिर · {{count}} तास")
    ∷ ("select_kind_group_number_in_my_hand", "हातमा {{kind}} को मिलान {{number}} छान्ने")
    ∷ ("combination_number_of_total", "{{total}} मध्ये मिलान {{number}}")
    ∷ ("option_number_of_total", "{{total}} मध्ये विकल्प {{number}}")
    ∷ ("previous_combination", "अघिल्लो मिलान")
    ∷ ("next_combination", "अर्को मिलान")
    ∷ ("previous_option", "अघिल्लो विकल्प")
    ∷ ("next_option", "अर्को विकल्प")
    ∷ ("review_this_combination", "यो मिलान हेर्ने")
    ∷ ("review_3_sequences_tunnelas", "३ सिक्वेन्स / टनेला जाँच्ने")
    ∷ ("review_7_dublees", "७ डुप्ली जाँच्ने")
    ∷ ("ready_to_review_and_show", "जाँचेर देखाउन तयार")
    ∷ ("not_shown", "नदेखाइएको")
    ∷ ("already_shown", "देखाइसकेको")
    ∷ ("maal_unlocked", "✓ माल खुल्यो · {{cards}}")
    ∷ ("maal_unlocked_2", "✦ माल खुल्यो")
    ∷ ("player_unlocked_maal", "{{player}} ले माल खोल्नुभयो")
    ∷ (
      "your_hand_no_longer_qualifies_go_back_to_your_cards",
      "अहिलेको हातबाट पुग्दैन। आफ्नो तासमा फर्कने।",
    )
    ∷ ("your_eighth_dublee", "तपाईँको आठौँ डुप्ली")
    ∷ ("track_eighth_dublee", "आठौँ डुप्लीको अवस्था हेर्ने")
    ∷ ("waiting_for_a_matching_card", "जोडी मिल्ने तास पर्खँदै")
    ∷ ("cards_waiting_for_a_partner", "जोडी नपुगेका तास")
    ∷ ("need_another_card", "अर्को {{card}} चाहिन्छ।")
    ∷ ("ready_pairs", "तयार जोडीहरू")
    ∷ ("eighth_dublee_ready", "आठौँ डुप्ली तयार")
    ∷ ("dublee_finish", "डुप्लीबाट खेल टुङ्ग्याउने")
    ∷ ("winning_eighth_pair", "जिताउने आठौँ जोडी")
    ∷ ("seven_previously_shown_dublees", "पहिले देखाइएका सात डुप्ली")
    ∷ ("locked_qualification_cards", "माल हेर्न देखाएका पक्का तास")
    ∷ ("man_cannot_form_a_natural_dublee", "मानबाट प्राकृतिक डुप्ली बन्दैन।")
    ∷ (
      "card_cannot_form_a_new_pair_the_other_two_copies_are_already_locked",
      "{{card}} को नयाँ जोडी बन्दैन: बाँकी दुई प्रति पहिले नै पक्का छन्।",
    )
    ∷ ("visible_discard_card_completes_an_eighth_pair", "फालिएको {{card}} ले आठौँ जोडी पूरा गर्छ।")
    ∷ ("your_path_to_a_winning_hand", "जित्ने हात बनाउने बाटो")
    ∷ ("plan_winning_hand", "जित्ने हात मिलाउने")
    ∷ ("cards_outside_these_groups", "यी मिलानबाहिरका तास")
    ∷ ("suggested_completed_groups", "सुझाइएका तयार मिलान")
    ∷ ("covered_target_remaining_cards_grouped", "बाँकी {{target}} मध्ये {{covered}} तास मिलाइए")
    ∷ ("one_card_gaps_among_the_remaining_cards", "बाँकी तासमा एक तास थपे पुग्ने मिलान")
    ∷ ("sequence_wildcards", "सिक्वेन्स (जोकरसहित)")
    ∷ ("set", "सेट")
    ∷ ("a_wildcard", "जोकरको रूपमा चल्ने तास")
    ∷ ("suggested_final_discard", "अन्त्यमा फाल्न सुझाइएको तास")
    ∷ ("final_discard", "अन्तिम फाल्ने तास")
    ∷ ("final_discard_card", "अन्तिम फाल्ने तास: {{card}}")
    ∷ ("final_discard_excluded_from_scoring", "अन्तिम फालिएको तास · अङ्कमा गनिँदैन")
    ∷ ("remaining_in_your_hand_count_cards", "हातमा बाँकी · {{count}} तास")
    ∷ ("winning_groups_ready", "जित्ने मिलान तयार")
    ∷ ("checking_marriage", "म्यारिज पुगेको जाँच्दै…")
    ∷ ("reveal_cards_to_check_marriage", "म्यारिज जाँच्न तास खोल्ने")
    ∷ ("marriage_not_eligible", "म्यारिज अझै पुगेन")
    ∷ []
