-- ===== src/I18n/Ne/Common2.antt =====
-- client/src/i18n/locales/ne/common.ts: the Nepali texts of the group common, part 2 of 3.
use bhidne_ho.Prelude.{List, [], ◌∷◌, String}

unfoldable pub common_2 : List (String × String)
common_2 =
    ("current_turn", "अहिलेको पालो")
    ∷ ("turn", "पालो")
    ∷ ("your_turn", "तपाईँको पालो")
    ∷ ("player_s_turn", "{{player}} को पालो")
    ∷ ("your_turn_action", "तपाईँको पालो · {{action}}")
    ∷ ("your_turn_return_to_the_table", "तपाईँको पालो · टेबलमा फर्कने")
    ∷ ("your_cards_are_ready_review_your_hand", "तास तयार छ · आफ्नो हात हेर्ने")
    ∷ ("player", "खेलाडी")
    ∷ ("a_player", "एक खेलाडी")
    ∷ ("player_number", "खेलाडी {{number}}")
    ∷ ("you", "तपाईँ")
    ∷ ("player_you", "{{player}} (तपाईँ)")
    ∷ ("dealer", "तास बाँड्ने खेलाडी")
    ∷ ("english_family", "Proposed Nepali family")
    ∷ ("close_notifications", "सूचना बन्द गर्ने")
    ∷ ("close_table_menu", "टेबल मेनु बन्द गर्ने")
    ∷ ("close_table_menu_backdrop", "टेबल मेनु बन्द गर्ने")
    ∷ ("close_table_themes", "थिम विकल्प बन्द गर्ने")
    ∷ ("close_themes", "थिम विकल्प बन्द गर्ने")
    ∷ ("close_table_sharing", "टेबल सेयर विकल्प बन्द गर्ने")
    ∷ ("close_room_sharing", "कोठा सेयर विकल्प बन्द गर्ने")
    ∷ ("close_public_rooms", "सार्वजनिक कोठाको सूची बन्द गर्ने")
    ∷ ("close_room_form", "कोठाको फारम बन्द गर्ने")
    ∷ ("close_room_panel", "कोठाको प्यानल बन्द गर्ने")
    ∷ ("close_rule_review", "नियम समीक्षा बन्द गर्ने")
    ∷ ("close_call_break_rules", "कल ब्रेकका नियम बन्द गर्ने")
    ∷ ("close_flush_rules", "फ्लसका नियम बन्द गर्ने")
    ∷ ("close_bet", "चालको विवरण बन्द गर्ने")
    ∷ ("close_final_show", "अन्तिम शो बन्द गर्ने")
    ∷ ("close_details", "विवरण बन्द गर्ने")
    ∷ ("close_player_details", "खेलाडीको विवरण बन्द गर्ने")
    ∷ ("close_shown_cards", "देखाइएका तास बन्द गर्ने")
    ∷ ("close_finish_tool", "खेल टुङ्ग्याउने सहयोगी बन्द गर्ने")
    ∷ ("close_table_announcement", "टेबलको घोषणा बन्द गर्ने")
    ∷ ("close_chat", "च्याट बन्द गर्ने")
    ∷ ("close_private_chat", "निजी च्याट बन्द गर्ने")
    ∷ ("close_table_chat", "टेबल च्याट बन्द गर्ने")
    ∷ ("close_poke_composer", "जिस्क्याउने सन्देश बन्द गर्ने")
    ∷ ("close_poke_tools", "प्रतिक्रिया विकल्प बन्द गर्ने")
    ∷ ("dismiss_social_error", "प्रतिक्रियासम्बन्धी त्रुटि हटाउने")
    ∷ ("expand_or_minimize_room_chat", "कोठाको च्याट ठूलो वा सानो गर्ने")
    ∷ ("reveal_next_card_from_position_position", "स्थान {{position}} को अर्को तास खोल्ने")
    ∷ ("turn_this_card_face_up_without_playing_it", "नखेलेकन यो तास खोल्ने")
    ∷ ("copy_copynumber", "प्रति {{copyNumber}}")
    ∷ ("copy_kind_code", "{{kind}} को कोड कपी गर्ने")
    ∷ ("game_room_preview", "खेलको कोठाको नमुना")
    ∷ ("preview_a_card_table", "तासको टेबलको नमुना हेर्ने")
    ∷ ("preview_card_table", "तासको टेबलको नमुना हेर्ने")
    ∷ ("create_table_preview", "टेबलको नमुना बनाउने")
    ∷ ("reset_table_preview", "टेबलको नमुना फेरि सुरु गर्ने")
    ∷ ("preview_paused", "नमुना रोकिएको")
    ∷ ("card_placed_preview_paused", "तास राखियो · नमुना रोकिएको")
    ∷ ("place_selected_card", "छानिएको तास राख्ने")
    ∷ ("place_card_on_the_table", "{{card}} टेबलमा राख्ने")
    ∷ ("select_a_card_to_place", "राख्ने तास छान्ने")
    ∷ ("sample_tables", "नमुना टेबलहरू")
    ∷ ("waiting_room_preview", "खेल पर्खने कोठाको नमुना")
    ∷ ("exit_preview", "नमुनाबाट बाहिरिने")
    ∷ ("go_to_room_list_to_enter_a_code", "कोड राख्न कोठाको सूचीमा जाने")
    ∷ ("count_players_5_deals_local_preview", "{{count}} खेलाडी · ५ डिल · स्थानीय नमुना")
    ∷ ("bidding_begins_when_everyone_accepts", "सबैले हात स्वीकार गरेपछि बोली सुरु हुन्छ।")
    ∷ ("cut_in_half_or_skip_the_cut", "बीचबाट काट्ने वा नकाट्ने।")
    ∷ ("final_scores_after_five_deals", "पाँच डिलपछिका अन्तिम अङ्कहरू।")
    ∷ ("review_the_scores_before_the_next_deal", "अर्को डिलअघि अङ्कहरू हेर्ने।")
    ∷ (
      "review_your_cards_while_the_remaining_players_bid",
      "अरूको बोली लाग्दै गर्दा आफ्नो तास हेर्ने।",
    )
    ∷ ("swipe_your_hand_to_see_every_card", "सबै तास हेर्न हातको तास सार्ने।")
    ∷ ("the_dealer_shuffles_to_begin_this_deal", "डिल सुरु गर्न बाँड्ने खेलाडीले तास फिट्ने।")
    ∷ ("waiting_for_the_table", "टेबल तयार हुन पर्खँदै।")
    ∷ (
      "your_bid_is_submitted_only_when_you_confirm", "पक्का गरेपछि मात्र तपाईँको बोली दर्ता हुन्छ।",
    )
    ∷ ("your_hand_in_dealt_order", "बाँडिएको क्रममै तपाईँको तास")
    ∷ ("your_hand_grouped_by_suit_suits", "रङअनुसार मिलाइएको तपाईँको तास: {{suits}}")
    ∷ ("blind_blindamount_seen_seenamount", "ब्लाइन्ड {{blindAmount}} · हेरेपछि {{seenAmount}}")
    ∷ ("show_status", "शो: {{status}}")
    ∷ (
      "propose_these_changes_for_approval_before_starting",
      "सुरु गर्नुअघि यी परिवर्तन स्वीकृतिका लागि प्रस्ताव गर्ने।",
    )
    ∷ ("save_or_reload_rule_changes_first", "पहिले नियमका परिवर्तन सेभ वा फेरि लोड गर्ने।")
    ∷ (
      "saved_rules_changed_reload_before_editing_or_starting",
      "सेभ भएका नियम फेरिए। सम्पादन वा सुरु गर्नुअघि फेरि लोड गर्ने।",
    )
    ∷ ("deal_and_turns", "तास बाँड्ने र पालो")
    ∷ ("points_and_privacy", "अङ्क र गोपनीयता")
    ∷ ("showing_or_discarding", "तास देखाउने वा फाल्ने")
    ∷ ("tiplu_jhiplu_poplu_and_alter", "टिप्लु, झिप्लु, पोप्लु र अल्टर")
    ∷ (
      "tiplu_tiplu_jhiplu_jhiplu_poplu_poplu",
      "टिप्लु {{tiplu}} · झिप्लु {{jhiplu}} · पोप्लु {{poplu}}",
    )
    ∷ ("man_copynumber", "मान · {{copyNumber}}")
    ∷ ("3_sequences_tunnelas_options", "३ सिक्वेन्स / टनेला ({{options}})")
    ∷ ("7_dublees_options", "७ डुप्ली ({{options}})")
    ∷ ("waiting_for_the_creator_to_start", "आयोजकले सुरु गर्न पर्खँदै।")
    ∷ ("waiting_for_the_creator_to_start_the_next_deal", "आयोजकले अर्को डिल सुरु गर्न पर्खँदै।")
    ∷ ("waiting_for_eligible_seats_and_rule_approval", "योग्य खेलाडी र नियम स्वीकृति पर्खँदै।")
    ∷ ("everyone_is_ready_the_creator_can_start", "सबै तयार · आयोजकले सुरु गर्न सक्नुहुन्छ")
    ∷ (
      "waiting_for_the_host_seated_capacity_seated",
      "आयोजकलाई पर्खँदै · {{seated}}/{{capacity}} सिट भरिएका",
    )
    ∷ ("4_or_5_players_five_deals", "४ वा ५ खेलाडी · पाँच डिल")
    ∷ ("a_quick_refresher", "छोटो सम्झना")
    ∷ ("new_to_call_break", "कल ब्रेकमा नयाँ हुनुहुन्छ?")
    ∷ (
      "open_a_room_or_bring_your_players_together", "कोठा खोल्ने वा साथीहरूलाई एकै ठाउँमा बोलाउने।",
    )
    ∷ ("bring_your_people_together_for_another_round", "अर्को राउन्डका लागि साथीहरूलाई बोलाऔँ।")
    ∷ ("a_little_suspense_a_familiar_circle_of_friends", "अलिकति कौतुहल। आफ्नै साथीहरूको जमघट।")
    ∷ ("good_cards_better_company", "तासको मजा। साथीहरूको साथ।")
    ∷ ("the_table_is_taking_shape", "टेबलमा खेलाडी जुट्दैछन्।")
    ∷ ("there_s_always_room_for_one_more_round", "अर्को राउन्ड खेल्न अझै मौका छ।")
    ∷ ("choose_game", "{{game}} छान्ने")
    ∷ ("join_tablename", "{{tableName}} मा सहभागी हुने")
    ∷ ("leave_gameortable", "{{gameOrTable}} छोड्ने")
    ∷ ("share_name", "{{name}} सेयर गर्ने")
    ∷ ("shareable_table_code_code", "सेयर गर्न मिल्ने टेबल कोड {{code}}")
    ∷ (
      "showing_the_last_available_tables_try_refreshing_again",
      "पछिल्लो उपलब्ध टेबल सूची देखाइएको छ। फेरि ताजा गर्ने।",
    )
    ∷ (
      "this_round_has_no_scoring_breakdown_available",
      "यस राउन्डको अङ्कको विस्तृत हिसाब उपलब्ध छैन।",
    )
    ∷ ("accepting_adds_this_room_to_your_memberships", "स्वीकार गरेपछि यो कोठाको सदस्य बन्नुहुन्छ।")
    ∷ ("current_deal_newest_first", "अहिलेको डिल · नयाँ पहिले")
    ∷ ("recent_server_events_newest_first", "सर्भरका पछिल्ला गतिविधि · नयाँ पहिले")
    ∷ ("revision_number", "अद्यावधिक क्रम {{number}}")
    ∷ ("game_complete_see_the_final_scores", "खेल सकियो · अन्तिम अङ्क हेर्ने")
    ∷ ("join_my_bhidne_ho_table", "मेरो भिड्ने हो टेबलमा आउनुहोस्")
    ∷ ("offline_player", "अफलाइन · {{player}}")
    ∷ ("need_count", "{{count}} चाहिने")
    ∷ ("won_count", "जितेका {{count}}")
    ∷ ("player_played_card", "{{player}} ले {{card}} खेल्नुभयो")
    ∷ (
      "player_deal_deal_bid_bid_won_tricks",
      "{{player}}, डिल {{deal}}, बोली {{bid}}, जितेका बाजी {{tricks}}",
    )
    ∷ (
      "game_phase_seated_capacity_players", "{{game}} · {{phase}} · {{seated}}/{{capacity}} खेलाडी",
    )
    ∷ ("count_waiting", "{{count}} जना पर्खँदै")
    ∷ ("game_table", "{{game}} को टेबल")
    ∷ ("game_code_code", "{{game}} को कोड {{code}}")
    ∷ (
      "player_proposed_rule_changes_review",
      "{{player}} ले नियम परिवर्तन प्रस्ताव गर्नुभयो · हेर्ने",
    )
    ∷ ("player_place_1st_amount_units", "{{player}} को स्थान → पहिलो स्थान: {{amount}} एकाइ")
    ∷ (
      "session_expired_the_server_may_have_restarted_sign_out_to_start_a_new_session",
      "सत्र सकियो। सर्भर पुनः सुरु भएको हुन सक्छ। लगआउट गरेर फेरि लगइन गर्ने।",
    )
    ∷ (
      "browser_session_storage_is_unavailable_enable_it_to_sign_in",
      "ब्राउजरको सत्र भण्डारण उपलब्ध छैन। लगइन गर्न यसलाई खुला गर्ने।",
    )
    ∷ (
      "could_not_confirm_delivery_check_the_conversation_before_sending_again",
      "सन्देश पुगेको पुष्टि भएन। फेरि पठाउनुअघि कुराकानी हेर्ने।",
    )
    ∷ (
      "the_game_changed_your_pending_action_was_not_retried",
      "खेल फेरियो। बाँकी रहेको चाल फेरि पठाइएन।",
    )
    ∷ (
      "connection_interrupted_your_action_will_be_checked_automatically",
      "जडान टुट्यो। तपाईँको चालको अवस्था आफैँ जाँचिनेछ…",
    )
    ∷ (
      "waiting_for_the_table_service_your_form_will_stay_open_while_it_retries",
      "टेबल सेवा पर्खँदै। फेरि प्रयास हुँदा फारम खुलै रहन्छ।",
    )
    ∷ ("table", "टेबल")
    ∷ ("room", "कोठा")
    ∷ ("game", "खेल")
    ∷ ("on", "चालु")
    ∷ ("off", "बन्द")
    ∷ ("man", "मान")
    ∷ ("score", "स्कोर")
    ∷ ("send_privately", "निजी सन्देश पठाउने")
    ∷ ("no_messages_yet", "अहिलेसम्म सन्देश छैन।")
    ∷ ("send_table_message", "टेबलमा सन्देश पठाउने")
    ∷ ("all_games_arrow", "← सबै खेलहरू")
    ∷ ("back_lobby_arrow", "← लबीमा फर्कने")
    ∷ ("browse_public_arrow", "सबै सार्वजनिक कोठा हेर्ने →")
    ∷ ("browse_rooms_arrow", "कोठाहरू हेर्ने →")
    ∷ ("enter_room_arrow", "खेलको कोठामा जाने →")
    ∷ ("how_play_arrow", "कसरी खेल्ने ↗")
    ∷ ("player_remove", "{{player}} · हटाउने")
    ∷ []
