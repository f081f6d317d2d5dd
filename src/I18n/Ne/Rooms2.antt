-- ===== src/I18n/Ne/Rooms2.antt =====
-- client/src/i18n/locales/ne/rooms.ts: the Nepali texts of the group rooms, part 2 of 2.
use bhidne_ho.Prelude.{List, [], ◌∷◌, String}

unfoldable pub rooms_2 : List (String × String)
rooms_2 =
    ("share_table", "टेबल सेयर गर्ने")
    ∷ ("share_table_invitation", "टेबलको निमन्त्रणा सेयर गर्ने")
    ∷ ("share_table_link_or_code", "टेबलको लिङ्क वा कोड सेयर गर्ने")
    ∷ ("shared_room_table_code", "साझा कोठाको टेबल कोड")
    ∷ ("your_shareable_table_code", "सेयर गर्न मिल्ने टेबल कोड")
    ∷ (
      "no_tables_yet_start_a_table_and_invite_your_friends",
      "टेबल छैन। नयाँ टेबल बनाएर साथीहरूलाई बोलाउनुहोस्।",
    )
    ∷ ("loading_tables", "टेबलहरू लोड हुँदैछन्…")
    ∷ ("retry_loading_tables", "टेबलहरू फेरि लोड गर्ने")
    ∷ ("retry_table_service", "टेबलहरू फेरि लोड गर्ने")
    ∷ ("open", "खुला")
    ∷ ("active", "चलिरहेको")
    ∷ ("waiting", "पर्खँदै")
    ∷ ("ready", "तयार")
    ∷ ("ready_to_start", "सुरु गर्न तयार")
    ∷ ("playing", "खेल चलिरहेको")
    ∷ ("completed", "पूरा भएको")
    ∷ ("ended", "सकिएको")
    ∷ ("table_ended", "टेबल सकियो")
    ∷ ("online", "अनलाइन")
    ∷ ("offline", "अफलाइन")
    ∷ ("waiting_for_players", "खेलाडीहरूलाई पर्खँदै")
    ∷ ("waiting_for_the_host", "आयोजकलाई पर्खँदै")
    ∷ ("waiting_for_eligible_players", "खेल्न मिल्ने खेलाडीहरूलाई पर्खँदै।")
    ∷ ("waiting_for_a_friend", "साथीलाई पर्खँदै…")
    ∷ ("waiting_for_everyone_to_take_a_seat", "सबै खेलाडी सिटमा बस्न पर्खँदै।")
    ∷ ("need_at_least_count_players", "कम्तीमा {{count}} खेलाडी चाहिन्छ")
    ∷ ("lock_game", "खेलाडी पक्का गर्ने")
    ∷ ("lock_table", "खेलाडी पक्का गर्ने")
    ∷ ("lock_players", "खेलाडी पक्का गर्ने")
    ∷ ("players_locked", "खेलाडी पक्का भए")
    ∷ ("roster_locked_ready_to_start", "खेलाडी पक्का भए · सुरु गर्न तयार")
    ∷ ("start_game", "खेल सुरु गर्ने")
    ∷ ("start_a_new_game", "नयाँ खेल सुरु गर्ने")
    ∷ ("prepare_next_match", "अर्को म्याच तयार गर्ने")
    ∷ ("match_completed_seats_for_the_next_match", "म्याच सकियो · अर्को म्याचका सिटहरू")
    ∷ ("leave_seat", "सिट छोड्ने")
    ∷ ("leave_table", "टेबल छोड्ने")
    ∷ ("leave_previous_table", "अघिल्लो टेबल छोड्ने")
    ∷ ("leave_previous_table_2", "अघिल्लो टेबल छोड्ने?")
    ∷ ("previous_table_is_reserved", "अघिल्लो टेबलको सिट अझै आरक्षित छ")
    ∷ (
      "previous_table_left_you_can_now_take_a_seat_here",
      "अघिल्लो टेबल छोडियो। अब यहाँ सिट लिन सक्नुहुन्छ।",
    )
    ∷ ("abandon_match", "म्याच बीचमै छोड्ने")
    ∷ ("abandon_active_game", "चलिरहेको खेल बीचमै छोड्ने?")
    ∷ ("abandon_previous_game", "अघिल्लो खेल बीचमै छोड्ने")
    ∷ ("confirm_abandon_match", "म्याच छोड्ने पुष्टि गर्ने")
    ∷ ("abandon_match_and_leave_room", "म्याच र कोठा दुवै छोड्ने")
    ∷ ("leave_game_and_room", "खेल र कोठा छोड्ने")
    ∷ ("end_game", "खेल समाप्त गर्ने")
    ∷ ("end_table", "टेबल समाप्त गर्ने")
    ∷ ("end_this_game", "यो खेल समाप्त गर्ने?")
    ∷ ("end_this_table", "यो टेबल समाप्त गर्ने?")
    ∷ ("cancel_ending_table", "टेबल समाप्त नगर्ने")
    ∷ ("this_table_is_closed_the_room_is_still_open", "यो टेबल बन्द भयो। कोठा अझै खुला छ।")
    ∷ ("propose_rules_bets", "नियम र दाउको प्रस्ताव गर्ने")
    ∷ ("review_rule_change", "नियमको परिवर्तन हेर्ने")
    ∷ ("accept_rules", "नियम स्वीकार गर्ने")
    ∷ ("reject_rules", "नियम अस्वीकार गर्ने")
    ∷ ("accepted_total_accepted", "{{total}} मध्ये {{accepted}} जनाले स्वीकार गरे")
    ∷ ("waiting_for_rule_approval", "नियम स्वीकृतिको प्रतीक्षामा।")
    ∷ ("creator_settings_save_before_starting", "आयोजकका सेटिङ · सुरु गर्नुअघि सेभ गर्ने")
    ∷ ("unsaved_changes", "सेभ नभएका परिवर्तनहरू")
    ∷ ("reload_saved_rules", "सेभ भएका नियम फेरि लोड गर्ने")
    ∷ ("rules_before_starting", "सुरु गर्नुअघिका नियमहरू")
    ∷ ("rules_locked_for_this_game", "यस खेलका नियम पक्का भइसके")
    ∷ ("new_rules_can_be_chosen_for_the_next_game", "अर्को खेलका लागि नयाँ नियम छान्न सकिन्छ।")
    ∷ ("return_table_status", "{{status}} · टेबलमा फर्कने")
    ∷ ("new_game_ready", "नयाँ {{game}} {{kind}} तयार छ!")
    ∷ ("waiting_replacements", "{{count}} खाली सिट स्वीकार हुने प्रतीक्षामा।")
    ∷ ("make_room_visibility", "कोठा {{visibility}} बनाउने")
    ∷ ("seat_summary", "{{seated}}/{{capacity}} सिट भरिएका · {{phase}}")
    ∷ ("your_seat", " · तपाईँको सिट {{seat}}")
    ∷ ("queue_suffix", " · पालोको सूचीमा स्थान {{position}}")
    ∷ ("observing_suffix", " · हेर्दै")
    ∷ ("waiting_suffix", " · {{count}} जना प्रतीक्षामा")
    ∷ (
      "invitation_summary",
      "{{game}} · {{phase}} · {{seated}}/{{capacity}} सिट भरिएका · {{players}} · खोल्दैमा सिट लिइँदैन।",
    )
    ∷ (
      "review_proposal",
      "{{player}} ले नियम परिवर्तन प्रस्ताव गरे · {{status}}{{details}} · हेर्ने",
    )
    ∷ ("proposal_accepted", "{{status}} · {{accepted}}/{{total}} ले स्वीकार गरे")
    ∷ ("save_rules_first", "लक गर्न वा सुरु गर्नुअघि नियम सेभ गर्ने वा फेरि लोड गर्ने।")
    ∷ []
