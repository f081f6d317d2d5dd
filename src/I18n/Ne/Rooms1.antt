-- ===== src/I18n/Ne/Rooms1.antt =====
-- client/src/i18n/locales/ne/rooms.ts: the Nepali texts of the group rooms, part 1 of 2.
use bhidne_ho.Prelude.{List, [], ◌∷◌, String}

unfoldable pub rooms_1 : List (String × String)
rooms_1 =
    ("active_games", "चलिरहेका खेलहरू")
    ∷ ("active_tables", "चलिरहेका टेबलहरू")
    ∷ ("available_tables", "उपलब्ध टेबलहरू")
    ∷ ("all", "सबै")
    ∷ ("all_tables", "सबै टेबलहरू")
    ∷ ("open_seats", "खाली सिटहरू")
    ∷ ("view_all_games", "सबै खेल हेर्ने")
    ∷ ("filter_active_games", "चलिरहेका खेल छान्ने")
    ∷ ("refresh_active_games", "खेल सूची ताजा गर्ने")
    ∷ ("retry_active_games", "खेल सूची फेरि लोड गर्ने")
    ∷ ("browse_rooms", "कोठाहरू हेर्ने")
    ∷ ("browse_all_public_rooms", "सबै सार्वजनिक कोठा हेर्ने")
    ∷ ("public_rooms", "सार्वजनिक कोठाहरू")
    ∷ ("friends_rooms", "साथीहरूका कोठाहरू")
    ∷ ("friends_public_rooms", "साथीहरूका सार्वजनिक कोठाहरू")
    ∷ ("your_rooms", "आफ्ना कोठाहरू")
    ∷ ("rooms_you_created", "आफूले बनाएका कोठाहरू")
    ∷ ("joined_rooms", "आफू सहभागी कोठाहरू")
    ∷ ("recent", "पछिल्ला")
    ∷ ("recently_visited", "हालै गएका कोठाहरू")
    ∷ ("your_recent_rooms_on_this_device", "यस उपकरणबाट हालै गएका कोठाहरू।")
    ∷ ("no_active_tables_yet", "अहिले कुनै टेबल चलिरहेको छैन")
    ∷ ("no_game_tables_yet", "अहिले {{game}} को टेबल छैन")
    ∷ ("no_public_rooms_yet", "अहिलेसम्म सार्वजनिक कोठा छैन।")
    ∷ ("you_haven_t_created_a_room_yet", "तपाईँले अहिलेसम्म कोठा बनाउनुभएको छैन।")
    ∷ (
      "your_friends_haven_t_made_any_rooms_public_yet",
      "साथीहरूले अहिलेसम्म कुनै कोठा सार्वजनिक गरेका छैनन्।",
    )
    ∷ ("loading_active_tables", "चलिरहेका टेबलहरू लोड हुँदैछन्")
    ∷ ("couldn_t_load_tables", "टेबलहरू लोड हुन सकेनन्")
    ∷ ("couldn_t_refresh_tables", "टेबल सूची ताजा हुन सकेन")
    ∷ ("continue_playing", "खेल जारी राख्ने")
    ∷ ("choose_a_game", "खेल छान्ने")
    ∷ ("pick_your_game", "खेल छान्ने")
    ∷ ("choose_another_game", "अर्को खेल छान्ने")
    ∷ ("what_are_we_playing", "कुन खेल खेल्ने?")
    ∷ ("call_break", "कल ब्रेक")
    ∷ ("marriage", "म्यारिज")
    ∷ ("flush", "फ्लस")
    ∷ ("game_room", "खेलको कोठा")
    ∷ ("enter", "प्रवेश गर्ने")
    ∷ ("enter_game_room", "खेलको कोठामा जाने")
    ∷ ("enter_game_game_room", "{{game}} को कोठामा जाने")
    ∷ ("find_your_next_table", "खेल्ने टेबल खोज्ने")
    ∷ ("ready_for_a_round", "एक राउन्ड खेल्न तयार?")
    ∷ ("ready_to_play", "खेल्न तयार?")
    ∷ ("ready_for_another_round", "अर्को राउन्ड खेल्न तयार?")
    ∷ ("create", "बनाउने")
    ∷ ("create_room", "कोठा बनाउने")
    ∷ ("create_room_2", "+ कोठा बनाउने")
    ∷ ("make_room", "कोठा बनाउने")
    ∷ ("room_name", "कोठाको नाम")
    ∷ ("join", "सहभागी हुने")
    ∷ ("join_room", "कोठामा सहभागी हुने")
    ∷ ("join_with_code", "कोडबाट सहभागी हुने")
    ∷ ("room_or_table_code", "कोठा वा टेबलको कोड")
    ∷ ("room_code", "कोठाको कोड")
    ∷ ("room_code_code", "कोठाको कोड {{code}}")
    ∷ ("room_invitation", "कोठाको निमन्त्रणा")
    ∷ ("dismiss_invitation", "निमन्त्रणा हटाउने")
    ∷ ("retry_invitation", "निमन्त्रणा फेरि खोल्ने")
    ∷ ("opening_invitation", "निमन्त्रणा खुल्दैछ…")
    ∷ ("entering_room", "कोठामा प्रवेश हुँदैछ…")
    ∷ ("private", "निजी")
    ∷ ("public", "सार्वजनिक")
    ∷ ("room_privacy", "कोठाको गोपनीयता")
    ∷ ("who_can_discover_and_enter_this_room", "यो कोठा कसले देख्न र प्रवेश गर्न पाउँछ?")
    ∷ ("everyone_can_discover_and_join_this_room", "यो कोठा सबैले देख्न र सहभागी हुन सक्छन्।")
    ∷ (
      "every_signed_in_player_can_see_and_enter_it",
      "लगइन गरेका सबै खेलाडीले देख्न र प्रवेश गर्न सक्छन्।",
    )
    ∷ ("room_member", "कोठाका सदस्य")
    ∷ ("room_members", "कोठाका सदस्यहरू")
    ∷ ("members", "सदस्यहरू")
    ∷ ("members_count", "सदस्यहरू · {{count}}")
    ∷ ("members_members_online_online", "{{members}} सदस्य · {{online}} अनलाइन")
    ∷ ("count_more_members", "थप {{count}} सदस्य")
    ∷ ("count_online", "{{count}} अनलाइन")
    ∷ ("preview_room_members", "कोठाका सदस्य हेर्ने")
    ∷ ("room_membership", "कोठाको सदस्यता")
    ∷ ("room_options", "कोठाका विकल्प")
    ∷ ("more_room_actions", "कोठाका थप विकल्प")
    ∷ ("room_owner_controls", "कोठाधनीका विकल्प")
    ∷ ("invite", "निमन्त्रणा दिने")
    ∷ ("invite_people", "साथीहरूलाई बोलाउने")
    ∷ ("invite_people_optional", "साथीहरूलाई बोलाउने (ऐच्छिक)")
    ∷ ("invite_to_room", "कोठामा बोलाउने")
    ∷ ("invite_player_to_room", "{{player}} लाई कोठामा बोलाउने")
    ∷ ("find_people_to_invite_to_room", "कोठामा बोलाउन साथी खोज्ने")
    ∷ ("search_directory", "खेलाडी खोज्ने")
    ∷ ("search_players", "खेलाडी खोज्ने")
    ∷ ("name_username_or_user_id", "नाम, प्रयोगकर्ता नाम वा प्रयोगकर्ता ID")
    ∷ ("username_or_user_id", "प्रयोगकर्ता नाम वा प्रयोगकर्ता ID")
    ∷ ("remove_player", "{{player}} लाई हटाउने")
    ∷ (
      "invitation_sent_they_become_a_member_when_they_join",
      "निमन्त्रणा गयो। सहभागी भएपछि सदस्य बन्नुहुन्छ।",
    )
    ∷ ("stay_in_room", "कोठामै बस्ने")
    ∷ ("leave_room", "कोठा छोड्ने")
    ∷ ("leave_room_membership", "कोठाको सदस्यता छोड्ने")
    ∷ ("delete_room", "कोठा मेटाउने")
    ∷ ("confirm_delete_room", "कोठा मेटाउने पुष्टि गर्ने")
    ∷ ("are_you_sure_this_cannot_be_undone", "पक्का हो? यो परिवर्तन उल्ट्याउन मिल्दैन।")
    ∷ ("this_room_was_deleted_by_its_owner", "कोठाधनीले यो कोठा मेटाउनुभयो।")
    ∷ ("room_chat", "कोठाको च्याट")
    ∷ ("room_tables", "कोठाका टेबलहरू")
    ∷ ("tables", "टेबलहरू")
    ∷ ("room_ledger", "कोठाको हिसाब")
    ∷ ("retry_member_names", "सदस्यका नाम फेरि लोड गर्ने")
    ∷ ("create_table", "टेबल बनाउने")
    ∷ ("create_table_2", "+ टेबल बनाउने")
    ∷ ("create_this_table", "यो टेबल बनाउने")
    ∷ ("create_new_table", "+ नयाँ टेबल बनाउने")
    ∷ ("start_a_new_table", "नयाँ टेबल बनाउने")
    ∷ ("table_name", "टेबलको नाम")
    ∷ ("table_name_required", "टेबलको नाम (अनिवार्य)")
    ∷ ("required_to_create_a_table", "टेबल बनाउन आवश्यक")
    ∷ ("seats", "सिटहरू")
    ∷ ("seats_at_the_table", "टेबलका सिटहरू")
    ∷ ("count_players", "{{count}} खेलाडी")
    ∷ ("seated_capacity_seated", "{{seated}}/{{capacity}} सिट भरिएका")
    ∷ ("seated_of_capacity_seated", "{{capacity}} मध्ये {{seated}} सिट भरिएका")
    ∷ ("find_player_to_invite", "बोलाउन खेलाडी खोज्ने")
    ∷ ("find_players_to_invite", "बोलाउन खेलाडी खोज्ने")
    ∷ ("invite_players_optional", "खेलाडी बोलाउने (ऐच्छिक)")
    ∷ ("invite_your_friends", "साथीहरूलाई बोलाउने")
    ∷ ("take_seat", "सिटमा बस्ने")
    ∷ ("seat_available", "सिट खाली छ")
    ∷ ("empty_seat", "खाली सिट")
    ∷ ("table_full", "टेबल भरिएको छ")
    ∷ ("join_queue", "पालोको सूचीमा बस्ने")
    ∷ ("join_waitlist", "पालोको सूचीमा बस्ने")
    ∷ ("leave_waitlist", "पालोको सूचीबाट हट्ने")
    ∷ ("queue_position", "पालो #{{position}}")
    ∷ ("your_waitlist_position_position", "सूचीमा तपाईँको पालो: {{position}}")
    ∷ ("waitlist_position_position", "सूचीमा पालो {{position}}")
    ∷ ("watch", "हेर्ने")
    ∷ ("observing", "हेरिरहेको")
    ∷ ("stay_as_observer", "दर्शक भएर बस्ने")
    ∷ ("spectator_view", "दर्शकको दृश्य")
    ∷ ("watch_or_join_the_waitlist", "हेर्ने वा पालोको सूचीमा बस्ने")
    ∷ ("check_table_status", "टेबलको अवस्था हेर्ने")
    ∷ ("return_to_table_tablename", "टेबलमा फर्कने · {{tableName}}")
    ∷ ("your_seat_seat", "तपाईँको सिट {{seat}}")
    ∷ ("seat_seat_player", "सिट {{seat}}: {{player}}")
    ∷ ("invite_player", "{{player}} लाई बोलाउने")
    ∷ ("invite_a_replacement", "सट्टामा अर्को खेलाडी बोलाउने")
    ∷ ("accept_seat", "सिट स्वीकार गर्ने")
    ∷ ("decline_seat", "सिट अस्वीकार गर्ने")
    ∷ (
      "seat_seat_is_offered_to_you_for_the_next_match",
      "अर्को म्याचका लागि तपाईँलाई सिट {{seat}} दिइएको छ।",
    )
    ∷ ("ask_someone_to_take_seat_seat", "सिट {{seat}} मा बस्न खेलाडी बोलाउने")
    ∷ []
