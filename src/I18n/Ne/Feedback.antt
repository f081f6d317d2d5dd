-- ===== src/I18n/Ne/Feedback.antt =====
-- client/src/i18n/locales/ne/feedback.ts: the Nepali texts of the group feedback.
use bhidne_ho.Prelude.{List, [], ◌∷◌, String}

unfoldable pub feedback : List (String × String)
feedback =
    ("reconnecting", "फेरि जोडिँदै…")
    ∷ ("reconnecting_to_room", "कोठामा फेरि जोडिँदै…")
    ∷ ("reconnecting_to_your_room", "कोठामा फेरि जोडिँदै…")
    ∷ ("reconnecting_your_seat_is_saved", "फेरि जोडिँदै… तपाईँको सिट सुरक्षित छ।")
    ∷ ("reconnecting_send_when_you_re_back", "फेरि जोडिँदै… जोडिएपछि पठाउने।")
    ∷ ("updating_game", "खेल अद्यावधिक हुँदैछ…")
    ∷ ("game_updated", "खेल अद्यावधिक भयो")
    ∷ ("sending_your_action", "तपाईँको चाल पठाउँदै…")
    ∷ ("confirming_your_action", "तपाईँको चाल पुष्टि गर्दै…")
    ∷ ("waiting_for_the_server_to_confirm_your_action", "सर्भरबाट चालको पुष्टि पर्खँदै।")
    ∷ ("connection_interrupted_retrying", "जडान टुट्यो। फेरि प्रयास हुँदैछ…")
    ∷ ("check_your_connection_and_try_again", "जडान जाँचेर फेरि प्रयास गर्ने।")
    ∷ ("action_rejected", "चाल स्वीकार भएन।")
    ∷ ("social_action_rejected", "प्रतिक्रिया स्वीकार भएन।")
    ∷ ("social_request_cancelled", "अनुरोध रद्द भयो।")
    ∷ ("game_request_failed_try_again", "खेलको अनुरोध सफल भएन। फेरि प्रयास गर्ने।")
    ∷ ("cannot_load_game", "खेल लोड गर्न सकिएन।")
    ∷ ("cannot_update_game", "खेल अद्यावधिक गर्न सकिएन।")
    ∷ ("could_not_update_game", "खेल अद्यावधिक गर्न सकिएन।")
    ∷ ("could_not_restore_game", "खेलमा फर्कन सकिएन।")
    ∷ ("could_not_create_room", "कोठा बनाउन सकिएन।")
    ∷ ("could_not_enter_the_room", "कोठामा प्रवेश गर्न सकिएन। फेरि प्रयास गर्ने।")
    ∷ ("could_not_join_room_try_again", "कोठामा प्रवेश गर्न सकिएन। फेरि प्रयास गर्ने।")
    ∷ ("could_not_enter_this_table", "यो टेबलमा प्रवेश गर्न सकिएन।")
    ∷ ("could_not_enter_the_game_s_room_try_again", "खेलको कोठामा जान सकिएन। फेरि प्रयास गर्ने।")
    ∷ ("could_not_delete_the_room", "कोठा मेटाउन सकिएन।")
    ∷ ("could_not_leave_the_room", "कोठा छोड्न सकिएन।")
    ∷ ("could_not_leave_the_game", "खेल छोड्न सकिएन।")
    ∷ ("could_not_leave_the_previous_table", "अघिल्लो टेबल छोड्न सकिएन।")
    ∷ (
      "could_not_confirm_leaving_this_room_please_try_again",
      "कोठा छोडेको पुष्टि भएन। फेरि प्रयास गर्ने।",
    )
    ∷ ("could_not_load_member_names", "सदस्यका नाम लोड हुन सकेनन्।")
    ∷ ("could_not_open_invitation", "निमन्त्रणा खोल्न सकिएन।")
    ∷ ("could_not_search_recent_players", "हालैका खेलाडी खोज्न सकिएन।")
    ∷ ("could_not_search_the_player_directory", "खेलाडी खोज्न सकिएन।")
    ∷ ("could_not_search_players", "खेलाडी खोज्न सकिएन।")
    ∷ ("could_not_load_chat", "सन्देशहरू लोड हुन सकेनन्।")
    ∷ ("could_not_load_messages", "सन्देशहरू लोड हुन सकेनन्।")
    ∷ ("could_not_load_friends", "साथीहरूको सूची लोड हुन सकेन।")
    ∷ ("could_not_send_message", "सन्देश पठाउन सकिएन।")
    ∷ ("could_not_send_your_poke", "प्रतिक्रिया पठाउन सकिएन।")
    ∷ ("could_not_load_punchlines", "रमाइला भनाइ लोड हुन सकेनन्।")
    ∷ ("could_not_update_punchlines", "रमाइला भनाइ अद्यावधिक हुन सकेनन्।")
    ∷ ("could_not_update_friendship", "साथीसम्बन्धी अनुरोध पूरा हुन सकेन।")
    ∷ ("could_not_load_notifications", "सूचनाहरू लोड हुन सकेनन्।")
    ∷ ("could_not_update_notifications", "सूचनाहरू अद्यावधिक हुन सकेनन्।")
    ∷ ("could_not_update_the_request", "अनुरोध अद्यावधिक हुन सकेन।")
    ∷ ("could_not_update_the_room_invitation", "कोठाको निमन्त्रणा अद्यावधिक हुन सकेन।")
    ∷ ("could_not_update_the_table_invitation", "टेबलको निमन्त्रणा अद्यावधिक हुन सकेन।")
    ∷ ("could_not_load_ledger", "हिसाब लोड हुन सकेन।")
    ∷ ("could_not_start_settlement", "हिसाब मिलान सुरु गर्न सकिएन।")
    ∷ ("could_not_update_settlement", "हिसाब मिलान अद्यावधिक हुन सकेन।")
    ∷ ("could_not_sign_in_please_try_again", "लगइन गर्न सकिएन। फेरि प्रयास गर्ने।")
    ∷ (
      "could_not_share_use_the_copy_options_above",
      "सेयर गर्न सकिएन। माथिको कपी विकल्प प्रयोग गर्ने।",
    )
    ∷ (
      "could_not_complete_this_request_please_try_again",
      "अनुरोध पूरा हुन सकेन। फेरि प्रयास गर्ने।",
    )
    ∷ (
      "the_server_could_not_complete_this_request_please_try_again",
      "सर्भरले अनुरोध पूरा गर्न सकेन। फेरि प्रयास गर्ने।",
    )
    ∷ (
      "the_server_returned_an_unexpected_response_please_try_again",
      "सर्भरबाट अपेक्षित जवाफ आएन। फेरि प्रयास गर्ने।",
    )
    ∷ ("enter_a_room_name", "कोठाको नाम लेख्ने।")
    ∷ ("enter_a_table_name", "टेबलको नाम लेख्ने।")
    ∷ (
      "enter_a_valid_room_code_table_code_or_invitation_link",
      "सही कोठा/टेबल कोड वा निमन्त्रणा लिङ्क लेख्ने।",
    )
    ∷ (
      "no_players_found_use_an_exact_username_or_user_id",
      "खेलाडी भेटिएन। सही प्रयोगकर्ता नाम वा ID राख्ने।",
    )
    ∷ (
      "no_player_found_with_that_exact_name_username_or_user_id",
      "त्यो नाम, प्रयोगकर्ता नाम वा ID भएको खेलाडी भेटिएन।",
    )
    ∷ (
      "that_table_is_full_choose_a_table_with_an_open_seat",
      "टेबल भरिएको छ। खाली सिट भएको टेबल छान्ने।",
    )
    ∷ (
      "this_room_is_no_longer_available_refresh_the_lobby",
      "यो कोठा अब उपलब्ध छैन। लबी ताजा गर्ने।",
    )
    ∷ (
      "this_game_is_no_longer_available_ask_for_a_new_game_link",
      "यो खेल अब उपलब्ध छैन। नयाँ खेलको लिङ्क माग्ने।",
    )
    ∷ ("sign_in_again_before_creating_a_table", "टेबल बनाउनुअघि फेरि लगइन गर्ने।")
    ∷ ("sign_in_again_to_load_tables", "टेबलहरू हेर्न फेरि लगइन गर्ने।")
    ∷ ("reconnect_before_sending_a_poke", "प्रतिक्रिया पठाउनुअघि फेरि जोडिने।")
    ∷ ("sign_in_before_updating_your_phrases", "भनाइ बदल्नुअघि लगइन गर्ने।")
    ∷ (
      "enter_whole_nonnegative_point_amounts_and_counts",
      "अङ्क र सङ्ख्यामा शून्य वा धनात्मक पूर्णाङ्क लेख्ने।",
    )
    ∷ ("enter_whole_numbers_from_0_to_1000", "० देखि १००० सम्मका पूर्णाङ्क लेख्ने।")
    ∷ (
      "link_copied_paste_it_into_any_messaging_app",
      "लिङ्क कपी भयो। मेसेजिङ एपमा पेस्ट गर्न सक्नुहुन्छ।",
    )
    ∷ ("select_and_copy_the_link_below", "तलको लिङ्क छानेर कपी गर्ने।")
    ∷ ("unavailable", "उपलब्ध छैन")
    ∷ []
