-- ===== src/I18n/Ne/Common1.antt =====
-- client/src/i18n/locales/ne/common.ts: the Nepali texts of the group common, part 1 of 3.
use bhidne_ho.Prelude.{List, [], ◌∷◌, String}

unfoldable pub common_1 : List (String × String)
common_1 =
    ("completing_sign_in", "लगइन पूरा गर्दै…")
    ∷ ("count_cards", "{{count}} तास")
    ∷ ("home", "गृहपृष्ठ")
    ∷ ("games", "खेलहरू")
    ∷ ("all_games", "सबै खेलहरू")
    ∷ ("friends", "साथीहरू")
    ∷ ("profile", "प्रोफाइल")
    ∷ ("back", "फर्कने")
    ∷ ("back_to_lobby", "लबीमा फर्कने")
    ∷ ("back_to_room", "कोठामा फर्कने")
    ∷ ("back_to_table", "टेबलमा फर्कने")
    ∷ ("back_to_your_cards", "आफ्नो तासमा फर्कने")
    ∷ ("continue", "अगाडि बढ्ने")
    ∷ ("continue_to_table", "टेबलमा जाने")
    ∷ ("return", "फर्कने")
    ∷ ("return_to_table", "टेबलमा फर्कने")
    ∷ ("close", "बन्द गर्ने")
    ∷ ("close_2", "बन्द गर्ने")
    ∷ ("cancel", "रद्द गर्ने")
    ∷ ("cancel_editing", "सम्पादन रद्द गर्ने")
    ∷ ("confirm", "पुष्टि गर्ने")
    ∷ ("done", "भयो")
    ∷ ("done_editing_number", "अङ्क सम्पादन भयो")
    ∷ ("accept", "स्वीकार गर्ने")
    ∷ ("decline", "अस्वीकार गर्ने")
    ∷ ("reject", "अस्वीकार गर्ने")
    ∷ ("yes", "हो")
    ∷ ("no", "होइन")
    ∷ ("save", "सेभ गर्ने")
    ∷ ("update", "अद्यावधिक गर्ने")
    ∷ ("remove", "हटाउने")
    ∷ ("delete", "मेटाउने")
    ∷ ("delete_permanently", "सधैँका लागि मेटाउने")
    ∷ ("search", "खोज्ने")
    ∷ ("retry", "फेरि प्रयास गर्ने")
    ∷ ("share", "सेयर गर्ने")
    ∷ ("share_2", "सेयर गर्ने")
    ∷ ("copy", "कपी गर्ने")
    ∷ ("copy_link", "लिङ्क कपी गर्ने")
    ∷ ("copy_invite_link", "निमन्त्रणा लिङ्क कपी गर्ने")
    ∷ ("copy_game_link", "खेलको लिङ्क कपी गर्ने")
    ∷ ("copy_room_link", "कोठाको लिङ्क कपी गर्ने")
    ∷ ("copy_table_link", "टेबलको लिङ्क कपी गर्ने")
    ∷ ("copy_unavailable", "कपी गर्न मिलेन")
    ∷ ("sharing_unavailable_table_ended", "टेबल सकियो · सेयर गर्न मिल्दैन")
    ∷ ("open_room", "कोठा खोल्ने")
    ∷ ("open_table", "टेबल खोल्ने")
    ∷ ("open_profile", "प्रोफाइल खोल्ने")
    ∷ ("more", "थप")
    ∷ ("preferences", "प्राथमिकताहरू")
    ∷ ("choose_an_action", "के गर्ने छान्ने")
    ∷ ("keep_playing", "खेलिरहने")
    ∷ ("view_results", "नतिजा हेर्ने")
    ∷ ("game_history", "खेलको इतिहास")
    ∷ ("stats", "खेलको विवरण")
    ∷ ("game_stats", "खेलको विवरण")
    ∷ ("rules", "नियमहरू")
    ∷ ("config", "सेटिङहरू")
    ∷ ("rules_and_config", "नियम र सेटिङहरू")
    ∷ ("how_to_play", "कसरी खेल्ने")
    ∷ ("recent_activity", "पछिल्लो गतिविधि")
    ∷ ("recent_game_activity", "खेलका पछिल्ला गतिविधि")
    ∷ ("notifications", "सूचनाहरू")
    ∷ ("mark_all_as_read", "सबै पढिएको बनाउने")
    ∷ ("no_activity_yet", "अहिलेसम्म कुनै गतिविधि छैन।")
    ∷ ("you_re_all_caught_up", "सबै सूचना हेरिसक्नुभयो")
    ∷ ("dismiss", "हटाउने")
    ∷ ("dismiss_message", "सन्देश हटाउने")
    ∷ ("table_menu", "टेबल मेनु")
    ∷ ("table_chat", "टेबल च्याट")
    ∷ ("players_waiting_queue", "खेलाडी र पालोको सूची")
    ∷ ("language", "भाषा")
    ∷ ("english", "English")
    ∷ ("nepali", "नेपाली")
    ∷ ("switch_language_to_language", "भाषा {{language}} बनाउने")
    ∷ ("theme", "थिम")
    ∷ ("table_theme", "टेबल थिम")
    ∷ ("choose_theme", "थिम छान्ने")
    ∷ ("choose_table_theme", "टेबल थिम छान्ने")
    ∷ ("current_theme_theme", "हालको थिम: {{theme}}")
    ∷ ("classic_green", "क्लासिक हरियो")
    ∷ ("nepali_heritage", "नेपाली सम्पदा")
    ∷ ("himalayan_dusk", "हिमाली साँझ")
    ∷ ("green_felt_and_polished_wood", "हरियो कपडा र चम्किलो काठ")
    ∷ ("paral_a_village_house_and_a_chautari", "पराल, गाउँको घर र चौतारी")
    ∷ ("mountain_silhouettes_beneath_an_evening_sky", "साँझको आकाशमुनि हिमालको झल्को")
    ∷ ("across_the_app_saved_on_this_device", "सबै पृष्ठमा लागू · यस उपकरणमा सेभ हुन्छ")
    ∷ ("welcome", "स्वागत छ")
    ∷ ("welcome_back", "फेरि स्वागत छ")
    ∷ ("welcome_player", "स्वागत छ, {{player}}")
    ∷ ("take_your_seat", "आफ्नो सिटमा बसौँ।")
    ∷ ("call_break_marriage_and_flush_with_friends", "साथीहरूसँग कल ब्रेक, म्यारिज र फ्लस।")
    ∷ ("sign_in", "लगइन गर्ने")
    ∷ ("sign_up", "खाता बनाउने")
    ∷ ("create_account", "खाता बनाउने")
    ∷ ("create_your_account", "आफ्नो खाता बनाउने")
    ∷ ("sign_in_or_create_account", "लगइन गर्ने वा खाता बनाउने")
    ∷ ("username", "प्रयोगकर्ता नाम")
    ∷ ("password", "पासवर्ड")
    ∷ ("continue_with_provider", "{{provider}} बाट अगाडि बढ्ने")
    ∷ ("signing_in_with_provider", "{{provider}} बाट लगइन हुँदैछ…")
    ∷ ("or", "वा")
    ∷ ("terms", "सर्तहरू")
    ∷ ("privacy", "गोपनीयता")
    ∷ ("please_wait", "केही बेर पर्खनुहोस्…")
    ∷ ("loading_bhidne_ho", "भिड्ने हो लोड हुँदैछ")
    ∷ ("your_cards", "तपाईँको तास")
    ∷ ("your_hand", "तपाईँको हातको तास")
    ∷ ("your_hand_count_cards", "तपाईँको हात · {{count}} तास")
    ∷ ("count_cards_left", "{{count}} तास बाँकी")
    ∷ ("count_cards_only_visible_to_you", "{{count}} तास · तपाईँले मात्र देख्नुहुन्छ")
    ∷ ("your_face_up_cards", "तपाईँका खोलिएका तास")
    ∷ ("your_hand_is_face_down", "तपाईँको तास उल्टो छ")
    ∷ ("hidden", "लुकाइएको")
    ∷ ("hidden_card", "लुकाइएको तास")
    ∷ ("hand_options", "तासका विकल्प")
    ∷ ("hand_view", "तासको दृश्य")
    ∷ ("grid", "पङ्क्तिमा")
    ∷ ("card_grid", "तास पङ्क्तिमा")
    ∷ ("fan", "पङ्खाजस्तो")
    ∷ ("sorted_fan", "मिलाइएको पङ्खा")
    ∷ ("suit_fan", "रङअनुसार पङ्खा")
    ∷ ("all_suits", "सबै रङ")
    ∷ ("filter_hand_by_suit", "रङअनुसार तास छान्ने")
    ∷ ("shuffle_suits", "तासका रङको क्रम फेर्ने")
    ∷ ("spades", "हुकुम")
    ∷ ("clubs", "चिडी")
    ∷ ("hearts", "पान")
    ∷ ("diamonds", "इँट")
    ∷ ("show_cards", "तास देखाउने")
    ∷ ("hide_cards", "तास लुकाउने")
    ∷ ("reveal_cards", "तास खोल्ने")
    ∷ ("reveal_your_hand", "आफ्नो तास खोल्ने")
    ∷ ("flip_all", "सबै खोल्ने")
    ∷ ("flip_all_cards", "सबै तास खोल्ने")
    ∷ ("reveal_next", "अर्को खोल्ने")
    ∷ ("reveal_next_card", "अर्को तास खोल्ने")
    ∷ ("reveal_card_card", "{{card}} खोल्ने")
    ∷ ("select_card", "{{card}} छान्ने")
    ∷ ("selected", "छानिएको")
    ∷ ("selected_2", "✓ छानिएको")
    ∷ ("cancel_card_selection", "तासको छनोट रद्द गर्ने")
    ∷ ("expand_your_card_area", "तासको भाग ठूलो गर्ने")
    ∷ ("collapse_your_card_area", "तासको भाग सानो गर्ने")
    ∷ ("close_your_card_area", "तासको भाग बन्द गर्ने")
    ∷ []
