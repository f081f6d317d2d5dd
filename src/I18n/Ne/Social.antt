-- ===== src/I18n/Ne/Social.antt =====
-- client/src/i18n/locales/ne/social.ts: the Nepali texts of the group social.
use bhidne_ho.Prelude.{List, [], ◌∷◌, String}

unfoldable pub social : List (String × String)
social =
    ("emoji_tab", "इमोजी")
    ∷ ("punchlines_tab", "रमाइला भनाइ")
    ∷ ("punchline_message", "रमाइलो भनाइ")
    ∷ ("send_punchline", "भनाइ पठाउने")
    ∷ ("punchline_public", "तपाईँको भनाइ टेबलका सबैले देख्न सक्छन्।")
    ∷ ("punchline_from", "{{player}} ले तपाईँलाई रमाइलो भनाइ पठाउनुभयो")
    ∷ ("preset_nice_move", "क्या राम्रो चाल!")
    ∷ ("preset_your_move", "अब तिम्रो पालो, हिरो!")
    ∷ ("preset_lucky_cards", "अलिकति भाग्य मलाई पनि देऊ!")
    ∷ ("preset_well_played", "राम्रो खेल्यौ, साथी!")
    ∷ ("your_friends", "तपाईँका साथीहरू")
    ∷ ("add_friend", "साथी बनाउने")
    ∷ ("already_connected", "पहिले नै साथी हुनुहुन्छ")
    ∷ ("find_players", "खेलाडी खोज्ने")
    ∷ ("username_or_display_name", "प्रयोगकर्ता नाम वा देखिने नाम")
    ∷ ("requests_received", "आएका अनुरोध")
    ∷ ("requests_sent", "पठाइएका अनुरोध")
    ∷ ("no_friends_yet", "अहिलेसम्म साथी छैनन्।")
    ∷ ("message", "सन्देश पठाउने")
    ∷ ("message_player", "{{player}} लाई सन्देश पठाउने")
    ∷ ("game_invitation", "खेलको निमन्त्रणा")
    ∷ ("player_invited_you_to_tablename", "{{player}} ले तपाईँलाई {{tableName}} मा बोलाउनुभयो।")
    ∷ ("sent_you_a_connection_request", "तपाईँलाई साथी बन्न अनुरोध पठाउनुभयो।")
    ∷ ("accepted_your_connection_request", "तपाईँको साथी बन्ने अनुरोध स्वीकार गर्नुभयो।")
    ∷ ("declined_your_connection_request", "तपाईँको साथी बन्ने अनुरोध अस्वीकार गर्नुभयो।")
    ∷ ("requests_and_social_updates", "अनुरोध र साथीहरूका गतिविधि")
    ∷ ("friend_and_room_activity_will_appear_here", "साथी र कोठाका गतिविधि यहाँ देखिन्छन्।")
    ∷ ("chat", "च्याट")
    ∷ ("chat_paused", "च्याट · रोकिएको")
    ∷ ("chat_is_paused", "च्याट रोकिएको छ")
    ∷ ("paused", "रोकिएको")
    ∷ ("chat_with_player", "{{player}} सँग च्याट")
    ∷ ("table_message", "टेबलको सन्देश")
    ∷ ("send", "पठाउने")
    ∷ ("sending", "पठाउँदै…")
    ∷ ("send_chat_message", "च्याट सन्देश पठाउने")
    ∷ ("send_table_message", "टेबलमा सन्देश पठाउने")
    ∷ ("send_privately", "निजी सन्देश पठाउने")
    ∷ ("write_a_private_message", "निजी सन्देश लेख्ने")
    ∷ ("no_messages_yet", "अहिलेसम्म सन्देश छैन")
    ∷ ("count_new", "{{count}} नयाँ")
    ∷ ("count_unread_messages", "{{count}} नपढिएका सन्देश")
    ∷ ("chat_sound_on", "च्याटको आवाज चालु")
    ∷ ("chat_sound_off", "च्याटको आवाज बन्द")
    ∷ ("chat_is_paused_while_you_are_playing", "तपाईँ खेलिरहँदा च्याट रोकिएको छ।")
    ∷ (
      "waiting_players_can_read_take_a_seat_to_chat",
      "पालो पर्खेकाले पढ्न सक्छन्। च्याट गर्न सिटमा बस्ने।",
    )
    ∷ ("everyone_in_this_room_will_see_it", "यो कोठाका सबैले देख्नुहुन्छ।")
    ∷ ("only_player_will_see_this_message", "यो सन्देश {{player}} ले मात्र देख्नुहुन्छ।")
    ∷ ("start_the_table_conversation", "टेबलमा कुराकानी सुरु गर्ने।")
    ∷ ("say_something_to_get_the_table_going", "केही रमाइलो कुरा लेखौँ।")
    ∷ ("poke", "जिस्क्याउने / खेलाडीलाई जिस्क्याउने")
    ∷ ("poke_a_player", "जिस्क्याउने / खेलाडीलाई जिस्क्याउने")
    ∷ ("poke_player", "जिस्क्याउने / खेलाडीलाई जिस्क्याउने")
    ∷ ("poke_the_table", "टेबलमा जिस्क्याउने")
    ∷ ("choose_a_player", "खेलाडी छान्ने")
    ∷ (
      "choose_a_reaction_everyone_at_this_table_can_see_it",
      "प्रतिक्रिया छान्ने। टेबलका सबैले देख्नुहुन्छ।",
    )
    ∷ ("love", "माया")
    ∷ ("pinch", "चिमोट्ने")
    ∷ ("clap", "ताली")
    ∷ ("cheers", "चियर्स")
    ∷ ("laugh", "हाँसो")
    ∷ ("playful_hammer", "रमाइलो ठटाइ")
    ∷ ("send_reaction", "{{reaction}} पठाउने")
    ∷ ("poke_player_2", "{{player}} लाई जिस्क्याउने")
    ∷ ("send_poke_to_player", "{{player}} लाई जिस्क्याउने")
    ∷ ("player_sent_you_reaction", "{{player}} ले तपाईँलाई {{reaction}} पठाउनुभयो!")
    ∷ ("poke_sent", "प्रतिक्रिया पठाइयो")
    ∷ ("poke_sent_to_player", "{{player}} लाई प्रतिक्रिया पठाइयो")
    ∷ ("sent_to_the_table", "टेबलमा पठाइयो")
    ∷ ("no_other_seated_players_to_poke_yet", "अहिले जिस्क्याउन अर्को खेलाडी सिटमा छैन।")
    ∷ ("just_for_you", "तपाईँका लागि मात्र")
    ∷ ("table_talk", "टेबलको गफ")
    ∷ ("save_phrase", "+ भनाइ सेभ गर्ने")
    ∷ ("my_goofy_phrases_count", "मेरा रमाइला भनाइ · {{count}}")
    ∷ ("save_personal_phrase", "आफ्नो भनाइ सेभ गर्ने")
    ∷ ("editing_phrase", "भनाइ सम्पादन गर्दै")
    ∷ ("edit_phrase_phrase", "भनाइ सम्पादन गर्ने: {{phrase}}")
    ∷ ("remove_punchline_phrase", "रमाइलो भनाइ हटाउने: {{phrase}}")
    ∷ ("saved_to_your_phrases", "तपाईँका भनाइमा सेभ भयो।")
    ∷ ("your_own_little_punchline", "आफ्नो रमाइलो भनाइ…")
    ∷ ("a_keyword_or_punchline", "कुनै शब्द वा रमाइलो भनाइ…")
    ∷ ("poke_message_count_characters_maximum", "जिस्क्याउने सन्देश, बढीमा {{count}} अक्षर")
    ∷ ("new_personal_phrase_count_characters_maximum", "नयाँ भनाइ, बढीमा {{count}} अक्षर")
    ∷ ("saved_limit_saved", "{{limit}} मध्ये {{saved}} सेभ भएका")
    ∷ ("your_turn_return_to_game", "तपाईँको पालो · खेलमा फर्कने")
    ∷ []
