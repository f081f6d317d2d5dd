-- ===== src/I18n/Ne/Common3.antt =====
-- client/src/i18n/locales/ne/common.ts: the Nepali texts of the group common, part 3 of 3.
use bhidne_ho.Prelude.{List, [], ◌∷◌, String}

unfoldable pub common_3 : List (String × String)
common_3 =
    ("your_cards_status", "तपाईँको तास · {{status}}")
    ∷ ("action_everyone", "सबैका लागि {{action}}")
    ∷ ("your_turn_colon", "तपाईँको पालो: {{action}}")
    ∷ ("player_action", "{{player}}: {{action}}")
    ∷ ("label_yes_no", "{{label}}: {{value}}")
    ∷ ("chat_unread", "टेबल च्याट, {{count}} नपढिएका")
    ∷ ("copied_fallback", "यो लिङ्क कपी गर्ने")
    ∷ ("profile_name_required", "प्रोफाइल नाम (अनिवार्य) · अरू खेलाडीले देख्ने नाम")
    ∷ ("profile_name", "प्रोफाइल नाम")
    ∷ ("name_nickname", "तपाईँको नाम वा उपनाम")
    ∷ ("player_photo", "खेलाडीको फोटो")
    ∷ ("anonymous_profile", "नाम नखुलेको खेलाडीको प्रोफाइल")
    ∷ ("friday_friends", "जस्तै: शुक्रबारका साथीहरू")
    ∷ ("friday_with_friends", "जस्तै: साथीहरूसँग शुक्रबार")
    ∷ ("code_placeholder", "r- कोठाको कोड, t- टेबलको कोड वा लिङ्क")
    ∷ ("callbreak_room", "कल ब्रेक खेलको कोठा")
    ∷ ("progress_groups", "{{ready}}/{{total}} समूह तयार · {{status}}")
    ∷ ("cards_status", "{{count}} तास{{status}}")
    ∷ ("player_cards", "{{player}} · {{count}} तास")
    ∷ ("need_cards", "चाहिने तास: {{cards}}।")
    ∷ ("proposing", "प्रस्ताव पठाउँदै…")
    ∷ ("seen_players_only", "माल हेरेका खेलाडी मात्र")
    ∷ ("all_players", "सबै खेलाडी")
    ∷ []
