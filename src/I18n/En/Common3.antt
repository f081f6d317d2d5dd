-- ===== src/I18n/En/Common3.antt =====
-- client/src/i18n/locales/en/common.ts: the English texts of the group common, part 3 of 3.
use bhidne_ho.Prelude.{List, [], ◌∷◌, String}

unfoldable pub common_3 : List (String × String)
common_3 =
    ("your_cards_status", "Your cards · {{status}}")
    ∷ ("action_everyone", "{{action}} for everyone")
    ∷ ("your_turn_colon", "Your turn: {{action}}")
    ∷ ("player_action", "{{player}}: {{action}}")
    ∷ ("label_yes_no", "{{label}}: {{value}}")
    ∷ ("chat_unread", "Table Chat, {{count}} unread")
    ∷ ("copied_fallback", "Copy this link")
    ∷ ("profile_name_required", "Profile name (required) · the name other players see")
    ∷ ("profile_name", "Profile name")
    ∷ ("name_nickname", "Your name or nickname")
    ∷ ("player_photo", "Player photo")
    ∷ ("anonymous_profile", "Anonymous player profile")
    ∷ ("friday_friends", "e.g. Friday friends")
    ∷ ("friday_with_friends", "e.g. Friday with friends")
    ∷ ("code_placeholder", "r- room code, t- table code, or link")
    ∷ ("callbreak_room", "CALL BREAK GAME ROOM")
    ∷ ("progress_groups", "{{ready}}/{{total}} groups ready · {{status}}")
    ∷ ("cards_status", "{{count}} cards{{status}}")
    ∷ ("player_cards", "{{player}} · {{count}} cards")
    ∷ ("need_cards", "Need: {{cards}}.")
    ∷ ("proposing", "Proposing…")
    ∷ ("seen_players_only", "seen players only")
    ∷ ("all_players", "all players")
    ∷ []
