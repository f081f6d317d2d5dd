-- ===== src/I18n/En/Social.antt =====
-- client/src/i18n/locales/en/social.ts: the English texts of the group social.
use bhidne_ho.Prelude.{List, [], ◌∷◌, String}

unfoldable pub social : List (String × String)
social =
    ("emoji_tab", "Emoji")
    ∷ ("punchlines_tab", "Punchlines")
    ∷ ("punchline_message", "Punchline")
    ∷ ("send_punchline", "Send punchline")
    ∷ ("punchline_public", "Everyone at the table can see your punchline.")
    ∷ ("punchline_from", "{{player}} sent you a punchline")
    ∷ ("preset_nice_move", "Nice move!")
    ∷ ("preset_your_move", "Your move, superstar!")
    ∷ ("preset_lucky_cards", "Save some luck for me!")
    ∷ ("preset_well_played", "Well played, my friend!")
    ∷ ("your_friends", "Your friends")
    ∷ ("add_friend", "Add friend")
    ∷ ("already_connected", "Already connected")
    ∷ ("find_players", "Find players")
    ∷ ("username_or_display_name", "Username or display name")
    ∷ ("requests_received", "Requests received")
    ∷ ("requests_sent", "Requests sent")
    ∷ ("no_friends_yet", "No friends yet.")
    ∷ ("message", "Message")
    ∷ ("message_player", "Message {{player}}")
    ∷ ("game_invitation", "Game invitation")
    ∷ ("player_invited_you_to_tablename", "{{player}} invited you to {{tableName}}.")
    ∷ ("sent_you_a_connection_request", "sent you a connection request.")
    ∷ ("accepted_your_connection_request", "accepted your connection request.")
    ∷ ("declined_your_connection_request", "declined your connection request.")
    ∷ ("requests_and_social_updates", "Requests and social updates")
    ∷ ("friend_and_room_activity_will_appear_here", "Friend and room activity will appear here.")
    ∷ ("chat", "Chat")
    ∷ ("chat_paused", "Chat · paused")
    ∷ ("chat_is_paused", "Chat is paused")
    ∷ ("paused", "Paused")
    ∷ ("chat_with_player", "Chat with {{player}}")
    ∷ ("table_message", "Table message")
    ∷ ("send", "Send")
    ∷ ("sending", "Sending…")
    ∷ ("send_chat_message", "Send chat message")
    ∷ ("send_table_message", "Send table message")
    ∷ ("send_privately", "Send privately")
    ∷ ("write_a_private_message", "Write a private message")
    ∷ ("no_messages_yet", "No messages yet")
    ∷ ("count_new", "{{count}} new")
    ∷ ("count_unread_messages", "{{count}} unread messages")
    ∷ ("chat_sound_on", "Chat sound on")
    ∷ ("chat_sound_off", "Chat sound off")
    ∷ ("chat_is_paused_while_you_are_playing", "Chat is paused while you are playing.")
    ∷ (
      "waiting_players_can_read_take_a_seat_to_chat",
      "Waiting players can read. Take a seat to chat.",
    )
    ∷ ("everyone_in_this_room_will_see_it", "Everyone in this room will see it.")
    ∷ ("only_player_will_see_this_message", "Only {{player}} will see this message.")
    ∷ ("start_the_table_conversation", "Start the table conversation.")
    ∷ ("say_something_to_get_the_table_going", "Say something to get the table going.")
    ∷ ("poke", "Poke")
    ∷ ("poke_a_player", "Poke a player")
    ∷ ("poke_player", "Poke player")
    ∷ ("poke_the_table", "Poke the table")
    ∷ ("choose_a_player", "Choose a player")
    ∷ (
      "choose_a_reaction_everyone_at_this_table_can_see_it",
      "Choose a reaction. Everyone at this table can see it.",
    )
    ∷ ("love", "Love")
    ∷ ("pinch", "Pinch")
    ∷ ("clap", "Clap")
    ∷ ("cheers", "Cheers")
    ∷ ("laugh", "Laugh")
    ∷ ("playful_hammer", "Playful hammer")
    ∷ ("send_reaction", "Send {{reaction}}")
    ∷ ("poke_player_2", "Poke {{player}}")
    ∷ ("send_poke_to_player", "Send poke to {{player}}")
    ∷ ("player_sent_you_reaction", "{{player}} sent you {{reaction}}!")
    ∷ ("poke_sent", "Poke sent")
    ∷ ("poke_sent_to_player", "Poke sent to {{player}}")
    ∷ ("sent_to_the_table", "Sent to the table")
    ∷ ("no_other_seated_players_to_poke_yet", "No other seated players to poke yet.")
    ∷ ("just_for_you", "JUST FOR YOU")
    ∷ ("table_talk", "TABLE TALK")
    ∷ ("save_phrase", "+ Save phrase")
    ∷ ("my_goofy_phrases_count", "My goofy phrases · {{count}}")
    ∷ ("save_personal_phrase", "Save personal phrase")
    ∷ ("editing_phrase", "Editing phrase")
    ∷ ("edit_phrase_phrase", "Edit phrase {{phrase}}")
    ∷ ("remove_punchline_phrase", "Remove punchline {{phrase}}")
    ∷ ("saved_to_your_phrases", "Saved to your phrases.")
    ∷ ("your_own_little_punchline", "Your own little punchline…")
    ∷ ("a_keyword_or_punchline", "A keyword or punchline…")
    ∷ ("poke_message_count_characters_maximum", "Poke message, {{count}} characters maximum")
    ∷ (
      "new_personal_phrase_count_characters_maximum",
      "New personal phrase, {{count}} characters maximum",
    )
    ∷ ("saved_limit_saved", "{{saved}}/{{limit}} saved")
    ∷ ("your_turn_return_to_game", "Your turn · Return to game")
    ∷ []
