-- ===== src/I18n/En/Feedback.antt =====
-- client/src/i18n/locales/en/feedback.ts: the English texts of the group feedback.
use bhidne_ho.Prelude.{List, [], ◌∷◌, String}

unfoldable pub feedback : List (String × String)
feedback =
    ("reconnecting", "Reconnecting…")
    ∷ ("reconnecting_to_room", "Reconnecting to room...")
    ∷ ("reconnecting_to_your_room", "Reconnecting to your room…")
    ∷ ("reconnecting_your_seat_is_saved", "Reconnecting… Your seat is saved.")
    ∷ ("reconnecting_send_when_you_re_back", "Reconnecting… send when you’re back.")
    ∷ ("updating_game", "Updating game…")
    ∷ ("game_updated", "Game updated")
    ∷ ("sending_your_action", "Sending your action…")
    ∷ ("confirming_your_action", "Confirming your action…")
    ∷ (
      "waiting_for_the_server_to_confirm_your_action",
      "Waiting for the server to confirm your action.",
    )
    ∷ ("connection_interrupted_retrying", "Connection interrupted. Retrying…")
    ∷ ("check_your_connection_and_try_again", "Check your connection and try again.")
    ∷ ("action_rejected", "Action rejected.")
    ∷ ("social_action_rejected", "Social action rejected.")
    ∷ ("social_request_cancelled", "Social request cancelled.")
    ∷ ("game_request_failed_try_again", "Game request failed. Try again.")
    ∷ ("cannot_load_game", "Cannot load game.")
    ∷ ("cannot_update_game", "Cannot update game.")
    ∷ ("could_not_update_game", "Could not update game.")
    ∷ ("could_not_restore_game", "Could not restore game.")
    ∷ ("could_not_create_room", "Could not create room.")
    ∷ ("could_not_enter_the_room", "Could not enter the room.")
    ∷ ("could_not_join_room_try_again", "Could not join room. Try again.")
    ∷ ("could_not_enter_this_table", "Could not enter this table.")
    ∷ ("could_not_enter_the_game_s_room_try_again", "Could not enter the game’s room. Try again.")
    ∷ ("could_not_delete_the_room", "Could not delete the room.")
    ∷ ("could_not_leave_the_room", "Could not leave the room.")
    ∷ ("could_not_leave_the_game", "Could not leave the game.")
    ∷ ("could_not_leave_the_previous_table", "Could not leave the previous table.")
    ∷ (
      "could_not_confirm_leaving_this_room_please_try_again",
      "Could not confirm leaving this room. Please try again.",
    )
    ∷ ("could_not_load_member_names", "Could not load member names.")
    ∷ ("could_not_open_invitation", "Could not open invitation.")
    ∷ ("could_not_search_recent_players", "Could not search recent players.")
    ∷ ("could_not_search_the_player_directory", "Could not search the player directory.")
    ∷ ("could_not_search_players", "Could not search players.")
    ∷ ("could_not_load_chat", "Could not load chat.")
    ∷ ("could_not_load_messages", "Could not load messages.")
    ∷ ("could_not_load_friends", "Could not load friends.")
    ∷ ("could_not_send_message", "Could not send message.")
    ∷ ("could_not_send_your_poke", "Could not send your poke.")
    ∷ ("could_not_load_punchlines", "Could not load punchlines.")
    ∷ ("could_not_update_punchlines", "Could not update punchlines.")
    ∷ ("could_not_update_friendship", "Could not update friendship.")
    ∷ ("could_not_load_notifications", "Could not load notifications.")
    ∷ ("could_not_update_notifications", "Could not update notifications.")
    ∷ ("could_not_update_the_request", "Could not update the request.")
    ∷ ("could_not_update_the_room_invitation", "Could not update the room invitation.")
    ∷ ("could_not_update_the_table_invitation", "Could not update the table invitation.")
    ∷ ("could_not_load_ledger", "Could not load ledger.")
    ∷ ("could_not_start_settlement", "Could not start settlement.")
    ∷ ("could_not_update_settlement", "Could not update settlement.")
    ∷ ("could_not_sign_in_please_try_again", "Could not sign in. Please try again.")
    ∷ ("could_not_share_use_the_copy_options_above", "Could not share. Use the copy options above.")
    ∷ (
      "could_not_complete_this_request_please_try_again",
      "Could not complete this request. Please try again.",
    )
    ∷ (
      "the_server_could_not_complete_this_request_please_try_again",
      "The server could not complete this request. Please try again.",
    )
    ∷ (
      "the_server_returned_an_unexpected_response_please_try_again",
      "The server returned an unexpected response. Please try again.",
    )
    ∷ ("enter_a_room_name", "Enter a room name.")
    ∷ ("enter_a_table_name", "Enter a table name.")
    ∷ (
      "enter_a_valid_room_code_table_code_or_invitation_link",
      "Enter a valid room code, table code, or invitation link.",
    )
    ∷ (
      "no_players_found_use_an_exact_username_or_user_id",
      "No players found. Use an exact username or user ID.",
    )
    ∷ (
      "no_player_found_with_that_exact_name_username_or_user_id",
      "No player found with that exact name, username, or user ID.",
    )
    ∷ (
      "that_table_is_full_choose_a_table_with_an_open_seat",
      "That table is full. Choose a table with an open seat.",
    )
    ∷ (
      "this_room_is_no_longer_available_refresh_the_lobby",
      "This room is no longer available. Refresh the lobby.",
    )
    ∷ (
      "this_game_is_no_longer_available_ask_for_a_new_game_link",
      "This game is no longer available. Ask for a new game link.",
    )
    ∷ ("sign_in_again_before_creating_a_table", "Sign in again before creating a table.")
    ∷ ("sign_in_again_to_load_tables", "Sign in again to load tables.")
    ∷ ("reconnect_before_sending_a_poke", "Reconnect before sending a poke.")
    ∷ ("sign_in_before_updating_your_phrases", "Sign in before updating your phrases.")
    ∷ (
      "enter_whole_nonnegative_point_amounts_and_counts",
      "Enter whole, nonnegative point amounts and counts.",
    )
    ∷ ("enter_whole_numbers_from_0_to_1000", "Enter whole numbers from 0 to 1000.")
    ∷ (
      "link_copied_paste_it_into_any_messaging_app",
      "Link copied. Paste it into any messaging app.",
    )
    ∷ ("select_and_copy_the_link_below", "Select and copy the link below.")
    ∷ ("unavailable", "Unavailable")
    ∷ []
