-- ===== src/I18n/En/Rooms1.antt =====
-- client/src/i18n/locales/en/rooms.ts: the English texts of the group rooms, part 1 of 2.
use bhidne_ho.Prelude.{List, [], ◌∷◌, String}

unfoldable pub rooms_1 : List (String × String)
rooms_1 =
    ("active_games", "Active games")
    ∷ ("active_tables", "Active tables")
    ∷ ("available_tables", "Available tables")
    ∷ ("all", "All")
    ∷ ("all_tables", "All tables")
    ∷ ("open_seats", "Open seats")
    ∷ ("view_all_games", "View all games")
    ∷ ("filter_active_games", "Filter active games")
    ∷ ("refresh_active_games", "Refresh active games")
    ∷ ("retry_active_games", "Retry active games")
    ∷ ("browse_rooms", "Browse rooms")
    ∷ ("browse_all_public_rooms", "Browse all public rooms")
    ∷ ("public_rooms", "Public rooms")
    ∷ ("friends_rooms", "Friends’ rooms")
    ∷ ("friends_public_rooms", "Friends’ public rooms")
    ∷ ("your_rooms", "Your rooms")
    ∷ ("rooms_you_created", "Rooms you created")
    ∷ ("joined_rooms", "Joined rooms")
    ∷ ("recent", "Recent")
    ∷ ("recently_visited", "Recently visited")
    ∷ ("your_recent_rooms_on_this_device", "Your recent rooms on this device.")
    ∷ ("no_active_tables_yet", "No active tables yet")
    ∷ ("no_game_tables_yet", "No {{game}} tables yet")
    ∷ ("no_public_rooms_yet", "No public rooms yet.")
    ∷ ("you_haven_t_created_a_room_yet", "You haven’t created a room yet.")
    ∷ (
      "your_friends_haven_t_made_any_rooms_public_yet",
      "Your friends haven’t made any rooms public yet.",
    )
    ∷ ("loading_active_tables", "Loading active tables")
    ∷ ("couldn_t_load_tables", "Couldn’t load tables")
    ∷ ("couldn_t_refresh_tables", "Couldn’t refresh tables")
    ∷ ("continue_playing", "Continue playing")
    ∷ ("choose_a_game", "Choose a game")
    ∷ ("pick_your_game", "Pick your game")
    ∷ ("choose_another_game", "Choose another game")
    ∷ ("what_are_we_playing", "What are we playing?")
    ∷ ("call_break", "Call Break")
    ∷ ("marriage", "Marriage")
    ∷ ("flush", "Flush")
    ∷ ("game_room", "Game room")
    ∷ ("enter", "Enter")
    ∷ ("enter_game_room", "Enter game room")
    ∷ ("enter_game_game_room", "Enter {{game}} game room")
    ∷ ("find_your_next_table", "Find your next table")
    ∷ ("ready_for_a_round", "Ready for a round?")
    ∷ ("ready_to_play", "Ready to play?")
    ∷ ("ready_for_another_round", "Ready for another round?")
    ∷ ("create", "Create")
    ∷ ("create_room", "Create room")
    ∷ ("create_room_2", "+ Create room")
    ∷ ("make_room", "Make room")
    ∷ ("room_name", "Room name")
    ∷ ("join", "Join")
    ∷ ("join_room", "Join room")
    ∷ ("join_with_code", "Join with code")
    ∷ ("room_or_table_code", "Room or table code")
    ∷ ("room_code", "Room code")
    ∷ ("room_code_code", "Room code {{code}}")
    ∷ ("room_invitation", "Room invitation")
    ∷ ("dismiss_invitation", "Dismiss invitation")
    ∷ ("retry_invitation", "Retry invitation")
    ∷ ("opening_invitation", "Opening invitation…")
    ∷ ("entering_room", "Entering room…")
    ∷ ("private", "Private")
    ∷ ("public", "Public")
    ∷ ("room_privacy", "Room privacy")
    ∷ ("who_can_discover_and_enter_this_room", "Who can discover and enter this room?")
    ∷ ("everyone_can_discover_and_join_this_room", "Everyone can discover and join this room.")
    ∷ (
      "every_signed_in_player_can_see_and_enter_it", "Every signed-in player can see and enter it.",
    )
    ∷ ("room_member", "Room member")
    ∷ ("room_members", "Room members")
    ∷ ("members", "Members")
    ∷ ("members_count", "Members · {{count}}")
    ∷ ("members_members_online_online", "{{members}} members · {{online}} online")
    ∷ ("count_more_members", "{{count}} more members")
    ∷ ("count_online", "{{count}} online")
    ∷ ("preview_room_members", "Preview room members")
    ∷ ("room_membership", "Room membership")
    ∷ ("room_options", "Room options")
    ∷ ("more_room_actions", "More room actions")
    ∷ ("room_owner_controls", "Room owner controls")
    ∷ ("invite", "Invite")
    ∷ ("invite_people", "Invite people")
    ∷ ("invite_people_optional", "Invite people (optional)")
    ∷ ("invite_to_room", "Invite to room")
    ∷ ("invite_player_to_room", "Invite {{player}} to room")
    ∷ ("find_people_to_invite_to_room", "Find people to invite to room")
    ∷ ("search_directory", "Search directory")
    ∷ ("search_players", "Search players")
    ∷ ("name_username_or_user_id", "Name, username, or user ID")
    ∷ ("username_or_user_id", "Username or user ID")
    ∷ ("remove_player", "Remove {{player}}")
    ∷ (
      "invitation_sent_they_become_a_member_when_they_join",
      "Invitation sent. They become a member when they join.",
    )
    ∷ ("stay_in_room", "Stay in room")
    ∷ ("leave_room", "Leave room")
    ∷ ("leave_room_membership", "Leave room membership")
    ∷ ("delete_room", "Delete room")
    ∷ ("confirm_delete_room", "Confirm delete room")
    ∷ ("are_you_sure_this_cannot_be_undone", "Are you sure? This cannot be undone.")
    ∷ ("this_room_was_deleted_by_its_owner", "This room was deleted by its owner.")
    ∷ ("room_chat", "Room chat")
    ∷ ("room_tables", "Room tables")
    ∷ ("tables", "Tables")
    ∷ ("room_ledger", "Room ledger")
    ∷ ("retry_member_names", "Retry member names")
    ∷ ("create_table", "Create table")
    ∷ ("create_table_2", "+ Create table")
    ∷ ("create_this_table", "Create this table")
    ∷ ("create_new_table", "+ Create New Table")
    ∷ ("start_a_new_table", "Start a new table")
    ∷ ("table_name", "Table name")
    ∷ ("table_name_required", "Table name (required)")
    ∷ ("required_to_create_a_table", "Required to create a table")
    ∷ ("seats", "Seats")
    ∷ ("seats_at_the_table", "Seats at the table")
    ∷ ("count_players", "{{count}} players")
    ∷ ("seated_capacity_seated", "{{seated}}/{{capacity}} seated")
    ∷ ("seated_of_capacity_seated", "{{seated}} of {{capacity}} seated")
    ∷ ("find_player_to_invite", "Find player to invite")
    ∷ ("find_players_to_invite", "Find players to invite")
    ∷ ("invite_players_optional", "Invite players (optional)")
    ∷ ("invite_your_friends", "Invite your friends")
    ∷ ("take_seat", "Take seat")
    ∷ ("seat_available", "Seat available")
    ∷ ("empty_seat", "Empty seat")
    ∷ ("table_full", "Table full")
    ∷ ("join_queue", "Join queue")
    ∷ ("join_waitlist", "Join waitlist")
    ∷ ("leave_waitlist", "Leave waitlist")
    ∷ ("queue_position", "Queue #{{position}}")
    ∷ ("your_waitlist_position_position", "Your waitlist position: {{position}}")
    ∷ ("waitlist_position_position", "Waitlist position {{position}}")
    ∷ ("watch", "Watch")
    ∷ ("observing", "Observing")
    ∷ ("stay_as_observer", "Stay as observer")
    ∷ ("spectator_view", "Spectator view")
    ∷ ("watch_or_join_the_waitlist", "Watch or join the waitlist")
    ∷ ("check_table_status", "Check table status")
    ∷ ("return_to_table_tablename", "Return to table · {{tableName}}")
    ∷ ("your_seat_seat", "Your seat {{seat}}")
    ∷ ("seat_seat_player", "Seat {{seat}}: {{player}}")
    ∷ ("invite_player", "Invite {{player}}")
    ∷ ("invite_a_replacement", "Invite a replacement")
    ∷ ("accept_seat", "Accept seat")
    ∷ ("decline_seat", "Decline seat")
    ∷ (
      "seat_seat_is_offered_to_you_for_the_next_match",
      "Seat {{seat}} is offered to you for the next match.",
    )
    ∷ ("ask_someone_to_take_seat_seat", "Ask someone to take seat {{seat}}")
    ∷ []
