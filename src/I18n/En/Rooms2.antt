-- ===== src/I18n/En/Rooms2.antt =====
-- client/src/i18n/locales/en/rooms.ts: the English texts of the group rooms, part 2 of 2.
use bhidne_ho.Prelude.{List, [], ◌∷◌, String}

unfoldable pub rooms_2 : List (String × String)
rooms_2 =
    ("share_table", "Share table")
    ∷ ("share_table_invitation", "Share table invitation")
    ∷ ("share_table_link_or_code", "Share table link or code")
    ∷ ("shared_room_table_code", "Shared room table code")
    ∷ ("your_shareable_table_code", "Your shareable table code")
    ∷ (
      "no_tables_yet_start_a_table_and_invite_your_friends",
      "No tables yet. Start a table and invite your friends.",
    )
    ∷ ("loading_tables", "Loading tables…")
    ∷ ("retry_loading_tables", "Retry loading tables")
    ∷ ("retry_table_service", "Retry table service")
    ∷ ("open", "Open")
    ∷ ("active", "Active")
    ∷ ("waiting", "Waiting")
    ∷ ("ready", "Ready")
    ∷ ("ready_to_start", "Ready to start")
    ∷ ("playing", "Playing")
    ∷ ("completed", "Completed")
    ∷ ("ended", "Ended")
    ∷ ("table_ended", "Table ended")
    ∷ ("online", "Online")
    ∷ ("offline", "Offline")
    ∷ ("waiting_for_players", "Waiting for players")
    ∷ ("waiting_for_the_host", "Waiting for the host")
    ∷ ("waiting_for_eligible_players", "Waiting for eligible players.")
    ∷ ("waiting_for_a_friend", "Waiting for a friend…")
    ∷ ("waiting_for_everyone_to_take_a_seat", "Waiting for everyone to take a seat.")
    ∷ ("need_at_least_count_players", "Need at least {{count}} players")
    ∷ ("lock_game", "Lock game")
    ∷ ("lock_table", "Lock table")
    ∷ ("lock_players", "Lock players")
    ∷ ("players_locked", "Players locked")
    ∷ ("roster_locked_ready_to_start", "Roster locked · ready to start")
    ∷ ("start_game", "Start game")
    ∷ ("start_a_new_game", "Start a new game")
    ∷ ("prepare_next_match", "Prepare next match")
    ∷ ("match_completed_seats_for_the_next_match", "Match completed · seats for the next match")
    ∷ ("leave_seat", "Leave Seat")
    ∷ ("leave_table", "Leave Table")
    ∷ ("leave_previous_table", "Leave previous table")
    ∷ ("leave_previous_table_2", "Leave previous table?")
    ∷ ("previous_table_is_reserved", "Previous table is reserved")
    ∷ (
      "previous_table_left_you_can_now_take_a_seat_here",
      "Previous table left. You can now take a seat here.",
    )
    ∷ ("abandon_match", "Abandon match")
    ∷ ("abandon_active_game", "Abandon active game?")
    ∷ ("abandon_previous_game", "Abandon previous game")
    ∷ ("confirm_abandon_match", "Confirm abandon match")
    ∷ ("abandon_match_and_leave_room", "Abandon match and leave room")
    ∷ ("leave_game_and_room", "Leave game and room")
    ∷ ("end_game", "End game")
    ∷ ("end_table", "End table")
    ∷ ("end_this_game", "End this game?")
    ∷ ("end_this_table", "End this table?")
    ∷ ("cancel_ending_table", "Cancel ending table")
    ∷ (
      "this_table_is_closed_the_room_is_still_open",
      "This table is closed. The room is still open.",
    )
    ∷ ("propose_rules_bets", "Propose rules & bets")
    ∷ ("review_rule_change", "Review rule change")
    ∷ ("accept_rules", "Accept rules")
    ∷ ("reject_rules", "Reject rules")
    ∷ ("accepted_total_accepted", "{{accepted}}/{{total}} accepted")
    ∷ ("waiting_for_rule_approval", "Waiting for rule approval.")
    ∷ ("creator_settings_save_before_starting", "Creator settings · save before starting")
    ∷ ("unsaved_changes", "Unsaved changes")
    ∷ ("reload_saved_rules", "Reload saved rules")
    ∷ ("rules_before_starting", "Rules before starting")
    ∷ ("rules_locked_for_this_game", "Rules locked for this game")
    ∷ ("new_rules_can_be_chosen_for_the_next_game", "New rules can be chosen for the next game.")
    ∷ ("return_table_status", "{{status}} · Return to table")
    ∷ ("new_game_ready", "A new {{game}} {{kind}} is ready!")
    ∷ ("waiting_replacements", "Waiting for {{count}} replacement seats to be accepted.")
    ∷ ("make_room_visibility", "Make room {{visibility}}")
    ∷ ("seat_summary", "{{seated}}/{{capacity}} seated · {{phase}}")
    ∷ ("your_seat", " · Your seat {{seat}}")
    ∷ ("queue_suffix", " · Waitlist position {{position}}")
    ∷ ("observing_suffix", " · Observing")
    ∷ ("waiting_suffix", " · {{count}} waiting")
    ∷ (
      "invitation_summary",
      "{{game}} · {{phase}} · {{seated}}/{{capacity}} seated · {{players}} · Opening does not take a seat.",
    )
    ∷ ("review_proposal", "{{player}} proposed rule changes · {{status}}{{details}} · Review")
    ∷ ("proposal_accepted", "{{status}} · {{accepted}}/{{total}} accepted")
    ∷ ("save_rules_first", "Save or reload your rule changes before locking or starting.")
    ∷ []
