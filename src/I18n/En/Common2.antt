-- ===== src/I18n/En/Common2.antt =====
-- client/src/i18n/locales/en/common.ts: the English texts of the group common, part 2 of 3.
use bhidne_ho.Prelude.{List, [], ◌∷◌, String}

unfoldable pub common_2 : List (String × String)
common_2 =
    ("current_turn", "Current turn")
    ∷ ("turn", "TURN")
    ∷ ("your_turn", "Your turn")
    ∷ ("player_s_turn", "{{player}}’s turn")
    ∷ ("your_turn_action", "Your turn · {{action}}")
    ∷ ("your_turn_return_to_the_table", "Your turn · return to the table")
    ∷ ("your_cards_are_ready_review_your_hand", "Your cards are ready · review your hand")
    ∷ ("player", "Player")
    ∷ ("a_player", "A player")
    ∷ ("player_number", "Player {{number}}")
    ∷ ("you", "You")
    ∷ ("player_you", "{{player}} (You)")
    ∷ ("dealer", "Dealer")
    ∷ ("english_family", "English family")
    ∷ ("close_notifications", "Close notifications")
    ∷ ("close_table_menu", "Close table menu")
    ∷ ("close_table_menu_backdrop", "Close table menu backdrop")
    ∷ ("close_table_themes", "Close table themes")
    ∷ ("close_themes", "Close themes")
    ∷ ("close_table_sharing", "Close table sharing")
    ∷ ("close_room_sharing", "Close room sharing")
    ∷ ("close_public_rooms", "Close public rooms")
    ∷ ("close_room_form", "Close room form")
    ∷ ("close_room_panel", "Close room panel")
    ∷ ("close_rule_review", "Close rule review")
    ∷ ("close_call_break_rules", "Close Call Break rules")
    ∷ ("close_flush_rules", "Close Flush rules")
    ∷ ("close_bet", "Close Bet")
    ∷ ("close_final_show", "Close final show")
    ∷ ("close_details", "Close details")
    ∷ ("close_player_details", "Close player details")
    ∷ ("close_shown_cards", "Close shown cards")
    ∷ ("close_finish_tool", "Close finish tool")
    ∷ ("close_table_announcement", "Close table announcement")
    ∷ ("close_chat", "Close chat")
    ∷ ("close_private_chat", "Close private chat")
    ∷ ("close_table_chat", "Close table chat")
    ∷ ("close_poke_composer", "Close poke composer")
    ∷ ("close_poke_tools", "Close poke tools")
    ∷ ("dismiss_social_error", "Dismiss social error")
    ∷ ("expand_or_minimize_room_chat", "Expand or minimize room chat")
    ∷ ("reveal_next_card_from_position_position", "Reveal next card from position {{position}}")
    ∷ ("turn_this_card_face_up_without_playing_it", "Turn this card face up without playing it")
    ∷ ("copy_copynumber", "Copy {{copyNumber}}")
    ∷ ("copy_kind_code", "Copy {{kind}} code")
    ∷ ("game_room_preview", "Game room preview")
    ∷ ("preview_a_card_table", "Preview a card table")
    ∷ ("preview_card_table", "Preview card table")
    ∷ ("create_table_preview", "Create table preview")
    ∷ ("reset_table_preview", "Reset table preview")
    ∷ ("preview_paused", "Preview paused")
    ∷ ("card_placed_preview_paused", "Card placed · preview paused")
    ∷ ("place_selected_card", "Place selected card")
    ∷ ("place_card_on_the_table", "Place {{card}} on the table")
    ∷ ("select_a_card_to_place", "Select a card to place")
    ∷ ("sample_tables", "SAMPLE TABLES")
    ∷ ("waiting_room_preview", "WAITING ROOM PREVIEW")
    ∷ ("exit_preview", "Exit preview")
    ∷ ("go_to_room_list_to_enter_a_code", "Go to room list to enter a code")
    ∷ ("count_players_5_deals_local_preview", "{{count}} players · 5 deals · Local preview")
    ∷ ("bidding_begins_when_everyone_accepts", "Bidding begins when everyone accepts.")
    ∷ ("cut_in_half_or_skip_the_cut", "Cut in half or skip the cut.")
    ∷ ("final_scores_after_five_deals", "Final scores after five deals.")
    ∷ ("review_the_scores_before_the_next_deal", "Review the scores before the next deal.")
    ∷ (
      "review_your_cards_while_the_remaining_players_bid",
      "Review your cards while the remaining players bid.",
    )
    ∷ ("swipe_your_hand_to_see_every_card", "Swipe your hand to see every card.")
    ∷ ("the_dealer_shuffles_to_begin_this_deal", "The dealer shuffles to begin this deal.")
    ∷ ("waiting_for_the_table", "Waiting for the table.")
    ∷ (
      "your_bid_is_submitted_only_when_you_confirm", "Your bid is submitted only when you confirm.",
    )
    ∷ ("your_hand_in_dealt_order", "Your hand in dealt order")
    ∷ ("your_hand_grouped_by_suit_suits", "Your hand, grouped by suit: {{suits}}")
    ∷ ("blind_blindamount_seen_seenamount", "Blind {{blindAmount}} · Seen {{seenAmount}}")
    ∷ ("show_status", "Show: {{status}}")
    ∷ (
      "propose_these_changes_for_approval_before_starting",
      "Propose these changes for approval before starting.",
    )
    ∷ ("save_or_reload_rule_changes_first", "Save or reload rule changes first.")
    ∷ (
      "saved_rules_changed_reload_before_editing_or_starting",
      "Saved rules changed. Reload before editing or starting.",
    )
    ∷ ("deal_and_turns", "Deal and turns")
    ∷ ("points_and_privacy", "Points and privacy")
    ∷ ("showing_or_discarding", "Showing or discarding")
    ∷ ("tiplu_jhiplu_poplu_and_alter", "Tiplu, Jhiplu, Poplu and Alter")
    ∷ (
      "tiplu_tiplu_jhiplu_jhiplu_poplu_poplu",
      "Tiplu {{tiplu}} · Jhiplu {{jhiplu}} · Poplu {{poplu}}",
    )
    ∷ ("man_copynumber", "Man · {{copyNumber}}")
    ∷ ("3_sequences_tunnelas_options", "3 sequences / Tunnelas ({{options}})")
    ∷ ("7_dublees_options", "7 Dublees ({{options}})")
    ∷ ("waiting_for_the_creator_to_start", "Waiting for the creator to start.")
    ∷ (
      "waiting_for_the_creator_to_start_the_next_deal",
      "Waiting for the creator to start the next deal.",
    )
    ∷ (
      "waiting_for_eligible_seats_and_rule_approval",
      "Waiting for eligible seats and rule approval.",
    )
    ∷ ("everyone_is_ready_the_creator_can_start", "Everyone is ready · the creator can start")
    ∷ (
      "waiting_for_the_host_seated_capacity_seated",
      "Waiting for the host · {{seated}}/{{capacity}} seated",
    )
    ∷ ("4_or_5_players_five_deals", "4 or 5 players · Five deals")
    ∷ ("a_quick_refresher", "A quick refresher")
    ∷ ("new_to_call_break", "New to Call Break?")
    ∷ ("open_a_room_or_bring_your_players_together", "Open a room or bring your players together.")
    ∷ (
      "bring_your_people_together_for_another_round",
      "Bring your people together for another round.",
    )
    ∷ (
      "a_little_suspense_a_familiar_circle_of_friends",
      "A little suspense. A familiar circle of friends.",
    )
    ∷ ("good_cards_better_company", "Good cards. Better company.")
    ∷ ("the_table_is_taking_shape", "The table is taking shape.")
    ∷ ("there_s_always_room_for_one_more_round", "There’s always room for one more round.")
    ∷ ("choose_game", "Choose {{game}}")
    ∷ ("join_tablename", "Join {{tableName}}")
    ∷ ("leave_gameortable", "Leave {{gameOrTable}}")
    ∷ ("share_name", "Share {{name}}")
    ∷ ("shareable_table_code_code", "Shareable table code {{code}}")
    ∷ (
      "showing_the_last_available_tables_try_refreshing_again",
      "Showing the last available tables. Try refreshing again.",
    )
    ∷ (
      "this_round_has_no_scoring_breakdown_available",
      "This round has no scoring breakdown available.",
    )
    ∷ (
      "accepting_adds_this_room_to_your_memberships",
      "Accepting adds this room to your memberships.",
    )
    ∷ ("current_deal_newest_first", "Current deal · newest first")
    ∷ ("recent_server_events_newest_first", "Recent server events · newest first")
    ∷ ("revision_number", "Revision {{number}}")
    ∷ ("game_complete_see_the_final_scores", "Game complete · see the final scores")
    ∷ ("join_my_bhidne_ho_table", "Join my Bhidne Ho table")
    ∷ ("offline_player", "Offline · {{player}}")
    ∷ ("need_count", "Need {{count}}")
    ∷ ("won_count", "Won {{count}}")
    ∷ ("player_played_card", "{{player}} played {{card}}")
    ∷ (
      "player_deal_deal_bid_bid_won_tricks",
      "{{player}}, deal {{deal}}, bid {{bid}}, won {{tricks}}",
    )
    ∷ (
      "game_phase_seated_capacity_players",
      "{{game}} · {{phase}} · {{seated}}/{{capacity}} players",
    )
    ∷ ("count_waiting", "{{count}} waiting")
    ∷ ("game_table", "{{game}} table")
    ∷ ("game_code_code", "{{game}} code {{code}}")
    ∷ ("player_proposed_rule_changes_review", "{{player}} proposed rule changes · Review")
    ∷ ("player_place_1st_amount_units", "{{player}} place → 1st: {{amount}} units")
    ∷ (
      "session_expired_the_server_may_have_restarted_sign_out_to_start_a_new_session",
      "Session expired. The server may have restarted. Sign out to start a new session.",
    )
    ∷ (
      "browser_session_storage_is_unavailable_enable_it_to_sign_in",
      "Browser session storage is unavailable. Enable it to sign in.",
    )
    ∷ (
      "could_not_confirm_delivery_check_the_conversation_before_sending_again",
      "Could not confirm delivery. Check the conversation before sending again.",
    )
    ∷ (
      "the_game_changed_your_pending_action_was_not_retried",
      "The game changed. Your pending action was not retried.",
    )
    ∷ (
      "connection_interrupted_your_action_will_be_checked_automatically",
      "Connection interrupted. Your action will be checked automatically…",
    )
    ∷ (
      "waiting_for_the_table_service_your_form_will_stay_open_while_it_retries",
      "Waiting for the table service. Your form will stay open while it retries.",
    )
    ∷ ("table", "Table")
    ∷ ("room", "Room")
    ∷ ("game", "Game")
    ∷ ("on", "On")
    ∷ ("off", "Off")
    ∷ ("man", "Man")
    ∷ ("score", "Score")
    ∷ ("send_privately", "Send privately")
    ∷ ("no_messages_yet", "No messages yet.")
    ∷ ("send_table_message", "Send table message")
    ∷ ("all_games_arrow", "← All games")
    ∷ ("back_lobby_arrow", "← Back to lobby")
    ∷ ("browse_public_arrow", "Browse all public rooms →")
    ∷ ("browse_rooms_arrow", "Browse rooms →")
    ∷ ("enter_room_arrow", "Enter game room →")
    ∷ ("how_play_arrow", "How to play ↗")
    ∷ ("player_remove", "{{player}} · Remove")
    ∷ []
