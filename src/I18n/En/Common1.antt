-- ===== src/I18n/En/Common1.antt =====
-- client/src/i18n/locales/en/common.ts: the English texts of the group common, part 1 of 3.
use bhidne_ho.Prelude.{List, [], ◌∷◌, String}

unfoldable pub common_1 : List (String × String)
common_1 =
    ("completing_sign_in", "Completing sign-in…")
    ∷ ("count_cards", "{{count}} cards")
    ∷ ("home", "Home")
    ∷ ("games", "Games")
    ∷ ("all_games", "All games")
    ∷ ("friends", "Friends")
    ∷ ("profile", "Profile")
    ∷ ("back", "Back")
    ∷ ("back_to_lobby", "Back to lobby")
    ∷ ("back_to_room", "Back to room")
    ∷ ("back_to_table", "Back to table")
    ∷ ("back_to_your_cards", "Back to your cards")
    ∷ ("continue", "Continue")
    ∷ ("continue_to_table", "Continue to table")
    ∷ ("return", "Return")
    ∷ ("return_to_table", "Return to table")
    ∷ ("close", "Close")
    ∷ ("close_2", "Close ×")
    ∷ ("cancel", "Cancel")
    ∷ ("cancel_editing", "Cancel editing")
    ∷ ("confirm", "Confirm")
    ∷ ("done", "Done")
    ∷ ("done_editing_number", "Done editing number")
    ∷ ("accept", "Accept")
    ∷ ("decline", "Decline")
    ∷ ("reject", "Reject")
    ∷ ("yes", "Yes")
    ∷ ("no", "No")
    ∷ ("save", "Save")
    ∷ ("update", "Update")
    ∷ ("remove", "Remove")
    ∷ ("delete", "Delete")
    ∷ ("delete_permanently", "Delete permanently")
    ∷ ("search", "Search")
    ∷ ("retry", "Retry")
    ∷ ("share", "Share")
    ∷ ("share_2", "Share…")
    ∷ ("copy", "Copy")
    ∷ ("copy_link", "Copy link")
    ∷ ("copy_invite_link", "Copy Invite Link")
    ∷ ("copy_game_link", "Copy game link")
    ∷ ("copy_room_link", "Copy room link")
    ∷ ("copy_table_link", "Copy table link")
    ∷ ("copy_unavailable", "Copy unavailable")
    ∷ ("sharing_unavailable_table_ended", "Sharing unavailable · table ended")
    ∷ ("open_room", "Open room")
    ∷ ("open_table", "Open table")
    ∷ ("open_profile", "Open profile")
    ∷ ("more", "More")
    ∷ ("preferences", "Preferences")
    ∷ ("choose_an_action", "Choose an action")
    ∷ ("keep_playing", "Keep playing")
    ∷ ("view_results", "View results")
    ∷ ("game_history", "Game history")
    ∷ ("stats", "Stats")
    ∷ ("game_stats", "Game stats")
    ∷ ("rules", "Rules")
    ∷ ("config", "Config")
    ∷ ("rules_and_config", "Rules and config")
    ∷ ("how_to_play", "How to play")
    ∷ ("recent_activity", "Recent activity")
    ∷ ("recent_game_activity", "Recent game activity")
    ∷ ("notifications", "Notifications")
    ∷ ("mark_all_as_read", "Mark all as read")
    ∷ ("no_activity_yet", "No activity yet.")
    ∷ ("you_re_all_caught_up", "You’re all caught up")
    ∷ ("dismiss", "Dismiss")
    ∷ ("dismiss_message", "Dismiss message")
    ∷ ("table_menu", "Table menu")
    ∷ ("table_chat", "Table Chat")
    ∷ ("players_waiting_queue", "Players & waiting queue")
    ∷ ("language", "Language")
    ∷ ("english", "English")
    ∷ ("nepali", "Nepali")
    ∷ ("switch_language_to_language", "Switch language to {{language}}")
    ∷ ("theme", "Theme")
    ∷ ("table_theme", "Table theme")
    ∷ ("choose_theme", "Choose theme")
    ∷ ("choose_table_theme", "Choose table theme")
    ∷ ("current_theme_theme", "Current theme: {{theme}}")
    ∷ ("classic_green", "Classic Green")
    ∷ ("nepali_heritage", "Nepali Heritage")
    ∷ ("himalayan_dusk", "Himalayan Dusk")
    ∷ ("green_felt_and_polished_wood", "Green felt and polished wood")
    ∷ ("paral_a_village_house_and_a_chautari", "Paral, a village house and a chautari")
    ∷ ("mountain_silhouettes_beneath_an_evening_sky", "Mountain silhouettes beneath an evening sky")
    ∷ ("across_the_app_saved_on_this_device", "Across the app · saved on this device")
    ∷ ("welcome", "Welcome")
    ∷ ("welcome_back", "Welcome back")
    ∷ ("welcome_player", "Welcome, {{player}}")
    ∷ ("take_your_seat", "Take your seat.")
    ∷ ("call_break_marriage_and_flush_with_friends", "Call Break, Marriage and Flush with friends.")
    ∷ ("sign_in", "Sign in")
    ∷ ("sign_up", "Sign up")
    ∷ ("create_account", "Create account")
    ∷ ("create_your_account", "Create your account")
    ∷ ("sign_in_or_create_account", "Sign in or create account")
    ∷ ("username", "Username")
    ∷ ("password", "Password")
    ∷ ("continue_with_provider", "Continue with {{provider}}")
    ∷ ("signing_in_with_provider", "Signing in with {{provider}}…")
    ∷ ("or", "or")
    ∷ ("terms", "Terms")
    ∷ ("privacy", "Privacy")
    ∷ ("please_wait", "Please wait…")
    ∷ ("loading_bhidne_ho", "Loading Bhidne Ho")
    ∷ ("your_cards", "Your cards")
    ∷ ("your_hand", "Your hand")
    ∷ ("your_hand_count_cards", "Your hand · {{count}} cards")
    ∷ ("count_cards_left", "{{count}} cards left")
    ∷ ("count_cards_only_visible_to_you", "{{count}} cards · Only visible to you")
    ∷ ("your_face_up_cards", "Your face-up cards")
    ∷ ("your_hand_is_face_down", "Your hand is face down")
    ∷ ("hidden", "Hidden")
    ∷ ("hidden_card", "Hidden card")
    ∷ ("hand_options", "Hand options")
    ∷ ("hand_view", "Hand view")
    ∷ ("grid", "Grid")
    ∷ ("card_grid", "Card grid")
    ∷ ("fan", "Fan")
    ∷ ("sorted_fan", "Sorted fan")
    ∷ ("suit_fan", "Suit fan")
    ∷ ("all_suits", "All suits")
    ∷ ("filter_hand_by_suit", "Filter hand by suit")
    ∷ ("shuffle_suits", "Shuffle suits")
    ∷ ("spades", "Spades")
    ∷ ("clubs", "Clubs")
    ∷ ("hearts", "Hearts")
    ∷ ("diamonds", "Diamonds")
    ∷ ("show_cards", "Show cards")
    ∷ ("hide_cards", "Hide cards")
    ∷ ("reveal_cards", "Reveal cards")
    ∷ ("reveal_your_hand", "Reveal your hand")
    ∷ ("flip_all", "Flip all")
    ∷ ("flip_all_cards", "Flip all cards")
    ∷ ("reveal_next", "Reveal next")
    ∷ ("reveal_next_card", "Reveal next card")
    ∷ ("reveal_card_card", "Reveal card {{card}}")
    ∷ ("select_card", "Select {{card}}")
    ∷ ("selected", "Selected")
    ∷ ("selected_2", "✓ Selected")
    ∷ ("cancel_card_selection", "Cancel card selection")
    ∷ ("expand_your_card_area", "Expand your card area")
    ∷ ("collapse_your_card_area", "Collapse your card area")
    ∷ ("close_your_card_area", "Close your card area")
    ∷ []
