-- ===== src/I18n/En/Flush.antt =====
-- client/src/i18n/locales/en/flush.ts: the English texts of the group flush.
use bhidne_ho.Prelude.{List, [], ◌∷◌, String}

unfoldable pub flush : List (String × String)
flush =
    ("blind", "Blind")
    ∷ ("seen", "Seen")
    ∷ ("blind_see_cards_when_eligible", "Blind · See cards when eligible")
    ∷ ("see_cards", "See cards")
    ∷ ("tap_to_see_cards", "Tap to see cards")
    ∷ ("tap_to_hide_cards", "Tap to hide cards")
    ∷ ("bet", "Bet")
    ∷ ("blind_bet", "Blind bet")
    ∷ ("bet_minimum_points_points", "Bet minimum · {{points}} points")
    ∷ ("bet_double_points_points", "Bet double · {{points}} points")
    ∷ ("double", "Double")
    ∷ ("bets_count", "Bets {{count}}")
    ∷ ("count_bets", "{{count}} bets")
    ∷ ("bet_history", "Bet history")
    ∷ ("fold", "Fold")
    ∷ ("pack", "Pack")
    ∷ ("folded", "Folded")
    ∷ ("player_folded", "{{player}} folded")
    ∷ ("show", "Show")
    ∷ ("show_points_points", "Show · {{points}} points")
    ∷ ("private_side_show", "Private side-show")
    ∷ ("request_side_show", "Request side-show")
    ∷ ("accept_side_show", "Accept side-show")
    ∷ ("decline_side_show", "Decline side-show")
    ∷ ("accept_or_decline_player_s_side_show", "Accept or decline {{player}}’s side-show")
    ∷ ("side_show_status", "Side-show: {{status}}")
    ∷ ("final_show", "Final show")
    ∷ ("view_final_show", "View final show")
    ∷ ("reveal_or_fold", "Reveal or fold")
    ∷ ("player_can_fold_or_reveal_their_cards", "{{player}} can fold or reveal their cards.")
    ∷ ("player_s_shown_hand", "{{player}}’s shown hand")
    ∷ ("opponent_card", "Opponent card")
    ∷ ("your_card", "Your card")
    ∷ ("player_shown_card", "{{player}} shown card")
    ∷ ("flip_player_s_cards", "Flip {{player}}’s cards")
    ∷ ("seated", "Seated")
    ∷ ("empty", "Empty")
    ∷ ("total", "Total")
    ∷ ("total_pot", "TOTAL POT")
    ∷ ("payout", "Payout")
    ∷ ("you_lost", "You lost")
    ∷ ("you_stay", "You stay")
    ∷ ("round_number", "Round {{number}}")
    ∷ ("round_result", "Round result")
    ∷ ("round_complete", "Round complete")
    ∷ ("view_round_result", "View round result")
    ∷ ("results_appear_after_the_first_round", "Results appear after the first round.")
    ∷ ("bets_appear_after_the_game_starts", "Bets appear after the game starts.")
    ∷ ("why_are_some_actions_unavailable", "Why are some actions unavailable?")
    ∷ ("hide_action_help", "Hide action help")
    ∷ ("waiting_for_the_creator_to_lock_the_table", "Waiting for the creator to lock the table.")
    ∷ ("reconnecting_updating_game", "Reconnecting… Updating game")
    ∷ ("flush_rules", "Flush rules")
    ∷ ("propose_flush_rules", "Propose Flush rules")
    ∷ ("allow_private_side_show", "Allow private side-show")
    ∷ ("boot_per_player_0_disables", "Boot per player (0 disables)")
    ∷ ("personal_bets_before_side_show", "Personal bets before side-show")
    ∷ ("seen_bet_multiplier", "Seen bet multiplier")
    ∷ ("personal_blind_bets_before_show", "Personal blind bets before show")
    ∷ ("blind_show_at_most_n_active_players", "Blind show: at most N active players")
    ∷ ("allow_blind_show", "Allow blind show")
    ∷ ("allow_seen_show", "Allow seen show")
    ∷ ("show_only_with_two_players", "Show only with two players")
    ∷ ("minimum_players", "Minimum players")
    ∷ ("maximum_players", "Maximum players")
    ∷ ("show_cost_multiplier_0_is_free", "Show cost multiplier (0 is free)")
    ∷ ("ace_sequence_order", "Ace sequence order")
    ∷ ("akq_first_a23_second", "AKQ first, A23 second")
    ∷ ("a23_first", "A23 first")
    ∷ ("a23_lowest", "A23 lowest")
    ∷ ("equal_hands", "Equal hands")
    ∷ ("show_requester_loses", "Show requester loses")
    ∷ ("split_pot", "Split pot")
    ∷ ("bet_short", "{{kind}} · {{points}} points")
    ∷ ("player_shows", "{{player}} shows")
    ∷ ("net", "Net")
    ∷ []
