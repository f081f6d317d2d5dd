-- ===== src/I18n/En/Callbreak.antt =====
-- client/src/i18n/locales/en/callbreak.ts: the English texts of the group callbreak.
use bhidne_ho.Prelude.{List, [], ◌∷◌, String}

unfoldable pub callbreak : List (String × String)
callbreak =
    ("shuffle", "Shuffle")
    ∷ ("shuffle_deck", "Shuffle deck")
    ∷ ("shuffle_the_deck", "shuffle the deck")
    ∷ ("shuffling", "Shuffling")
    ∷ ("preparing_the_deck", "Preparing the deck.")
    ∷ ("cut", "Cut")
    ∷ ("cut_the_deck", "cut the deck")
    ∷ ("cut_in_half", "Cut in half")
    ∷ ("cut_or_skip", "Cut or skip")
    ∷ ("skip_cut", "Skip cut")
    ∷ ("deal", "Deal")
    ∷ ("deal_cards", "Deal cards")
    ∷ ("deal_the_cards", "deal the cards")
    ∷ ("preparing_the_deal", "Preparing the deal")
    ∷ ("accept_hand", "Accept hand")
    ∷ ("request_redeal", "Request redeal")
    ∷ ("review_your_hand", "Review your hand")
    ∷ ("review_your_cards_accept_or_request_redeal", "Review your cards · Accept or request redeal")
    ∷ ("waiting_for_hand_review", "Waiting for hand review")
    ∷ ("bid", "Bid")
    ∷ ("choose_a_bid", "choose a bid")
    ∷ ("bid_count", "Bid {{count}}")
    ∷ ("confirm_bid", "Confirm bid")
    ∷ ("increase_bid", "Increase bid")
    ∷ ("decrease_bid", "Decrease bid")
    ∷ ("selected_bid_count", "Selected bid {{count}}")
    ∷ ("your_bid_count", "Your bid: {{count}}.")
    ∷ ("your_turn_to_bid", "Your turn to bid")
    ∷ ("how_many_tricks_will_you_win", "How many tricks will you win?")
    ∷ ("make_your_call", "Make your call")
    ∷ ("bidding", "Bidding")
    ∷ ("bidding_is_open", "Bidding is open")
    ∷ ("bid_pending", "Bid pending")
    ∷ ("bidding_complete_message", "Bidding complete. {{message}}")
    ∷ ("waiting_for_player_to_bid", "Waiting for {{player}} to bid.")
    ∷ ("bids_total_total", "Bids · {{total}} total")
    ∷ ("available_available_tricks", "{{available}} available tricks")
    ∷ ("current_deal_player_bids", "Current deal player bids")
    ∷ ("view_bids_and_player_status", "View bids and player status")
    ∷ ("hide_bids_and_player_status", "Hide bids and player status")
    ∷ ("previous_bids", "Previous bids")
    ∷ ("next_bids", "Next bids")
    ∷ ("play", "Play")
    ∷ ("play_a_card", "Play a card")
    ∷ ("play_card", "Play {{card}}")
    ∷ ("your_turn_to_play_a_card", "Your turn to play a card")
    ∷ ("your_turn_choose_a_card", "Your turn · choose a card")
    ∷ ("next_turn", "Next turn")
    ∷ ("you_lead_first", "You lead first.")
    ∷ ("player_leads_first", "{{player}} leads first.")
    ∷ ("current_trick", "Current trick")
    ∷ ("last_trick", "Last trick")
    ∷ ("last_trick_player_won", "Last trick - {{player}} won")
    ∷ ("player_wins_trick_number", "{{player}} wins trick {{number}}")
    ∷ ("trick_number_player_won", "Trick {{number}} · {{player}} won")
    ∷ ("done_total_tricks_completed", "{{done}}/{{total}} tricks completed")
    ∷ ("tricks", "Tricks")
    ∷ ("taken", "Taken")
    ∷ ("won", "Won")
    ∷ ("won_won_need_needed", "Won {{won}} · Need {{needed}}")
    ∷ ("met", "Met")
    ∷ ("cannot_reach_bid", "Cannot reach bid")
    ∷ ("missed_bid", "missed bid")
    ∷ ("led", "Led")
    ∷ ("led_this_trick", "led this trick")
    ∷ ("all_hands_played", "All hands played")
    ∷ ("current_deal", "Current deal")
    ∷ ("deal_number", "Deal {{number}}")
    ∷ ("deal_number_of_5", "Deal {{number}} of 5")
    ∷ ("deal_complete", "Deal complete")
    ∷ ("deal_number_complete", "Deal {{number}} complete")
    ∷ ("start_next_deal", "Start next deal")
    ∷ ("match_complete", "Match complete")
    ∷ ("scores", "Scores")
    ∷ ("final_scores", "Final scores")
    ∷ ("round_complete_call_break", "Round complete · Call Break")
    ∷ ("completed_trick_history", "Completed trick history")
    ∷ ("completed_tricks_will_appear_here", "Completed tricks will appear here.")
    ∷ ("allow_no_spades_redeal", "Allow no spades redeal")
    ∷ ("redeal_with_no_spades", "Redeal with no spades")
    ∷ ("allow_weak_hand_redeal", "Allow weak hand redeal")
    ∷ ("redeal_with_no_card_above_jack", "Redeal with no card above Jack")
    ∷ ("no_cards_in_your_hand", "No cards in your hand.")
    ∷ ("no_suit_left_choose_another_suit", "No {{suit}} left. Choose another suit.")
    ∷ ("follow_suit_if_you_can", "Follow {{suit}} if you can.")
    ∷ ("count_revealed", "{{count}} revealed")
    ∷ ("rules_title", "Call Break rules")
    ∷ ("preview_deal", "Call Break · Deal 1 of 5 · Spades trump")
    ∷ (
      "deal_summary",
      "{{status}} · Trick {{trick}} of {{total}} · {{played}}/{{players}} cards played",
    )
    ∷ ("tricks_completed", "{{status}} · {{completed}}/{{total}} tricks completed")
    ∷ ("bids_total", "Bids · {{bids}} total / {{available}} available tricks")
    ∷ ("deal_tricks", "Deal {{deal}} tricks")
    ∷ ("reveal_arc", "Tap the arc to reveal the next card. {{shown}}/{{total}} revealed.")
    ∷ (
      "live_deal_summary",
      "{{label}}{{deal}} of 5 · {{completed}}/{{total}} tricks completed · Spades trump",
    )
    ∷ ("follow_suit", "Follow {{suit}} if you can. Select a legal card, then confirm Play.")
    ∷ ("you_lead", "You lead first.")
    ∷ ("player_leads", "{{player}} leads first.")
    ∷ []
