-- ===== src/I18n/Ne/Callbreak.antt =====
-- client/src/i18n/locales/ne/callbreak.ts: the Nepali texts of the group callbreak.
use bhidne_ho.Prelude.{List, [], ◌∷◌, String}

unfoldable pub callbreak : List (String × String)
callbreak =
    ("shuffle", "तास फिट्ने")
    ∷ ("shuffle_deck", "तास फिट्ने")
    ∷ ("shuffle_the_deck", "तास फिट्ने")
    ∷ ("shuffling", "तास फिटिँदैछ")
    ∷ ("preparing_the_deck", "तास तयार हुँदैछ।")
    ∷ ("cut", "तास काट्ने")
    ∷ ("cut_the_deck", "तास काट्ने")
    ∷ ("cut_in_half", "बीचबाट काट्ने")
    ∷ ("cut_or_skip", "काट्ने वा छोड्ने")
    ∷ ("skip_cut", "नकाट्ने")
    ∷ ("deal", "डिल")
    ∷ ("deal_cards", "तास बाँड्ने")
    ∷ ("deal_the_cards", "तास बाँड्ने")
    ∷ ("preparing_the_deal", "तास बाँड्ने तयारी हुँदैछ")
    ∷ ("accept_hand", "यो हात स्वीकार गर्ने")
    ∷ ("request_redeal", "फेरि तास बाँड्न अनुरोध गर्ने")
    ∷ ("review_your_hand", "आफ्नो हात हेर्ने")
    ∷ (
      "review_your_cards_accept_or_request_redeal",
      "तास हेर्ने · स्वीकार गर्ने वा फेरि बाँड्न माग्ने",
    )
    ∷ ("waiting_for_hand_review", "सबैले तास हेर्न पर्खँदै")
    ∷ ("bid", "बोली")
    ∷ ("choose_a_bid", "बोली छान्ने")
    ∷ ("bid_count", "{{count}} को बोली")
    ∷ ("confirm_bid", "बोली पक्का गर्ने")
    ∷ ("increase_bid", "बोली बढाउने")
    ∷ ("decrease_bid", "बोली घटाउने")
    ∷ ("selected_bid_count", "छानिएको बोली {{count}}")
    ∷ ("your_bid_count", "तपाईँको बोली: {{count}}।")
    ∷ ("your_turn_to_bid", "तपाईँको बोली लगाउने पालो")
    ∷ ("how_many_tricks_will_you_win", "कति बाजी जित्नुहुन्छ?")
    ∷ ("make_your_call", "आफ्नो बोली लगाउने")
    ∷ ("bidding", "बोली लाग्दैछ")
    ∷ ("bidding_is_open", "बोली लगाउन मिल्छ")
    ∷ ("bid_pending", "बोली बाँकी")
    ∷ ("bidding_complete_message", "बोली सकियो। {{message}}")
    ∷ ("waiting_for_player_to_bid", "{{player}} को बोली पर्खँदै।")
    ∷ ("bids_total_total", "बोली · जम्मा {{total}}")
    ∷ ("available_available_tricks", "उपलब्ध {{available}} बाजी")
    ∷ ("current_deal_player_bids", "यस डिलका खेलाडीको बोली")
    ∷ ("view_bids_and_player_status", "बोली र खेलाडीको अवस्था हेर्ने")
    ∷ ("hide_bids_and_player_status", "बोली र खेलाडीको अवस्था लुकाउने")
    ∷ ("previous_bids", "अघिल्ला बोली")
    ∷ ("next_bids", "पछिल्ला बोली")
    ∷ ("play", "तास खेल्ने")
    ∷ ("play_a_card", "तास खेल्ने")
    ∷ ("play_card", "{{card}} खेल्ने")
    ∷ ("your_turn_to_play_a_card", "तपाईँको तास खेल्ने पालो")
    ∷ ("your_turn_choose_a_card", "तपाईँको पालो · तास छान्ने")
    ∷ ("next_turn", "अर्को पालो")
    ∷ ("you_lead_first", "पहिलो तास तपाईँले खेल्ने।")
    ∷ ("player_leads_first", "पहिलो तास {{player}} ले खेल्ने।")
    ∷ ("current_trick", "अहिलेको बाजी")
    ∷ ("last_trick", "अघिल्लो बाजी")
    ∷ ("last_trick_player_won", "अघिल्लो बाजी — {{player}} ले जित्नुभयो")
    ∷ ("player_wins_trick_number", "बाजी {{number}} मा {{player}} विजेता")
    ∷ ("trick_number_player_won", "बाजी {{number}} · {{player}} विजेता")
    ∷ ("done_total_tricks_completed", "{{total}} मध्ये {{done}} बाजी सकिए")
    ∷ ("tricks", "बाजीहरू")
    ∷ ("taken", "लिएका बाजी")
    ∷ ("won", "जितेका बाजी")
    ∷ ("won_won_need_needed", "जितेका {{won}} · अझै {{needed}} चाहिने")
    ∷ ("met", "बोली पुग्यो")
    ∷ ("cannot_reach_bid", "बोली पुर्\u{200d}याउन सम्भव छैन")
    ∷ ("missed_bid", "बोली पुगेन")
    ∷ ("led", "पहिलो तास खेलेको")
    ∷ ("led_this_trick", "पहिलो तास खेलेको")
    ∷ ("all_hands_played", "सबैको तास सकियो")
    ∷ ("current_deal", "अहिलेको डिल")
    ∷ ("deal_number", "डिल {{number}}")
    ∷ ("deal_number_of_5", "५ मध्ये डिल {{number}}")
    ∷ ("deal_complete", "डिल सकियो")
    ∷ ("deal_number_complete", "डिल {{number}} सकियो")
    ∷ ("start_next_deal", "अर्को डिल सुरु गर्ने")
    ∷ ("match_complete", "म्याच सकियो")
    ∷ ("scores", "अङ्कहरू")
    ∷ ("final_scores", "अन्तिम अङ्कहरू")
    ∷ ("round_complete_call_break", "राउन्ड सकियो · कल ब्रेक")
    ∷ ("completed_trick_history", "सकिएका बाजीको इतिहास")
    ∷ ("completed_tricks_will_appear_here", "सकिएका बाजी यहाँ देखिन्छन्।")
    ∷ ("allow_no_spades_redeal", "हुकुम नभए फेरि बाँड्न दिने")
    ∷ ("redeal_with_no_spades", "हुकुम नभए फेरि बाँड्ने")
    ∷ ("allow_weak_hand_redeal", "कमजोर हातमा फेरि बाँड्न दिने")
    ∷ ("redeal_with_no_card_above_jack", "गुलामभन्दा ठूलो तास नभए फेरि बाँड्ने")
    ∷ ("no_cards_in_your_hand", "तपाईँको हातमा तास छैन।")
    ∷ ("no_suit_left_choose_another_suit", "{{suit}} बाँकी छैन। अर्को रङ छान्ने।")
    ∷ ("follow_suit_if_you_can", "सम्भव भए {{suit}} को तास खेल्ने।")
    ∷ ("count_revealed", "{{count}} तास खोलिए")
    ∷ ("rules_title", "कल ब्रेकका नियम")
    ∷ ("preview_deal", "कल ब्रेक · ५ मध्ये डिल १ · हुकुम ट्रम्प")
    ∷ (
      "deal_summary",
      "{{status}} · {{total}} मध्ये बाजी {{trick}} · {{played}}/{{players}} तास खेलिएका",
    )
    ∷ ("tricks_completed", "{{status}} · {{completed}}/{{total}} बाजी सकिएका")
    ∷ ("bids_total", "बोली · जम्मा {{bids}} / उपलब्ध {{available}} बाजी")
    ∷ ("deal_tricks", "डिल {{deal}} का बाजी")
    ∷ ("reveal_arc", "अर्को तास खोल्न तासको पङ्क्तिमा थिच्ने। {{shown}}/{{total}} खुलेका।")
    ∷ (
      "live_deal_summary",
      "{{label}}{{deal}} / ५ · {{completed}}/{{total}} बाजी सकिएका · हुकुम ट्रम्प",
    )
    ∷ ("follow_suit", "मिल्छ भने {{suit}} खेल्ने। मिल्ने तास छानेर खेल्ने पुष्टि गर्ने।")
    ∷ ("you_lead", "पहिले तपाईँले खेल्ने।")
    ∷ ("player_leads", "पहिले {{player}} ले खेल्ने।")
    ∷ []
