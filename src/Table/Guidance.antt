-- ===== src/Table/Guidance.antt =====
-- client/src/multiplayer/roundFlow.ts: what the table tells a Call Break player to do. Texts that the
-- catalog gives are its keys, with the values that are put in.
use bhidne_ho.Prelude.{
  ℕ, ◌<◌, Bool, true, false, not, ◌&&◌, Option, none, some, List, [], ◌∷◌, String, ◌≡◌, ◌≢◌, ◌↔◌,
  ◌⊎◌, arith, str_eq, ◌==◌, find?, is_empty, if◌then◌else◌,
}

-- The phases that the switch names; any other is `other`.
pub data RoundPhase : Type 0 where
  awaiting_shuffle shuffling awaiting_cut awaiting_distribution hand_review bidding playing
        deal_complete match_complete other :
      RoundPhase

pub record RoundPlayer : Type 0 where
  pub player_id : ℕ
  pub display_name : Option String

-- `plays` are the cards of the current trick, [] where there is none.
pub record RoundGame : Type 0 where
  pub phase : RoundPhase
  pub turn : Option ℕ
  pub plays : List String

pub record FlowState : Type 0 where
  pub your_player_id : Option ℕ
  pub players : List RoundPlayer
  pub game : Option RoundGame
  pub can_accept_hand : Bool

-- A text: one of the source's own or a catalog key; the turn of the player or of another; the number
-- of a player without a name; the suit to follow.
pub data Text : Type 0 where
  plain : String → Text
  your_turn : String → Text
  turn_of : Text → String → Text
  player_number : Option ℕ → Text
  follow_suit : String → Text

pub record Guidance : Type 0 where
  pub step : ℕ
  pub title : Text
  pub instruction : Text
  pub mine : Bool

abbrev actor_of : FlowState → Option ℕ
actor_of s = elim s.game [ none ↦ none | some g ↦ g.turn ]

-- `!!actor && actor === snapshot.your_player_id`
abbrev is_mine : Option ℕ → Option ℕ → Bool
is_mine (some a) (some b) = not (a == 0) && (a == b)
is_mine _ _ = false

abbrev name_or : Option ℕ → Option RoundPlayer → Text
name_or actor none = player_number actor
name_or actor (some p) = elim p.display_name [
  | none ↦ player_number actor
  | some n ↦ if is_empty n then player_number actor else plain n
]

-- `p.player_id === actor` for an actor that may be missing.
abbrev is_actor : Option ℕ → RoundPlayer → Bool
is_actor none p = false
is_actor (some a) p = p.player_id == a

abbrev actor_name : FlowState → Text
actor_name s = name_or (actor_of s) (find? (is_actor (actor_of s)) s.players)

-- `card.slice(-1)`
abbrev last_letter : String → String
last_letter String.[] = ""
last_letter (String.◌∷◌ c s) = if is_empty s then String.◌∷◌ c String.[] else last_letter s

abbrev suit_name : String → Option String
suit_name l =
    if str_eq l "S"
    then some "spades"
    else if str_eq l "C"
    then some "clubs"
    else if str_eq l "H"
    then some "hearts"
    else if str_eq l "D"
    then some "diamonds"
    else none

abbrev lead_suit : List String → Option String
lead_suit [] = none
lead_suit (c ∷ cs) = suit_name (last_letter c)

abbrev play_instruction : Bool → Option String → Text
play_instruction false suit = plain "Watch the table. Your legal cards light up on your turn."
play_instruction true none = plain "You lead this trick. Select a card, then confirm Play."
play_instruction true (some suit) = follow_suit suit

abbrev task : FlowState → Bool → ℕ → String → Text → Guidance
task s mine step action instruction = record {
  step = step;
  title = if mine then your_turn action else turn_of (actor_name s) action;
  instruction = instruction;
  mine = mine;
}

abbrev notice : ℕ → String → String → Guidance
notice step title instruction = record {
  step = step;
  title = plain title;
  instruction = plain instruction;
  mine = false;
}

abbrev review : Bool → Guidance
review true = record {
  step = 2;
  title = plain "callbreak.review_your_hand";
  instruction = plain "Accept your hand, or request a redeal if eligible.";
  mine = true;
}
review false =
    notice 2 "callbreak.waiting_for_hand_review" "common.bidding_begins_when_everyone_accepts"

abbrev default_notice : Guidance
default_notice = notice 0 "callbreak.preparing_the_deal" "common.waiting_for_the_table"

abbrev phase_guidance : RoundPhase → FlowState → Bool → RoundGame → Guidance
phase_guidance awaiting_shuffle s mine g =
    task s mine 0 "callbreak.shuffle_the_deck"
      (plain "common.the_dealer_shuffles_to_begin_this_deal")
phase_guidance shuffling s mine g = notice 0 "callbreak.shuffling" "callbreak.preparing_the_deck"
phase_guidance awaiting_cut s mine g =
    task s mine 1 "callbreak.cut_the_deck" (plain "common.cut_in_half_or_skip_the_cut")
phase_guidance awaiting_distribution s mine g =
    task s mine 2 "callbreak.deal_the_cards"
      (plain "The dealer distributes one card at a time to each player.")
phase_guidance hand_review s mine g = review s.can_accept_hand
phase_guidance bidding s mine g = task s mine 3 "callbreak.choose_a_bid" (
    plain (
      if mine
      then "Choose how many tricks you will win, then confirm."
      else "common.review_your_cards_while_the_remaining_players_bid"))
phase_guidance playing s mine g =
    task s mine 4 "callbreak.play_a_card" (play_instruction mine (lead_suit g.plays))
phase_guidance deal_complete s mine g =
    notice 5 "callbreak.deal_complete" "common.review_the_scores_before_the_next_deal"
phase_guidance match_complete s mine g =
    notice 5 "callbreak.match_complete" "common.final_scores_after_five_deals"
phase_guidance other s mine g = default_notice

unfoldable pub round_guidance : FlowState → Guidance
round_guidance s = elim s.game [
  | none ↦ default_notice
  | some g ↦ phase_guidance g.phase s (is_mine g.turn s.your_player_id) g
]

-- The phases in which one player has to act.
abbrev pub IsTask : RoundPhase → Type 0
IsTask awaiting_shuffle = Unit
IsTask awaiting_cut = Unit
IsTask awaiting_distribution = Unit
IsTask bidding = Unit
IsTask playing = Unit
IsTask p = ⊥

phase_guidance-mine :
    (p : RoundPhase) (s : FlowState) (m : Bool) (g : RoundGame)
    → let r = phase_guidance p s m g in
      (r.step < 6)
      × ((r.mine ≡ true)
          ↔ ((IsTask p × (m ≡ true)) ⊎ ((p ≡ hand_review) × (s.can_accept_hand ≡ true))))
phase_guidance-mine hand_review s m g = ground arith
phase_guidance-mine p s m g = ground arith

is_mine_iff :
    (t : Option ℕ) (you : ℕ) → (is_mine t (some you) ≡ true) ↔ ((t ≡ some you) × (you ≢ 0))
is_mine_iff none you = ground arith
is_mine_iff (some a) you = ground arith

-- The guidance of a game names one of the six steps. It is marked as the viewer's own exactly when the
-- viewer is the player to act, who is not number 0, in a phase in which a player has to act, or may
-- accept the hand in the hand review.
pub round_guidance-mine_iff :
    (s : FlowState) (g : RoundGame) (you : ℕ)
    → s.game ≡ some g
    → s.your_player_id ≡ some you
    → let r = round_guidance s in
      (r.step < 6)
      × ((r.mine ≡ true) ↔ (
          (IsTask g.phase × (g.turn ≡ some you) × (you ≢ 0))
          ⊎ ((g.phase ≡ hand_review) × (s.can_accept_hand ≡ true))))
unfolding round_guidance
round_guidance-mine_iff s g you h k =
    rw (round_guidance, h, k)
      (ground (
        arith,
        phase_guidance-mine g.phase s (is_mine g.turn (some you)) g,
        is_mine_iff g.turn you,
      ))
