-- ===== src/Flush.antt =====
-- The Flush client: client/src/multiplayer/flushDecision.ts and the bets of
-- client/src/multiplayer/flushTable.ts. The key of a decision is kept as its three parts, which the
-- source joins by colons.
pub mod Cues
mod Tests
use bhidne_ho.Prelude.{
  ℕ, ◌+◌, ◌-◌, ◌≤◌, Bool, true, false, not, ◌&&◌, ◌||◌, Option, none, some, List, [], ◌∷◌, String,
  str_eq, is_empty, ltb, if◌then◌else◌, is_some, or_else, ◌==◌, filterb,
}

pub record PendingShow : Type 0 where
  pub target_id : String

pub record PendingSideShow : Type 0 where
  pub side_target_id : String
  pub revision : ℕ

-- The public view of a round.
pub record FlushPublic : Type 0 where
  pub pending_show : Option PendingShow
  pub pending_side_show : Option PendingSideShow
  pub round_number : ℕ
  pub status : String
  pub current_player_id : Option String

-- "show", `side-show:${revision}`, or the status.
pub data DecisionPhase : Type 0 where
  show : DecisionPhase
  side_show : ℕ → DecisionPhase
  in_status : String → DecisionPhase

pub record Decision : Type 0 where
  pub round : ℕ
  pub phase : DecisionPhase
  pub actor : String

abbrev next_actor : FlushPublic → Option String
next_actor p = elim p.pending_show [
  | some s ↦ some s.target_id
  | none ↦ elim p.pending_side_show [ some s ↦ some s.side_target_id | none ↦ p.current_player_id ]
]

abbrev phase_of : FlushPublic → DecisionPhase
phase_of p = elim p.pending_show [
  | some s ↦ show
  | none ↦ elim p.pending_side_show [ some s ↦ side_show s.revision | none ↦ in_status p.status ]
]

abbrev decision_for : FlushPublic → Option String → Option Decision
decision_for p none = none
decision_for p (some a) =
    if is_empty a
    then none
    else some (record { round = p.round_number; phase = phase_of p; actor = a })

-- The first argument is `view?.public`.
unfoldable pub flush_decision : Option FlushPublic → Bool → Option Decision
flush_decision none playing = none
flush_decision (some p) playing =
    if not playing || str_eq p.status "finished" then none else decision_for p (next_actor p)

-- A decision as the hook sees it: `decision` is the key.
pub record Observation : Type 0 where
  pub scope : String
  pub decision : Option String
  pub ready : Bool

abbrev is_new : Option String → Option String → Bool
is_new before none = false
is_new none (some d) = true
is_new (some c) (some d) = not (str_eq c d)

unfoldable pub observe_flush_decision : Option Observation → Observation → Bool → Observation × Bool
observe_flush_decision none next personal = (next, false)
observe_flush_decision (some previous) next personal = (
  next,
  str_eq previous.scope next.scope
      && previous.ready
      && next.ready
      && personal
      && is_new previous.decision next.decision,
)

pub record FlushBet : Type 0 where
  pub sequence : ℕ
  pub player_id : String
  pub amount : ℕ
  pub kind : String

unfoldable pub new_bets : List FlushBet → ℕ → List FlushBet
new_bets bets after = filterb (λ b. ltb after b.sequence) bets

unfoldable pub sum_amounts : List FlushBet → ℕ
sum_amounts [] = 0
sum_amounts (b ∷ bs) = b.amount + sum_amounts bs

-- `Math.max(0, pot - sum)`
unfoldable pub pot_before_flights : ℕ → List FlushBet → ℕ
unfolding sum_amounts
pot_before_flights pot pending = pot - sum_amounts pending
