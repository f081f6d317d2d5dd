-- ===== src/Flush/Cues.antt =====
-- The turn cues of client/src/components/FlushTurnCue.tsx, and bets in flight.
use bhidne_ho.Prelude.{
  ℕ, suc, ◌+◌, Bool, true, false, not, Option, none, some, if◌then◌else◌, List, [], ◌∷◌, String,
  ◌≡◌, ◌≢◌, ◌↔◌, ◌⊎◌, refl, arith, eq_iff, ltb, All, eq_refl, filterb,
}
use bhidne_ho.Flush.{
  Observation, observe_flush_decision, FlushBet, new_bets, sum_amounts, pot_before_flights,
}

-- The effect of FlushTurnCue for a sequence of observations: how many give a cue. What the observer
-- gives back is what `previous` then holds.
unfoldable pub cues : Option Observation → List (Observation × Bool) → ℕ
cues previous [] = 0
cues previous ((o, personal) ∷ os) =
    let (observation, cue) = observe_flush_decision previous o personal in
    let rest = cues (some observation) os in elim cue [ true ↦ suc rest | false ↦ rest ]

abbrev pub Repeats : Option String → List (Observation × Bool) → Type 0
Repeats d os = All (λ p. p.0.decision ≡ d) os

observe_same :
    (o next : Observation) (d : Option String) (personal : Bool)
    → o.decision ≡ d
    → next.decision ≡ d
    → (observe_flush_decision (some o) next personal).1 ≡ false
unfolding observe_flush_decision
observe_same o next none personal h k = ground arith
observe_same o next (some d) personal h k = ground (arith, eq_refl d)

Repeats-cues :
    (d : Option String) (o : Observation) (os : List (Observation × Bool))
    → o.decision ≡ d
    → Repeats d os
    → cues (some o) os ≡ 0
unfolding cues observe_flush_decision
Repeats-cues d o [] e h = refl
Repeats-cues d o ((n, personal) ∷ os) e (f, h) =
    rw (cues, observe_same o n d personal e f) (Repeats-cues d n os f h)

cue_some :
    (o n : Observation) (c : Option String) (d : String)
    → o.decision ≡ c
    → n.decision ≡ some d
    → ((observe_flush_decision (some o) n true).1 ≡ true) ↔ (
        (o.scope ≡ n.scope)
        × (o.ready ≡ true)
        × (n.ready ≡ true)
        × (some d ≢ none)
        × (o.decision ≢ some d))
unfolding observe_flush_decision
cue_some o n none d e f = ground (arith, eq_iff o.scope n.scope)
cue_some o n (some c) d e f = ground (arith, eq_iff o.scope n.scope, eq_iff c d)

cue_first :
    (o n : Observation) (d : Option String)
    → n.decision ≡ d
    → ((observe_flush_decision (some o) n true).1 ≡ true)
      ↔ ((o.scope ≡ n.scope) × (o.ready ≡ true) × (n.ready ≡ true) × (d ≢ none) × (o.decision ≢ d))
unfolding observe_flush_decision
cue_first o n none e = ground arith
cue_first o n (some d) e = cue_some o n o.decision d refl e

cue_only :
    (o n : Observation) (os : List (Observation × Bool))
    → cues (some n) os ≡ 0
    → cues (some o) ((n, true) ∷ os) ≡ (if (observe_flush_decision (some o) n true).1 then 1 else 0)
unfolding cues observe_flush_decision
cue_only o n os h = ground arith

-- After an observation, a personal decision followed by any number of polls that show the same decision
-- gives exactly one cue or none: one exactly if the scope is the same, both observations are ready,
-- there is a decision, and it is not the one observed before.
pub cues_once :
    (o n : Observation) (os : List (Observation × Bool))
    → Repeats n.decision os
    → ((cues (some o) ((n, true) ∷ os) ≡ 1) ⊎ (cues (some o) ((n, true) ∷ os) ≡ 0))
      × ((cues (some o) ((n, true) ∷ os) ≡ 1) ↔ (
          (o.scope ≡ n.scope)
          × (o.ready ≡ true)
          × (n.ready ≡ true)
          × (n.decision ≢ none)
          × (o.decision ≢ n.decision)))
cues_once o n os h =
    let only = cue_only o n os (Repeats-cues n.decision n os refl h) in
    ground (arith, cue_first o n n.decision refl)

-- The bets that have landed.
abbrev pub landed : List FlushBet → ℕ → List FlushBet
landed bets after = filterb (λ b. not (ltb after b.sequence)) bets

sum-new_bets :
    (bets : List FlushBet) (after : ℕ)
    → sum_amounts (new_bets bets after) + sum_amounts (landed bets after) ≡ sum_amounts bets
unfolding sum_amounts new_bets
sum-new_bets [] after = refl
sum-new_bets (b ∷ bs) after = ground (arith, sum-new_bets bs after)

-- While the bets after a sequence number are in flight, the pot shown is what it held before the
-- round's bets together with exactly the bets that have landed.
pub pot_before_flights-landed :
    (base pot : ℕ) (bets : List FlushBet) (after : ℕ)
    → pot ≡ base + sum_amounts bets
    → pot_before_flights pot (new_bets bets after) ≡ base + sum_amounts (landed bets after)
unfolding pot_before_flights
pot_before_flights-landed base pot bets after h = omega (arith, sum-new_bets bets after)
