-- ===== src/Marriage/Maal/Choices.antt =====
-- client/src/multiplayer/maalProgress.ts: maalChoices. `visit` has the number of groups still to choose
-- in place of `chosen.length`, and the candidates from `start` on.
pub mod Taken
pub mod Each
pub mod Complete
use bhidne_ho.Prelude.{
  ℕ, zero, suc, Bool, true, false, Option, none, some, List, [], ◌∷◌, ◌++◌, String, map, leb,
  length, all, if◌then◌else◌,
}
use bhidne_ho.Marriage.{
  MarriageCard, MarriageMeld, MeldType, tunnela, pure_sequence, dublee, sequence,
}
use bhidne_ho.Marriage.Maal.{Pattern, patterns, range, Buckets, card_buckets, put_rest}
use bhidne_ho.Marriage.Completion.{ids_of}

pub data Route : Type 0 where
  normal_route dublee_route : Route

pub record MaalChoice : Type 0 where
  pub route : Route
  pub groups : List MarriageMeld

abbrev pub put_first : MarriageCard → List MarriageCard × Buckets → List MarriageCard × Buckets
put_first c (cs, remaining) = (c ∷ cs, remaining)

-- `remaining[f].shift()` for each face of a pattern, all of them or none.
unfoldable pub take_cards : List ℕ → Buckets → Option (List MarriageCard × Buckets)
take_cards [] remaining = some ([], remaining)
take_cards (f ∷ fs) remaining = elim (remaining f) [
  | [] ↦ none
  | c ∷ cs ↦ elim (take_cards fs (put_rest f cs remaining)) [
    | none ↦ none
    | some taken ↦ some (put_first c taken)
  ]
]

abbrev pub meld_of : MeldType → List MarriageCard → MarriageMeld
meld_of kind cards = record { meld_type = kind; card_ids = ids_of cards }

-- The candidates from the next start on.
abbrev pub next : Bool → Pattern → List Pattern → List Pattern
next repeat p ps = if repeat then p ∷ ps else ps

-- The loop over the candidates; `visit` is the recursive call.
unfoldable pub each_candidate :
    Bool
    → (List Pattern → List MarriageMeld → Buckets → List (List MarriageMeld))
    → List Pattern
    → List MarriageMeld
    → Buckets
    → List (List MarriageMeld)
unfolding take_cards
each_candidate repeat visit [] chosen remaining = []
each_candidate repeat visit (p ∷ ps) chosen remaining =
    let rest = each_candidate repeat visit ps chosen remaining in
    elim (take_cards p.faces remaining) [
      | none ↦ rest
      | some (cards, remaining') ↦
          visit (next repeat p ps) (chosen ++ meld_of p.kind cards ∷ []) remaining' ++ rest
    ]

unfoldable pub visit :
    Bool → ℕ → List Pattern → List MarriageMeld → Buckets → List (List MarriageMeld)
unfolding each_candidate
visit repeat zero ps chosen remaining = chosen ∷ []
visit repeat (suc n) ps chosen remaining =
    each_candidate repeat (visit repeat n) ps chosen remaining

-- `enumerate`
abbrev pub enumerate : Route → List Pattern → ℕ → Bool → Buckets → List MaalChoice
enumerate route candidates count repeat buckets =
    map (λ groups. record { route = route; groups = groups })
      (visit repeat count candidates [] buckets)

module _ {A : Type 0} where
  -- The candidates made of the elements that pass a test.
  unfoldable pub candidates : (A → Pattern) → (A → Bool) → List A → List Pattern
  candidates make test [] = []
  candidates make test (x ∷ xs) =
      let rest = candidates make test xs in if test x then make x ∷ rest else rest

abbrev pub copies_for : MeldType → ℕ
copies_for tunnela = 3
copies_for _ = 1

abbrev pub may_hold : Buckets → Pattern → Bool
may_hold buckets p = all (λ f. leb (copies_for p.kind) (length (buckets f))) p.faces

abbrev pub pair_at : ℕ → Pattern
pair_at f = record { kind = dublee; faces = f ∷ f ∷ [] }

abbrev pub same_pattern : Pattern → Pattern
same_pattern p = p

unfoldable pub maal_choices : (String → String → Bool) → List MarriageCard → List MaalChoice
unfolding patterns card_buckets visit candidates
maal_choices before hand =
    let buckets = card_buckets before hand in
    enumerate normal_route (candidates same_pattern (may_hold buckets) patterns) 3 true buckets
    ++ enumerate dublee_route (candidates pair_at (λ f. leb 2 (length (buckets f))) (range 52)) 7
        false buckets
