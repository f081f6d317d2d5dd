-- ===== src/Marriage/Finish/Gaps.antt =====
-- client/src/multiplayer/marriageFinishProgress.ts: finishingGaps, the faces that would complete two of
-- the cards left over.
use bhidne_ho.Prelude.{
  ℕ, Bool, not, ◌&&◌, ◌||◌, none, some, List, [], ◌∷◌, ◌++◌, map, ltb, length, filterb, false, true,
}
use mathlib.Core.List.{flat_map}
use bhidne_ho.Marriage.{all_suits, Face, standard, man, MarriageCard}
use bhidne_ho.Marriage.Completion.{SeenMaal, is_marriage_wild, completion_kind}
use bhidne_ho.Marriage.Finish.{shows_face}

abbrev pub ranks : List ℕ
ranks = 2 ∷ 3 ∷ 4 ∷ 5 ∷ 6 ∷ 7 ∷ 8 ∷ 9 ∷ 10 ∷ 11 ∷ 12 ∷ 13 ∷ 14 ∷ []

unfoldable pub faces_tried : List Face
faces_tried = flat_map (λ s. map (λ r. record { rank = r; suit = s }) ranks) all_suits

abbrev pub candidate : Face → MarriageCard
candidate f = record { card_id = "candidate"; kind = standard f }

abbrev pub candidate_man : MarriageCard
candidate_man = record { card_id = "candidate"; kind = man }

unfoldable pub completes : SeenMaal → List MarriageCard → MarriageCard → Bool
completes maal held c = elim (completion_kind (held ++ c ∷ []) maal) [
  | none ↦ false
  | some k ↦ true
]

unfoldable pub needed : SeenMaal → List MarriageCard → List MarriageCard → List Face
unfolding faces_tried completes
needed maal hand held =
    filterb
      (λ f.
        not (is_marriage_wild (candidate f).kind maal)
        && ltb (length (filterb (shows_face f) hand)) 3
        && completes maal held (candidate f))
      faces_tried

pub record Gap : Type 0 where
  pub held : List MarriageCard
  pub needed : List Face
  pub wild_helps : Bool

abbrev gap_of : SeenMaal → List MarriageCard → List MarriageCard → Gap
gap_of maal hand held = record {
  held = held;
  needed = needed maal hand held;
  wild_helps = completes maal held candidate_man;
}

abbrev is_gap : Gap → Bool
is_gap g = ltb 0 (length g.needed) || g.wild_helps

-- The inner loop, for the first card of two.
abbrev gaps_with : SeenMaal → List MarriageCard → MarriageCard → List MarriageCard → List Gap
gaps_with maal hand a bs = filterb is_gap (map (λ b. gap_of maal hand (a ∷ b ∷ [])) bs)

unfoldable pub finishing_gaps : SeenMaal → List MarriageCard → List MarriageCard → List Gap
unfolding needed
finishing_gaps maal hand [] = []
finishing_gaps maal hand (c ∷ cs) = gaps_with maal hand c cs ++ finishing_gaps maal hand cs
