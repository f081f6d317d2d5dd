-- ===== src/Marriage/ProgressTests.antt =====
-- The theorems on the progress of a Marriage hand at concrete hands.
use bhidne_ho.Prelude.{
  ℕ, ◌≤◌, Bool, true, List, [], ◌∷◌, ◌++◌, String, ◌≡◌, ◌↔◌, refl, arith, length, Among,
}
use bhidne_ho.Marriage.{
  Suit, spades, hearts, clubs, diamonds, Face, standard, MarriageCard, MarriageMeld, tunnela,
  pure_sequence,
}
use bhidne_ho.Marriage.Completion.{SeenMaal}
use bhidne_ho.Marriage.Cover.Items.{IsLegal}
use bhidne_ho.Marriage.Finish.{remaining_cards, target_of, fits_target, normal_finish_progress}
use bhidne_ho.Marriage.Finish.Best.{IsBestFinish, normal_finish_progress-IsBestFinish}
use bhidne_ho.Marriage.Wins.{marriage_win_choices}
use bhidne_ho.Marriage.Wins.Choices.{AreWins}
use bhidne_ho.Marriage.Wins.Normal.{any_count, marriage_win_choices-AreWins}
use bhidne_ho.Marriage.Maal.{card_buckets, allocate, missing_in, maal_progress, Pattern, nearest}
use bhidne_ho.Marriage.Maal.Nearest.{IsPlan}
use bhidne_ho.Marriage.Maal.Choices.{MaalChoice, normal_route, maal_choices}
use bhidne_ho.Marriage.Maal.Choices.Complete.{IsAllowed, maal_choices-IsAllowed_iff}
use bhidne_ho.Marriage.Maal.Held.{maal_progress-IsNearest}

abbrev at_face : ℕ → Suit → Face
at_face r s = record { rank = r; suit = s }

abbrev card : String → ℕ → Suit → MarriageCard
card id r s = record { card_id = id; kind = standard (at_face r s) }

abbrev seen : SeenMaal
seen = record { tiplu = at_face 10 hearts; jhiplu = at_face 9 hearts; poplu = at_face 11 hearts }

-- Keeps the order of the hand.
abbrev in_any_order : String → String → Bool
in_any_order a b = true

abbrev same_three : String → String → String → ℕ → Suit → List MarriageCard
same_three a b c r s = card a r s ∷ card b r s ∷ card c r s ∷ []

abbrev tunnela_of : String → String → String → MarriageMeld
tunnela_of a b c = record { meld_type = tunnela; card_ids = a ∷ b ∷ c ∷ [] }

abbrev three_shown : List MarriageMeld
three_shown = tunnela_of "a1" "a2" "a3" ∷ tunnela_of "b1" "b2" "b3" ∷ tunnela_of "c1" "c2" "c3" ∷ []

abbrev shown_cards : List MarriageCard
shown_cards =
    same_three "a1" "a2" "a3" 2 spades
    ++ same_three "b1" "b2" "b3" 4 spades
    ++ same_three "c1" "c2" "c3" 6 spades

-- Four tunnelas and a card to discard.
abbrev others : List MarriageCard
others =
    same_three "d1" "d2" "d3" 2 clubs
    ++ same_three "e1" "e2" "e3" 4 clubs
    ++ same_three "f1" "f2" "f3" 6 diamonds
    ++ same_three "g1" "g2" "g3" 8 hearts
    ++ card "h" 12 clubs ∷ []

abbrev winning : List MarriageCard
winning = shown_cards ++ others

thirteen_remain : length (remaining_cards in_any_order winning three_shown) ≡ 13
unfolding remaining_cards bhidne_ho.Marriage.Order.sort_by mathlib.Core.List.flat_map
thirteen_remain = refl

normal_finish_progress-IsBestFinish_example :
    let cards = remaining_cards in_any_order winning three_shown in
    let target = target_of three_shown in
    let r = normal_finish_progress in_any_order winning three_shown seen in
    IsBestFinish (IsLegal seen (fits_target target) cards) target (length cards) r.plan
    × ((r.ready ≡ true) ↔ ((length winning ≡ 22) × (r.plan.covered ≡ target)))
normal_finish_progress-IsBestFinish_example =
    normal_finish_progress-IsBestFinish in_any_order winning three_shown seen
      (omega (arith, thirteen_remain))

marriage_win_choices-AreWins_example :
    let cards = remaining_cards in_any_order winning three_shown in
    AreWins
      (IsLegal seen any_count cards)
      cards
      three_shown
      ("d1" ∷ [])
      (marriage_win_choices in_any_order winning three_shown seen "normal" ("d1" ∷ []))
marriage_win_choices-AreWins_example =
    marriage_win_choices-AreWins in_any_order winning three_shown seen ("d1" ∷ []) refl refl
      (omega (arith, thirteen_remain))

maal_progress-IsNearest_example :
    let (normal, dublee) = maal_progress in_any_order others in
    let buckets = card_buckets in_any_order others in
    (plan : List Pattern) × IsPlan plan
    × (normal.groups ≡ allocate plan buckets)
    × ((sel : List Pattern) → IsPlan sel → normal.missing ≤ missing_in (allocate sel buckets))
maal_progress-IsNearest_example = maal_progress-IsNearest in_any_order others

-- Five of the thirteen faces of two sequences and a tunnela are lacking.
abbrev two_pairs : List MarriageCard
two_pairs = card "a" 2 spades ∷ card "b" 3 spades ∷ card "c" 3 spades ∷ card "d" 9 clubs ∷ []

two_pairs_lack : (nearest (λ i. length (card_buckets in_any_order two_pairs i))).best_cost ≡ 5
unfolding nearest card_buckets bhidne_ho.Marriage.Order.sort_by mathlib.Core.List.flat_map
two_pairs_lack = refl

-- Three copies of a card and two sequences that share a card.
abbrev qualified : List MarriageCard
qualified =
    same_three "a" "b" "c" 9 clubs
    ++ card "d" 2 spades
      ∷ card "e" 3 spades
      ∷ card "f" 4 spades
      ∷ card "g" 4 spades
      ∷ card "h" 5 spades
      ∷ card "i" 6 spades
      ∷ []

abbrev qualification : MaalChoice
qualification = record {
  route = normal_route;
  groups =
      record { meld_type = pure_sequence; card_ids = "d" ∷ "e" ∷ "f" ∷ [] }
      ∷ record { meld_type = pure_sequence; card_ids = "g" ∷ "h" ∷ "i" ∷ [] }
      ∷ tunnela_of "a" "b" "c"
      ∷ [];
}

one_qualification : maal_choices in_any_order qualified ≡ qualification ∷ []
unfolding maal_choices bhidne_ho.Marriage.Order.sort_by mathlib.Core.List.flat_map
one_qualification = refl

maal_choices-IsAllowed_iff_example :
    Among qualification (maal_choices in_any_order qualified)
    ↔ IsAllowed (card_buckets in_any_order qualified) qualification
maal_choices-IsAllowed_iff_example = maal_choices-IsAllowed_iff in_any_order qualified qualification
