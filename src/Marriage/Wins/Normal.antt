-- ===== src/Marriage/Wins/Normal.antt =====
-- What marriageWinChoices offers on each route.
use bhidne_ho.Prelude.{
  ℕ, ◌≤◌, Bool, true, false, List, [], ◌∷◌, String, ◌≡◌, refl, arith, ltb, ◌==◌, length,
}
use bhidne_ho.Marriage.{MarriageCard, MarriageMeld}
use bhidne_ho.Marriage.Completion.{SeenMaal}
use bhidne_ho.Marriage.Completion.Sound.{completion_kind-Completes}
use bhidne_ho.Marriage.Masks.{Mask, size, select}
use bhidne_ho.Marriage.Cover.{Item}
use bhidne_ho.Marriage.Cover.Items.{IsLegal, items-IsLegal, IsLegal-items}
use bhidne_ho.Marriage.Finish.{remaining_cards}
use bhidne_ho.Marriage.Wins.{win_items, marriage_win_choices}
use bhidne_ho.Marriage.Wins.Choices.{AreWins, discard_each-AreWins}

length-select :
    (m : Mask) (cards : List MarriageCard)
    → length m ≡ length cards
    → length (select m cards) ≡ size m
unfolding select size
length-select [] [] h = refl
length-select [] (c ∷ cs) h = absurd (omega arith)
length-select (b ∷ m) [] h = absurd (omega arith)
length-select (true ∷ m) (c ∷ cs) h = omega (arith, length-select m cs (omega arith))
length-select (false ∷ m) (c ∷ cs) h = length-select m cs (omega arith)

abbrev pub any_count : ℕ → Bool
any_count n = true

IsLegal-pos :
    (maal : SeenMaal) (cards : List MarriageCard) (x : Item)
    → IsLegal maal any_count cards x
    → 1 ≤ size x.mask
IsLegal-pos maal cards x (len, (fit, hit, ids)) =
    let three = (completion_kind-Completes maal (select x.mask cards) x.group.meld_type hit).0 in
    omega (arith, length-select x.mask cards len)

-- On the normal route, with 22 cards, three shown melds and at most 13 other cards, at most 24 choices
-- are offered. Each keeps the shown melds, discards one of the other cards that is not protected, and
-- groups all the rest into disjoint groups, each with the kind that `completionKind` gives it. If fewer
-- than 24 are offered, every such choice is, perhaps with its groups in another order.
pub marriage_win_choices-AreWins :
    (before : String → String → Bool) (hand : List MarriageCard) (shown : List MarriageMeld)
    (maal : SeenMaal) (kept : List String)
    → length hand ≡ 22
    → length shown ≡ 3
    → length (remaining_cards before hand shown) ≤ 13
    → let cards = remaining_cards before hand shown in
      AreWins
        (IsLegal maal any_count cards)
        cards
        shown
        kept
        (marriage_win_choices before hand shown maal "normal" kept)
unfolding marriage_win_choices
marriage_win_choices-AreWins before hand shown maal kept h k l =
    let cards = remaining_cards before hand shown in
    let full_hand : (length hand == 22) ≡ true = ground arith in
    let three : (length shown == 3) ≡ true = ground arith in
    let few : ltb 13 (length cards) ≡ false = ground arith in
    rw (marriage_win_choices, full_hand, three, few)
      (discard_each-AreWins (IsLegal maal any_count cards) cards shown kept (win_items maal cards)
        (items-IsLegal maal any_count cards)
        (λ x p. IsLegal-items maal any_count cards x p (IsLegal-pos maal cards x p))
        (IsLegal-pos maal cards))
