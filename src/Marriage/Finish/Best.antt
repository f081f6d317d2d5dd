-- ===== src/Marriage/Finish/Best.antt =====
-- The plan that is shown for finishing is a best one.
use mathlib.Core.Path.{subst}
use bhidne_ho.Prelude.{
  ℕ, zero, suc, ◌+◌, ◌≤◌, ◌<◌, Bool, true, false, ◌&&◌, List, [], String, ◌≡◌, refl, arith, ltb,
  ◌==◌, length, Among, inl, inr, ◌⊎◌, ◌↔◌, Bool-cases,
}
use bhidne_ho.Marriage.{MarriageCard, MarriageMeld}
use bhidne_ho.Marriage.Completion.{SeenMaal}
use bhidne_ho.Marriage.Masks.{Mask, size, full, clear}
use bhidne_ho.Marriage.Masks.Laws
use bhidne_ho.Marriage.Masks.Memo.{Memo}
use bhidne_ho.Marriage.Cover.{Item, Plan, no_plan, cover}
use bhidne_ho.Marriage.Cover.Items.{IsLegal, items-IsLegal, IsLegal-items}
use bhidne_ho.Marriage.Cover.Packs.{weight, Packs, Covers, IsBest}
use bhidne_ho.Marriage.Cover.Optimal.{AllBest, cover-IsRight}
use bhidne_ho.Marriage.Finish.{
  remaining_cards, target_of, fits_target, finish_items, more, leave_one_out, best_plan,
  normal_finish_progress,
}

-- The cards that a plan may use: all of them, or all but one if there are more than the target.
abbrev pub Leaves : ℕ → ℕ → Mask → Type 0
Leaves target n m =
    ((n ≤ target) × (m ≡ full n)) ⊎ ((i : ℕ) × (target < n) × (i < n) × (m ≡ clear i (full n)))

index_cases : (j k : ℕ) → j < suc k → (j ≡ k) ⊎ (j < k)
index_cases j k h = ground arith

module _ (P : Item → Type 0) (target n : ℕ) where
  -- The plan is of disjoint items among cards that it may use, and none of those have more cards.
  abbrev pub IsBestFinish : Plan → Type 0
  IsBestFinish p =
      ((m : Mask) × Leaves target n m × Covers P m p)
      × ((m : Mask) (xs : List Item) → Leaves target n m → Packs P m xs → weight xs ≤ p.covered)

  -- The plan is best if only a card before the index `k` may be left out.
  abbrev BestSoFar : ℕ → Plan → Type 0
  BestSoFar k p =
      ((i : ℕ) × (i < n) × Covers P (clear i (full n)) p)
      × ((i : ℕ) (xs : List Item) → i < k → Packs P (clear i (full n)) xs → weight xs ≤ p.covered)

  more-BestSoFar :
      (k : ℕ) (plan best : Plan)
      → k < n
      → IsBest P (clear k (full n)) plan
      → BestSoFar k best
      → BestSoFar (suc k) (more plan best)
  more-BestSoFar k plan best h (c, d) ((i, l, e), f) =
      elim (Bool-cases (ltb best.covered plan.covered)) [
        | inl yes_more ↦ rw yes_more (
          (k, h, c),
          λ j xs lt packs. elim (index_cases j k lt) [
            | inl same ↦ d xs (rw same at packs)
            | inr before ↦ let bound = f j xs before packs in ground arith
          ],
        )
        | inr no_more ↦ rw no_more (
          (i, l, e),
          λ j xs lt packs. elim (index_cases j k lt) [
            | inl same ↦ let bound = d xs (rw same at packs) in ground arith
            | inr before ↦ f j xs before packs
          ],
        )
      ]

  module _ (items : List Item) (sound : (x : Item) → Among x items → P x)
      (complete : (x : Item) → P x → Among x items) where
    call-IsBest :
        (m : Mask) (memo : Memo Plan)
        → size m ≤ n
        → AllBest P items sound complete memo
        → IsBest P m (cover n items m memo).0
          × AllBest P items sound complete (cover n items m memo).1
    call-IsBest m memo h b = cover-IsRight P items sound complete n m memo h b

    leave_one_out-BestSoFar :
        (rounds i : ℕ) (best : Plan) (memo : Memo Plan)
        → rounds + i ≡ n
        → AllBest P items sound complete memo
        → BestSoFar i best
        → BestSoFar n (leave_one_out items n rounds i best memo)
    unfolding leave_one_out
    leave_one_out-BestSoFar zero i best memo e b h =
        let same : i ≡ n = omega arith in subst (λ k. BestSoFar k best) same h
    leave_one_out-BestSoFar (suc rounds) i best memo e b h =
        let lt : i < n = omega arith in
        let bit = Laws.has_bit-full i n lt in
        let small : size (clear i (full n)) ≤ n =
          omega (arith, Laws.size-clear i (full n) bit, Laws.size-full n) in
        let (c, b') = call-IsBest (clear i (full n)) memo small b in
        leave_one_out-BestSoFar rounds (suc i) (more (cover n items (clear i (full n)) memo).0 best)
          (cover n items (clear i (full n)) memo).1 (omega arith) b'
          (more-BestSoFar i (cover n items (clear i (full n)) memo).0 best lt c h)

    pub best_plan-IsBestFinish : IsBestFinish (best_plan items n target)
    unfolding best_plan
    best_plan-IsBestFinish = elim (Bool-cases (ltb target n)) [
      | inr all_used ↦
          let le : n ≤ target = ground arith in
          let ((c, d), b) = call-IsBest (full n) [] (omega (arith, Laws.size-full n)) tt in
          rw (best_plan, all_used)
            (
              (full n, inl (le, refl), c),
              λ m xs l packs. elim l [
                | inl (le', same) ↦ d xs (rw same at packs)
                | inr (i, lt, bound, same) ↦ absurd (omega arith)
              ],
            )
      | inl one_left ↦
          let lt : target < n = ground arith in
          let none_yet : BestSoFar 0 no_plan =
            ((0, omega arith, ([], tt, refl, refl)), λ i xs below packs. absurd (omega arith)) in
          let ((i, bound, c), d) =
            leave_one_out-BestSoFar n 0 no_plan [] (omega arith) tt none_yet in
          rw (best_plan, one_left)
            (
              (clear i (full n), inr (i, lt, bound, refl), c),
              λ m xs l packs. elim l [
                | inl (le, same) ↦ absurd (omega arith)
                | inr (j, lt', below, same) ↦ d j xs below (rw same at packs)
              ],
            )
    ]

fits_target_pos : (target n : ℕ) → fits_target target n ≡ true → 1 ≤ n
fits_target_pos target n h = ground arith

ready_iff : (a b : ℕ) (c d : ℕ) → (((a == b) && (c == d)) ≡ true) ↔ ((a ≡ b) × (c ≡ d))
ready_iff a b c d = ground arith

-- With at most 13 cards beside the shown melds, the plan that is shown is of disjoint groups of three
-- to `target` of these cards, each with the kind that `completionKind` gives it; one card is left out
-- if there are more than the target; and no such choice of groups covers more cards. It is ready
-- exactly when the hand has 22 cards and the plan covers the target.
pub normal_finish_progress-IsBestFinish :
    (before : String → String → Bool) (hand : List MarriageCard) (shown : List MarriageMeld)
    (maal : SeenMaal)
    → length (remaining_cards before hand shown) ≤ 13
    → let cards = remaining_cards before hand shown in
      let target = target_of shown in
      let r = normal_finish_progress before hand shown maal in
      IsBestFinish (IsLegal maal (fits_target target) cards) target (length cards) r.plan
      × ((r.ready ≡ true) ↔ ((length hand ≡ 22) × (r.plan.covered ≡ target)))
unfolding normal_finish_progress
normal_finish_progress-IsBestFinish before hand shown maal h =
    let cards = remaining_cards before hand shown in
    let target = target_of shown in
    let fits = fits_target target in
    let few : ltb 13 (length cards) ≡ false = ground arith in
    rw (normal_finish_progress, few)
      (
        best_plan-IsBestFinish (IsLegal maal fits cards) target (length cards)
            (finish_items maal target cards) (items-IsLegal maal fits cards)
            (λ x l. IsLegal-items maal fits cards x l (fits_target_pos target (size x.mask) l.1.0)),
        ready_iff _ _ _ _,
      )
