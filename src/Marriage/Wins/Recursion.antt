-- ===== src/Marriage/Wins/Recursion.antt =====
-- The recursion `covers` with its memo, on any fuel that is at least the number of the mask's bits.
use mathlib.Core.List.Perm
use bhidne_ho.Prelude.{
  ℕ, zero, suc, ◌≤◌, false, List, [], ◌∷◌, ◌≡◌, refl, sym, arith, Among, inl, inr, Bool-cases,
  Option-cases,
}
use bhidne_ho.Marriage.Masks.{Mask, size, lowest, is_zero}
use bhidne_ho.Marriage.Masks.Laws
use bhidne_ho.Marriage.Masks.Memo.{Memo, find_memo, find_memo-All}
use bhidne_ho.Marriage.Cover.{Item, at_bit}
use bhidne_ho.Marriage.Cover.Items.{Among-at_bit, at_bit-Among}
use bhidne_ho.Marriage.Wins.{Covers, covers}
use bhidne_ho.Marriage.Wins.Exact.{
  Exact, Found, IsCovers, Exact-lowest, IsRight, Gathered, gather-Gathered,
}

module _ (P : Item → Type 0) (items : List Item) (sound : (x : Item) → Among x items → P x)
    (complete : (x : Item) → P x → Among x items) (pos : (x : Item) → P x → 1 ≤ size x.mask) where
  -- The empty mask has the one empty cover.
  empty-IsCovers : (m : Mask) → size m ≡ 0 → IsCovers P m ([] ∷ [])
  empty-IsCovers m e = ((([], (tt, sym e), refl), tt), omega arith, inr (empty_found m e))
    where
      empty_found : (m : Mask) → size m ≡ 0 → (xs : List Item) → Exact P m xs → Found P ([] ∷ []) xs
      empty_found m e [] h = ([], [], inl refl, refl, Perm.refl _)
      empty_found m e (x ∷ xs) ((p, w, packs), h) = absurd (omega (arith, pos x p))

  Gathered-IsCovers :
      (m : Mask) (r : Covers × Memo Covers)
      → is_zero m ≡ false
      → Gathered P m (at_bit (lowest m) items) [] r
      → IsCovers P m r.0
  Gathered-IsCovers m (r, memo) h (k, b, le, t) = (
    k,
    le,
    elim t [
      | inl reached ↦ inl reached
      | inr (keeps, tried) ↦ inr λ xs exact.
          let (x, rest, p, bit, w, e, order) = Exact-lowest P m xs h exact in
          let there = at_bit-Among (lowest m) items x (complete x p) bit in
          let (g, ys, a, same, order') = tried x rest there w e in
          (g, ys, a, same, Perm.trans order order')
    ],
  )

  pub covers-IsRight : (fuel : ℕ) → IsRight P fuel (covers fuel items)
  unfolding covers
  covers-IsRight zero m memo fits b = (empty-IsCovers m (omega arith), b)
  covers-IsRight (suc fuel) m memo fits b = elim (Bool-cases (is_zero m)) [
    | inl none_left ↦ rw (covers, none_left) (empty-IsCovers m (Laws.size-is_zero m none_left), b)
    | inr some_left ↦ elim (Option-cases (find_memo m memo)) [
      | inr (r, hit) ↦
          rw (covers, some_left, hit) (find_memo-All (λ n q. IsCovers P n q) m memo r b hit, b)
      | inl missed ↦
          let i = lowest m in
          let found =
            gather-Gathered P fuel i (covers fuel items) m (at_bit i items) [] memo
              (covers-IsRight fuel) fits
              (λ c a. let (d, f) = Among-at_bit i items c a in (sound c d, f)) (omega arith) tt b in
          let right = Gathered-IsCovers m _ some_left found in
          rw (covers, some_left, missed) (right, (right, found.1))
    ]
  ]
