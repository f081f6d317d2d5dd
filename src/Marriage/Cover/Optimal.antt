-- ===== src/Marriage/Cover/Optimal.antt =====
-- The memoised recursion gives a best choice of disjoint items.
use mathlib.Core.Path.{subst}
use bhidne_ho.Prelude.{
  ℕ, zero, suc, ◌+◌, ◌≤◌, true, false, List, [], ◌∷◌, ◌≡◌, refl, sym, ap, arith, ltb, ◌==◌, ==_iff,
  Among, All, inl, inr, ◌⊎◌, Bool-cases, Option-cases,
}
use bhidne_ho.Marriage.Masks.{Mask, size, within, minus, has_bit, clear, lowest, is_zero}
use bhidne_ho.Marriage.Masks.Laws
use bhidne_ho.Marriage.Cover.{Item, Plan, no_plan, at_bit, better, improve, cover}
use bhidne_ho.Marriage.Masks.Memo.{Memo, find_memo, find_memo-All}
use bhidne_ho.Marriage.Cover.Items.{Among-at_bit, at_bit-Among}
use bhidne_ho.Marriage.Cover.Packs.{
  weight, Packs, Covers, Dominates, IsBest, weight-le-size, Packs-of_clear, bit_cases,
}

module _ (P : Item → Type 0) (items : List Item) (sound : (x : Item) → Among x items → P x)
    (complete : (x : Item) → P x → Among x items) where
  better-Covers :
      (m : Mask) (c : Item) (rest best : Plan)
      → P c
      → within c.mask m ≡ true
      → Covers P (minus m c.mask) rest
      → Covers P m best
      → Covers P m (better c rest best)
  better-Covers m c rest best a w (xs, h, e, f) k =
      elim (Bool-cases (ltb best.covered (size c.mask + rest.covered))) [
        | inl more ↦ rw more (c ∷ xs, (a, w, h), ap (λ g. c.group ∷ g) e, omega arith)
        | inr less ↦ rw less k
      ]

  better-covered :
      (c : Item) (rest best : Plan)
      → (best.covered ≤ (better c rest best).covered)
        × (size c.mask + rest.covered ≤ (better c rest best).covered)
  better-covered c rest best = ground arith

  abbrev pub AllBest : Memo Plan → Type 0
  AllBest = All (λ e. IsBest P e.0 e.1)

  -- A call of `cover` on a mask of at most `n` cards is right.
  abbrev pub IsRight : ℕ → (Mask → Memo Plan → Plan × Memo Plan) → Type 0
  IsRight n call =
      (m : Mask) (memo : Memo Plan)
      → size m ≤ n
      → AllBest memo
      → IsBest P m (call m memo).0 × AllBest (call m memo).1

  abbrev Tried : Mask → List Item → Plan → Type 0
  Tried m cs p =
      (c : Item) (xs : List Item)
      → Among c cs
      → within c.mask m ≡ true
      → Packs P (minus m c.mask) xs
      → size c.mask + weight xs ≤ p.covered

  abbrev Improved : Mask → List Item → Plan → Plan × Memo Plan → Type 0
  Improved m cs best (p, memo) =
      Covers P m p
      × AllBest memo
      × (best.covered ≤ p.covered)
      × ((p.covered ≡ size m) ⊎ Tried m cs p)

  -- The candidates hold the bit that is decided.
  abbrev HaveBit : ℕ → List Item → Type 0
  HaveBit i cs = (c : Item) → Among c cs → P c × (has_bit i c.mask ≡ true)

  tried_more :
      (m : Mask) (c : Item) (cs : List Item) (rest best : Plan) (r : Plan × Memo Plan)
      → Dominates P (minus m c.mask) rest
      → Improved m cs (better c rest best) r
      → Improved m (c ∷ cs) best r
  tried_more m c cs rest best (p, memo) d (k, b, le, t) =
      let (one, two) = better-covered c rest best in
      (
        k,
        b,
        omega arith,
        elim t [
          | inl e ↦ inl e
          | inr others ↦ inr λ z xs a w h. elim a [
            | inl same ↦
                let h' = subst (λ y. Packs P (minus m y.mask) xs) (sym same) h in
                let bound = d xs h' in
                let equal : size c.mask ≡ size z.mask = ap (λ (y : Item). size y.mask) same in
                omega arith
            | inr later ↦ others z xs later w h
          ]
        ],
      )

  tried_outside :
      (m : Mask) (c : Item) (cs : List Item) (best : Plan) (r : Plan × Memo Plan)
      → within c.mask m ≡ false
      → Improved m cs best r
      → Improved m (c ∷ cs) best r
  tried_outside m c cs best (p, memo) out (k, b, le, t) = (
    k,
    b,
    le,
    elim t [
      | inl e ↦ inl e
      | inr others ↦ inr λ z xs a w h. elim a [
        | inl same ↦
            let same_mask : c.mask ≡ z.mask = ap (λ (y : Item). y.mask) same in
            absurd (ground arith)
        | inr later ↦ others z xs later w h
      ]
    ],
  )

  improve-Improved :
      (n i : ℕ) (call : Mask → Memo Plan → Plan × Memo Plan) (m : Mask) (cs : List Item)
      (best : Plan) (memo : Memo Plan)
      → IsRight n call
      → size m ≤ suc n
      → HaveBit i cs
      → Covers P m best
      → AllBest memo
      → Improved m cs best (improve call m cs best memo)
  unfolding improve
  improve-Improved n i call m [] best memo right fits bits k b =
      (k, b, omega arith, inr λ c xs a. absurd a)
  improve-Improved n i call m (c ∷ cs) best memo right fits bits k b =
      let later : HaveBit i cs = λ d a. bits d (inr a) in
      elim (Bool-cases (within c.mask m)) [
        | inr out ↦
            rw (improve, out)
              (tried_outside m c cs best _ out
                (improve-Improved n i call m cs best memo right fits later k b))
        | inl w ↦
            let (known, bit) = bits c (inl refl) in
            let small : size (minus m c.mask) ≤ n =
              omega (arith, Laws.size-minus m c.mask w, Laws.size_pos i c.mask bit) in
            let ((kr, dr), br) = right (minus m c.mask) memo small b in
            let rest = (call (minus m c.mask) memo).0 in
            let best' = better c rest best in
            let k' = better-Covers m c rest best known w kr k in
            elim (Bool-cases (best'.covered == size m)) [
              | inl whole ↦
                  rw (improve, w, whole)
                    (tried_more m c cs rest best (best', (call (minus m c.mask) memo).1) dr
                      (k', br, omega arith, inl ((==_iff _ _).0 whole)))
              | inr more ↦
                  rw (improve, w, more)
                    (tried_more m c cs rest best _ dr (
                      improve-Improved n i call m cs best' (call (minus m c.mask) memo).1 right fits
                        later k' br))
            ]
      ]

  -- Nothing can be packed into an empty mask.
  empty-IsBest : (m : Mask) → size m ≡ 0 → IsBest P m no_plan
  empty-IsBest m e =
      (([], tt, refl, refl), λ xs h. let bound = weight-le-size P m xs h in omega arith)

  -- Once the lowest bit has been left out, or given to each of its candidates, the plan is best.
  Improved-IsBest :
      (i : ℕ) (m : Mask) (first : Plan) (r : Plan × Memo Plan)
      → IsBest P (clear i m) first
      → Improved m (at_bit i items) first r
      → IsBest P m r.0
  Improved-IsBest i m first (p, memo) (k, d) (kept, b, le, t) = (
    kept,
    λ xs h. elim t [
      | inl whole ↦ let bound = weight-le-size P m xs h in omega arith
      | inr tried ↦ elim (bit_cases P i m xs h) [
        | inl avoids ↦ let bound = d xs avoids in omega arith
        | inr (x, rest, a, bit, w, packs, e, order) ↦
            let bound = tried x rest (at_bit-Among i items x (complete x a) bit) w packs in
            omega arith
      ]
    ],
  )

  pub cover-IsRight : (fuel : ℕ) → IsRight fuel (cover fuel items)
  unfolding cover
  cover-IsRight zero m memo fits b = (empty-IsBest m (omega arith), b)
  cover-IsRight (suc fuel) m memo fits b = elim (Bool-cases (is_zero m)) [
    | inl none_left ↦ rw (cover, none_left) (empty-IsBest m (Laws.size-is_zero m none_left), b)
    | inr some_left ↦ elim (Option-cases (find_memo m memo)) [
      | inr (p, hit) ↦
          rw (cover, some_left, hit) (find_memo-All (λ n q. IsBest P n q) m memo p b hit, b)
      | inl missed ↦
          let i = lowest m in
          let bit = Laws.has_bit-lowest m some_left in
          let small : size (clear i m) ≤ fuel = omega (arith, Laws.size-clear i m bit) in
          let ((k, d), b') = cover-IsRight fuel (clear i m) memo small b in
          let (xs, packs, gs, cs) = k in
          let wider : Covers P m (cover fuel items (clear i m) memo).0 =
            (xs, Packs-of_clear P i m xs packs, gs, cs) in
          let first = (cover fuel items (clear i m) memo).0 in
          let memo' = (cover fuel items (clear i m) memo).1 in
          let found =
            improve-Improved fuel i (cover fuel items) m (at_bit i items) first memo'
              (cover-IsRight fuel) fits
              (λ c a. let (b, f) = Among-at_bit i items c a in (sound c b, f)) wider b' in
          let best = Improved-IsBest i m first _ (k, d) found in
          rw (cover, some_left, missed) (best, (best, found.1))
    ]
  ]
