-- ===== src/Marriage/Wins/Exact.antt =====
-- Covers of all the mask's cards, and the loop over the candidates of its lowest bit: it finds covers,
-- and all of them if it finds fewer than the limit.
use mathlib.Core.Path.{subst}
use mathlib.Core.List.{Perm}
use mathlib.Core.List.Perm
use bhidne_ho.Prelude.{
  ℕ, suc, ◌≤◌, ◌<◌, true, false, List, [], ◌∷◌, ◌≡◌, refl, sym, ap, arith, leb, length, Among, All,
  inl, inr, ◌⊎◌, Bool-cases,
}
use bhidne_ho.Marriage.{MarriageMeld}
use bhidne_ho.Marriage.Masks.{Mask, size, within, minus, has_bit, clear, lowest, is_zero}
use bhidne_ho.Marriage.Masks.Laws
use bhidne_ho.Marriage.Masks.Memo.{Memo}
use bhidne_ho.Marriage.Cover.{Item}
use bhidne_ho.Marriage.Cover.Packs.{weight, groups_of, Packs, weight-le-size, bit_cases}
use bhidne_ho.Marriage.Wins.{limit, Covers, extend, gather}
use bhidne_ho.Marriage.Wins.Pushed.{push_all-keeps, push_all-HasAll, push_all-All}

module _ (P : Item → Type 0) where
  -- Disjoint items that take all the mask's cards.
  abbrev pub Exact : Mask → List Item → Type 0
  Exact m xs = Packs P m xs × (weight xs ≡ size m)

  abbrev pub IsExact : Mask → List MarriageMeld → Type 0
  IsExact m g = (xs : List Item) × Exact m xs × (g ≡ groups_of xs)

  -- The cover is there, perhaps in another order.
  abbrev pub Found : Covers → List Item → Type 0
  Found r xs =
      (g : List MarriageMeld) × (ys : List Item) × Among g r × (g ≡ groups_of ys) × Perm xs ys

  abbrev pub IsCovers : Mask → Covers → Type 0
  IsCovers m r =
      All (IsExact m) r
      × (length r ≤ limit)
      × ((length r ≡ limit) ⊎ ((xs : List Item) → Exact m xs → Found r xs))

  Exact-cons :
      (m : Mask) (c : Item) (xs : List Item)
      → P c
      → within c.mask m ≡ true
      → Exact (minus m c.mask) xs
      → Exact m (c ∷ xs)
  Exact-cons m c xs p w (packs, e) = ((p, w, packs), omega (arith, Laws.size-minus m c.mask w))

  All-extend :
      (m : Mask) (c : Item) (rests : Covers)
      → P c
      → within c.mask m ≡ true
      → All (IsExact (minus m c.mask)) rests
      → All (λ r. IsExact m (c.group ∷ r)) rests
  All-extend m c [] p w h = tt
  All-extend m c (r ∷ rs) p w ((xs, e, g), h) =
      ((c ∷ xs, Exact-cons m c xs p w e, ap (λ k. c.group ∷ k) g), All-extend m c rs p w h)

  -- A cover that takes the item of the lowest bit.
  pub Exact-lowest :
      (m : Mask) (xs : List Item)
      → is_zero m ≡ false
      → Exact m xs
      → (x : Item) × (rest : List Item) × P x
        × (has_bit (lowest m) x.mask ≡ true)
        × (within x.mask m ≡ true)
        × Exact (minus m x.mask) rest
        × Perm xs (x ∷ rest)
  Exact-lowest m xs h (packs, e) = elim (bit_cases P (lowest m) m xs packs) [
    | inl avoids ↦
        let bit = Laws.has_bit-lowest m h in
        absurd (
          omega (
            arith,
            weight-le-size P (clear (lowest m) m) xs avoids,
            Laws.size-clear (lowest m) m bit,
          ))
    | inr (x, rest, p, bit, w, k, q, order) ↦
        (x, rest, p, bit, w, (k, omega (arith, Laws.size-minus m x.mask w)), order)
  ]

  abbrev pub AllCovers : Memo Covers → Type 0
  AllCovers = All (λ e. IsCovers e.0 e.1)

  -- A call of `covers` on a mask of at most `n` cards is right.
  abbrev pub IsRight : ℕ → (Mask → Memo Covers → Covers × Memo Covers) → Type 0
  IsRight n call =
      (m : Mask) (memo : Memo Covers)
      → size m ≤ n
      → AllCovers memo
      → IsCovers m (call m memo).0 × AllCovers (call m memo).1

  -- The covers of an item of the list are found.
  abbrev pub Tried : Mask → List Item → Covers → Type 0
  Tried m cs r =
      (c : Item) (xs : List Item)
      → Among c cs
      → within c.mask m ≡ true
      → Exact (minus m c.mask) xs
      → Found r (c ∷ xs)

  abbrev pub Gathered : Mask → List Item → Covers → Covers × Memo Covers → Type 0
  Gathered m cs result (r, memo) =
      All (IsExact m) r
      × AllCovers memo
      × (length r ≤ limit)
      × ((length r ≡ limit)
          ⊎ (((g : List MarriageMeld) → Among g result → Among g r) × Tried m cs r))

  abbrev pub HaveBit : ℕ → List Item → Type 0
  HaveBit i cs = (c : Item) → Among c cs → P c × (has_bit i c.mask ≡ true)

  Gathered-outside :
      (m : Mask) (c : Item) (cs : List Item) (result : Covers) (r : Covers × Memo Covers)
      → within c.mask m ≡ false
      → Gathered m cs result r
      → Gathered m (c ∷ cs) result r
  Gathered-outside m c cs result (r, memo) out (k, b, le, t) = (
    k,
    b,
    le,
    elim t [
      | inl e ↦ inl e
      | inr (keeps, others) ↦ inr (
        keeps,
        λ z xs a w h. elim a [
          | inl same ↦
              let same_mask : c.mask ≡ z.mask = ap (λ (y : Item). y.mask) same in
              absurd (ground arith)
          | inr later ↦ others z xs later w h
        ],
      )
    ],
  )

  extend-Found :
      (m : Mask) (c : Item) (rests result : Covers) (xs : List Item)
      → length result < limit
      → IsCovers (minus m c.mask) rests
      → length (extend c rests result) < limit
      → Exact (minus m c.mask) xs
      → Found (extend c rests result) (c ∷ xs)
  extend-Found m c rests result xs short (sound, few, complete) open_end h =
      elim (push_all-HasAll (λ g. c.group ∷ g) rests result short).1 [
        | inl reached ↦ absurd (omega arith)
        | inr (count, among) ↦ elim complete [
          | inl all_taken ↦ absurd (omega arith)
          | inr found ↦
              let (g, ys, a, e, order) = found xs h in
              (c.group ∷ g, c ∷ ys, among g a, ap (λ k. c.group ∷ k) e, Perm.cons c order)
        ]
      ]

  -- The covers of the first item, and then those of the others.
  Gathered-more :
      (m : Mask) (c : Item) (cs : List Item) (rests result : Covers) (r : Covers × Memo Covers)
      → length result < limit
      → IsCovers (minus m c.mask) rests
      → length (extend c rests result) < limit
      → Gathered m cs (extend c rests result) r
      → Gathered m (c ∷ cs) result r
  Gathered-more m c cs rests result (r, memo) short right open_end (k, b, le, t) = (
    k,
    b,
    le,
    elim t [
      | inl e ↦ inl e
      | inr (keeps, others) ↦ inr (
        λ g a. keeps g (push_all-keeps (λ z. c.group ∷ z) rests result g a),
        λ z xs a w h. elim a [
          | inl same ↦
              let h' = subst (λ y. Exact (minus m y.mask) xs) (sym same) h in
              let (g, ys, there, e, order) =
                extend-Found m c rests result xs short right open_end h' in
              subst (λ y. Found r (y ∷ xs)) same (g, ys, keeps g there, e, order)
          | inr later ↦ others z xs later w h
        ],
      )
    ],
  )

  pub gather-Gathered :
      (n i : ℕ) (call : Mask → Memo Covers → Covers × Memo Covers) (m : Mask) (cs : List Item)
      (result : Covers) (memo : Memo Covers)
      → IsRight n call
      → size m ≤ suc n
      → HaveBit i cs
      → length result < limit
      → All (IsExact m) result
      → AllCovers memo
      → Gathered m cs result (gather call m cs result memo)
  unfolding gather
  gather-Gathered n i call m [] result memo right fits bits short k b =
      (k, b, omega arith, inr ((λ g a. a), λ c xs a. absurd a))
  gather-Gathered n i call m (c ∷ cs) result memo right fits bits short k b =
      let later : HaveBit i cs = λ d a. bits d (inr a) in
      elim (Bool-cases (within c.mask m)) [
        | inr out ↦
            rw (gather, out)
              (Gathered-outside m c cs result _ out
                (gather-Gathered n i call m cs result memo right fits later short k b))
        | inl w ↦
            let (known, bit) = bits c (inl refl) in
            let small : size (minus m c.mask) ≤ n =
              omega (arith, Laws.size-minus m c.mask w, Laws.size_pos i c.mask bit) in
            let (found, b') = right (minus m c.mask) memo small b in
            let rests = (call (minus m c.mask) memo).0 in
            let result' = extend c rests result in
            let k' =
              push_all-All (IsExact m) (λ r. c.group ∷ r) rests result k
                (All-extend m c rests known w found.0) in
            elim (Bool-cases (leb limit (length result'))) [
              | inl reached ↦
                  let bound = (push_all-HasAll (λ r. c.group ∷ r) rests result short).0 in
                  rw (gather, w, reached) (k', b', bound, inl (ground arith))
              | inr open_end ↦
                  let short' : length result' < limit = ground arith in
                  rw (gather, w, open_end)
                    (Gathered-more m c cs rests result _ short found short' (
                      gather-Gathered n i call m cs result' (call (minus m c.mask) memo).1 right
                        fits later short' k' b'))
            ]
      ]
