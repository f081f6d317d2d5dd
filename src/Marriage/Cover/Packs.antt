-- ===== src/Marriage/Cover/Packs.antt =====
-- Choices of disjoint items, and what a best one is.
use mathlib.Core.Path.{subst}
use mathlib.Core.List.{Perm}
use mathlib.Core.List.Perm
use bhidne_ho.Prelude.{
  ℕ, ◌+◌, ◌≤◌, true, List, [], ◌∷◌, ◌≡◌, refl, sym, arith, inl, inr, ◌⊎◌, Bool-cases,
}
use bhidne_ho.Marriage.{MarriageMeld}
use bhidne_ho.Marriage.Masks.{Mask, size, within, minus, has_bit, clear}
use bhidne_ho.Marriage.Masks.Laws
use bhidne_ho.Marriage.Cover.{Item, Plan}

-- The number of cards of the items.
abbrev pub weight : List Item → ℕ
weight [] = 0
weight (x ∷ xs) = size x.mask + weight xs

abbrev pub groups_of : List Item → List MarriageMeld
groups_of [] = []
groups_of (x ∷ xs) = x.group ∷ groups_of xs

module _ (P : Item → Type 0) where
  -- Disjoint items within a mask, all with the property P.
  abbrev pub Packs : Mask → List Item → Type 0
  Packs m [] = Unit
  Packs m (x ∷ xs) = P x × (within x.mask m ≡ true) × Packs (minus m x.mask) xs

  -- The plan is that of such items.
  abbrev pub Covers : Mask → Plan → Type 0
  Covers m p = (xs : List Item) × Packs m xs × (p.groups ≡ groups_of xs) × (p.covered ≡ weight xs)

  -- No such items have more cards than the plan.
  abbrev pub Dominates : Mask → Plan → Type 0
  Dominates m p = (xs : List Item) → Packs m xs → weight xs ≤ p.covered

  abbrev pub IsBest : Mask → Plan → Type 0
  IsBest m p = Covers m p × Dominates m p

  pub weight-le-size : (m : Mask) (xs : List Item) → Packs m xs → weight xs ≤ size m
  weight-le-size m [] h = omega arith
  weight-le-size m (x ∷ xs) (a, w, h) =
      omega (arith, Laws.size-minus m x.mask w, weight-le-size (minus m x.mask) xs h)

  pub Packs-of_clear : (i : ℕ) (m : Mask) (xs : List Item) → Packs (clear i m) xs → Packs m xs
  Packs-of_clear i m [] h = tt
  Packs-of_clear i m (x ∷ xs) (a, w, h) = (
    a,
    Laws.within_of_clear i x.mask m w,
    Packs-of_clear i (minus m x.mask) xs (subst (λ n. Packs n xs) (Laws.minus-clear i m x.mask) h),
  )

  -- The item of a bit, and the others, which avoid it.
  abbrev pub Taken : ℕ → Mask → List Item → Type 0
  Taken i m xs =
      (x : Item) × (rest : List Item) × P x
      × (has_bit i x.mask ≡ true)
      × (within x.mask m ≡ true)
      × Packs (minus m x.mask) rest
      × (weight xs ≡ size x.mask + weight rest)
      × Perm xs (x ∷ rest)

  pub bit_cases :
      (i : ℕ) (m : Mask) (xs : List Item) → Packs m xs → Packs (clear i m) xs ⊎ Taken i m xs
  bit_cases i m [] h = inl tt
  bit_cases i m (x ∷ xs) (a, w, h) = elim (Bool-cases (has_bit i x.mask)) [
    | inl e ↦ inr (x, xs, a, e, w, h, refl, Perm.refl _)
    | inr e ↦ elim (bit_cases i (minus m x.mask) xs h) [
      | inl avoids ↦ inl (
        a,
        Laws.within-clear i x.mask m w e,
        subst (λ n. Packs n xs) (sym (Laws.minus-clear i m x.mask)) avoids,
      )
      | inr (y, rest, b, f, v, k, q, order) ↦ inr (
        y,
        x ∷ rest,
        b,
        f,
        Laws.within_of_minus m y.mask x.mask v,
        (
          a,
          Laws.within-minus m y.mask x.mask w v,
          subst (λ n. Packs n rest) (Laws.minus_comm m x.mask y.mask) k,
        ),
        omega arith,
        Perm.trans (Perm.cons x order) (Perm.swap y x rest),
      )
    ]
  ]
