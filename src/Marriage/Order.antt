-- ===== src/Marriage/Order.antt =====
-- Sorting, as `Array.prototype.sort` does it: stable, by a comparison.
use bhidne_ho.Prelude.{
  ℕ, ◌≤◌, Bool, List, [], ◌∷◌, leb, All, if◌then◌else◌, Bool-cases, inl, inr, arith, leb→le, length,
  ◌≡◌, suc, refl,
}
use mathlib.Core.List.{Perm}
use mathlib.Core.List.Perm

module _ {ℓ} {A : Type ℓ} where
  -- `le a b` says that `a` may stand before `b`; equal elements keep their order.
  unfoldable pub insert : (A → A → Bool) → A → List A → List A
  insert le a [] = a ∷ []
  insert le a (x ∷ xs) = let rest = insert le a xs in if le a x then a ∷ x ∷ xs else x ∷ rest

  unfoldable pub sort_by : (A → A → Bool) → List A → List A
  unfolding insert
  sort_by le [] = []
  sort_by le (x ∷ xs) = insert le x (sort_by le xs)

  insert-perm : (le : A → A → Bool) (a : A) (xs : List A) → Perm (insert le a xs) (a ∷ xs)
  unfolding insert
  insert-perm le a [] = Perm.refl _
  insert-perm le a (x ∷ xs) = elim (Bool-cases (le a x)) [
    | inl h ↦ rw (insert, h) (Perm.refl _)
    | inr h ↦ rw (insert, h) (Perm.trans (Perm.cons x (insert-perm le a xs)) (Perm.swap a x xs))
  ]

  pub sort_by-perm : (le : A → A → Bool) (xs : List A) → Perm (sort_by le xs) xs
  unfolding sort_by
  sort_by-perm le [] = Perm.refl _
  sort_by-perm le (x ∷ xs) =
      Perm.trans (insert-perm le x (sort_by le xs)) (Perm.cons x (sort_by-perm le xs))

abbrev pub sort_numbers : List ℕ → List ℕ
sort_numbers = sort_by leb

-- Each element is at most all that follow.
abbrev pub Ascending : List ℕ → Type 0
Ascending [] = Unit
Ascending (x ∷ xs) = All (λ y. x ≤ y) xs × Ascending xs

All-le : (a b : ℕ) (xs : List ℕ) → a ≤ b → All (λ y. b ≤ y) xs → All (λ y. a ≤ y) xs
All-le a b [] h k = tt
All-le a b (x ∷ xs) h (q, k) = (omega arith, All-le a b xs h k)

All-zero : (xs : List ℕ) → All (λ y. 0 ≤ y) xs
All-zero [] = tt
All-zero (x ∷ xs) = (omega arith, All-zero xs)

insert-Ascending :
    (a : ℕ) (xs : List ℕ) (b : ℕ)
    → Ascending xs
    → All (λ y. b ≤ y) xs
    → b ≤ a
    → Ascending (insert leb a xs) × All (λ y. b ≤ y) (insert leb a xs)
unfolding insert
insert-Ascending a [] b h k l = ground arith
insert-Ascending a (x ∷ xs) b (p, h) (q, k) l = elim (Bool-cases (leb a x)) [
  | inl e ↦ rw (insert, e) (((leb→le a x e, All-le a x xs (leb→le a x e) p), (p, h)), (l, (q, k)))
  | inr e ↦
      let (up, above) = insert-Ascending a xs x h p (ground arith) in
      rw (insert, e) ((above, up), (q, All-le b x (insert leb a xs) q above))
]

pub sort_numbers-Ascending : (xs : List ℕ) → Ascending (sort_numbers xs)
unfolding sort_by
sort_numbers-Ascending [] = tt
sort_numbers-Ascending (x ∷ xs) =
    (insert-Ascending x (sort_numbers xs) 0 (sort_numbers-Ascending xs) (All-zero (sort_numbers xs))
      (omega arith)).0

module _ {ℓ} {A : Type ℓ} where
  length-insert :
      (le : A → A → Bool) (a : A) (xs : List A) → length (insert le a xs) ≡ suc (length xs)
  unfolding insert
  length-insert le a [] = refl
  length-insert le a (x ∷ xs) = ground (arith, length-insert le a xs)

  pub length-sort_by : (le : A → A → Bool) (xs : List A) → length (sort_by le xs) ≡ length xs
  unfolding sort_by
  length-sort_by le [] = refl
  length-sort_by le (x ∷ xs) =
      omega (arith, length-insert le x (sort_by le xs), length-sort_by le xs)

module _ {ℓ κ} {A : Type ℓ} (P : A → Type κ) where
  All-insert : (le : A → A → Bool) (a : A) (xs : List A) → All P (insert le a xs) → P a × All P xs
  unfolding insert
  All-insert le a [] h = h
  All-insert le a (x ∷ xs) h = elim (Bool-cases (le a x)) [
    | inl e ↦ rw (insert, e) at h
    | inr e ↦ let (p, q) = rw (insert, e) at h in let (r, t) = All-insert le a xs q in (r, (p, t))
  ]

  -- What holds of every element of the sorted list holds of every element of the list.
  pub All-sort_by : (le : A → A → Bool) (xs : List A) → All P (sort_by le xs) → All P xs
  unfolding sort_by
  All-sort_by le [] h = tt
  All-sort_by le (x ∷ xs) h =
      let (p, q) = All-insert le x (sort_by le xs) h in (p, All-sort_by le xs q)

  pub insert-All :
      (le : A → A → Bool) (a : A) (xs : List A) → P a → All P xs → All P (insert le a xs)
  unfolding insert
  insert-All le a [] p h = (p, tt)
  insert-All le a (x ∷ xs) p (q, h) = elim (Bool-cases (le a x)) [
    | inl e ↦ rw (insert, e) (p, (q, h))
    | inr e ↦ rw (insert, e) (q, insert-All le a xs p h)
  ]

  pub sort_by-All : (le : A → A → Bool) (xs : List A) → All P xs → All P (sort_by le xs)
  unfolding sort_by
  sort_by-All le [] h = tt
  sort_by-All le (x ∷ xs) (p, h) = insert-All le x (sort_by le xs) p (sort_by-All le xs h)
