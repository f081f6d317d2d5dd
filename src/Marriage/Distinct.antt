-- ===== src/Marriage/Distinct.antt =====
-- `new Set(xs).size` and what comparing it with a number says.
use mathlib.Core.Path.{subst}
use bhidne_ho.Prelude.{
  ℕ, ◌+◌, ◌≤◌, Bool, true, false, List, [], ◌∷◌, ◌≡◌, ◌≢◌, ◌↔◌, inl, inr, refl, sym, arith, length,
  All, any, if◌then◌else◌, Bool-cases,
}

module _ {ℓ} {A : Type ℓ} where
  unfoldable pub set_size : (A → A → Bool) → List A → ℕ
  set_size eq [] = 0
  set_size eq (x ∷ xs) = let rest = set_size eq xs in if any (eq x) xs then rest else rest + 1

  pub set_size-le-length : (eq : A → A → Bool) (xs : List A) → set_size eq xs ≤ length xs
  unfolding set_size
  set_size-le-length eq [] = omega arith
  set_size-le-length eq (x ∷ xs) = ground (arith, set_size-le-length eq xs)

  pub set_size_pos : (eq : A → A → Bool) (x : A) (xs : List A) → 1 ≤ set_size eq (x ∷ xs)
  unfolding set_size
  set_size_pos eq x [] = omega arith
  set_size_pos eq x (y ∷ ys) = ground (arith, set_size_pos eq y ys)

-- No two elements of a list are equal.
abbrev pub Distinct {ℓ} : {A : Type ℓ} → List A → Type ℓ
Distinct [] = Unit
Distinct (x ∷ xs) = All (λ y. x ≢ y) xs × Distinct xs

module _ {A : Type 0} (eq : A → A → Bool) (eq_ok : (a b : A) → (eq a b ≡ true) ↔ (a ≡ b)) where
  any-none : (x : A) (ys : List A) → any (eq x) ys ≡ false → All (λ y. x ≢ y) ys
  any-none x [] h = tt
  any-none x (y ∷ ys) h = (λ e. ground (arith, eq_ok x y), any-none x ys (ground arith))

  any-same : (x z : A) (ys : List A) → any (eq x) ys ≡ true → All (λ y. z ≡ y) ys → z ≡ x
  any-same x z [] h k = cc
  any-same x z (y ∷ ys) h (e, k) = elim (Bool-cases (eq x y)) [
    | inl b ↦ cc ((eq_ok x y).0 b)
    | inr b ↦ any-same x z ys (ground arith) k
  ]

  -- A set as large as the list: the elements are distinct.
  pub Distinct-set_size : (xs : List A) → set_size eq xs ≡ length xs → Distinct xs
  unfolding set_size
  Distinct-set_size [] h = tt
  Distinct-set_size (x ∷ xs) h = elim (Bool-cases (any (eq x) xs)) [
    | inl b ↦ absurd (ground (arith, set_size-le-length eq xs))
    | inr b ↦ (any-none x xs b, Distinct-set_size xs (ground arith))
  ]

  -- A set of at most one element: all elements are equal.
  pub All-set_size : (x : A) (xs : List A) → set_size eq (x ∷ xs) ≤ 1 → All (λ y. x ≡ y) xs
  unfolding set_size
  All-set_size x [] h = tt
  All-set_size x (y ∷ ys) h = elim (Bool-cases (any (eq x) (y ∷ ys))) [
    | inl b ↦
        let tail = All-set_size y ys (ground arith) in
        let e = any-same x y (y ∷ ys) b (refl, tail) in
        (sym e, subst (λ z. All (λ w. z ≡ w) ys) e tail)
    | inr b ↦ absurd (ground (arith, set_size_pos eq y ys))
  ]
