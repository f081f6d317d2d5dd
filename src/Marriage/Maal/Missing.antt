-- ===== src/Marriage/Maal/Missing.antt =====
-- How many cards are missing for given numbers of each face, counted at once and face by face.
use mathlib.Core.Path.{fun_ext, subst}
use bhidne_ho.Prelude.{
  ℕ, zero, suc, ◌+◌, ◌-◌, ◌≤◌, ◌<◌, Bool, true, List, [], ◌∷◌, ◌≡◌, ◌↔◌, refl, sym, ap, arith, ltb,
  ◌==◌, ==_iff, All, Bool-cases, inl, inr, if◌then◌else◌,
}
use bhidne_ho.Marriage.Maal.{Pattern, bump, times, Step, require_one, require, first_step}

abbrev pub sum_below : ℕ → (ℕ → ℕ) → ℕ
sum_below zero g = 0
sum_below (suc n) g = sum_below n g + g n

-- The cards of the 52 faces that the hand lacks.
unfoldable pub lacks : (ℕ → ℕ) → (ℕ → ℕ) → ℕ
lacks have required = sum_below 52 (λ i. required i - have i)

abbrev pub Fits : (ℕ → ℕ) → Type 0
Fits required = (i : ℕ) → required i ≤ 3

-- The numbers required with a pattern more.
abbrev pub add_pattern : (ℕ → ℕ) → Pattern → ℕ → ℕ
add_pattern required p i = required i + times i p.faces

sum_below-le : (n : ℕ) (g h : ℕ → ℕ) → ((i : ℕ) → g i ≤ h i) → sum_below n g ≤ sum_below n h
sum_below-le zero g h k = omega arith
sum_below-le (suc n) g h k = omega (arith, sum_below-le n g h k, k n)

pub lacks-le : (have r s : ℕ → ℕ) → ((i : ℕ) → r i ≤ s i) → lacks have r ≤ lacks have s
unfolding lacks
lacks-le have r s h =
    sum_below-le 52 (λ i. r i - have i) (λ i. s i - have i) (λ i. let k = h i in omega arith)

pub lacks-same :
    (have have' r r' : ℕ → ℕ)
    → ((i : ℕ) → r i - have i ≡ r' i - have' i)
    → lacks have r ≡ lacks have' r'
unfolding lacks
lacks-same have have' r r' h = ap (sum_below 52) (fun_ext h)

-- No more is lacking than is required.
pub lacks-le_sum : (have r : ℕ → ℕ) → lacks have r ≤ sum_below 52 r
unfolding lacks
lacks-le_sum have r = sum_below-le 52 (λ i. r i - have i) r (λ i. omega arith)

abbrev pub one_if : Bool → ℕ
one_if b = if b then 1 else 0

sum_below-bump_above :
    (have r : ℕ → ℕ) (f n : ℕ)
    → n ≤ f
    → sum_below n (λ i. bump f r i - have i) ≡ sum_below n (λ i. r i - have i)
sum_below-bump_above have r f zero h = refl
sum_below-bump_above have r f (suc n) h =
    ground (arith, sum_below-bump_above have r f n (omega arith))

sum_below-bump :
    (have r : ℕ → ℕ) (f n : ℕ)
    → f < n
    → sum_below n (λ i. bump f r i - have i)
      ≡ sum_below n (λ i. r i - have i) + one_if (ltb (have f) (r f + 1))
sum_below-bump have r f zero h = absurd (omega arith)
sum_below-bump have r f (suc n) h = elim (Bool-cases (n == f)) [
  | inl e ↦
      let same : f ≡ n = sym ((==_iff n f).0 e) in
      subst
        (λ k.
          sum_below (suc n) (λ i. bump k r i - have i)
          ≡ sum_below (suc n) (λ i. r i - have i) + one_if (ltb (have k) (r k + 1)))
        (sym same) (ground (arith, sum_below-bump_above have r n n (omega arith)))
  | inr e ↦ ground (arith, sum_below-bump have r f n (ground arith))
]

pub lacks-bump :
    (have r : ℕ → ℕ) (f : ℕ)
    → f < 52
    → lacks have (bump f r) ≡ lacks have r + one_if (ltb (have f) (r f + 1))
unfolding lacks
lacks-bump have r f h = sum_below-bump have r f 52 h

-- The counts after the loop over the faces.
require-required :
    (have : ℕ → ℕ) (fs : List ℕ) (s : Step) (i : ℕ)
    → (require have fs s).required i ≡ s.required i + times i fs
unfolding require
require-required have [] s i = omega arith
require-required have (f ∷ fs) s i =
    ground (arith, require-required have fs (require_one have f s) i)

require-extra :
    (have : ℕ → ℕ) (fs : List ℕ) (s : Step)
    → All (λ f. f < 52) fs
    → (require have fs s).extra + lacks have s.required
      ≡ s.extra + lacks have (require have fs s).required
unfolding require
require-extra have [] s h = refl
require-extra have (f ∷ fs) s (l, h) =
    omega (arith, require-extra have fs (require_one have f s) h, lacks-bump have s.required f l)

require-valid :
    (have : ℕ → ℕ) (fs : List ℕ) (s : Step)
    → (s.valid ≡ true → Fits s.required)
    → ((require have fs s).valid ≡ true) ↔ ((s.valid ≡ true) × Fits (require have fs s).required)
unfolding require
require-valid have [] s fit = ((λ v. (v, fit v)), λ (v, f). v)
require-valid have (f ∷ fs) s fit =
    let next = require_one have f s in
    let fit' : next.valid ≡ true → Fits next.required =
      λ v i. ground (arith, fit (ground arith) i) in
    let (there, back) = require-valid have fs next fit' in
    (
      (λ v. let (w, all_fit) = there v in (ground arith, all_fit)),
      λ (v, all_fit).
          let bound = all_fit f in
          let last = require-required have fs next f in
          let more : (s.required f + 1) ≤ (require have fs next).required f =
            ground (arith, last) in
          back (ground arith, all_fit),
    )

-- The loop over a pattern's faces adds its faces to those required, and counts what it lacks more; it
-- is valid exactly when no face is then required more than three times.
pub require_lem :
    (have required : ℕ → ℕ) (p : Pattern)
    → All (λ f. f < 52) p.faces
    → Fits required
    → let s = require have p.faces (first_step required) in
      (s.required ≡ add_pattern required p)
      × (s.extra + lacks have required ≡ lacks have s.required)
      × ((s.valid ≡ true) ↔ Fits s.required)
require_lem have required p inside fit =
    let first = first_step required in
    let (there, back) = require-valid have p.faces first (λ v. fit) in
    (
      fun_ext (require-required have p.faces first),
      omega (arith, require-extra have p.faces first inside),
      ((λ v. (there v).1), λ f. back (refl, f)),
    )
