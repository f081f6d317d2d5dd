-- ===== src/Json/Shapes.antt =====
-- What the Boolean tests of JSON values say of the values.
use mathlib.Core.Path.{subst}
use bhidne_ho.Prelude.{
  ℕ, ◌≤◌, ◌<◌, Bool, true, false, ◌&&◌, Option, none, some, String, ◌≡◌, ◌↔◌, sym, arith, refl,
  if◌then◌else◌,
}
use bhidne_ho.Json.{
  Num, nat, between, negative, below, Json, null, bool, number, text, array, object, is_integer,
  num_gt, exceeds, positive_integer, is_null, is_text,
}

-- The value is a text, a whole number, a positive whole number, a number after another.
abbrev pub IsText : Option Json → Type 0
IsText o = (s : String) × (o ≡ some (text s))

abbrev pub Whole : Num → Type 0
Whole (nat n) = Unit
Whole (negative n) = Unit
Whole _ = ⊥

abbrev pub Positive : Num → Type 0
Positive (nat n) = 0 < n
Positive _ = ⊥

abbrev pub After : ℕ → Num → Type 0
After limit (nat n) = limit < n
After limit (between n) = limit ≤ n
After limit _ = ⊥

abbrev pub IsNumber : (Num → Type 0) → Option Json → Type 0
IsNumber P o = (n : Num) × (o ≡ some (number n)) × P n

pub is_text_iff : (o : Option Json) → (is_text o ≡ true) ↔ IsText o
is_text_iff none = ((λ h. cc), λ (s, e). cc)
is_text_iff (some null) = ((λ h. cc), λ (s, e). cc)
is_text_iff (some (bool b)) = ((λ h. cc), λ (s, e). cc)
is_text_iff (some (number n)) = ((λ h. cc), λ (s, e). cc)
is_text_iff (some (array xs)) = ((λ h. cc), λ (s, e). cc)
is_text_iff (some (object fs)) = ((λ h. cc), λ (s, e). cc)
is_text_iff (some (text t)) = ((λ h. (t, refl)), λ e. refl)

pub is_null_iff : (o : Option Json) → (is_null o ≡ true) ↔ (o ≡ some null)
is_null_iff none = ((λ h. cc), λ e. cc)
is_null_iff (some null) = ((λ h. refl), λ e. refl)
is_null_iff (some (bool b)) = ((λ h. cc), λ e. cc)
is_null_iff (some (number n)) = ((λ h. cc), λ e. cc)
is_null_iff (some (array xs)) = ((λ h. cc), λ e. cc)
is_null_iff (some (object fs)) = ((λ h. cc), λ e. cc)
is_null_iff (some (text t)) = ((λ h. cc), λ e. cc)

-- A test that holds of numbers only.
pub number_iff :
    (test : Option Json → Bool) (P : Num → Type 0)
    → ((n : Num) → (test (some (number n)) ≡ true) ↔ P n)
    → ((o : Option Json) → test o ≡ true → (n : Num) × (o ≡ some (number n)))
    → (o : Option Json) → (test o ≡ true) ↔ IsNumber P o
number_iff test P same only o = (
  (λ h. let (n, e) = only o h in (n, e, (same n).0 (subst (λ z. test z ≡ true) e h))),
  λ (n, e, p). subst (λ z. test z ≡ true) (sym e) ((same n).1 p),
)

exceeds_number :
    (limit : ℕ) (o : Option Json) → exceeds limit o ≡ true → (n : Num) × (o ≡ some (number n))
exceeds_number limit (some (number n)) h = (n, refl)
exceeds_number limit none h = cc
exceeds_number limit (some null) h = cc
exceeds_number limit (some (bool b)) h = cc
exceeds_number limit (some (array xs)) h = cc
exceeds_number limit (some (object fs)) h = cc
exceeds_number limit (some (text t)) h = cc

num_gt_iff : (limit : ℕ) (n : Num) → (num_gt limit n ≡ true) ↔ After limit n
num_gt_iff limit (nat n) = ground arith
num_gt_iff limit (between n) = ground arith
num_gt_iff limit (negative n) = ground arith
num_gt_iff limit below = ground arith

pub exceeds_iff :
    (limit : ℕ) (o : Option Json) → (exceeds limit o ≡ true) ↔ IsNumber (After limit) o
exceeds_iff limit =
    number_iff (exceeds limit) (After limit) (num_gt_iff limit) (exceeds_number limit)

positive_number : (o : Option Json) → positive_integer o ≡ true → (n : Num) × (o ≡ some (number n))
positive_number (some (number n)) h = (n, refl)
positive_number none h = cc
positive_number (some null) h = cc
positive_number (some (bool b)) h = cc
positive_number (some (array xs)) h = cc
positive_number (some (object fs)) h = cc
positive_number (some (text t)) h = cc

Positive-iff : (n : Num) → (positive_integer (some (number n)) ≡ true) ↔ Positive n
Positive-iff (nat n) = ground arith
Positive-iff (between n) = ground arith
Positive-iff (negative n) = ground arith
Positive-iff below = ground arith

pub positive_integer_iff : (o : Option Json) → (positive_integer o ≡ true) ↔ IsNumber Positive o
positive_integer_iff = number_iff positive_integer Positive Positive-iff positive_number

whole_number : (o : Option Json) → is_integer o ≡ true → (n : Num) × (o ≡ some (number n))
whole_number (some (number n)) h = (n, refl)
whole_number none h = cc
whole_number (some null) h = cc
whole_number (some (bool b)) h = cc
whole_number (some (array xs)) h = cc
whole_number (some (object fs)) h = cc
whole_number (some (text t)) h = cc

Whole-iff : (n : Num) → (is_integer (some (number n)) ≡ true) ↔ Whole n
Whole-iff (nat n) = ground arith
Whole-iff (between n) = ground arith
Whole-iff (negative n) = ground arith
Whole-iff below = ground arith

pub is_integer_iff : (o : Option Json) → (is_integer o ≡ true) ↔ IsNumber Whole o
is_integer_iff = number_iff is_integer Whole Whole-iff whole_number

-- Both of two tests.
infixl 5 ◌&&↔◌
pub ◌&&↔◌ :
    {A B : Type 0} {a b : Bool} → (a ≡ true) ↔ A → (b ≡ true) ↔ B → ((a && b) ≡ true) ↔ (A × B)
(f, f') &&↔ (g, g') = (
  (λ h. (f (ground arith), g (ground arith))),
  λ (x, y). let p = f' x in let q = g' y in ground arith,
)

-- A value kept exactly if a test holds of it.
pub kept_iff :
    {A : Type 0} (b : Bool) (v w : Json)
    → (b ≡ true) ↔ A
    → ((if b then some v else none) ≡ some w) ↔ ((w ≡ v) × A)
kept_iff true v w (f, g) = ((λ h. (cc, f refl)), λ (e, a). cc)
kept_iff false v w (f, g) = ((λ h. cc), λ (e, a). let k = g a in cc)
