-- ===== src/Json.antt =====
-- The values that `JSON.parse` gives, as the client reads them: `value?.name`, `typeof`, and the
-- tests of numbers.
pub mod Shapes
use bhidne_ho.Prelude.{
  ℕ, Bool, true, false, Option, none, some, String, str_eq, if◌then◌else◌, leb, ltb, ◌≡◌, ◌↔◌,
  arith, eq_iff,
}

-- A number, as far as the code looks: an integer, or a fraction between two neighbours.
-- `negative n` is -(n + 1), `between n` lies between n and n + 1, `below` is a negative fraction.
pub data Num : Type 0 where
  nat between negative : ℕ → Num
  below : Num

mutual
  pub data Json : Type 0 where
    null : Json
    bool : Bool → Json
    number : Num → Json
    text : String → Json
    array : Items → Json
    object : Fields → Json

  pub data Items : Type 0 where
    nil : Items
    cons : Json → Items → Items

  pub data Fields : Type 0 where
    end : Fields
    field : String → Json → Fields → Fields

unfoldable pub find_field : String → Fields → Option Json
find_field k end = none
find_field k (field j v fs) = let rest = find_field k fs in if str_eq j k then some v else rest

-- `value?.name`; `none` is `undefined`.
abbrev pub get : String → Option Json → Option Json
get k (some (object fs)) = find_field k fs
get k _ = none

-- The text in a value, if `typeof value === 'string'`.
abbrev pub as_text : Option Json → Option String
as_text (some (text s)) = some s
as_text _ = none

-- `Number.isInteger(value)`
abbrev pub is_integer : Option Json → Bool
is_integer (some (number (nat n))) = true
is_integer (some (number (negative n))) = true
is_integer _ = false

-- `value > limit` for a number
abbrev pub num_gt : ℕ → Num → Bool
num_gt limit (nat n) = ltb limit n
num_gt limit (between n) = leb limit n
num_gt limit _ = false

-- `Number.isFinite(value) && value > limit`
abbrev pub exceeds : ℕ → Option Json → Bool
exceeds limit (some (number n)) = num_gt limit n
exceeds limit _ = false

-- `Number.isInteger(value) && value > 0`
abbrev pub positive_integer : Option Json → Bool
positive_integer (some (number (nat n))) = ltb 0 n
positive_integer _ = false

-- `value && typeof value === 'object'`; an array is an object too.
abbrev pub is_object : Option Json → Bool
is_object (some (object fs)) = true
is_object (some (array xs)) = true
is_object _ = false

-- `value === s` for a text `s`.
abbrev pub text_is : String → Option Json → Bool
text_is s (some (text t)) = str_eq t s
text_is s _ = false

-- `value === null`
abbrev pub is_null : Option Json → Bool
is_null (some null) = true
is_null _ = false

-- `typeof value === 'string'`
abbrev pub is_text : Option Json → Bool
is_text (some (text t)) = true
is_text _ = false

pub text_is_iff : (s : String) (o : Option Json) → (text_is s o ≡ true) ↔ (o ≡ some (text s))
text_is_iff s none = ground arith
text_is_iff s (some null) = ground arith
text_is_iff s (some (bool b)) = ground arith
text_is_iff s (some (number n)) = ground arith
text_is_iff s (some (array xs)) = ground arith
text_is_iff s (some (object fs)) = ground arith
text_is_iff s (some (text t)) = ground (arith, eq_iff t s)
