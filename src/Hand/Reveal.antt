-- ===== src/Hand/Reveal.antt =====
-- client/src/multiplayer/useMarriageReveal.ts: how many cards of a Marriage hand are turned up. The
-- storage may throw; `to_number` is `Number` of a text, none for what is no number.
use bhidne_ho.Prelude.{
  ℕ, ◌+◌, ◌≤◌, min, Bool, true, false, Option, none, some, String, ◌≡◌, arith, str_eq, is_empty,
  leb, or_else, if◌then◌else◌, eq_refl,
}
use bhidne_ho.Json.{Num, nat}

-- `globalThis.sessionStorage?.getItem(key)`: it throws, or gives a text or nothing.
pub data Stored : Type 0 where
  throws : Stored
  item : Option String → Stored

abbrev valid_progress : Option Num → ℕ
valid_progress (some (nat n)) = if leb n 21 then n else 0
valid_progress _ = 0

-- `item || progress.get(key) || 0`, as a number; `remembered` is `progress.get(key)`.
abbrev saved_number : (String → Option Num) → Option ℕ → Option String → Option Num
saved_number to_number remembered none = some (nat (or_else remembered 0))
saved_number to_number remembered (some s) =
    if is_empty s then some (nat (or_else remembered 0)) else to_number s

unfoldable pub read_progress : (String → Option Num) → Option ℕ → Stored → ℕ
read_progress to_number remembered throws = or_else remembered 0
read_progress to_number remembered (item s) = valid_progress (saved_number to_number remembered s)

pub record Reveal : Type 0 where
  pub key : String
  pub count : ℕ

abbrev shown_count : String → ℕ → Reveal → ℕ
shown_count key restored s = if str_eq s.key key then s.count else restored

unfoldable pub revealed : Bool → String → ℕ → Reveal → ℕ
revealed play_started key restored s = if play_started then 21 else shown_count key restored s

unfoldable pub reveal : Bool → String → ℕ → Reveal → Reveal
reveal everything key restored s = record {
  key = key;
  count = if everything then 21 else min 21 (shown_count key restored s + 1);
}

-- What is read from the storage is at most 21 cards, if what the session remembers is; a reveal under
-- any key then shows at most 21 cards, and one card more than before, or all 21.
pub reveal_bounds :
    (to_number : String → Option Num) (remembered : Option ℕ) (stored : Stored) (everything : Bool)
    (key : String) (s : Reveal)
    → or_else remembered 0 ≤ 21
    → s.count ≤ 21
    → let restored = read_progress to_number remembered stored in
      let before = revealed false key restored s in
      let after = revealed false key restored (reveal everything key restored s) in
      (restored ≤ 21)
      × (before ≤ after)
      × (after ≤ 21)
      × (everything ≡ true → after ≡ 21)
      × (everything ≡ false → after ≡ min 21 (before + 1))
unfolding read_progress revealed reveal
reveal_bounds to_number remembered stored everything key s r h = ground (arith, eq_refl key)
