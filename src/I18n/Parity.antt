-- ===== src/I18n/Parity.antt =====
-- client/src/i18n/locales: both languages have the same keys and the same placeholders.
use Prim.Native.Char.{Char, code}
use bhidne_ho.Prelude.{
  Bool, true, false, ◌&&◌, Option, none, some, List, [], ◌∷◌, String, ◌≡◌, refl, arith, str_eq,
  eq_iff, any, all, ◌==◌, if◌then◌else◌, Bool-cases, inl, inr,
}
use bhidne_ho.I18n.{english, nepali, Texts, lookup, ui_catalogs}
use bhidne_ho.I18n.Groups.{
  Group, common, rooms, callbreak, flush, marriage, ledger, social, feedback,
}

-- Where a scan of a text stands: outside a placeholder, after one brace, or inside with the part of the
-- name that was read, reversed.
pub data Mode : Type 0 where
  outside brace : Mode
  inside : String → Mode

abbrev is_open : Char → Bool
is_open c = code c == 123

abbrev is_close : Char → Bool
is_close c = code c == 125

-- The names between `{{` and `}`, each reversed.
unfoldable pub scan : Mode → String → List String
scan m String.[] = []
scan outside (String.◌∷◌ c s) = scan (if is_open c then brace else outside) s
scan brace (String.◌∷◌ c s) = scan (if is_open c then inside "" else outside) s
scan (inside name) (String.◌∷◌ c s) = elim (is_close c) [
  | true ↦ name ∷ scan outside s
  | false ↦ scan (inside (String.◌∷◌ c name)) s
]

abbrev contains : List String → List String → Bool
contains ps qs = all (λ q. any (str_eq q) ps) qs

-- The two texts have the same placeholders.
unfoldable pub same_placeholders : String → String → Bool
unfolding scan
same_placeholders v w =
    contains (scan outside v) (scan outside w) && contains (scan outside w) (scan outside v)

unfoldable in_sync : Texts → Texts → Bool
unfolding same_placeholders
in_sync [] [] = true
in_sync [] (e ∷ m) = false
in_sync (e ∷ m) [] = false
in_sync ((j, v) ∷ m) ((k, w) ∷ n) = str_eq j k && (same_placeholders v w && in_sync m n)

-- Neither catalog has the text, or both have, with the same placeholders.
abbrev pub Matches : Option String → Option String → Type 0
Matches none none = Unit
Matches (some v) (some w) = same_placeholders v w ≡ true
Matches (some v) none = ⊥
Matches none (some w) = ⊥

lookup-Matches : (k : String) (m n : Texts) → in_sync m n ≡ true → Matches (lookup k m) (lookup k n)
unfolding in_sync lookup
lookup-Matches k [] [] h = tt
lookup-Matches k [] (e ∷ n) h = absurd (ground arith)
lookup-Matches k (e ∷ m) [] h = absurd (ground arith)
lookup-Matches k ((i, v) ∷ m) ((j, w) ∷ n) h =
    let same : i ≡ j = (eq_iff i j).0 (ground arith) in
    elim (Bool-cases (str_eq j k)) [
      | inl e ↦ rw (lookup, same, e) (ground arith)
      | inr e ↦ rw (lookup, same, e) (lookup-Matches k m n (ground arith))
    ]

groups_in_sync : (g : Group) → in_sync (ui_catalogs english g) (ui_catalogs nepali g) ≡ true
unfolding in_sync ui_catalogs
groups_in_sync common = refl
groups_in_sync rooms = refl
groups_in_sync callbreak = refl
groups_in_sync flush = refl
groups_in_sync marriage = refl
groups_in_sync ledger = refl
groups_in_sync social = refl
groups_in_sync feedback = refl

-- A key of a group has a text in both languages or in neither, and the two texts have the same
-- placeholders.
pub catalogs_in_sync :
    (g : Group) (k : String)
    → Matches (lookup k (ui_catalogs english g)) (lookup k (ui_catalogs nepali g))
catalogs_in_sync g k = lookup-Matches k _ _ (groups_in_sync g)
