-- ===== src/I18n/Labels.antt =====
-- client/src/i18n/copy.ts: the Map of labels and uiLabel. The Map is a list with the latest entry first.
-- `lower` is toLowerCase and `ui` gives a key's text in the language chosen, as i18next does.
use Prim.Native.String
use Prim.Native.Char.{code}
use bhidne_ho.Prelude.{
  Bool, false, ◌&&◌, ◌||◌, Option, none, some, List, [], ◌∷◌, String, str_eq, is_some, ◌==◌,
  if◌then◌else◌,
}
use bhidne_ho.I18n.{english, nepali, Texts, lookup, ui_catalogs}
use bhidne_ho.I18n.Groups.{
  Group, common, rooms, callbreak, flush, marriage, ledger, social, feedback,
}

pub record UiKey : Type 0 where
  pub group : Group
  pub key : String

abbrev pub group_name : Group → String
group_name common = "common"
group_name rooms = "rooms"
group_name callbreak = "callbreak"
group_name flush = "flush"
group_name marriage = "marriage"
group_name ledger = "ledger"
group_name social = "social"
group_name feedback = "feedback"

-- `${group}:${value}`
abbrev pub in_group : Group → String → String
in_group g value = String.◌++◌ (group_name g) (String.◌++◌ ":" value)

abbrev pub Labels : Type 0
Labels = List (String × UiKey)

unfoldable pub get_label : String → Labels → Option UiKey
get_label x [] = none
get_label x ((y, k) ∷ m) = let rest = get_label x m in if str_eq y x then some k else rest

-- `if (!labels.has(x)) labels.set(x, key)`
unfoldable pub set_new : String → UiKey → Labels → Labels
unfolding get_label
set_new x k m = if is_some (get_label x m) then m else (x, k) ∷ m

-- `value.includes('{{')`; the argument says whether the last character was an open brace.
unfoldable pub has_braces : Bool → String → Bool
has_braces after String.[] = false
has_braces after (String.◌∷◌ c s) =
    let brace = code c == 123 in (after && brace) || has_braces brace s

abbrev pub add_translated : Group → UiKey → Option String → Labels → Labels
add_translated g k none m = m
add_translated g k (some w) m = set_new w k ((in_group g w, k) ∷ m)

abbrev pub all_groups : List Group
all_groups = common ∷ rooms ∷ callbreak ∷ flush ∷ marriage ∷ ledger ∷ social ∷ feedback ∷ []

module _ (lower : String → String) where
  -- The body of the inner loop. Every key has a translation, since both catalogs have the same keys.
  unfoldable pub add_label : Group → Texts → String × String → Labels → Labels
  unfolding set_new has_braces lookup
  add_label g translations (key, value) m =
      let k : UiKey = record { group = g; key = key } in
      if has_braces false value
      then m
      else add_translated g k (lookup key translations) (
          set_new (lower value) k
            ((in_group g (lower value), k) ∷ set_new value k ((in_group g value, k) ∷ m)))

  unfoldable pub add_group : Group → Texts → Texts → Labels → Labels
  unfolding add_label
  add_group g translations [] m = m
  add_group g translations (e ∷ es) m = add_group g translations es (add_label g translations e m)

  unfoldable pub add_groups : List Group → Labels → Labels
  unfolding add_group ui_catalogs
  add_groups [] m = m
  add_groups (g ∷ gs) m =
      add_groups gs (add_group g (ui_catalogs nepali g) (ui_catalogs english g) m)

  unfoldable pub labels : Labels
  unfolding add_groups
  labels = add_groups all_groups []

  -- `a || b` of keys.
  abbrev pub or_key : Option UiKey → Option UiKey → Option UiKey
  or_key none b = b
  or_key (some k) b = some k

  abbrev pub label_in : Option Group → String → Option UiKey
  label_in none value = none
  label_in (some g) value =
      or_key (get_label (in_group g value) labels) (get_label (in_group g (lower value)) labels)

  abbrev pub label_key : Option Group → String → Option UiKey
  label_key g value =
      or_key (label_in g value) (or_key (get_label value labels) (get_label (lower value) labels))

  unfoldable pub ui_label : (UiKey → String) → String → Option Group → String
  unfolding labels get_label
  ui_label ui value g = elim (label_key g value) [ none ↦ value | some k ↦ ui k ]
