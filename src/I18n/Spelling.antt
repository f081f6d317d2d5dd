-- ===== src/I18n/Spelling.antt =====
-- A label is translated only by a text of the catalogs that it spells.
use bhidne_ho.Prelude.{
  Bool, true, false, ◌&&◌, Option, none, some, List, [], ◌∷◌, String, ◌≡◌, ◌⊎◌, inl, inr, refl,
  arith, opt_str_eq, str_eq, eq_iff, is_some, All, Bool-cases, Option-cases,
}
use bhidne_ho.I18n.{english, nepali, Texts, lookup, ui_catalogs}
use bhidne_ho.I18n.Groups.{
  Group, common, rooms, callbreak, flush, marriage, ledger, social, feedback,
}
use mathlib.Core.Path.{subst}
use bhidne_ho.I18n.Parity.{catalogs_in_sync}
use bhidne_ho.I18n.Labels.{
  UiKey, in_group, Labels, get_label, set_new, has_braces, add_translated, add_label, add_group,
  add_groups, all_groups, labels, ui_label, label_in, label_key,
}

-- Every entry of the texts is the one that its key finds.
unfoldable readable : Texts → Texts → Bool
unfolding lookup
readable m [] = true
readable m ((k, v) ∷ es) = opt_str_eq (lookup k m) (some v) && readable m es

abbrev Readable : Texts → String × String → Type 0
Readable m (k, v) = lookup k m ≡ some v

groups_readable : (g : Group) → readable (ui_catalogs english g) (ui_catalogs english g) ≡ true
unfolding readable ui_catalogs
groups_readable common = refl
groups_readable rooms = refl
groups_readable callbreak = refl
groups_readable flush = refl
groups_readable marriage = refl
groups_readable ledger = refl
groups_readable social = refl
groups_readable feedback = refl

opt_eq : (a : Option String) (v : String) → opt_str_eq a (some v) ≡ true → a ≡ some v
opt_eq none v h = absurd (ground arith)
opt_eq (some a) v h = rw ((eq_iff a v).0 h) refl

All-Readable : (m es : Texts) → readable m es ≡ true → All (Readable m) es
unfolding readable
All-Readable m [] h = tt
All-Readable m ((k, v) ∷ es) h =
    (opt_eq (lookup k m) v (ground arith), All-Readable m es (ground arith))

missing-Matches :
    (g : Group) (key v : String)
    → lookup key (ui_catalogs english g) ≡ some v
    → lookup key (ui_catalogs nepali g) ≡ none
    → ⊥
missing-Matches g key v h n = rw (h, n) at (catalogs_in_sync g key)

module _ (lower : String → String) where
  -- The label is a text of one of the languages or the English one in lower case, perhaps after the
  -- name of the group.
  abbrev pub Spells : Group → String → String → String → Type 0
  Spells g v w x =
      (x ≡ v)
      ⊎ (x ≡ lower v)
      ⊎ (x ≡ w)
      ⊎ (x ≡ in_group g v)
      ⊎ (x ≡ in_group g (lower v))
      ⊎ (x ≡ in_group g w)

  -- The key has a text in both languages, without placeholders, and the label spells it.
  abbrev pub IsLabel : String → UiKey → Type 0
  IsLabel x k =
      (v : String) × (w : String) × (lookup k.key (ui_catalogs english k.group) ≡ some v)
      × (lookup k.key (ui_catalogs nepali k.group) ≡ some w)
      × (has_braces false v ≡ false)
      × Spells k.group v w x

  abbrev AllLabels : Labels → Type 0
  AllLabels = All (λ e. IsLabel e.0 e.1)

  set_new-AllLabels :
      (x : String) (k : UiKey) (m : Labels) → IsLabel x k → AllLabels m → AllLabels (set_new x k m)
  unfolding set_new
  set_new-AllLabels x k m p h = elim (Bool-cases (is_some (get_label x m))) [
    | inl e ↦ rw (set_new, e) h
    | inr e ↦ rw (set_new, e) (p, h)
  ]

  add-AllLabels :
      (x : String) (k : UiKey) (m : Labels) → IsLabel x k → AllLabels m → AllLabels ((x, k) ∷ m)
  add-AllLabels x k m p every = (p, every)

  translated-AllLabels :
      (g : Group) (key v : String) (o : Option String) (m : Labels)
      → lookup key (ui_catalogs english g) ≡ some v
      → lookup key (ui_catalogs nepali g) ≡ o
      → has_braces false v ≡ false
      → AllLabels m
      → AllLabels (
          let k : UiKey = record { group = g; key = key } in
          add_translated g k o
            (set_new (lower v) k ((in_group g (lower v), k) ∷ set_new v k ((in_group g v, k) ∷ m))))
  translated-AllLabels g key v none m h n b every = absurd (missing-Matches g key v h n)
  translated-AllLabels g key v (some w) m h n b every =
      let k : UiKey = record { group = g; key = key } in
      let label : (x : String) → Spells g v w x → IsLabel x k = λ x s. (v, w, h, n, b, s) in
      let one = add-AllLabels (in_group g v) k m (label _ (inr (inr (inr (inl refl))))) every in
      let two = set_new-AllLabels v k _ (label v (inl refl)) one in
      let three =
        add-AllLabels (in_group g (lower v)) k _ (label _ (inr (inr (inr (inr (inl refl)))))) two in
      let four = set_new-AllLabels (lower v) k _ (label (lower v) (inr (inl refl))) three in
      let five =
        add-AllLabels (in_group g w) k _ (label _ (inr (inr (inr (inr (inr refl)))))) four in
      set_new-AllLabels w k _ (label w (inr (inr (inl refl)))) five

  add_label-AllLabels :
      (g : Group) (key v : String) (m : Labels)
      → lookup key (ui_catalogs english g) ≡ some v
      → AllLabels m
      → AllLabels (add_label lower g (ui_catalogs nepali g) (key, v) m)
  unfolding add_label
  add_label-AllLabels g key v m h every = elim (Bool-cases (has_braces false v)) [
    | inl e ↦ rw (add_label, e) every
    | inr e ↦
        rw (add_label, e)
          (translated-AllLabels g key v (lookup key (ui_catalogs nepali g)) m h refl e every)
  ]

  add_group-AllLabels :
      (g : Group) (es : Texts) (m : Labels)
      → All (Readable (ui_catalogs english g)) es
      → AllLabels m
      → AllLabels (add_group lower g (ui_catalogs nepali g) es m)
  unfolding add_group
  add_group-AllLabels g [] m r every = every
  add_group-AllLabels g ((k, v) ∷ es) m (p, r) every =
      add_group-AllLabels g es _ r (add_label-AllLabels g k v m p every)

  add_groups-AllLabels :
      (gs : List Group) (m : Labels) → AllLabels m → AllLabels (add_groups lower gs m)
  unfolding add_groups
  add_groups-AllLabels [] m every = every
  add_groups-AllLabels (g ∷ gs) m every = add_groups-AllLabels gs _ (
      add_group-AllLabels g (ui_catalogs english g) m
        (All-Readable (ui_catalogs english g) (ui_catalogs english g) (groups_readable g)) every)

  get_label-IsLabel :
      (x : String) (m : Labels) (k : UiKey) → AllLabels m → get_label x m ≡ some k → IsLabel x k
  unfolding get_label
  get_label-IsLabel x [] k every h = absurd (ground arith)
  get_label-IsLabel x ((y, j) ∷ m) k (p, every) h = elim (Bool-cases (str_eq y x)) [
    | inl e ↦
        let same : y ≡ x = (eq_iff y x).0 e in
        let hit : j ≡ k = ground arith in
        subst (λ z. IsLabel z k) same (subst (λ i. IsLabel y i) hit p)
    | inr e ↦ get_label-IsLabel x m k every (ground arith)
  ]

  found-IsLabel : (x : String) (k : UiKey) → get_label x (labels lower) ≡ some k → IsLabel x k
  unfolding labels
  found-IsLabel x k h =
      get_label-IsLabel x (labels lower) k (add_groups-AllLabels all_groups [] tt) h

  -- The forms in which `uiLabel` asks for a value.
  abbrev pub Asks : Option Group → String → String → Type 0
  Asks none value x = (x ≡ value) ⊎ (x ≡ lower value)
  Asks (some g) value x =
      (x ≡ value) ⊎ (x ≡ lower value) ⊎ (x ≡ in_group g value) ⊎ (x ≡ in_group g (lower value))

  abbrev IsFound : Option Group → String → UiKey → Type 0
  IsFound g value k = (x : String) × Asks g value x × IsLabel x k

  label_in-IsFound :
      (g : Option Group) (value : String) (k : UiKey)
      → label_in lower g value ≡ some k
      → IsFound g value k
  label_in-IsFound none value k h = absurd (ground arith)
  label_in-IsFound (some g) value k h =
      elim (Option-cases (get_label (in_group g value) (labels lower))) [
        | inl e ↦ (in_group g (lower value), inr (inr (inr refl)), found-IsLabel _ k (ground arith))
        | inr (j, e) ↦ (in_group g value, inr (inr (inl refl)), found-IsLabel _ k (ground arith))
      ]

  Asks-value : (g : Option Group) (value : String) → Asks g value value × Asks g value (lower value)
  Asks-value none value = (inl refl, inr refl)
  Asks-value (some g) value = (inl refl, inr (inl refl))

  label_key-IsFound :
      (g : Option Group) (value : String) (k : UiKey)
      → label_key lower g value ≡ some k
      → IsFound g value k
  label_key-IsFound g value k h =
      let (plain, small) = Asks-value g value in
      elim (Option-cases (label_in lower g value)) [
        | inr (j, e) ↦ label_in-IsFound g value k (ground arith)
        | inl e ↦ elim (Option-cases (get_label value (labels lower))) [
          | inr (j, f) ↦ (value, plain, found-IsLabel value k (ground arith))
          | inl f ↦ (lower value, small, found-IsLabel (lower value) k (ground arith))
        ]
      ]

  -- A label is shown as it is, or as the text of a key that has a text in both languages, without
  -- placeholders, and whose English text, that in lower case or whose Nepali text, perhaps after the
  -- group's name, is one of the forms in which the label was asked for.
  pub ui_label_lem :
      (ui : UiKey → String) (value : String) (g : Option Group)
      → (ui_label lower ui value g ≡ value)
        ⊎ ((k : UiKey) × (x : String) × (ui_label lower ui value g ≡ ui k)
            × Asks g value x
            × IsLabel x k)
  unfolding ui_label
  ui_label_lem ui value g = elim (Option-cases (label_key lower g value)) [
    | inl e ↦ inl (rw (ui_label, e) refl)
    | inr (k, e) ↦
        let (x, asked, found) = label_key-IsFound g value k e in
        inr (k, x, rw (ui_label, e) refl, asked, found)
  ]
