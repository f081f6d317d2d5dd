-- ===== src/Marriage/Cover/Items.antt =====
-- The items are the choices of cards that `completionKind` names.
use mathlib.Core.Path.{subst}
use bhidne_ho.Prelude.{
  ℕ, Bool, true, some, List, [], ◌∷◌, ◌≡◌, refl, sym, ap, String, ◌≤◌, length, drop, Among, inl,
  inr, Bool-cases, Option-cases,
}
use bhidne_ho.Marriage.{MarriageCard, MeldType}
use bhidne_ho.Marriage.Completion.{SeenMaal, completion_kind, ids_of}
use bhidne_ho.Marriage.Masks.{Mask, size, select, masks, has_bit}
use bhidne_ho.Marriage.Masks.All.{Among-drop-masks, drop-masks-length}
use bhidne_ho.Marriage.Cover.{Item, item_of, items_of, at_bit}

pub Among-at_bit :
    (i : ℕ) (cs : List Item) (c : Item)
    → Among c (at_bit i cs)
    → Among c cs × (has_bit i c.mask ≡ true)
unfolding at_bit
Among-at_bit i [] c a = absurd a
Among-at_bit i (d ∷ cs) c a = elim (Bool-cases (has_bit i d.mask)) [
  | inl e ↦ elim (rw e at a) [
    | inl same ↦ (inl same, subst (λ (y : Item). has_bit i y.mask ≡ true) same e)
    | inr later ↦ let (b, f) = Among-at_bit i cs c later in (inr b, f)
  ]
  | inr e ↦ let (b, f) = Among-at_bit i cs c (rw e at a) in (inr b, f)
]

pub at_bit-Among :
    (i : ℕ) (cs : List Item) (c : Item)
    → Among c cs
    → has_bit i c.mask ≡ true
    → Among c (at_bit i cs)
unfolding at_bit
at_bit-Among i [] c a h = a
at_bit-Among i (d ∷ cs) c (inl same) h =
    let e : has_bit i d.mask ≡ true = subst (λ (y : Item). has_bit i y.mask ≡ true) (sym same) h in
    rw e (inl same)
at_bit-Among i (d ∷ cs) c (inr later) h = elim (Bool-cases (has_bit i d.mask)) [
  | inl e ↦ rw e (inr (at_bit-Among i cs c later h))
  | inr e ↦ rw e (at_bit-Among i cs c later h)
]

abbrev item_with : Mask → MeldType → List String → Item
item_with m kind ids = record { mask = m; group = record { meld_type = kind; card_ids = ids } }

module _ (maal : SeenMaal) (fits : ℕ → Bool) (cards : List MarriageCard) where
  -- The item is of a choice of the cards, of a number that fits, and its group has their ids and the
  -- kind that they are named.
  abbrev pub IsNamed : Item → Type 0
  IsNamed x =
      (fits (size x.mask) ≡ true)
      × (completion_kind (select x.mask cards) maal ≡ some x.group.meld_type)
      × (x.group.card_ids ≡ ids_of (select x.mask cards))

  items_of-IsNamed :
      (ms : List Mask) (x : Item)
      → Among x (items_of maal fits cards ms)
      → Among x.mask ms × IsNamed x
  unfolding items_of
  items_of-IsNamed [] x a = absurd a
  items_of-IsNamed (m ∷ ms) x a = elim (Bool-cases (fits (size m))) [
    | inr out ↦ let (b, p) = items_of-IsNamed ms x (rw (items_of, out) at a) in (inr b, p)
    | inl fit ↦ elim (Option-cases (completion_kind (select m cards) maal)) [
      | inl missed ↦
          let (b, p) = items_of-IsNamed ms x (rw (items_of, fit, missed) at a) in (inr b, p)
      | inr (kind, hit) ↦ elim (rw (items_of, fit, hit) at a) [
        | inl same ↦
            subst (λ y. Among y.mask (m ∷ ms) × IsNamed y) same (inl refl, (fit, hit, refl))
        | inr later ↦ let (b, p) = items_of-IsNamed ms x later in (inr b, p)
      ]
    ]
  ]

  Among-items_of :
      (ms : List Mask) (m : Mask) (kind : MeldType)
      → Among m ms
      → fits (size m) ≡ true
      → completion_kind (select m cards) maal ≡ some kind
      → Among (item_of cards m kind) (items_of maal fits cards ms)
  unfolding items_of
  Among-items_of [] m kind a f h = absurd a
  Among-items_of (n ∷ ms) m kind a f h = elim a [
    | inl same ↦
        let fit : fits (size n) ≡ true = subst (λ k. fits (size k) ≡ true) (sym same) f in
        let hit : completion_kind (select n cards) maal ≡ some kind =
          subst (λ k. completion_kind (select k cards) maal ≡ some kind) (sym same) h in
        rw (items_of, fit, hit) (inl (ap (λ k. item_of cards k kind) same))
    | inr later ↦ elim (Bool-cases (fits (size n))) [
      | inr out ↦ rw (items_of, out) (Among-items_of ms m kind later f h)
      | inl fit ↦ elim (Option-cases (completion_kind (select n cards) maal)) [
        | inl missed ↦ rw (items_of, fit, missed) (Among-items_of ms m kind later f h)
        | inr (k, hit) ↦ rw (items_of, fit, hit) (inr (Among-items_of ms m kind later f h))
      ]
    ]
  ]

  -- An item over all the cards.
  abbrev pub IsLegal : Item → Type 0
  IsLegal x = (length x.mask ≡ length cards) × IsNamed x

  abbrev all_items : List Item
  all_items = items_of maal fits cards (drop 1 (masks (length cards)))

  pub items-IsLegal : (x : Item) → Among x all_items → IsLegal x
  items-IsLegal x a =
      let (b, p) = items_of-IsNamed (drop 1 (masks (length cards))) x a in
      (drop-masks-length (length cards) x.mask b, p)

  pub IsLegal-items : (x : Item) → IsLegal x → 1 ≤ size x.mask → Among x all_items
  IsLegal-items x (len, (fit, hit, ids)) pos =
      let kind = x.group.meld_type in
      let there : Among x.mask (drop 1 (masks (length cards))) =
        subst (λ n. Among x.mask (drop 1 (masks n))) len (Among-drop-masks x.mask pos) in
      let a = Among-items_of (drop 1 (masks (length cards))) x.mask kind there fit hit in
      let same : item_of cards x.mask kind ≡ x =
        ap (λ (i : List String). item_with x.mask kind i) (sym ids) in
      subst (λ y. Among y all_items) same a
