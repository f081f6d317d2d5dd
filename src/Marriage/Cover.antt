-- ===== src/Marriage/Cover.antt =====
-- client/src/multiplayer/marriageFinishProgress.ts: the candidates of normalFinishProgress and its
-- recursion `cover`, whose Map of results is passed on. The fuel is the number of bits of the mask.
pub mod Items
pub mod Packs
pub mod Optimal
use bhidne_ho.Prelude.{
  ℕ, zero, suc, ◌+◌, Bool, true, false, not, ◌&&◌, ◌||◌, Option, none, some, List, [], ◌∷◌, ltb,
  ◌==◌, length, filterb, if◌then◌else◌,
}
use bhidne_ho.Marriage.{MarriageCard, MarriageMeld, MeldType}
use bhidne_ho.Marriage.Completion.{SeenMaal, completion_kind, ids_of}
use bhidne_ho.Marriage.Masks.Memo.{Memo, find_memo}
use bhidne_ho.Marriage.Masks.{
  Mask, size, within, minus, has_bit, clear, lowest, is_zero, same_mask, masks, select,
}

pub record Item : Type 0 where
  pub mask : Mask
  pub group : MarriageMeld

pub record Plan : Type 0 where
  pub covered : ℕ
  pub groups : List MarriageMeld

abbrev pub no_plan : Plan
no_plan = record { covered = 0; groups = [] }

abbrev pub item_of : List MarriageCard → Mask → MeldType → Item
item_of cards m kind = record {
  mask = m;
  group = record { meld_type = kind; card_ids = ids_of (select m cards) };
}

-- The items of the loop over the masks: `fits` is the loop's own test of the number of cards.
unfoldable pub items_of : SeenMaal → (ℕ → Bool) → List MarriageCard → List Mask → List Item
items_of maal fits cards [] = []
items_of maal fits cards (m ∷ ms) =
    let rest = items_of maal fits cards ms in
    if fits (size m)
    then elim (completion_kind (select m cards) maal) [
      | none ↦ rest
      | some kind ↦ item_of cards m kind ∷ rest
    ]
    else rest

-- `candidates[i]`: the items whose mask has the bit i, in the order of the masks.
unfoldable pub at_bit : ℕ → List Item → List Item
unfolding has_bit
at_bit i = filterb (λ c. has_bit i c.mask)

abbrev pub better : Item → Plan → Plan → Plan
better c rest best =
    if ltb best.covered (size c.mask + rest.covered)
    then record { covered = size c.mask + rest.covered; groups = c.group ∷ rest.groups }
    else best

-- The loop over the candidates of the lowest bit; `cover` is the recursive call.
unfoldable pub improve :
    (Mask → Memo Plan → Plan × Memo Plan) → Mask → List Item → Plan → Memo Plan → Plan × Memo Plan
unfolding within minus size
improve cover m [] best memo = (best, memo)
improve cover m (c ∷ cs) best memo = elim (within c.mask m) [
  | false ↦ improve cover m cs best memo
  | true ↦
      let (rest, memo') = cover (minus m c.mask) memo in
      let best' = better c rest best in
      elim (best'.covered == size m) [
        | true ↦ (best', memo')
        | false ↦ improve cover m cs best' memo'
      ]
]

abbrev pub store : Mask → Plan × Memo Plan → Plan × Memo Plan
store m (p, memo) = (p, (m, p) ∷ memo)

unfoldable pub cover : ℕ → List Item → Mask → Memo Plan → Plan × Memo Plan
unfolding is_zero find_memo clear lowest at_bit improve
cover zero items m memo = (no_plan, memo)
cover (suc fuel) items m memo = elim (is_zero m) [
  | true ↦ (no_plan, memo)
  | false ↦ elim (find_memo m memo) [
    | some p ↦ (p, memo)
    | none ↦
        let (best, memo') = cover fuel items (clear (lowest m) m) memo in
        store m (improve (cover fuel items) m (at_bit (lowest m) items) best memo')
  ]
]
