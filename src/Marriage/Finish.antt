-- ===== src/Marriage/Finish.antt =====
-- client/src/multiplayer/marriageFinishProgress.ts: remainingCards, dubleeFinishProgress and
-- normalFinishProgress. `before a b` is `a.localeCompare(b) <= 0`.
pub mod Best
pub mod Gaps
use bhidne_ho.Prelude.{
  ℕ, zero, suc, ◌+◌, ◌-◌, Bool, true, false, not, ◌&&◌, ◌||◌, Option, none, some, List, [], ◌∷◌,
  ◌++◌, String, map, ltb, leb, ◌==◌, str_eq, length, filterb, any, take, drop, if◌then◌else◌,
}
use mathlib.Core.List.{flat_map}
use bhidne_ho.Marriage.{
  Face, same_face, Kind, standard, man, MarriageCard, MarriageMeld, is_standard, dublee, has,
}
use bhidne_ho.Marriage.Order.{sort_by}
use bhidne_ho.Marriage.Completion.{SeenMaal, ids_of}
use bhidne_ho.Marriage.Masks.{Mask, full, clear, masks}
use bhidne_ho.Marriage.Masks.Memo.{Memo}
use bhidne_ho.Marriage.Cover.{Item, Plan, no_plan, items_of, cover}

-- `new Map(cards.map(c => [c.card_id, c]))`: a later card takes the place of one with its id.
unfoldable pub put_card : MarriageCard → List MarriageCard → List MarriageCard
put_card c [] = c ∷ []
put_card c (d ∷ ds) =
    let rest = put_card c ds in if str_eq d.card_id c.card_id then c ∷ ds else d ∷ rest

unfoldable pub put_cards : List MarriageCard → List MarriageCard → List MarriageCard
unfolding put_card
put_cards ds [] = ds
put_cards ds (c ∷ cs) = put_cards (put_card c ds) cs

abbrev pub used_ids : List MarriageMeld → List String
used_ids melds = flat_map (λ g. g.card_ids) melds

abbrev pub not_used : List String → List MarriageCard → List MarriageCard
not_used ids = filterb (λ c. not (has c.card_id ids))

unfoldable pub remaining_cards :
    (String → String → Bool) → List MarriageCard → List MarriageMeld → List MarriageCard
unfolding put_cards
remaining_cards before hand shown =
    sort_by (λ a b. before a.card_id b.card_id) (put_cards [] (not_used (used_ids shown) hand))

-- The standard cards of a list by their face, in the order of the first of each.
unfoldable pub add_group :
    Face → MarriageCard → List (Face × List MarriageCard) → List (Face × List MarriageCard)
add_group f c [] = (f, c ∷ []) ∷ []
add_group f c ((g, cs) ∷ m) =
    let rest = add_group f c m in if same_face g f then (g, cs ++ c ∷ []) ∷ m else (g, cs) ∷ rest

unfoldable pub group_faces :
    List (Face × List MarriageCard) → List MarriageCard → List (Face × List MarriageCard)
unfolding add_group
group_faces m [] = m
group_faces m (c ∷ cs) = elim c.kind [
  | standard f ↦ group_faces (add_group f c m) cs
  | man ↦ group_faces m cs
]

-- `c.card_type === 'standard' && sameFace(c, face)`
abbrev pub shows_face : Face → MarriageCard → Bool
shows_face f c = elim c.kind [ standard g ↦ same_face g f | man ↦ false ]

pub record Waiting : Type 0 where
  pub card : MarriageCard
  pub face : Face
  pub held_copies : ℕ

pub record DubleeProgress : Type 0 where
  pub cards : List MarriageCard
  pub pairs : List MarriageMeld
  pub waiting : List Waiting
  pub discard_helps : Bool
  pub men : List MarriageCard

unfoldable pub pairs_in : List (Face × List MarriageCard) → List MarriageMeld
pairs_in [] = []
pairs_in ((f, cs) ∷ m) =
    let rest = pairs_in m in
    if leb 2 (length cs)
    then record { meld_type = dublee; card_ids = ids_of (take 2 cs) } ∷ rest
    else rest

-- `possibleCopies` is 3 less the copies held, which may be negative: the copies are kept here.
unfoldable pub waiting_in : List MarriageCard → List (Face × List MarriageCard) → List Waiting
waiting_in hand [] = []
waiting_in hand ((f, c ∷ []) ∷ m) =
    record { card = c; face = f; held_copies = length (filterb (shows_face f) hand) }
    ∷ waiting_in hand m
waiting_in hand ((f, cs) ∷ m) = waiting_in hand m

abbrev helps : List MarriageCard → List MarriageCard → Option MarriageCard → Bool
helps hand cards none = false
helps hand cards (some d) = elim d.kind [
  | man ↦ false
  | standard f ↦ not (any (λ c. str_eq c.card_id d.card_id) hand) && any (shows_face f) cards
]

unfoldable pub dublee_finish_progress :
    (String → String → Bool)
    → List MarriageCard
    → List MarriageMeld
    → Option MarriageCard
    → DubleeProgress
unfolding remaining_cards group_faces pairs_in waiting_in
dublee_finish_progress before hand shown top =
    let cards = remaining_cards before hand shown in
    let faces = group_faces [] cards in
    record {
      cards = cards;
      pairs = pairs_in faces;
      waiting = waiting_in hand faces;
      discard_helps = helps hand cards top;
      men = filterb (λ c. not (is_standard c.kind)) cards;
    }

pub record FinishProgress : Type 0 where
  pub plan : Plan
  pub unused : List MarriageCard
  pub target : ℕ
  pub ready : Bool

abbrev pub shown_count : List MarriageMeld → ℕ
shown_count [] = 0
shown_count (g ∷ gs) = length g.card_ids + shown_count gs

abbrev pub target_of : List MarriageMeld → ℕ
target_of shown = 21 - shown_count shown

abbrev pub fits_target : ℕ → ℕ → Bool
fits_target target n = leb 3 n && leb n target

abbrev pub finish_items : SeenMaal → ℕ → List MarriageCard → List Item
finish_items maal target cards =
    items_of maal (fits_target target) cards (drop 1 (masks (length cards)))

abbrev pub more : Plan → Plan → Plan
more plan best = if ltb best.covered plan.covered then plan else best

-- The loop over the card that is left out: `rounds` are left, from the index `i` on.
unfoldable pub leave_one_out : List Item → ℕ → (rounds i : ℕ) → Plan → Memo Plan → Plan
unfolding cover
leave_one_out items n zero i best memo = best
leave_one_out items n (suc rounds) i best memo =
    let (plan, memo') = cover n items (clear i (full n)) memo in
    leave_one_out items n rounds (suc i) (more plan best) memo'

unfoldable pub best_plan : List Item → ℕ → ℕ → Plan
unfolding leave_one_out
best_plan items n target =
    if ltb target n then leave_one_out items n n 0 no_plan [] else (cover n items (full n) []).0

unfoldable pub normal_finish_progress :
    (String → String → Bool) → List MarriageCard → List MarriageMeld → SeenMaal → FinishProgress
unfolding remaining_cards best_plan items_of
normal_finish_progress before hand shown maal =
    let cards = remaining_cards before hand shown in
    let target = target_of shown in
    if ltb 13 (length cards)
    then record { plan = no_plan; unused = cards; target = target; ready = false }
    else let plan = best_plan (finish_items maal target cards) (length cards) target in
      record {
        plan = plan;
        unused = not_used (used_ids plan.groups) cards;
        target = target;
        ready = (length hand == 22) && (plan.covered == target);
      }
