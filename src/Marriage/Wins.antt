-- ===== src/Marriage/Wins.antt =====
-- client/src/multiplayer/marriageFinishProgress.ts: marriageWinChoices, with its recursion `covers`, which
-- stops at 24 results. The fuel is the number of bits of the mask.
pub mod Pushed
pub mod Exact
pub mod Recursion
pub mod Choices
pub mod Normal
use bhidne_ho.Prelude.{
  ℕ, zero, suc, ◌+◌, ◌-◌, Bool, true, false, not, ◌&&◌, ◌||◌, Option, none, some, List, [], ◌∷◌,
  ◌++◌, String, map, ltb, leb, ◌==◌, str_eq, length, drop, if◌then◌else◌,
}
use bhidne_ho.Marriage.{
  Face, same_face, Kind, standard, man, MarriageCard, MarriageMeld, dublee, has,
}
use bhidne_ho.Marriage.Completion.{SeenMaal}
use bhidne_ho.Marriage.Masks.{Mask, size, within, minus, clear, lowest, is_zero, full, masks}
use bhidne_ho.Marriage.Masks.Memo.{Memo, find_memo}
use bhidne_ho.Marriage.Cover.{Item, items_of, at_bit}
use bhidne_ho.Marriage.Finish.{remaining_cards, shows_face}

abbrev pub limit : ℕ
limit = 24

abbrev pub Covers : Type 0
Covers = List (List MarriageMeld)

module _ {A B : Type 0} where
  -- `for (const x of xs) { result.push(f(x)); if (result.length >= 24) return result; }`
  unfoldable pub push_all : (A → B) → List A → List B → List B
  push_all f [] result = result
  push_all f (x ∷ xs) result =
      let result' = result ++ f x ∷ [] in
      elim (leb limit (length result')) [ true ↦ result' | false ↦ push_all f xs result' ]

-- The loop over the covers of the rest.
abbrev pub extend : Item → Covers → Covers → Covers
extend c = push_all (λ r. c.group ∷ r)

-- The loop over the candidates of the lowest bit; `covers` is the recursive call.
unfoldable pub gather :
    (Mask → Memo Covers → Covers × Memo Covers)
    → Mask
    → List Item
    → Covers
    → Memo Covers
    → Covers × Memo Covers
unfolding within minus push_all
gather covers m [] result memo = (result, memo)
gather covers m (c ∷ cs) result memo = elim (within c.mask m) [
  | false ↦ gather covers m cs result memo
  | true ↦
      let (rests, memo') = covers (minus m c.mask) memo in
      let result' = extend c rests result in
      elim (leb limit (length result')) [
        | true ↦ (result', memo')
        | false ↦ gather covers m cs result' memo'
      ]
]

abbrev pub store : Mask → Covers × Memo Covers → Covers × Memo Covers
store m (r, memo) = (r, (m, r) ∷ memo)

unfoldable pub covers : ℕ → List Item → Mask → Memo Covers → Covers × Memo Covers
unfolding is_zero find_memo lowest at_bit gather
covers zero items m memo = ([] ∷ [], memo)
covers (suc fuel) items m memo = elim (is_zero m) [
  | true ↦ ([] ∷ [], memo)
  | false ↦ elim (find_memo m memo) [
    | some r ↦ (r, memo)
    | none ↦ store m (gather (covers fuel items) m (at_bit (lowest m) items) [] memo)
  ]
]

pub record MarriageWinChoice : Type 0 where
  pub melds : List MarriageMeld
  pub discard_card_id : Option String
  pub winning_pair : List String

abbrev pub win_with : List MarriageMeld → String → List MarriageMeld → MarriageWinChoice
win_with shown discard groups = record {
  melds = shown ++ groups;
  discard_card_id = some discard;
  winning_pair = [];
}

-- The loop over the cards that may be discarded, from the index `i` on.
unfoldable pub discard_each :
    List Item
    → ℕ
    → List MarriageMeld
    → List String
    → List MarriageCard
    → ℕ
    → List MarriageWinChoice
    → Memo Covers
    → List MarriageWinChoice
unfolding covers push_all
discard_each items n shown kept [] i result memo = result
discard_each items n shown kept (c ∷ cs) i result memo = elim (has c.card_id kept) [
  | true ↦ discard_each items n shown kept cs (suc i) result memo
  | false ↦
      let (found, memo') = covers n items (clear i (full n)) memo in
      let result' = push_all (win_with shown c.card_id) found result in
      elim (leb limit (length result')) [
        | true ↦ result'
        | false ↦ discard_each items n shown kept cs (suc i) result' memo'
      ]
]

abbrev pub pair_with : List MarriageMeld → MarriageCard → MarriageCard → MarriageWinChoice
pair_with shown a b = record {
  melds = shown ++ record { meld_type = dublee; card_ids = a.card_id ∷ b.card_id ∷ [] } ∷ [];
  discard_card_id = none;
  winning_pair = a.card_id ∷ b.card_id ∷ [];
}

-- `cards[i].card_type === 'standard' && cards[j].card_type === 'standard' && sameFace(...)`
abbrev pub are_pair : MarriageCard → MarriageCard → Bool
are_pair a b = elim a.kind [ standard f ↦ shows_face f b | man ↦ false ]

abbrev pub pairs_with :
    List MarriageMeld → MarriageCard → List MarriageCard → List MarriageWinChoice
pairs_with shown a [] = []
pairs_with shown a (b ∷ bs) =
    let rest = pairs_with shown a bs in if are_pair a b then pair_with shown a b ∷ rest else rest

unfoldable pub dublee_wins : List MarriageMeld → List MarriageCard → List MarriageWinChoice
dublee_wins shown [] = []
dublee_wins shown (c ∷ cs) = pairs_with shown c cs ++ dublee_wins shown cs

abbrev pub win_items : SeenMaal → List MarriageCard → List Item
win_items maal cards = items_of maal (λ n. true) cards (drop 1 (masks (length cards)))

unfoldable pub marriage_win_choices :
    (String → String → Bool)
    → List MarriageCard
    → List MarriageMeld
    → SeenMaal
    → String
    → List String
    → List MarriageWinChoice
unfolding remaining_cards dublee_wins discard_each items_of
marriage_win_choices before hand shown maal route kept =
    let cards = remaining_cards before hand shown in
    if not (length hand == 22)
    then []
    else if str_eq route "dublee" && (length shown == 7)
    then dublee_wins shown cards
    else if not (str_eq route "normal") || not (length shown == 3) || ltb 13 (length cards)
    then []
    else discard_each (win_items maal cards) (length cards) shown kept cards 0 [] []
