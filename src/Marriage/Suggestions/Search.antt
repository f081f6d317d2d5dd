-- ===== src/Marriage/Suggestions/Search.antt =====
-- The search for three disjoint groups finds one exactly when there is one.
use bhidne_ho.Prelude.{
  ℕ, zero, suc, ◌+◌, false, none, some, List, [], ◌∷◌, ◌++◌, String, ◌≡◌, ◌≢◌, ◌∙◌, arith, length,
  length-append, any, or_else, Bool-cases, Option-cases, inl, inr, ◌⊎◌,
}
use mathlib.Core.List.{append_assoc, append-nil}
use bhidne_ho.Marriage.{MarriageCard, MarriageMeld, has}
use bhidne_ho.Marriage.Suggestions.{find, marriage_suggestions, collect_faces, candidates_of}

-- No card of the group is used.
abbrev pub IsFree : MarriageMeld → List String → Type 0
IsFree g used = any (λ id. has id used) g.card_ids ≡ false

-- A choice of `n` of the candidates, in their order, each free of the cards used before it.
pub data Pick : List MarriageMeld → ℕ → List String → List MarriageMeld → Type 0 where
  done : {cs : List MarriageMeld} {used : List String} → Pick cs 0 used []
  chosen :
      {g : MarriageMeld} {cs sel : List MarriageMeld} {n : ℕ} {used : List String}
      → IsFree g used
      → Pick cs n (used ++ g.card_ids) sel
      → Pick (g ∷ cs) (suc n) used (g ∷ sel)
  passed :
      {g : MarriageMeld} {cs sel : List MarriageMeld} {n : ℕ} {used : List String}
      → Pick cs n used sel
      → Pick (g ∷ cs) n used sel

abbrev Found : List MarriageMeld → List MarriageMeld → ℕ → List String → List MarriageMeld → Type 0
Found cs groups n used r = (sel : List MarriageMeld) × (r ≡ groups ++ sel) × Pick cs n used sel

Found-passed :
    (g : MarriageMeld) (cs groups : List MarriageMeld) (n : ℕ) (used : List String)
    (r : List MarriageMeld)
    → Found cs groups n used r
    → Found (g ∷ cs) groups n used r
Found-passed g cs groups n used r (sel, e, p) = (sel, e, passed p)

Found-chosen :
    (g : MarriageMeld) (cs groups : List MarriageMeld) (n : ℕ) (used : List String)
    (r : List MarriageMeld)
    → IsFree g used
    → Found cs (groups ++ g ∷ []) n (used ++ g.card_ids) r
    → Found (g ∷ cs) groups (suc n) used r
Found-chosen g cs groups n used r free (sel, e, p) =
    (g ∷ sel, e ∙ append_assoc groups (g ∷ []) sel, chosen free p)

longer :
    (g : MarriageMeld) (groups : List MarriageMeld) → length (groups ++ g ∷ []) ≡ length groups + 1
longer g groups = length-append groups (g ∷ [])

find-Found :
    (cs groups : List MarriageMeld) (n : ℕ) (used : List String) (r : List MarriageMeld)
    → n + length groups ≡ 3
    → find cs groups used ≡ some r
    → Found cs groups n used r
unfolding find
find-Found [] groups zero used r k h = ([], ground (arith, append-nil groups), done)
find-Found [] groups (suc n) used r k h = absurd (ground arith)
find-Found (g ∷ cs) groups zero used r k h = ([], ground (arith, append-nil groups), done)
find-Found (g ∷ cs) groups (suc n) used r k h =
    elim (Bool-cases (any (λ id. has id used) g.card_ids)) [
      | inl blocked ↦
          Found-passed g cs groups (suc n) used r
            (find-Found cs groups (suc n) used r k (ground arith))
      | inr free ↦ elim (Option-cases (find cs (groups ++ g ∷ []) (used ++ g.card_ids))) [
        | inl missed ↦
            Found-passed g cs groups (suc n) used r
              (find-Found cs groups (suc n) used r k (ground arith))
        | inr (r', hit) ↦ Found-chosen g cs groups n used r free (
            find-Found cs (groups ++ g ∷ []) n (used ++ g.card_ids) r
              (omega (arith, longer g groups)) (ground arith))
      ]
    ]

find-ne-none :
    {cs : List MarriageMeld} (groups : List MarriageMeld) {n : ℕ} {used : List String}
    {sel : List MarriageMeld}
    → n + length groups ≡ 3
    → Pick cs n used sel
    → find cs groups used ≢ none
unfolding find
find-ne-none groups k (done {cs = []}) = ground arith
find-ne-none groups k (done {cs = g ∷ cs}) = ground arith
find-ne-none groups k (chosen {g} {cs} {n} {used} free p) =
    ground (arith, find-ne-none (groups ++ g ∷ []) (omega (arith, longer g groups)) p)
find-ne-none groups k (passed {g} {cs} {n} {used} p) = ground (arith, find-ne-none groups k p)

find_best :
    (cs : List MarriageMeld)
    → let r = or_else (find cs [] []) [] in
      ((r ≡ []) ⊎ Pick cs 3 [] r) × ((sel : List MarriageMeld) → Pick cs 3 [] sel → Pick cs 3 [] r)
find_best cs = elim (Option-cases (find cs [] [])) [
  | inl missed ↦ (
    inl (rw missed),
    λ sel p. absurd (find-ne-none {cs = cs} [] {sel = sel} (omega arith) p missed),
  )
  | inr (r, hit) ↦
      let (sel, e, p) = find-Found cs [] 3 [] r (omega arith) hit in
      let picked : Pick cs 3 [] r = rw e p in rw hit (inr picked, λ other q. picked)
]

-- The local suggestion for the normal route is empty, or three of the candidate melds that share no
-- card id, chosen in the order of the candidates; and it is empty only if there are no such three.
pub marriage_suggestions-normal :
    (hand : List MarriageCard)
    → let cs = candidates_of (collect_faces [] hand) in
      let normal = (marriage_suggestions hand).normal in
      ((normal ≡ []) ⊎ Pick cs 3 [] normal)
      × ((sel : List MarriageMeld) → Pick cs 3 [] sel → Pick cs 3 [] normal)
unfolding marriage_suggestions
marriage_suggestions-normal hand = find_best (candidates_of (collect_faces [] hand))
