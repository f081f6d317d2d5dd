-- ===== src/Marriage/Suggestions.antt =====
-- client/src/multiplayer/marriage.ts: marriageSuggestions. The Map of faces is a list of keys in the
-- order of their first cards, each with its card ids in the order of the hand.
pub mod Search
use bhidne_ho.Prelude.{
  ℕ, zero, suc, ◌+◌, Bool, true, false, not, ◌&&◌, Option, none, some, List, [], ◌∷◌, ◌++◌, String,
  leb, ◌==◌, length, any, take, if◌then◌else◌, or_else,
}
use mathlib.Core.List.{flat_map, map}
use bhidne_ho.Marriage.{
  Suit, all_suits, suit_eq, Face, same_face, Kind, standard, man, MarriageCard, MarriageMeld,
  MeldType, pure_sequence, tunnela, dublee, has,
}

-- The key `${suit}:${rank}` as a face, the ace low.
abbrev key_of : Face → Face
key_of f = record { rank = if f.rank == 14 then 1 else f.rank; suit = f.suit }

abbrev pub Faces : Type 0
Faces = List (Face × List String)

-- `faces.get(key) || []`
unfoldable pub lookup_face : Face → Faces → List String
lookup_face k [] = []
lookup_face k ((j, ids) ∷ m) = let rest = lookup_face k m in if same_face j k then ids else rest

-- `faces.set(key, [...(faces.get(key) || []), id])`
unfoldable pub add_face : Face → String → Faces → Faces
add_face k id [] = (k, id ∷ []) ∷ []
add_face k id ((j, ids) ∷ m) =
    let rest = add_face k id m in if same_face j k then (j, ids ++ id ∷ []) ∷ m else (j, ids) ∷ rest

unfoldable pub collect_faces : Faces → List MarriageCard → Faces
unfolding add_face
collect_faces m [] = m
collect_faces m (c ∷ cs) = elim c.kind [
  | standard f ↦ collect_faces (add_face (key_of f) c.card_id m) cs
  | man ↦ collect_faces m cs
]

abbrev pub meld : MeldType → List String → MarriageMeld
meld t ids = record { meld_type = t; card_ids = ids }

unfoldable pub pairs_of : Faces → List MarriageMeld
pairs_of [] = []
pairs_of ((k, ids) ∷ m) =
    let rest = pairs_of m in if leb 2 (length ids) then meld dublee (take 2 ids) ∷ rest else rest

unfoldable pub tunnelas_of : Faces → List MarriageMeld
tunnelas_of [] = []
tunnelas_of ((k, ids) ∷ m) =
    let rest = tunnelas_of m in if length ids == 3 then meld tunnela ids ∷ rest else rest

abbrev pub face_at : Suit → ℕ → Face
face_at s r = record { rank = r; suit = s }

-- The three inner loops: one group for each choice of a card at the three ranks.
unfoldable pub sequences_at : Faces → Suit → ℕ → List MarriageMeld
unfolding lookup_face
sequences_at m s rank =
    let third = if (rank + 2) == 14 then 1 else rank + 2 in
    flat_map
      (λ a.
        flat_map
          (λ b. map (λ c. meld pure_sequence (a ∷ b ∷ c ∷ [])) (lookup_face (face_at s third) m))
          (lookup_face (face_at s (rank + 1)) m))
      (lookup_face (face_at s rank) m)

abbrev low_ranks : List ℕ
low_ranks = 1 ∷ 2 ∷ 3 ∷ 4 ∷ 5 ∷ 6 ∷ 7 ∷ 8 ∷ 9 ∷ 10 ∷ 11 ∷ 12 ∷ []

unfoldable pub sequences_of : Faces → List MarriageMeld
unfolding sequences_at
sequences_of m = flat_map (λ s. flat_map (λ r. sequences_at m s r) low_ranks) all_suits

-- `find`, over the candidates from `start` on.
unfoldable pub find :
    List MarriageMeld → List MarriageMeld → List String → Option (List MarriageMeld)
find [] groups used = if length groups == 3 then some groups else none
find (g ∷ cs) groups used =
    let skipped = find cs groups used in
    let taken = find cs (groups ++ g ∷ []) (used ++ g.card_ids) in
    if length groups == 3
    then some groups
    else if any (λ id. has id used) g.card_ids
    then skipped
    else elim taken [ some r ↦ some r | none ↦ skipped ]

pub record Suggestions : Type 0 where
  pub dublees : List MarriageMeld
  pub normal : List MarriageMeld
  pub pair_count : ℕ
  pub pairs : List MarriageMeld
  pub melds : List MarriageMeld

-- The groups that the search chooses from.
unfoldable pub candidates_of : Faces → List MarriageMeld
unfolding tunnelas_of sequences_of
candidates_of m = tunnelas_of m ++ sequences_of m

unfoldable pub marriage_suggestions : List MarriageCard → Suggestions
unfolding collect_faces pairs_of candidates_of find
marriage_suggestions hand =
    let m = collect_faces [] hand in
    let pairs = pairs_of m in
    record {
      dublees = if leb 7 (length pairs) then take 7 pairs else [];
      normal = or_else (find (candidates_of m) [] []) [];
      pair_count = length pairs;
      pairs = pairs;
      melds = candidates_of m;
    }
