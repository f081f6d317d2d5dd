-- ===== src/Marriage/Maal.antt =====
-- client/src/multiplayer/maalProgress.ts: the buckets of a hand, the search for the nearest plan of three
-- groups, and its allocation. Faces are the indices 0 to 51; `before a b` is `a.localeCompare(b) <= 0`.
-- An array indexed by faces is a function of the index.
pub mod Missing
pub mod Search
pub mod Nearest
pub mod Held
pub mod Choices
use bhidne_ho.Prelude.{
  ℕ, zero, suc, ◌+◌, ◌-◌, ◌*◌, ◌/◌, ◌%◌, Bool, true, false, not, ◌&&◌, ◌||◌, Option, none, some,
  List, [], ◌∷◌, ◌++◌, String, map, ltb, leb, ◌==◌, length, filterb, take, if◌then◌else◌,
}
use mathlib.Core.List.{flat_map}
use bhidne_ho.Marriage.{
  Suit, spades, clubs, hearts, diamonds, suit_index, Face, Kind, standard, man, MarriageCard,
  MeldType, pure_sequence, tunnela, dublee, has,
}
use bhidne_ho.Marriage.Order.{sort_by}

pub record Pattern : Type 0 where
  pub kind : MeldType
  pub faces : List ℕ

abbrev pub sequence_at : ℕ → ℕ → Pattern
sequence_at suit rank = record {
  kind = pure_sequence;
  faces =
      (suit * 13 + rank % 13) ∷ (suit * 13 + (rank + 1) % 13) ∷ (suit * 13 + (rank + 2) % 13) ∷ [];
}

abbrev pub tunnela_at : ℕ → ℕ → Pattern
tunnela_at suit rank = record {
  kind = tunnela;
  faces = (suit * 13 + rank) ∷ (suit * 13 + rank) ∷ (suit * 13 + rank) ∷ [];
}

-- 0 to n - 1.
abbrev pub range : ℕ → List ℕ
range zero = []
range (suc n) = range n ++ n ∷ []

unfoldable pub patterns : List Pattern
patterns =
    flat_map (λ suit. map (sequence_at suit) (range 12) ++ map (tunnela_at suit) (range 13))
      (range 4)

-- The index of a card's face; none for the cards that the buckets leave out.
abbrev pub face_index : MarriageCard → Option ℕ
face_index c = elim c.kind [
  | man ↦ none
  | standard f ↦
      let rank = if f.rank == 14 then 1 else f.rank in
      if leb 1 rank && leb rank 13 then some (suit_index f.suit * 13 + rank - 1) else none
]

-- The cards of the buckets with their indices, each id once.
unfoldable pub bucketed : List String → List MarriageCard → List (ℕ × MarriageCard)
bucketed seen [] = []
bucketed seen (c ∷ cs) = elim (has c.card_id seen) [
  | true ↦ bucketed seen cs
  | false ↦ elim (face_index c) [
    | none ↦ bucketed seen cs
    | some i ↦ (i, c) ∷ bucketed (c.card_id ∷ seen) cs
  ]
]

abbrev pub Buckets : Type 0
Buckets = ℕ → List MarriageCard

abbrev pub card_of : ℕ × MarriageCard → MarriageCard
card_of (i, c) = c

abbrev pub index_of : ℕ × MarriageCard → ℕ
index_of (i, c) = i

unfoldable pub card_buckets : (String → String → Bool) → List MarriageCard → Buckets
unfolding bucketed
card_buckets before hand i =
    sort_by (λ a b. before a.card_id b.card_id)
      (map card_of (filterb (λ e. index_of e == i) (bucketed [] hand)))

-- `required[f]++`, and a face's count of copies in a list.
abbrev pub bump : ℕ → (ℕ → ℕ) → ℕ → ℕ
bump f required i = if i == f then required i + 1 else required i

abbrev pub times : ℕ → List ℕ → ℕ
times f [] = 0
times f (g ∷ gs) = (if g == f then 1 else 0) + times f gs

abbrev pub distinct : List ℕ → List ℕ → List ℕ
distinct seen [] = []
distinct seen (f ∷ fs) =
    let rest = distinct (f ∷ seen) fs in if ltb 0 (times f seen) then rest else f ∷ rest

abbrev pub sum : List ℕ → ℕ
sum [] = 0
sum (n ∷ ns) = n + sum ns

-- The sort key of a pattern: the cards that it lacks by itself.
unfoldable pub cost : (ℕ → ℕ) → Pattern → ℕ
cost have p = sum (map (λ f. times f p.faces - have f) (distinct [] p.faces))

pub record Step : Type 0 where
  pub required : ℕ → ℕ
  pub extra : ℕ
  pub valid : Bool

abbrev pub require_one : (ℕ → ℕ) → ℕ → Step → Step
require_one have f s = record {
  required = bump f s.required;
  extra = s.extra + (if ltb (have f) (s.required f + 1) then 1 else 0);
  valid = s.valid && leb (s.required f + 1) 3;
}

-- The loop over a pattern's faces.
unfoldable pub require : (ℕ → ℕ) → List ℕ → Step → Step
require have [] s = s
require have (f ∷ fs) s = require have fs (require_one have f s)

pub record Best : Type 0 where
  pub best_cost : ℕ
  pub best : List Pattern

abbrev pub first_step : (ℕ → ℕ) → Step
first_step required = record { required = required; extra = 0; valid = true }

-- The loop over the patterns from `start` on; `search` is the recursive call.
unfoldable pub each_pattern :
    (ℕ → ℕ)
    → (List Pattern → List Pattern → ℕ → (ℕ → ℕ) → Best → Best)
    → List Pattern
    → List Pattern
    → ℕ
    → (ℕ → ℕ)
    → Best
    → Best
unfolding require
each_pattern have search_plans [] chosen missing required b = b
each_pattern have search_plans (p ∷ ps) chosen missing required b =
    let s = require have p.faces (first_step required) in
    let found = search_plans (p ∷ ps) (chosen ++ p ∷ []) (missing + s.extra) s.required b in
    each_pattern have search_plans ps chosen missing required (if s.valid then found else b)

-- `search`, with the number of patterns still to choose in place of `chosen.length`.
unfoldable pub search_plans : (ℕ → ℕ) → ℕ → List Pattern → List Pattern → ℕ → (ℕ → ℕ) → Best → Best
unfolding each_pattern
search_plans have zero ps chosen missing required b =
    if leb b.best_cost missing then b else record { best_cost = missing; best = chosen }
search_plans have (suc n) ps chosen missing required b =
    if leb b.best_cost missing
    then b
    else each_pattern have (search_plans have n) ps chosen missing required b

unfoldable pub nearest : (ℕ → ℕ) → Best
unfolding patterns cost search_plans
nearest have =
    search_plans have 3 (sort_by (λ p q. leb (cost have p) (cost have q)) patterns) [] 0 (λ f. 0)
      (record { best_cost = 10; best = [] })

-- `face(index)`, for an index below 52.
abbrev pub suit_at : ℕ → Suit
suit_at i =
    if i == 0 then spades else (if i == 1 then clubs else (if i == 2 then hearts else diamonds))

abbrev pub face : ℕ → Face
face index = record {
  rank = if index % 13 == 0 then 14 else index % 13 + 1;
  suit = suit_at (index / 13);
}

pub record MaalGroup : Type 0 where
  pub kind : MeldType
  pub held : List MarriageCard
  pub missing : List Face

abbrev pub put_rest : ℕ → List MarriageCard → Buckets → Buckets
put_rest f rest remaining i = if i == f then rest else remaining i

abbrev pub hold : MarriageCard → MaalGroup × Buckets → MaalGroup × Buckets
hold c (g, r) = (record g { held = c ∷ g.held }, r)

abbrev pub lack : ℕ → MaalGroup × Buckets → MaalGroup × Buckets
lack f (g, r) = (record g { missing = face f ∷ g.missing }, r)

-- `remaining[f].shift()` for each face of a pattern.
unfoldable pub fill : MeldType → List ℕ → Buckets → MaalGroup × Buckets
fill kind [] remaining = (record { kind = kind; held = []; missing = [] }, remaining)
fill kind (f ∷ fs) remaining = elim (remaining f) [
  | [] ↦ lack f (fill kind fs remaining)
  | c ∷ cs ↦ hold c (fill kind fs (put_rest f cs remaining))
]

unfoldable pub allocate : List Pattern → Buckets → List MaalGroup
unfolding fill
allocate [] remaining = []
allocate (p ∷ ps) remaining =
    let (g, remaining') = fill p.kind p.faces remaining in g ∷ allocate ps remaining'

abbrev pub missing_in : List MaalGroup → ℕ
missing_in [] = 0
missing_in (g ∷ gs) = length g.missing + missing_in gs

-- The seven faces of which the hand has most.
abbrev pub pair_patterns : (ℕ → ℕ) → List Pattern
pair_patterns have =
    map (λ f. record { kind = dublee; faces = f ∷ f ∷ [] })
      (take 7 (sort_by (λ f g. ltb (have g) (have f) || (have g == have f && leb f g)) (range 52)))

pub record Summary : Type 0 where
  pub groups : List MaalGroup
  pub missing : ℕ
  pub complete : ℕ
  pub unused : List MarriageCard

abbrev pub held_ids : List MaalGroup → List String
held_ids [] = []
held_ids (g ∷ gs) = map (λ c. c.card_id) g.held ++ held_ids gs

unfoldable pub summary : List MarriageCard → List MaalGroup → Summary
summary hand groups = record {
  groups = groups;
  missing = missing_in groups;
  complete = length (filterb (λ g. length g.missing == 0) groups);
  unused = filterb (λ c. not (has c.card_id (held_ids groups))) hand;
}

unfoldable pub maal_progress : (String → String → Bool) → List MarriageCard → Summary × Summary
unfolding card_buckets nearest allocate summary
maal_progress before hand =
    let buckets = card_buckets before hand in
    let have : ℕ → ℕ = λ f. length (buckets f) in
    (
      summary hand (allocate (nearest have).best buckets),
      summary hand (allocate (pair_patterns have) buckets),
    )
