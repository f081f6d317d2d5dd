-- ===== src/Marriage/Completion.antt =====
-- client/src/multiplayer/marriageFinishProgress.ts: isMarriageWild and completionKind, the test of a
-- group of cards that can finish a hand.
pub mod Groups
pub mod Sound
use bhidne_ho.Prelude.{
  ℕ, zero, suc, ◌+◌, ◌-◌, ◌≤◌, Bool, true, false, not, ◌&&◌, ◌||◌, Option, none, some, List, [],
  ◌∷◌, String, map, leb, ltb, ◌==◌, str_eq, length, all, any, if◌then◌else◌,
}
use bhidne_ho.Marriage.{
  Suit, suit_index, suit_eq, Face, same_face, Kind, standard, man, MarriageCard, is_standard,
  MeldType, pure_sequence, tunnela, dublee, sequence, set,
}
use bhidne_ho.Marriage.Order.{sort_numbers}
use bhidne_ho.Marriage.Distinct.{set_size}

pub record SeenMaal : Type 0 where
  pub tiplu : Face
  pub jhiplu : Face
  pub poplu : Face

unfoldable pub is_marriage_wild : Kind → SeenMaal → Bool
is_marriage_wild man maal = true
is_marriage_wild (standard f) maal =
    (f.rank == maal.tiplu.rank) || same_face f maal.jhiplu || same_face f maal.poplu

-- The two values of a rank: the ace low, and as it is.
abbrev pub low_rank : Face → ℕ
low_rank f = if f.rank == 14 then 1 else f.rank

abbrev pub raw_rank : Face → ℕ
raw_rank f = f.rank

abbrev pub orders : List (Face → ℕ)
orders = low_rank ∷ raw_rank ∷ []

-- The faces of the standard cards.
abbrev pub faces_of : List MarriageCard → List Face
faces_of [] = []
faces_of (c ∷ cs) = elim c.kind [ standard f ↦ f ∷ faces_of cs | man ↦ faces_of cs ]

-- The faces of the cards that are not wild.
abbrev pub fixed_faces : SeenMaal → List MarriageCard → List Face
fixed_faces maal [] = []
fixed_faces maal (c ∷ cs) =
    let rest = fixed_faces maal cs in
    elim c.kind [
      | standard f ↦ if is_marriage_wild (standard f) maal then rest else f ∷ rest
      | man ↦ rest
    ]

abbrev pub ids_of : List MarriageCard → List String
ids_of [] = []
ids_of (c ∷ cs) = c.card_id ∷ ids_of cs

abbrev pub all_same_face : List Face → Bool
all_same_face [] = true
all_same_face (f ∷ fs) = all (λ g. same_face g f) (f ∷ fs)

abbrev pub one_suit : List Face → Bool
one_suit [] = true
one_suit (f ∷ fs) = all (λ g. suit_eq g.suit f.suit) (f ∷ fs)

-- `ranks.every((r, i) => r === first + i)`, from the index i on.
abbrev pub counts_up : ℕ → List ℕ → Bool
counts_up n [] = true
counts_up n (r ∷ rs) = (r == n) && counts_up (n + 1) rs

abbrev pub is_run : List ℕ → Bool
is_run [] = true
is_run (r ∷ rs) = counts_up r (r ∷ rs)

abbrev pub last_of : ℕ → List ℕ → ℕ
last_of r [] = r
last_of r (s ∷ rs) = last_of s rs

-- The sorted ranks are distinct and fit within `n` places.
abbrev pub fits_within : ℕ → List ℕ → Bool
fits_within n [] = true
fits_within n (r ∷ rs) = (set_size ◌==◌ (r ∷ rs) == length (r ∷ rs)) && ltb (last_of r rs) (r + n)

abbrev pub suit_count : List Face → ℕ
suit_count fs = set_size ◌==◌ (map (λ f. suit_index f.suit) fs)

abbrev pub kind_of : ℕ → Bool → List Face → List Face → Option MeldType
kind_of n natural faces fixed =
    if natural && (n == 3) && all_same_face faces
    then some tunnela
    else if natural && one_suit faces && any (λ v. is_run (sort_numbers (map v faces))) orders
    then some pure_sequence
    else if leb n 13
        && leb (suit_count fixed) 1
        && any (λ v. fits_within n (sort_numbers (map v fixed))) orders
    then some sequence
    else if leb n 4
        && leb (set_size ◌==◌ (sort_numbers (map low_rank fixed))) 1
        && (suit_count fixed == length fixed)
    then some set
    else none

unfoldable pub completion_kind : List MarriageCard → SeenMaal → Option MeldType
unfolding is_marriage_wild
completion_kind cards maal =
    if ltb (length cards) 3 || not (set_size str_eq (ids_of cards) == length cards)
    then none
    else kind_of (length cards) (all (λ c. is_standard c.kind) cards) (faces_of cards)
        (fixed_faces maal cards)
