-- ===== src/Marriage/Completion/Groups.antt =====
-- client/src/multiplayer/marriageFinishProgress.ts: what each kind of group asks of its cards, and what
-- the tests of completionKind say of them.
use bhidne_ho.Prelude.{
  ℕ, zero, suc, ◌+◌, ◌≤◌, ◌<◌, Bool, true, List, [], ◌∷◌, ◌≡◌, ◌⊎◌, inl, inr, refl, sym, arith, map,
  leb, ◌==◌, ==_iff, length, All, all, any, Bool-cases, leb→le, ◌∙◌,
}
use mathlib.Core.Path.{subst}
use mathlib.Core.List.{Perm}
use bhidne_ho.Marriage.{
  Suit, suit_index, suit_eq, Face, same_face, standard, MarriageCard, is_standard, MeldType,
  pure_sequence, tunnela, dublee, sequence, set, spades,
}
use bhidne_ho.Marriage.Order.{sort_numbers, sort_by-perm, Ascending, length-sort_by, All-sort_by}
use bhidne_ho.Marriage.Distinct.{set_size, Distinct, Distinct-set_size, All-set_size}
use bhidne_ho.Marriage.Completion.{
  SeenMaal, low_rank, raw_rank, faces_of, fixed_faces, ids_of, all_same_face, one_suit, counts_up,
  is_run, last_of, fits_within, suit_count, orders,
}

-- n numbers from `low` on.
abbrev pub up_from : ℕ → ℕ → List ℕ
up_from low zero = []
up_from low (suc n) = low ∷ up_from (low + 1) n

-- The ranks of the faces, in one reading of the ace.
abbrev pub Reads : (Face → ℕ) → Type 0
Reads v = (v ≡ low_rank) ⊎ (v ≡ raw_rank)

-- What each kind of group asks of its cards.
abbrev pub Completes : SeenMaal → List MarriageCard → MeldType → Type 0
Completes maal cards tunnela =
    (length cards ≡ 3) × ((f : Face) × All (λ c. c.kind ≡ standard f) cards)
Completes maal cards pure_sequence =
    All (λ c. is_standard c.kind ≡ true) cards
    × ((s : Suit) × All (λ f. f.suit ≡ s) (faces_of cards))
    × ((v : Face → ℕ) × (low : ℕ) × Reads v
        × Perm (up_from low (length (faces_of cards))) (map v (faces_of cards)))
Completes maal cards sequence =
    (length cards ≤ 13)
    × ((s : Suit) × All (λ f. f.suit ≡ s) (fixed_faces maal cards))
    × ((v : Face → ℕ) × (low : ℕ) × (rs : List ℕ) × Reads v
        × Perm rs (map v (fixed_faces maal cards))
        × Distinct rs
        × All (λ r. (low ≤ r) × (r < low + length cards)) rs)
Completes maal cards set =
    (length cards ≤ 4)
    × ((r : ℕ) × All (λ f. low_rank f ≡ r) (fixed_faces maal cards))
    × Distinct (map (λ f. suit_index f.suit) (fixed_faces maal cards))
Completes maal cards dublee = ⊥

length-up_from : (low : ℕ) (rs : List ℕ) → counts_up low rs ≡ true → rs ≡ up_from low (length rs)
length-up_from low [] h = refl
length-up_from low (r ∷ rs) h =
    let e : r ≡ low = ground arith in let t = length-up_from (low + 1) rs (ground arith) in cc

same_face-eq : (f g : Face) → same_face f g ≡ true → f ≡ g
same_face-eq f g h = ground arith

suit_eq-eq : (s t : Suit) → suit_eq s t ≡ true → s ≡ t
suit_eq-eq s t h = ground arith

all_face : (f : Face) (gs : List Face) → all (λ g. same_face g f) gs ≡ true → All (λ g. g ≡ f) gs
all_face f [] h = tt
all_face f (g ∷ gs) h = (same_face-eq g f (ground arith), all_face f gs (ground arith))

all_suit :
    (s : Suit) (gs : List Face) → all (λ g. suit_eq g.suit s) gs ≡ true → All (λ g. g.suit ≡ s) gs
all_suit s [] h = tt
all_suit s (g ∷ gs) h = (suit_eq-eq g.suit s (ground arith), all_suit s gs (ground arith))

pub all_standard :
    (cs : List MarriageCard)
    → all (λ c. is_standard c.kind) cs ≡ true
    → All (λ c. is_standard c.kind ≡ true) cs
all_standard [] h = tt
all_standard (c ∷ cs) h = (ground arith, all_standard cs (ground arith))

standard_face :
    (f : Face) (cs : List MarriageCard)
    → all (λ c. is_standard c.kind) cs ≡ true
    → All (λ g. g ≡ f) (faces_of cs)
    → All (λ c. c.kind ≡ standard f) cs
standard_face f [] h k = tt
standard_face f (c ∷ cs) h k = (ground arith, standard_face f cs (ground arith) (ground arith))

length-map : (v : Face → ℕ) (fs : List Face) → length (map v fs) ≡ length fs
length-map v [] = refl
length-map v (f ∷ fs) = omega (arith, length-map v fs)

run_of_is_run : (rs : List ℕ) → is_run rs ≡ true → (low : ℕ) × (rs ≡ up_from low (length rs))
run_of_is_run [] h = (0, refl)
run_of_is_run (r ∷ rs) h = (r, length-up_from r (r ∷ rs) h)

-- A run in one reading of the ace, sorted, is the run of the faces.
pub run-perm :
    (v : Face → ℕ) (fs : List Face)
    → is_run (sort_numbers (map v fs)) ≡ true
    → (low : ℕ) × Perm (up_from low (length fs)) (map v fs)
run-perm v fs h =
    let (low, e) = run_of_is_run (sort_numbers (map v fs)) h in
    let n : length (sort_numbers (map v fs)) ≡ length fs =
      length-sort_by leb (map v fs) ∙ length-map v fs in
    (low, subst (λ k. Perm (up_from low k) (map v fs)) n (rw e at (sort_by-perm leb (map v fs))))

All-le_last :
    (r : ℕ) (rs : List ℕ) → Ascending (r ∷ rs) → (r ≤ last_of r rs) × All (λ y. y ≤ last_of r rs) rs
All-le_last r [] h = (omega arith, tt)
All-le_last r (s ∷ rs) ((l, p), h) = let (a, b) = All-le_last s rs h in (omega arith, (a, b))

All-between :
    (low last n : ℕ) (rs : List ℕ)
    → last < low + n
    → All (λ y. low ≤ y) rs
    → All (λ y. y ≤ last) rs
    → All (λ r. (low ≤ r) × (r < low + n)) rs
All-between low last n [] h p q = tt
All-between low last n (r ∷ rs) h (p, ps) (q, qs) =
    ((p, omega arith), All-between low last n rs h ps qs)

pub window_of_fits :
    (n : ℕ) (rs : List ℕ)
    → Ascending rs
    → fits_within n rs ≡ true
    → (low : ℕ) × Distinct rs × All (λ r. (low ≤ r) × (r < low + n)) rs
window_of_fits n [] up h = (0, tt, tt)
window_of_fits n (r ∷ rs) up h =
    let (a, b) = All-le_last r rs up in
    (
      r,
      Distinct-set_size ◌==◌ ==_iff (r ∷ rs) (ground arith),
      ((omega arith, ground arith), All-between r (last_of r rs) n rs (ground arith) up.0 b),
    )

suit_index-eq : (s t : Suit) → suit_index s ≡ suit_index t → t ≡ s
suit_index-eq s t h = ground arith

suits_same :
    (s : Suit) (fs : List Face)
    → All (λ y. suit_index s ≡ y) (map (λ g. suit_index g.suit) fs)
    → All (λ f. f.suit ≡ s) fs
suits_same s [] h = tt
suits_same s (f ∷ fs) (e, h) = (suit_index-eq s f.suit e, suits_same s fs h)

pub suit_of_count :
    (fs : List Face) → leb (suit_count fs) 1 ≡ true → (s : Suit) × All (λ f. f.suit ≡ s) fs
suit_of_count [] h = (spades, tt)
suit_of_count (f ∷ fs) h = (
  f.suit,
  (
    refl,
    suits_same f.suit fs (
        All-set_size ◌==◌ ==_iff (suit_index f.suit) (map (λ g. suit_index g.suit) fs)
          (ground arith)),
  ),
)

All-sym : (r : ℕ) (rs : List ℕ) → All (λ y. r ≡ y) rs → All (λ y. y ≡ r) rs
All-sym r [] h = tt
All-sym r (x ∷ xs) (e, h) = (sym e, All-sym r xs h)

ranks_same :
    (r : ℕ) (fs : List Face) → All (λ y. y ≡ r) (map low_rank fs) → All (λ f. low_rank f ≡ r) fs
ranks_same r [] h = tt
ranks_same r (f ∷ fs) (e, h) = (e, ranks_same r fs h)

same_of_count : (rs : List ℕ) → set_size ◌==◌ rs ≤ 1 → (r : ℕ) × All (λ y. y ≡ r) rs
same_of_count [] h = (0, tt)
same_of_count (r ∷ rs) h = (r, (refl, All-sym r rs (All-set_size ◌==◌ ==_iff r rs h)))

pub rank_of_count :
    (fs : List Face)
    → leb (set_size ◌==◌ (sort_numbers (map low_rank fs))) 1 ≡ true
    → (r : ℕ) × All (λ f. low_rank f ≡ r) fs
rank_of_count fs h =
    let (r, same) = same_of_count (sort_numbers (map low_rank fs)) (leb→le _ 1 h) in
    (r, ranks_same r fs (All-sort_by (λ y. y ≡ r) leb (map low_rank fs) same))

pub tunnela_of_faces :
    (cards : List MarriageCard) (fs : List Face)
    → faces_of cards ≡ fs
    → all (λ c. is_standard c.kind) cards ≡ true
    → all_same_face fs ≡ true
    → (f : Face) × All (λ c. c.kind ≡ standard f) cards
tunnela_of_faces cards [] e natural same =
    let f : Face = record { rank = 0; suit = spades } in
    (f, standard_face f cards natural (rw e tt))
tunnela_of_faces cards (f ∷ fs) e natural same =
    (f, standard_face f cards natural (rw e (all_face f (f ∷ fs) same)))

pub pure_of_faces : (fs : List Face) → one_suit fs ≡ true → (s : Suit) × All (λ f. f.suit ≡ s) fs
pure_of_faces [] h = (spades, tt)
pure_of_faces (f ∷ fs) h = (f.suit, all_suit f.suit (f ∷ fs) h)

pub reading_of_any :
    (p : List ℕ → Bool) (fs : List Face)
    → any (λ v. p (sort_numbers (map v fs))) orders ≡ true
    → (v : Face → ℕ) × Reads v × (p (sort_numbers (map v fs)) ≡ true)
reading_of_any p fs h = elim (Bool-cases (p (sort_numbers (map low_rank fs)))) [
  | inl e ↦ (low_rank, inl refl, e)
  | inr e ↦ (raw_rank, inr refl, ground arith)
]

pub length-suits : (fs : List Face) → length (map (λ f. suit_index f.suit) fs) ≡ length fs
length-suits [] = refl
length-suits (f ∷ fs) = omega (arith, length-suits fs)

pub length-ids : (cs : List MarriageCard) → length (ids_of cs) ≡ length cs
length-ids [] = refl
length-ids (c ∷ cs) = omega (arith, length-ids cs)
