-- ===== src/Marriage/Maal/Choices/Complete.antt =====
-- maalChoices lists exactly the qualifications that the hand's natural cards allow.
use mathlib.Core.Path.{subst}
use bhidne_ho.Prelude.{
  ℕ, ◌≤◌, Bool, true, false, String, List, [], ◌∷◌, ◌≡◌, ◌∙◌, ◌↔◌, refl, sym, ap, arith, map, leb,
  all, All, length, Among, Bool-cases, inl, inr, ◌⊎◌,
}
use bhidne_ho.Marriage.{MarriageCard, MarriageMeld}
use bhidne_ho.Marriage.Wins.Pushed.{Among-append_left, Among-append_right}
use bhidne_ho.Marriage.Maal.{Pattern, patterns, times, range, Buckets, card_buckets}
use bhidne_ho.Marriage.Maal.Nearest.{all-All, All-map}
use bhidne_ho.Marriage.Maal.Choices.{
  Route, normal_route, dublee_route, MaalChoice, next, visit, candidates, copies_for, may_hold,
  pair_at, same_pattern, maal_choices,
}
use bhidne_ho.Marriage.Maal.Choices.Each.{
  Chosen, done, taken, passed, Held, Reaches, visit-IsRight, Among-append,
}

data Sub : List Pattern → List Pattern → Type 0 where
  empty : Sub [] []
  keep : {p : Pattern} {ps qs : List Pattern} → Sub ps qs → Sub (p ∷ ps) (p ∷ qs)
  leave : {p : Pattern} {ps qs : List Pattern} → Sub ps qs → Sub ps (p ∷ qs)

Sub-next :
    (repeat : Bool) (p : Pattern) (ps qs : List Pattern)
    → Sub ps qs
    → Sub (next repeat p ps) (next repeat p qs)
Sub-next true p ps qs s = keep s
Sub-next false p ps qs s = s

Chosen-Sub :
    (repeat : Bool) (ps qs sel : List Pattern)
    → Chosen repeat ps sel
    → Sub ps qs
    → Chosen repeat qs sel
Chosen-Sub repeat ps qs [] picks s = done
Chosen-Sub repeat [] qs (q ∷ sel) picks s = elim picks [ ]
Chosen-Sub repeat (p ∷ ps) [] (q ∷ sel) picks s = elim s [ ]
Chosen-Sub repeat ps (q ∷ qs) sel picks (leave s) = passed (Chosen-Sub repeat ps qs sel picks s)
Chosen-Sub repeat (p ∷ ps) (p' ∷ qs) (p'' ∷ sel) (taken picks) (keep s) =
    taken (
      Chosen-Sub repeat (next repeat p ps) (next repeat p qs) sel picks (Sub-next repeat p ps qs s))
Chosen-Sub repeat (p ∷ ps) (p' ∷ qs) sel (passed picks) (keep s) =
    passed (Chosen-Sub repeat ps qs sel picks s)

Chosen-cases :
    (repeat : Bool) (q p : Pattern) (ps sel : List Pattern)
    → Chosen repeat (q ∷ ps) (p ∷ sel)
    → ((q ≡ p) × Chosen repeat (next repeat q ps) sel) ⊎ Chosen repeat ps (p ∷ sel)
Chosen-cases repeat q p ps sel (taken picks) = inl (refl, picks)
Chosen-cases repeat q p ps sel (passed picks) = inr picks

on_next :
    (repeat : Bool) (p : Pattern) (ps qs sel : List Pattern)
    → (Chosen repeat (p ∷ ps) sel → Chosen repeat (p ∷ qs) sel)
    → (Chosen repeat ps sel → Chosen repeat qs sel)
    → Chosen repeat (next repeat p ps) sel
    → Chosen repeat (next repeat p qs) sel
on_next true p ps qs sel again onward = again
on_next false p ps qs sel again onward = onward

module _ {A : Type 0} (make : A → Pattern) (test : A → Bool) where
  candidates-Sub : (xs : List A) → Sub (candidates make test xs) (map make xs)
  unfolding candidates
  candidates-Sub [] = empty
  candidates-Sub (x ∷ xs) = elim (Bool-cases (test x)) [
    | inl e ↦ rw (candidates, e) (keep (candidates-Sub xs))
    | inr e ↦ rw (candidates, e) (leave (candidates-Sub xs))
  ]

  module _ (Fits : Pattern → Type 0) where
    passing :
        (repeat : Bool) (xs : List A) (sel : List Pattern)
        → All (λ x. Fits (make x) → test x ≡ true) xs
        → All Fits sel
        → Chosen repeat (map make xs) sel
        → Chosen repeat (candidates make test xs) sel
    unfolding candidates
    passing repeat xs [] h k picks = done
    passing repeat [] (p ∷ sel) h k picks = elim picks [ ]
    passing repeat (x ∷ xs) (p ∷ sel) h (f, k) picks =
        elim (Chosen-cases repeat (make x) p (map make xs) sel picks) [
          | inl (same, rest) ↦
              let e : test x ≡ true = h.0 (subst Fits (sym same) f) in
              subst (λ q. Chosen repeat (candidates make test (x ∷ xs)) (q ∷ sel)) same
                (rw (candidates, e)
                  (taken (
                    on_next repeat (make x) (map make xs) (candidates make test xs) sel
                      (λ c. rw (candidates, e) at (passing repeat (x ∷ xs) sel h k c))
                      (passing repeat xs sel h.1 k) rest)))
          | inr rest ↦
              let later = passing repeat xs (p ∷ sel) h.1 (f, k) rest in
              elim (Bool-cases (test x)) [
                | inl e ↦ rw (candidates, e) (passed later)
                | inr e ↦ rw (candidates, e) later
              ]
        ]

-- A tunnela asks for three cards of each of its faces.
abbrev asks : Pattern → Bool
asks p = all (λ f. leb (copies_for p.kind) (times f p.faces)) p.faces

patterns_ask : all asks patterns ≡ true
unfolding patterns mathlib.Core.List.flat_map
patterns_ask = refl

all-le :
    (n : ℕ) (fs : List ℕ) (g h : ℕ → ℕ)
    → ((i : ℕ) → g i ≤ h i)
    → all (λ f. leb n (g f)) fs ≡ true
    → all (λ f. leb n (h f)) fs ≡ true
all-le n [] g h k e = refl
all-le n (f ∷ fs) g h k e =
    let low = k f in
    let rest : all (λ f. leb n (g f)) fs ≡ true = ground arith in
    let later = all-le n fs g h k rest in ground arith

may_hold_lem :
    (buckets : Buckets) → All (λ p. Held (p ∷ []) buckets → may_hold buckets p ≡ true) patterns
may_hold_lem buckets =
    All-map
      (λ p e held.
        all-le (copies_for p.kind) p.faces (λ f. times f p.faces) (λ f. length (buckets f))
          (λ i. let k = held i in omega arith) e)
      patterns (all-All asks patterns patterns_ask)

Held-each :
    (buckets : Buckets) (sel : List Pattern)
    → Held sel buckets
    → All (λ p. Held (p ∷ []) buckets) sel
Held-each buckets [] held = tt
Held-each buckets (p ∷ sel) held = (
  (λ i. let k = held i in omega arith),
  Held-each buckets sel (λ i. let k = held i in omega arith),
)

each_pair :
    (buckets : Buckets) (fs : List ℕ)
    → All (λ f. Held (pair_at f ∷ []) buckets → leb 2 (length (buckets f)) ≡ true) fs
each_pair buckets [] = tt
each_pair buckets (f ∷ fs) = ((λ held. let k = held f in ground arith), each_pair buckets fs)

-- Groups filled from the hand by patterns of the list, in its order.
abbrev pub Allows : Bool → ℕ → List Pattern → Buckets → List MarriageMeld → Type 0
Allows repeat n ps buckets = Reaches repeat n ps [] buckets

module _ {A : Type 0} (make : A → Pattern) (test : A → Bool) (xs : List A) (buckets : Buckets) where
  visit-Allows :
      (repeat : Bool) (n : ℕ) (groups : List MarriageMeld)
      → All (λ x. Held (make x ∷ []) buckets → test x ≡ true) xs
      → Among groups (visit repeat n (candidates make test xs) [] buckets)
        ↔ Allows repeat n (map make xs) buckets groups
  visit-Allows repeat n groups h =
      let (there, back) = visit-IsRight repeat n (candidates make test xs) [] buckets groups in
      (
        (λ a.
            let (sel, picks, len, held, e) = there a in
            (sel, Chosen-Sub repeat _ _ sel picks (candidates-Sub make test xs), len, held, e)),
        λ (sel, picks, len, held, e). back (
          sel,
          passing make test (λ p. Held (p ∷ []) buckets) repeat xs sel h
              (Held-each buckets sel held) picks,
          len,
          held,
          e,
        ),
      )

module _ (route : Route) where
  abbrev routed : List MarriageMeld → MaalChoice
  routed groups = record { route = route; groups = groups }

  Among-routed :
      (c : MaalChoice) (all_groups : List (List MarriageMeld))
      → Among c (map routed all_groups) ↔ ((c.route ≡ route) × Among c.groups all_groups)
  Among-routed c [] = ((λ h. absurd h), λ (e, h). h)
  Among-routed c (gs ∷ rest) =
      let (there, back) = Among-routed c rest in
      (
        (λ h. elim h [
          | inl same ↦ (
            sym (ap (λ (z : MaalChoice). z.route) same),
            inl (ap (λ (z : MaalChoice). z.groups) same),
          )
          | inr later ↦ let (e, k) = there later in (e, inr k)
        ]),
        λ (e, h). elim h [
          | inl same ↦ inl (ap routed same ∙ ap (λ r. record c { route = r }) (sym e))
          | inr later ↦ inr (back (e, later))
        ],
      )

-- On the normal route three sequences or tunnelas, each as often as wanted; on the other seven pairs of
-- different faces.
abbrev pub IsAllowed : Buckets → MaalChoice → Type 0
IsAllowed buckets c =
    ((c.route ≡ normal_route) × Allows true 3 (map same_pattern patterns) buckets c.groups)
    ⊎ ((c.route ≡ dublee_route) × Allows false 7 (map pair_at (range 52)) buckets c.groups)

-- A choice is listed exactly when it is a qualification that the hand's natural cards allow: on the
-- normal route three of the sequences and tunnelas, on the dublee route seven different pairs, in the
-- order of the faces, with enough cards of every face for all of them together. Its groups are the
-- cards that filling these patterns one after the other from the sorted hand gives.
pub maal_choices-IsAllowed_iff :
    (before : String → String → Bool) (hand : List MarriageCard) (choice : MaalChoice)
    → Among choice (maal_choices before hand) ↔ IsAllowed (card_buckets before hand) choice
unfolding maal_choices
maal_choices-IsAllowed_iff before hand choice =
    let buckets = card_buckets before hand in
    let two : ℕ → Bool = λ f. leb 2 (length (buckets f)) in
    let normals = visit true 3 (candidates same_pattern (may_hold buckets) patterns) [] buckets in
    let pairs = visit false 7 (candidates pair_at two (range 52)) [] buckets in
    let (by_normal, to_normal) = Among-routed normal_route choice normals in
    let (by_pairs, to_pairs) = Among-routed dublee_route choice pairs in
    let (from_normals, into_normals) =
      visit-Allows same_pattern (may_hold buckets) patterns buckets true 3 choice.groups
        (may_hold_lem buckets) in
    let (from_pairs, into_pairs) =
      visit-Allows pair_at two (range 52) buckets false 7 choice.groups
        (each_pair buckets (range 52)) in
    (
      (λ a. elim (Among-append choice (map (routed normal_route) normals) _ a) [
        | inl h ↦ let (e, k) = by_normal h in inl (e, from_normals k)
        | inr h ↦ let (e, k) = by_pairs h in inr (e, from_pairs k)
      ]),
      λ h. elim h [
        | inl (e, k) ↦ Among-append_left choice _ _ (to_normal (e, into_normals k))
        | inr (e, k) ↦
            Among-append_right choice (map (routed normal_route) normals) _
              (to_pairs (e, into_pairs k))
      ],
    )
