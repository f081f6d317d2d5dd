-- ===== src/Marriage/Maal/Nearest.antt =====
-- The plan of `nearest` against every three patterns.
use bhidne_ho.Prelude.{
  ℕ, ◌+◌, ◌≤◌, ◌<◌, Bool, true, List, [], ◌∷◌, ◌≡◌, ◌∙◌, refl, sym, ap, arith, leb, ltb, length,
  all, All, Among, Bool-cases, inl, inr,
}
use mathlib.Core.List.{flat_map}
use mathlib.Core.Path.{fun_ext, subst}
use bhidne_ho.Marriage.Order.{insert, sort_by, sort_by-All}
use bhidne_ho.Marriage.Maal.{Pattern, times, patterns, sequence_at, cost, Best, nearest}
use bhidne_ho.Marriage.Maal.Missing.{lacks, lacks-le_sum, Fits, add_pattern}
use bhidne_ho.Marriage.Maal.Search.{
  Picks, done, taken, passed, add_patterns, Adds, Improves, Inside, search_plans-IsRight,
}

-- How often the patterns of a list ask for each face.
abbrev pub wanted : List Pattern → ℕ → ℕ
wanted [] i = 0
wanted (p ∷ ps) i = times i p.faces + wanted ps i

add_patterns-wanted :
    (r : ℕ → ℕ) (ps : List Pattern) (i : ℕ) → add_patterns r ps i ≡ r i + wanted ps i
add_patterns-wanted r [] i = omega arith
add_patterns-wanted r (p ∷ ps) i = omega (arith, add_patterns-wanted (add_pattern r p) ps i)

-- A selection in the order of the list that asks for the same cards.
abbrev Ordered : List Pattern → List Pattern → Type 0
Ordered ps sel =
    (sel' : List Pattern) × Picks ps sel'
    × (length sel' ≡ length sel)
    × ((i : ℕ) → wanted sel' i ≡ wanted sel i)

insert_pick :
    (p : Pattern) (ps sel : List Pattern) → Among p ps → Picks ps sel → Ordered ps (p ∷ sel)
insert_pick p [] sel a picks = absurd a
insert_pick p (q ∷ ps) sel (inl same) picks =
    (q ∷ sel, taken picks, refl, λ i. ap (λ (z : Pattern). times i z.faces + wanted sel i) same)
insert_pick p (q ∷ ps) [] (inr later) done =
    let (sel', picks, len, same) = insert_pick p ps [] later done in (sel', passed picks, len, same)
insert_pick p (q ∷ ps) (q' ∷ sel) (inr later) (taken picks) =
    let (sel', picks', len, same) = insert_pick p (q ∷ ps) sel (inr later) picks in
    (q ∷ sel', taken picks', omega arith, λ i. omega (arith, same i))
insert_pick p (q ∷ ps) sel (inr later) (passed picks) =
    let (sel', picks', len, same) = insert_pick p ps sel later picks in
    (sel', passed picks', len, same)

in_order : (ps sel : List Pattern) → All (λ p. Among p ps) sel → Ordered ps sel
in_order ps [] h = ([], done, refl, λ i. refl)
in_order ps (p ∷ sel) (a, h) =
    let (sel', picks, len, same) = in_order ps sel h in
    let (out, picks', len', same') = insert_pick p ps sel' a picks in
    (out, picks', omega arith, λ i. omega (arith, same i, same' i))

module _ {A : Type 0} (le : A → A → Bool) where
  Among-insert : (a x : A) (xs : List A) → Among x (a ∷ xs) → Among x (insert le a xs)
  unfolding insert
  Among-insert a x [] h = h
  Among-insert a x (y ∷ ys) h = elim (Bool-cases (le a y)) [
    | inl e ↦ rw (insert, e) h
    | inr e ↦ rw (insert, e) (passing (Among-insert a x ys) h)
  ]
    where
      passing :
          (Among x (a ∷ ys) → Among x (insert le a ys))
          → Among x (a ∷ y ∷ ys)
          → Among x (y ∷ insert le a ys)
      passing further (inl same) = inr (further (inl same))
      passing further (inr (inl same)) = inl same
      passing further (inr (inr later)) = inr (further (inr later))

  Among-sort_by : (x : A) (xs : List A) → Among x xs → Among x (sort_by le xs)
  unfolding sort_by
  Among-sort_by x [] h = h
  Among-sort_by x (y ∷ ys) (inl same) = Among-insert y x (sort_by le ys) (inl same)
  Among-sort_by x (y ∷ ys) (inr later) =
      Among-insert y x (sort_by le ys) (inr (Among-sort_by x ys later))

Picks-All : (P : Pattern → Type 0) (ps sel : List Pattern) → Picks ps sel → All P ps → All P sel
Picks-All P ps [] picks h = tt
Picks-All P [] (p' ∷ sel) picks h = elim picks [ ]
Picks-All P (p ∷ ps) (p' ∷ sel) (taken picks) (here, h) =
    (here, Picks-All P (p ∷ ps) sel picks (here, h))
Picks-All P (p ∷ ps) (p' ∷ sel) (passed picks) (here, h) = Picks-All P ps (p' ∷ sel) picks h

pub all-All :
    {A : Type 0} → (p : A → Bool) (xs : List A) → all p xs ≡ true → All (λ x. p x ≡ true) xs
all-All p [] h = tt
all-All p (x ∷ xs) h = (ground arith, all-All p xs (ground arith))

pub All-map :
    {A : Type 0} {P Q : A → Type 0} → ((x : A) → P x → Q x) → (xs : List A) → All P xs → All Q xs
All-map f [] h = tt
All-map f (x ∷ xs) (p, h) = (f x p, All-map f xs h)

each-Among : {A : Type 0} → (xs : List A) → All (λ x. Among x xs) xs
each-Among [] = tt
each-Among (x ∷ xs) = (inl refl, All-map (λ y a. inr a) xs (each-Among xs))

patterns-inside : all (λ p. all (λ f. ltb f 52) p.faces) patterns ≡ true
unfolding patterns mathlib.Core.List.flat_map
patterns-inside = refl

pub patterns-Inside : (have : ℕ → ℕ) → Inside have patterns
patterns-Inside have =
    All-map (λ p h. All-map (λ f k. ground arith) p.faces (all-All (λ f. ltb f 52) p.faces h))
      patterns (all-All (λ p. all (λ f. ltb f 52) p.faces) patterns patterns-inside)

-- Three sequences from the ace.
abbrev pub three_sequences : List Pattern
three_sequences = sequence_at 0 0 ∷ sequence_at 0 0 ∷ sequence_at 0 0 ∷ []

sequence-Among : Among (sequence_at 0 0) patterns
unfolding patterns mathlib.Core.List.flat_map
sequence-Among = inl refl

-- A choice of three patterns that three decks have the cards for.
abbrev pub IsPlan : List Pattern → Type 0
IsPlan sel = (length sel ≡ 3) × All (λ p. Among p patterns) sel × Fits (wanted sel)

pub three_sequences-IsPlan : IsPlan three_sequences
three_sequences-IsPlan =
    (refl, (sequence-Among, (sequence-Among, (sequence-Among, tt))), λ i. ground arith)

module _ (have : ℕ → ℕ) where
  abbrev by_cost : List Pattern
  by_cost = sort_by (λ p q. leb (cost have p) (cost have q)) patterns

  abbrev start : Best
  start = record { best_cost = 10; best = [] }

  abbrev none_yet : ℕ → ℕ
  none_yet i = 0

  -- The plan's cost is what it lacks, and no plan lacks less.
  abbrev pub IsNearest : Best → Type 0
  IsNearest b =
      IsPlan b.best
      × (b.best_cost ≡ lacks have (wanted b.best))
      × ((sel : List Pattern) → IsPlan sel → b.best_cost ≤ lacks have (wanted sel))

  none-lacking : 0 ≡ lacks have none_yet
  none-lacking = omega (arith, lacks-le_sum have none_yet)

  wanted-added : (sel : List Pattern) → add_patterns none_yet sel ≡ wanted sel
  wanted-added sel = fun_ext (λ i. omega (arith, add_patterns-wanted none_yet sel i))

  least_of_plans :
      (n : ℕ)
      → ((sel : List Pattern)
          → Adds have 3 by_cost none_yet sel
          → n ≤ lacks have (add_patterns none_yet sel))
      → (sel : List Pattern) → IsPlan sel
      → n ≤ lacks have (wanted sel)
  least_of_plans n least sel (len, among, fit) =
      let (sel', picks, len', same) = in_order by_cost sel (
        All-map (λ p a. Among-sort_by (λ p q. leb (cost have p) (cost have q)) p patterns a) sel
          among) in
      let as_wanted : add_patterns none_yet sel' ≡ wanted sel = wanted-added sel' ∙ fun_ext same in
      subst (λ r. n ≤ lacks have r) as_wanted
        (least sel' (picks, omega arith, subst Fits (sym as_wanted) fit))

  settled : (b : Best) → Improves have 3 by_cost [] none_yet start b → IsNearest b
  settled b (le, inl same, least) =
      let bound = least_of_plans b.best_cost least three_sequences three_sequences-IsPlan in
      let nine = lacks-le_sum have (wanted three_sequences) in
      let ten : b.best_cost ≡ 10 = ap (λ (z : Best). z.best_cost) same in absurd (omega arith)
  settled b (le, inr (sel, (picks, len, fit), is_sel, is_cost), least) =
      let among = sort_by-All (λ p. Among p patterns) _ patterns (each-Among patterns) in
      let plan : IsPlan sel = (
        len,
        Picks-All (λ p. Among p patterns) by_cost sel picks among,
        subst Fits (wanted-added sel) fit,
      ) in
      (
        subst IsPlan (sym is_sel) plan,
        is_cost ∙ ap (lacks have) (wanted-added sel ∙ ap wanted (sym is_sel)),
        least_of_plans b.best_cost least,
      )

  pub nearest-IsNearest : IsNearest (nearest have)
  unfolding nearest
  nearest-IsNearest = settled (nearest have) (
      search_plans-IsRight have 3 by_cost [] 0 none_yet start
        (sort_by-All (λ p. All (λ f. f < 52) p.faces) _ patterns (patterns-Inside have))
        (λ i. omega arith) none-lacking)
