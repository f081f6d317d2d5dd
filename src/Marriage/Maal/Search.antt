-- ===== src/Marriage/Maal/Search.antt =====
-- The search with its pruning gives a plan that lacks fewest cards.
use mathlib.Core.Path.{subst}
use bhidne_ho.Prelude.{
  ℕ, zero, suc, ◌+◌, ◌≤◌, ◌<◌, Bool, true, false, List, [], ◌∷◌, ◌++◌, ◌≡◌, ◌∙◌, refl, sym, ap,
  arith, leb, length, All, Bool-cases, inl, inr, ◌⊎◌, if◌then◌else◌,
}
use mathlib.Core.List.{append_assoc, append-nil}
use bhidne_ho.Marriage.Maal.{Pattern, require, first_step, Best, each_pattern, search_plans}
use bhidne_ho.Marriage.Maal.Missing.{lacks, lacks-le, Fits, add_pattern, require_lem}

-- Patterns of the list in its order, each as often as wanted.
pub data Picks : List Pattern → List Pattern → Type 0 where
  done : {ps : List Pattern} → Picks ps []
  taken : {p : Pattern} {ps sel : List Pattern} → Picks (p ∷ ps) sel → Picks (p ∷ ps) (p ∷ sel)
  passed : {p : Pattern} {ps sel : List Pattern} → Picks ps sel → Picks (p ∷ ps) sel

-- The numbers required with the patterns of a list more.
abbrev pub add_patterns : (ℕ → ℕ) → List Pattern → ℕ → ℕ
add_patterns required [] = required
add_patterns required (p ∷ ps) = add_patterns (add_pattern required p) ps

pub required-le : (r : ℕ → ℕ) (ps : List Pattern) (i : ℕ) → r i ≤ add_patterns r ps i
required-le r [] i = omega arith
required-le r (p ∷ ps) i = omega (arith, required-le (add_pattern r p) ps i)

if_true : {A : Type 0} → (c : Bool) (x y : A) → c ≡ true → (if c then x else y) ≡ x
if_true c x y h = rw h refl

if_false : {A : Type 0} → (c : Bool) (x y : A) → c ≡ false → (if c then x else y) ≡ y
if_false c x y h = rw h refl

module _ (have : ℕ → ℕ) where
  -- Patterns of the list that can be added to those required.
  abbrev pub Adds : ℕ → List Pattern → (ℕ → ℕ) → List Pattern → Type 0
  Adds n ps r sel = Picks ps sel × (length sel ≡ n) × Fits (add_patterns r sel)

  -- The plan is the old one, or it is the patterns chosen and some more, with its cost.
  abbrev pub Extends : ℕ → List Pattern → List Pattern → (ℕ → ℕ) → Best → Best → Type 0
  Extends n ps chosen r b b' =
      (b' ≡ b)
      ⊎ ((sel : List Pattern) × Adds n ps r sel
          × (b'.best ≡ chosen ++ sel)
          × (b'.best_cost ≡ lacks have (add_patterns r sel)))

  abbrev pub Improves : ℕ → List Pattern → List Pattern → (ℕ → ℕ) → Best → Best → Type 0
  Improves n ps chosen r b b' =
      (b'.best_cost ≤ b.best_cost)
      × Extends n ps chosen r b b'
      × ((sel : List Pattern) → Adds n ps r sel → b'.best_cost ≤ lacks have (add_patterns r sel))

  abbrev pub Inside : List Pattern → Type 0
  Inside = All (λ p. All (λ f. f < 52) p.faces)

  -- A call of the search for `n` patterns more is right.
  abbrev pub IsRight : ℕ → (List Pattern → List Pattern → ℕ → (ℕ → ℕ) → Best → Best) → Type 0
  IsRight n call =
      (ps chosen : List Pattern) (missing : ℕ) (r : ℕ → ℕ) (b : Best)
      → Inside ps
      → Fits r
      → missing ≡ lacks have r
      → Improves n ps chosen r b (call ps chosen missing r b)

  -- No plan is cheaper than what is required already.
  pruned :
      (n : ℕ) (ps chosen : List Pattern) (missing : ℕ) (r : ℕ → ℕ) (b : Best)
      → missing ≡ lacks have r
      → leb b.best_cost missing ≡ true
      → Improves n ps chosen r b b
  pruned n ps chosen missing r b e h = (
    omega arith,
    inl refl,
    λ sel add. let bound = lacks-le have r (add_patterns r sel) (required-le r sel) in ground arith,
  )

  Extends-passed :
      (n : ℕ) (p : Pattern) (ps chosen : List Pattern) (r : ℕ → ℕ) (b b' : Best)
      → Extends n ps chosen r b b'
      → Extends n (p ∷ ps) chosen r b b'
  Extends-passed n p ps chosen r b b' (inl e) = inl e
  Extends-passed n p ps chosen r b b' (inr (sel, (picks, len, fit), e, c)) =
      inr (sel, (passed picks, len, fit), e, c)

  Extends-taken :
      (n : ℕ) (p : Pattern) (ps chosen : List Pattern) (r : ℕ → ℕ) (b b' : Best)
      → Extends n (p ∷ ps) (chosen ++ p ∷ []) (add_pattern r p) b b'
      → Extends (suc n) (p ∷ ps) chosen r b b'
  Extends-taken n p ps chosen r b b' (inl e) = inl e
  Extends-taken n p ps chosen r b b' (inr (sel, (picks, len, fit), e, c)) =
      inr (p ∷ sel, (taken picks, omega arith, fit), e ∙ append_assoc chosen (p ∷ []) sel, c)

  Extends-trans :
      (n : ℕ) (ps chosen : List Pattern) (r : ℕ → ℕ) (a b c : Best)
      → Extends n ps chosen r a b
      → Extends n ps chosen r b c
      → Extends n ps chosen r a c
  Extends-trans n ps chosen r a b c h (inr k) = inr k
  Extends-trans n ps chosen r a b c (inl h) (inl k) = inl (k ∙ h)
  Extends-trans n ps chosen r a b c (inr (sel, add, e, f)) (inl k) =
      inr (sel, add, ap (λ (z : Best). z.best) k ∙ e, ap (λ (z : Best). z.best_cost) k ∙ f)

  -- The plans that begin with the pattern, and those that pass it.
  both_ways :
      (n : ℕ) (p : Pattern) (ps chosen : List Pattern) (r : ℕ → ℕ) (b b' b'' : Best)
      → Improves n (p ∷ ps) (chosen ++ p ∷ []) (add_pattern r p) b b'
      → Improves (suc n) ps chosen r b' b''
      → Improves (suc n) (p ∷ ps) chosen r b b''
  both_ways n p ps chosen r b b' b'' (le, ext, least) (le', ext', least') = (
    omega arith,
    Extends-trans (suc n) (p ∷ ps) chosen r b b' b'' (Extends-taken n p ps chosen r b b' ext)
        (Extends-passed (suc n) p ps chosen r b' b'' ext'),
    each,
  )
    where
      each :
          (sel : List Pattern)
          → Adds (suc n) (p ∷ ps) r sel
          → b''.best_cost ≤ lacks have (add_patterns r sel)
      each [] (picks, len, fit) = absurd (omega arith)
      each (q ∷ sel) (taken picks, len, fit) =
          let bound = least sel (picks, omega arith, fit) in omega arith
      each (q ∷ sel) (passed picks, len, fit) = least' (q ∷ sel) (picks, len, fit)

  -- A pattern that does not fit begins no plan.
  only_passed :
      (n : ℕ) (p : Pattern) (ps chosen : List Pattern) (r : ℕ → ℕ) (b b' : Best)
      → ¬ Fits (add_pattern r p)
      → Improves (suc n) ps chosen r b b'
      → Improves (suc n) (p ∷ ps) chosen r b b'
  only_passed n p ps chosen r b b' unfit (le, ext, least) =
      (le, Extends-passed (suc n) p ps chosen r b b' ext, each)
    where
      each :
          (sel : List Pattern)
          → Adds (suc n) (p ∷ ps) r sel
          → b'.best_cost ≤ lacks have (add_patterns r sel)
      each [] (picks, len, fit) = absurd (omega arith)
      each (q ∷ sel) (taken picks, len, fit) = absurd (
          unfit
            λ i. let up = required-le (add_pattern r p) sel i in let bound = fit i in omega arith)
      each (q ∷ sel) (passed picks, len, fit) = least (q ∷ sel) (picks, len, fit)

  each_pattern-Improves :
      (n : ℕ) (call : List Pattern → List Pattern → ℕ → (ℕ → ℕ) → Best → Best)
      (ps chosen : List Pattern) (missing : ℕ) (r : ℕ → ℕ) (b : Best)
      → IsRight n call
      → Inside ps
      → Fits r
      → missing ≡ lacks have r
      → Improves (suc n) ps chosen r b (each_pattern have call ps chosen missing r b)
  unfolding each_pattern
  each_pattern-Improves n call [] chosen missing r b right inside fit e =
      (omega arith, inl refl, no_plan)
    where
      no_plan :
          (sel : List Pattern)
          → Adds (suc n) [] r sel
          → b.best_cost ≤ lacks have (add_patterns r sel)
      no_plan [] (picks, len, h) = absurd (omega arith)
      no_plan (q ∷ sel) (picks, len, h) = no_pick picks
        where
          no_pick : Picks [] (q ∷ sel) → b.best_cost ≤ lacks have (add_patterns r (q ∷ sel))
          no_pick h = elim h [ ]
  each_pattern-Improves n call (p ∷ ps) chosen missing r b right (here, inside) fit e =
      let s = require have p.faces (first_step r) in
      let (counts, extra, valid) = require_lem have r p here fit in
      let b' = call (p ∷ ps) (chosen ++ p ∷ []) (missing + s.extra) s.required b in
      let next_is : Best → Type 0 =
        λ z. Improves (suc n) (p ∷ ps) chosen r b (each_pattern have call ps chosen missing r z) in
      elim (Bool-cases s.valid) [
        | inr unfit ↦
            let not_fit : ¬ Fits (add_pattern r p) =
              λ f. let v = valid.1 (subst Fits (sym counts) f) in ground arith in
            subst next_is (sym (if_false s.valid b' b unfit)) (
              only_passed n p ps chosen r b _ not_fit
                (each_pattern-Improves n call ps chosen missing r b right inside fit e))
        | inl fits ↦
            let found =
              right (p ∷ ps) (chosen ++ p ∷ []) (missing + s.extra) s.required b (here, inside)
                (valid.0 fits) (omega arith) in
            let found' = subst (λ q. Improves n (p ∷ ps) (chosen ++ p ∷ []) q b b') counts found in
            subst next_is (sym (if_true s.valid b' b fits)) (
              both_ways n p ps chosen r b b' _ found'
                (each_pattern-Improves n call ps chosen missing r b' right inside fit e))
      ]

  pub search_plans-IsRight : (n : ℕ) → IsRight n (search_plans have n)
  unfolding search_plans
  search_plans-IsRight zero ps chosen missing r b inside fit e =
      elim (Bool-cases (leb b.best_cost missing)) [
        | inl h ↦ rw (search_plans, h) (pruned 0 ps chosen missing r b e h)
        | inr h ↦
            rw (search_plans, h)
              (ground arith, inr ([], (done, refl, fit), sym (append-nil chosen), e), whole)
      ]
    where
      whole : (sel : List Pattern) → Adds 0 ps r sel → missing ≤ lacks have (add_patterns r sel)
      whole [] add = omega arith
      whole (q ∷ sel) (picks, len, f) = absurd (omega arith)
  search_plans-IsRight (suc n) ps chosen missing r b inside fit e =
      elim (Bool-cases (leb b.best_cost missing)) [
        | inl h ↦ rw (search_plans, h) (pruned (suc n) ps chosen missing r b e h)
        | inr h ↦
            rw (search_plans, h)
              (each_pattern-Improves n (search_plans have n) ps chosen missing r b
                (search_plans-IsRight n) inside fit e)
      ]
