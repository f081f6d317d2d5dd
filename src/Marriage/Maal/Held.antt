-- ===== src/Marriage/Maal/Held.antt =====
-- The allocation of a hand's cards to a plan lacks what the search counts, so `maal_progress` names a
-- plan that lacks fewest cards.
use mathlib.Core.Path.{subst, fun_ext}
use bhidne_ho.Prelude.{
  ◌==◌, ==_iff, ℕ, suc, ◌+◌, ◌-◌, ◌≤◌, ◌<◌, Bool, String, List, [], ◌∷◌, ◌≡◌, ◌∙◌, refl, ap, arith,
  length, All, Bool-cases, ◌⊎◌, inl, inr, Among,
}
use bhidne_ho.Marriage.{MeldType, MarriageCard}
use bhidne_ho.Marriage.Maal.{
  Pattern, times, bump, Buckets, MaalGroup, put_rest, hold, lack, fill, allocate, missing_in,
  patterns, nearest, card_buckets, summary, maal_progress,
}
use bhidne_ho.Marriage.Maal.Missing.{lacks, lacks-same, lacks-bump, lacks-le_sum}
use bhidne_ho.Marriage.Maal.Nearest.{wanted, IsPlan, nearest-IsNearest, patterns-Inside, All-map}

abbrev counts : Buckets → ℕ → ℕ
counts remaining i = length (remaining i)

abbrev more : ℕ → List ℕ → (ℕ → ℕ) → ℕ → ℕ
more f fs r i = r i + times i (f ∷ fs)

abbrev after_fill : MaalGroup × Buckets → (ℕ → ℕ) → ℕ
after_fill (g, remaining) r = length g.missing + lacks (counts remaining) r

after_fill-lack :
    (f : ℕ) (x : MaalGroup × Buckets) (r : ℕ → ℕ) → after_fill (lack f x) r ≡ suc (after_fill x r)
after_fill-lack f (g, remaining) r = omega arith

after_fill-hold :
    (c : MarriageCard) (x : MaalGroup × Buckets) (r : ℕ → ℕ)
    → after_fill (hold c x) r ≡ after_fill x r
after_fill-hold c (g, remaining) r = refl

-- One card more of a face is wanted where the hand has none left, and where it has one.
lacks-none_left :
    (remaining : Buckets) (f : ℕ) (r : ℕ → ℕ)
    → f < 52
    → remaining f ≡ []
    → lacks (counts remaining) (bump f r) ≡ suc (lacks (counts remaining) r)
lacks-none_left remaining f r l e =
    let n : length (remaining f) ≡ 0 = ap length e in
    let b = lacks-bump (counts remaining) r f l in ground arith

lacks-one_left :
    (remaining : Buckets) (f : ℕ) (r : ℕ → ℕ) (c : MarriageCard) (cs : List MarriageCard)
    → remaining f ≡ c ∷ cs
    → lacks (counts remaining) (bump f r) ≡ lacks (counts (put_rest f cs remaining)) r
lacks-one_left remaining f r c cs e =
    lacks-same (counts remaining) (counts (put_rest f cs remaining)) (bump f r) r each
  where
    each : (i : ℕ) → bump f r i - counts remaining i ≡ r i - counts (put_rest f cs remaining) i
    each i = elim (Bool-cases (i == f)) [
      | inl h ↦
          let n : counts remaining i ≡ suc (length cs) =
            ap (counts remaining) ((==_iff i f).0 h) ∙ ap length e in
          ground arith
      | inr h ↦ ground arith
    ]

pub List-cases :
    {A : Type 0} → (xs : List A) → (xs ≡ []) ⊎ ((y : A) × (ys : List A) × (xs ≡ y ∷ ys))
List-cases [] = inl refl
List-cases (x ∷ xs) = inr (x, xs, refl)

-- The first face of a list wanted, and then the others.
lacks-first :
    (have : ℕ → ℕ) (f : ℕ) (fs : List ℕ) (r : ℕ → ℕ)
    → lacks have (bump f (λ i. r i + times i fs)) ≡ lacks have (λ i. r i + times i (f ∷ fs))
lacks-first have f fs r = ap (lacks have) (fun_ext each)
  where
    each : (i : ℕ) → bump f (λ j. r j + times j fs) i ≡ r i + times i (f ∷ fs)
    each i = ground arith

fill-lacks :
    (kind : MeldType) (fs : List ℕ) (remaining : Buckets) (r : ℕ → ℕ)
    → All (λ f. f < 52) fs
    → after_fill (fill kind fs remaining) r ≡ lacks (counts remaining) (λ i. r i + times i fs)
unfolding fill
fill-lacks kind [] remaining r h =
    let none_more : lacks (counts remaining) r ≡ lacks (counts remaining) (λ i. r i + times i []) =
      lacks-same (counts remaining) (counts remaining) r _ (λ i. omega arith) in
    omega arith
fill-lacks kind (f ∷ fs) remaining r (l, h) = elim (List-cases (remaining f)) [
  | inl e ↦
      let first = after_fill-lack f (fill kind fs remaining) r in
      let rest = fill-lacks kind fs remaining r h in
      let one = lacks-none_left remaining f (λ i. r i + times i fs) l e in
      let all_faces = lacks-first (counts remaining) f fs r in rw (fill, e) (omega arith)
  | inr (c, cs, e) ↦
      let first = after_fill-hold c (fill kind fs (put_rest f cs remaining)) r in
      let rest = fill-lacks kind fs (put_rest f cs remaining) r h in
      let one = lacks-one_left remaining f (λ i. r i + times i fs) c cs e in
      let all_faces = lacks-first (counts remaining) f fs r in rw (fill, e) (omega arith)
]

allocate-lacks :
    (ps : List Pattern) (remaining : Buckets)
    → All (λ p. All (λ f. f < 52) p.faces) ps
    → missing_in (allocate ps remaining) ≡ lacks (counts remaining) (wanted ps)
unfolding allocate
allocate-lacks [] remaining h = omega (arith, lacks-le_sum (counts remaining) (wanted []))
allocate-lacks (p ∷ ps) remaining (inside, h) =
    let (g, remaining') = fill p.kind p.faces remaining in
    let first = fill-lacks p.kind p.faces remaining (wanted ps) inside in
    let rest = allocate-lacks ps remaining' h in
    let both =
      lacks-same (counts remaining) (counts remaining) (λ i. wanted ps i + times i p.faces)
        (wanted (p ∷ ps)) (λ i. omega arith) in
    omega arith

plan-inside :
    (ps xs : List Pattern)
    → All (λ p. All (λ f. f < 52) p.faces) xs
    → All (λ p. Among p xs) ps
    → All (λ p. All (λ f. f < 52) p.faces) ps
plan-inside ps xs inside h = All-map (λ p a. of_among xs p inside a) ps h
  where
    of_among :
        (qs : List Pattern) (p : Pattern)
        → All (λ q. All (λ f. f < 52) q.faces) qs
        → Among p qs
        → All (λ f. f < 52) p.faces
    of_among [] p i a = absurd a
    of_among (q ∷ qs) p (i, is) (inl same) =
        subst (λ (z : Pattern). All (λ f. f < 52) z.faces) same i
    of_among (q ∷ qs) p (i, is) (inr a) = of_among qs p is a

IsPlan-lacks :
    (remaining : Buckets) (sel : List Pattern)
    → IsPlan sel
    → missing_in (allocate sel remaining) ≡ lacks (counts remaining) (wanted sel)
IsPlan-lacks remaining sel (len, among, fit) =
    allocate-lacks sel remaining
      (plan-inside sel patterns (patterns-Inside (counts remaining)) among)

-- The first part of the progress of any hand is the allocation of a plan: three sequences or tunnelas
-- that three decks have the cards for. Its number of missing cards is at most the number that the
-- allocation to any other plan leaves missing, however that plan is ordered.
pub maal_progress-IsNearest :
    (before : String → String → Bool) (hand : List MarriageCard)
    → let (normal, dublee) = maal_progress before hand in
      let buckets = card_buckets before hand in
      (plan : List Pattern) × IsPlan plan
      × (normal.groups ≡ allocate plan buckets)
      × ((sel : List Pattern) → IsPlan sel → normal.missing ≤ missing_in (allocate sel buckets))
unfolding maal_progress summary
maal_progress-IsNearest before hand =
    let buckets = card_buckets before hand in
    let (plan, is_cost, least) = nearest-IsNearest (counts buckets) in
    let cost = IsPlan-lacks buckets (nearest (counts buckets)).best plan in
    (
      (nearest (counts buckets)).best,
      plan,
      refl,
      λ sel h. let bound = least sel h in let other = IsPlan-lacks buckets sel h in omega arith,
    )
