-- ===== src/Marriage/Maal/Choices/Taken.antt =====
-- Taking the cards of a pattern, against filling its group.
use bhidne_ho.Prelude.{
  ℕ, suc, ◌-◌, ◌≤◌, none, some, List, [], ◌∷◌, ◌≡◌, ◌∙◌, ◌↔◌, ◌==◌, ==_iff, refl, sym, ap, arith,
  length, inl, inr, Bool-cases,
}
use bhidne_ho.Marriage.{MarriageCard, MeldType}
use bhidne_ho.Marriage.Maal.{times, Buckets, MaalGroup, put_rest, hold, lack, fill}
use bhidne_ho.Marriage.Maal.Held.{List-cases}
use bhidne_ho.Marriage.Maal.Choices.{take_cards, put_first}

-- There is a card for each of the faces.
abbrev pub Enough : List ℕ → Buckets → Type 0
Enough fs remaining = (i : ℕ) → times i fs ≤ length (remaining i)

abbrev pub held_of : MaalGroup × Buckets → List MarriageCard × Buckets
held_of (g, remaining) = (g.held, remaining)

abbrev pub left : MaalGroup × Buckets → Buckets
left (g, remaining) = remaining

held_of-hold :
    (c : MarriageCard) (x : MaalGroup × Buckets) → held_of (hold c x) ≡ put_first c (held_of x)
held_of-hold c (g, remaining) = refl

left-hold : (c : MarriageCard) (x : MaalGroup × Buckets) → left (hold c x) ≡ left x
left-hold c (g, remaining) = refl

Enough-first :
    (f : ℕ) (fs : List ℕ) (remaining : Buckets) (c : MarriageCard) (cs : List MarriageCard)
    → remaining f ≡ c ∷ cs
    → Enough (f ∷ fs) remaining ↔ Enough fs (put_rest f cs remaining)
Enough-first f fs remaining c cs e =
    let n : length (remaining f) ≡ suc (length cs) = ap length e in
    (
      (λ h i. elim (Bool-cases (i == f)) [
        | inl same ↦
            let k = h f in let back = ap (λ j. times j fs) ((==_iff i f).0 same) in ground arith
        | inr other ↦ let k = h i in ground arith
      ]),
      λ h i. elim (Bool-cases (i == f)) [
        | inl same ↦
            let k = h i in
            let back = ap (λ j. length (remaining j)) ((==_iff i f).0 same) in ground arith
        | inr other ↦ let k = h i in ground arith
      ],
    )

first_counted :
    (f : ℕ) (fs : List ℕ) (remaining : Buckets) (c : MarriageCard) (cs : List MarriageCard)
    → remaining f ≡ c ∷ cs
    → (i : ℕ)
    → length (put_rest f cs remaining i) - times i fs ≡ length (remaining i) - times i (f ∷ fs)
first_counted f fs remaining c cs e i =
    let n : length (remaining f) ≡ suc (length cs) = ap length e in
    elim (Bool-cases (i == f)) [
      | inl same ↦ let back = ap (λ j. length (remaining j)) ((==_iff i f).0 same) in ground arith
      | inr other ↦ ground arith
    ]

pub data Takes (kind : MeldType) (fs : List ℕ) (remaining : Buckets) : Type 0 where
  all_taken :
      Enough fs remaining
      → take_cards fs remaining ≡ some (held_of (fill kind fs remaining))
      → ((i : ℕ) → length (left (fill kind fs remaining) i) ≡ length (remaining i) - times i fs)
      → Takes kind fs remaining
  none_taken : ¬ Enough fs remaining → take_cards fs remaining ≡ none → Takes kind fs remaining

take_first :
    (kind : MeldType) (f : ℕ) (fs : List ℕ) (remaining : Buckets) (c : MarriageCard)
    (cs : List MarriageCard)
    → remaining f ≡ c ∷ cs
    → Takes kind fs (put_rest f cs remaining)
    → Takes kind (f ∷ fs) remaining
unfolding take_cards fill
take_first kind f fs remaining c cs e (all_taken enough same lens) =
    let there = fill kind fs (put_rest f cs remaining) in
    all_taken ((Enough-first f fs remaining c cs e).1 enough)
      (rw (take_cards, fill, e, same) (ap some (sym (held_of-hold c there))))
      (λ i.
        rw (fill, e)
          (ap (λ (b : Buckets). length (b i)) (left-hold c there)
            ∙ lens i
            ∙ first_counted f fs remaining c cs e i))
take_first kind f fs remaining c cs e (none_taken lacking same) =
    none_taken (λ h. lacking ((Enough-first f fs remaining c cs e).0 h))
      (rw (take_cards, e, same) refl)

pub takes : (kind : MeldType) (fs : List ℕ) (remaining : Buckets) → Takes kind fs remaining
unfolding take_cards fill
takes kind [] remaining = all_taken (λ i. omega arith) refl (λ i. omega arith)
takes kind (f ∷ fs) remaining = elim (List-cases (remaining f)) [
  | inl e ↦
      let n : length (remaining f) ≡ 0 = ap length e in
      none_taken (λ h. let k = h f in ground arith) (rw (take_cards, e) refl)
  | inr (c, cs, e) ↦ take_first kind f fs remaining c cs e (takes kind fs (put_rest f cs remaining))
]

abbrev pub group_kind : MaalGroup × Buckets → MeldType
group_kind (g, remaining) = g.kind

group_kind-hold :
    (c : MarriageCard) (x : MaalGroup × Buckets) → group_kind (hold c x) ≡ group_kind x
group_kind-hold c (g, remaining) = refl

group_kind-lack : (f : ℕ) (x : MaalGroup × Buckets) → group_kind (lack f x) ≡ group_kind x
group_kind-lack f (g, remaining) = refl

pub group_kind-fill :
    (kind : MeldType) (fs : List ℕ) (remaining : Buckets)
    → group_kind (fill kind fs remaining) ≡ kind
unfolding fill
group_kind-fill kind [] remaining = refl
group_kind-fill kind (f ∷ fs) remaining = elim (List-cases (remaining f)) [
  | inl e ↦
      rw (fill, e) (group_kind-lack f (fill kind fs remaining) ∙ group_kind-fill kind fs remaining)
  | inr (c, cs, e) ↦
      rw (fill, e)
        (group_kind-hold c (fill kind fs (put_rest f cs remaining))
          ∙ group_kind-fill kind fs (put_rest f cs remaining))
]
