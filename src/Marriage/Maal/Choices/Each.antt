-- ===== src/Marriage/Maal/Choices/Each.antt =====
-- What the enumeration of maalChoices visits.
use mathlib.Core.List.{append_assoc, append-nil}
use bhidne_ho.Prelude.{
  ℕ, zero, suc, ◌-◌, ◌≤◌, Bool, List, [], ◌∷◌, ◌++◌, ◌≡◌, ◌∙◌, ◌↔◌, refl, sym, ap, arith, map,
  length, Among, inl, inr, ◌⊎◌,
}
use bhidne_ho.Marriage.{MarriageMeld}
use bhidne_ho.Marriage.Wins.Pushed.{Among-append_left, Among-append_right}
use bhidne_ho.Marriage.Maal.{Pattern, times, Buckets, MaalGroup, fill, allocate}
use bhidne_ho.Marriage.Maal.Nearest.{wanted}
use bhidne_ho.Marriage.Maal.Choices.{meld_of, next, each_candidate, visit}
use bhidne_ho.Marriage.Maal.Choices.Taken.{
  all_taken, none_taken, takes, Enough, held_of, left, group_kind-fill,
}

-- Candidates of the list in its order, each once, or as often as wanted.
pub data Chosen (repeat : Bool) : List Pattern → List Pattern → Type 0 where
  done : {ps : List Pattern} → Chosen repeat ps []
  taken :
      {p : Pattern} {ps sel : List Pattern}
      → Chosen repeat (next repeat p ps) sel
      → Chosen repeat (p ∷ ps) (p ∷ sel)
  passed : {p : Pattern} {ps sel : List Pattern} → Chosen repeat ps sel → Chosen repeat (p ∷ ps) sel

-- There are cards for all the patterns at once.
abbrev pub Held : List Pattern → Buckets → Type 0
Held sel remaining = (i : ℕ) → wanted sel i ≤ length (remaining i)

abbrev pub melds_of : List MaalGroup → List MarriageMeld
melds_of = map (λ g. meld_of g.kind g.held)

pub Among-append :
    {A : Type 0} → (a : A) (xs ys : List A) → Among a (xs ++ ys) → Among a xs ⊎ Among a ys
Among-append a [] ys h = inr h
Among-append a (x ∷ xs) ys (inl same) = inl (inl same)
Among-append a (x ∷ xs) ys (inr h) = elim (Among-append a xs ys h) [
  | inl k ↦ inl (inr k)
  | inr k ↦ inr k
]

abbrev filled : Pattern → Buckets → MaalGroup × Buckets
filled p remaining = fill p.kind p.faces remaining

abbrev meld_filled : Pattern → Buckets → MarriageMeld
meld_filled p remaining = meld_of p.kind (held_of (filled p remaining)).0

melds_first :
    (p : Pattern) (sel : List Pattern) (remaining : Buckets)
    → melds_of (allocate (p ∷ sel) remaining)
      ≡ meld_filled p remaining ∷ melds_of (allocate sel (left (filled p remaining)))
unfolding allocate
melds_first p sel remaining =
    ap
      (λ k.
        meld_of k (held_of (filled p remaining)).0
        ∷ melds_of (allocate sel (left (filled p remaining))))
      (group_kind-fill p.kind p.faces remaining)

module _ (repeat : Bool) where
  -- The groups are those chosen and the groups of some candidates more, filled in order.
  abbrev pub Reaches : ℕ → List Pattern → List MarriageMeld → Buckets → List MarriageMeld → Type 0
  Reaches n ps chosen remaining groups =
      (sel : List Pattern) × Chosen repeat ps sel
      × (length sel ≡ n)
      × Held sel remaining
      × (chosen ++ melds_of (allocate sel remaining) ≡ groups)

  abbrev IsRight :
      ℕ → (List Pattern → List MarriageMeld → Buckets → List (List MarriageMeld)) → Type 0
  IsRight n call =
      (ps : List Pattern) (chosen : List MarriageMeld) (remaining : Buckets)
      (groups : List MarriageMeld)
      → Among groups (call ps chosen remaining) ↔ Reaches n ps chosen remaining groups

  module _ (n : ℕ) (p : Pattern) (ps : List Pattern) (chosen : List MarriageMeld)
      (remaining : Buckets) (groups : List MarriageMeld) where
    abbrev After : Type 0
    After =
        Reaches n (next repeat p ps) (chosen ++ meld_filled p remaining ∷ [])
          (left (filled p remaining)) groups

    module _ (enough : Enough p.faces remaining)
        (lens : (i : ℕ)
          → length (left (filled p remaining) i) ≡ length (remaining i) - times i p.faces) where
      Reaches-taken : After → Reaches (suc n) (p ∷ ps) chosen remaining groups
      Reaches-taken (sel, picks, len, held, e) = (
        p ∷ sel,
        taken picks,
        omega arith,
        (λ i. let a = enough i in let b = lens i in let c = held i in omega arith),
        ap (λ ms. chosen ++ ms) (melds_first p sel remaining)
            ∙ sym (append_assoc chosen (meld_filled p remaining ∷ []) _)
            ∙ e,
      )

      Reaches-cases :
          Reaches (suc n) (p ∷ ps) chosen remaining groups
          → After ⊎ Reaches (suc n) ps chosen remaining groups
      Reaches-cases ([], picks, len, held, e) = absurd (omega arith)
      Reaches-cases (q ∷ sel, taken picks, len, held, e) = inl (
        sel,
        picks,
        omega arith,
        (λ i. let b = lens i in let c = held i in omega arith),
        append_assoc chosen (meld_filled p remaining ∷ []) _
            ∙ ap (λ ms. chosen ++ ms) (sym (melds_first p sel remaining))
            ∙ e,
      )
      Reaches-cases (q ∷ sel, passed picks, len, held, e) = inr (q ∷ sel, picks, len, held, e)

    Reaches-passed :
        Reaches (suc n) ps chosen remaining groups
        → Reaches (suc n) (p ∷ ps) chosen remaining groups
    Reaches-passed (sel, picks, len, held, e) = (sel, passed picks, len, held, e)

    Reaches-lacking :
        ¬ Enough p.faces remaining
        → Reaches (suc n) (p ∷ ps) chosen remaining groups
        → Reaches (suc n) ps chosen remaining groups
    Reaches-lacking lacking ([], picks, len, held, e) = absurd (omega arith)
    Reaches-lacking lacking (q ∷ sel, taken picks, len, held, e) =
        absurd (lacking λ i. let c = held i in omega arith)
    Reaches-lacking lacking (q ∷ sel, passed picks, len, held, e) = (q ∷ sel, picks, len, held, e)

  Reaches-none :
      (n : ℕ) (chosen groups : List MarriageMeld) (remaining : Buckets)
      → ¬ Reaches (suc n) [] chosen remaining groups
  Reaches-none n chosen groups remaining ([], picks, len, held, e) = absurd (omega arith)
  Reaches-none n chosen groups remaining (q ∷ sel, picks, len, held, e) = elim picks [ ]

  each_candidate-IsRight :
      (n : ℕ) (call : List Pattern → List MarriageMeld → Buckets → List (List MarriageMeld))
      → IsRight n call
      → IsRight (suc n) (each_candidate repeat call)
  unfolding each_candidate
  each_candidate-IsRight n call right [] chosen remaining groups =
      ((λ h. absurd h), λ h. absurd (Reaches-none n chosen groups remaining h))
  each_candidate-IsRight n call right (p ∷ ps) chosen remaining groups =
      let (there, back) = each_candidate-IsRight n call right ps chosen remaining groups in
      let found =
        call (next repeat p ps) (chosen ++ meld_filled p remaining ∷ [])
          (left (filled p remaining)) in
      let rest = each_candidate repeat call ps chosen remaining in
      elim (takes p.kind p.faces remaining) [
        | none_taken lacking same ↦
            rw (each_candidate, same)
              (
                (λ h. Reaches-passed n p ps chosen remaining groups (there h)),
                λ h. back (Reaches-lacking n p ps chosen remaining groups lacking h),
              )
        | all_taken enough same lens ↦
            let (into, out) =
              right (next repeat p ps) (chosen ++ meld_filled p remaining ∷ [])
                (left (filled p remaining)) groups in
            rw (each_candidate, same)
              (
                (λ h. elim (Among-append groups found rest h) [
                  | inl k ↦ Reaches-taken n p ps chosen remaining groups enough lens (into k)
                  | inr k ↦ Reaches-passed n p ps chosen remaining groups (there k)
                ]),
                λ h. elim (Reaches-cases n p ps chosen remaining groups enough lens h) [
                  | inl k ↦ Among-append_left groups found rest (out k)
                  | inr k ↦ Among-append_right groups found rest (back k)
                ],
              )
      ]

  none_more :
      (ps : List Pattern) (chosen : List MarriageMeld) (remaining : Buckets)
      (groups : List MarriageMeld)
      → Reaches 0 ps chosen remaining groups
      → chosen ≡ groups
  unfolding allocate
  none_more ps chosen remaining groups ([], picks, len, held, e) = sym (append-nil chosen) ∙ e
  none_more ps chosen remaining groups (q ∷ sel, picks, len, held, e) = absurd (omega arith)

  pub visit-IsRight : (n : ℕ) → IsRight n (visit repeat n)
  unfolding visit allocate
  visit-IsRight zero ps chosen remaining groups = (
    (λ h. elim h [
      | inl same ↦ ([], done, refl, (λ i. omega arith), append-nil chosen ∙ same)
      | inr k ↦ absurd k
    ]),
    λ h. inl (none_more ps chosen remaining groups h),
  )
  visit-IsRight (suc n) ps chosen remaining groups =
      each_candidate-IsRight n (visit repeat n) (visit-IsRight n) ps chosen remaining groups
