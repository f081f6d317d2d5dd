-- ===== src/Marriage/Completion/Sound.antt =====
-- What a group of cards is, when `completionKind` names it.
use bhidne_ho.Prelude.{
  ℕ, ◌≤◌, Bool, true, not, ◌&&◌, ◌||◌, Option, none, some, List, ◌≡◌, ◌⊎◌, inl, inr, refl, sym,
  arith, map, leb, ltb, ◌==◌, ==_iff, str_eq, eq_iff, length, all, any, if◌then◌else◌, leb→le, ◌∙◌,
}
use bhidne_ho.Marriage.{
  suit_index, MarriageCard, is_standard, MeldType, pure_sequence, tunnela, sequence, set,
}
use bhidne_ho.Marriage.Order.{sort_numbers, sort_by-perm, sort_numbers-Ascending}
use bhidne_ho.Marriage.Distinct.{set_size, Distinct, Distinct-set_size}
use bhidne_ho.Marriage.Completion.{
  SeenMaal, low_rank, faces_of, fixed_faces, ids_of, all_same_face, one_suit, is_run, fits_within,
  suit_count, kind_of, completion_kind, orders,
}
use bhidne_ho.Marriage.Completion.Groups.{
  Completes, all_standard, length-ids, length-suits, pure_of_faces, rank_of_count, reading_of_any,
  run-perm, suit_of_count, tunnela_of_faces, window_of_fits,
}

module _ (maal : SeenMaal) (cards : List MarriageCard) where
  abbrev natural : Bool
  natural = all (λ c. is_standard c.kind) cards

  tunnela_sound :
      natural ≡ true
      → (length cards == 3) ≡ true
      → all_same_face (faces_of cards) ≡ true
      → Completes maal cards tunnela
  tunnela_sound h n same = (ground arith, tunnela_of_faces cards (faces_of cards) refl h same)

  pure_sequence_sound :
      natural ≡ true
      → one_suit (faces_of cards) ≡ true
      → any (λ v. is_run (sort_numbers (map v (faces_of cards)))) orders ≡ true
      → Completes maal cards pure_sequence
  pure_sequence_sound h suited runs =
      let (v, reads, run) = reading_of_any is_run (faces_of cards) runs in
      let (low, p) = run-perm v (faces_of cards) run in
      (all_standard cards h, pure_of_faces (faces_of cards) suited, (v, low, reads, p))

  sequence_sound :
      leb (length cards) 13 ≡ true
      → leb (suit_count (fixed_faces maal cards)) 1 ≡ true
      → any (λ v. fits_within (length cards) (sort_numbers (map v (fixed_faces maal cards)))) orders
        ≡ true
      → Completes maal cards sequence
  sequence_sound n suited fits =
      let fixed = fixed_faces maal cards in
      let (v, reads, window) = reading_of_any (fits_within (length cards)) fixed fits in
      let rs = sort_numbers (map v fixed) in
      let (low, distinct, between) =
        window_of_fits (length cards) rs (sort_numbers-Ascending (map v fixed)) window in
      (
        leb→le _ 13 n,
        suit_of_count fixed suited,
        (v, low, rs, reads, sort_by-perm leb (map v fixed), distinct, between),
      )

  set_sound :
      leb (length cards) 4 ≡ true
      → leb (set_size ◌==◌ (sort_numbers (map low_rank (fixed_faces maal cards)))) 1 ≡ true
      → (suit_count (fixed_faces maal cards) == length (fixed_faces maal cards)) ≡ true
      → Completes maal cards set
  set_sound n ranks suits =
      let fixed = fixed_faces maal cards in
      let indices = map (λ f. suit_index f.suit) fixed in
      (
        leb→le _ 4 n,
        rank_of_count fixed ranks,
        Distinct-set_size ◌==◌ ==_iff indices ((==_iff _ _).0 suits ∙ sym (length-suits fixed)),
      )

and3 : (a b c : Bool) → (a && b && c) ≡ true → (a ≡ true) × (b ≡ true) × (c ≡ true)
and3 a b c h = ground arith

picked :
    (a b c d : Bool) (k : MeldType)
    → (if a
        then some tunnela
        else if b
        then some pure_sequence
        else if c
        then some sequence
        else if d
        then some set
        else none)
      ≡ some k
    → ((k ≡ tunnela) × (a ≡ true))
      ⊎ ((k ≡ pure_sequence) × (b ≡ true))
      ⊎ ((k ≡ sequence) × (c ≡ true))
      ⊎ ((k ≡ set) × (d ≡ true))
picked a b c d k h = ground arith

kind_of-Completes :
    (maal : SeenMaal) (cards : List MarriageCard) (k : MeldType)
    → kind_of
        (length cards)
        (all (λ c. is_standard c.kind) cards)
        (faces_of cards)
        (fixed_faces maal cards)
      ≡ some k
    → Completes maal cards k
kind_of-Completes maal cards k h = elim (picked _ _ _ _ k h) [
  | inl (e, t) ↦ let (a, b, c) = and3 _ _ _ t in rw e (tunnela_sound maal cards a b c)
  | inr (inl (e, t)) ↦ let (a, b, c) = and3 _ _ _ t in rw e (pure_sequence_sound maal cards a b c)
  | inr (inr (inl (e, t))) ↦ let (a, b, c) = and3 _ _ _ t in rw e (sequence_sound maal cards a b c)
  | inr (inr (inr (e, t))) ↦ let (a, b, c) = and3 _ _ _ t in rw e (set_sound maal cards a b c)
]

guards :
    (n m : ℕ) (o : Option MeldType) (k : MeldType)
    → (if ltb n 3 || not (m == n) then none else o) ≡ some k
    → (3 ≤ n) × (m ≡ n) × (o ≡ some k)
guards n m o k h = ground arith

guards_of :
    (maal : SeenMaal) (cards : List MarriageCard) (k : MeldType)
    → completion_kind cards maal ≡ some k
    → (3 ≤ length cards)
      × (set_size str_eq (ids_of cards) ≡ length cards)
      × (kind_of
            (length cards)
            (all (λ c. is_standard c.kind) cards)
            (faces_of cards)
            (fixed_faces maal cards)
          ≡ some k)
unfolding completion_kind
guards_of maal cards k h = guards _ _ _ k h

-- What `completionKind` names a group, the group is: at least three cards with distinct ids; for a
-- tunnela three cards of one face; for a pure sequence standard cards of one suit whose ranks, with
-- the ace low or high, are consecutive; for a sequence at most 13 cards whose cards that are not wild
-- have one suit and distinct ranks within as many places as there are cards; for a set at most four
-- cards whose cards that are not wild have one rank and distinct suits. It never names a dublee.
pub completion_kind-Completes :
    (maal : SeenMaal) (cards : List MarriageCard) (k : MeldType)
    → completion_kind cards maal ≡ some k
    → (3 ≤ length cards) × Distinct (ids_of cards) × Completes maal cards k
unfolding completion_kind
completion_kind-Completes maal cards k h =
    let (three, ids, named) = guards_of maal cards k h in
    (
      three,
      Distinct-set_size str_eq eq_iff (ids_of cards) (ids ∙ sym (length-ids cards)),
      kind_of-Completes maal cards k named,
    )
