-- ===== src/Marriage/Wins/Choices.antt =====
-- The choices of a win on the normal route are covers of all the cards but the discard.
use mathlib.Core.Path.{subst}
use mathlib.Core.List.{Perm}
use bhidne_ho.Prelude.{
  ℕ, zero, suc, ◌+◌, ◌≤◌, ◌<◌, true, false, some, List, [], ◌∷◌, String, ◌≡◌, refl, sym, ap, arith,
  leb, length, get_elem?, Among, All, inl, inr, ◌⊎◌, Bool-cases,
}
use bhidne_ho.Marriage.{MarriageCard, MarriageMeld, has}
use bhidne_ho.Marriage.Masks.{size, full, clear}
use bhidne_ho.Marriage.Masks.Laws
use bhidne_ho.Marriage.Masks.Memo.{Memo}
use bhidne_ho.Marriage.Cover.{Item}
use bhidne_ho.Marriage.Cover.Packs.{groups_of}
use bhidne_ho.Marriage.Wins.{
  limit, Covers, MarriageWinChoice, win_with, covers, push_all, discard_each,
}
use bhidne_ho.Marriage.Wins.Pushed.{push_all-keeps, push_all-HasAll, push_all-All}
use bhidne_ho.Marriage.Wins.Exact.{Exact, IsExact, IsCovers, AllCovers}
use bhidne_ho.Marriage.Wins.Recursion.{covers-IsRight}

module _ (P : Item → Type 0) (cards : List MarriageCard) (shown : List MarriageMeld)
    (kept : List String) where
  abbrev places : ℕ
  places = length cards

  -- A card that may be discarded, and a cover of all the others.
  abbrev pub Wins : ℕ → MarriageCard → List Item → Type 0
  Wins i c xs =
      (get_elem? cards i ≡ some c)
      × (has c.card_id kept ≡ false)
      × Exact P (clear i (full places)) xs

  abbrev pub IsWin : MarriageWinChoice → Type 0
  IsWin w =
      (i : ℕ) × (c : MarriageCard) × (xs : List Item) × Wins i c xs
      × (w ≡ win_with shown c.card_id (groups_of xs))

  -- The win is listed, perhaps with its groups in another order.
  abbrev pub Listed : List MarriageWinChoice → MarriageCard → List Item → Type 0
  Listed out c xs =
      (ys : List Item) × Perm xs ys × Among (win_with shown c.card_id (groups_of ys)) out

  abbrev pub AreWins : List MarriageWinChoice → Type 0
  AreWins out =
      All IsWin out
      × (length out ≤ limit)
      × ((length out ≡ limit)
          ⊎ ((i : ℕ) (c : MarriageCard) (xs : List Item) → Wins i c xs → Listed out c xs))

  All-wins :
      (i : ℕ) (c : MarriageCard) (gs : Covers)
      → get_elem? cards i ≡ some c
      → has c.card_id kept ≡ false
      → All (IsExact P (clear i (full places))) gs
      → All (λ g. IsWin (win_with shown c.card_id g)) gs
  All-wins i c [] e k h = tt
  All-wins i c (g ∷ gs) e k ((xs, exact, same), h) =
      ((i, c, xs, (e, k, exact), ap (win_with shown c.card_id) same), All-wins i c gs e k h)

  -- What is listed for the cards from the index `i` on.
  abbrev ListedFrom : List MarriageCard → ℕ → List MarriageWinChoice → Type 0
  ListedFrom cs i out =
      (j : ℕ) (c : MarriageCard) (xs : List Item)
      → get_elem? cs j ≡ some c
      → has c.card_id kept ≡ false
      → Exact P (clear (i + j) (full places)) xs
      → Listed out c xs

  abbrev Collected :
      List MarriageCard → ℕ → List MarriageWinChoice → List MarriageWinChoice → Type 0
  Collected cs i result out =
      All IsWin out
      × (length out ≤ limit)
      × ((length out ≡ limit)
          ⊎ (((w : MarriageWinChoice) → Among w result → Among w out) × ListedFrom cs i out))

  -- The cards from the index `i` on.
  abbrev Suffix : List MarriageCard → ℕ → Type 0
  Suffix cs i =
      (i + length cs ≡ places)
      × ((j : ℕ) (c : MarriageCard) → get_elem? cs j ≡ some c → get_elem? cards (i + j) ≡ some c)

  Suffix-tail :
      (c : MarriageCard) (cs : List MarriageCard) (i : ℕ) → Suffix (c ∷ cs) i → Suffix cs (suc i)
  Suffix-tail c cs i (len, at) = (
    omega arith,
    λ j d e.
        let shift : i + suc j ≡ suc i + j = omega arith in
        subst (λ k. get_elem? cards k ≡ some d) shift (at (suc j) d e),
  )

  kept_card :
      (c : MarriageCard) (cs : List MarriageCard) (i : ℕ) (result out : List MarriageWinChoice)
      → has c.card_id kept ≡ true
      → Collected cs (suc i) result out
      → Collected (c ∷ cs) i result out
  kept_card c cs i result out h (k, le, t) =
      (k, le, elim t [ inl e ↦ inl e | inr (keeps, listed) ↦ inr (keeps, listed_after listed) ])
    where
      listed_after : ListedFrom cs (suc i) out → ListedFrom (c ∷ cs) i out
      listed_after listed zero d xs e free exact = absurd (ground arith)
      listed_after listed (suc j) d xs e free exact =
          let shift : i + suc j ≡ suc i + j = omega arith in
          listed j d xs e free (subst (λ k. Exact P (clear k (full places)) xs) shift exact)

  -- The covers for the card at the index `i`, all pushed.
  pushed-Listed :
      (i : ℕ) (c : MarriageCard) (found : Covers) (result : List MarriageWinChoice) (xs : List Item)
      → length result < limit
      → IsCovers P (clear i (full places)) found
      → length (push_all (win_with shown c.card_id) found result) < limit
      → Exact P (clear i (full places)) xs
      → Listed (push_all (win_with shown c.card_id) found result) c xs
  pushed-Listed i c found result xs short (sound, few, complete) open_end exact =
      elim (push_all-HasAll (win_with shown c.card_id) found result short).1 [
        | inl reached ↦ absurd (omega arith)
        | inr (count, among) ↦ elim complete [
          | inl all_taken ↦ absurd (omega arith)
          | inr finds ↦
              let (g, ys, a, e, order) = finds xs exact in
              let out = push_all (win_with shown c.card_id) found result in
              (ys, order, subst (λ k. Among (win_with shown c.card_id k) out) e (among g a))
        ]
      ]

  free_card :
      (c : MarriageCard) (cs : List MarriageCard) (i : ℕ) (found : Covers)
      (result out : List MarriageWinChoice)
      → length result < limit
      → IsCovers P (clear i (full places)) found
      → length (push_all (win_with shown c.card_id) found result) < limit
      → Collected cs (suc i) (push_all (win_with shown c.card_id) found result) out
      → Collected (c ∷ cs) i result out
  free_card c cs i found result out short right open_end (k, le, t) = (
    k,
    le,
    elim t [
      | inl e ↦ inl e
      | inr (keeps, listed) ↦ inr (
        λ w a. keeps w (push_all-keeps (win_with shown c.card_id) found result w a),
        listed_with keeps listed,
      )
    ],
  )
    where
      listed_with :
          ((w : MarriageWinChoice)
            → Among w (push_all (win_with shown c.card_id) found result)
            → Among w out)
          → ListedFrom cs (suc i) out
          → ListedFrom (c ∷ cs) i out
      listed_with keeps listed zero d xs e free exact =
          let same : c ≡ d = ground arith in
          let here : i + 0 ≡ i = omega arith in
          let exact' = subst (λ k. Exact P (clear k (full places)) xs) here exact in
          let (ys, order, a) = pushed-Listed i c found result xs short right open_end exact' in
          subst (λ k. Listed out k xs) same (ys, order, keeps _ a)
      listed_with keeps listed (suc j) d xs e free exact =
          let shift : i + suc j ≡ suc i + j = omega arith in
          listed j d xs e free (subst (λ k. Exact P (clear k (full places)) xs) shift exact)

  module _ (items : List Item) (sound : (x : Item) → Among x items → P x)
      (complete : (x : Item) → P x → Among x items) (pos : (x : Item) → P x → 1 ≤ size x.mask) where
    discard_each-Collected :
        (cs : List MarriageCard) (i : ℕ) (result : List MarriageWinChoice) (memo : Memo Covers)
        → Suffix cs i
        → length result < limit
        → All IsWin result
        → AllCovers P memo
        → Collected cs i result (discard_each items places shown kept cs i result memo)
    unfolding discard_each
    discard_each-Collected [] i result memo at short k b =
        (k, omega arith, inr ((λ w a. a), λ j c xs e. absurd (ground arith)))
    discard_each-Collected (c ∷ cs) i result memo at short k b =
        elim (Bool-cases (has c.card_id kept)) [
          | inl protected ↦
              rw (discard_each, protected)
                (kept_card c cs i result _ protected
                  (discard_each-Collected cs (suc i) result memo (Suffix-tail c cs i at) short k b))
          | inr free ↦
              let here : get_elem? cards i ≡ some c =
                let e : i + 0 ≡ i = omega arith in
                subst (λ j. get_elem? cards j ≡ some c) e (at.1 0 c refl) in
              let bit = Laws.has_bit-full i places (omega (arith, at.0)) in
              let small : size (clear i (full places)) ≤ places =
                omega (arith, Laws.size-clear i (full places) bit, Laws.size-full places) in
              let (right, b') =
                covers-IsRight P items sound complete pos places (clear i (full places)) memo small
                  b in
              let found = (covers places items (clear i (full places)) memo).0 in
              let result' = push_all (win_with shown c.card_id) found result in
              let k' =
                push_all-All IsWin (win_with shown c.card_id) found result k
                  (All-wins i c found here free right.0) in
              elim (Bool-cases (leb limit (length result'))) [
                | inl reached ↦
                    let bound = (push_all-HasAll (win_with shown c.card_id) found result short).0 in
                    rw (discard_each, free, reached) (k', bound, inl (ground arith))
                | inr open_end ↦
                    let short' : length result' < limit = ground arith in
                    rw (discard_each, free, open_end)
                      (free_card c cs i found result _ short right short' (
                        discard_each-Collected cs (suc i) result'
                          (covers places items (clear i (full places)) memo).1
                          (Suffix-tail c cs i at) short' k' b'))
              ]
        ]

    pub discard_each-AreWins : AreWins (discard_each items places shown kept cards 0 [] [])
    discard_each-AreWins =
        let start : Suffix cards 0 = (
          omega arith,
          λ j c e.
              let same : 0 + j ≡ j = omega arith in
              subst (λ k. get_elem? cards k ≡ some c) (sym same) e,
        ) in
        let (k, le, t) = discard_each-Collected cards 0 [] [] start (omega arith) tt tt in
        (
          k,
          le,
          elim t [
            | inl e ↦ inl e
            | inr (keeps, listed) ↦ inr λ i c xs (e, free, exact).
                let same : 0 + i ≡ i = omega arith in
                listed i c xs e free
                  (subst (λ k. Exact P (clear k (full places)) xs) (sym same) exact)
          ],
        )
