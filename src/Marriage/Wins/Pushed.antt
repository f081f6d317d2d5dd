-- ===== src/Marriage/Wins/Pushed.antt =====
-- What a loop leaves that pushes results and returns at the limit.
use mathlib.Core.Path.{subst}
use bhidne_ho.Prelude.{
  ◌+◌, ◌≤◌, ◌<◌, List, [], ◌∷◌, ◌++◌, ◌≡◌, refl, arith, leb, length, length-append, Among, All,
  All-append, Bool-cases, inl, inr, ◌⊎◌,
}
use bhidne_ho.Marriage.Wins.{limit, push_all}

module _ {A : Type 0} where
  pub Among-append_left : (a : A) (xs ys : List A) → Among a xs → Among a (xs ++ ys)
  Among-append_left a [] ys h = absurd h
  Among-append_left a (x ∷ xs) ys (inl e) = inl e
  Among-append_left a (x ∷ xs) ys (inr h) = inr (Among-append_left a xs ys h)

  pub Among-append_right : (a : A) (xs ys : List A) → Among a ys → Among a (xs ++ ys)
  Among-append_right a [] ys h = h
  Among-append_right a (x ∷ xs) ys h = inr (Among-append_right a xs ys h)

module _ {A B : Type 0} (f : A → B) where
  -- Nothing was dropped.
  abbrev pub HasAll : List A → List B → List B → Type 0
  HasAll xs result out =
      (length out ≡ length result + length xs) × ((x : A) → Among x xs → Among (f x) out)

  pub push_all-keeps :
      (xs : List A) (result : List B) (y : B) → Among y result → Among y (push_all f xs result)
  unfolding push_all
  push_all-keeps [] result y h = h
  push_all-keeps (x ∷ xs) result y h =
      let result' = result ++ f x ∷ [] in
      let h' = Among-append_left y result (f x ∷ []) h in
      elim (Bool-cases (leb limit (length result'))) [
        | inl e ↦ rw (push_all, e) h'
        | inr e ↦ rw (push_all, e) (push_all-keeps xs result' y h')
      ]

  pub push_all-HasAll :
      (xs : List A) (result : List B)
      → length result < limit
      → (length (push_all f xs result) ≤ limit)
        × ((length (push_all f xs result) ≡ limit) ⊎ HasAll xs result (push_all f xs result))
  unfolding push_all
  push_all-HasAll [] result h = (omega arith, inr (omega arith, λ x a. absurd a))
  push_all-HasAll (x ∷ xs) result h =
      let result' = result ++ f x ∷ [] in
      let len = length-append result (f x ∷ []) in
      elim (Bool-cases (leb limit (length result'))) [
        | inl e ↦
            let reached : length result' ≡ limit = ground arith in
            rw (push_all, e) (omega arith, inl reached)
        | inr e ↦
            let (bound, rest) = push_all-HasAll xs result' (ground arith) in
            rw (push_all, e)
              (
                bound,
                elim rest [
                  | inl whole ↦ inl whole
                  | inr (count, among) ↦ inr (
                    omega arith,
                    λ z a. elim a [
                      | inl same ↦
                          subst (λ k. Among (f k) (push_all f xs result')) same
                            (push_all-keeps xs result' (f x)
                              (Among-append_right (f x) result (f x ∷ []) (inl refl)))
                      | inr later ↦ among z later
                    ],
                  )
                ],
              )
      ]

module _ {A B : Type 0} (Q : B → Type 0) (f : A → B) where
  pub push_all-All :
      (xs : List A) (result : List B)
      → All Q result
      → All (λ x. Q (f x)) xs
      → All Q (push_all f xs result)
  unfolding push_all
  push_all-All [] result h k = h
  push_all-All (x ∷ xs) result h (p, k) =
      let result' = result ++ f x ∷ [] in
      let h' = All-append Q result (f x ∷ []) h (p, tt) in
      elim (Bool-cases (leb limit (length result'))) [
        | inl e ↦ rw (push_all, e) h'
        | inr e ↦ rw (push_all, e) (push_all-All xs result' h' k)
      ]
