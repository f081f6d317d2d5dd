-- ===== src/Marriage/Masks/All.antt =====
-- The enumeration of the masks holds each mask of that many bits, the empty one first.
use mathlib.Core.List.{flat_map}
use bhidne_ho.Prelude.{
  ℕ, zero, suc, ◌≤◌, Bool, true, false, List, [], ◌∷◌, ◌≡◌, refl, ap, arith, length, drop, Among,
  inl, inr,
}
use bhidne_ho.Marriage.Masks.{Mask, size, masks}

abbrev next_masks : List Mask → List Mask
next_masks = flat_map (λ m. (false ∷ m) ∷ (true ∷ m) ∷ [])

Among-next_masks :
    (b : Bool) (m : Mask) (ms : List Mask) → Among m ms → Among (b ∷ m) (next_masks ms)
unfolding flat_map
Among-next_masks b m [] a = absurd a
Among-next_masks false m (n ∷ ms) (inl e) = inl (ap (λ k. false ∷ k) e)
Among-next_masks true m (n ∷ ms) (inl e) = inr (inl (ap (λ k. true ∷ k) e))
Among-next_masks b m (n ∷ ms) (inr a) = inr (inr (Among-next_masks b m ms a))

Among-masks : (m : Mask) → Among m (masks (length m))
unfolding masks
Among-masks [] = inl refl
Among-masks (b ∷ m) = Among-next_masks b m (masks (length m)) (Among-masks m)

next_masks-length :
    (n : ℕ) (m : Mask) (ms : List Mask)
    → ((k : Mask) → Among k ms → length k ≡ n)
    → Among m (next_masks ms)
    → length m ≡ suc n
unfolding flat_map
next_masks-length n m [] h a = absurd a
next_masks-length n m (k ∷ ms) h (inl e) =
    let k_length : length k ≡ n = h k (inl refl) in
    let shape : length (false ∷ k) ≡ length m = ap (λ (j : Mask). length j) e in omega arith
next_masks-length n m (k ∷ ms) h (inr (inl e)) =
    let k_length : length k ≡ n = h k (inl refl) in
    let shape : length (true ∷ k) ≡ length m = ap (λ (j : Mask). length j) e in omega arith
next_masks-length n m (k ∷ ms) h (inr (inr a)) = next_masks-length n m ms (λ j b. h j (inr b)) a

masks-length : (n : ℕ) (m : Mask) → Among m (masks n) → length m ≡ n
unfolding masks
masks-length zero m (inl e) =
    let shape : length {A = Bool} [] ≡ length m = ap (λ (j : Mask). length j) e in omega arith
masks-length zero m (inr a) = absurd a
masks-length (suc n) m a = next_masks-length n m (masks n) (masks-length n) a

-- The mask without bits.
abbrev none_set : ℕ → Mask
none_set zero = []
none_set (suc n) = false ∷ none_set n

size-none_set : (n : ℕ) → size (none_set n) ≡ 0
unfolding size
size-none_set zero = refl
size-none_set (suc n) = size-none_set n

masks-first : (n : ℕ) → (ms : List Mask) × (masks n ≡ none_set n ∷ ms)
unfolding masks flat_map
masks-first zero = ([], refl)
masks-first (suc n) =
    let (ms, e) = masks-first n in ((true ∷ none_set n) ∷ next_masks ms, rw e refl)

pub Among-drop-masks : (m : Mask) → 1 ≤ size m → Among m (drop 1 (masks (length m)))
Among-drop-masks m h =
    let (ms, e) = masks-first (length m) in
    elim (rw e at (Among-masks m)) [
      | inl same ↦
          let empty : size (none_set (length m)) ≡ size m = ap size same in
          absurd (omega (arith, size-none_set (length m)))
      | inr a ↦ rw e a
    ]

pub drop-masks-length : (n : ℕ) (m : Mask) → Among m (drop 1 (masks n)) → length m ≡ n
drop-masks-length n m a =
    let (ms, e) = masks-first n in
    let a' : Among m ms = rw e at a in masks-length n m (rw e (inr a'))
