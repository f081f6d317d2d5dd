-- ===== src/Marriage/Masks/Laws.antt =====
-- The laws of the masks' operations.
use bhidne_ho.Prelude.{
  ℕ, zero, suc, ◌+◌, ◌≤◌, ◌<◌, true, false, not, ◌&&◌, [], ◌∷◌, ◌≡◌, refl, ap, arith, length,
}
use bhidne_ho.Marriage.Masks.{
  Mask, size, within, minus, has_bit, clear, lowest, is_zero, same_mask, full,
}

pub size-minus : (m c : Mask) → within c m ≡ true → size (minus m c) + size c ≡ size m
unfolding size within minus
size-minus [] [] h = refl
size-minus [] (true ∷ c) h = cc
size-minus [] (false ∷ c) h = size-minus [] c h
size-minus (a ∷ m) [] h = omega arith
size-minus (true ∷ m) (true ∷ c) h = omega (arith, size-minus m c h)
size-minus (true ∷ m) (false ∷ c) h = omega (arith, size-minus m c h)
size-minus (false ∷ m) (true ∷ c) h = cc
size-minus (false ∷ m) (false ∷ c) h = size-minus m c h

pub within-clear :
    (i : ℕ) (c m : Mask) → within c m ≡ true → has_bit i c ≡ false → within c (clear i m) ≡ true
unfolding within has_bit clear
within-clear i [] m h k = refl
within-clear i (b ∷ c) [] h k = h
within-clear zero (b ∷ c) (a ∷ m) h k = ground arith
within-clear (suc i) (b ∷ c) (a ∷ m) h k = ground (arith, within-clear i c m)

pub within_of_clear : (i : ℕ) (c m : Mask) → within c (clear i m) ≡ true → within c m ≡ true
unfolding within clear
within_of_clear i [] m h = refl
within_of_clear i (b ∷ c) [] h = h
within_of_clear zero (b ∷ c) (a ∷ m) h = ground arith
within_of_clear (suc i) (b ∷ c) (a ∷ m) h = ground (arith, within_of_clear i c m)

pub minus-clear : (i : ℕ) (m c : Mask) → minus (clear i m) c ≡ clear i (minus m c)
unfolding minus clear
minus-clear i [] c = refl
minus-clear zero (a ∷ m) [] = refl
minus-clear (suc i) (a ∷ m) [] = refl
minus-clear zero (a ∷ m) (b ∷ c) = refl
minus-clear (suc i) (a ∷ m) (b ∷ c) = ap (λ r. (a && not b) ∷ r) (minus-clear i m c)

pub minus_comm : (m c d : Mask) → minus (minus m c) d ≡ minus (minus m d) c
unfolding minus
minus_comm [] c d = refl
minus_comm (a ∷ m) [] [] = refl
minus_comm (a ∷ m) [] (e ∷ d) = refl
minus_comm (a ∷ m) (b ∷ c) [] = refl
minus_comm (a ∷ m) (b ∷ c) (e ∷ d) = ground (arith, minus_comm m c d)

pub within-minus :
    (m c d : Mask) → within d m ≡ true → within c (minus m d) ≡ true → within d (minus m c) ≡ true
unfolding within minus
within-minus m c [] h k = refl
within-minus [] c (e ∷ d) h k = h
within-minus (a ∷ m) [] (e ∷ d) h k = h
within-minus (a ∷ m) (b ∷ c) (e ∷ d) h k = ground (arith, within-minus m c d)

pub within_of_minus : (m c d : Mask) → within c (minus m d) ≡ true → within c m ≡ true
unfolding within minus
within_of_minus m [] d h = refl
within_of_minus [] (b ∷ c) d h = h
within_of_minus (a ∷ m) (b ∷ c) [] h = h
within_of_minus (a ∷ m) (b ∷ c) (e ∷ d) h = ground (arith, within_of_minus m c d)

pub has_bit-lowest : (m : Mask) → is_zero m ≡ false → has_bit (lowest m) m ≡ true
unfolding has_bit lowest is_zero
has_bit-lowest [] h = cc
has_bit-lowest (true ∷ m) h = refl
has_bit-lowest (false ∷ m) h = has_bit-lowest m h

pub size-clear : (i : ℕ) (m : Mask) → has_bit i m ≡ true → size (clear i m) + 1 ≡ size m
unfolding size has_bit clear
size-clear i [] h = cc
size-clear zero (true ∷ m) h = omega arith
size-clear zero (false ∷ m) h = cc
size-clear (suc i) (true ∷ m) h = omega (arith, size-clear i m h)
size-clear (suc i) (false ∷ m) h = size-clear i m h

pub size_pos : (i : ℕ) (m : Mask) → has_bit i m ≡ true → 1 ≤ size m
size_pos i m h = omega (arith, size-clear i m h)

pub size-is_zero : (m : Mask) → is_zero m ≡ true → size m ≡ 0
unfolding size is_zero
size-is_zero [] h = refl
size-is_zero (true ∷ m) h = cc
size-is_zero (false ∷ m) h = size-is_zero m h

pub same_mask-eq : (m n : Mask) → same_mask m n ≡ true → m ≡ n
unfolding same_mask
same_mask-eq [] [] h = refl
same_mask-eq (a ∷ m) (b ∷ n) h = ground (arith, same_mask-eq m n)
same_mask-eq [] (b ∷ n) h = cc
same_mask-eq (a ∷ m) [] h = cc

pub size-full : (n : ℕ) → size (full n) ≡ n
unfolding size full
size-full zero = refl
size-full (suc n) = omega (arith, size-full n)

pub has_bit-full : (i n : ℕ) → i < n → has_bit i (full n) ≡ true
unfolding has_bit full
has_bit-full i zero h = absurd (omega arith)
has_bit-full zero (suc n) h = refl
has_bit-full (suc i) (suc n) h = has_bit-full i n (omega arith)

pub length-full : (n : ℕ) → length (full n) ≡ n
unfolding full
length-full zero = refl
length-full (suc n) = omega (arith, length-full n)

pub length-clear : (i : ℕ) (m : Mask) → length (clear i m) ≡ length m
unfolding clear
length-clear i [] = refl
length-clear zero (b ∷ m) = refl
length-clear (suc i) (b ∷ m) = omega (arith, length-clear i m)
