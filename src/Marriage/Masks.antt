-- ===== src/Marriage/Masks.antt =====
-- client/src/multiplayer/marriageFinishProgress.ts: the bit masks of at most 13 cards, as the list of
-- their bits, the lowest first; `mask & m`, `mask ^ m` and `1 << i` become operations on the lists.
pub mod Laws
pub mod All
pub mod Memo
use bhidne_ho.Prelude.{
  ℕ, zero, suc, ◌+◌, Bool, true, false, not, ◌&&◌, ◌||◌, List, [], ◌∷◌, if◌then◌else◌,
}
use mathlib.Core.List.{flat_map}

abbrev pub Mask : Type 0
Mask = List Bool

-- The number of bits that are set: `sizes[mask]`.
unfoldable pub size : Mask → ℕ
size [] = 0
size (true ∷ m) = suc (size m)
size (false ∷ m) = size m

-- `(m & c) === c`
unfoldable pub within : Mask → Mask → Bool
within [] m = true
within (b ∷ c) [] = not b && within c []
within (b ∷ c) (a ∷ m) = (not b || a) && within c m

-- `m ^ c`, for a mask within `m`.
unfoldable pub minus : Mask → Mask → Mask
minus [] c = []
minus (a ∷ m) [] = a ∷ m
minus (a ∷ m) (b ∷ c) = (a && not b) ∷ minus m c

-- `m & (1 << i)`
unfoldable pub has_bit : ℕ → Mask → Bool
has_bit i [] = false
has_bit zero (b ∷ m) = b
has_bit (suc i) (b ∷ m) = has_bit i m

-- `m ^ (1 << i)`, for a bit that is set.
unfoldable pub clear : ℕ → Mask → Mask
clear i [] = []
clear zero (b ∷ m) = false ∷ m
clear (suc i) (b ∷ m) = b ∷ clear i m

-- The index of the lowest bit that is set: `31 - Math.clz32(m & -m)`.
unfoldable pub lowest : Mask → ℕ
lowest [] = 0
lowest (true ∷ m) = 0
lowest (false ∷ m) = suc (lowest m)

unfoldable pub is_zero : Mask → Bool
is_zero [] = true
is_zero (b ∷ m) = not b && is_zero m

unfoldable pub same_mask : Mask → Mask → Bool
same_mask [] [] = true
same_mask (a ∷ m) (b ∷ n) = ((a && b) || (not a && not b)) && same_mask m n
same_mask [] (b ∷ n) = false
same_mask (a ∷ m) [] = false

-- `(1 << n) - 1`
unfoldable pub full : ℕ → Mask
full zero = []
full (suc n) = true ∷ full n

-- The masks from 0 to `(1 << n) - 1`, in their order as numbers.
unfoldable pub masks : ℕ → List Mask
masks zero = [] ∷ []
masks (suc n) = flat_map (λ m. (false ∷ m) ∷ (true ∷ m) ∷ []) (masks n)

-- `cards.filter((_, i) => mask & (1 << i))`
unfoldable pub select {ℓ} : {A : Type ℓ} → Mask → List A → List A
select m [] = []
select [] (x ∷ xs) = []
select (true ∷ m) (x ∷ xs) = x ∷ select m xs
select (false ∷ m) (x ∷ xs) = select m xs
