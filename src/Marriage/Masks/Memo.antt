-- ===== src/Marriage/Masks/Memo.antt =====
-- The Map from masks to results, the latest entry first.
use mathlib.Core.Path.{subst}
use bhidne_ho.Prelude.{
  Option, none, some, List, [], ◌∷◌, ◌≡◌, arith, All, Bool-cases, inl, inr, if◌then◌else◌,
}
use bhidne_ho.Marriage.Masks.{Mask, same_mask}
use bhidne_ho.Marriage.Masks.Laws

abbrev pub Memo : Type 0 → Type 0
Memo A = List (Mask × A)

module _ {A : Type 0} where
  -- `memo.get(mask)`
  unfoldable pub find_memo : Mask → Memo A → Option A
  unfolding same_mask
  find_memo m [] = none
  find_memo m ((n, a) ∷ memo) =
      let rest = find_memo m memo in if same_mask n m then some a else rest

-- What holds of every entry holds of the one that is found.
pub find_memo-All :
    {A : Type 0} (P : Mask → A → Type 0) (m : Mask) (memo : Memo A) (a : A)
    → All (λ e. P e.0 e.1) memo
    → find_memo m memo ≡ some a
    → P m a
unfolding find_memo
find_memo-All P m [] a b h = absurd (ground arith)
find_memo-All P m ((n, c) ∷ memo) a (p, b) h = elim (Bool-cases (same_mask n m)) [
  | inl e ↦
      let hit : c ≡ a = ground arith in
      subst (λ k. P k a) (Laws.same_mask-eq n m e) (subst (λ r. P n r) hit p)
  | inr e ↦ find_memo-All P m memo a b (ground arith)
]
