-- ===== src/Social/Messages.antt =====
-- client/src/multiplayer/TableSocialChannel.ts: mergeTableMessages. The Map of messages by id is a list
-- of messages: a known id is replaced where it stands, a new one goes to the end.
use bhidne_ho.Prelude.{
  ℕ, zero, suc, ◌-◌, ◌≤◌, Bool, List, [], ◌∷◌, String, ◌≢◌, inl, inr, sym, arith, str_eq, eq_iff,
  leb, length, length-drop, take_last, drop, All, All-drop, Bool-cases, if◌then◌else◌, leb→le,
}
use bhidne_ho.Marriage.Order.{insert, sort_by, sort_by-All, insert-All}

pub record TableMessage : Type 0 where
  pub id : String
  pub sender_id : String
  pub text : String
  pub sent_at : ℕ

-- `items.set(message.id, message)`
unfoldable pub put : TableMessage → List TableMessage → List TableMessage
put m [] = m ∷ []
put m (x ∷ xs) = let rest = put m xs in if str_eq x.id m.id then m ∷ xs else x ∷ rest

unfoldable pub put_all : List TableMessage → List TableMessage → List TableMessage
unfolding put
put_all items [] = items
put_all items (m ∷ ms) = put_all (put m items) ms

abbrev earlier : TableMessage → TableMessage → Bool
earlier a b = leb a.sent_at b.sent_at

-- The first Map is built from `current`, entry by entry.
unfoldable pub merge_table_messages : List TableMessage → List TableMessage → List TableMessage
unfolding put_all sort_by
merge_table_messages current incoming =
    take_last 100 (sort_by earlier (put_all (put_all [] current) incoming))

-- No two messages have one id.
abbrev pub DistinctIds : List TableMessage → Type 0
DistinctIds [] = Unit
DistinctIds (x ∷ xs) = All (λ y. x.id ≢ y.id) xs × DistinctIds xs

-- Each message was sent no later than those that follow.
abbrev pub InOrder : List TableMessage → Type 0
InOrder [] = Unit
InOrder (x ∷ xs) = All (λ y. x.sent_at ≤ y.sent_at) xs × InOrder xs

put-All :
    (P : TableMessage → Type 0) (m : TableMessage) (xs : List TableMessage)
    → P m
    → All P xs
    → All P (put m xs)
unfolding put
put-All P m [] p h = (p, tt)
put-All P m (x ∷ xs) p (q, h) = elim (Bool-cases (str_eq x.id m.id)) [
  | inl e ↦ rw (put, e) (p, h)
  | inr e ↦ rw (put, e) (q, put-All P m xs p h)
]

put_all-All :
    (P : TableMessage → Type 0) (items ms : List TableMessage)
    → All P items
    → All P ms
    → All P (put_all items ms)
unfolding put_all
put_all-All P items [] h k = h
put_all-All P items (m ∷ ms) h (p, k) = put_all-All P (put m items) ms (put-All P m items p h) k

put-DistinctIds :
    (m : TableMessage) (xs : List TableMessage) → DistinctIds xs → DistinctIds (put m xs)
unfolding put
put-DistinctIds m [] h = (tt, tt)
put-DistinctIds m (x ∷ xs) (p, h) = elim (Bool-cases (str_eq x.id m.id)) [
  | inl e ↦ rw (put, e) (rw (← (eq_iff x.id m.id).0 e) p, h)
  | inr e ↦
      rw (put, e)
        (
          put-All (λ y. x.id ≢ y.id) m xs (λ same. ground (arith, eq_iff x.id m.id)) p,
          put-DistinctIds m xs h,
        )
]

put_all-DistinctIds :
    (items ms : List TableMessage) → DistinctIds items → DistinctIds (put_all items ms)
unfolding put_all
put_all-DistinctIds items [] h = h
put_all-DistinctIds items (m ∷ ms) h =
    put_all-DistinctIds (put m items) ms (put-DistinctIds m items h)

insert-DistinctIds :
    (a : TableMessage) (xs : List TableMessage)
    → All (λ y. a.id ≢ y.id) xs
    → DistinctIds xs
    → DistinctIds (insert earlier a xs)
unfolding insert
insert-DistinctIds a [] n h = (tt, tt)
insert-DistinctIds a (x ∷ xs) (n, ns) (p, h) = elim (Bool-cases (earlier a x)) [
  | inl e ↦ rw (insert, e) ((n, ns), (p, h))
  | inr e ↦
      rw (insert, e)
        (
          insert-All (λ y. x.id ≢ y.id) earlier a xs (λ same. n (sym same)) p,
          insert-DistinctIds a xs ns h,
        )
]

sort-DistinctIds : (xs : List TableMessage) → DistinctIds xs → DistinctIds (sort_by earlier xs)
unfolding sort_by
sort-DistinctIds [] h = tt
sort-DistinctIds (x ∷ xs) (p, h) =
    insert-DistinctIds x (sort_by earlier xs) (sort_by-All (λ y. x.id ≢ y.id) earlier xs p)
      (sort-DistinctIds xs h)

All-later :
    (a b : TableMessage) (xs : List TableMessage)
    → a.sent_at ≤ b.sent_at
    → All (λ y. b.sent_at ≤ y.sent_at) xs
    → All (λ y. a.sent_at ≤ y.sent_at) xs
All-later a b [] h k = tt
All-later a b (x ∷ xs) h (q, k) = (omega arith, All-later a b xs h k)

insert-InOrder :
    (a : TableMessage) (xs : List TableMessage) → InOrder xs → InOrder (insert earlier a xs)
unfolding insert
insert-InOrder a [] h = (tt, tt)
insert-InOrder a (x ∷ xs) (p, h) = elim (Bool-cases (earlier a x)) [
  | inl e ↦ let l = leb→le _ _ e in rw (insert, e) ((l, All-later a x xs l p), (p, h))
  | inr e ↦
      rw (insert, e)
        (
          insert-All (λ y. x.sent_at ≤ y.sent_at) earlier a xs (ground arith) p,
          insert-InOrder a xs h,
        )
]

sort-InOrder : (xs : List TableMessage) → InOrder (sort_by earlier xs)
unfolding sort_by
sort-InOrder [] = tt
sort-InOrder (x ∷ xs) = insert-InOrder x (sort_by earlier xs) (sort-InOrder xs)

drop-DistinctIds : (n : ℕ) (xs : List TableMessage) → DistinctIds xs → DistinctIds (drop n xs)
drop-DistinctIds zero xs h = h
drop-DistinctIds (suc n) [] h = h
drop-DistinctIds (suc n) (x ∷ xs) (p, h) = drop-DistinctIds n xs h

drop-InOrder : (n : ℕ) (xs : List TableMessage) → InOrder xs → InOrder (drop n xs)
drop-InOrder zero xs h = h
drop-InOrder (suc n) [] h = h
drop-InOrder (suc n) (x ∷ xs) (p, h) = drop-InOrder n xs h

length-take_last : (n : ℕ) (xs : List TableMessage) → length (take_last n xs) ≤ n
length-take_last n xs = omega (arith, length-drop (length xs - n) xs)

-- The merged messages are at most 100, have distinct ids, stand in the order of their times of sending,
-- and have every property that all current and all incoming messages have.
pub merge_table_messages_lem :
    (P : TableMessage → Type 0) (current incoming : List TableMessage)
    → All P current
    → All P incoming
    → let merged = merge_table_messages current incoming in
      (length merged ≤ 100) × DistinctIds merged × InOrder merged × All P merged
unfolding merge_table_messages
merge_table_messages_lem P current incoming h k =
    let items = put_all (put_all [] current) incoming in
    let sorted = sort_by earlier items in
    let n = length sorted - 100 in
    (
      length-take_last 100 sorted,
      drop-DistinctIds n sorted (
          sort-DistinctIds items (
            put_all-DistinctIds (put_all [] current) incoming (put_all-DistinctIds [] current tt))),
      drop-InOrder n sorted (sort-InOrder items),
      All-drop P n sorted (
          sort_by-All P earlier items
            (put_all-All P (put_all [] current) incoming (put_all-All P [] current tt h) k)),
    )
