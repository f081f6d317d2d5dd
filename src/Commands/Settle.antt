-- ===== src/Commands/Settle.antt =====
-- When a pending action is settled, and what `reconcile` then returns.
use bhidne_ho.Prelude.{
  refl, inl, inr, Bool-cases, eq_iff, opt_str_eq, is_some, ℕ, Option, String, Bool, true, false,
  none, some, ◌≡◌, ◌≢◌, ◌↔◌, arith, ◌⊎◌,
}
use bhidne_ho.Commands.{
  is_final, after_answer, Outcome, thrown, Pending, PendingGameAction, Snapshot, returned, Answer,
  response, http_error, other_error, Texts, reconcile_finish, ActionAck, confirms_ack, confirms,
  is_same,
}

-- The acknowledgment names the request's own command, was accepted or rejected, and has a whole
-- revision.
abbrev pub Acknowledges : Pending → Option ActionAck → Type 0
Acknowledges q none = ⊥
Acknowledges q (some ack) =
    (ack.command_id ≡ q.body.command_id)
    × ((ack.status ≡ "accepted") ⊎ (ack.status ≡ "rejected"))
    × (ack.revision ≢ none)

-- The answers after which the action is not sent again: a snapshot of the request's match with its
-- acknowledgment, or a refusal for good.
abbrev pub Settles : Pending → Answer → Type 0
Settles q (response s) = (s.match_id ≡ some q.body.draft.match_id) × Acknowledges q s.action_ack
Settles q (http_error status message) =
    (status ≡ 400) ⊎ (status ≡ 401) ⊎ (status ≡ 404) ⊎ (status ≡ 409) ⊎ (status ≡ 422)
Settles q (other_error message) = ⊥

-- The request is still the pending one.
abbrev pub IsCurrent : Option Pending → Pending → Type 0
IsCurrent none q = ⊥
IsCurrent (some r) q = r.object ≡ q.object

revision_iff : (o : Option ℕ) → (is_some o ≡ true) ↔ (o ≢ none)
revision_iff none = ground arith
revision_iff (some n) = ((λ h e. cc), λ h. refl)

Acknowledges-iff :
    (q : Pending) (o : Option ActionAck) → (confirms_ack q o ≡ true) ↔ Acknowledges q o
Acknowledges-iff q none = ground arith
Acknowledges-iff q (some a) = ground (
  arith,
  eq_iff a.command_id q.body.command_id,
  eq_iff a.status "accepted",
  eq_iff a.status "rejected",
  revision_iff a.revision,
)

match_iff : (o : Option String) (m : String) → (opt_str_eq o (some m) ≡ true) ↔ (o ≡ some m)
match_iff none m = ground arith
match_iff (some n) m = ground (arith, eq_iff n m)

pub confirms_iff : (q : Pending) (s : Snapshot) → (confirms q s ≡ true) ↔ Settles q (response s)
confirms_iff q s =
    ground (arith, match_iff s.match_id q.body.draft.match_id, Acknowledges-iff q s.action_ack)

-- Of what the answer does to the pending action and to the caller.
abbrev pub Finishes :
    Bool → Pending → Answer → PendingGameAction → PendingGameAction × Outcome → Type 0
Finishes aborted q a p (p', out) =
    (((p.request ≢ none) × (p'.request ≡ none))
      ↔ ((aborted ≡ false) × IsCurrent p.request q × Settles q a))
    × (((p'.request ≢ none) ⊎ (p.request ≡ none)) → p' ≡ p)
    × (((m : String) × (out ≡ thrown m))
        ↔ ((aborted ≡ false) × IsCurrent p.request q × ¬ Settles q a))

module _ (q : Pending) (a : Answer) (p : PendingGameAction) where
  passed_by :
      (aborted : Bool) (s : Snapshot) (e : String)
      → ((aborted ≡ false) → IsCurrent p.request q → ⊥)
      → Finishes aborted q a p (p, returned s e)
  passed_by aborted s e h = (
    ((λ (k, l). absurd (k l)), λ (k, l, m). absurd (h k l)),
    (λ k. refl),
    ((λ (m, k). cc), λ (k, l, m). absurd (h k l)),
  )

  ended :
      (s : Snapshot) (e : String)
      → IsCurrent p.request q
      → Settles q a
      → Finishes false q a p (record p { request = none }, returned s e)
  ended s e current settles = (
    ((λ k. (refl, current, settles)), λ k. (is_pending p.request current, refl)),
    (λ k. elim k [ inl l ↦ absurd (l refl) | inr l ↦ absurd (is_pending p.request current l) ]),
    ((λ (m, k). cc), λ (k, l, m). absurd (m settles)),
  )
    where
      is_pending : (o : Option Pending) → IsCurrent o q → o ≢ none
      is_pending none c = absurd c
      is_pending (some r) c = λ e. cc

  kept_pending :
      (m : String) → IsCurrent p.request q → ¬ Settles q a → Finishes false q a p (p, thrown m)
  kept_pending m current unsettled = (
    ((λ (k, l). absurd (k l)), λ (k, l, n). absurd (unsettled n)),
    (λ k. refl),
    ((λ k. (refl, current, unsettled)), λ k. (m, refl)),
  )

is_same_iff : (o : Option Pending) (q : Pending) → (is_same o q ≡ true) ↔ IsCurrent o q
is_same_iff none q = ground arith
is_same_iff (some r) q = ground arith

is_final_iff : (q : Pending) (n : ℕ) (m : String) → (is_final n ≡ true) ↔ Settles q (http_error n m)
is_final_iff q n m = ground arith

after_answer-Finishes :
    (t : Texts) (q : Pending) (s : Snapshot) (a : Answer) (p : PendingGameAction)
    → IsCurrent p.request q
    → Finishes false q a p (after_answer t q s a p)
after_answer-Finishes t q s (response b) p c = elim (Bool-cases (confirms q b)) [
  | inl e ↦ rw e (ended q (response b) p b _ c ((confirms_iff q b).0 e))
  | inr e ↦ rw e (kept_pending q (response b) p _ c (λ k. let l = (confirms_iff q b).1 k in cc))
]
after_answer-Finishes t q s (http_error n m) p c = elim (Bool-cases (is_final n)) [
  | inl e ↦ rw e (ended q (http_error n m) p s m c ((is_final_iff q n m).0 e))
  | inr e ↦
      rw e (kept_pending q (http_error n m) p m c (λ k. let l = (is_final_iff q n m).1 k in cc))
]
after_answer-Finishes t q s (other_error m) p c = kept_pending q (other_error m) p m c (λ k. k)

-- Whatever is pending when the answer to a request comes, the pending action ends exactly when the caller
-- has not been aborted, the request is still the pending one, and the answer settles it: a snapshot
-- of its match that acknowledges its own command, or a status 400, 401, 404, 409 or 422. Otherwise
-- the state is as before. The caller is given an error to throw exactly when the request is still the
-- pending one, the caller has not been aborted, and the answer does not settle it.
pub reconcile_finish-settles_iff :
    (t : Texts) (aborted : Bool) (q : Pending) (s : Snapshot) (a : Answer) (p : PendingGameAction)
    → Finishes aborted q a p (reconcile_finish t aborted q s a p)
unfolding reconcile_finish
reconcile_finish-settles_iff t true q s a p = passed_by q a p true s "" (λ e c. cc)
reconcile_finish-settles_iff t false q s a p = elim (Bool-cases (is_same p.request q)) [
  | inl e ↦
      rw (reconcile_finish, e) (after_answer-Finishes t q s a p ((is_same_iff p.request q).0 e))
  | inr e ↦
      rw (reconcile_finish, e)
        (passed_by q a p false s "" (λ f c. let k = (is_same_iff p.request q).1 c in cc))
]

-- An answer that comes after its action was settled or replaced, or after the abort, changes nothing
-- and reports no error.
pub reconcile_finish-stale :
    (t : Texts) (aborted : Bool) (q : Pending) (s : Snapshot) (a : Answer) (p : PendingGameAction)
    → is_same p.request q ≡ false
    → reconcile_finish t aborted q s a p ≡ (p, returned s "")
unfolding reconcile_finish
reconcile_finish-stale t aborted q s a p h = ground arith
