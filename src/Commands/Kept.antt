-- ===== src/Commands/Kept.antt =====
-- A pending action is not lost: what can end it.
use mathlib.Core.Path.{subst}
use bhidne_ho.Prelude.{
  sym, ap, ◌∙◌, ℕ, Bool, false, Option, none, some, ◌≡◌, refl, arith, Option-cases, inl, inr, ◌⊎◌,
  opt_str_eq, String,
}
use bhidne_ho.Commands.{
  PendingGameAction, Pending, Snapshot, Answer, Texts, begin, reconcile_finish,
}
use bhidne_ho.Commands.Client.{submit, submit_to, refresh_loaded}
use bhidne_ho.Commands.Settle.{Settles, IsCurrent, reconcile_finish-settles_iff}
use bhidne_ho.Commands.Trace.{
  Phase, loading, posting, Task, World, Event, submitted, refreshed, loaded, load_failed, answered,
  aborted, find_task, step, on_loaded, on_load_failed, on_answered,
}

-- The refresh sees another match: it began after the last submission and has not been aborted.
abbrev pub LeavesMatch : World → Pending → Task → Snapshot → Type 0
LeavesMatch w p k s =
    (k.phase ≡ loading w.client.generation)
    × (k.aborted ≡ false)
    × (opt_str_eq s.match_id (some p.body.draft.match_id) ≡ false)

-- The answer settles the action, for a refresh that has not been aborted.
abbrev pub IsSettledBy : Pending → Phase → Bool → Answer → Type 0
IsSettledBy p (loading g) gone a = ⊥
IsSettledBy p (posting q s) gone a = (gone ≡ false) × (q.object ≡ p.object) × Settles q a

abbrev pub Released : World → Pending → Event → Type 0
Released w p (loaded i s) = (k : Task) × (find_task i w.tasks ≡ some k) × LeavesMatch w p k s
Released w p (answered i a) =
    (k : Task) × (find_task i w.tasks ≡ some k) × IsSettledBy p k.phase k.aborted a
Released w p e = ⊥

submit_to-keeps :
    (id command payload : String) (m : Option String) (g : Option ℕ) (w : World) (p : Pending)
    → w.client.action.request ≡ some p
    → (submit_to id command payload m g w.client).0.action.request ≡ some p
unfolding begin
submit_to-keeps id command payload none g w p h = h
submit_to-keeps id command payload (some m) none w p h = h
submit_to-keeps id command payload (some m) (some r) w p h = ground arith

loaded-keeps :
    (k : Task) (f : Phase) (s : Snapshot) (w : World) (p : Pending)
    → k.phase ≡ f
    → w.client.action.request ≡ some p
    → ((on_loaded k f s w).client.action.request ≡ some p)
      ⊎ (LeavesMatch w p k s × ((on_loaded k f s w).client.action.request ≡ none))
unfolding refresh_loaded
loaded-keeps k (loading g) s w p e h = ground arith
loaded-keeps k (posting q b) s w p e h = inl h

load_failed-keeps :
    (k : Task) (f : Phase) (m : String) (w : World) (p : Pending)
    → w.client.action.request ≡ some p
    → (on_load_failed k f m w).client.action.request ≡ some p
load_failed-keeps k (loading g) m w p h = h
load_failed-keeps k (posting q b) m w p h = h

answered-keeps :
    (t : Texts) (k : Task) (f : Phase) (a : Answer) (w : World) (p : Pending)
    → w.client.action.request ≡ some p
    → ((on_answered t k f a w).client.action.request ≡ some p)
      ⊎ (IsSettledBy p f k.aborted a × ((on_answered t k f a w).client.action.request ≡ none))
unfolding reconcile_finish
answered-keeps t k (loading g) a w p h = inl h
answered-keeps t k (posting q b) a w p h =
    let r = (reconcile_finish t k.aborted q b a w.client.action).0 in
    let (ends, keeps, throws) = reconcile_finish-settles_iff t k.aborted q b a w.client.action in
    elim (Option-cases r.request) [
      | inl e ↦
          let (live, current, settles) =
            ends.0 ((λ none_left. let l = sym h ∙ none_left in cc), e) in
          let same : p.object ≡ q.object = subst (λ o. IsCurrent o q) h current in
          inr ((live, sym same, settles), e)
      | inr (x, e) ↦ inl (
          ap (λ (z : PendingGameAction). z.request) (keeps (inl (λ f. let l = sym e ∙ f in cc)))
          ∙ h)
    ]

-- Each event leaves a pending action pending and as it is, or ends it in one of two ways: a refresh that
-- began after the submission shows another match, or an answer to this action confirms it or refuses
-- it for good; in both cases the refresh has not been aborted.
pub step-keeps_pending :
    (t : Texts) (e : Event) (w : World) (p : Pending)
    → w.client.action.request ≡ some p
    → ((step t e w).client.action.request ≡ some p)
      ⊎ (Released w p e × ((step t e w).client.action.request ≡ none))
unfolding step submit
step-keeps_pending t (submitted id s command payload) w p h =
    inl (submit_to-keeps id command payload s.match_id s.game w p h)
step-keeps_pending t refreshed w p h = inl h
step-keeps_pending t (aborted i) w p h = inl h
step-keeps_pending t (loaded i s) w p h = elim (Option-cases (find_task i w.tasks)) [
  | inl e ↦ inl (rw (step, e) h)
  | inr (k, e) ↦ elim (loaded-keeps k k.phase s w p refl h) [
    | inl kept ↦ inl (rw (step, e) kept)
    | inr (left, gone) ↦ inr ((k, e, left), rw (step, e) gone)
  ]
]
step-keeps_pending t (load_failed i m) w p h = elim (Option-cases (find_task i w.tasks)) [
  | inl e ↦ inl (rw (step, e) h)
  | inr (k, e) ↦ inl (rw (step, e) (load_failed-keeps k k.phase m w p h))
]
step-keeps_pending t (answered i a) w p h = elim (Option-cases (find_task i w.tasks)) [
  | inl e ↦ inl (rw (step, e) h)
  | inr (k, e) ↦ elim (answered-keeps t k k.phase a w p h) [
    | inl kept ↦ inl (rw (step, e) kept)
    | inr (done, gone) ↦ inr ((k, e, done), rw (step, e) gone)
  ]
]
