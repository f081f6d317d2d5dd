-- ===== src/Commands/Order.antt =====
-- What holds of the command client after every sequence of events.
use bhidne_ho.Prelude.{
  ℕ, ◌+◌, ◌≤◌, ◌<◌, Option, none, some, List, [], ◌∷◌, String, ◌≡◌, refl, arith, All, Option-cases,
  inl, inr,
}
use bhidne_ho.Commands.{ActionRequest, Pending, Snapshot, Answer, Texts, begin, reconcile_finish}
use bhidne_ho.Commands.Client.{submit, submit_to, refresh_loaded}
use bhidne_ho.Commands.Trace.{
  Phase, loading, posting, Task, World, Event, submitted, refreshed, loaded, load_failed, answered,
  aborted, find_task, step, run, on_loaded, on_load_failed, on_answered,
}

-- A later post is of the same action, with the same command, revision and payload, or of a newer one.
abbrev pub Follows : Pending → Pending → Type 0
Follows r q = (q.object ≤ r.object) × (q.object ≡ r.object → q ≡ r)

abbrev pub InOrder : List Pending → Type 0
InOrder [] = Unit
InOrder (r ∷ qs) = All (Follows r) qs × InOrder qs

abbrev pub Older : ℕ → List Pending → Type 0
Older n qs = All (λ q. q.object < n) qs

abbrev pub Current : ℕ → Option Pending → List Pending → Type 0
Current made none qs = Unit
Current made (some p) qs = (p.object < made) × All (Follows p) qs

pub record IsSound (w : World) : Type 0 where
  pub stamped : w.client.generation ≡ w.client.action.made
  pub current : Current w.client.action.made w.client.action.request w.posted
  pub older : Older w.client.action.made w.posted
  pub in_order : InOrder w.posted

Older-suc : (n : ℕ) (qs : List Pending) → Older n qs → Older (n + 1) qs
Older-suc n [] h = tt
Older-suc n (q ∷ qs) (p, h) = (omega arith, Older-suc n qs h)

Older-Follows :
    (p : Pending) (n : ℕ) (qs : List Pending) → p.object ≡ n → Older n qs → All (Follows p) qs
Older-Follows p n [] e h = tt
Older-Follows p n (q ∷ qs) e (l, h) =
    ((omega arith, λ k. absurd (omega arith)), Older-Follows p n qs e h)

begun-Current :
    (n : ℕ) (body : ActionRequest) (qs : List Pending)
    → Older n qs
    → All (Follows (record { object = n; body = body })) qs
begun-Current n body qs h = Older-Follows (record { object = n; body = body }) n qs refl h

submit_to-IsSound :
    (id : String) (command payload : String) (m : Option String) (g : Option ℕ) (w : World)
    → IsSound w
    → IsSound (record w { client = (submit_to id command payload m g w.client).0 })
unfolding begin
submit_to-IsSound id command payload none g w v = v
submit_to-IsSound id command payload (some m) none w v = v
submit_to-IsSound id command payload (some m) (some r) w v = ground (
  arith,
  Older-suc w.client.action.made w.posted v.older,
  begun-Current w.client.action.made
      (record {
        command_id = id;
        draft = record {
          match_id = m;
          expected_revision = r;
          command = command;
          payload = payload;
        };
      })
      w.posted v.older,
)

submit-IsSound :
    (id : String) (s : Snapshot) (command payload : String) (w : World)
    → IsSound w
    → IsSound (record w { client = (submit id s command payload w.client).0 })
unfolding submit
submit-IsSound id s command payload w v = submit_to-IsSound id command payload s.match_id s.game w v

loaded-IsSound :
    (k : Task) (p : Phase) (s : Snapshot) (w : World) → IsSound w → IsSound (on_loaded k p s w)
unfolding refresh_loaded
loaded-IsSound k (loading g) s w v = ground arith
loaded-IsSound k (posting q b) s w v = v

load_failed-IsSound :
    (k : Task) (p : Phase) (m : String) (w : World) → IsSound w → IsSound (on_load_failed k p m w)
load_failed-IsSound k (loading g) s w v = ground arith
load_failed-IsSound k (posting q b) s w v = v

answered-IsSound :
    (t : Texts) (k : Task) (p : Phase) (a : Answer) (w : World)
    → IsSound w
    → IsSound (on_answered t k p a w)
unfolding reconcile_finish
answered-IsSound t k (loading g) a w v = v
answered-IsSound t k (posting q b) a w v = ground arith

step-IsSound : (t : Texts) (e : Event) (w : World) → IsSound w → IsSound (step t e w)
unfolding step
step-IsSound t (submitted id s command payload) w v = submit-IsSound id s command payload w v
step-IsSound t refreshed w v = ground arith
step-IsSound t (aborted i) w v = ground arith
step-IsSound t (loaded i s) w v = elim (Option-cases (find_task i w.tasks)) [
  | inl e ↦ rw (step, e) v
  | inr (k, e) ↦ rw (step, e) (loaded-IsSound k k.phase s w v)
]
step-IsSound t (load_failed i m) w v = elim (Option-cases (find_task i w.tasks)) [
  | inl e ↦ rw (step, e) v
  | inr (k, e) ↦ rw (step, e) (load_failed-IsSound k k.phase m w v)
]
step-IsSound t (answered i a) w v = elim (Option-cases (find_task i w.tasks)) [
  | inl e ↦ rw (step, e) v
  | inr (k, e) ↦ rw (step, e) (answered-IsSound t k k.phase a w v)
]

-- After any events the posts of the client are in the order in which their actions were begun, and
-- two posts of one action are the same request: its command id, match, revision, command and payload
-- never change between retries. The pending action, if there is one, is the latest.
pub run-IsSound : (t : Texts) (es : List Event) → IsSound (run t es)
unfolding run
run-IsSound t [] = ground arith
run-IsSound t (e ∷ es) = step-IsSound t e (run t es) (run-IsSound t es)
