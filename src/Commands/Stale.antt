-- ===== src/Commands/Stale.antt =====
-- A refresh that began before a submission does not touch the action submitted.
use bhidne_ho.Prelude.{
  ℕ, ◌+◌, ◌≤◌, ◌<◌, true, Option, none, some, List, [], ◌∷◌, ◌≡◌, arith, ◌==◌, All, Option-cases,
  inl, inr, Bool-cases, String,
}
use bhidne_ho.Commands.{Snapshot, Answer, Texts, begin, reconcile_finish, returned}
use bhidne_ho.Commands.Client.{GameCommandClient, submit, submit_to, refresh_loaded}
use bhidne_ho.Commands.Trace.{
  Phase, loading, posting, Task, World, Event, submitted, refreshed, loaded, load_failed, answered,
  aborted, find_task, without, abort_task, step, run, on_loaded, on_load_failed, on_answered,
}

-- A loading refresh began in a generation up to `n`.
abbrev BegunBy : ℕ → Phase → Type 0
BegunBy n (loading g) = g ≤ n
BegunBy n (posting q s) = Unit

abbrev AllBegunBy : ℕ → List Task → Type 0
AllBegunBy n ts = All (λ k. BegunBy n k.phase) ts

BegunBy-le : (n m : ℕ) (f : Phase) → n ≤ m → BegunBy n f → BegunBy m f
BegunBy-le n m (loading g) h b = omega arith
BegunBy-le n m (posting q s) h b = tt

AllBegunBy-le : (n m : ℕ) (ts : List Task) → n ≤ m → AllBegunBy n ts → AllBegunBy m ts
AllBegunBy-le n m [] h b = tt
AllBegunBy-le n m (k ∷ ts) h (b, bs) = (BegunBy-le n m k.phase h b, AllBegunBy-le n m ts h bs)

AllBegunBy-without : (n i : ℕ) (ts : List Task) → AllBegunBy n ts → AllBegunBy n (without i ts)
AllBegunBy-without n i [] b = tt
AllBegunBy-without n i (k ∷ ts) (b, bs) = ground (arith, AllBegunBy-without n i ts bs)

AllBegunBy-abort_task :
    (n i : ℕ) (ts : List Task) → AllBegunBy n ts → AllBegunBy n (abort_task i ts)
AllBegunBy-abort_task n i [] b = tt
AllBegunBy-abort_task n i (k ∷ ts) (b, bs) = ground (arith, AllBegunBy-abort_task n i ts bs)

AllBegunBy-find_task :
    (n i : ℕ) (ts : List Task) (k : Task)
    → AllBegunBy n ts
    → find_task i ts ≡ some k
    → BegunBy n k.phase
AllBegunBy-find_task n i [] k b e = cc
AllBegunBy-find_task n i (j ∷ ts) k (b, bs) e = elim (Bool-cases (j.id == i)) [
  | inl h ↦ ground arith
  | inr h ↦ AllBegunBy-find_task n i ts k bs (ground arith)
]

abbrev IsStamped : World → Type 0
IsStamped w = AllBegunBy w.client.generation w.tasks

submit_to-generation :
    (id command payload : String) (m : Option String) (g : Option ℕ) (c : GameCommandClient)
    → c.generation ≤ (submit_to id command payload m g c).0.generation
unfolding begin
submit_to-generation id command payload none g c = omega arith
submit_to-generation id command payload (some m) none c = omega arith
submit_to-generation id command payload (some m) (some r) c = ground arith

loaded-IsStamped :
    (k : Task) (f : Phase) (s : Snapshot) (w : World) → IsStamped w → IsStamped (on_loaded k f s w)
unfolding refresh_loaded
loaded-IsStamped k (loading g) s w v =
    ground (arith, AllBegunBy-without w.client.generation k.id w.tasks v)
loaded-IsStamped k (posting q b) s w v = v

load_failed-IsStamped :
    (k : Task) (f : Phase) (m : String) (w : World)
    → IsStamped w
    → IsStamped (on_load_failed k f m w)
load_failed-IsStamped k (loading g) m w v = AllBegunBy-without w.client.generation k.id w.tasks v
load_failed-IsStamped k (posting q b) m w v = v

answered-IsStamped :
    (t : Texts) (k : Task) (f : Phase) (a : Answer) (w : World)
    → IsStamped w
    → IsStamped (on_answered t k f a w)
unfolding reconcile_finish
answered-IsStamped t k (loading g) a w v = v
answered-IsStamped t k (posting q b) a w v =
    ground (arith, AllBegunBy-without w.client.generation k.id w.tasks v)

step-IsStamped : (t : Texts) (e : Event) (w : World) → IsStamped w → IsStamped (step t e w)
unfolding step submit
step-IsStamped t (submitted id s command payload) w v =
    AllBegunBy-le _ _ w.tasks (submit_to-generation id command payload s.match_id s.game w.client) v
step-IsStamped t refreshed w v = (omega arith, v)
step-IsStamped t (aborted i) w v = AllBegunBy-abort_task w.client.generation i w.tasks v
step-IsStamped t (loaded i s) w v = elim (Option-cases (find_task i w.tasks)) [
  | inl e ↦ rw (step, e) v
  | inr (k, e) ↦ rw (step, e) (loaded-IsStamped k k.phase s w v)
]
step-IsStamped t (load_failed i m) w v = elim (Option-cases (find_task i w.tasks)) [
  | inl e ↦ rw (step, e) v
  | inr (k, e) ↦ rw (step, e) (load_failed-IsStamped k k.phase m w v)
]
step-IsStamped t (answered i a) w v = elim (Option-cases (find_task i w.tasks)) [
  | inl e ↦ rw (step, e) v
  | inr (k, e) ↦ rw (step, e) (answered-IsStamped t k k.phase a w v)
]

run-IsStamped : (t : Texts) (es : List Event) → IsStamped (run t es)
unfolding run
run-IsStamped t [] = tt
run-IsStamped t (e ∷ es) = step-IsStamped t e (run t es) (run-IsStamped t es)

submit_to-accepted :
    (id command payload : String) (m : Option String) (g : Option ℕ) (c : GameCommandClient)
    → (submit_to id command payload m g c).1 ≡ true
    → (submit_to id command payload m g c).0.generation ≡ c.generation + 1
unfolding begin
submit_to-accepted id command payload none g c h = cc
submit_to-accepted id command payload (some m) none c h = cc
submit_to-accepted id command payload (some m) (some r) c h = ground arith

loaded_stale :
    (k : Task) (g : ℕ) (s : Snapshot) (w : World)
    → g < w.client.generation
    → ((on_loaded k (loading g) s w).client ≡ w.client)
      × ((on_loaded k (loading g) s w).outcomes ≡ returned s "" ∷ w.outcomes)
      × ((on_loaded k (loading g) s w).posted ≡ w.posted)
unfolding refresh_loaded
loaded_stale k g s w h = ground arith

-- After any events, let a submission be accepted while a refresh waits for its snapshot. When that
-- snapshot comes, the refresh returns it with no error, posts nothing and leaves the client, the new
-- pending action included, as the submission left it, whatever the snapshot says.
pub submit_outdates_loading :
    (t : Texts) (es : List Event) (id : String) (s : Snapshot) (command payload : String) (i g : ℕ)
    (k : Task) (late : Snapshot)
    → (submit id s command payload (run t es).client).1 ≡ true
    → find_task i (run t es).tasks ≡ some k
    → k.phase ≡ loading g
    → let w = step t (submitted id s command payload) (run t es) in
      let w' = step t (loaded i late) w in
      (w'.client ≡ w.client)
      × (w'.outcomes ≡ returned late "" ∷ w.outcomes)
      × (w'.posted ≡ w.posted)
unfolding step submit
submit_outdates_loading t es id s command payload i g k late accepted found waits =
    let w = run t es in
    let bound = AllBegunBy-find_task w.client.generation i w.tasks k (run-IsStamped t es) found in
    let older : g ≤ w.client.generation = rw waits at bound in
    let newer = submit_to-accepted id command payload s.match_id s.game w.client accepted in
    rw (step, found, waits)
      (loaded_stale k g late (step t (submitted id s command payload) w) (omega arith))
