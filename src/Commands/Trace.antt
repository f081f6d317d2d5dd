-- ===== src/Commands/Trace.antt =====
-- The command client under every interleaving of submissions, refreshes, arrivals and aborts.
use bhidne_ho.Prelude.{
  ℕ, ◌+◌, Bool, true, false, not, Option, none, some, List, [], ◌∷◌, String, ◌==◌, find?, filterb,
  if◌then◌else◌,
}
use bhidne_ho.Commands.{
  Pending, PendingGameAction, Snapshot, Outcome, thrown, Answer, Texts, Reconcile, settled, sending,
  reconcile_finish,
}
use bhidne_ho.Commands.Client.{GameCommandClient, new_client, submit, refresh_loaded}

-- A call of `refresh` that waits for its snapshot, with the generation it began in, or for the answer
-- to the request that it posted.
pub data Phase : Type 0 where
  loading : ℕ → Phase
  posting : Pending → Snapshot → Phase

pub record Task : Type 0 where
  pub id : ℕ
  pub aborted : Bool
  pub phase : Phase

-- `posted` holds the requests sent to the server, `outcomes` the ended refreshes, newest first.
pub record World : Type 0 where
  pub client : GameCommandClient
  pub tasks : List Task
  pub posted : List Pending
  pub outcomes : List Outcome
  pub next : ℕ

pub data Event : Type 0 where
  submitted : String → Snapshot → String → String → Event
  refreshed : Event
  loaded : ℕ → Snapshot → Event
  load_failed : ℕ → String → Event
  answered : ℕ → Answer → Event
  aborted : ℕ → Event

abbrev pub find_task : ℕ → List Task → Option Task
find_task i = find? (λ t. t.id == i)

abbrev pub without : ℕ → List Task → List Task
without i = filterb (λ t. not (t.id == i))

abbrev pub abort_task : ℕ → List Task → List Task
abort_task i [] = []
abort_task i (t ∷ ts) = (if t.id == i then record t { aborted = true } else t) ∷ abort_task i ts

abbrev pub with_action : PendingGameAction → World → World
with_action p w = record w { client = record w.client { action = p } }

abbrev pub end_task : ℕ → Outcome → World → World
end_task i o w = record w { tasks = without i w.tasks; outcomes = o ∷ w.outcomes }

abbrev pub continue_load : Task → Snapshot → Reconcile → World → World
continue_load t s (settled p o) w = end_task t.id o (with_action p w)
continue_load t s (sending q) w = record w {
  tasks = record t { phase = posting q s } ∷ without t.id w.tasks;
  posted = q ∷ w.posted;
}

abbrev pub on_loaded : Task → Phase → Snapshot → World → World
on_loaded t (loading g) s w = continue_load t s (refresh_loaded g t.aborted s w.client) w
on_loaded t (posting q before) s w = w

abbrev pub on_load_failed : Task → Phase → String → World → World
on_load_failed t (loading g) message w = end_task t.id (thrown message) w
on_load_failed t (posting q before) message w = w

abbrev pub finish_task : Task → PendingGameAction × Outcome → World → World
finish_task t (p, o) w = end_task t.id o (with_action p w)

module _ (t : Texts) where
  abbrev pub on_answered : Task → Phase → Answer → World → World
  on_answered k (loading g) a w = w
  on_answered k (posting q s) a w =
      finish_task k (reconcile_finish t k.aborted q s a w.client.action) w

  unfoldable pub step : Event → World → World
  step (submitted id s command payload) w = record w {
    client = (submit id s command payload w.client).0;
  }
  step refreshed w = record w {
    tasks = record { id = w.next; aborted = false; phase = loading w.client.generation } ∷ w.tasks;
    next = w.next + 1;
  }
  step (loaded i s) w = elim (find_task i w.tasks) [ none ↦ w | some k ↦ on_loaded k k.phase s w ]
  step (load_failed i message) w = elim (find_task i w.tasks) [
    | none ↦ w
    | some k ↦ on_load_failed k k.phase message w
  ]
  step (answered i a) w = elim (find_task i w.tasks) [
    | none ↦ w
    | some k ↦ on_answered k k.phase a w
  ]
  step (aborted i) w = record w { tasks = abort_task i w.tasks }

abbrev pub empty_world : World
empty_world = record { client = new_client; tasks = []; posted = []; outcomes = []; next = 0 }

-- The world after the events of a list, whose head is the latest.
unfoldable pub run : Texts → List Event → World
run t [] = empty_world
run t (e ∷ es) = step t e (run t es)
