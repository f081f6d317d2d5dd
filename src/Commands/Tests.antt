-- ===== src/Commands/Tests.antt =====
-- A move that is submitted, lost once by the network and then confirmed; the theorems at its states.
use bhidne_ho.Prelude.{true, false, some, none, [], ◌∷◌, ◌≡◌, refl, ◌⊎◌, List}
use bhidne_ho.Commands.{
  Texts, Snapshot, Pending, PendingGameAction, response, other_error, reconcile_finish, returned,
}
use bhidne_ho.Commands.Client.{submit, refresh_loaded}
use bhidne_ho.Commands.Settle.{Finishes, reconcile_finish-settles_iff}
use bhidne_ho.Commands.Trace.{
  Event, submitted, refreshed, loaded, answered, run, step, find_task, loading,
}
use bhidne_ho.Commands.Order.{IsSound, run-IsSound}
use bhidne_ho.Commands.Kept.{Released, step-keeps_pending}
use bhidne_ho.Commands.Stale.{submit_outdates_loading}

abbrev texts : Texts
texts = record { waiting = "Waiting"; action_rejected = "Rejected" }

abbrev table : Snapshot
table = record { match_id = some "m"; game = some 7; action_ack = none }

abbrev confirmed : Snapshot
confirmed = record {
  match_id = some "m";
  game = some 8;
  action_ack =
      some (record { command_id = "id"; status = "accepted"; revision = some 8; detail = none });
}

abbrev move : Pending
move = record {
  object = 0;
  body = record {
    command_id = "id";
    draft = record { match_id = "m"; expected_revision = 7; command = "BID"; payload = "{}" };
  };
}

abbrev waiting : PendingGameAction
waiting = record { request = some move; made = 1 }

abbrev submitting : Event
submitting = submitted "id" table "BID" "{}"

-- The latest event comes first.
abbrev retried : List Event
retried =
    loaded 1 table
    ∷ refreshed
    ∷ answered 0 (other_error "offline")
    ∷ loaded 0 table
    ∷ refreshed
    ∷ submitting
    ∷ []

retried_posts : (run texts retried).posted ≡ move ∷ move ∷ []
unfolding run step submit refresh_loaded reconcile_finish
retried_posts = refl

confirmed_clears :
    (run texts (answered 1 (response confirmed) ∷ retried)).client.action.request ≡ none
unfolding run step submit refresh_loaded reconcile_finish
confirmed_clears = refl

run-IsSound_example : IsSound (run texts retried)
run-IsSound_example = run-IsSound texts retried

reconcile_finish-settles_iff_example :
    Finishes false move
      (response confirmed)
      waiting
      (reconcile_finish texts false move table (response confirmed) waiting)
reconcile_finish-settles_iff_example =
    reconcile_finish-settles_iff texts false move table (response confirmed) waiting

abbrev newer : PendingGameAction
newer = record { request = some (record move { object = 1 }); made = 2 }

retried_pending : (run texts retried).client.action.request ≡ some move
unfolding run step submit refresh_loaded reconcile_finish
retried_pending = refl

step-keeps_pending_example :
    ((step texts (answered 1 (response confirmed)) (run texts retried)).client.action.request
      ≡ some move)
    ⊎ (Released (run texts retried) move (answered 1 (response confirmed))
        × ((step texts (answered 1 (response confirmed)) (run texts retried)).client.action.request
            ≡ none))
step-keeps_pending_example =
    step-keeps_pending texts (answered 1 (response confirmed)) (run texts retried) move
      retried_pending

abbrev polling : List Event
polling = refreshed ∷ []

polling_accepts : (submit "id" table "BID" "{}" (run texts polling).client).1 ≡ true
unfolding run step submit
polling_accepts = refl

polling_task :
    find_task 0 (run texts polling).tasks
    ≡ some (record { id = 0; aborted = false; phase = loading 0 })
unfolding run step
polling_task = refl

abbrev other_match : Snapshot
other_match = record { match_id = some "n"; game = some 1; action_ack = none }

submit_outdates_loading_example :
    let w = step texts submitting (run texts polling) in
    let w' = step texts (loaded 0 other_match) w in
    (w'.client ≡ w.client)
    × (w'.outcomes ≡ returned other_match "" ∷ w.outcomes)
    × (w'.posted ≡ w.posted)
submit_outdates_loading_example =
    submit_outdates_loading texts polling "id" table "BID" "{}" 0 0
      (record { id = 0; aborted = false; phase = loading 0 }) other_match polling_accepts
      polling_task refl
