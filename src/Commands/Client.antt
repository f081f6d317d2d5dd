-- ===== src/Commands/Client.antt =====
-- client/src/multiplayer/GameCommandClient.ts: the class GameCommandClient. `refresh` is its parts
-- between the points where it waits, one function for each.
use bhidne_ho.Prelude.{
  ℕ, ◌+◌, Bool, true, false, Option, some, String, is_some, is_empty, if◌then◌else◌, ◌==◌,
}
use bhidne_ho.Commands.{
  PendingGameAction, idle, Snapshot, returned, Reconcile, settled, begin, reconcile_start,
}

pub record GameCommandClient : Type 0 where
  pub action : PendingGameAction
  pub generation : ℕ

abbrev pub new_client : GameCommandClient
new_client = record { action = idle; generation = 0 }

unfoldable pub pending : GameCommandClient → Bool
pending c = is_some c.action.request

abbrev pub count_submitted : GameCommandClient → PendingGameAction × Bool → GameCommandClient × Bool
count_submitted c (p, true) = (record { action = p; generation = c.generation + 1 }, true)
count_submitted c (p, false) = (record c { action = p }, false)

abbrev pub submit_to :
    String
    → String
    → String
    → Option String
    → Option ℕ
    → GameCommandClient
    → GameCommandClient × Bool
submit_to id command payload (some match) (some revision) c =
    if is_empty match
    then (c, false)
    else count_submitted c (
        begin id
          (record {
            match_id = match;
            expected_revision = revision;
            command = command;
            payload = payload;
          })
          c.action)
submit_to id command payload match revision c = (c, false)

-- `id` is what `newCommandId` gives.
unfoldable pub submit :
    String → Snapshot → String → String → GameCommandClient → GameCommandClient × Bool
unfolding begin
submit id s command payload c = submit_to id command payload s.match_id s.game c

-- `refresh` from the snapshot's arrival: `generation` is the client's when the refresh began.
unfoldable pub refresh_loaded : ℕ → Bool → Snapshot → GameCommandClient → Reconcile
unfolding reconcile_start
refresh_loaded generation aborted s c =
    if generation == c.generation
    then reconcile_start aborted s c.action
    else settled c.action (returned s "")
