-- ===== src/Table/Entry.antt =====
-- client/src/multiplayer/tableNavigation.ts (tableEntry, tablePhase) and
-- client/src/multiplayer/tableHeaderSharing.ts. Labels are the catalog's keys.
use bhidne_ho.Prelude.{
  ℕ, Bool, true, false, not, ◌&&◌, ◌||◌, Option, none, some, String, ◌≡◌, ◌≢◌, ◌↔◌, ◌⊎◌, refl,
  arith, str_eq, eq_iff, is_empty, if◌then◌else◌, is_some,
}

pub data Phase : Type 0 where
  open_phase locked started completed ended : Phase

pub record CurrentUser : Type 0 where
  pub is_seated : Bool
  pub is_queued : Bool
  pub can_join : Bool
  pub can_queue : Bool

pub record TableSummary : Type 0 where
  pub status : String
  pub phase : Option Phase
  pub current_user : Option CurrentUser

pub data EntryAction : Type 0 where
  watch seat queue : EntryAction

pub record TableEntry : Type 0 where
  pub label : String
  pub action : EntryAction

abbrev is_ended : Option Phase → Bool
is_ended (some ended) = true
is_ended _ = false

abbrev is_open : Option Phase → Bool
is_open (some open_phase) = true
is_open _ = false

abbrev is_completed : Option Phase → Bool
is_completed (some completed) = true
is_completed _ = false

-- A flag of the current user, false where there is none.
abbrev flag : (CurrentUser → Bool) → Option CurrentUser → Bool
flag f none = false
flag f (some u) = f u

abbrev entry : String → EntryAction → TableEntry
entry label action = record { label = label; action = action }

unfoldable pub table_entry : TableSummary → TableEntry
table_entry t =
    let me = t.current_user in
    if is_ended t.phase || str_eq t.status "ended"
    then entry "common.view_results" watch
    else if flag (λ u. u.is_seated) me
    then entry "common.return_to_table" watch
    else if flag (λ u. u.is_queued) me
    then entry "rooms.watch" watch
    else if is_open t.phase && flag (λ u. u.can_join) me
    then entry "rooms.take_seat" seat
    else if is_open t.phase && flag (λ u. u.can_queue) me
    then entry "rooms.join_queue" queue
    else entry (if is_completed t.phase then "common.view_results" else "rooms.watch") watch

-- The name that `tablePhase` looks up.
unfoldable pub table_phase : TableSummary → String
table_phase t = elim t.phase [
  | none ↦ t.status
  | some p ↦ elim p [
    | open_phase ↦ "Open"
    | locked ↦ "Ready to start"
    | started ↦ "Playing"
    | completed ↦ "Completed"
    | ended ↦ "Ended"
  ]
]

-- A table offers a seat exactly to a user who may join, sits and waits nowhere at it, while the table is
-- open and not ended; it offers the queue exactly to such a user who may not join but may queue.
pub table_entry-seat_iff :
    (t : TableSummary) (u : CurrentUser)
    → t.current_user ≡ some u
    → let free =
        (t.phase ≡ some open_phase)
        × (t.status ≢ "ended")
        × (u.is_seated ≡ false)
        × (u.is_queued ≡ false) in
      (((table_entry t).action ≡ seat) ↔ (free × (u.can_join ≡ true)))
      × (((table_entry t).action ≡ queue) ↔ (free × (u.can_join ≡ false) × (u.can_queue ≡ true)))
unfolding table_entry
table_entry-seat_iff t u h = ground (arith, eq_iff t.status "ended")

-- The parts of a snapshot that decide on the share button. `has_table` is whether there is a table,
-- `seated` its `current_user.is_seated`, `phase` its phase; `flush_status` is the Flush round's.
pub record ShareView : Type 0 where
  pub match_id : Option String
  pub room_id : Option String
  pub status : String
  pub table : Option (Bool × Phase)
  pub your_player_id : Option ℕ
  pub flush_status : Option String

abbrev missing : Option String → Bool
missing none = true
missing (some s) = is_empty s

abbrev is_seated : Option (Bool × Phase) → Option ℕ → Bool
is_seated none id = is_some id
is_seated (some (seated, phase)) id = seated

abbrev between_rounds : Option (Bool × Phase) → Option String → Bool
between_rounds (some (seated, completed)) flush = true
between_rounds (some (seated, open_phase)) flush = true
between_rounds t none = false
between_rounds t (some s) = str_eq s "finished"

unfoldable pub show_table_header_share : ShareView → Bool
show_table_header_share v =
    if missing v.match_id || missing v.room_id || str_eq v.status "ended" || str_eq v.status "empty"
    then false
    else if not (is_seated v.table v.your_player_id)
    then true
    else not (str_eq v.status "playing") || between_rounds v.table v.flush_status

share_cases :
    (v : ShareView) (m r : String) (seated : Bool) (phase : Phase) (f : Option String)
    → v.match_id ≡ some m
    → v.room_id ≡ some r
    → v.table ≡ some (seated, phase)
    → v.flush_status ≡ f
    → (show_table_header_share v ≡ true) ↔ (
        (m ≢ "")
        × (r ≢ "")
        × (v.status ≢ "ended")
        × (v.status ≢ "empty")
        × ((seated ≡ false)
            ⊎ ((v.status ≢ "playing")
                ⊎ ((phase ≡ open_phase) ⊎ ((phase ≡ completed) ⊎ (f ≡ some "finished"))))))
unfolding show_table_header_share
share_cases v m r seated phase none a b c d = ground (
  arith,
  eq_iff m "",
  eq_iff r "",
  eq_iff v.status "ended",
  eq_iff v.status "empty",
  eq_iff v.status "playing",
)
share_cases v m r seated phase (some f) a b c d = ground (
  arith,
  eq_iff m "",
  eq_iff r "",
  eq_iff v.status "ended",
  eq_iff v.status "empty",
  eq_iff v.status "playing",
  eq_iff f "finished",
)

-- The header offers to share a table that has a match and a room and is neither ended nor empty to
-- everybody who has no seat, and to a seated player exactly when the table is not playing or is between
-- rounds, which a table is when it is open or completed and when its Flush round is finished.
pub show_table_header_share_iff :
    (v : ShareView) (m r : String) (seated : Bool) (phase : Phase)
    → v.match_id ≡ some m
    → v.room_id ≡ some r
    → v.table ≡ some (seated, phase)
    → (show_table_header_share v ≡ true) ↔ (
        (m ≢ "")
        × (r ≢ "")
        × (v.status ≢ "ended")
        × (v.status ≢ "empty")
        × ((seated ≡ false)
            ⊎ ((v.status ≢ "playing")
                ⊎ ((phase ≡ open_phase)
                    ⊎ ((phase ≡ completed) ⊎ (v.flush_status ≡ some "finished"))))))
unfolding show_table_header_share
show_table_header_share_iff v m r seated phase a b c =
    share_cases v m r seated phase v.flush_status a b c refl
