-- ===== src/Table/Tests.antt =====
-- The theorems of the table at one table's data.
use bhidne_ho.Prelude.{true, false, some, List, [], ◌∷◌, String, ◌≡◌, refl, arith, length}
use bhidne_ho.Table.{seated_order, table_seat_geometry}
use bhidne_ho.Table.Geometry.{IsLaidOut, table_seat_geometry-IsLaidOut}
use bhidne_ho.Table.Entry.{TableSummary, CurrentUser, open_phase, started, ShareView}
use bhidne_ho.Table.Bids.{bid_progress, missed}
use bhidne_ho.Table.Guidance.{FlowState, RoundGame, playing, round_guidance, follow_suit}

table_seat_geometry-IsLaidOut_example :
    let g = table_seat_geometry 5 320 false (some 500) in (length g.positions ≡ 5) × IsLaidOut 320 g
table_seat_geometry-IsLaidOut_example =
    table_seat_geometry-IsLaidOut 5 320 false (some 500) (omega arith) (omega arith) (omega arith)

abbrev players : List String
players = "a" ∷ "b" ∷ "c" ∷ []

rotated : seated_order players "b" ≡ "b" ∷ "c" ∷ "a" ∷ []
unfolding seated_order
rotated = refl

abbrev guest : CurrentUser
guest = record { is_seated = false; is_queued = false; can_join = true; can_queue = false }

abbrev table : TableSummary
table = record { status = "waiting"; phase = some open_phase; current_user = some guest }

abbrev playing_table : ShareView
playing_table = record {
  match_id = some "m";
  room_id = some "r";
  status = "playing";
  table = some (true, started);
  your_player_id = some 1;
  flush_status = some "finished";
}

missed_now : (bid_progress 4 1 (some 2)).state ≡ missed
unfolding bid_progress
missed_now = refl

abbrev led : RoundGame
led = record { phase = playing; turn = some 2; plays = "10H" ∷ [] }

abbrev round : FlowState
round = record { your_player_id = some 2; players = []; game = some led; can_accept_hand = false }

follows : (round_guidance round).instruction ≡ follow_suit "hearts"
unfolding round_guidance
follows = refl
