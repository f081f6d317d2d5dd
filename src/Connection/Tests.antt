-- ===== src/Connection/Tests.antt =====
-- A room's connection from its first call to a drop, and the theorems at its states.
use bhidne_ho.Prelude.{true, false, some, none, [], ◌∷◌, ◌≡◌, refl, ◌⊎◌}
use bhidne_ho.Connection.{
  Address, Connection, create, object, dial_url, redial, on_message, on_close, on_status, connected,
  reconnecting, connecting, disconnected, closed, dialed, on_event, start, expire,
}
use bhidne_ho.Connection.Safety.{IsSafe}
use bhidne_ho.Connection.Run.{
  begin, retry, expired, message, step, Reach, fresh, next, Reach-IsSafe, step-stopped, tick,
  silent_link_dropped, planned, drop_after_connected,
}

abbrev lobby : Address
lobby = record { url = "wss://h/ws/rooms/demo?token=t"; resume = some false }

abbrev started : Connection
started = step (begin true) (create lobby)

abbrev online : Connection
online = step (message 0 (object "CONNECTED")) started

abbrev halted : Connection
halted = step (message 0 (object "ROOM_LEFT")) online

started_reach : Reach lobby started
unfolding create
started_reach = next (begin true) fresh refl

online_reach : Reach lobby online
online_reach = next (message 0 (object "CONNECTED")) started_reach tt

halted_reach : Reach lobby halted
halted_reach = next (message 0 (object "ROOM_LEFT")) online_reach tt

Reach-IsSafe_example : IsSafe online
Reach-IsSafe_example = Reach-IsSafe lobby online_reach

halted_stopped : halted.stopped ≡ true
unfolding step create start on_message expire
halted_stopped = refl

step-stopped_example : step (retry true) halted ≡ halted
step-stopped_example = step-stopped lobby (retry true) halted_reach halted_stopped tt

online_running : online.stopped ≡ false
unfolding step create start on_message expire
online_running = refl

online_socket : online.socket ≡ some 0
unfolding step create start on_message expire
online_socket = refl

silent_link_dropped_example :
    ((tick true online).socket ≡ none) ⊎ ((tick true (tick true online)).socket ≡ none)
silent_link_dropped_example =
    silent_link_dropped lobby true true 0 online_reach online_running online_socket

drop_after_connected_example :
    let d = on_message 0 (object "CONNECTED") online in
    let e = on_close 0 d in
    (d.ready ≡ true)
    × (planned e ≡ (redial, 1000) ∷ [])
    × (e.socket ≡ none)
    × (e.live ≡ [])
    × (e.log ≡ on_status reconnecting ∷ closed 0 ∷ on_status connected ∷ online.log)
drop_after_connected_example =
    drop_after_connected lobby 0 online_reach online_running online_socket

-- After the fourth refused dial the next waits eight seconds.
abbrev refused : Connection
refused =
    step (expired 2 false)
      (step (expired 1 false) (step (expired 0 false) (step (begin false) (create lobby))))

refused_waits : planned refused ≡ (redial, 8000) ∷ []
unfolding step create start on_message expire
refused_waits = refl

left_log :
    halted.log
    ≡ on_event "ROOM_LEFT"
      ∷ on_status disconnected
      ∷ closed 0
      ∷ on_status connected
      ∷ dialed "wss://h/ws/rooms/demo?token=t"
      ∷ on_status connecting
      ∷ []
unfolding step create start on_message expire
left_log = refl

resumed : dial_url lobby true ≡ some "wss://h/ws/rooms/demo?token=t&resume=1"
unfolding dial_url
resumed = refl
