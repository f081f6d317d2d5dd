-- ===== src/Connection/Run.antt =====
-- The connection under every sequence of calls of its user, timers that expire and socket events.
use bhidne_ho.Prelude.{
  ℕ, Bool, true, false, none, some, [], ◌∷◌, String, ◌≡◌, arith, ◌⊎◌, List, Option, map, inl, refl,
}
use bhidne_ho.Connection.{
  Connection, Address, Timer, give_up, heartbeat, Incoming, create, start, stop, reconnect, beat,
  retry_now, on_close, on_message, expire, send, Callback, object, redial, on_status, reconnecting,
  closed, connected,
}
use bhidne_ho.Connection.Safety.{
  Watched-find, IsSafe, start-IsSafe, stop-IsSafe, retry_now-IsSafe, on_close-IsSafe,
  on_message-IsSafe, expire-IsSafe, Fits, Watched,
}

-- What can happen to a connection. A Boolean is the answer of `makeSocket` or `socket.send`.
pub data Event : Type 0 where
  begin : Bool → Event
  halt : Event
  retry : Bool → Event
  expired : ℕ → Bool → Event
  dropped : ℕ → Event
  message : ℕ → Incoming → Event
  sending : Bool → String → Event

unfoldable pub step : Event → Connection → Connection
step (begin opens) c = start opens c
step halt c = stop c
step (retry opens) c = retry_now opens c
step (expired i answer) c = expire i answer c
step (dropped s) c = on_close s c
step (message s m) c = on_message s m c
step (sending accepts text) c = (send accepts text c).0

-- `start` is called only on a connection that is stopped, as a new one is: `start` itself does not check
-- it, and useRoomSession.ts calls it once on each new connection.
abbrev pub Allowed : Event → Connection → Type 0
Allowed (begin opens) c = c.stopped ≡ true
Allowed e c = Unit

pub data Reach (a : Address) : Connection → Type 0 where
  fresh : Reach a (create a)
  next : {c : Connection} (e : Event) → Reach a c → Allowed e c → Reach a (step e c)

create-IsSafe : (a : Address) → IsSafe (create a)
unfolding create
create-IsSafe a = ground arith

send-IsSafe :
    (accepts : Bool) (text : String) (c : Connection) → IsSafe c → IsSafe (send accepts text c).0
unfolding send
send-IsSafe accepts text c v = ground arith

step-IsSafe : (e : Event) (c : Connection) → IsSafe c → Allowed e c → IsSafe (step e c)
unfolding step
step-IsSafe (begin opens) c v h = start-IsSafe opens c v h
step-IsSafe halt c v h = stop-IsSafe c v
step-IsSafe (retry opens) c v h = retry_now-IsSafe opens c v
step-IsSafe (expired i answer) c v h = expire-IsSafe i answer c v
step-IsSafe (dropped s) c v h = on_close-IsSafe s c v
step-IsSafe (message s m) c v h = on_message-IsSafe s m c v
step-IsSafe (sending accepts text) c v h = send-IsSafe accepts text c v

-- The events other than the user's calls of `start` and `stop`.
abbrev pub Passive : Event → Type 0
Passive (begin opens) = ⊥
Passive halt = ⊥
Passive e = Unit

step-stopped_of_IsSafe :
    (e : Event) (c : Connection) → IsSafe c → c.stopped ≡ true → Passive e → step e c ≡ c
unfolding step retry_now expire on_close on_message send
step-stopped_of_IsSafe (begin opens) c v h p = absurd p
step-stopped_of_IsSafe halt c v h p = absurd p
step-stopped_of_IsSafe (retry opens) c v h p = ground arith
step-stopped_of_IsSafe (expired i answer) c v h p =
    ground (arith, Watched-find i c.stopped c.armed c.timer c.socket v.watched)
step-stopped_of_IsSafe (dropped s) c v h p = ground arith
step-stopped_of_IsSafe (message s m) c v h p = ground arith
step-stopped_of_IsSafe (sending accepts text) c v h p = ground arith

-- In every state that a new connection can reach, if `start` is called only while it is stopped, it holds no timer and no socket once stopped, and
-- exactly one armed timer, the one that `this.timer` names, while it runs; the only socket with
-- handlers is the current one; every delay lies between one and ten seconds; and a ready
-- connection has a socket.
pub Reach-IsSafe : (a : Address) {c : Connection} → Reach a c → IsSafe c
Reach-IsSafe a fresh = create-IsSafe a
Reach-IsSafe a (next {c} e r h) = step-IsSafe e c (Reach-IsSafe a r) h

-- A reachable connection that is stopped stays exactly as it is, whatever its timers, its sockets
-- and the calls of `retryNow` and `send` do: nothing is dialled, sent or reported.
pub step-stopped :
    (a : Address) (e : Event) {c : Connection}
    → Reach a c
    → c.stopped ≡ true
    → Passive e
    → step e c ≡ c
step-stopped a e {c} r h p = step-stopped_of_IsSafe e c (Reach-IsSafe a r) h p

-- The armed timer of a connection expires.
unfoldable pub tick : Bool → Connection → Connection
unfolding expire
tick answer c = elim c.timer [ none ↦ c | some i ↦ expire i answer c ]

tick_give_up :
    (a : Bool) (c : Connection) (t : Timer)
    → c.stopped ≡ false
    → c.timer ≡ some t.id
    → c.armed ≡ t ∷ []
    → t.callback ≡ give_up
    → (tick a c).socket ≡ none
unfolding tick reconnect
tick_give_up a c t r h w k = ground arith

tick_heartbeat :
    (a b : Bool) (s : ℕ) (c : Connection) (t : Timer)
    → c.stopped ≡ false
    → c.timer ≡ some t.id
    → c.armed ≡ t ∷ []
    → t.callback ≡ heartbeat s
    → c.socket ≡ some s
    → ((tick a c).socket ≡ none) ⊎ ((tick b (tick a c)).socket ≡ none)
unfolding tick beat reconnect
tick_heartbeat a b s c t r h w k f = ground arith

Watched-one :
    (b : Bool) (ts : List Timer) (h s : Option ℕ)
    → Watched b ts h s
    → b ≡ false
    → (t : Timer) × (ts ≡ t ∷ []) × (h ≡ some t.id) × Fits t.callback s
Watched-one true ts h s w e = cc
Watched-one false [] h s w e = absurd w
Watched-one false (t ∷ []) h s w e = (t, refl, w.0, w.1)
Watched-one false (t ∷ u ∷ ts) h s w e = absurd w

silent_by_callback :
    (a b : Bool) (s : ℕ) (c : Connection) (t : Timer) (k : Callback)
    → t.callback ≡ k
    → c.stopped ≡ false
    → c.timer ≡ some t.id
    → c.armed ≡ t ∷ []
    → c.socket ≡ some s
    → Fits k c.socket
    → ((tick a c).socket ≡ none) ⊎ ((tick b (tick a c)).socket ≡ none)
silent_by_callback a b s c t give_up k r h w f g = inl (tick_give_up a c t r h w k)
silent_by_callback a b s c t redial k r h w f g = absurd (ground arith)
silent_by_callback a b s c t (heartbeat s') k r h w f g = tick_heartbeat a b s' c t r h w k g

-- A silent link is given up: if a reachable running connection has a socket and no message comes,
-- then the socket is let go when its armed timer expires once or twice, whatever `send` does.
pub silent_link_dropped :
    (a : Address) (x y : Bool) (s : ℕ) {c : Connection}
    → Reach a c
    → c.stopped ≡ false
    → c.socket ≡ some s
    → ((tick x c).socket ≡ none) ⊎ ((tick y (tick x c)).socket ≡ none)
silent_link_dropped a x y s {c} r h f =
    let v = Reach-IsSafe a r in
    let (t, one, named, fits) = Watched-one c.stopped c.armed c.timer c.socket v.watched h in
    silent_by_callback x y s c t t.callback refl h named one f fits

-- What the armed timers will call, and after how many milliseconds.
abbrev pub planned : Connection → List (Callback × ℕ)
planned c = map {B = Callback × ℕ} (λ t. (t.callback, t.delay)) c.armed

-- On a reachable running connection, CONNECTED on the current socket makes it ready, and a drop of that
-- socket right after leaves exactly one timer, which redials after 1000 ms, and is reported as
-- reconnecting.
pub drop_after_connected :
    (a : Address) (s : ℕ) {c : Connection}
    → Reach a c
    → c.stopped ≡ false
    → c.socket ≡ some s
    → let d = on_message s (object "CONNECTED") c in
      let e = on_close s d in
      (d.ready ≡ true)
      × (planned e ≡ (redial, 1000) ∷ [])
      × (e.socket ≡ none)
      × (e.live ≡ [])
      × (e.log ≡ on_status reconnecting ∷ closed s ∷ on_status connected ∷ c.log)
unfolding on_message on_close
drop_after_connected a s {c} r h f =
    let v = Reach-IsSafe a r in
    let (t, one, named, fits) = Watched-one c.stopped c.armed c.timer c.socket v.watched h in
    ground (arith, v.sockets)
