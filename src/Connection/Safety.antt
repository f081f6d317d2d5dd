-- ===== src/Connection/Safety.antt =====
-- What holds of a RoomConnection in every state that its user and the event loop can reach.
use bhidne_ho.Prelude.{
  ℕ, zero, suc, ◌^◌, ◌≤◌, All, ◌==◌, find?, Bool, true, false, Option, none, some, List, [], ◌∷◌,
  ◌≡◌, refl, arith, is_some, Bool-cases, ◌⊎◌, inl, inr,
}
use native.Mathlib.Nat.{pow-suc}
use bhidne_ho.Connection.{
  Connection, Timer, Callback, give_up, redial, heartbeat, Incoming, cancel, forget_timer,
  dispose_socket, reconnect, connect, start, stop, retry_now, schedule_heartbeat, on_close,
  on_message, beat, expire, backoff, run_callback,
}

-- Which sockets a timer may be armed beside.
abbrev pub Fits : Callback → Option ℕ → Type 0
Fits give_up s = is_some s ≡ true
Fits redial s = s ≡ none
Fits (heartbeat k) s = s ≡ some k

-- A stopped connection has no timer and no socket; a running one has exactly one timer.
abbrev pub Watched : Bool → List Timer → Option ℕ → Option ℕ → Type 0
Watched true ts h s = (ts ≡ []) × (s ≡ none)
Watched false [] h s = ⊥
Watched false (t ∷ []) h s = (h ≡ some t.id) × Fits t.callback s
Watched false (t ∷ u ∷ ts) h s = ⊥

abbrev pub only : Option ℕ → List ℕ
only none = []
only (some s) = s ∷ []

-- Every delay lies between one and ten seconds.
abbrev pub InTime : Timer → Type 0
InTime t = (1000 ≤ t.delay) × (t.delay ≤ 10000)

pub record IsSafe (c : Connection) : Type 0 where
  pub watched : Watched c.stopped c.armed c.timer c.socket
  pub sockets : c.live ≡ only c.socket
  pub in_time : All InTime c.armed
  pub open_if_ready : c.ready ≡ true → is_some c.socket ≡ true

record IsIdle (c : Connection) : Type 0 where
  pub no_timer : c.armed ≡ []
  pub no_socket : c.socket ≡ none
  pub no_live : c.live ≡ []
  pub not_ready : c.ready ≡ false

pow_pos : (n : ℕ) → 1 ≤ 2 ^ n
pow_pos zero = omega arith
pow_pos (suc n) = rw pow-suc (omega (arith, pow_pos n))

backoff_bounds : (n : ℕ) → (1000 ≤ backoff n) × (backoff n ≤ 8000)
backoff_bounds n = omega (arith, pow_pos n)

cancel-Watched : (b : Bool) (ts : List Timer) (h s : Option ℕ) → Watched b ts h s → cancel h ts ≡ []
cancel-Watched true ts none s w = w.0
cancel-Watched true ts (some i) s w = ground arith
cancel-Watched false [] h s w = absurd w
cancel-Watched false (t ∷ []) h s w = ground arith
cancel-Watched false (t ∷ u ∷ ts) h s w = absurd w

dispose_socket-IsIdle : (c : Connection) → IsSafe c → IsIdle (dispose_socket c)
unfolding dispose_socket
dispose_socket-IsIdle c v =
    ground (arith, cancel-Watched c.stopped c.armed c.timer c.socket v.watched)

dispose_socket-stopped : (c : Connection) → (dispose_socket c).stopped ≡ c.stopped
unfolding dispose_socket
dispose_socket-stopped c = ground arith

reconnect-IsSafe : (c : Connection) → IsSafe c → IsSafe (reconnect c)
unfolding reconnect
reconnect-IsSafe c v = ground (
  arith,
  dispose_socket-IsIdle c v,
  dispose_socket-stopped c,
  backoff_bounds (dispose_socket c).attempts,
)

connect-IsSafe : (opens : Bool) (c : Connection) → IsIdle c → IsSafe (connect opens c)
unfolding connect
connect-IsSafe opens c i = ground (arith, backoff_bounds c.attempts)

pub stop-IsSafe : (c : Connection) → IsSafe c → IsSafe (stop c)
unfolding stop dispose_socket
stop-IsSafe c v = ground (arith, cancel-Watched c.stopped c.armed c.timer c.socket v.watched)

pub start-IsSafe :
    (opens : Bool) (c : Connection) → IsSafe c → c.stopped ≡ true → IsSafe (start opens c)
unfolding start
start-IsSafe opens c v h = connect-IsSafe opens (record c { stopped = false }) (ground arith)

pub retry_now-IsSafe : (opens : Bool) (c : Connection) → IsSafe c → IsSafe (retry_now opens c)
unfolding retry_now
retry_now-IsSafe opens c v =
    ground (arith, dispose_socket-IsIdle c v, connect-IsSafe opens (dispose_socket c))

schedule_heartbeat-IsSafe :
    (s : ℕ) (c : Connection)
    → IsSafe c
    → c.socket ≡ some s
    → c.stopped ≡ false
    → IsSafe (schedule_heartbeat s c)
unfolding schedule_heartbeat
schedule_heartbeat-IsSafe s c v h r =
    ground (arith, cancel-Watched c.stopped c.armed c.timer c.socket v.watched)

pub on_close-IsSafe : (s : ℕ) (c : Connection) → IsSafe c → IsSafe (on_close s c)
unfolding on_close
on_close-IsSafe s c v = ground (arith, reconnect-IsSafe c v)

pub on_message-IsSafe :
    (s : ℕ) (m : Incoming) (c : Connection) → IsSafe c → IsSafe (on_message s m c)
unfolding on_message
on_message-IsSafe s m c v = ground (arith, stop-IsSafe c v, schedule_heartbeat-IsSafe s c v)

beat-IsSafe :
    (a : Bool) (s : ℕ) (c : Connection)
    → c.armed ≡ []
    → c.socket ≡ some s
    → c.live ≡ s ∷ []
    → c.stopped ≡ false
    → IsSafe (beat a s c)
unfolding beat
beat-IsSafe a s c n h l r = ground (arith, backoff_bounds c.attempts)

-- What stays of a connection whose one timer has just fired.
abbrev fired : Connection → Connection
fired c = record c { armed = [] }

fire-IsSafe :
    (a : Bool) (k : Callback) (c : Connection)
    → IsSafe c
    → c.stopped ≡ false
    → Fits k c.socket
    → IsSafe (run_callback k a (fired c))
unfolding reconnect connect beat
fire-IsSafe a give_up c v r f = ground (arith, backoff_bounds c.attempts)
fire-IsSafe a redial c v r f = ground (arith, backoff_bounds c.attempts)
fire-IsSafe a (heartbeat s) c v r f = ground (arith, backoff_bounds c.attempts)

abbrev pub has_id : ℕ → Timer → Bool
has_id i t = t.id == i

-- The timer that fires is the only one, and fits the socket.
pub Watched-find :
    (i : ℕ) (b : Bool) (ts : List Timer) (h s : Option ℕ)
    → Watched b ts h s
    → (find? (has_id i) ts ≡ none)
      ⊎ ((t : Timer) × (find? (has_id i) ts ≡ some t)
          × (forget_timer i ts ≡ [])
          × (b ≡ false)
          × Fits t.callback s)
Watched-find i true [] h s w = inl refl
Watched-find i true (t ∷ ts) h s w = cc
Watched-find i false [] h s w = absurd w
Watched-find i false (t ∷ []) h s w = elim (Bool-cases (t.id == i)) [
  | inl e ↦ inr (t, rw e, rw e, refl, w.1)
  | inr e ↦ inl (rw e)
]
Watched-find i false (t ∷ u ∷ ts) h s w = absurd w

pub expire-IsSafe : (i : ℕ) (a : Bool) (c : Connection) → IsSafe c → IsSafe (expire i a c)
unfolding expire
expire-IsSafe i a c v = elim (Watched-find i c.stopped c.armed c.timer c.socket v.watched) [
  | inl none_fires ↦ rw (expire, none_fires) v
  | inr (t, found, rest, running, fits) ↦
      rw (expire, found, rest) (fire-IsSafe a t.callback c v running fits)
]
