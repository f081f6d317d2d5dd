-- ===== src/Connection.antt =====
-- client/src/multiplayer/RoomConnection.ts: the transport of one room. A timer or a socket is a
-- number; `armed` holds the timers that the event loop still owes a call, `live` the sockets that
-- still have their handlers. `log` holds the calls of the two callbacks and the effects on sockets,
-- newest first. The callbacks do not call the connection back.
pub mod Run
pub mod Safety
mod Tests
use Prim.Native.Char.{code}
use Prim.Native.String
use bhidne_ho.Prelude.{
  ℕ, ◌+◌, ◌*◌, ◌^◌, min, Bool, true, false, not, ◌&&◌, ◌||◌, Option, none, some, List, [], ◌∷◌,
  String, is_some, str_eq, if◌then◌else◌, ◌==◌, filterb, find?,
}

pub data ConnectionStatus : Type 0 where
  connecting connected reconnecting disconnected : ConnectionStatus

-- What a pending timer will call: `reconnect`, `connect`, or the heartbeat of the socket that its
-- closure holds.
pub data Callback : Type 0 where
  give_up redial : Callback
  heartbeat : ℕ → Callback

pub record Timer : Type 0 where
  pub id : ℕ
  pub callback : Callback
  pub delay : ℕ

pub data Effect : Type 0 where
  on_status : ConnectionStatus → Effect
  on_event : String → Effect
  dialed : String → Effect
  sent : String → Effect
  closed : ℕ → Effect

-- What `JSON.parse(event.data)` gives: it throws, it is no object, or it has this `type`.
pub data Incoming : Type 0 where
  garbled not_object : Incoming
  object : String → Incoming

-- `resume` is the verdict of `new URL(url).searchParams.has('resume')`; `none`, if that throws.
pub record Address : Type 0 where
  pub url : String
  pub resume : Option Bool

pub record Connection : Type 0 where
  pub address : Address
  pub socket : Option ℕ
  pub ready : Bool
  pub timer : Option ℕ
  pub stopped : Bool
  pub attempts : ℕ
  pub has_connected : Bool
  pub armed : List Timer
  pub live : List ℕ
  pub next : ℕ
  pub log : List Effect

unfoldable pub create : Address → Connection
create a = record {
  address = a;
  socket = none;
  ready = false;
  timer = none;
  stopped = true;
  attempts = 0;
  has_connected = false;
  armed = [];
  live = [];
  next = 0;
  log = [];
}

abbrev pub emit : Effect → Connection → Connection
emit e c = record c { log = e ∷ c.log }

-- `this.timer = setTimeout(callback, delay)`
unfoldable pub set_timeout : Callback → ℕ → Connection → Connection
set_timeout k d c = record c {
  armed = record { id = c.next; callback = k; delay = d } ∷ c.armed;
  timer = some c.next;
  next = c.next + 1;
}

abbrev pub forget_timer : ℕ → List Timer → List Timer
forget_timer i = filterb (λ t. not (t.id == i))

-- `clearTimeout(this.timer)`
abbrev pub cancel : Option ℕ → List Timer → List Timer
cancel none ts = ts
cancel (some i) ts = forget_timer i ts

unfoldable pub clear_timeout : Connection → Connection
clear_timeout c = record c { armed = cancel c.timer c.armed }

abbrev drop_socket : Option ℕ → Connection → Connection
drop_socket none c = c
drop_socket (some s) c = emit (closed s) (record c { live = filterb (λ t. not (t == s)) c.live })

unfoldable pub dispose_socket : Connection → Connection
unfolding clear_timeout
dispose_socket c =
    let c' = clear_timeout (record c { ready = false }) in
    drop_socket c.socket (record c' { socket = none })

abbrev pub backoff : ℕ → ℕ
backoff attempts = min (1000 * 2 ^ attempts) 8000

unfoldable pub reconnect : Connection → Connection
unfolding dispose_socket set_timeout
reconnect c =
    if c.stopped
    then c
    else (let c' = emit (on_status reconnecting) (dispose_socket c) in
        set_timeout redial (backoff c'.attempts) (record c' { attempts = c'.attempts + 1 }))

-- `url.includes('?')`
abbrev has_question_mark : String → Bool
has_question_mark String.[] = false
has_question_mark (String.◌∷◌ c s) = (code c == b'?') || has_question_mark s

infixl 65 ◌<>◌
abbrev ◌<>◌ : String → String → String
a <> b = String.◌++◌ a b

-- The address that `connect` dials; `none`, if `new URL` throws.
unfoldable pub dial_url : Address → Bool → Option String
dial_url a false = some a.url
dial_url a true = elim a.resume [
  | none ↦ none
  | some true ↦ some a.url
  | some false ↦ some (a.url <> (if has_question_mark a.url then "&" else "?") <> "resume=1")
]

abbrev opened : Connection → Connection
opened c = record c { socket = some c.next; live = c.next ∷ c.live; next = c.next + 1 }

abbrev dial : Bool → Option String → Connection → Connection
dial opens none c = reconnect c
dial true (some u) c = set_timeout give_up 10000 (opened (emit (dialed u) c))
dial false (some u) c = reconnect c

-- `opens` says whether `makeSocket` gives a socket or throws.
unfoldable pub connect : Bool → Connection → Connection
unfolding reconnect set_timeout dial_url
connect opens c =
    if c.stopped
    then c
    else dial opens (dial_url c.address c.has_connected)
        (emit (on_status (if c.attempts == 0 then connecting else reconnecting)) c)

unfoldable pub start : Bool → Connection → Connection
unfolding connect
start opens c = connect opens (record c { stopped = false })

unfoldable pub stop : Connection → Connection
unfolding dispose_socket
stop c = dispose_socket (record c { stopped = true })

unfoldable pub retry_now : Bool → Connection → Connection
unfolding dispose_socket connect
retry_now opens c = if c.stopped then c else connect opens (dispose_socket c)

unfoldable pub schedule_heartbeat : ℕ → Connection → Connection
unfolding clear_timeout set_timeout
schedule_heartbeat s c = set_timeout (heartbeat s) 5000 (clear_timeout c)

abbrev is_current : ℕ → Connection → Bool
is_current s c = elim c.socket [ none ↦ false | some t ↦ t == s ]

-- `socket.onclose = socket.onerror`
unfoldable pub on_close : ℕ → Connection → Connection
unfolding reconnect
on_close s c = if is_current s c then reconnect c else c

abbrev handle : ℕ → String → Connection → Connection
handle s kind c =
    if str_eq kind "ROOM_LEFT"
    then emit (on_event kind) (emit (on_status disconnected) (stop c))
    else if str_eq kind "CONNECTED"
    then schedule_heartbeat s
        (emit (on_status connected) (record c { ready = true; has_connected = true; attempts = 0 }))
    else if str_eq kind "HEARTBEAT_ACK"
    then schedule_heartbeat s c
    else emit (on_event kind) c

abbrev receive : ℕ → Incoming → Connection → Connection
receive s garbled c = c
receive s not_object c = c
receive s (object kind) c = handle s kind c

unfoldable pub on_message : ℕ → Incoming → Connection → Connection
unfolding stop schedule_heartbeat
on_message s m c = if is_current s c && not c.stopped then receive s m c else c

-- The heartbeat's callback; `accepts` says whether `socket.send` returns or throws.
unfoldable pub beat : Bool → ℕ → Connection → Connection
unfolding set_timeout reconnect
beat accepts s c =
    if not (is_current s c) || c.stopped
    then c
    else (let c' = set_timeout give_up 10000 c in
        if accepts then emit (sent "HEARTBEAT") c' else reconnect c')

abbrev pub run_callback : Callback → Bool → Connection → Connection
run_callback give_up answer c = reconnect c
run_callback redial answer c = connect answer c
run_callback (heartbeat s) answer c = beat answer s c

-- The event loop calls the timer `i` back. `answer` is what `makeSocket` or `socket.send` does.
unfoldable pub expire : ℕ → Bool → Connection → Connection
unfolding reconnect connect beat
expire i answer c = elim (find? (λ t. t.id == i) c.armed) [
  | none ↦ c
  | some t ↦ run_callback t.callback answer (record c { armed = forget_timer i c.armed })
]

unfoldable pub send : Bool → String → Connection → Connection × Bool
send accepts message c =
    if not c.ready || not (is_some c.socket) || c.stopped
    then (c, false)
    else if accepts
    then (emit (sent message) c, true)
    else (c, false)
