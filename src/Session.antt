-- ===== src/Session.antt =====
-- client/src/multiplayer/useRoomSession.ts: the session of the signed-in user and the room that it is
-- in. An operation that waits for the server is a function of the answer; what it read before it
-- waited, its closure, is an argument. `stored` is what `saveSession` last wrote for the server.
pub mod Guarantees
pub mod Storage
pub mod SignIn
mod Tests
use Prim.Native.String
use bhidne_ho.Prelude.{
  ℕ, Bool, true, false, not, ◌&&◌, ◌||◌, Option, none, some, List, [], ◌∷◌, String, str_eq,
  is_empty, leb, ltb, ◌==◌, is_some, if◌then◌else◌, or_else,
}
use bhidne_ho.Connection.{ConnectionStatus, connecting, disconnected}

pub record UserSession : Type 0 where
  pub user_id : String
  pub token : String

pub record Room : Type 0 where
  pub room_id : String
  pub name : String
  pub members : List String

pub record SavedSession : Type 0 where
  pub session : UserSession
  pub room : Option Room
  pub game : Option String

-- `running` is whether the connection of the room has been left running.
pub record RoomSession : Type 0 where
  pub session : Option UserSession
  pub room : Option Room
  pub game : Option String
  pub rooms : List Room
  pub status : ConnectionStatus
  pub error : String
  pub expired : Bool
  pub abandon_required : Bool
  pub leave_game_required : Option String
  pub login_pending : Bool
  pub running : Bool
  pub stored : Option SavedSession

-- The effect that saves the session whenever it, the room, the game or the expiry changes.
unfoldable pub save_effect : RoomSession → RoomSession
save_effect s = elim s.session [
  | none ↦ s
  | some u ↦
      if s.expired
      then s
      else record s { stored = some (record { session = u; room = s.room; game = s.game }) }
]

-- What an operation closes over when it is called.
pub record Closure : Type 0 where
  pub session : Option UserSession
  pub room : Option Room
  pub expired : Bool

abbrev pub closure : RoomSession → Closure
closure s = record { session = s.session; room = s.room; expired = s.expired }

abbrev pub is_active : Closure → Bool
is_active c = is_some c.session && not c.expired

-- What a failed request throws: the status, the departure that it asks for, and the message.
pub record Failure : Type 0 where
  pub status : Option ℕ
  pub requires_leave_game : Bool
  pub match_id : Option String
  pub abandon : Bool
  pub message : String

pub data Answer (A : Type 0) : Type 0 where
  ok : A → Answer A
  failed : Failure → Answer A

-- `acceptSocialSession`
unfoldable pub accept_social_session : UserSession → RoomSession → RoomSession
accept_social_session u s =
    if is_some s.session then s else record s { session = some u; expired = false; error = "" }

-- `loginAccount`: whether it asks the server. `name_length` is the number of characters of the trimmed
-- profile name.
unfoldable pub login_begin : Bool → ℕ → RoomSession → RoomSession × Bool
login_begin signup name_length s =
    if s.login_pending || is_some s.session
    then (s, false)
    else if signup && ((name_length == 0) || ltb 25 name_length)
    then (record s { error = "Enter a profile name (1–25 characters)." }, false)
    else (record s { login_pending = true; error = "" }, true)

unfoldable pub login_answered : Answer UserSession → RoomSession → RoomSession × Bool
login_answered (ok u) s =
    (record s { session = some u; expired = false; login_pending = false }, true)
login_answered (failed e) s = (record s { error = e.message; login_pending = false }, false)

-- The poll of the rooms; `retrying` is the catalog's text. `aborted` is its AbortController's state.
unfoldable pub rooms_answered : String → Bool → Answer (List Room) → RoomSession → RoomSession
rooms_answered retrying aborted (ok rooms) s =
    if aborted then s else record s { rooms = rooms; error = "" }
rooms_answered retrying aborted (failed e) s =
    if aborted
    then s
    else if (elim e.status [ none ↦ false | some n ↦ n == 401 ])
    then record s { stored = none; expired = true; error = e.message }
    else record s { error = retrying }

-- The events of the room's connection that change the session; `deleted` is the catalog's text.
unfoldable pub room_event : String → String → RoomSession → RoomSession
room_event deleted kind s =
    if str_eq kind "ROOM_LEFT"
    then record s { room = none; game = none; leave_game_required = none }
    else if str_eq kind "ROOM_DELETED"
    then record s { room = none; game = none; leave_game_required = none; error = deleted }
    else s

abbrev entered : Room → Option String → RoomSession → RoomSession
entered target game s = record s {
  status = connecting;
  room = some target;
  game = game;
  leave_game_required = none;
  error = "";
}

unfoldable pub enter_room : Room → Option String → RoomSession → RoomSession × Bool
enter_room target game s =
    if is_active (closure s) then (entered target game s, true) else (s, false)

-- `joinRoom` after its request; it asks only if `is_active` of its closure.
unfoldable pub join_answered :
    Room → Option String → Answer (Unit {0}) → RoomSession → RoomSession × Bool
join_answered target game (ok _) s = (entered target game s, true)
join_answered target game (failed e) s = (record s { error = e.message }, false)

abbrev outside : RoomSession → RoomSession
outside s = record s {
  running = false;
  status = disconnected;
  room = none;
  game = none;
  leave_game_required = none;
  error = "";
}

-- `if (session && !expired) saveSession(apiUrl, { session, room: null, game: null })`
abbrev save_outside : Closure → RoomSession → RoomSession
save_outside c s = elim c.session [
  | none ↦ s
  | some u ↦
      if c.expired
      then s
      else record s { stored = some (record { session = u; room = none; game = none }) }
]

unfoldable pub exit_room : RoomSession → RoomSession
exit_room s = save_outside (closure s) (outside s)

abbrev ask_to_leave_game : Failure → RoomSession → RoomSession
ask_to_leave_game e s =
    if e.requires_leave_game
    then record s { leave_game_required = e.match_id; abandon_required = e.abandon }
    else s

-- `leaveRoom` after `leaveRoomMembership`.
unfoldable pub leave_answered : Closure → Answer (Unit {0}) → RoomSession → RoomSession × Bool
leave_answered c (ok _) s = (save_outside c (outside s), true)
leave_answered c (failed e) s = (record (ask_to_leave_game e s) { error = e.message }, false)

-- `leaveRoom`: the request is made only in a room, with a session that has not expired.
unfoldable pub leave_room : Closure → Answer (Unit {0}) → RoomSession → RoomSession × Bool
unfolding leave_answered
leave_room c a s = leave_answered c (if is_some c.room && is_active c then a else ok tt) s

-- `leaveGameAndRoom` after its request, which is made only if `can_leave_game` of its closure; `left` is
-- the answer that `leaveRoom` then gets.
abbrev pub can_leave_game : Closure → Option String → Bool
can_leave_game c required = is_some c.room && is_some c.session && is_some required

unfoldable pub leave_game_answered :
    Closure → Answer (Unit {0}) → Answer (Unit {0}) → RoomSession → RoomSession × Bool
unfolding leave_room
leave_game_answered c (ok _) left s = leave_room c left s
leave_game_answered c (failed e) left s = (record s { error = e.message }, false)

-- `deleteRoom`, which does not reset `leaveGameRequired`.
unfoldable pub delete_answered : Closure → Answer (Unit {0}) → RoomSession → RoomSession × Bool
delete_answered c (ok _) s = (
  save_outside c
      (record s { running = false; status = disconnected; room = none; game = none; error = "" }),
  true,
)
delete_answered c (failed e) s = (record s { error = e.message }, false)

-- `signOut`; its request to the server changes nothing here.
unfoldable pub sign_out : RoomSession → RoomSession
sign_out s = record s { running = false; stored = none; session = none; room = none; game = none }

unfoldable pub cancel_leave : RoomSession → RoomSession
cancel_leave s = record s { leave_game_required = none; error = "" }
