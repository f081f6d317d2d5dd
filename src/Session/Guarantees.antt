-- ===== src/Session/Guarantees.antt =====
-- What the operations of the session guarantee, and where a late answer breaks it.
use bhidne_ho.Prelude.{
  ℕ, Bool, true, false, ◌&&◌, Option, none, some, List, String, ◌≡◌, arith, is_some, if◌then◌else◌,
}
use bhidne_ho.Session.{
  UserSession, Room, SavedSession, RoomSession, closure, is_active, Answer, ok, failed, save_effect,
  accept_social_session, login_begin, login_answered, rooms_answered, room_event, enter_room,
  join_answered, exit_room, leave_answered, delete_answered, sign_out, cancel_leave, leave_room,
  leave_game_answered, can_leave_game,
}

-- The session's operations, each with the answer that it waits for; one that waits is called while
-- nothing else happens, so that its closure is the state itself.
pub data Operation : Type 0 where
  social : UserSession → Operation
  login : Bool → ℕ → Answer UserSession → Operation
  poll : Bool → Answer (List Room) → Operation
  event : String → Operation
  enter : Room → Option String → Operation
  join : Room → Option String → Answer (Unit {0}) → Operation
  leave_game : Answer (Unit {0}) → Answer (Unit {0}) → Operation
  leave delete : Answer (Unit {0}) → Operation
  exit quit cancel save : Operation

module _ (retrying deleted : String) where
  abbrev logged_in : Answer UserSession → RoomSession × Bool → RoomSession
  logged_in a (s, true) = (login_answered a s).0
  logged_in a (s, false) = s

  unfoldable pub perform : Operation → RoomSession → RoomSession
  perform (social u) s = accept_social_session u s
  perform (login signup n a) s = logged_in a (login_begin signup n s)
  perform (poll aborted a) s =
      if is_active (closure s) then rooms_answered retrying aborted a s else s
  perform (event kind) s = room_event deleted kind s
  perform (enter r g) s = (enter_room r g s).0
  perform (join r g a) s = if is_active (closure s) then (join_answered r g a s).0 else s
  perform (leave a) s = (leave_room (closure s) a s).0
  perform (leave_game a left) s =
      if can_leave_game (closure s) s.leave_game_required
      then (leave_game_answered (closure s) a left s).0
      else s
  perform (delete a) s =
      if is_some s.room && is_active (closure s) then (delete_answered (closure s) a s).0 else s
  perform exit s = exit_room s
  perform quit s = sign_out s
  perform cancel s = cancel_leave s
  perform save s = save_effect s

-- A room is only entered with a session; and what is stored is the session itself, or nothing once it
-- has expired or there is none.
abbrev pub Owned : Option SavedSession → Option UserSession → Type 0
Owned none u = Unit
Owned (some v) u = u ≡ some v.session

pub record IsConsistent (s : RoomSession) : Type 0 where
  pub room_needs_session : is_some s.room ≡ true → is_some s.session ≡ true
  pub stored_is_own : Owned s.stored s.session
  pub none_when_expired : s.expired ≡ true → s.stored ≡ none

-- Every operation whose answer comes while nothing else happens keeps the session consistent: there is a
-- room only with a session, what is stored is the current session, and nothing is stored once it has
-- expired.
pub perform-IsConsistent :
    (retrying deleted : String) (o : Operation) (s : RoomSession)
    → IsConsistent s
    → IsConsistent (perform retrying deleted o s)
unfolding perform accept_social_session login_begin login_answered rooms_answered room_event
    enter_room join_answered exit_room leave_answered leave_room leave_game_answered delete_answered
    sign_out cancel_leave save_effect
perform-IsConsistent t d (social u) s v = ground arith
perform-IsConsistent t d (login signup n (ok u)) s v = ground arith
perform-IsConsistent t d (login signup n (failed e)) s v = ground arith
perform-IsConsistent t d (poll aborted (ok rooms)) s v = ground arith
perform-IsConsistent t d (poll aborted (failed e)) s v = ground arith
perform-IsConsistent t d (event kind) s v = ground arith
perform-IsConsistent t d (enter r g) s v = ground arith
perform-IsConsistent t d (join r g (ok a)) s v = ground arith
perform-IsConsistent t d (join r g (failed e)) s v = ground arith
perform-IsConsistent t d (leave (ok a)) s v = ground arith
perform-IsConsistent t d (leave (failed e)) s v = ground arith
perform-IsConsistent t d (leave_game (ok a) (ok b)) s v = ground arith
perform-IsConsistent t d (leave_game (ok a) (failed e)) s v = ground arith
perform-IsConsistent t d (leave_game (failed e) b) s v = ground arith
perform-IsConsistent t d (delete (ok a)) s v = ground arith
perform-IsConsistent t d (delete (failed e)) s v = ground arith
perform-IsConsistent t d exit s v = ground arith
perform-IsConsistent t d quit s v = ground arith
perform-IsConsistent t d cancel s v = ground arith
perform-IsConsistent t d save s v = ground arith

-- If the user signs out while the request to leave or to delete the room is under way, its success
-- stores the session again that the sign-out had removed, though there is no session any more; and if
-- the request was to join a room, its success enters the room with no session.
pub late_answer_after_sign_out :
    (s : RoomSession) (u : UserSession) (r : Room)
    → s.session ≡ some u
    → s.expired ≡ false
    → let left = (leave_answered (closure s) (ok tt) (sign_out s)).0 in
      let deleted = (delete_answered (closure s) (ok tt) (sign_out s)).0 in
      let joined = (join_answered r none (ok tt) (sign_out s)).0 in
      let saved : SavedSession = record { session = u; room = none; game = none } in
      ((sign_out s).stored ≡ none)
      × (left.stored ≡ some saved)
      × (left.session ≡ none)
      × (deleted.stored ≡ some saved)
      × (deleted.session ≡ none)
      × (joined.room ≡ some r)
      × (joined.session ≡ none)
unfolding sign_out leave_answered delete_answered join_answered
late_answer_after_sign_out s u r h e = ground arith
