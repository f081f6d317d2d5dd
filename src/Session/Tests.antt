-- ===== src/Session/Tests.antt =====
-- A session through a login, a room and a sign-out.
use bhidne_ho.Prelude.{false, none, some, [], ◌≡◌, refl}
use bhidne_ho.Connection.{disconnected}
use bhidne_ho.Session.{
  UserSession, Room, SavedSession, RoomSession, ok, closure, sign_out, leave_answered,
  delete_answered, join_answered,
}
use bhidne_ho.Session.Guarantees.{
  IsConsistent, join, perform, perform-IsConsistent, late_answer_after_sign_out,
}

abbrev ram : UserSession
ram = record { user_id = "ram"; token = "t" }

abbrev den : Room
den = record { room_id = "den"; name = "Den"; members = [] }

abbrev home : RoomSession
home = record {
  session = some ram;
  room = none;
  game = none;
  rooms = [];
  status = disconnected;
  error = "";
  expired = false;
  abandon_required = false;
  leave_game_required = none;
  login_pending = false;
  running = false;
  stored = some (record { session = ram; room = none; game = none });
}

home-IsConsistent : IsConsistent home
home-IsConsistent = record {
  room_needs_session = λ h. refl;
  stored_is_own = refl;
  none_when_expired = λ h. cc;
}

perform-IsConsistent_example : IsConsistent (perform "r" "d" (join den none (ok tt)) home)
perform-IsConsistent_example =
    perform-IsConsistent "r" "d" (join den none (ok tt)) home home-IsConsistent

late_answer_after_sign_out_example :
    let left = (leave_answered (closure home) (ok tt) (sign_out home)).0 in
    let deleted = (delete_answered (closure home) (ok tt) (sign_out home)).0 in
    let joined = (join_answered den none (ok tt) (sign_out home)).0 in
    let saved : SavedSession = record { session = ram; room = none; game = none } in
    ((sign_out home).stored ≡ none)
    × (left.stored ≡ some saved)
    × (left.session ≡ none)
    × (deleted.stored ≡ some saved)
    × (deleted.session ≡ none)
    × (joined.room ≡ some den)
    × (joined.session ≡ none)
late_answer_after_sign_out_example = late_answer_after_sign_out home ram den refl refl
