-- ===== src/Api/Leaving.antt =====
-- client/src/multiplayer/leaveRoomMembership.ts: leaving a room when answers can be lost.
pub mod Ended
use mathlib.Core.Path.{subst}
use bhidne_ho.Prelude.{
  ℕ, ◌≤◌, ◌<◌, Bool, true, false, not, ◌&&◌, Option, none, some, String, ◌≡◌, ◌≢◌, ◌↔◌, ◌⊎◌, inl,
  inr, refl, sym, ap, ◌∙◌, arith, Bool-cases, ◌==◌, if◌then◌else◌,
}
use bhidne_ho.Json.{
  Json, null, bool, number, text, array, object, Items, nil, cons, get, text_is, text_is_iff,
  is_null,
}
use bhidne_ho.Json.Shapes.{is_null_iff, ◌&&↔◌}
use bhidne_ho.Api.{Messages, ApiError, Decoded, no_content, value, failed, decode_api_response}
use bhidne_ho.Api.Decoding.{decode_api_response-value_iff}

-- What a request meets: a response's text and status, or none, where `fetch` or reading the text throws.
pub data Reply : Type 0 where
  reply : String → ℕ → Reply
  no_reply : Reply

-- What the request to leave does: it returns, throws an ApiError, or throws another error. An ApiError is
-- also what the client itself makes of a 2xx response without JSON.
pub data LeaveAnswer : Type 0 where
  accepted lost : LeaveAnswer
  api_error : ApiError → LeaveAnswer

-- What `leaveRoomMembership` does: it returns, rethrows the ApiError, or throws an error of its own.
pub data Departure : Type 0 where
  departed : Departure
  rethrown : ApiError → Departure
  unconfirmed : String → Departure

abbrev pub decoded_answer : Decoded → LeaveAnswer
decoded_answer no_content = accepted
decoded_answer (value v) = accepted
decoded_answer (failed e) = api_error e

-- `item.room_id === roomId` for none of the items; it throws at an item that is null.
abbrev pub none_is : String → Items → Bool
none_is room_id nil = true
none_is room_id (cons v xs) =
    not (is_null (some v)) && not (text_is room_id (get "room_id" (some v))) && none_is room_id xs

-- `!memberships.some(...)`, false where it throws.
abbrev pub is_absent : String → Decoded → Bool
is_absent room_id (value (array xs)) = none_is room_id xs
is_absent room_id _ = false

module _ (parse : String → Option Json) (m : Messages) where
  unfoldable pub leave_answer : Reply → LeaveAnswer
  leave_answer no_reply = lost
  leave_answer (reply raw status) = decoded_answer (decode_api_response parse m raw status)

  unfoldable pub verifies : String → Reply → Bool
  verifies room_id no_reply = false
  verifies room_id (reply raw status) = is_absent room_id (decode_api_response parse m raw status)

  abbrev pub after_leave : String → LeaveAnswer → Reply → Departure
  after_leave room_id accepted memberships = departed
  after_leave room_id (api_error e) memberships = rethrown e
  after_leave room_id lost memberships =
      if verifies room_id memberships then departed else unconfirmed m.could_not_confirm

  -- The replies to the request to leave and to the one for the memberships.
  unfoldable pub leave_room_membership : String → Reply → Reply → Departure
  unfolding leave_answer verifies
  leave_room_membership room_id left memberships =
      after_leave room_id (leave_answer left) memberships
