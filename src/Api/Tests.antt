-- ===== src/Api/Tests.antt =====
-- Responses decoded, and the theorems at them.
use bhidne_ho.Prelude.{
  ℕ, ◌≤◌, ◌<◌, true, Option, none, some, String, ◌≡◌, ◌≢◌, ◌↔◌, inr, refl, arith, str_eq,
  if◌then◌else◌, eq_iff,
}
use bhidne_ho.Json.{array, Items, cons, nil, Json, text, object, field, end, find_field}
use bhidne_ho.Api.{
  Messages, ApiError, value, failed, decode_api_response, game_error, decode_game_response,
  request_method, base_url, web,
}
use bhidne_ho.Api.Decoding.{
  decode_api_response-value_iff, decode_api_response-failed, decoders_agree_on_detail,
}
use bhidne_ho.Api.Leaving.{reply, no_reply, departed, rethrown, leave_room_membership}
use bhidne_ho.Api.Leaving.Ended.{Ends, leave_room_membership-Ends}

abbrev messages : Messages
messages = record {
  session_expired = "Session expired";
  server_failed = "Server failed";
  request_failed = "Request failed";
  unexpected_response = "Unexpected";
  game_request_failed = "Game request failed";
  could_not_confirm = "Could not confirm";
}

abbrev full : Json
full = object (field "detail" (text "Room is full") end)

-- A parser that knows one text.
abbrev parse : String → Option Json
parse s = if str_eq s "FULL" then some full else none

full_found :
    find_field "detail" (field "detail" (text "Room is full") end) ≡ some (text "Room is full")
unfolding find_field
full_found = refl

decode_api_response-value_iff_example :
    (decode_api_response parse messages "FULL" 200 ≡ value full) ↔ (
      (200 ≤ 200)
      × (200 < 300)
      × (◌≢◌ {A = ℕ} 200 204)
      × (◌≢◌ {A = String} "FULL" "")
      × (parse "FULL" ≡ some full))
decode_api_response-value_iff_example = decode_api_response-value_iff parse messages "FULL" 200 full

decode_api_response-failed_example :
    (e : ApiError) × (decode_api_response parse messages "" 401 ≡ failed e)
    × (e.status ≡ 401)
    × (◌≡◌ {A = ℕ} 401 401 → e.message ≡ messages.session_expired)
decode_api_response-failed_example =
    decode_api_response-failed parse messages "" 401 (inr (omega arith))

not_empty : ◌≢◌ {A = String} "FULL" ""
not_empty = ground (arith, eq_iff "FULL" "")

decoders_agree_on_detail_example :
    let e : ApiError = record { status = 409; message = "Room is full"; object_detail = none } in
    (decode_api_response parse messages "FULL" 409 ≡ failed e)
    × (decode_game_response (λ v. "") messages 409 (parse "FULL") ≡ game_error e)
decoders_agree_on_detail_example =
    decoders_agree_on_detail parse (λ v. "") messages "FULL" 409
      (field "detail" (text "Room is full") end) "Room is full" (inr (omega arith)) (omega arith)
      not_empty refl full_found

-- The request to leave is lost, and the memberships are those of another room.
abbrev others : Items
others = cons (object (field "room_id" (text "other") end)) nil

abbrev parse_rooms : String → Option Json
parse_rooms s = if str_eq s "ROOMS" then some (array others) else none

left_without_answer :
    leave_room_membership parse_rooms messages "demo" no_reply (reply "ROOMS" 200) ≡ departed
unfolding leave_room_membership decode_api_response find_field
left_without_answer = refl

-- A success without JSON is thrown as an error.
left_without_json :
    leave_room_membership parse_rooms messages "demo" (reply "" 200) no_reply
    ≡ rethrown (record { status = 200; message = "Unexpected"; object_detail = none })
unfolding leave_room_membership decode_api_response
left_without_json = refl

leave_room_membership-Ends_example :
    Ends parse_rooms messages "demo" no_reply
      (reply "ROOMS" 200)
      (leave_room_membership parse_rooms messages "demo" no_reply (reply "ROOMS" 200))
leave_room_membership-Ends_example =
    leave_room_membership-Ends parse_rooms messages "demo" no_reply (reply "ROOMS" 200)

posts_a_body : request_method none true ≡ "POST"
unfolding request_method
posts_a_body = refl

development_port :
    base_url none (web "8081" "http:" "localhost" "http://localhost:8081") ≡ "http://localhost:8000"
unfolding base_url
development_port = refl
