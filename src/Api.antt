-- ===== src/Api.antt =====
-- client/src/multiplayer/apiResponse.ts (decodeApiResponse), the response part of
-- createHttpGameTransport in client/src/multiplayer/GameCommandClient.ts, the base address of
-- client/src/multiplayer/api.ts, and client/src/multiplayer/leaveRoomMembership.ts. `parse` stands for
-- JSON.parse, none where it throws. `Messages` holds the catalog's texts, as `ui` gives them.
pub mod Decoding
pub mod Leaving
mod Tests
use Prim.Native.String
use bhidne_ho.Prelude.{
  ℕ, Bool, true, false, not, ◌&&◌, ◌||◌, Option, none, some, List, [], ◌∷◌, String, is_empty,
  or_text, leb, ltb, ◌==◌, str_eq, any, if◌then◌else◌,
}
use bhidne_ho.Json.{Json, null, number, text, array, object, get, as_text}

pub record Messages : Type 0 where
  pub session_expired : String
  pub server_failed : String
  pub request_failed : String
  pub unexpected_response : String
  pub game_request_failed : String
  pub could_not_confirm : String

-- `object_detail` is `ApiError.detail`, kept only for a JSON object.
pub record ApiError : Type 0 where
  pub status : ℕ
  pub message : String
  pub object_detail : Option Json

pub data Decoded : Type 0 where
  no_content : Decoded
  value : Json → Decoded
  failed : ApiError → Decoded

-- `data`, and whether the text was no JSON: both `undefined` and valid where there is no text.
abbrev pub read_body : (String → Option Json) → String → Option Json
read_body parse raw = if is_empty raw then none else parse raw

abbrev is_success : ℕ → Bool
is_success status = not (ltb status 200 || leb 300 status)

abbrev error_message : Messages → ℕ → Option Json → String
error_message m status detail = if status == 401 then m.session_expired else elim (as_text detail) [
  | some s ↦ s
  | none ↦ elim (as_text (get "detail" detail)) [
    | some s ↦ s
    | none ↦ if leb 500 status then m.server_failed else m.request_failed
  ]
]

-- `detail && typeof detail === 'object' && !Array.isArray(detail) ? detail : undefined`
abbrev plain_object : Option Json → Option Json
plain_object (some (object fs)) = some (object fs)
plain_object _ = none

abbrev success_value : Messages → ℕ → Option Json → Decoded
success_value m status (some v) = value v
success_value m status none =
    failed (record { status = status; message = m.unexpected_response; object_detail = none })

-- The error for a status outside 2xx; `data` is the parsed body.
abbrev pub api_failure : Messages → ℕ → Option Json → ApiError
api_failure m status parsed =
    let detail = get "detail" parsed in
    record {
      status = status;
      message = error_message m status detail;
      object_detail = plain_object detail;
    }

unfoldable pub decode_api_response : (String → Option Json) → Messages → String → ℕ → Decoded
decode_api_response parse m raw status =
    if status == 204
    then no_content
    else if is_success status
    then success_value m status (read_body parse raw)
    else failed (api_failure m status (read_body parse raw))

-- What a game request ends with: the data, a GameRequestError, or another exception.
pub data GameDecoded : Type 0 where
  game_value : Json → GameDecoded
  game_error : ApiError → GameDecoded
  crashed : GameDecoded

-- `value || fallback`, and the text that `Error` makes of another value.
abbrev or_message : (Json → String) → String → Option Json → String
or_message show fallback none = fallback
or_message show fallback (some null) = fallback
or_message show fallback (some (text s)) = or_text s fallback
or_message show fallback (some v) = show v

abbrev game_message : (Json → String) → Messages → Option Json → String
game_message show m detail = elim (as_text detail) [
  | some s ↦ s
  | none ↦ or_message show m.game_request_failed (get "detail" detail)
]

-- `typeof detail === 'object' ? detail : undefined`: `null` and arrays are objects.
abbrev any_object : Option Json → Option Json
any_object (some null) = some null
any_object (some (array xs)) = some (array xs)
any_object (some (object fs)) = some (object fs)
any_object _ = none

-- A body of `null` makes `data.detail` throw.
abbrev game_failure : (Json → String) → Messages → ℕ → Json → GameDecoded
game_failure show m status null = crashed
game_failure show m status v = game_error (record {
  status = status;
  message = game_message show m (get "detail" (some v));
  object_detail = any_object (get "detail" (some v));
})

-- `body` is what `response.json()` gives, none where it throws.
unfoldable pub decode_game_response : (Json → String) → Messages → ℕ → Option Json → GameDecoded
decode_game_response show m status none = crashed
decode_game_response show m status (some v) =
    if is_success status then game_value v else game_failure show m status v

-- `method || (body ? 'POST' : 'GET')`
unfoldable pub request_method : Option String → Bool → String
request_method (some m) has_body = or_text m (if has_body then "POST" else "GET")
request_method none has_body = if has_body then "POST" else "GET"

-- Where the client runs: in a browser at an address, or on a device.
pub data Platform : Type 0 where
  web : (port protocol hostname origin : String) → Platform
  native_app : Platform

abbrev text_append : String → String → String
text_append a b = String.◌++◌ a b

-- `apiUrl` before its final `.replace(/\/$/, '')`; the first argument is EXPO_PUBLIC_API_URL.
unfoldable pub base_url : Option String → Platform → String
base_url configured (web port protocol hostname origin) =
    let here =
      if any (λ p. str_eq p port) ("8081" ∷ "8083" ∷ [])
      then text_append protocol (text_append "//" (text_append hostname ":8000"))
      else origin in
    elim configured [ some u ↦ or_text u here | none ↦ here ]
base_url configured native_app =
    let home : String = "https://api-bhidne-ho.lfactorial.com" in
    elim configured [ some u ↦ or_text u home | none ↦ home ]
