-- ===== src/Api/Decoding.antt =====
-- What decoding a response guarantees.
use bhidne_ho.Prelude.{
  ℕ, ◌≤◌, ◌<◌, Option, none, some, String, ◌≡◌, ◌≢◌, ◌↔◌, ◌⊎◌, refl, arith, eq_iff,
}
use bhidne_ho.Json.{Json, object, Fields, text, find_field}
use bhidne_ho.Api.{
  Messages, ApiError, value, failed, api_failure, read_body, decode_api_response,
  decode_game_response, game_error,
}

-- A response is decoded to the JSON value `v` exactly when its status is 2xx but not 204, its body
-- is not empty, and the body parses to `v`.
pub decode_api_response-value_iff :
    (parse : String → Option Json) (m : Messages) (raw : String) (status : ℕ) (v : Json)
    → (decode_api_response parse m raw status ≡ value v)
      ↔ ((200 ≤ status) × (status < 300) × (status ≢ 204) × (raw ≢ "") × (parse raw ≡ some v))
unfolding decode_api_response
decode_api_response-value_iff parse m raw status v = ground (arith, eq_iff raw "")

-- Outside 2xx every response, whatever its body, becomes an ApiError with the response's status; a
-- 401 always says that the session has expired.
pub decode_api_response-failed :
    (parse : String → Option Json) (m : Messages) (raw : String) (status : ℕ)
    → (status < 200) ⊎ (300 ≤ status)
    → (e : ApiError) × (decode_api_response parse m raw status ≡ failed e)
      × (e.status ≡ status)
      × (status ≡ 401 → e.message ≡ m.session_expired)
unfolding decode_api_response
decode_api_response-failed parse m raw status h =
    (api_failure m status (read_body parse raw), ground arith, refl, λ e. ground arith)

-- Where the server explains a failure outside 2xx and 401 by a text, the API client and the game
-- client both report that text, with the status and no further detail.
pub decoders_agree_on_detail :
    (parse : String → Option Json) (show : Json → String) (m : Messages) (raw : String) (status : ℕ)
    (fs : Fields) (s : String)
    → (status < 200) ⊎ (300 ≤ status)
    → status ≢ 401
    → raw ≢ ""
    → parse raw ≡ some (object fs)
    → find_field "detail" fs ≡ some (text s)
    → let e : ApiError = record { status = status; message = s; object_detail = none } in
      (decode_api_response parse m raw status ≡ failed e)
      × (decode_game_response show m status (parse raw) ≡ game_error e)
unfolding decode_api_response decode_game_response
decoders_agree_on_detail parse show m raw status fs s out not_expired filled parsed found =
    ground (arith, eq_iff raw "")
