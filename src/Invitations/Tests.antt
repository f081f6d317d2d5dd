-- ===== src/Invitations/Tests.antt =====
-- Codes typed in, with an address parser that only finds the protocol.
use Prim.Native.Char.{code}
use bhidne_ho.Prelude.{true, Option, some, none, String, ◌≡◌, refl, arith, ◌==◌, if◌then◌else◌}
use bhidne_ho.Invitations.{
  Url, invite, is_room_id, is_match_id, read_join_target, room_invitation_code,
  table_invitation_code,
}
use bhidne_ho.Invitations.RoundTrip.{KeepsScheme, codes_round_trip}

-- A text up to its first colon.
abbrev scheme_of : String → String
scheme_of String.[] = ""
scheme_of (String.◌∷◌ c s) = String.◌∷◌ c (if code c == 58 then "" else scheme_of s)

abbrev parse_scheme : String → Option Url
parse_scheme s = some (record { protocol = scheme_of s; room = none; match_param = none })

parse_scheme-KeepsScheme : KeepsScheme parse_scheme
parse_scheme-KeepsScheme c s u h k e = ((if code c == 58 then "" else scheme_of s), ground arith)

table_code_read : read_join_target parse_scheme " T-den:m_1 " ≡ some (invite "den" (some "m_1"))
unfolding read_join_target
table_code_read = refl

den_is_room_id : is_room_id "den" ≡ true
unfolding is_room_id
den_is_room_id = refl

m_is_match_id : is_match_id "m_1" ≡ true
unfolding is_match_id
m_is_match_id = refl

codes_round_trip_example :
    (read_join_target parse_scheme (room_invitation_code "den") ≡ some (invite "den" none))
    × (read_join_target parse_scheme (table_invitation_code "den" "m_1")
        ≡ some (invite "den" (some "m_1")))
codes_round_trip_example =
    codes_round_trip parse_scheme "den" "m_1" parse_scheme-KeepsScheme den_is_room_id m_is_match_id
