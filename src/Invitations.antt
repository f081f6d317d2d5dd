-- ===== src/Invitations.antt =====
-- client/src/multiplayer/invitations.ts. `parse` is what `new URL` gives, as far as it is read: none
-- where it throws. The patterns of ids are walked by the characters.
pub mod RoundTrip
mod Tests
use Prim.Native.Char.{Char, code}
use Prim.Native.String
use bhidne_ho.Prelude.{
  ℕ, zero, suc, ◌+◌, Bool, true, false, not, ◌&&◌, ◌||◌, Option, none, some, List, [], ◌∷◌, String,
  leb, ◌==◌, str_eq, is_empty, any, if◌then◌else◌,
}
use bhidne_ho.Social.Pokes.{text_length, is_space}

pub record Invitation : Type 0 where
  pub room_id : String
  pub match_id : Option String

-- The parsed address: its protocol, and the parameters `room` and `match`.
pub record Url : Type 0 where
  pub protocol : String
  pub room : Option String
  pub match_param : Option String

-- `[A-Za-z0-9_-]`
abbrev pub is_id_char : Char → Bool
is_id_char c =
    (leb 65 (code c) && leb (code c) 90)
    || (leb 97 (code c) && leb (code c) 122)
    || (leb 48 (code c) && leb (code c) 57)
    || (code c == 95)
    || (code c == 45)

abbrev pub all_chars : (Char → Bool) → String → Bool
all_chars p String.[] = true
all_chars p (String.◌∷◌ c s) = p c && all_chars p s

abbrev pub is_id : ℕ → String → Bool
is_id limit s = all_chars is_id_char s && leb 1 (text_length s) && leb (text_length s) limit

unfoldable pub is_room_id : String → Bool
is_room_id = is_id 64

unfoldable pub is_match_id : String → Bool
is_match_id = is_id 128

abbrev pub known_protocol : String → Bool
known_protocol p = any (str_eq p) ("http:" ∷ "https:" ∷ "bhidneho:" ∷ [])

abbrev pub invite : String → Option String → Invitation
invite r m = record { room_id = r; match_id = m }

abbrev pub read_parameters : Option String → Option String → Option Invitation
read_parameters none m = none
read_parameters (some r) none = if is_room_id r then some (invite r none) else none
read_parameters (some r) (some m) =
    if is_room_id r && is_match_id m then some (invite r (some m)) else none

abbrev pub read_url : Option Url → Option Invitation
read_url none = none
read_url (some u) = if known_protocol u.protocol then read_parameters u.room u.match_param else none

unfoldable pub read_invitation : (String → Option Url) → String → Option Invitation
unfolding is_room_id is_match_id
read_invitation parse value = read_url (parse value)

infixr 65 ◌<>◌
abbrev pub ◌<>◌ : String → String → String
String.[] <> t = t
(String.◌∷◌ c s) <> t = String.◌∷◌ c (s <> t)

unfoldable pub room_invitation_code : String → String
room_invitation_code r = "r-" <> r

unfoldable pub table_invitation_code : String → String → String
table_invitation_code r m = "t-" <> r <> ":" <> m

abbrev pub trim_start : String → String
trim_start String.[] = ""
trim_start (String.◌∷◌ c s) = if is_space (code c) then trim_start s else String.◌∷◌ c s

abbrev pub trim_end : String → String
trim_end String.[] = ""
trim_end (String.◌∷◌ c s) =
    let rest = trim_end s in if is_empty rest && is_space (code c) then "" else String.◌∷◌ c rest

-- `text.trim()`
abbrev pub trim : String → String
trim s = trim_end (trim_start s)

-- What follows `r-` or `t-`, in either case; `letter` is the small letter.
abbrev pub after_prefix : ℕ → String → Option String
after_prefix letter (String.◌∷◌ c (String.◌∷◌ d s)) =
    if ((code c == letter) || (code c + 32 == letter)) && (code d == 45) then some s else none
after_prefix letter _ = none

abbrev pub add_head : Char → List String → List String
add_head c [] = String.◌∷◌ c "" ∷ []
add_head c (p ∷ ps) = String.◌∷◌ c p ∷ ps

-- `text.split(':')`
unfoldable pub split_colon : String → List String
split_colon String.[] = "" ∷ []
split_colon (String.◌∷◌ c s) =
    let rest = split_colon s in if code c == 58 then "" ∷ rest else add_head c rest

abbrev pub read_room : String → Option Invitation
read_room r = if is_room_id r then some (invite r none) else none

abbrev pub read_pair : List String → Option Invitation
read_pair (r ∷ m ∷ []) = if is_room_id r && is_match_id m then some (invite r (some m)) else none
read_pair _ = none

abbrev pub read_triple : List String → Option Invitation
read_triple (t ∷ r ∷ m ∷ []) = if str_eq t "table" then read_pair (r ∷ m ∷ []) else none
read_triple _ = none

abbrev pub read_plain : String → Option Invitation
read_plain text = elim (read_triple (split_colon text)) [ some i ↦ some i | none ↦ read_room text ]

abbrev pub read_code : String → Option Invitation
read_code text = elim (after_prefix 114 text) [
  | some r ↦ read_room r
  | none ↦ elim (after_prefix 116 text) [
    | some s ↦ read_pair (split_colon s)
    | none ↦ read_plain text
  ]
]

unfoldable pub read_text : (String → Option Url) → String → Option Invitation
unfolding read_invitation is_room_id is_match_id split_colon
read_text parse text = elim (read_invitation parse text) [ some i ↦ some i | none ↦ read_code text ]

unfoldable pub read_join_target : (String → Option Url) → String → Option Invitation
unfolding read_text
read_join_target parse value = read_text parse (trim value)
