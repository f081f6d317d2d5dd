-- ===== src/Social/Reactions.antt =====
-- client/src/multiplayer/tableReactions.ts: the reactions that fly over the table.
pub mod Shown
use Prim.Native.Char.{code}
use bhidne_ho.Prelude.{
  ℕ, Bool, true, false, not, ◌&&◌, ◌||◌, Option, none, some, List, [], ◌∷◌, String, ◌≡◌, ◌⊎◌, arith,
  str_eq, leb, ◌==◌, any, if◌then◌else◌,
}
use bhidne_ho.Json.{Json, text, text_is, text_is_iff, is_text, positive_integer, exceeds}
use bhidne_ho.Social.Pokes.{at, text_length, is_blank}

-- The keys of `tableReactions`.
abbrev pub table_reactions : List String
table_reactions = "love" ∷ "pinch" ∷ "clap" ∷ "cheers" ∷ "laugh" ∷ "hammer" ∷ []

abbrev pub punchline_limit : ℕ
punchline_limit = 60

-- `/[\u0000-\u001f\u007f]/.test(text)`
abbrev pub has_control : String → Bool
has_control String.[] = false
has_control (String.◌∷◌ c s) = leb (code c) 31 || (code c == 127) || has_control s

abbrev pub good_punchline : Option Json → Bool
good_punchline (some (text s)) =
    not (is_blank s) && leb (text_length s) punchline_limit && not (has_control s)
good_punchline _ = false

-- `Object.hasOwn(tableReactions, reaction)`, for a text
abbrev pub is_known : Option Json → Bool
is_known (some (text s)) = any (λ r. str_eq r s) table_reactions
is_known _ = false

-- `event.match_id === matchId`, either of which may be undefined.
abbrev pub same_match : Option String → Option Json → Bool
same_match none none = true
same_match none (some v) = false
same_match (some m) v = text_is m v

unfoldable pub has_parties : Json → Bool
has_parties v =
    is_text (at "id" v)
    && is_text (at "sender_id" v)
    && is_text (at "recipient_id" v)
    && is_text (at "sender_name" v)
    && positive_integer (at "sender_player_id" v)
    && positive_integer (at "recipient_player_id" v)

unfoldable pub is_expressive : Json → Bool
is_expressive v =
    is_known (at "reaction" v)
    || (text_is "punchline" (at "reaction" v) && good_punchline (at "text" v))

abbrev pub is_reaction : ℕ → String → Option String → Json → Bool
is_reaction now room match_id v =
    text_is "TABLE_REACTION" (at "type" v)
    && text_is room (at "room_id" v)
    && same_match match_id (at "match_id" v)
    && has_parties v
    && is_expressive v
    && exceeds now (at "expires_at" v)

-- The third argument is the match of the table, none where it is undefined.
unfoldable pub read_table_reaction : ℕ → String → Option String → Json → Option Json
read_table_reaction now room match_id v = if is_reaction now room match_id v then some v else none
