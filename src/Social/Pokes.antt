-- ===== src/Social/Pokes.antt =====
-- client/src/multiplayer/pokes.ts. A text is walked by its characters; `now` is the clock in
-- milliseconds.
pub mod Meant
use Prim.Native.Char.{code}
use bhidne_ho.Prelude.{
  ℕ, zero, suc, min, Bool, true, false, not, ◌&&◌, ◌||◌, Option, none, some, List, [], ◌∷◌, ◌++◌,
  String, ◌≡◌, ◌⊎◌, arith, str_eq, leb, ◌==◌, any, filterb, take_last, if◌then◌else◌,
}
use bhidne_ho.Json.{
  Json, get, text, text_is, text_is_iff, is_text, is_null, is_integer, positive_integer, exceeds,
  Num, num_gt,
}

-- `Array.from(text).length`
abbrev pub text_length : String → ℕ
text_length String.[] = 0
text_length (String.◌∷◌ c s) = suc (text_length s)

abbrev pub take_text : ℕ → String → String
take_text zero s = ""
take_text (suc n) String.[] = ""
take_text (suc n) (String.◌∷◌ c s) = String.◌∷◌ c (take_text n s)

-- The white space that `trim` takes off.
abbrev pub is_space : ℕ → Bool
is_space c =
    (leb 9 c && leb c 13)
    || any (λ w. w == c) (32 ∷ 160 ∷ 5760 ∷ 8232 ∷ 8233 ∷ 8239 ∷ 8287 ∷ 12288 ∷ 65279 ∷ [])
    || (leb 8192 c && leb c 8202)

-- `!text.trim()`
abbrev pub is_blank : String → Bool
is_blank String.[] = true
is_blank (String.◌∷◌ c s) = is_space (code c) && is_blank s

abbrev pub poke_text_limit : ℕ
poke_text_limit = 30

unfoldable pub limit_poke_text : String → String
limit_poke_text s = take_text poke_text_limit s

-- The text that a value holds is no blank and no longer than the limit.
abbrev pub good_text : Option Json → Bool
good_text (some (text s)) = not (is_blank s) && leb (text_length s) poke_text_limit
good_text _ = false

-- `event.name` of a value that may be no object.
abbrev pub at : String → Json → Option Json
at k v = get k (some v)

abbrev pub well_addressed : String → Json → Bool
well_addressed user v =
    if text_is "private" (at "scope" v)
    then text_is user (at "recipient_id" v) && is_integer (at "recipient_player_id" v)
    else text_is "table" (at "scope" v)
      && is_null (at "recipient_id" v)
      && is_null (at "recipient_player_id" v)

abbrev pub is_poke : ℕ → String → Json → Bool
is_poke now room v =
    text_is "ROOM_POKE" (at "type" v)
    && text_is room (at "room_id" v)
    && is_text (at "id" v)
    && is_text (at "match_id" v)
    && is_text (at "sender_id" v)
    && positive_integer (at "sender_player_id" v)
    && good_text (at "text" v)
    && exceeds now (at "expires_at" v)

unfoldable pub read_poke : ℕ → String → String → Json → Option Json
read_poke now room user v = if is_poke now room v && well_addressed user v then some v else none

limit_poke_text_bound : (n : ℕ) (s : String) → text_length (take_text n s) ≡ min n (text_length s)
limit_poke_text_bound zero s = omega arith
limit_poke_text_bound (suc n) String.[] = omega arith
limit_poke_text_bound (suc n) (String.◌∷◌ c s) = omega (arith, limit_poke_text_bound n s)

-- The fields of a poke that the list of live pokes looks at.
pub record RoomPoke : Type 0 where
  pub id : String
  pub room_id : String
  pub expires_at : Num

abbrev pub is_live : ℕ → String → RoomPoke → Bool
is_live now room p = str_eq p.room_id room && num_gt now p.expires_at

unfoldable pub append_poke : ℕ → List RoomPoke → RoomPoke → List RoomPoke
append_poke now current next =
    let live = filterb (is_live now next.room_id) current in
    if any (λ p. str_eq p.id next.id) live then live else take_last 3 (live ++ next ∷ [])
