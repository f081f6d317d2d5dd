-- ===== src/Social/Pokes/Meant.antt =====
-- A poke described field by field, against the checks of `readPoke`.
use Prim.Native.Char.{code}
use bhidne_ho.Prelude.{ℕ, ◌≤◌, false, Option, some, String, ◌≡◌, ◌↔◌, ◌⊎◌, arith}
use bhidne_ho.Json.{Json, null, text}
use bhidne_ho.Json.Shapes.{IsText, Whole, Positive, After, IsNumber}
use bhidne_ho.Social.Pokes.{text_length, is_space, is_blank, at}

-- Some character of the text is no white space.
abbrev pub HasInk : String → Type 0
HasInk String.[] = ⊥
HasInk (String.◌∷◌ c s) = (is_space (code c) ≡ false) ⊎ HasInk s

abbrev pub HoldsText : (String → Type 0) → Option Json → Type 0
HoldsText P o = (s : String) × (o ≡ some (text s)) × P s

pub HasInk-iff : (s : String) → (is_blank s ≡ false) ↔ HasInk s
HasInk-iff String.[] = ground arith
HasInk-iff (String.◌∷◌ c s) = ground (arith, HasInk-iff s)

abbrev pub Short : ℕ → String → Type 0
Short limit s = HasInk s × (text_length s ≤ limit)

-- Whom a poke is for: this user alone, or the table.
abbrev pub IsFor : String → Json → Type 0
IsFor user v =
    ((at "scope" v ≡ some (text "private"))
      × (at "recipient_id" v ≡ some (text user))
      × IsNumber Whole (at "recipient_player_id" v))
    ⊎ ((at "scope" v ≡ some (text "table"))
        × (at "recipient_id" v ≡ some null)
        × (at "recipient_player_id" v ≡ some null))

-- A poke of a room for a user, at a time.
pub record IsPoke (now : ℕ) (room user : String) (v : Json) : Type 0 where
  pub has_type : at "type" v ≡ some (text "ROOM_POKE")
  pub of_room : at "room_id" v ≡ some (text room)
  pub has_id : IsText (at "id" v)
  pub has_match : IsText (at "match_id" v)
  pub has_sender : IsText (at "sender_id" v)
  pub has_seat : IsNumber Positive (at "sender_player_id" v)
  pub has_text : HoldsText (Short 30) (at "text" v)
  pub expires_later : IsNumber (After now) (at "expires_at" v)
  pub is_for : IsFor user v
