-- ===== src/Invitations/RoundTrip.antt =====
-- A room's or a table's code, typed in, leads back to the room or the table.
use Prim.Native.Char.{Char, code}
use bhidne_ho.Prelude.{
  ℕ, Bool, true, false, not, ◌||◌, Option, none, some, [], ◌∷◌, String, ◌≡◌, ◌≢◌, ◌∙◌, refl, ap,
  eq_iff, Bool-cases, inl, inr, ◌⊎◌, arith, leb, ◌==◌, str_eq, ◌⊎◌,
}
use bhidne_ho.Social.Pokes.{is_space}
use bhidne_ho.Invitations.{
  Url, invite, is_id_char, all_chars, is_id, is_room_id, is_match_id, read_url, read_invitation,
  room_invitation_code, table_invitation_code, trim, trim_start, trim_end, split_colon, read_code,
  read_text, read_join_target, ◌<>◌,
}

-- A parsed text that begins with the small letter has a protocol that begins with it.
abbrev pub KeepsScheme : (String → Option Url) → Type 0
KeepsScheme parse =
    (c : Char) (s : String) (u : Url)
    → leb 97 (code c) ≡ true
    → leb (code c) 122 ≡ true
    → parse (String.◌∷◌ c s) ≡ some u
    → (p : String) × (u.protocol ≡ String.◌∷◌ c p)

-- Neither white space nor a colon.
abbrev is_solid : Char → Bool
is_solid c = not (is_space (code c))

trim_end-solid : (s : String) → all_chars is_solid s ≡ true → trim_end s ≡ s
trim_end-solid String.[] h = refl
trim_end-solid (String.◌∷◌ c s) h = let rest = trim_end-solid s (ground arith) in ground arith

id-solid : (c : Char) → is_id_char c ≡ true → is_solid c ≡ true
id-solid c h = ground arith

-- What may stand in a code.
abbrev is_code_char : Char → Bool
is_code_char c = is_id_char c || (code c == 58)

code-solid : (c : Char) → is_code_char c ≡ true → is_solid c ≡ true
code-solid c h = ground arith

codes-solid : (s : String) → all_chars is_code_char s ≡ true → all_chars is_solid s ≡ true
codes-solid String.[] h = refl
codes-solid (String.◌∷◌ c s) h =
    let one = code-solid c (ground arith) in let rest = codes-solid s (ground arith) in ground arith

ids-codes : (s : String) → all_chars is_id_char s ≡ true → all_chars is_code_char s ≡ true
ids-codes String.[] h = refl
ids-codes (String.◌∷◌ c s) h = let rest = ids-codes s (ground arith) in ground arith

codes-append :
    (r s : String)
    → all_chars is_id_char r ≡ true
    → all_chars is_code_char s ≡ true
    → all_chars is_code_char (r <> s) ≡ true
codes-append String.[] s h k = k
codes-append (String.◌∷◌ c r) s h k = let rest = codes-append r s (ground arith) k in ground arith

split_colon-id : (s : String) → all_chars is_id_char s ≡ true → split_colon s ≡ s ∷ []
unfolding split_colon
split_colon-id String.[] h = refl
split_colon-id (String.◌∷◌ c s) h =
    let rest = split_colon-id s (ground arith) in
    let plain : (code c == 58) ≡ false = ground arith in rw (split_colon, plain, rest) refl

split_colon-append :
    (r m : String) → all_chars is_id_char r ≡ true → split_colon (r <> ":" <> m) ≡ r ∷ split_colon m
unfolding split_colon
split_colon-append String.[] m h = refl
split_colon-append (String.◌∷◌ c r) m h =
    let rest = split_colon-append r m (ground arith) in
    let plain : (code c == 58) ≡ false = ground arith in rw (split_colon, plain, rest) refl

unfoldable first_code : String → ℕ
first_code String.[] = 0
first_code (String.◌∷◌ c s) = code c

differs : (a q : String) → first_code a ≢ first_code q → str_eq a q ≡ false
differs a q h = elim (Bool-cases (str_eq a q)) [
  | inl e ↦ absurd (h (ap first_code ((eq_iff a q).0 e)))
  | inr e ↦ e
]

-- A code that begins with r or t is not read as a link, for no known protocol does.
no_link :
    (parse : String → Option Url) (c : Char) (s : String) (o : Option Url)
    → KeepsScheme parse
    → (code c ≡ 114) ⊎ (code c ≡ 116)
    → parse (String.◌∷◌ c s) ≡ o
    → read_url o ≡ none
unfolding first_code
no_link parse c s none keeps h e = refl
no_link parse c s (some u) keeps h e =
    let (p, scheme) = keeps c s u (ground arith) (ground arith) e in
    let first : first_code u.protocol ≡ code c = ap first_code scheme in
    let a = differs u.protocol "http:" (ground arith) in
    let b = differs u.protocol "https:" (ground arith) in
    let d = differs u.protocol "bhidneho:" (ground arith) in rw (a, b, d) refl

is_id-chars : (n : ℕ) (s : String) → is_id n s ≡ true → all_chars is_id_char s ≡ true
is_id-chars n s h = ground arith

read_text-code :
    (parse : String → Option Url) (text : String)
    → read_invitation parse text ≡ none
    → read_text parse text ≡ read_code text
unfolding read_text
read_text-code parse text h = rw (read_text, h) refl

-- A code's text is read as a code, once it has been trimmed and found not to be a link.
reads_code :
    (parse : String → Option Url) (c : Char) (s : String)
    → KeepsScheme parse
    → (code c ≡ 114) ⊎ (code c ≡ 116)
    → all_chars is_code_char s ≡ true
    → read_join_target parse (String.◌∷◌ c s) ≡ read_code (String.◌∷◌ c s)
unfolding read_join_target read_invitation
reads_code parse c s keeps h k =
    let text = String.◌∷◌ c s in
    let solid : is_space (code c) ≡ false = ground arith in
    let whole : all_chars is_solid text ≡ true = codes-solid text (ground (arith, k)) in
    let start : trim_start text ≡ text = rw solid refl in
    let trimmed : trim text ≡ text = rw start (trim_end-solid text whole) in
    ap (read_text parse) trimmed
    ∙ read_text-code parse text (no_link parse c s (parse text) keeps h refl)

read_table :
    (r m : String)
    → is_room_id r ≡ true
    → is_match_id m ≡ true
    → read_code (table_invitation_code r m) ≡ some (invite r (some m))
unfolding table_invitation_code is_room_id is_match_id
read_table r m h k =
    let parts : split_colon (r <> ":" <> m) ≡ r ∷ m ∷ [] =
      split_colon-append r m (is_id-chars 64 r h)
      ∙ ap (λ ps. r ∷ ps) (split_colon-id m (is_id-chars 128 m k)) in
    rw (parts, h, k) refl

ids-code : (n : ℕ) (s : String) → is_id n s ≡ true → all_chars is_code_char s ≡ true
ids-code n s h = ids-codes s (is_id-chars n s h)

-- Whatever `new URL` gives for other texts, if the protocol it gives for a text keeps the small letter
-- that the text begins with: the code of a room, typed in, leads to the room; and the code of a table
-- leads to the table in its room.
pub codes_round_trip :
    (parse : String → Option Url) (r m : String)
    → KeepsScheme parse
    → is_room_id r ≡ true
    → is_match_id m ≡ true
    → (read_join_target parse (room_invitation_code r) ≡ some (invite r none))
      × (read_join_target parse (table_invitation_code r m) ≡ some (invite r (some m)))
unfolding table_invitation_code room_invitation_code is_room_id is_match_id
codes_round_trip parse r m keeps h k = (
  reads_code parse "r" ("-" <> r) keeps (inl refl) (ids-code 64 r h) ∙ rw h refl,
  reads_code parse "t" ("-" <> r <> ":" <> m) keeps (inr refl)
        (codes-append r (":" <> m) (is_id-chars 64 r h) (ids-code 128 m k))
      ∙ read_table r m h k,
)
