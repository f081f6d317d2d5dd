-- ===== src/Social/Reactions/Shown.antt =====
-- A reaction described field by field, against the checks of `readTableReaction`.
use Prim.Native.Char.{code}
use mathlib.Core.Path.{subst}
use bhidne_ho.Prelude.{
  ℕ, ◌≤◌, Bool, true, false, ◌||◌, Option, none, some, List, [], ◌∷◌, String, ◌≡◌, ◌≢◌, ◌↔◌, ◌⊎◌,
  inl, inr, arith, refl, sym, Among, any, str_eq, eq_iff,
}
use bhidne_ho.Json.{Json, null, number, bool, text, array, object, text_is_iff}
use bhidne_ho.Json.Shapes.{
  IsText, Positive, After, IsNumber, is_text_iff, positive_integer_iff, exceeds_iff, ◌&&↔◌,
  kept_iff,
}
use bhidne_ho.Social.Pokes.{at}
use bhidne_ho.Social.Pokes.Meant.{HoldsText, Short, HasInk-iff}
use bhidne_ho.Social.Reactions.{
  table_reactions, has_control, good_punchline, is_known, same_match, has_parties, is_expressive,
  is_reaction, read_table_reaction,
}

-- No character of the text is a control character.
abbrev pub IsPlain : String → Type 0
IsPlain String.[] = Unit
IsPlain (String.◌∷◌ c s) = (32 ≤ code c) × (code c ≢ 127) × IsPlain s

IsPlain-iff : (s : String) → (has_control s ≡ false) ↔ IsPlain s
IsPlain-iff String.[] = ground arith
IsPlain-iff (String.◌∷◌ c s) = ground (arith, IsPlain-iff s)

abbrev pub Punchline : String → Type 0
Punchline s = Short 60 s × IsPlain s

Punchline-iff : (s : String) → (good_punchline (some (text s)) ≡ true) ↔ Punchline s
Punchline-iff s = ground (arith, HasInk-iff s, IsPlain-iff s)

-- A test that holds of texts only.
text_test_iff :
    (test : Option Json → Bool) (P : String → Type 0)
    → ((s : String) → (test (some (text s)) ≡ true) ↔ P s)
    → ((o : Option Json) → test o ≡ true → IsText o)
    → (o : Option Json) → (test o ≡ true) ↔ HoldsText P o
text_test_iff test P same only o = (
  (λ h. let (s, e) = only o h in (s, e, (same s).0 (subst (λ z. test z ≡ true) e h))),
  λ (s, e, p). subst (λ z. test z ≡ true) (sym e) ((same s).1 p),
)

punchline_text : (o : Option Json) → good_punchline o ≡ true → IsText o
punchline_text (some (text t)) h = (t, refl)
punchline_text none h = cc
punchline_text (some null) h = cc
punchline_text (some (bool b)) h = cc
punchline_text (some (number n)) h = cc
punchline_text (some (array xs)) h = cc
punchline_text (some (object fs)) h = cc

known_text : (o : Option Json) → is_known o ≡ true → IsText o
known_text (some (text t)) h = (t, refl)
known_text none h = cc
known_text (some null) h = cc
known_text (some (bool b)) h = cc
known_text (some (number n)) h = cc
known_text (some (array xs)) h = cc
known_text (some (object fs)) h = cc

-- One of the six reactions with a picture.
abbrev pub Known : String → Type 0
Known s = Among s ("love" ∷ "pinch" ∷ "clap" ∷ "cheers" ∷ "laugh" ∷ "hammer" ∷ [])

any-Among : (s : String) (rs : List String) → (any (λ r. str_eq r s) rs ≡ true) ↔ Among s rs
any-Among s [] = ((λ h. cc), λ h. absurd h)
any-Among s (r ∷ rs) = ground (arith, eq_iff r s, any-Among s rs)

Known-iff : (s : String) → (is_known (some (text s)) ≡ true) ↔ Known s
Known-iff s = any-Among s table_reactions

abbrev pub IsExpressive : Json → Type 0
IsExpressive v =
    HoldsText Known (at "reaction" v)
    ⊎ ((at "reaction" v ≡ some (text "punchline")) × HoldsText Punchline (at "text" v))

IsExpressive-iff : (v : Json) → (is_expressive v ≡ true) ↔ IsExpressive v
unfolding is_expressive
IsExpressive-iff v =
    let (known, known') = text_test_iff is_known Known Known-iff known_text (at "reaction" v) in
    let (line, line') =
      text_is_iff "punchline" (at "reaction" v)
      &&↔ text_test_iff good_punchline Punchline Punchline-iff punchline_text (at "text" v) in
    either known known' line line'
  where
    either :
        {A B C : Type 0} {a b : Bool}
        → (a ≡ true → A)
        → (A → a ≡ true)
        → (b ≡ true → B × C)
        → (B × C → b ≡ true)
        → ((a || b) ≡ true) ↔ (A ⊎ (B × C))
    either {a = true} f f' g g' = ((λ h. inl (f refl)), λ h. refl)
    either {a = false} f f' g g' =
        ((λ h. inr (g h)), λ h. elim h [ inl x ↦ let k = f' x in cc | inr y ↦ g' y ])

-- The match of a reaction, where the table's may be undefined.
abbrev pub IsOfMatch : Option String → Option Json → Type 0
IsOfMatch none o = o ≡ none
IsOfMatch (some m) o = o ≡ some (text m)

IsOfMatch-iff : (m : Option String) (o : Option Json) → (same_match m o ≡ true) ↔ IsOfMatch m o
IsOfMatch-iff none none = ((λ h. refl), λ h. refl)
IsOfMatch-iff none (some v) = ((λ h. cc), λ h. cc)
IsOfMatch-iff (some m) o = text_is_iff m o

pub record HasParties (v : Json) : Type 0 where
  pub has_id : IsText (at "id" v)
  pub has_sender : IsText (at "sender_id" v)
  pub has_recipient : IsText (at "recipient_id" v)
  pub has_name : IsText (at "sender_name" v)
  pub sender_seat : IsNumber Positive (at "sender_player_id" v)
  pub recipient_seat : IsNumber Positive (at "recipient_player_id" v)

HasParties-iff : (v : Json) → (has_parties v ≡ true) ↔ HasParties v
unfolding has_parties
HasParties-iff v =
    let (there, back) =
      is_text_iff (at "id" v)
      &&↔ is_text_iff (at "sender_id" v)
      &&↔ is_text_iff (at "recipient_id" v)
      &&↔ is_text_iff (at "sender_name" v)
      &&↔ positive_integer_iff (at "sender_player_id" v)
      &&↔ positive_integer_iff (at "recipient_player_id" v) in
    (
      (λ h.
          let (((((a, b), c), d), e), f) = there h in
          record {
            has_id = a;
            has_sender = b;
            has_recipient = c;
            has_name = d;
            sender_seat = e;
            recipient_seat = f;
          }),
      λ r. back (
        ((((r.has_id, r.has_sender), r.has_recipient), r.has_name), r.sender_seat),
        r.recipient_seat,
      ),
    )

pub record IsReaction (now : ℕ) (room : String) (m : Option String) (v : Json) : Type 0 where
  pub has_type : at "type" v ≡ some (text "TABLE_REACTION")
  pub of_room : at "room_id" v ≡ some (text room)
  pub of_match : IsOfMatch m (at "match_id" v)
  pub parties : HasParties v
  pub expressive : IsExpressive v
  pub expires_later : IsNumber (After now) (at "expires_at" v)

IsReaction-iff :
    (now : ℕ) (room : String) (m : Option String) (v : Json)
    → (is_reaction now room m v ≡ true) ↔ IsReaction now room m v
IsReaction-iff now room m v =
    let (there, back) =
      text_is_iff "TABLE_REACTION" (at "type" v)
      &&↔ text_is_iff room (at "room_id" v)
      &&↔ IsOfMatch-iff m (at "match_id" v)
      &&↔ HasParties-iff v
      &&↔ IsExpressive-iff v
      &&↔ exceeds_iff now (at "expires_at" v) in
    (
      (λ h.
          let (((((a, b), c), d), e), f) = there h in
          record {
            has_type = a;
            of_room = b;
            of_match = c;
            parties = d;
            expressive = e;
            expires_later = f;
          }),
      λ r.
          back
            (((((r.has_type, r.of_room), r.of_match), r.parties), r.expressive), r.expires_later),
    )

-- A value is read as a reaction exactly if it is one, and then it is the value received: it has the type,
-- the room and the match of the table, its id, its parties and the sender's name are texts and both
-- seats positive whole numbers, it expires later, and it is one of the six known reactions or a
-- punchline of at most 60 characters, one of them no white space and none a control character.
pub read_table_reaction-IsReaction_iff :
    (now : ℕ) (room : String) (m : Option String) (v w : Json)
    → (read_table_reaction now room m v ≡ some w) ↔ ((w ≡ v) × IsReaction now room m v)
unfolding read_table_reaction
read_table_reaction-IsReaction_iff now room m v w =
    kept_iff (is_reaction now room m v) v w (IsReaction-iff now room m v)
