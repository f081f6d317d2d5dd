-- ===== src/Session/Storage/Tests.antt =====
-- Sessions saved and read, with a store that is missing and with stores of both platforms.
use bhidne_ho.Prelude.{
  ◌∷◌, ℕ, true, false, Option, none, some, String, ◌≡◌, refl, str_eq, if◌then◌else◌, [],
}
use bhidne_ho.Json.{Json}
use bhidne_ho.Session.{SavedSession}
use bhidne_ho.Session.Storage.{web, native, World, to_json, read_session, save_session}
use bhidne_ho.Session.Storage.RoundTrip.{IsUsable, AllUsable, recalled, save_session-read}
use bhidne_ho.Session.Storage.Checked.{read_session-AllUsable}

abbrev saved : SavedSession
saved = record {
  session = record { user_id = "ram"; token = "t" };
  room = some (record { room_id = "den"; name = "Den"; members = "alice" ∷ [] });
  game = some "g";
}

abbrev digits : ℕ → String
digits n = "0"

-- Each text is read as the saved session.
abbrev parse : String → Option Json
parse s = if str_eq s "x" then none else some (to_json saved)

abbrev stringify : Json → String
stringify v = "saved"

abbrev empty_phone : World
empty_phone = record {
  device = record { platform = native; available = true; full = false; items = λ k. none };
  memory = λ s. none;
}

saved-IsUsable : IsUsable saved
saved-IsUsable = record { has_token = refl; has_user = refl; has_room = refl }

save_session-read_example :
    read_session digits stringify parse "s"
      (save_session digits stringify parse "s" (some saved) empty_phone)
    ≡ recalled native true (some saved)
save_session-read_example =
    save_session-read digits stringify parse "s" (some saved) empty_phone saved-IsUsable
      (refl, refl) refl

-- A store with a text that leads to the saved session.
abbrev tampered : World
tampered = record {
  device = record { platform = web; available = true; full = false; items = λ k. some "y" };
  memory = λ s. none;
}

read_session-AllUsable_example : AllUsable (read_session digits stringify parse "s" tampered)
read_session-AllUsable_example = read_session-AllUsable digits stringify parse "s" tampered tt

saved_on_phone :
    read_session digits stringify parse "s"
      (save_session digits stringify parse "s" (some saved) empty_phone)
    ≡ some (record saved { room = some (record { room_id = "den"; name = "Den"; members = [] }) })
unfolding read_session save_session bhidne_ho.Json.find_field
saved_on_phone = refl

removed_on_phone :
    read_session digits stringify parse "s"
      (save_session digits stringify parse "s" none empty_phone)
    ≡ none
unfolding read_session save_session
removed_on_phone = refl

-- A tab whose store can be read but takes nothing more.
abbrev full_tab : World
full_tab = record {
  device = record { platform = web; available = true; full = true; items = λ k. none };
  memory = λ s. none;
}

-- The session that is saved in it is remembered, but it is not what is read.
remembered_in_full_tab :
    (save_session digits stringify parse "s" (some saved) full_tab).memory "s" ≡ some saved
unfolding save_session
remembered_in_full_tab = refl

lost_in_full_tab :
    read_session digits stringify parse "s"
      (save_session digits stringify parse "s" (some saved) full_tab)
    ≡ none
unfolding read_session save_session
lost_in_full_tab = refl
