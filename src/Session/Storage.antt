-- ===== src/Session/Storage.antt =====
-- client/src/multiplayer/session.ts: readSession and saveSession, over client/src/auth/storage.ts and the
-- adapters of client/src/auth/installStorage. `stringify` and `parse` are JSON's; `hex` is `toString(16)`.
-- Of a room its id, name and members are kept here, not the optional fields for display. A device's store has a text or nothing under each key.
pub mod RoundTrip
pub mod Checked
mod Tests
use Prim.Native.String
use Prim.Native.Char.{Char, code}
use bhidne_ho.Prelude.{
  ℕ, Bool, true, false, not, ◌&&◌, Option, none, some, List, [], ◌∷◌, String, map, str_eq, is_empty,
  or_text, if◌then◌else◌,
}
use bhidne_ho.Json.{
  Json, Items, nil, cons, array, null, text, object, Fields, end, field, get, as_text,
}
use bhidne_ho.Invitations.{is_id, ◌<>◌}
use bhidne_ho.Session.{UserSession, Room, SavedSession}

-- Which entry point has installed its adapter.
pub data Platform : Type 0 where
  web native : Platform

-- `globalThis.sessionStorage` may be missing, and may refuse to store more.
pub record Device : Type 0 where
  pub platform : Platform
  pub available : Bool
  pub full : Bool
  pub items : String → Option String

abbrev join_all : List String → String
join_all [] = ""
join_all (s ∷ []) = s
join_all (s ∷ t ∷ ss) = s <> "_" <> join_all (t ∷ ss)

abbrev codes : (ℕ → String) → String → List String
codes hex String.[] = []
codes hex (String.◌∷◌ c s) = hex (code c) ∷ codes hex s

unfoldable pub native_key : (ℕ → String) → String → String
native_key hex key = "bhidne." <> join_all (codes hex key)

abbrev pub put_item : String → Option String → (String → Option String) → String → Option String
put_item key value items k = if str_eq k key then value else items k

-- `getItem(...) || null`
abbrev pub filled : Option String → Option String
filled none = none
filled (some s) = if is_empty s then none else some s

pub data Read : Type 0 where
  throws : Read
  value : Option String → Read

-- `readAuthValue`
unfoldable pub read_auth_value : (ℕ → String) → String → Device → Read
unfolding native_key
read_auth_value hex key d = elim d.platform [
  | web ↦ if d.available then value (d.items key) else throws
  | native ↦ value (filled (d.items (native_key hex key)))
]

abbrev pub text_of : Option String → String
text_of none = ""
text_of (some s) = s

-- `writeAuthValue`; a write that throws leaves the store as it was.
unfoldable pub write_auth_value : (ℕ → String) → String → Option String → Device → Device
unfolding native_key
write_auth_value hex key v d = elim d.platform [
  | native ↦ record d { items = put_item (native_key hex key) (some (text_of v)) d.items }
  | web ↦ if not d.available then d else elim v [
    | none ↦ record d { items = put_item key none d.items }
    | some s ↦ if d.full then d else record d { items = put_item key (some s) d.items }
  ]
]

abbrev pub texts : List String → Items
texts [] = nil
texts (s ∷ ss) = cons (text s) (texts ss)

abbrev pub room_json : Option Room → Json
room_json none = null
room_json (some r) = object (
    field "room_id" (text r.room_id)
      (field "name" (text r.name) (field "members" (array (texts r.members)) end)))

abbrev pub game_json : Option String → Json
game_json none = null
game_json (some g) = text g

abbrev pub to_json : SavedSession → Json
to_json v = object (
    field "session"
      (object (field "user_id" (text v.session.user_id) (field "token" (text v.session.token) end)))
      (field "room" (room_json v.room) (field "game" (game_json v.game) end)))

abbrev pub read_user : Option String → Option String → Option UserSession
read_user (some token) (some user_id) =
    if is_empty token
    then none
    else if is_empty user_id
    then none
    else some (record { user_id = user_id; token = token })
read_user _ _ = none

-- `{ ...room, members: [] }`
abbrev pub read_room : Option String → Option String → Option Room
read_room (some r) (some name) =
    if is_id 64 r then some (record { room_id = r; name = name; members = [] }) else none
read_room _ _ = none

unfoldable pub read_value : Json → Option SavedSession
read_value v =
    let user = get "session" (some v) in
    let room = get "room" (some v) in
    elim (read_user (as_text (get "token" user)) (as_text (get "user_id" user))) [
      | none ↦ none
      | some u ↦ some (record {
        session = u;
        room = read_room (as_text (get "room_id" room)) (as_text (get "name" room));
        game = as_text (get "game" (some v));
      })
    ]

-- The device's store, and the map `memory` by server.
pub record World : Type 0 where
  pub device : Device
  pub memory : String → Option SavedSession

abbrev pub key : String → String
key server = "bhidne.session.v1:" <> server

abbrev pub remember :
    String → Option SavedSession → (String → Option SavedSession) → String → Option SavedSession
remember server v memory s = if str_eq s server then v else memory s

module _ (hex : ℕ → String) (stringify : Json → String) (parse : String → Option Json) where
  -- `remembered` is `memory.get(server)`.
  abbrev pub read_raw : Option SavedSession → Option String → Option SavedSession
  read_raw remembered none = none
  read_raw remembered (some raw) =
      if is_empty raw then none else elim (parse raw) [ none ↦ remembered | some v ↦ read_value v ]

  unfoldable pub read_session : String → World → Option SavedSession
  unfolding read_auth_value read_value
  read_session server w = elim (read_auth_value hex (key server) w.device) [
    | throws ↦ w.memory server
    | value raw ↦ read_raw (w.memory server) raw
  ]

  abbrev pub serialized : Option SavedSession → Option String
  serialized none = none
  serialized (some v) = some (stringify (to_json v))

  unfoldable pub save_session : String → Option SavedSession → World → World
  unfolding write_auth_value
  save_session server v w = record {
    device = write_auth_value hex (key server) (serialized v) w.device;
    memory = remember server v w.memory;
  }
