-- ===== src/Session/Storage/RoundTrip.antt =====
-- What is saved is what is read, and only what may be used is read.
use mathlib.Core.Path.{subst}
use bhidne_ho.Prelude.{
  ℕ, Bool, true, false, Option, none, some, [], String, ◌≡◌, ◌∙◌, refl, sym, ap, is_empty, eq_refl,
}
use bhidne_ho.Json.{Json, get, as_text}
use bhidne_ho.Invitations.{is_id}
use bhidne_ho.Session.{Room, SavedSession}
use bhidne_ho.Session.Storage.{
  Platform, web, native, Device, native_key, put_item, filled, text_of, throws, value,
  read_auth_value, write_auth_value, to_json, room_json, game_json, read_room, read_value, World,
  key, read_raw, read_session, serialized, save_session, Read,
}

abbrev pub RoomIsKnown : Option Room → Type 0
RoomIsKnown none = Unit
RoomIsKnown (some r) = is_id 64 r.room_id ≡ true

-- A session that may be used: its texts are not empty and its room has an id of a room.
pub record IsUsable (v : SavedSession) : Type 0 where
  pub has_token : is_empty v.session.token ≡ false
  pub has_user : is_empty v.session.user_id ≡ false
  pub has_room : RoomIsKnown v.room

-- The session with no members of its room.
abbrev pub without_members : Room → Room
without_members r = record r { members = [] }

abbrev pub emptied : Option Room → Option Room
emptied none = none
emptied (some r) = some (without_members r)

abbrev pub emptied_session : SavedSession → SavedSession
emptied_session v = record v { room = emptied v.room }

read_room-known :
    (r : Room)
    → is_id 64 r.room_id ≡ true
    → read_room (some r.room_id) (some r.name) ≡ some (without_members r)
read_room-known r h = rw h refl

room_json-read :
    (o : Option Room)
    → RoomIsKnown o
    → read_room
        (as_text (get "room_id" (some (room_json o))))
        (as_text (get "name" (some (room_json o))))
      ≡ emptied o
unfolding bhidne_ho.Json.find_field
room_json-read none h = refl
room_json-read (some r) h = read_room-known r h

game_json-read : (o : Option String) → as_text (some (game_json o)) ≡ o
game_json-read none = refl
game_json-read (some g) = refl

read_value-to_json :
    (v : SavedSession) → IsUsable v → read_value (to_json v) ≡ some (emptied_session v)
unfolding read_value bhidne_ho.Json.find_field
read_value-to_json v h =
    rw (read_value, h.has_token, h.has_user)
      (ap
          (λ r.
            some
              (record { session = v.session; room = r; game = as_text (some (game_json v.game)) }))
          (room_json-read v.room h.has_room)
        ∙ ap (λ g. some (record { session = v.session; room = emptied v.room; game = g }))
            (game_json-read v.game))

abbrev pub AllUsable : Option SavedSession → Type 0
AllUsable none = Unit
AllUsable (some v) = IsUsable v

put_item-same :
    (k : String) (v : Option String) (items : String → Option String) → put_item k v items k ≡ v
put_item-same k v items = rw (eq_refl k) refl

text_of-filled : (v : Option String) → filled v ≡ v → filled (some (text_of v)) ≡ v
text_of-filled none h = refl
text_of-filled (some s) h = h

abbrev device : Platform → Bool → (String → Option String) → Device
device p a items = record { platform = p; available = a; full = false; items = items }

-- What a store that takes what it is given then gives.
abbrev answer : Platform → Bool → Option String → Read
answer native a v = value v
answer web true v = value v
answer web false v = throws

device-read :
    (hex : ℕ → String) (k : String) (v : Option String) (p : Platform) (a : Bool)
    (items : String → Option String)
    → filled v ≡ v
    → read_auth_value hex k (write_auth_value hex k v (device p a items)) ≡ answer p a v
unfolding read_auth_value write_auth_value
device-read hex k v native a items h =
    ap value
      (ap filled (put_item-same (native_key hex k) (some (text_of v)) items) ∙ text_of-filled v h)
device-read hex k v web false items h = refl
device-read hex k none web true items h = ap value (put_item-same k none items)
device-read hex k (some s) web true items h = ap value (put_item-same k (some s) items)

write_auth_value-read :
    (hex : ℕ → String) (k : String) (v : Option String) (d : Device)
    → filled v ≡ v
    → d.full ≡ false
    → read_auth_value hex k (write_auth_value hex k v d) ≡ answer d.platform d.available v
write_auth_value-read hex k v d h f =
    subst
      (λ b.
        read_auth_value hex k (
          write_auth_value hex k v
            (record { platform = d.platform; available = d.available; full = b; items = d.items }))
        ≡ answer d.platform d.available v)
      (sym f) (device-read hex k v d.platform d.available d.items h)

-- What is recalled of a session: what is remembered if the web has no store, and else all but the
-- members of its room.
abbrev pub recalled : Platform → Bool → Option SavedSession → Option SavedSession
recalled web false v = v
recalled p a none = none
recalled p a (some v) = some (emptied_session v)

module _ (hex : ℕ → String) (stringify : Json → String) (parse : String → Option Json) where
  -- `JSON.parse` reads what `JSON.stringify` writes of the session, which is not the empty text.
  abbrev pub ReadsBack : Option SavedSession → Type 0
  ReadsBack none = Unit
  ReadsBack (some v) =
      (parse (stringify (to_json v)) ≡ some (to_json v))
      × (is_empty (stringify (to_json v)) ≡ false)

  read_raw-saved :
      (m v : Option SavedSession)
      → AllUsable v
      → ReadsBack v
      → read_raw hex stringify parse m (serialized hex stringify parse v) ≡ recalled native true v
  read_raw-saved m none h b = refl
  read_raw-saved m (some v) h (parsed, full) = rw (full, parsed) (read_value-to_json v h)

  filled-serialized :
      (v : Option SavedSession)
      → ReadsBack v
      → filled (serialized hex stringify parse v) ≡ serialized hex stringify parse v
  filled-serialized none b = refl
  filled-serialized (some v) (parsed, full) = rw full refl

  read_by :
      (server : String) (v : Option SavedSession) (w : World) (p : Platform) (a : Bool)
      → AllUsable v
      → ReadsBack v
      → w.memory server ≡ v
      → read_auth_value hex (key server) w.device ≡ answer p a (serialized hex stringify parse v)
      → read_session hex stringify parse server w ≡ recalled p a v
  unfolding read_session
  read_by server v w web false h b m e = rw (read_session, e) m
  read_by server none w web true h b m e = rw (read_session, e) refl
  read_by server none w native a h b m e = rw (read_session, e) refl
  read_by server (some v) w web true h b m e =
      rw (read_session, e) (read_raw-saved (w.memory server) (some v) h b)
  read_by server (some v) w native a h b m e =
      rw (read_session, e) (read_raw-saved (w.memory server) (some v) h b)

  -- A usable session that is saved for a server is what is read for it next, with no members of its
  -- room; where the web has no store, it is read with them. Nothing is read once the session is
  -- removed. The store must take what it is given, and JSON read back what it writes of the session.
  pub save_session-read :
      (server : String) (v : Option SavedSession) (w : World)
      → AllUsable v
      → ReadsBack v
      → w.device.full ≡ false
      → read_session hex stringify parse server (save_session hex stringify parse server v w)
        ≡ recalled w.device.platform w.device.available v
  unfolding save_session
  save_session-read server v w h b room_left =
      read_by server v (save_session hex stringify parse server v w) w.device.platform
        w.device.available h b (rw (eq_refl server) refl)
        (write_auth_value-read hex (key server) (serialized hex stringify parse v) w.device
          (filled-serialized v b) room_left)
