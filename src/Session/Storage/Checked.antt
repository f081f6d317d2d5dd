-- ===== src/Session/Storage/Checked.antt =====
-- What `readSession` accepts from a store that anyone may have written.
use bhidne_ho.Prelude.{
  ℕ, false, Option, none, some, String, ◌≡◌, ◌∙◌, refl, sym, ap, is_empty, Bool-cases, Option-cases,
  inl, inr, ◌⊎◌,
}
use bhidne_ho.Json.{Json, get, as_text}
use bhidne_ho.Invitations.{is_id}
use bhidne_ho.Session.{UserSession, SavedSession}
use bhidne_ho.Session.Storage.{
  Read, throws, value, read_auth_value, read_user, read_room, read_value, World, key, read_raw,
  read_session,
}
use bhidne_ho.Session.Storage.RoundTrip.{RoomIsKnown, AllUsable}

read_user-filled :
    (token user_id : Option String) (u : UserSession)
    → read_user token user_id ≡ some u
    → (is_empty u.token ≡ false) × (is_empty u.user_id ≡ false)
read_user-filled none user_id u h = cc
read_user-filled (some t) none u h = cc
read_user-filled (some t) (some i) u h = elim (Bool-cases (is_empty t)) [
  | inl e ↦ let k : none ≡ some u = rw e at h in cc
  | inr e ↦ elim (Bool-cases (is_empty i)) [
    | inl f ↦ let k : none ≡ some u = rw (e, f) at h in cc
    | inr f ↦
        let k : some (record { user_id = i; token = t }) ≡ some u = rw (e, f) at h in
        let same : record { user_id = i; token = t } ≡ u = cc in
        (
          ap (λ (z : UserSession). is_empty z.token) (sym same) ∙ e,
          ap (λ (z : UserSession). is_empty z.user_id) (sym same) ∙ f,
        )
  ]
]

read_room-RoomIsKnown : (r name : Option String) → RoomIsKnown (read_room r name)
read_room-RoomIsKnown none name = tt
read_room-RoomIsKnown (some r) none = tt
read_room-RoomIsKnown (some r) (some n) = elim (Bool-cases (is_id 64 r)) [
  | inl e ↦ rw e e
  | inr e ↦ rw e tt
]

read_value-AllUsable : (v : Json) → AllUsable (read_value v)
unfolding read_value
read_value-AllUsable v =
    let user = get "session" (some v) in
    let room = get "room" (some v) in
    let token = as_text (get "token" user) in
    let user_id = as_text (get "user_id" user) in
    elim (Option-cases (read_user token user_id)) [
      | inl e ↦ rw (read_value, e) tt
      | inr (u, e) ↦
          rw (read_value, e)
            (record {
              has_token = (read_user-filled token user_id u e).0;
              has_user = (read_user-filled token user_id u e).1;
              has_room =
                  read_room-RoomIsKnown (as_text (get "room_id" room)) (as_text (get "name" room));
            })
    ]

Read-cases : (r : Read) → (r ≡ throws) ⊎ ((raw : Option String) × (r ≡ value raw))
Read-cases throws = inl refl
Read-cases (value raw) = inr (raw, refl)

module _ (hex : ℕ → String) (stringify : Json → String) (parse : String → Option Json) where
  read_raw-AllUsable :
      (m : Option SavedSession) (raw : Option String)
      → AllUsable m
      → AllUsable (read_raw hex stringify parse m raw)
  read_raw-AllUsable m none h = tt
  read_raw-AllUsable m (some raw) h = elim (Bool-cases (is_empty raw)) [
    | inl e ↦ rw e tt
    | inr e ↦ elim (Option-cases (parse raw)) [
      | inl f ↦ rw (e, f) h
      | inr (v, f) ↦ rw (e, f) (read_value-AllUsable v)
    ]
  ]

  -- Whatever the store holds, a session that is read has a token and a user that are not empty, and a
  -- room only with the id of a room, if the same is true of what is remembered for the server.
  pub read_session-AllUsable :
      (server : String) (w : World)
      → AllUsable (w.memory server)
      → AllUsable (read_session hex stringify parse server w)
  unfolding read_session
  read_session-AllUsable server w h =
      elim (Read-cases (read_auth_value hex (key server) w.device)) [
        | inl e ↦ rw (read_session, e) h
        | inr (raw, e) ↦ rw (read_session, e) (read_raw-AllUsable (w.memory server) raw h)
      ]
