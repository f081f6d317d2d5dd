-- ===== src/Api/Leaving/Ended.antt =====
-- How leaving a room ends, for every pair of replies.
use mathlib.Core.Path.{subst}
use bhidne_ho.Prelude.{
  ℕ, ◌≤◌, ◌<◌, Bool, true, false, not, Option, some, String, ◌≡◌, ◌≢◌, ◌↔◌, ◌⊎◌, inl, inr, refl,
  sym, ap, ◌∙◌, arith, Bool-cases, ◌==◌,
}
use bhidne_ho.Json.{
  Json, null, bool, number, text, array, object, Items, nil, cons, get, text_is_iff, is_null,
}
use bhidne_ho.Json.Shapes.{is_null_iff, ◌&&↔◌}
use bhidne_ho.Api.{Messages, ApiError, Decoded, no_content, value, failed, decode_api_response}
use bhidne_ho.Api.Decoding.{decode_api_response-value_iff}
use bhidne_ho.Api.Leaving.{
  Reply, reply, no_reply, accepted, lost, api_error, Departure, departed, rethrown, unconfirmed,
  decoded_answer, none_is, is_absent, leave_answer, verifies, after_leave, leave_room_membership,
}

-- A success that the client can read: 204, or another 2xx with JSON.
abbrev pub Succeeds : (String → Option Json) → Reply → Type 0
Succeeds parse no_reply = ⊥
Succeeds parse (reply raw status) =
    (status ≡ 204)
    ⊎ ((200 ≤ status) × (status < 300) × (raw ≢ "") × ((v : Json) × (parse raw ≡ some v)))

abbrev pub NoneIs : String → Items → Type 0
NoneIs room_id nil = Unit
NoneIs room_id (cons v xs) =
    (v ≢ null) × (get "room_id" (some v) ≢ some (text room_id)) × NoneIs room_id xs

-- A list of memberships that was read and does not hold the room.
abbrev pub IsAbsent : (String → Option Json) → String → Reply → Type 0
IsAbsent parse room_id no_reply = ⊥
IsAbsent parse room_id (reply raw status) =
    (200 ≤ status)
    × (status < 300)
    × (status ≢ 204)
    × (raw ≢ "")
    × ((xs : Items) × (parse raw ≡ some (array xs)) × NoneIs room_id xs)

not_iff : {A : Type 0} {b : Bool} → (b ≡ true) ↔ A → (not b ≡ true) ↔ (A → ⊥)
not_iff {b = true} (f, g) = ((λ h. cc), λ h. absurd (h (f refl)))
not_iff {b = false} (f, g) = ((λ h a. let k = g a in cc), λ h. refl)

some_null_iff : (v : Json) → (is_null (some v) ≡ true) ↔ (v ≡ null)
some_null_iff v =
    let (f, g) = is_null_iff (some v) in ((λ h. let k = f h in cc), λ h. g (ap some h))

NoneIs-iff : (room_id : String) (xs : Items) → (none_is room_id xs ≡ true) ↔ NoneIs room_id xs
NoneIs-iff room_id nil = ground arith
NoneIs-iff room_id (cons v xs) =
    let (there, back) =
      not_iff (some_null_iff v)
      &&↔ not_iff (text_is_iff room_id (get "room_id" (some v)))
      &&↔ NoneIs-iff room_id xs in
    ((λ h. let ((a, b), c) = there h in (a, b, c)), λ (a, b, c). back ((a, b), c))

abbrev ListsOthers : String → Decoded → Type 0
ListsOthers room_id d = (xs : Items) × (d ≡ value (array xs)) × NoneIs room_id xs

ListsOthers-iff :
    (room_id : String) (d : Decoded) → (is_absent room_id d ≡ true) ↔ ListsOthers room_id d
ListsOthers-iff room_id no_content = ((λ h. cc), λ (xs, e, n). cc)
ListsOthers-iff room_id (failed r) = ((λ h. cc), λ (xs, e, n). cc)
ListsOthers-iff room_id (value null) = ((λ h. cc), λ (xs, e, n). cc)
ListsOthers-iff room_id (value (bool b)) = ((λ h. cc), λ (xs, e, n). cc)
ListsOthers-iff room_id (value (number b)) = ((λ h. cc), λ (xs, e, n). cc)
ListsOthers-iff room_id (value (text b)) = ((λ h. cc), λ (xs, e, n). cc)
ListsOthers-iff room_id (value (object b)) = ((λ h. cc), λ (xs, e, n). cc)
ListsOthers-iff room_id (value (array ys)) = (
  (λ h. (ys, refl, (NoneIs-iff room_id ys).0 h)),
  λ (xs, e, n).
      let same : xs ≡ ys = cc in (NoneIs-iff room_id ys).1 (subst (NoneIs room_id) same n),
)

IsAbsent-iff :
    (parse : String → Option Json) (m : Messages) (room_id : String) (r : Reply)
    → (verifies parse m room_id r ≡ true) ↔ IsAbsent parse room_id r
unfolding verifies
IsAbsent-iff parse m room_id no_reply = ground arith
IsAbsent-iff parse m room_id (reply raw status) =
    let (there, back) = ListsOthers-iff room_id (decode_api_response parse m raw status) in
    (
      (λ h.
          let (xs, e, n) = there h in
          let (a, b, c, d, f) = (decode_api_response-value_iff parse m raw status (array xs)).0 e in
          (a, b, c, d, (xs, f, n))),
      λ (a, b, c, d, (xs, f, n)).
          back (
            xs,
            (decode_api_response-value_iff parse m raw status (array xs)).1 (a, b, c, d, f),
            n,
          ),
    )

no_content_iff :
    (parse : String → Option Json) (m : Messages) (raw : String) (status : ℕ)
    → (decode_api_response parse m raw status ≡ no_content) ↔ (status ≡ 204)
unfolding decode_api_response
no_content_iff parse m raw status = ground arith

failed_status :
    (parse : String → Option Json) (m : Messages) (raw : String) (status : ℕ) (e : ApiError)
    → decode_api_response parse m raw status ≡ failed e
    → e.status ≡ status
unfolding decode_api_response
failed_status parse m raw status e h = ground arith

Decoded-cases :
    (d : Decoded)
    → (d ≡ no_content) ⊎ ((v : Json) × (d ≡ value v)) ⊎ ((e : ApiError) × (d ≡ failed e))
Decoded-cases no_content = inl refl
Decoded-cases (value v) = inr (inl (v, refl))
Decoded-cases (failed e) = inr (inr (e, refl))

reply_cases :
    (parse : String → Option Json) (m : Messages) (raw : String) (status : ℕ)
    → let r = reply raw status in
      (Succeeds parse r × (leave_answer parse m r ≡ accepted))
      ⊎ ((e : ApiError) × (¬ Succeeds parse r) × (leave_answer parse m r ≡ api_error e))
unfolding leave_answer
reply_cases parse m raw status = elim (Decoded-cases (decode_api_response parse m raw status)) [
  | inl e ↦ inl (inl ((no_content_iff parse m raw status).0 e), ap decoded_answer e)
  | inr (inl (v, e)) ↦
      let (a, b, c, d, f) = (decode_api_response-value_iff parse m raw status v).0 e in
      inl (inr (a, b, d, (v, f)), ap decoded_answer e)
  | inr (inr (x, e)) ↦ inr (x, unread x e, ap decoded_answer e)
]
  where
    unread :
        (x : ApiError)
        → decode_api_response parse m raw status ≡ failed x
        → ¬ Succeeds parse (reply raw status)
    unread x e (inl h) = let k = (no_content_iff parse m raw status).1 h in let l = sym k ∙ e in cc
    unread x e (inr (a, b, d, (v, f))) = elim (Bool-cases (status == 204)) [
      | inl h ↦
          let k = (no_content_iff parse m raw status).1 (ground arith) in let l = sym k ∙ e in cc
      | inr h ↦
          let k =
            (decode_api_response-value_iff parse m raw status v).1 (a, b, ground arith, d, f) in
          let l = sym k ∙ e in cc
    ]

-- The three ways in which leaving a room ends.
abbrev pub Ends : (String → Option Json) → Messages → String → Reply → Reply → Departure → Type 0
Ends parse m room_id left memberships d =
    ((d ≡ departed)
      ↔ (Succeeds parse left ⊎ ((left ≡ no_reply) × IsAbsent parse room_id memberships)))
    × (((e : ApiError) × (d ≡ rethrown e)) ↔ ((left ≢ no_reply) × ¬ Succeeds parse left))
    × ((d ≡ unconfirmed m.could_not_confirm)
        ↔ ((left ≡ no_reply) × ¬ IsAbsent parse room_id memberships))

Ends-accepted :
    (parse : String → Option Json) (m : Messages) (room_id raw : String) (status : ℕ)
    (memberships : Reply)
    → Succeeds parse (reply raw status)
    → Ends parse m room_id (reply raw status) memberships departed
Ends-accepted parse m room_id raw status memberships s =
    (((λ h. inl s), λ h. refl), ((λ (e, h). cc), λ (h, k). absurd (k s)), ((λ h. cc), λ (h, k). cc))

Ends-rethrown :
    (parse : String → Option Json) (m : Messages) (room_id raw : String) (status : ℕ)
    (memberships : Reply) (x : ApiError)
    → ¬ Succeeds parse (reply raw status)
    → Ends parse m room_id (reply raw status) memberships (rethrown x)
Ends-rethrown parse m room_id raw status memberships x u = (
  ((λ h. cc), λ h. elim h [ inl s ↦ absurd (u s) | inr (l, k) ↦ cc ]),
  ((λ h. ((λ l. cc), u)), λ h. (x, refl)),
  ((λ h. cc), λ (h, k). cc),
)

Ends-lost :
    (parse : String → Option Json) (m : Messages) (room_id : String) (memberships : Reply)
    → Ends parse m room_id no_reply memberships (after_leave parse m room_id lost memberships)
Ends-lost parse m room_id memberships =
    let (there, back) = IsAbsent-iff parse m room_id memberships in
    elim (Bool-cases (verifies parse m room_id memberships)) [
      | inl e ↦ rw e (
        ((λ h. inr (refl, there e)), λ h. refl),
        ((λ (x, h). cc), λ (h, k). absurd (h refl)),
        ((λ h. cc), λ (h, k). absurd (k (there e))),
      )
      | inr e ↦ rw e (
        ((λ h. cc), λ h. elim h [ inl s ↦ absurd s | inr (l, k) ↦ let b = back k in cc ]),
        ((λ (x, h). cc), λ (h, k). absurd (h refl)),
        ((λ h. (refl, λ k. let b = back k in cc)), λ h. refl),
      )
    ]

-- `leaveRoomMembership` succeeds exactly when the response to the request is a success that can be read,
-- a 204 or another 2xx with JSON, or when no response came and the memberships were then read, as a
-- list without a null that does not hold the room. It rethrows an ApiError exactly for every other
-- response, one of them a 2xx without JSON, and says that the departure is not confirmed exactly when
-- no response came and no such list was read.
pub leave_room_membership-Ends :
    (parse : String → Option Json) (m : Messages) (room_id : String) (left memberships : Reply)
    → Ends parse m room_id left memberships (leave_room_membership parse m room_id left memberships)
unfolding leave_room_membership leave_answer
leave_room_membership-Ends parse m room_id no_reply memberships =
    Ends-lost parse m room_id memberships
leave_room_membership-Ends parse m room_id (reply raw status) memberships =
    elim (reply_cases parse m raw status) [
      | inl (s, e) ↦
          subst
            (λ a.
              Ends parse m room_id (reply raw status) memberships
                (after_leave parse m room_id a memberships))
            (sym e) (Ends-accepted parse m room_id raw status memberships s)
      | inr (x, u, e) ↦
          subst
            (λ a.
              Ends parse m room_id (reply raw status) memberships
                (after_leave parse m room_id a memberships))
            (sym e) (Ends-rethrown parse m room_id raw status memberships x u)
    ]
