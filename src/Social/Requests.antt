-- ===== src/Social/Requests.antt =====
-- A request on the channel under every sequence of events.
use bhidne_ho.Prelude.{
  ℕ, ◌+◌, ◌≤◌, Bool, true, false, none, some, List, [], ◌∷◌, String, ◌≡◌, ◌≢◌, ◌⊎◌, inl, inr, arith,
  eq_iff, if◌then◌else◌, suc, Among, ◌∙◌,
}
use bhidne_ho.Social.{SocialAck, resolved, Texts, Request, finish, cancel, attempt, request, hear}

-- The timer fires, an event reaches the channel, or the signal aborts.
pub data Event : Type 0 where
  fired : Event
  heard : SocialAck → Event
  aborting : Event

-- The abort listener is gone once the request is finished; a timer fires only while armed.
unfoldable pub step : Texts → Event → Request → Request
step t fired r = if r.timer then attempt t false (record r { timer = false }) else r
step t (heard a) r = hear t a r
step t aborting r = if r.listening then cancel t r else r

unfoldable pub run : Texts → List Event → Request → Request
run t [] r = r
run t (e ∷ es) r = run t es (step t e r)

-- Open, with the timer armed and its attempts sent; or settled, with nothing left behind.
pub record IsTidy (r : Request) : Type 0 where
  pub open_or_settled :
      ((r.ending ≡ none) × (r.timer ≡ true) × (r.listening ≡ true))
      ⊎ ((r.ending ≢ none) × (r.timer ≡ false) × (r.listening ≡ false))
  pub at_most_three : (r.sent ≤ 3) × (r.sent ≤ r.attempts) × (r.attempts ≤ r.sent + 1)
  pub all_sent : r.ending ≡ none → r.sent ≡ r.attempts

request-IsTidy : (t : Texts) (aborted : Bool) (m c : String) → IsTidy (request t aborted m c)
unfolding request
request-IsTidy t aborted m c = ground arith

step-IsTidy : (t : Texts) (e : Event) (r : Request) → IsTidy r → IsTidy (step t e r)
unfolding step attempt hear cancel
step-IsTidy t fired r v = ground arith
step-IsTidy t (heard a) r v = ground arith
step-IsTidy t aborting r v = ground arith

run-keeps : (t : Texts) (es : List Event) (r : Request) → IsTidy r → IsTidy (run t es r)
unfolding run
run-keeps t [] r v = v
run-keeps t (e ∷ es) r v = run-keeps t es (step t e r) (step-IsTidy t e r v)

-- After any events a request has sent its command at most three times, and is either open, with its
-- timer armed and its subscription standing, or settled, with neither left behind.
pub run-IsTidy :
    (t : Texts) (aborted : Bool) (m c : String) (es : List Event)
    → IsTidy (run t es (request t aborted m c))
run-IsTidy t aborted m c es = run-keeps t es (request t aborted m c) (request-IsTidy t aborted m c)

abbrev pub fires : List Event → ℕ
fires [] = 0
fires (fired ∷ es) = suc (fires es)
fires (heard a ∷ es) = fires es
fires (aborting ∷ es) = fires es

abbrev fire_of : Event → ℕ
fire_of fired = 1
fire_of (heard a) = 0
fire_of aborting = 0

fires-cons : (e : Event) (es : List Event) → fires (e ∷ es) ≡ fire_of e + fires es
fires-cons fired es = omega arith
fires-cons (heard a) es = omega arith
fires-cons aborting es = omega arith

step_open :
    (t : Texts) (e : Event) (r : Request)
    → IsTidy r
    → (step t e r).ending ≡ none
    → (r.ending ≡ none) × ((step t e r).attempts ≡ r.attempts + fire_of e)
unfolding step attempt hear cancel
step_open t fired r v h = ground arith
step_open t (heard a) r v h = ground arith
step_open t aborting r v h = ground arith

run_was_open :
    (t : Texts) (es : List Event) (r : Request)
    → IsTidy r
    → (run t es r).ending ≡ none
    → r.ending ≡ none
unfolding run
run_was_open t [] r v h = h
run_was_open t (e ∷ es) r v h =
    (step_open t e r v (run_was_open t es (step t e r) (step-IsTidy t e r v) h)).0

request_starts :
    (t : Texts) (aborted : Bool) (m c : String)
    → (request t aborted m c).ending ≡ none
    → (request t aborted m c).attempts ≡ 1
unfolding request
request_starts t aborted m c h = ground arith

run_open :
    (t : Texts) (es : List Event) (r : Request)
    → IsTidy r
    → (run t es r).ending ≡ none
    → (run t es r).attempts ≡ r.attempts + fires es
unfolding run
run_open t [] r v h = omega arith
run_open t (e ∷ es) r v h =
    let tidy = step-IsTidy t e r v in
    let later = run_open t es (step t e r) tidy h in
    let (still, counted) = step_open t e r v (run_was_open t es (step t e r) tidy h) in
    omega (arith, fires-cons e es)

-- A request is settled at the latest when its timer has fired three times.
pub run_settles :
    (t : Texts) (aborted : Bool) (m c : String) (es : List Event)
    → 3 ≤ fires es
    → (run t es (request t aborted m c)).ending ≢ none
run_settles t aborted m c es h open_still =
    let r = request t aborted m c in
    let v = request-IsTidy t aborted m c in
    let w = run-keeps t es r v in
    let counted = run_open t es r v open_still in
    let first = run_was_open t es r v open_still in
    absurd
      (omega (arith, w.all_sent open_still, w.at_most_three, request_starts t aborted m c first))

-- How a step can make the promise resolve.
step_resolved :
    (t : Texts) (e : Event) (r : Request) (a : SocialAck)
    → t.action_rejected ≢ ""
    → (step t e r).ending ≡ some (resolved a)
    → (r.ending ≡ some (resolved a))
      ⊎ ((e ≡ heard a)
          × (a.match_id ≡ r.match_id)
          × (a.command_id ≡ r.command_id)
          × (a.status ≡ "accepted"))
unfolding step attempt hear cancel finish
step_resolved t fired r a n h = ground arith
step_resolved t (heard b) r a n h = ground (
  arith,
  eq_iff b.match_id r.match_id,
  eq_iff b.command_id r.command_id,
  eq_iff b.status "accepted",
  eq_iff t.action_rejected "",
)
step_resolved t aborting r a n h = ground arith

step-ids :
    (t : Texts) (e : Event) (r : Request)
    → ((step t e r).match_id ≡ r.match_id) × ((step t e r).command_id ≡ r.command_id)
unfolding step attempt hear cancel finish
step-ids t fired r = ground arith
step-ids t (heard b) r = ground arith
step-ids t aborting r = ground arith

-- The acknowledgment was heard, answers this request, and accepts it.
abbrev pub AcceptedBy : String → String → SocialAck → List Event → Type 0
AcceptedBy m c a es =
    Among (heard a) es × (a.match_id ≡ m) × (a.command_id ≡ c) × (a.status ≡ "accepted")

run_resolved_from :
    (t : Texts) (es : List Event) (r : Request) (a : SocialAck)
    → t.action_rejected ≢ ""
    → (run t es r).ending ≡ some (resolved a)
    → (r.ending ≡ some (resolved a)) ⊎ AcceptedBy r.match_id r.command_id a es
unfolding run
run_resolved_from t [] r a n h = inl h
run_resolved_from t (e ∷ es) r a n h = elim (run_resolved_from t es (step t e r) a n h) [
  | inl before ↦ elim (step_resolved t e r a n before) [
    | inl earlier ↦ inl earlier
    | inr (now, m, c, s) ↦ inr (inl now, m, c, s)
  ]
  | inr (later, m, c, s) ↦ inr (inr later, m ∙ (step-ids t e r).0, c ∙ (step-ids t e r).1, s)
]

request_unresolved :
    (t : Texts) (aborted : Bool) (m c : String) (a : SocialAck)
    → (request t aborted m c).ending ≢ some (resolved a)
unfolding request
request_unresolved t aborted m c a = ground arith

request-ids :
    (t : Texts) (aborted : Bool) (m c : String)
    → ((request t aborted m c).match_id ≡ m) × ((request t aborted m c).command_id ≡ c)
unfolding request
request-ids t aborted m c = ground arith

-- If the request resolves, then by an acknowledgment that was heard, names its match and its command,
-- and accepts it. (The catalog's text for a rejection is not empty.)
pub run_resolved :
    (t : Texts) (aborted : Bool) (m c : String) (es : List Event) (a : SocialAck)
    → t.action_rejected ≢ ""
    → (run t es (request t aborted m c)).ending ≡ some (resolved a)
    → AcceptedBy m c a es
run_resolved t aborted m c es a n h = elim (run_resolved_from t es (request t aborted m c) a n h) [
  | inl before ↦ absurd (request_unresolved t aborted m c a before)
  | inr (heard_it, to_match, to_command, accepts) ↦
      let (same_match, same_command) = request-ids t aborted m c in
      (heard_it, to_match ∙ same_match, to_command ∙ same_command, accepts)
]
