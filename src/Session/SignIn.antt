-- ===== src/Session/SignIn.antt =====
-- client/src/auth/social.ts: the sign-in by another provider's page. The stored proof is kept as the
-- record that its JSON text stands for; a callback address is given as `new URL` parses it.
pub mod Redeemed
mod Tests
use mathlib.Core.Path.{subst}
use bhidne_ho.Prelude.{
  ℕ, suc, ◌+◌, ◌≤◌, ◌<◌, Bool, true, false, not, ◌&&◌, ◌||◌, Option, none, some, List, [], ◌∷◌,
  ◌++◌, ◌≡◌, refl, arith, eq_iff, String, str_eq, is_empty, is_some, or_else, ltb, opt_str_eq,
  if◌then◌else◌, All, Bool-cases, Option-cases, ◌⊎◌, sym, or_text, length, inl, inr, or_text,
  length,
}

pub record PendingLogin : Type 0 where
  pub attempt_id : String
  pub secret : String
  pub return_uri : String
  pub original_url : Option String
  pub expires_at : ℕ

-- `address` is the protocol, the host and the path; the other two are query parameters.
pub record Callback : Type 0 where
  pub social_attempt : Option String
  pub social_code : Option String
  pub address : String

-- `isSocialReturn`; none is an address that does not parse.
unfoldable pub is_social_return : Option Callback → Bool
is_social_return none = false
is_social_return (some u) = is_some u.social_attempt

-- What `/auth/social/browser/complete` is asked with.
pub record Handoff : Type 0 where
  pub attempt_id : String
  pub secret : String
  pub handoff : String

-- `starting`, whether `completion` is a promise, and the value under `pendingKey`.
pub record SignIn : Type 0 where
  pub starting : Bool
  pub completing : Bool
  pub pending : Option PendingLogin

-- `startSocialLogin` up to its request: whether it asks for an attempt.
unfoldable pub start_social_login : SignIn → SignIn × Bool
start_social_login s = if s.starting then (s, false) else (record s { starting = true }, true)

-- The answer, with the time and the page's own address on the web; none is a failure.
unfoldable pub attempt_answered :
    ℕ → String → Option String → Option (String × String) → SignIn → SignIn
attempt_answered now redirect_uri href none s = record s { starting = false }
attempt_answered now redirect_uri href (some (attempt_id, secret)) s = record s {
  pending = some (record {
    attempt_id = attempt_id;
    secret = secret;
    return_uri = redirect_uri;
    original_url = href;
    expires_at = now + 600000;
  });
}

-- `openProvider` has ended without a callback.
unfoldable pub provider_closed : Bool → SignIn → SignIn
provider_closed on_web s =
    if on_web then record s { starting = false } else record s { starting = false; pending = none }

abbrev pub code_of : Option String → String
code_of o = or_else o ""

-- The guard of `finish`.
unfoldable pub is_own : ℕ → PendingLogin → Callback → Bool
is_own now p u =
    not (ltb p.expires_at now)
    && opt_str_eq u.social_attempt (some p.attempt_id)
    && not (is_empty (code_of u.social_code))
    && str_eq u.address p.return_uri

abbrev pub handoff_of : PendingLogin → Callback → Handoff
handoff_of p u = record {
  attempt_id = p.attempt_id;
  secret = p.secret;
  handoff = code_of u.social_code;
}

-- `completeSocialLogin`: the request that it makes; none if one is under way or the guard throws.
unfoldable pub complete_social_login : ℕ → Callback → SignIn → SignIn × Option Handoff
unfolding is_own
complete_social_login now u s = if s.completing then (s, none) else elim s.pending [
  | none ↦ (s, none)
  | some p ↦
      if is_own now p u then (record s { completing = true }, some (handoff_of p u)) else (s, none)
]

-- The request of `finish` has been answered or has failed.
unfoldable pub completion_settled : SignIn → SignIn
completion_settled s = record s { completing = false; pending = none }

-- `startSocialLogin` returns after a callback.
unfoldable pub login_returned : SignIn → SignIn
login_returned s = record s { starting = false }

pub data Event : Type 0 where
  begun returned settled : Event
  answered : ℕ → String → Option String → Option (String × String) → Event
  closed : Bool → Event
  observed : ℕ → Callback → Event

-- The client with the number of attempts stored and the requests made.
pub record Run : Type 0 where
  pub sign_in : SignIn
  pub attempts : ℕ
  pub handoffs : List Handoff

abbrev pub requested : SignIn × Option Handoff → Run → Run
requested (s, none) r = record r { sign_in = s }
requested (s, some h) r = record r { sign_in = s; handoffs = h ∷ r.handoffs }

abbrev pub count_attempt : Option (String × String) → ℕ → ℕ
count_attempt none n = n
count_attempt (some a) n = n + 1

-- A request settles only if one is under way.
unfoldable pub step : Event → Run → Run
unfolding start_social_login attempt_answered provider_closed complete_social_login
    completion_settled login_returned
step begun r = record r { sign_in = (start_social_login r.sign_in).0 }
step returned r = record r { sign_in = login_returned r.sign_in }
step settled r =
    if r.sign_in.completing then record r { sign_in = completion_settled r.sign_in } else r
step (answered now uri href a) r = record r {
  sign_in = attempt_answered now uri href a r.sign_in;
  attempts = count_attempt a r.attempts;
}
step (closed on_web) r = record r { sign_in = provider_closed on_web r.sign_in }
step (observed now u) r = requested (complete_social_login now u r.sign_in) r

unfoldable pub run : List Event → Run → Run
unfolding step
run [] r = r
run (e ∷ es) r = run es (step e r)

-- The address that the page then shows: the one where the sign-in began, if it is of the page's own
-- origin. `parse` gives an address's origin and its text.
unfoldable pub restored_address : (String → String × String) → String → PendingLogin → Option String
restored_address parse own_origin p =
    let (origin, href) = parse (or_text (or_else p.original_url "") p.return_uri) in
    if str_eq origin own_origin then some href else none

-- A page that is opened, with the attempt that its store may hold.
abbrev pub opened : Option PendingLogin → Run
opened pending = record {
  sign_in = record { starting = false; completing = false; pending = pending };
  attempts = if is_some pending then 1 else 0;
  handoffs = [];
}
