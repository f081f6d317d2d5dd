-- ===== src/Session/SignIn/Tests.antt =====
-- A sign-in that comes back to the app.
use bhidne_ho.Prelude.{◌<◌, ◌≤◌, none, some, List, [], ◌∷◌, ◌≡◌, refl, false, length, is_empty}
use bhidne_ho.Session.SignIn.{
  PendingLogin, Callback, handoff_of, complete_social_login, Event, begun, answered, observed,
  settled, Run, run, opened,
}
use bhidne_ho.Session.SignIn.Redeemed.{run-redeems_once}

abbrev to_google : List Event
to_google = begun ∷ answered 1000 "app:/back" none (some ("a1", "secret")) ∷ []

abbrev back : Callback
back = record { social_attempt = some "a1"; social_code = some "c"; address = "app:/back" }

abbrev attempt : PendingLogin
attempt = record {
  attempt_id = "a1";
  secret = "secret";
  return_uri = "app:/back";
  original_url = none;
  expires_at = 601000;
}

abbrev there : Run
there = run to_google (opened none)

-- The second of two callbacks asks for nothing, and neither does one after the end.
one_request :
    length
      (run
        (observed 2000 back ∷ observed 2000 back ∷ settled ∷ observed 2000 back ∷ [])
        there).handoffs
    ≡ 1
unfolding run
one_request = refl

redeemed : (complete_social_login 2000 back there.sign_in).1 ≡ some (handoff_of attempt back)
unfolding run complete_social_login
redeemed = refl

run-redeems_once_example :
    (length there.handoffs < there.attempts)
    × ((p : PendingLogin) × (there.sign_in.pending ≡ some p)
        × (2000 ≤ p.expires_at)
        × (back.social_attempt ≡ some p.attempt_id)
        × (back.address ≡ p.return_uri)
        × (handoff_of attempt back ≡ handoff_of p back)
        × (is_empty (handoff_of attempt back).handoff ≡ false))
run-redeems_once_example =
    run-redeems_once to_google none 2000 back (handoff_of attempt back) redeemed
