-- ===== src/Session/SignIn/Redeemed.antt =====
-- A sign-in is redeemed only by the callback of the attempt that this app has stored, and at most once.
use mathlib.Core.Path.{subst}
use bhidne_ho.Prelude.{
  ℕ, ◌+◌, ◌≤◌, ◌<◌, Bool, true, false, Option, none, some, List, [], ◌∷◌, ◌≡◌, ◌∙◌, refl, sym, ap,
  arith, eq_iff, String, str_eq, is_empty, is_some, opt_str_eq, if◌then◌else◌, length, Bool-cases,
  inl, inr, ◌⊎◌,
}
use bhidne_ho.Session.SignIn.{
  PendingLogin, Callback, Handoff, SignIn, start_social_login, attempt_answered, provider_closed,
  code_of, is_own, handoff_of, complete_social_login, completion_settled, login_returned, Event,
  begun, returned, settled, answered, closed, observed, Run, requested, step, run, opened,
}

-- Whether the stored attempt may still be redeemed.
abbrev spare : SignIn → ℕ
spare s = if s.completing then 0 else (if is_some s.pending then 1 else 0)

abbrev IsCounted : Run → Type 0
IsCounted r = length r.handoffs + spare r.sign_in ≤ r.attempts

-- The stored attempt is redeemed by the callback.
abbrev pub Redeems : ℕ → Callback → SignIn → PendingLogin → Type 0
Redeems now u s p =
    (s.completing ≡ false)
    × (s.pending ≡ some p)
    × (is_own now p u ≡ true)
    × (complete_social_login now u s ≡ (record s { completing = true }, some (handoff_of p u)))

state_cases :
    (now : ℕ) (u : Callback) (starting completing : Bool) (pending : Option PendingLogin)
    → let s : SignIn = record { starting = starting; completing = completing; pending = pending } in
      (complete_social_login now u s ≡ (s, none)) ⊎ ((p : PendingLogin) × Redeems now u s p)
unfolding complete_social_login
state_cases now u starting true pending = inl refl
state_cases now u starting false none = inl refl
state_cases now u starting false (some p) = elim (Bool-cases (is_own now p u)) [
  | inl own ↦ inr (p, (refl, refl, own, rw (complete_social_login, own) refl))
  | inr other ↦ inl (rw (complete_social_login, other) refl)
]

completing_cases :
    (now : ℕ) (u : Callback) (s : SignIn)
    → (complete_social_login now u s ≡ (s, none)) ⊎ ((p : PendingLogin) × Redeems now u s p)
completing_cases now u s = state_cases now u s.starting s.completing s.pending

observed-IsCounted :
    (now : ℕ) (u : Callback) (r : Run)
    → IsCounted r
    → IsCounted (requested (complete_social_login now u r.sign_in) r)
observed-IsCounted now u r h = elim (completing_cases now u r.sign_in) [
  | inl e ↦ subst (λ x. IsCounted (requested x r)) (sym e) h
  | inr (p, (c, e, own, f)) ↦ subst (λ x. IsCounted (requested x r)) (sym f) (ground arith)
]

step-IsCounted : (e : Event) (r : Run) → IsCounted r → IsCounted (step e r)
unfolding step start_social_login attempt_answered provider_closed completion_settled login_returned
step-IsCounted begun r h = ground arith
step-IsCounted returned r h = ground arith
step-IsCounted settled r h = ground arith
step-IsCounted (answered now uri href none) r h = ground arith
step-IsCounted (answered now uri href (some a)) r h = ground arith
step-IsCounted (closed on_web) r h = ground arith
step-IsCounted (observed now u) r h = observed-IsCounted now u r h

run-IsCounted : (es : List Event) (r : Run) → IsCounted r → IsCounted (run es r)
unfolding run
run-IsCounted [] r h = h
run-IsCounted (e ∷ es) r h = run-IsCounted es (step e r) (step-IsCounted e r h)

opened-IsCounted : (pending : Option PendingLogin) → IsCounted (opened pending)
opened-IsCounted none = omega arith
opened-IsCounted (some p) = omega arith

opt_str_eq-some : (o : Option String) (s : String) → opt_str_eq o (some s) ≡ true → o ≡ some s
opt_str_eq-some none s h = cc
opt_str_eq-some (some t) s h = ap some ((eq_iff t s).0 h)

is_own_lem :
    (now : ℕ) (p : PendingLogin) (u : Callback)
    → is_own now p u ≡ true
    → (now ≤ p.expires_at)
      × (u.social_attempt ≡ some p.attempt_id)
      × (u.address ≡ p.return_uri)
      × (is_empty (code_of u.social_code) ≡ false)
unfolding is_own
is_own_lem now p u h =
    let same : opt_str_eq u.social_attempt (some p.attempt_id) ≡ true = ground arith in
    let there : str_eq u.address p.return_uri ≡ true = ground arith in
    (
      ground arith,
      opt_str_eq-some u.social_attempt p.attempt_id same,
      (eq_iff u.address p.return_uri).0 there,
      ground arith,
    )

requested_by :
    (now : ℕ) (u : Callback) (s : SignIn) (h : Handoff)
    → (complete_social_login now u s).1 ≡ some h
    → (p : PendingLogin) × Redeems now u s p × (h ≡ handoff_of p u)
requested_by now u s h e = elim (completing_cases now u s) [
  | inl f ↦ let k : none ≡ some h = sym (ap (λ (x : SignIn × Option Handoff). x.1) f) ∙ e in cc
  | inr (p, (c, q, own, f)) ↦
      let k : some (handoff_of p u) ≡ some h =
        sym (ap (λ (x : SignIn × Option Handoff). x.1) f) ∙ e in
      (p, (c, q, own, f), cc)
]

-- After any events since the page was opened, a callback leads to a request only if an attempt is
-- stored that has not expired, that the callback names, and whose return address the callback has. The
-- request carries that attempt's secret and the callback's code, which is not empty; and fewer requests
-- than attempts have been made before, so no stored attempt is redeemed twice.
pub run-redeems_once :
    (es : List Event) (pending : Option PendingLogin) (now : ℕ) (u : Callback) (h : Handoff)
    → let t = run es (opened pending) in
      (complete_social_login now u t.sign_in).1 ≡ some h
      → (length t.handoffs < t.attempts)
        × ((p : PendingLogin) × (t.sign_in.pending ≡ some p)
            × (now ≤ p.expires_at)
            × (u.social_attempt ≡ some p.attempt_id)
            × (u.address ≡ p.return_uri)
            × (h ≡ handoff_of p u)
            × (is_empty h.handoff ≡ false))
run-redeems_once es pending now u h e =
    let t = run es (opened pending) in
    let count = run-IsCounted es (opened pending) (opened-IsCounted pending) in
    let (p, (c, q, own, f), same) = requested_by now u t.sign_in h e in
    let (alive, named, at, full) = is_own_lem now p u own in
    (
      ground arith,
      (
        p,
        q,
        alive,
        named,
        at,
        same,
        subst (λ (k : Handoff). is_empty k.handoff ≡ false) (sym same) full,
      ),
    )
