-- ===== src/Hand/Mobile.antt =====
-- client/src/multiplayer/useMobileCards.ts: the hand on a small screen. A prompt key that is null or
-- empty is no prompt.
use bhidne_ho.Prelude.{
  Bool, true, false, not, ◌&&◌, Option, none, some, List, [], ◌∷◌, String, ◌≡◌, refl, arith, str_eq,
  is_empty, any, if◌then◌else◌,
}

pub record MobileCards : Type 0 where
  pub is_open : Bool
  pub pending : Bool
  pub saw_busy : Bool

abbrev completes_decision : String → Bool
completes_decision command =
    any (λ c. str_eq c command)
      ("PLAY_CARD" ∷ "PLACE_BID" ∷ "ACCEPT_HAND" ∷ "CLAIM_REDEAL" ∷ "DISCARD_CARD" ∷ "FINISH" ∷ [])

-- The effect that runs when `busy` or `error` changes.
unfoldable pub busy_changed : Bool → String → MobileCards → MobileCards
busy_changed busy error s =
    if not s.pending
    then s
    else if busy
    then record s { saw_busy = true }
    else if not s.saw_busy
    then s
    else record { is_open = not (is_empty error); pending = false; saw_busy = false }

-- The effect that runs when the prompt changes.
unfoldable pub prompt_changed : Bool → Option String → MobileCards → MobileCards
prompt_changed mobile none s = s
prompt_changed mobile (some key) s =
    if mobile && not (is_empty key) then record s { is_open = false } else s

-- `act`, which always calls `onAction`.
unfoldable pub mobile_act : Bool → Bool → String → MobileCards → MobileCards
mobile_act mobile busy command s =
    if mobile && not busy && completes_decision command then record s { pending = true } else s

-- The effect at each of a list of errors, with the same `busy`.
unfoldable pub stays_busy : Bool → List String → MobileCards → MobileCards
stays_busy busy [] s = s
stays_busy busy (e ∷ es) s = stays_busy busy es (busy_changed busy e s)

idle_unchanged : (e : String) (s : MobileCards) → s.saw_busy ≡ false → busy_changed false e s ≡ s
unfolding busy_changed
idle_unchanged e s h = ground arith

busy_unchanged :
    (e : String) (s : MobileCards)
    → s.pending ≡ true
    → s.saw_busy ≡ true
    → busy_changed true e s ≡ s
unfolding busy_changed
busy_unchanged e s p h = ground arith

busy_seen :
    (e : String) (s : MobileCards)
    → s.pending ≡ true
    → busy_changed true e s ≡ record s { saw_busy = true }
unfolding busy_changed
busy_seen e s p = ground arith

busy_done :
    (e : String) (s : MobileCards)
    → s.pending ≡ true
    → s.saw_busy ≡ true
    → busy_changed false e s
      ≡ record { is_open = not (is_empty e); pending = false; saw_busy = false }
unfolding busy_changed
busy_done e s p h = ground arith

mobile_act-pending :
    (command : String) (s : MobileCards)
    → completes_decision command ≡ true
    → mobile_act true false command s ≡ record s { pending = true }
unfolding mobile_act
mobile_act-pending command s h = rw h

stays_idle : (es : List String) (s : MobileCards) → s.saw_busy ≡ false → stays_busy false es s ≡ s
unfolding stays_busy
stays_idle [] s h = refl
stays_idle (e ∷ es) s h = rw (idle_unchanged e s h) (stays_idle es s h)

busy_again :
    (es : List String) (s : MobileCards)
    → s.pending ≡ true
    → s.saw_busy ≡ true
    → stays_busy true es s ≡ s
unfolding stays_busy
busy_again [] s p h = refl
busy_again (e ∷ es) s p h = rw (busy_unchanged e s p h) (busy_again es s p h)

-- A command that completes a decision, given on a small screen while nothing is under way, decides the
-- hand when it has been busy and is done: however often the hand is updated before and during that,
-- the hand then is open exactly if there is an error, and nothing is pending any more. Until the
-- command is busy the updates change nothing.
pub decision_resolves :
    (command error : String) (before during : List String) (s : MobileCards)
    → completes_decision command ≡ true
    → s.saw_busy ≡ false
    → let t = mobile_act true false command s in
      let u = busy_changed true "" (stays_busy false before t) in
      (stays_busy false before t ≡ t)
      × (t.is_open ≡ s.is_open)
      × (busy_changed false error (stays_busy true during u)
          ≡ record { is_open = not (is_empty error); pending = false; saw_busy = false })
decision_resolves command error before during s h k =
    let t = record s { pending = true } in
    let u = record t { saw_busy = true } in
    rw
      (
        mobile_act-pending command s h,
        stays_idle before t k,
        busy_seen "" t refl,
        busy_again during u refl refl,
        busy_done error u refl refl,
      )
      (refl, refl, refl)
