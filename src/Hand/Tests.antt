-- ===== src/Hand/Tests.antt =====
-- A card played, and the theorems of the hand at it.
use bhidne_ho.Prelude.{true, false, not, none, some, [], ◌∷◌, ◌≡◌, refl, is_empty}
use bhidne_ho.Hand.{
  PendingCard, HandDrawerState, HandDrawerInput, initial_hand_drawer, update_hand_drawer, act,
}
use bhidne_ho.Hand.Mobile.{MobileCards, mobile_act, busy_changed, stays_busy, decision_resolves}
use bhidne_ho.Hand.Reveal.{Reveal}

abbrev my_turn : HandDrawerInput
my_turn = record {
  deal = "d1";
  turn = some "t1";
  revision = 4;
  hand = "AS" ∷ "KD" ∷ [];
  busy = false;
  error = "";
}

abbrev played : PendingCard
played = record { card = "AS"; revision = 4 }

abbrev waiting : HandDrawerState
waiting = record { is_open = true; entered = some "t1"; deal = "d1"; pending = some played }

played_waits :
    (act false 4 "PLAY_CARD" (some "AS") (update_hand_drawer initial_hand_drawer my_turn)).0
    ≡ waiting
unfolding act update_hand_drawer
played_waits = refl

confirmed_closes :
    update_hand_drawer waiting (record my_turn { turn = none; revision = 5; hand = "KD" ∷ [] })
    ≡ record waiting { is_open = false; pending = none }
unfolding update_hand_drawer
confirmed_closes = refl

abbrev shown : MobileCards
shown = record { is_open = true; pending = false; saw_busy = false }

decision_resolves_example :
    let t = mobile_act true false "FINISH" shown in
    let u = busy_changed true "" (stays_busy false ("" ∷ []) t) in
    (stays_busy false ("" ∷ []) t ≡ t)
    × (t.is_open ≡ true)
    × (busy_changed false "refused" (stays_busy true ("" ∷ "" ∷ []) u)
        ≡ record { is_open = not (is_empty "refused"); pending = false; saw_busy = false })
decision_resolves_example =
    decision_resolves "FINISH" "refused" ("" ∷ []) ("" ∷ "" ∷ []) shown refl refl

abbrev fresh : Reveal
fresh = record { key = "k"; count = 20 }
