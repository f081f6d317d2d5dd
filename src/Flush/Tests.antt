-- ===== src/Flush/Tests.antt =====
-- A turn in a round of Flush, and the theorems at it.
use bhidne_ho.Prelude.{◌+◌, Bool, true, none, some, List, [], ◌∷◌, String, ◌≡◌, ◌≢◌, ◌↔◌, ◌⊎◌, refl}
use bhidne_ho.Flush.{FlushPublic, show, flush_decision, Observation, FlushBet, sum_amounts}
use bhidne_ho.Flush.Cues.{cues, cues_once}

abbrev asked : FlushPublic
asked = record {
  pending_show = some (record { target_id = "p2" });
  pending_side_show = none;
  round_number = 3;
  status = "playing";
  current_player_id = some "p1";
}

show_first :
    flush_decision (some asked) true ≡ some (record { round = 3; phase = show; actor = "p2" })
unfolding flush_decision
show_first = refl

abbrev before : Observation
before = record { scope = "t"; decision = some "3:playing:p1"; ready = true }

abbrev mine : Observation
mine = record { scope = "t"; decision = some "3:show:p2"; ready = true }

cues_once_example :
    ((cues (some before) ((mine, true) ∷ (mine, true) ∷ []) ≡ 1)
      ⊎ (cues (some before) ((mine, true) ∷ (mine, true) ∷ []) ≡ 0))
    × ((cues (some before) ((mine, true) ∷ (mine, true) ∷ []) ≡ 1) ↔ (
        (◌≡◌ {A = String} "t" "t")
        × (◌≡◌ {A = Bool} true true)
        × (◌≡◌ {A = Bool} true true)
        × (mine.decision ≢ none)
        × (before.decision ≢ mine.decision)))
cues_once_example = cues_once before mine ((mine, true) ∷ []) (refl, tt)

abbrev bets : List FlushBet
bets =
    record { sequence = 1; player_id = "p1"; amount = 10; kind = "BLIND" }
    ∷ record { sequence = 2; player_id = "p2"; amount = 20; kind = "SEEN" }
    ∷ []

bets_sum : 45 ≡ 15 + sum_amounts bets
unfolding sum_amounts
bets_sum = refl
