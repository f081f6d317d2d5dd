-- ===== src/Table/Bids.antt =====
-- client/src/multiplayer/bidProgress.ts: how far a bid is met. The texts are the catalog's keys.
use bhidne_ho.Prelude.{
  ℕ, ◌+◌, ◌-◌, ◌≤◌, ◌<◌, Bool, false, Option, none, some, String, ◌≡◌, ◌↔◌, arith, ◌==◌, leb, ltb,
  if◌then◌else◌,
}

pub data BidState : Type 0 where
  pending met missed chasing : BidState

-- `count` is the number that the text `common.need_count` is given.
pub record BidProgress : Type 0 where
  pub text : String
  pub state : BidState
  pub count : ℕ

abbrev progress : String → BidState → ℕ → BidProgress
progress text state count = record { text = text; state = state; count = count }

-- `remaining !== undefined && need > Math.max(0, remaining)`
abbrev out_of_reach : ℕ → Option ℕ → Bool
out_of_reach need none = false
out_of_reach need (some remaining) = ltb remaining need

unfoldable pub bid_progress : ℕ → ℕ → Option ℕ → BidProgress
bid_progress bid won remaining =
    let need = bid - won in
    if leb bid 0
    then progress "callbreak.bid_pending" pending 0
    else if need == 0
    then progress "callbreak.met" met 0
    else if out_of_reach need remaining
    then progress "callbreak.cannot_reach_bid" missed 0
    else progress "common.need_count" chasing need

-- With the number of tricks left known, a bid that was made is met exactly if it has been won, missed
-- exactly if even winning every trick left would not win it, and otherwise chased, by at most the
-- tricks that are left.
pub bid_progress-state_iff :
    (bid won remaining : ℕ)
    → 1 ≤ bid
    → let p = bid_progress bid won (some remaining) in
      ((p.state ≡ met) ↔ (bid ≤ won))
      × ((p.state ≡ missed) ↔ (won + remaining < bid))
      × ((p.state ≡ chasing) ↔ ((won < bid) × (bid ≤ won + remaining)))
      × (p.state ≡ chasing → (won + p.count ≡ bid) × (p.count ≤ remaining))
unfolding bid_progress
bid_progress-state_iff bid won remaining h = ground arith

-- A missed bid stays missed: of the tricks left the player wins some, `w`, and loses others, `l`.
pub bid_missed_stays :
    (bid won remaining w l : ℕ)
    → w + l ≤ remaining
    → (bid_progress bid won (some remaining)).state ≡ missed
    → (bid_progress bid (won + w) (some (remaining - (w + l)))).state ≡ missed
unfolding bid_progress
bid_missed_stays bid won remaining w l h m = ground arith
