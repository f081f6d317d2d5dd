-- ===== src/Hand.antt =====
-- The state of a player's hand on the screen: client/src/multiplayer/handDrawer.ts and
-- client/src/multiplayer/useCallBreakHand.ts here, useMobileCards.ts and useMarriageReveal.ts in the
-- child modules. A turn or prompt key that is null or empty asks for nothing.
pub mod Drawer
pub mod Mobile
pub mod Reveal
mod Tests
use bhidne_ho.Prelude.{
  ℕ, ◌+◌, Bool, true, false, not, ◌&&◌, ◌||◌, Option, none, some, List, [], ◌∷◌, String, str_eq,
  opt_str_eq, is_empty, ltb, any, if◌then◌else◌,
}

pub record PendingCard : Type 0 where
  pub card : String
  pub revision : ℕ

pub record HandDrawerState : Type 0 where
  pub is_open : Bool
  pub entered : Option String
  pub deal : String
  pub pending : Option PendingCard

pub record HandDrawerInput : Type 0 where
  pub deal : String
  pub turn : Option String
  pub revision : ℕ
  pub hand : List String
  pub busy : Bool
  pub error : String

unfoldable pub initial_hand_drawer : HandDrawerState
initial_hand_drawer = record { is_open = false; entered = none; deal = ""; pending = none }

abbrev pub in_hand : String → List String → Bool
in_hand card hand = any (λ c. str_eq c card) hand

-- The first assignment: a new deal starts from the initial state.
unfoldable pub for_deal : HandDrawerInput → HandDrawerState → HandDrawerState
unfolding initial_hand_drawer
for_deal i s = if str_eq s.deal i.deal then s else record initial_hand_drawer { deal = i.deal }

-- The pending card: closed once it is gone from a later hand, open again after an error.
abbrev pub resolve : HandDrawerInput → Option PendingCard → HandDrawerState → HandDrawerState
resolve i none s = s
resolve i (some p) s =
    if ltb p.revision i.revision && not (in_hand p.card i.hand)
    then record s { is_open = false; pending = none }
    else if not i.busy && not (is_empty i.error)
    then record s { is_open = true; pending = none }
    else s

abbrev pub no_pending : Option PendingCard → Bool
no_pending none = true
no_pending (some p) = false

-- A turn that has not been entered opens the hand, unless a card is pending.
abbrev pub enter : Option String → HandDrawerState → HandDrawerState
enter none s = s
enter (some t) s =
    if not (is_empty t) && not (opt_str_eq (some t) s.entered) && no_pending s.pending
    then record s { is_open = true; entered = some t }
    else s

unfoldable pub update_hand_drawer : HandDrawerState → HandDrawerInput → HandDrawerState
unfolding for_deal
update_hand_drawer s i = let next = for_deal i s in enter i.turn (resolve i next.pending next)

-- `useCallBreakHand`: the toggle, and what `act` does with the drawer and whether it calls `onAction`.
-- `card` is the payload's card, if it has one that is a text.
unfoldable pub toggle : HandDrawerState → HandDrawerState
toggle s = record s { is_open = not s.is_open }

abbrev play : ℕ → Option String → HandDrawerState → HandDrawerState
play revision none s = s
play revision (some c) s = record s { pending = some (record { card = c; revision = revision }) }

unfoldable pub act : Bool → ℕ → String → Option String → HandDrawerState → HandDrawerState × Bool
act busy revision command card s =
    if busy
    then (s, false)
    else (if str_eq command "PLAY_CARD" then play revision card s else s, true)
