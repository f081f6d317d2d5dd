-- ===== src/Marriage.antt =====
-- client/src/multiplayer/marriage.ts: the cards, melds and views of Marriage, and its small tests.
-- A standard card has a rank and one of the four suits, a man has neither, as the engine deals them.
-- Rank 14 is the ace.
pub mod Order
pub mod Distinct
pub mod Completion
pub mod Suggestions
pub mod Workspace
pub mod Masks
pub mod Cover
pub mod Finish
pub mod Wins
pub mod Maal
pub mod Announcements
mod Tests
mod ProgressTests
use bhidne_ho.Prelude.{
  ℕ, ◌-◌, Bool, true, false, not, ◌&&◌, ◌||◌, Option, none, some, List, [], ◌∷◌, String, ◌≡◌, ◌↔◌,
  arith, str_eq, ◌==◌, leb, length, all, any, filterb, if◌then◌else◌,
}

-- In the order of `['S', 'C', 'H', 'D']`.
pub data Suit : Type 0 where
  spades clubs hearts diamonds : Suit

abbrev pub all_suits : List Suit
all_suits = spades ∷ clubs ∷ hearts ∷ diamonds ∷ []

abbrev pub suit_index : Suit → ℕ
suit_index spades = 0
suit_index clubs = 1
suit_index hearts = 2
suit_index diamonds = 3

abbrev pub suit_eq : Suit → Suit → Bool
suit_eq a b = suit_index a == suit_index b

pub record Face : Type 0 where
  pub rank : ℕ
  pub suit : Suit

-- `a.rank === b.rank && a.suit === b.suit`
abbrev pub same_face : Face → Face → Bool
same_face a b = (a.rank == b.rank) && suit_eq a.suit b.suit

pub data Kind : Type 0 where
  standard : Face → Kind
  man : Kind

pub record MarriageCard : Type 0 where
  pub card_id : String
  pub kind : Kind

abbrev pub is_standard : Kind → Bool
is_standard (standard f) = true
is_standard man = false

pub data MeldType : Type 0 where
  pure_sequence tunnela dublee sequence set : MeldType

abbrev pub is_dublee : MeldType → Bool
is_dublee dublee = true
is_dublee _ = false

pub record MarriageMeld : Type 0 where
  pub meld_type : MeldType
  pub card_ids : List String

-- `ids.includes(id)`, `set.has(id)`
abbrev pub has : String → List String → Bool
has id ids = any (λ i. str_eq i id) ids

pub data Submission : Type 0 where
  show_dublees show_initial_melds : Submission

unfoldable pub can_submit_marriage : List MarriageMeld → Option Submission
can_submit_marriage groups =
    if (length groups == 7) && all (λ g. is_dublee g.meld_type) groups
    then some show_dublees
    else if (length groups == 3) && all (λ g. not (is_dublee g.meld_type)) groups
    then some show_initial_melds
    else none

-- `mode` is whether the mode is 'fan'.
unfoldable pub marriage_uses_arc : ℕ → Bool → Bool → Bool
marriage_uses_arc card_count fan revealing = leb card_count 15 && (revealing || fan)
