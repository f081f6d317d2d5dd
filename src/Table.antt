-- ===== src/Table.antt =====
-- The table's rules of display that need no game: seats (client/src/multiplayer/tableSeats.ts) here;
-- entry and sharing, the progress of a bid, and the guidance of a Call Break round in the child
-- modules. Positions are in hundredths of a pixel, so that the fractions of the source are exact.
pub mod Geometry
pub mod Entry
pub mod Bids
pub mod Guidance
mod Tests
use bhidne_ho.Prelude.{
  ℕ, zero, suc, ◌+◌, ◌-◌, ◌*◌, ◌≤◌, min, max, Bool, true, false, not, ◌&&◌, ◌||◌, Option, none,
  some, List, [], ◌∷◌, ◌++◌, String, ◌≡◌, refl, str_eq, ◌==◌, if◌then◌else◌, take, drop, length,
}

-- `players.findIndex(...)`, none for -1.
abbrev pub find_index : String → List String → Option ℕ
find_index viewer [] = none
find_index viewer (p ∷ ps) =
    let rest = find_index viewer ps in
    if str_eq p viewer then some 0 else elim rest [ none ↦ none | some i ↦ some (suc i) ]

-- The players are given by their ids.
unfoldable pub seated_order : List String → String → List String
seated_order players viewer = elim (find_index viewer players) [
  | none ↦ players
  | some own ↦ drop own players ++ take own players
]

pub record Point : Type 0 where
  pub x : ℕ
  pub y : ℕ

abbrev pub at : ℕ → ℕ → Point
at x y = record { x = x; y = y }

pub record SeatGeometry : Type 0 where
  pub height : ℕ
  pub seat_width : ℕ
  pub seat_height : ℕ
  pub center : Point
  pub positions : List Point

-- `availableHeight || 360`
abbrev usable : Option ℕ → ℕ
usable none = 360
usable (some h) = if h == 0 then 360 else h

abbrev pub positions_for : ℕ → ℕ → ℕ → ℕ → ℕ → ℕ → ℕ → ℕ → List Point
positions_for count width middle side_y top bottom left right =
    if count == 2
    then at middle bottom ∷ at middle top ∷ []
    else if count == 3
    then at middle bottom ∷ at (width * 25) top ∷ at (width * 75) top ∷ []
    else if count == 4
    then at middle bottom ∷ at left side_y ∷ at middle top ∷ at right side_y ∷ []
    else at middle bottom
      ∷ at left side_y
      ∷ at (width * 26) top
      ∷ at (width * 74) top
      ∷ at right side_y
      ∷ []

unfoldable pub table_seat_geometry : ℕ → ℕ → Bool → Option ℕ → SeatGeometry
table_seat_geometry count width compact available =
    let height = if compact then 260 else max 360 (min 560 (usable available)) in
    let seat_width : ℕ = if compact then 68 else 80 in
    let seat_height : ℕ = if compact then 68 else 88 in
    record {
      height = height;
      seat_width = seat_width;
      seat_height = seat_height;
      center = at (width * 50) (height * (if compact then 50 else 42));
      positions = take count (
          positions_for count width (width * 50) (height * (if compact then 66 else 73))
            (seat_height * 50) (height * 100 - seat_height * 50) (seat_width * 50)
            (width * 100 - seat_width * 50));
    }
