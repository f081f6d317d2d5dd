-- ===== src/Table/Geometry.antt =====
-- Where the seats are, and who sits where.
use bhidne_ho.Prelude.{
  ℕ, zero, suc, ◌+◌, ◌*◌, ◌≤◌, Bool, true, false, Option, none, some, List, [], ◌∷◌, ◌++◌, String,
  ◌≡◌, ◌⊎◌, inl, inr, refl, arith, eq_iff, take, drop, length, All, Among, Option-cases,
}
use mathlib.Core.List.{Perm, append-nil, perm_middle}
use mathlib.Core.List.Perm
use bhidne_ho.Table.{find_index, seated_order, Point, SeatGeometry, table_seat_geometry}

-- The seat around a point lies within the table.
abbrev pub Inside : ℕ → ℕ → ℕ → ℕ → Point → Type 0
Inside width height w h p =
    (w * 50 ≤ p.x) × (p.x + w * 50 ≤ width * 100) × (h * 50 ≤ p.y) × (p.y + h * 50 ≤ height * 100)

-- The seats around two points do not overlap.
abbrev pub Apart : ℕ → ℕ → Point → Point → Type 0
Apart w h p q =
    ((p.x + w * 100 ≤ q.x) ⊎ (q.x + w * 100 ≤ p.x))
    ⊎ ((p.y + h * 100 ≤ q.y) ⊎ (q.y + h * 100 ≤ p.y))

abbrev pub AllApart : ℕ → ℕ → List Point → Type 0
AllApart w h [] = Unit
AllApart w h (p ∷ ps) = All (Apart w h p) ps × AllApart w h ps

abbrev pub IsLaidOut : ℕ → SeatGeometry → Type 0
IsLaidOut width g =
    All (Inside width g.height g.seat_width g.seat_height) g.positions
    × AllApart g.seat_width g.seat_height g.positions

-- For two to five players on a table at least 240 pixels wide, compact or not and whatever the height
-- available, every player has a seat, all seats lie within the table, and no two overlap.
pub table_seat_geometry-IsLaidOut :
    (count width : ℕ) (compact : Bool) (available : Option ℕ)
    → 2 ≤ count
    → count ≤ 5
    → 240 ≤ width
    → let g = table_seat_geometry count width compact available in
      (length g.positions ≡ count) × IsLaidOut width g
unfolding table_seat_geometry
table_seat_geometry-IsLaidOut zero width compact available a b h = absurd (omega arith)
table_seat_geometry-IsLaidOut (suc zero) width compact available a b h = absurd (omega arith)
table_seat_geometry-IsLaidOut (suc (suc zero)) width true available a b h = ground arith
table_seat_geometry-IsLaidOut (suc (suc (suc zero))) width true available a b h = ground arith
table_seat_geometry-IsLaidOut (suc (suc (suc (suc zero)))) width true available a b h = ground arith
table_seat_geometry-IsLaidOut (suc (suc (suc (suc (suc zero))))) width true available a b h =
    ground arith
table_seat_geometry-IsLaidOut (suc (suc zero)) width false available a b h = ground arith
table_seat_geometry-IsLaidOut (suc (suc (suc zero))) width false available a b h = ground arith
table_seat_geometry-IsLaidOut (suc (suc (suc (suc zero)))) width false available a b h =
    ground arith
table_seat_geometry-IsLaidOut (suc (suc (suc (suc (suc zero))))) width false available a b h =
    ground arith
table_seat_geometry-IsLaidOut (suc (suc (suc (suc (suc (suc n)))))) width compact available a b h =
    absurd (omega arith)

rotate-perm : (n : ℕ) (xs : List String) → Perm (drop n xs ++ take n xs) xs
rotate-perm zero xs = rw (append-nil xs) (Perm.refl _)
rotate-perm (suc n) [] = Perm.refl _
rotate-perm (suc n) (x ∷ xs) =
    Perm.trans (perm_middle (drop n xs) (take n xs)) (Perm.cons x (rotate-perm n xs))

-- The first of a list is a given text.
abbrev pub StartsWith : String → List String → Type 0
StartsWith x [] = ⊥
StartsWith x (y ∷ ys) = y ≡ x

find_index-starts :
    (viewer : String) (ps : List String) (i : ℕ)
    → find_index viewer ps ≡ some i
    → (rest : List String) → StartsWith viewer (drop i ps ++ rest)
find_index-starts viewer [] i h rest = absurd (ground arith)
find_index-starts viewer (p ∷ ps) zero h rest = ground (arith, eq_iff p viewer)
find_index-starts viewer (p ∷ ps) (suc i) h rest = find_index-starts viewer ps i (ground arith) rest

find_index-none :
    (viewer : String) (ps : List String) → find_index viewer ps ≡ none → Among viewer ps → ⊥
find_index-none viewer [] h m = m
find_index-none viewer (p ∷ ps) h m = ground (arith, eq_iff p viewer, find_index-none viewer ps)

find_index-Among :
    (viewer : String) (ps : List String) (i : ℕ) → find_index viewer ps ≡ some i → Among viewer ps
find_index-Among viewer [] i h = cc
find_index-Among viewer (p ∷ ps) i h = elim (Option-cases (find_index viewer ps)) [
  | inl e ↦ ground (arith, eq_iff p viewer)
  | inr (j, e) ↦ inr (find_index-Among viewer ps j e)
]

-- The order on the screen holds the same players, and begins with the viewer, if the viewer is one of
-- them; otherwise it is the server's order.
pub seated_order_lem :
    (players : List String) (viewer : String)
    → Perm (seated_order players viewer) players
      × (Among viewer players → StartsWith viewer (seated_order players viewer))
      × ((Among viewer players → ⊥) → seated_order players viewer ≡ players)
unfolding seated_order
seated_order_lem players viewer = elim (Option-cases (find_index viewer players)) [
  | inl e ↦
      rw (seated_order, e)
        (Perm.refl players, λ m. absurd (find_index-none viewer players e m), λ absent. refl)
  | inr (i, e) ↦
      rw (seated_order, e)
        (
          rotate-perm i players,
          λ m. find_index-starts viewer players i e (take i players),
          λ absent. absurd (absent (find_index-Among viewer players i e)),
        )
]
