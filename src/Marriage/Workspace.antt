-- ===== src/Marriage/Workspace.antt =====
-- client/src/multiplayer/marriageWorkspace.ts: what the player has to decide, and how the hand is laid
-- out. `width` and the sizes are whole pixels; `step` is given as the two numbers of its fraction.
use native.Mathlib.Nat.{div-add-mod, mod-lt}
use bhidne_ho.Prelude.{
  ◌↔◌, false, ◌∷◌, ℕ, ◌+◌, ◌-◌, ◌*◌, ◌/◌, ◌≤◌, ◌<◌, min, max, Bool, true, not, ◌&&◌, ◌||◌, Option,
  none, some, List, [], String, ◌≡◌, ◌≢◌, ◌⊎◌, arith, opt_str_eq, eq_iff, ltb, length,
  if◌then◌else◌, refl, ◌%◌,
}
use bhidne_ho.Marriage.{has}

pub data MarriageDecision : Type 0 where
  declare_tunnelas declaration_wait waiting draw_required discard_required finish_required :
      MarriageDecision

pub data HandSnap : Type 0 where
  collapsed expanded : HandSnap

-- The parts of the view that the decision reads; `mine` is `view.private`.
pub record Mine : Type 0 where
  pub player_id : String
  pub kinds : List String
  pub drawable_sources : List String

pub record View : Type 0 where
  pub tunnela_declaration_pending : Bool
  pub current_player_id : Option String
  pub mine : Option Mine

abbrev decide_turn : Mine → MarriageDecision
decide_turn mine =
    if has "draw" mine.kinds && ltb 0 (length mine.drawable_sources)
    then draw_required
    else if has "discard" mine.kinds
    then discard_required
    else if has "finish" mine.kinds
    then finish_required
    else waiting

abbrev decide_mine : View → Mine → Bool → MarriageDecision
decide_mine v mine playing =
    if playing && v.tunnela_declaration_pending
    then (if has "declare_tunnelas" mine.kinds then declare_tunnelas else declaration_wait)
    else if not playing || not (opt_str_eq (some mine.player_id) v.current_player_id)
    then waiting
    else decide_turn mine

-- The first argument is the view, none where it is undefined.
unfoldable pub marriage_decision : Option View → Bool → MarriageDecision
marriage_decision none playing = waiting
marriage_decision (some v) playing = elim v.mine [
  | none ↦ waiting
  | some m ↦ decide_mine v m playing
]

unfoldable pub marriage_hand_snap : MarriageDecision → HandSnap
marriage_hand_snap declare_tunnelas = expanded
marriage_hand_snap declaration_wait = expanded
marriage_hand_snap discard_required = expanded
marriage_hand_snap finish_required = expanded
marriage_hand_snap waiting = collapsed
marriage_hand_snap draw_required = collapsed

-- The decision asks the player for an action.
abbrev pub AsksToAct : MarriageDecision → Type 0
AsksToAct waiting = ⊥
AsksToAct declaration_wait = ⊥
AsksToAct d = Unit

-- The kind of action that a decision asks for is one that the server allows.
abbrev pub IsAllowed : Mine → MarriageDecision → Type 0
IsAllowed m draw_required = (has "draw" m.kinds ≡ true) × (m.drawable_sources ≢ [])
IsAllowed m discard_required = has "discard" m.kinds ≡ true
IsAllowed m finish_required = has "finish" m.kinds ≡ true
IsAllowed m declare_tunnelas = has "declare_tunnelas" m.kinds ≡ true
IsAllowed m d = Unit

abbrev pub MayDraw : View → Mine → Type 0
MayDraw v m =
    (v.current_player_id ≡ some m.player_id)
    × (has "draw" m.kinds ≡ true)
    × (m.drawable_sources ≢ [])

-- What the player may do: declare tunnelas while that is pending, and else, on the player's own turn,
-- draw from a source, discard or finish.
abbrev pub MayAct : View → Mine → Type 0
MayAct v m =
    ((v.tunnela_declaration_pending ≡ true) × (has "declare_tunnelas" m.kinds ≡ true))
    ⊎ ((v.tunnela_declaration_pending ≡ false)
        × (v.current_player_id ≡ some m.player_id)
        × (((has "draw" m.kinds ≡ true) × (m.drawable_sources ≢ []))
            ⊎ (has "discard" m.kinds ≡ true)
            ⊎ (has "finish" m.kinds ≡ true)))

-- The decision of a player with a private view, while the game is played.
abbrev pub FitsMine : View → Option Mine → MarriageDecision → Type 0
FitsMine v none d = d ≡ waiting
FitsMine v (some m) d =
    (AsksToAct d ↔ MayAct v m)
    × IsAllowed m d
    × ((d ≡ declaration_wait)
        ↔ ((v.tunnela_declaration_pending ≡ true) × (has "declare_tunnelas" m.kinds ≡ false)))
    × ((d ≡ draw_required) ↔ ((v.tunnela_declaration_pending ≡ false) × MayDraw v m))
    × (d ≡ finish_required → has "discard" m.kinds ≡ false)

-- A decision fits what the player sees.
abbrev pub FitsView : Option View → Bool → MarriageDecision → Type 0
FitsView none playing d = d ≡ waiting
FitsView (some v) false d = d ≡ waiting
FitsView (some v) true d = FitsMine v v.mine d

decide_mine-FitsMine :
    (v : View) (m : Mine) (current : Option String) (sources : List String)
    → v.current_player_id ≡ current
    → m.drawable_sources ≡ sources
    → FitsMine v (some m) (decide_mine v m true)
decide_mine-FitsMine v m none sources e f = ground (arith)
decide_mine-FitsMine v m (some c) [] e f = ground (arith, eq_iff m.player_id c)
decide_mine-FitsMine v m (some c) (s ∷ ss) e f = ground (arith, eq_iff m.player_id c)

-- The decision is to wait where there is no view, no private part of it, or no play. Else it asks the
-- player to act exactly when the player may: to declare tunnelas while that is pending, or on the own
-- turn to draw from a source, to discard or to finish; what it asks for is then allowed. It is to wait
-- for the declarations exactly when they are pending and the player has none to make. A draw comes
-- before all else on a turn, and a finish is asked for only where there is nothing to discard.
pub marriage_decision-FitsView :
    (view : Option View) (playing : Bool) → FitsView view playing (marriage_decision view playing)
unfolding marriage_decision
marriage_decision-FitsView none playing = refl
marriage_decision-FitsView (some v) false = by_mine v.mine
  where
    by_mine :
        (o : Option Mine)
        → elim o as (λ x. MarriageDecision) [ none ↦ waiting | some m ↦ decide_mine v m false ]
          ≡ waiting
    by_mine none = refl
    by_mine (some m) = refl
marriage_decision-FitsView (some v) true = by_mine v.mine
  where
    by_mine :
        (o : Option Mine)
        → FitsMine v o
            (elim o as (λ x. MarriageDecision) [ none ↦ waiting | some m ↦ decide_mine v m true ])
    by_mine none = refl
    by_mine (some m) = decide_mine-FitsMine v m v.current_player_id m.drawable_sources refl refl

pub record HandLayout : Type 0 where
  pub columns : ℕ
  pub step_numerator : ℕ
  pub step_denominator : ℕ
  pub height : ℕ

abbrev card_width : ℕ
card_width = 58

-- `Math.max(1, Math.min(8, Math.floor((width - 58) / 38) + 1))`; below 58 pixels both give 1.
abbrev columns_for : ℕ → ℕ
columns_for width = max 1 (min 8 ((width - card_width) / 38 + 1))

-- `Math.max(1, Math.ceil(count / columns))`
abbrev rows_for : ℕ → ℕ → ℕ
rows_for count columns = max 1 ((count + columns - 1) / columns)

-- The step is `Math.min(62, (width - 58) / (columns - 1))`, or 0 for one column.
unfoldable pub marriage_hand_layout : ℕ → ℕ → HandLayout
marriage_hand_layout count width =
    let columns = columns_for width in
    record {
      columns = columns;
      step_numerator = if ltb 1 columns then min (62 * (columns - 1)) (width - card_width) else 0;
      step_denominator = if ltb 1 columns then columns - 1 else 1;
      height = rows_for count columns * 100 + 14;
    }

rows_hold : (n c : ℕ) → 1 ≤ c → n ≤ c * rows_for n c
rows_hold n c h =
    let q = (n + c - 1) / c in
    let r = (n + c - 1) % c in
    let e : c * q + r ≡ n + c - 1 = div-add-mod (n + c - 1) c in
    let l : r < c = mod-lt (n + c - 1) h in let m : q ≤ rows_for n c = omega arith in grind arith

-- In a window of at least a card's width the hand's layout has one to eight columns and enough rows
-- for all the cards. In a row of several cards the last one ends within the window, and each shows
-- at least 38 and at most 62 of its pixels before the next.
pub marriage_hand_layout_fits :
    (count width : ℕ)
    → 58 ≤ width
    → let l = marriage_hand_layout count width in
      (1 ≤ l.columns)
      × (l.columns ≤ 8)
      × ((rows : ℕ) × (l.height ≡ rows * 100 + 14) × (count ≤ l.columns * rows))
      × (2 ≤ l.columns
          → (l.step_denominator ≡ l.columns - 1)
            × (l.step_numerator + 58 ≤ width)
            × (38 * l.step_denominator ≤ l.step_numerator)
            × (l.step_numerator ≤ 62 * l.step_denominator))
unfolding marriage_hand_layout
marriage_hand_layout_fits count width h = (
  omega arith,
  omega arith,
  (rows_for count (columns_for width), refl, rows_hold count (columns_for width) (omega arith)),
  λ several. ground arith,
)
