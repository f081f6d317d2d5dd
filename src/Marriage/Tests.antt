-- ===== src/Marriage/Tests.antt =====
-- The theorems on Marriage at concrete hands and views.
use bhidne_ho.Prelude.{
  ℕ, ◌≤◌, true, false, none, some, List, [], ◌∷◌, String, ◌≡◌, ◌⊎◌, refl, arith, ◌-◌, ◌+◌, ◌*◌,
  length, All, ◌*◌, ◌+◌,
}
use bhidne_ho.Marriage.{
  Suit, spades, hearts, Face, Kind, standard, man, MarriageCard, MarriageMeld, dublee, sequence,
  pure_sequence, tunnela,
}
use bhidne_ho.Marriage.Distinct.{Distinct}
use bhidne_ho.Marriage.Completion.{SeenMaal, ids_of, completion_kind}
use bhidne_ho.Marriage.Completion.Groups.{Completes}
use bhidne_ho.Marriage.Completion.Sound.{completion_kind-Completes}
use bhidne_ho.Marriage.Suggestions.{marriage_suggestions, candidates_of, collect_faces}
use bhidne_ho.Marriage.Suggestions.Search.{Pick, marriage_suggestions-normal}
use bhidne_ho.Marriage.Workspace.{
  View, Mine, marriage_decision, FitsView, marriage_decision-FitsView, marriage_hand_layout,
  marriage_hand_layout_fits,
}
use bhidne_ho.Marriage.Announcements.{
  MarriagePublic, IsJustified, marriage_announcements, marriage_announcements-IsJustified,
}

abbrev at_face : ℕ → Suit → Face
at_face r s = record { rank = r; suit = s }

abbrev card : String → ℕ → Suit → MarriageCard
card id r s = record { card_id = id; kind = standard (at_face r s) }

abbrev joker : MarriageCard
joker = record { card_id = "man"; kind = man }

abbrev seen : SeenMaal
seen = record { tiplu = at_face 10 hearts; jhiplu = at_face 9 hearts; poplu = at_face 11 hearts }

-- The ace and the three of spades with a man between.
abbrev with_man : List MarriageCard
with_man = card "a" 14 spades ∷ joker ∷ card "c" 3 spades ∷ []

with_man_is_sequence : completion_kind with_man seen ≡ some sequence
unfolding completion_kind bhidne_ho.Marriage.Distinct.set_size bhidne_ho.Marriage.Order.sort_by
with_man_is_sequence = refl

completion_kind-Completes_example :
    (3 ≤ length with_man) × Distinct (ids_of with_man) × Completes seen with_man sequence
completion_kind-Completes_example =
    completion_kind-Completes seen with_man sequence with_man_is_sequence

-- A run of four, a tunnela and a run of three.
abbrev nine : List MarriageCard
nine =
    card "a" 14 spades
    ∷ card "b" 2 spades
    ∷ card "c" 3 spades
    ∷ card "d" 7 hearts
    ∷ card "e" 7 hearts
    ∷ card "f" 7 hearts
    ∷ card "g" 11 hearts
    ∷ card "h" 12 hearts
    ∷ card "i" 13 hearts
    ∷ []

nine_suggested : length (marriage_suggestions nine).normal ≡ 3
unfolding marriage_suggestions mathlib.Core.List.flat_map
nine_suggested = refl

marriage_suggestions-normal_example :
    (((marriage_suggestions nine).normal ≡ [])
      ⊎ Pick (candidates_of (collect_faces [] nine)) 3 [] (marriage_suggestions nine).normal)
    × ((sel : List MarriageMeld)
        → Pick (candidates_of (collect_faces [] nine)) 3 [] sel
        → Pick (candidates_of (collect_faces [] nine)) 3 [] (marriage_suggestions nine).normal)
marriage_suggestions-normal_example = marriage_suggestions-normal nine

abbrev mine_to_draw : Mine
mine_to_draw = record { player_id = "p1"; kinds = "draw" ∷ []; drawable_sources = "stock" ∷ [] }

abbrev view_to_draw : View
view_to_draw = record {
  tunnela_declaration_pending = false;
  current_player_id = some "p1";
  mine = some mine_to_draw;
}

marriage_decision-FitsView_example :
    FitsView (some view_to_draw) true (marriage_decision (some view_to_draw) true)
marriage_decision-FitsView_example = marriage_decision-FitsView (some view_to_draw) true

marriage_hand_layout_fits_example :
    let l = marriage_hand_layout 21 390 in
    (1 ≤ l.columns)
    × (l.columns ≤ 8)
    × ((rows : ℕ) × (l.height ≡ rows * 100 + 14) × (21 ≤ l.columns * rows))
    × (2 ≤ l.columns
        → (l.step_denominator ≡ l.columns - 1)
          × (l.step_numerator + 58 ≤ 390)
          × (38 * l.step_denominator ≤ l.step_numerator)
          × (l.step_numerator ≤ 62 * l.step_denominator))
marriage_hand_layout_fits_example = marriage_hand_layout_fits 21 390 (omega arith)

abbrev shown_triple : List MarriageMeld
shown_triple = record { meld_type = tunnela; card_ids = "d" ∷ "e" ∷ "f" ∷ [] } ∷ []

abbrev won_game : MarriagePublic
won_game = record {
  players =
      record {
        player_id = "p1";
        route_dublee = false;
        shown_melds = shown_triple;
        has_seen_maal = true;
        finished = true;
        initial_tunnelas = shown_triple;
      }
      ∷ [];
  winner = some "p1";
  status = "finished";
  won_by_fold = true;
  winning_pair = [];
  normal_finish = none;
}

three_announced : length (marriage_announcements won_game) ≡ 3
unfolding marriage_announcements
three_announced = refl

marriage_announcements-IsJustified_example :
    All (IsJustified won_game) (marriage_announcements won_game)
marriage_announcements-IsJustified_example = marriage_announcements-IsJustified won_game
