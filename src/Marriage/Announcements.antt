-- ===== src/Marriage/Announcements.antt =====
-- client/src/multiplayer/marriageAnnouncements.ts: the table-wide announcements that the public view of
-- a Marriage game calls for.
use Prim.Native.String
use bhidne_ho.Prelude.{
  Bool, true, false, not, ◌&&◌, Option, none, some, List, [], ◌∷◌, ◌++◌, String, ◌≡◌, ◌≢◌, inl, inr,
  refl, arith, ltb, str_eq, eq_iff, opt_str_eq, length, All, All-append, filterb, find?,
  if◌then◌else◌, Bool-cases, Among, find?-Among,
}
use mathlib.Core.List.{map, flat_map}
use bhidne_ho.Marriage.{MarriageMeld}

-- `initial_tunnelas` is [] where the view has none.
pub record Player : Type 0 where
  pub player_id : String
  pub route_dublee : Bool
  pub shown_melds : List MarriageMeld
  pub has_seen_maal : Bool
  pub finished : Bool
  pub initial_tunnelas : List MarriageMeld

pub record NormalFinish : Type 0 where
  pub melds : List MarriageMeld
  pub discard_card_id : String

-- `won_by_fold` and `winning_pair` are false and [] where the view has none.
pub record MarriagePublic : Type 0 where
  pub players : List Player
  pub winner : Option String
  pub status : String
  pub won_by_fold : Bool
  pub winning_pair : List String
  pub normal_finish : Option NormalFinish

pub data AnnouncementKind : Type 0 where
  qualification tunnela win : AnnouncementKind

pub record MarriageAnnouncement : Type 0 where
  pub id : String
  pub player_id : String
  pub kind : AnnouncementKind
  pub dublee : Bool
  pub won_by_fold : Bool
  pub groups : List MarriageMeld
  pub winning_pair : List String
  pub discard : Option String

infixl 65 ◌<>◌
abbrev ◌<>◌ : String → String → String
a <> b = String.◌++◌ a b

-- `parts.join(separator)`
abbrev join : String → List String → String
join separator [] = ""
join separator (s ∷ []) = s
join separator (s ∷ t ∷ ts) = s <> separator <> join separator (t ∷ ts)

abbrev qualification_of : Player → MarriageAnnouncement
qualification_of p = record {
  id = "shown:" <> p.player_id <> ":" <> join ";" (map (λ g. join "," g.card_ids) p.shown_melds);
  player_id = p.player_id;
  kind = qualification;
  dublee = p.route_dublee;
  won_by_fold = false;
  groups = p.shown_melds;
  winning_pair = [];
  discard = none;
}

abbrev tunnela_of : Player → MarriageAnnouncement
tunnela_of p = record {
  id = "tunnela:" <> p.player_id <> ":" <> join "," (flat_map (λ m. m.card_ids) p.initial_tunnelas);
  player_id = p.player_id;
  kind = tunnela;
  dublee = false;
  won_by_fold = false;
  groups = p.initial_tunnelas;
  winning_pair = [];
  discard = none;
}

abbrev win_groups : MarriagePublic → Player → List MarriageMeld
win_groups v p =
    if v.won_by_fold then [] else elim v.normal_finish [ none ↦ p.shown_melds | some f ↦ f.melds ]

abbrev win_discard : Option NormalFinish → Option String
win_discard none = none
win_discard (some f) = some f.discard_card_id

abbrev win_of : MarriagePublic → Player → MarriageAnnouncement
win_of v p = record {
  id = "win:" <> p.player_id;
  player_id = p.player_id;
  kind = win;
  dublee = not v.won_by_fold && p.route_dublee;
  won_by_fold = v.won_by_fold;
  groups = win_groups v p;
  winning_pair = v.winning_pair;
  discard = win_discard v.normal_finish;
}

abbrev is_qualified : Player → Bool
is_qualified p = p.has_seen_maal && ltb 0 (length p.shown_melds)

abbrev has_tunnelas : Player → Bool
has_tunnelas p = ltb 0 (length p.initial_tunnelas)

abbrev is_winner : MarriagePublic → Player → Bool
is_winner v p = opt_str_eq (some p.player_id) v.winner && p.finished

abbrev win_list : MarriagePublic → Option Player → List MarriageAnnouncement
win_list v none = []
win_list v (some p) = if str_eq v.status "finished" then win_of v p ∷ [] else []

abbrev wins_of : MarriagePublic → List MarriageAnnouncement
wins_of v = win_list v (find? (is_winner v) v.players)

unfoldable pub marriage_announcements : MarriagePublic → List MarriageAnnouncement
marriage_announcements v =
    map qualification_of (filterb is_qualified v.players)
    ++ (map tunnela_of (filterb has_tunnelas v.players) ++ wins_of v)

-- What the public view must show for an announcement to be made.
abbrev pub Justified : MarriagePublic → MarriageAnnouncement → AnnouncementKind → Type 0
Justified v a qualification =
    (p : Player) × Among p v.players
    × (p.player_id ≡ a.player_id)
    × (p.has_seen_maal ≡ true)
    × (a.groups ≡ p.shown_melds)
    × (a.groups ≢ [])
Justified v a tunnela =
    (p : Player) × Among p v.players
    × (p.player_id ≡ a.player_id)
    × (a.groups ≡ p.initial_tunnelas)
    × (a.groups ≢ [])
Justified v a win =
    (p : Player) × Among p v.players
    × (p.player_id ≡ a.player_id)
    × (p.finished ≡ true)
    × (v.status ≡ "finished")
    × (v.winner ≡ some a.player_id)
    × (v.won_by_fold ≡ true → a.groups ≡ [])

abbrev pub IsJustified : MarriagePublic → MarriageAnnouncement → Type 0
IsJustified v a = Justified v a a.kind

module _ (v : MarriagePublic) where
  qualifications-IsJustified :
      (ps : List Player)
      → ((p : Player) → Among p ps → Among p v.players)
      → All (IsJustified v) (map qualification_of (filterb is_qualified ps))
  qualifications-IsJustified [] h = tt
  qualifications-IsJustified (p ∷ ps) h =
      let rest = qualifications-IsJustified ps (λ q m. h q (inr m)) in
      elim (Bool-cases (is_qualified p)) [
        | inl e ↦ rw e ((p, h p (inl refl), refl, ground arith, refl, ground arith), rest)
        | inr e ↦ rw e rest
      ]

  tunnelas-IsJustified :
      (ps : List Player)
      → ((p : Player) → Among p ps → Among p v.players)
      → All (IsJustified v) (map tunnela_of (filterb has_tunnelas ps))
  tunnelas-IsJustified [] h = tt
  tunnelas-IsJustified (p ∷ ps) h =
      let rest = tunnelas-IsJustified ps (λ q m. h q (inr m)) in
      elim (Bool-cases (has_tunnelas p)) [
        | inl e ↦ rw e ((p, h p (inl refl), refl, refl, ground arith), rest)
        | inr e ↦ rw e rest
      ]

  is_winner-winner :
      (p : Player) (w : Option String)
      → v.winner ≡ w
      → is_winner v p ≡ true
      → (v.winner ≡ some p.player_id) × (p.finished ≡ true)
  is_winner-winner p none e h = absurd (ground arith)
  is_winner-winner p (some w) e h = ground (arith, eq_iff p.player_id w)

  wins-IsJustified :
      (o : Option Player) → find? (is_winner v) v.players ≡ o → All (IsJustified v) (win_list v o)
  wins-IsJustified none e = tt
  wins-IsJustified (some p) e = elim (Bool-cases (str_eq v.status "finished")) [
    | inl f ↦
        let (won, here) = find?-Among (is_winner v) v.players p e in
        let (named, over) = is_winner-winner p v.winner refl won in
        rw f
          ((p, here, refl, over, (eq_iff v.status "finished").0 f, named, λ folded. rw folded), tt)
    | inr f ↦ rw f tt
  ]

-- Every announcement is about a player of the public view: a qualification names one who has seen the
-- maal, with that player's shown melds, of which there are some; a tunnela one with initial tunnelas,
-- with these; a win the view's winner, who has finished, in a game whose status is finished, and it
-- shows no groups if the game was won by a fold.
pub marriage_announcements-IsJustified :
    (v : MarriagePublic) → All (IsJustified v) (marriage_announcements v)
unfolding marriage_announcements
marriage_announcements-IsJustified v =
    All-append (IsJustified v) (map qualification_of (filterb is_qualified v.players)) _
      (qualifications-IsJustified v v.players (λ p m. m))
      (All-append (IsJustified v) (map tunnela_of (filterb has_tunnelas v.players)) _
        (tunnelas-IsJustified v v.players (λ p m. m))
        (wins-IsJustified v (find? (is_winner v) v.players) refl))
