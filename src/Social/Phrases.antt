-- ===== src/Social/Phrases.antt =====
-- client/src/multiplayer/usePlayerPhrases.ts: the player's own phrases. A refresh remembers the
-- generation in which it began; a change counts up the generation when it begins and when it is
-- answered. The AbortControllers are numbered by the runs of the effect: `lifetime` is the number of the
-- current one, 0 before there is one, and `aborted` its state; a later run aborts it. A change and a
-- refresh keep the number that was current when they began.
use mathlib.Core.Path.{subst}
use bhidne_ho.Prelude.{
  sym, Option, none, some, ◌||◌, ◌⊎◌, inl, inr, ℕ, ◌+◌, ◌≤◌, ◌<◌, Bool, true, false, not, ◌&&◌,
  List, [], ◌∷◌, ◌++◌, String, ◌≡◌, refl, arith, str_eq, ◌==◌, any, filterb, if◌then◌else◌,
}

pub record PlayerPhrase : Type 0 where
  pub id : String
  pub text : String
  pub created_by : String

pub record Phrases : Type 0 where
  pub phrases : List PlayerPhrase
  pub error : String
  pub generation : ℕ
  pub lifetime : ℕ
  pub aborted : Bool
  pub connected : Bool

-- `signal()`, none where it throws.
unfoldable pub signal : Phrases → Option ℕ
signal s = if not s.connected || (s.lifetime == 0) || s.aborted then none else some s.lifetime

-- `!active.aborted`
abbrev is_live : ℕ → Phrases → Bool
is_live active s = (active == s.lifetime) && not s.aborted

abbrev replace : String → PlayerPhrase → List PlayerPhrase → List PlayerPhrase
replace id p [] = []
replace id p (q ∷ qs) = (if str_eq q.id id then p else q) ∷ replace id p qs

-- A change waits for its answer: the new phrase, the id removed, or the id and its new phrase.
pub data Change : Type 0 where
  saved : PlayerPhrase → Change
  removed : String → Change
  updated : String → PlayerPhrase → Change

abbrev apply : Change → List PlayerPhrase → List PlayerPhrase
apply (saved p) ps = if any (λ q. str_eq q.id p.id) ps then ps else ps ++ p ∷ []
apply (removed id) ps = filterb (λ q. not (str_eq q.id id)) ps
apply (updated id p) ps = replace id p ps

-- A change begins, if there is a signal for it; its request is answered.
unfoldable pub change_begun : Phrases → Phrases
unfolding signal
change_begun s = elim (signal s) [
  | none ↦ s
  | some active ↦ record s { generation = s.generation + 1 }
]

unfoldable pub change_answered : ℕ → Change → Phrases → Phrases
change_answered active c s = record s {
  generation = s.generation + 1;
  phrases = if is_live active s then apply c s.phrases else s.phrases;
}

-- The list comes for a refresh that began in generation `version`; or the refresh fails.
unfoldable pub refresh_answered : ℕ → ℕ → List PlayerPhrase → Phrases → Phrases
refresh_answered active version list s =
    if is_live active s && (version == s.generation)
    then record s { phrases = list; error = "" }
    else s

unfoldable pub refresh_failed : ℕ → String → Phrases → Phrases
refresh_failed active message s = if is_live active s then record s { error = message } else s

-- The effect runs anew, for a new session or a new state of the connection.
unfoldable pub restarted : Bool → Phrases → Phrases
restarted connected s = record {
  phrases = [];
  error = "";
  generation = s.generation + 1;
  lifetime = s.lifetime + 1;
  aborted = false;
  connected = connected;
}

pub data Event : Type 0 where
  began abort : Event
  restart : Bool → Event
  answered : ℕ → Change → Event
  listed : ℕ → ℕ → List PlayerPhrase → Event
  failed : ℕ → String → Event

unfoldable pub step : Event → Phrases → Phrases
unfolding change_begun change_answered refresh_answered refresh_failed restarted
step began s = change_begun s
step (answered active c) s = change_answered active c s
step (listed active version list) s = refresh_answered active version list s
step (failed active message) s = refresh_failed active message s
step (restart connected) s = restarted connected s
step abort s = record s { aborted = true }

unfoldable pub run : List Event → Phrases → Phrases
run [] s = s
run (e ∷ es) s = run es (step e s)

-- A change begins in a later generation, or does not begin at all.
began_counts :
    (s : Phrases)
    → ((signal s ≡ none) × (step began s ≡ s)) ⊎ ((step began s).generation ≡ s.generation + 1)
unfolding step change_begun
began_counts s = by_signal (signal s) refl
  where
    by_signal :
        (o : Option ℕ)
        → signal s ≡ o
        → ((signal s ≡ none) × (change_begun s ≡ s))
          ⊎ ((change_begun s).generation ≡ s.generation + 1)
    by_signal none e = inl (e, rw (change_begun, e) refl)
    by_signal (some n) e = inr (rw (change_begun, e) refl)

step-generation : (e : Event) (s : Phrases) → s.generation ≤ (step e s).generation
unfolding step
step-generation began s = elim (began_counts s) [
  | inl (e, same) ↦ subst (λ z. s.generation ≤ z.generation) (sym same) (omega arith)
  | inr e ↦ omega arith
]
step-generation e s = ground arith

run-generation : (es : List Event) (s : Phrases) → s.generation ≤ (run es s).generation
unfolding run
run-generation [] s = omega arith
run-generation (e ∷ es) s = omega (arith, step-generation e s, run-generation es (step e s))

answered_counts :
    (active : ℕ) (c : Change) (s : Phrases)
    → (step (answered active c) s).generation ≡ s.generation + 1
unfolding step
answered_counts active c s = refl

restart_counts : (b : Bool) (s : Phrases) → (step (restart b) s).generation ≡ s.generation + 1
unfolding step
restart_counts b s = refl

dropped :
    (active version : ℕ) (list : List PlayerPhrase) (s : Phrases)
    → version < s.generation
    → step (listed active version list) s ≡ s
unfolding step
dropped active version list s h = ground arith

-- A list is dropped after an event and any others: it leaves the state as it is.
abbrev pub DroppedAfter : Event → Phrases → List Event → Event → Type 0
DroppedAfter e s es l = step l (run es (step e s)) ≡ run es (step e s)

later_dropped :
    (e : Event) (s : Phrases) (es : List Event) (active version : ℕ) (list : List PlayerPhrase)
    → version ≤ s.generation
    → (step e s).generation ≡ s.generation + 1
    → DroppedAfter e s es (listed active version list)
later_dropped e s es active version list h k =
    dropped active version list (run es (step e s)) (omega (arith, run-generation es (step e s)))

-- A list that was asked for before a change began or was answered, or before the session or the
-- connection changed, is dropped whenever it comes, whatever happens in between. A change does not
-- begin, and changes nothing, only where there is no signal for it.
pub outdated_list_dropped :
    (s : Phrases) (active version n : ℕ) (c : Change) (connected : Bool) (es : List Event)
    (list : List PlayerPhrase)
    → version ≤ s.generation
    → (((signal s ≡ none) × (step began s ≡ s))
        ⊎ DroppedAfter began s es (listed active version list))
      × DroppedAfter (answered n c) s es (listed active version list)
      × DroppedAfter (restart connected) s es (listed active version list)
outdated_list_dropped s active version n c connected es list h = (
  elim (began_counts s) [
    | inl unbegun ↦ inl unbegun
    | inr k ↦ inr (later_dropped began s es active version list h k)
  ],
  later_dropped (answered n c) s es active version list h (answered_counts n c s),
  later_dropped (restart connected) s es active version list h (restart_counts connected s),
)
