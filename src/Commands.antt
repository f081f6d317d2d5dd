-- ===== src/Commands.antt =====
-- client/src/multiplayer/PendingGameAction.ts: the one unresolved action of a mounted table.
-- `reconcile` is two functions, before and after it waits for the server. JavaScript compares the
-- request objects by identity: `object` numbers them. A payload is its JSON text, so the deep copy
-- that `begin` makes is the payload itself.
pub mod Settle
pub mod Client
pub mod Trace
pub mod Order
pub mod Kept
pub mod Stale
mod Tests
use Prim.Native.String
use bhidne_ho.Prelude.{
  ℕ, ◌+◌, Bool, true, false, not, ◌&&◌, ◌||◌, Option, none, some, List, [], ◌∷◌, String, is_some,
  str_eq, opt_str_eq, or_else, is_empty, if◌then◌else◌, ◌==◌, any,
}

-- What a caller gives to `begin`.
pub record Draft : Type 0 where
  pub match_id : String
  pub expected_revision : ℕ
  pub command : String
  pub payload : String

pub record ActionRequest : Type 0 where
  pub command_id : String
  pub draft : Draft

-- The acknowledgment as it came; `revision` is none where it is no integer.
pub record ActionAck : Type 0 where
  pub command_id : String
  pub status : String
  pub revision : Option ℕ
  pub detail : Option String

-- The fields of a snapshot that the command client reads; `game` is the revision of the game.
pub record Snapshot : Type 0 where
  pub match_id : Option String
  pub game : Option ℕ
  pub action_ack : Option ActionAck

pub record Pending : Type 0 where
  pub object : ℕ
  pub body : ActionRequest

pub record PendingGameAction : Type 0 where
  pub request : Option Pending
  pub made : ℕ

abbrev pub idle : PendingGameAction
idle = record { request = none; made = 0 }

-- `newCommandId`: the platform's random UUID, or the clock, a counter and two random parts.
-- `base36` is `toString(36)`.
infixl 65 ◌<>◌
abbrev ◌<>◌ : String → String → String
a <> b = String.◌++◌ a b

unfoldable pub new_command_id :
    (ℕ → String) → Option String → (now first second : String) → ℕ → String × ℕ
new_command_id base36 (some uuid) now first second sequence = (uuid, sequence)
new_command_id base36 none now first second sequence =
    (now <> "-" <> base36 (sequence + 1) <> "-" <> first <> "-" <> second, sequence + 1)

unfoldable pub begin : String → Draft → PendingGameAction → PendingGameAction × Bool
begin command_id draft p = elim p.request [
  | some q ↦ (p, false)
  | none ↦ (
    record {
      request =
          some
            (record { object = p.made; body = record { command_id = command_id; draft = draft } });
      made = p.made + 1;
    },
    true,
  )
]

-- What a call of `reconcile` ends with: its value, or the error that it throws.
pub data Outcome : Type 0 where
  returned : Snapshot → String → Outcome
  thrown : String → Outcome

-- What `reconcile` does before it waits.
pub data Reconcile : Type 0 where
  settled : PendingGameAction → Outcome → Reconcile
  sending : Pending → Reconcile

abbrev pub game_changed : String
game_changed = "The game changed. Your pending action was not retried."

abbrev cleared : PendingGameAction → PendingGameAction
cleared p = record p { request = none }

unfoldable pub reconcile_start : Bool → Snapshot → PendingGameAction → Reconcile
reconcile_start aborted snapshot p = elim p.request [
  | none ↦ settled p (returned snapshot "")
  | some q ↦
      if aborted
      then settled p (returned snapshot "")
      else if opt_str_eq snapshot.match_id (some q.body.draft.match_id)
      then sending q
      else settled (cleared p) (returned snapshot game_changed)
]

-- What `send` gives: a snapshot, a GameRequestError, or another error.
pub data Answer : Type 0 where
  response : Snapshot → Answer
  http_error : ℕ → String → Answer
  other_error : String → Answer

-- `this.request === request`
abbrev pub is_same : Option Pending → Pending → Bool
is_same none q = false
is_same (some r) q = r.object == q.object

abbrev pub confirms_ack : Pending → Option ActionAck → Bool
confirms_ack q none = false
confirms_ack q (some ack) =
    str_eq ack.command_id q.body.command_id
    && (str_eq ack.status "accepted" || str_eq ack.status "rejected")
    && is_some ack.revision

-- The response confirms the request: same match, same command, a known status, a whole revision.
abbrev pub confirms : Pending → Snapshot → Bool
confirms q s = opt_str_eq s.match_id (some q.body.draft.match_id) && confirms_ack q s.action_ack

-- The statuses after which a request is not sent again.
abbrev pub is_final : ℕ → Bool
is_final status = any (λ n. n == status) (400 ∷ 401 ∷ 404 ∷ 409 ∷ 422 ∷ [])

-- The two texts of the catalog that the code uses, as `ui` gives them.
pub record Texts : Type 0 where
  pub waiting : String
  pub action_rejected : String

-- `ack.status === 'rejected' ? ack.detail || ui(...) : ''`
abbrev pub ack_error : Texts → Option ActionAck → String
ack_error t none = ""
ack_error t (some ack) =
    if str_eq ack.status "rejected"
    then elim ack.detail [
      | none ↦ t.action_rejected
      | some d ↦ if is_empty d then t.action_rejected else d
    ]
    else ""

abbrev pub after_answer :
    Texts → Pending → Snapshot → Answer → PendingGameAction → PendingGameAction × Outcome
after_answer t q snapshot (response s) p =
    if confirms q s
    then (cleared p, returned s (ack_error t s.action_ack))
    else (p, thrown t.waiting)
after_answer t q snapshot (http_error status message) p =
    if is_final status then (cleared p, returned snapshot message) else (p, thrown message)
after_answer t q snapshot (other_error message) p = (p, thrown message)

unfoldable pub reconcile_finish :
    Texts → Bool → Pending → Snapshot → Answer → PendingGameAction → PendingGameAction × Outcome
reconcile_finish t aborted q snapshot answer p =
    if aborted || not (is_same p.request q)
    then (p, returned snapshot "")
    else after_answer t q snapshot answer p
