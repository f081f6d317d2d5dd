-- ===== src/Social.antt =====
-- Messages between the players of a table: client/src/multiplayer/TableSocialChannel.ts. One request
-- is a promise with its timer, its subscription and its abort signal; the channel's other listeners
-- are other requests. `command` is the JSON of the command, the same for each attempt.
pub mod Requests
pub mod Messages
pub mod Pokes
pub mod Reactions
pub mod Phrases
mod Tests
use bhidne_ho.Prelude.{
  ℕ, ◌+◌, Bool, true, false, not, ◌&&◌, ◌||◌, Option, none, some, List, [], ◌∷◌, String, str_eq,
  is_empty, leb, if◌then◌else◌, or_else,
}

pub record SocialAck : Type 0 where
  pub kind : String
  pub match_id : String
  pub command_id : String
  pub status : String
  pub detail : Option String

-- How the promise ends.
pub data Ending : Type 0 where
  resolved : SocialAck → Ending
  rejected : String → Ending

-- The texts of the catalog that the code uses.
pub record Texts : Type 0 where
  pub cancelled : String
  pub action_rejected : String
  pub could_not_confirm : String

-- `timer` is whether the retry timer is armed, `listening` whether the subscription stands, `sent` how
-- often the command was given to `send`. A promise settles once: later endings are dropped.
pub record Request : Type 0 where
  pub match_id : String
  pub command_id : String
  pub attempts : ℕ
  pub timer : Bool
  pub listening : Bool
  pub sent : ℕ
  pub ending : Option Ending

abbrev settle : Ending → Option Ending → Option Ending
settle e none = some e
settle e (some first) = some first

-- `finish(error, result)`: an empty error counts as none.
unfoldable pub finish : Ending → Request → Request
finish e r = record r { timer = false; listening = false; ending = settle e r.ending }

unfoldable pub cancel : Texts → Request → Request
unfolding finish
cancel t r = finish (rejected t.cancelled) r

-- `attempt`; `aborted` is `signal.aborted`.
unfoldable pub attempt : Texts → Bool → Request → Request
unfolding cancel finish
attempt t aborted r =
    if aborted
    then cancel t r
    else (let next = record r { attempts = r.attempts + 1 } in
        if leb 3 r.attempts
        then finish (rejected t.could_not_confirm) next
        else record next { timer = true; sent = r.sent + 1 })

-- `request`, up to its return.
unfoldable pub request : Texts → Bool → String → String → Request
unfolding attempt
request t aborted match_id command_id = attempt t aborted (record {
  match_id = match_id;
  command_id = command_id;
  attempts = 0;
  timer = false;
  listening = true;
  sent = 0;
  ending = none;
})

abbrev pub is_answer : Request → SocialAck → Bool
is_answer r a =
    str_eq a.kind "TABLE_SOCIAL_ACK"
    && str_eq a.match_id r.match_id
    && str_eq a.command_id r.command_id

-- `event.detail || ui(...)`, and `finish`'s test of the error.
abbrev ending_of : Texts → SocialAck → Ending
ending_of t a =
    if str_eq a.status "accepted"
    then resolved a
    else (let message : String = elim a.detail [
      | none ↦ t.action_rejected
      | some d ↦ if is_empty d then t.action_rejected else d
    ] in
        if is_empty message then resolved a else rejected message)

-- The request's listener, called while it is subscribed.
unfoldable pub hear : Texts → SocialAck → Request → Request
unfolding finish
hear t a r = if r.listening && is_answer r a then finish (ending_of t a) r else r
