-- ===== src/Social/Tests.antt =====
-- A request that is answered, a chat merged, and the theorems at them.
use bhidne_ho.Prelude.{
  ◌↔◌, ℕ, ◌≤◌, true, false, none, some, [], ◌∷◌, String, ◌≡◌, ◌≢◌, ◌⊎◌, refl, arith, eq_iff, length,
  All,
}
use bhidne_ho.Json.{Json, null, number, nat, text, object, field, end, find_field}
use bhidne_ho.Social.{SocialAck, Texts, request, resolved, hear}
use bhidne_ho.Social.Requests.{
  fired, heard, run, step, IsTidy, run-IsTidy, run_settles, AcceptedBy, run_resolved,
}
use bhidne_ho.Social.Messages.{
  TableMessage, merge_table_messages, DistinctIds, InOrder, merge_table_messages_lem,
}
use bhidne_ho.Social.Pokes.{read_poke, RoomPoke}
use bhidne_ho.Social.Reactions.{read_table_reaction, has_parties, is_expressive}
use bhidne_ho.Social.Reactions.Shown.{IsReaction, read_table_reaction-IsReaction_iff}
use bhidne_ho.Social.Phrases.{
  Phrases, PlayerPhrase, signal, DroppedAfter, saved, outdated_list_dropped, began, answered,
  restart, listed,
}
use bhidne_ho.Social.Phrases

abbrev texts : Texts
texts = record {
  cancelled = "Cancelled";
  action_rejected = "Rejected";
  could_not_confirm = "Unconfirmed";
}

abbrev accepted : SocialAck
accepted = record {
  kind = "TABLE_SOCIAL_ACK";
  match_id = "m";
  command_id = "c";
  status = "accepted";
  detail = none;
}

run-IsTidy_example : IsTidy (run texts (fired ∷ heard accepted ∷ []) (request texts false "m" "c"))
run-IsTidy_example = run-IsTidy texts false "m" "c" (fired ∷ heard accepted ∷ [])

run_settles_example :
    (run texts (fired ∷ fired ∷ fired ∷ []) (request texts false "m" "c")).ending ≢ none
run_settles_example = run_settles texts false "m" "c" (fired ∷ fired ∷ fired ∷ []) (omega arith)

rejected_text : texts.action_rejected ≢ ""
rejected_text = ground (arith, eq_iff "Rejected" "")

resolves :
    (run texts (fired ∷ heard accepted ∷ []) (request texts false "m" "c")).ending
    ≡ some (resolved accepted)
unfolding run step request hear
resolves = refl

run_resolved_example : AcceptedBy "m" "c" accepted (fired ∷ heard accepted ∷ [])
run_resolved_example =
    run_resolved texts false "m" "c" (fired ∷ heard accepted ∷ []) accepted rejected_text resolves

abbrev message : String → ℕ → TableMessage
message id at_time = record { id = id; sender_id = "u"; text = "hi"; sent_at = at_time }

merged :
    merge_table_messages (message "a" 1 ∷ message "b" 5 ∷ []) (message "c" 3 ∷ message "a" 1 ∷ [])
    ≡ message "a" 1 ∷ message "c" 3 ∷ message "b" 5 ∷ []
unfolding merge_table_messages
merged = refl

merge_table_messages_lem_example :
    let result = merge_table_messages (message "a" 1 ∷ []) (message "a" 1 ∷ message "c" 3 ∷ []) in
    (length result ≤ 100)
    × DistinctIds result
    × InOrder result
    × All (λ m. m.sender_id ≡ "u") result
merge_table_messages_lem_example =
    merge_table_messages_lem (λ m. m.sender_id ≡ "u") (message "a" 1 ∷ [])
      (message "a" 1 ∷ message "c" 3 ∷ []) (refl, tt) (refl, (refl, tt))

abbrev poke : Json
poke = object (
    field "type" (text "ROOM_POKE") (
      field "room_id" (text "r") (
        field "id" (text "p1") (
          field "match_id" (text "m") (
            field "sender_id" (text "u2") (
              field "sender_player_id" (number (nat 2)) (
                field "text" (text "wake up") (
                  field "expires_at" (number (nat 900)) (
                    field "scope" (text "table")
                      (field "recipient_id" null (field "recipient_player_id" null end)))))))))))

poke_read : read_poke 100 "r" "u1" poke ≡ some poke
unfolding read_poke find_field
poke_read = refl

abbrev shown : RoomPoke
shown = record { id = "p1"; room_id = "r"; expires_at = nat 900 }

abbrev clap : Json
clap = object (
    field "type" (text "TABLE_REACTION") (
      field "room_id" (text "r") (
        field "match_id" (text "m") (
          field "id" (text "x") (
            field "sender_id" (text "u2") (
              field "recipient_id" (text "u1") (
                field "sender_name" (text "Ram") (
                  field "sender_player_id" (number (nat 1)) (
                    field "recipient_player_id" (number (nat 2)) (
                      field "reaction" (text "clap")
                        (field "expires_at" (number (nat 900)) end)))))))))))

clap_read : read_table_reaction 100 "r" (some "m") clap ≡ some clap
unfolding read_table_reaction find_field has_parties is_expressive
clap_read = refl

read_table_reaction-IsReaction_iff_example :
    (read_table_reaction 100 "r" (some "m") clap ≡ some clap)
    ↔ ((clap ≡ clap) × IsReaction 100 "r" (some "m") clap)
read_table_reaction-IsReaction_iff_example =
    read_table_reaction-IsReaction_iff 100 "r" (some "m") clap clap

abbrev mine : Phrases
mine = record {
  phrases = [];
  error = "";
  generation = 4;
  lifetime = 1;
  aborted = false;
  connected = true;
}

abbrev hello : PlayerPhrase
hello = record { id = "h"; text = "hello"; created_by = "u" }

outdated_list_dropped_example :
    (((signal mine ≡ none) × (Phrases.step began mine ≡ mine))
      ⊎ DroppedAfter began mine (began ∷ []) (listed 1 4 []))
    × DroppedAfter (answered 1 (saved hello)) mine (began ∷ []) (listed 1 4 [])
    × DroppedAfter (restart true) mine (began ∷ []) (listed 1 4 [])
outdated_list_dropped_example =
    outdated_list_dropped mine 1 4 1 (saved hello) true (began ∷ []) [] (omega arith)

-- A change that was begun before the session changed alters no phrases of the new one.
late_change :
    (Phrases.step (answered 1 (saved hello)) (Phrases.step (restart true) mine)).phrases ≡ []
unfolding Phrases.step
late_change = refl
