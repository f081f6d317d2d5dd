-- ===== src/I18n/En.antt =====
-- client/src/i18n/catalogs.ts: the English catalog, a list of keys and texts for each group.
mod Common1
mod Common2
mod Common3
mod Rooms1
mod Rooms2
mod Callbreak
mod Flush
mod Marriage1
mod Marriage2
mod Ledger
mod Social
mod Feedback
use bhidne_ho.Prelude.{List, ◌++◌, String}
use bhidne_ho.I18n.Groups.{
  Group, common, rooms, callbreak, flush, marriage, ledger, social, feedback,
}
use Common1.{common_1}
use Common2.{common_2}
use Common3.{common_3}
use Rooms1.{rooms_1}
use Rooms2.{rooms_2}
use Callbreak.{callbreak as callbreak_texts}
use Flush.{flush as flush_texts}
use Marriage1.{marriage_1}
use Marriage2.{marriage_2}
use Ledger.{ledger as ledger_texts}
use Social.{social as social_texts}
use Feedback.{feedback as feedback_texts}

unfoldable pub en_catalog : Group → List (String × String)
unfolding common_1 common_2 common_3 rooms_1 rooms_2 callbreak_texts flush_texts marriage_1
    marriage_2 ledger_texts social_texts feedback_texts
en_catalog common = common_1 ++ common_2 ++ common_3
en_catalog rooms = rooms_1 ++ rooms_2
en_catalog callbreak = callbreak_texts
en_catalog flush = flush_texts
en_catalog marriage = marriage_1 ++ marriage_2
en_catalog ledger = ledger_texts
en_catalog social = social_texts
en_catalog feedback = feedback_texts
