-- ===== src/I18n.antt =====
-- client/src/i18n/catalogs.ts: the interface's texts in both languages, as one function of the language
-- and the group, and the reading of a text by its key.
pub mod Groups
pub mod En
pub mod Ne
pub mod Parity
pub mod Labels
pub mod Spelling
mod Tests
use bhidne_ho.Prelude.{Option, none, some, List, [], ◌∷◌, String, str_eq, if◌then◌else◌}
use Groups.{Group}
use En.{en_catalog}
use Ne.{ne_catalog}

pub data Language : Type 0 where
  english nepali : Language

abbrev pub Texts : Type 0
Texts = List (String × String)

unfoldable pub ui_catalogs : Language → Group → Texts
unfolding en_catalog ne_catalog
ui_catalogs english g = en_catalog g
ui_catalogs nepali g = ne_catalog g

-- `entries[key]`
unfoldable pub lookup : String → Texts → Option String
lookup k [] = none
lookup k ((j, v) ∷ m) = let rest = lookup k m in if str_eq j k then some v else rest
