-- ===== src/I18n/Tests.antt =====
-- The theorems on the interface's texts at concrete keys and labels.
use bhidne_ho.Prelude.{String, some, ◌≡◌, ◌⊎◌, refl, false}
use bhidne_ho.I18n.{english, nepali, lookup, ui_catalogs}
use bhidne_ho.I18n.Groups.{common, rooms}
use bhidne_ho.I18n.Parity.{Matches, catalogs_in_sync, same_placeholders}
use bhidne_ho.I18n.Labels.{UiKey, ui_label}
use bhidne_ho.I18n.Spelling.{Asks, IsLabel, ui_label_lem}

count_cards_text : lookup "count_cards" (ui_catalogs english common) ≡ some "{{count}} cards"
unfolding lookup ui_catalogs
count_cards_text = refl

other_placeholder : same_placeholders "{{count}} cards" "{{number}} तास" ≡ false
unfolding same_placeholders
other_placeholder = refl

catalogs_in_sync_example :
    Matches
      (lookup "count_cards" (ui_catalogs english common))
      (lookup "count_cards" (ui_catalogs nepali common))
catalogs_in_sync_example = catalogs_in_sync common "count_cards"

abbrev unchanged : String → String
unchanged s = s

abbrev key_text : UiKey → String
key_text k = k.key

ui_label_lem_example :
    (ui_label unchanged key_text "Open" (some rooms) ≡ "Open")
    ⊎ ((k : UiKey) × (x : String) × (ui_label unchanged key_text "Open" (some rooms) ≡ key_text k)
        × Asks unchanged (some rooms) "Open" x
        × IsLabel unchanged x k)
ui_label_lem_example = ui_label_lem unchanged key_text "Open" (some rooms)
