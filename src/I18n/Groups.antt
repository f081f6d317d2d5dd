-- ===== src/I18n/Groups.antt =====
-- client/src/i18n/catalogs.ts: the groups of the catalogs.

pub data Group : Type 0 where
  common rooms callbreak flush marriage ledger social feedback : Group
