-- ===== src/Database/Migrations/Shape.antt =====
-- The schema that a file of each version has, and what the program needs of it.
use cross_platform_media_sha.Base.{
  ℕ, zero, suc, ◌≡◌, true, false, Option, none, some, List, ◌&&◌, ltb, leb,
}
use cross_platform_media_sha.Models.{route_eq}
use cross_platform_media_sha.Database.Table.{Unique}
use cross_platform_media_sha.Database.Migrations.Catalog.{
  Catalog, PairingsTable, LegacyRow, TableName, present, pending_events_table,
  processed_events_table, dead_letters_table, media_dedupe_table, audit_log_table,
  schema_migrations_table, blocked_words_table, event_history_table, digest_events_table,
  idx_blocked_words_source, idx_event_history_event_id, idx_event_history_created_at,
}
use cross_platform_media_sha.Database.Migrations.Steps.{legacy_route}
use cross_platform_media_sha.Database.Migrations.Run.{max_version}
use cross_platform_media_sha.Database.Migrations.Data.{rows_of}
use cross_platform_media_sha.Database.Migrations.Words.{pairings_of}
use cross_platform_media_sha.Database.Migrations.Current.{is_recorded}

abbrev pub Has : TableName → Catalog → Type 0
Has t c = present t c ≡ true

-- the tables that v1Init creates beside that of the pairings
abbrev pub HasQueue : Catalog → Type 0
HasQueue c =
    Has pending_events_table c
    × (Has processed_events_table c
        × (Has dead_letters_table c × (Has media_dedupe_table c × Has audit_log_table c)))

-- nothing yet of what v3CreateEventHistory creates without IF NOT EXISTS
abbrev pub LacksHistory : Catalog → Type 0
LacksHistory c =
    (c.index_of idx_event_history_event_id ≡ none)
    × (c.index_of idx_event_history_created_at ≡ none)

-- nor of what v2NormalizeBlockedWords creates so
abbrev pub LacksWords : Catalog → Type 0
LacksWords c =
    (c.blocked_words ≡ none)
    × ((c.pairings_old ≡ none) × ((c.index_of idx_blocked_words_source ≡ none) × LacksHistory c))

-- pairings of any age, of which no two have one key
abbrev pub AnyPairings : Option PairingsTable → Type 0
AnyPairings none = Unit
AnyPairings (some t) = Unique legacy_route t.rows

-- pairings with the column of the words, and with all others
abbrev pub OldPairings : Catalog → Type 0
OldPairings c =
    (rows : List LegacyRow) × ((c.pairings ≡ some (pairings_of true true true rows))
      × Unique legacy_route rows)

-- pairings and blocked words as the program reads and writes them
abbrev pub NewPairings : Catalog → Type 0
NewPairings c =
    ((rows : List LegacyRow) × (c.pairings ≡ some (pairings_of false true true rows)))
    × (Has blocked_words_table c × HasQueue c)

-- the schema of each version
abbrev pub Schema : ℕ → Catalog → Type 0
Schema zero c = LacksWords c × AnyPairings c.pairings
Schema (suc zero) c = LacksWords c × (OldPairings c × HasQueue c)
Schema (suc (suc zero)) c = LacksHistory c × NewPairings c
Schema (suc (suc (suc zero))) c = Has event_history_table c × NewPairings c
Schema (suc (suc (suc (suc v)))) c =
    Has digest_events_table c × (Has event_history_table c × NewPairings c)

-- the versions from 1 to `v` are recorded, and no others
pub record IsVersion (v : ℕ) (c : Catalog) : Type 0 where
  pub has_versions : Has schema_migrations_table c
  pub is_max : max_version (rows_of c.schema_migrations) ≡ v
  pub are_recorded : (w : ℕ) → is_recorded w c ≡ (ltb 0 w && leb w v)

-- The file records a version, and has its schema.
pub record IsAt (v : ℕ) (c : Catalog) : Type 0 where
  pub is_version : IsVersion v c
  pub schema : Schema v c
