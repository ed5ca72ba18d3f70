-- ===== src/Database/Migrations/Catalog.antt =====
-- The database file as the migrations see it: which tables and indexes there are, which columns the
-- table of pairings has, and the rows. A table that is missing is `none`.
use cross_platform_media_sha.Base.{
  ℕ, Bool, true, false, Option, none, some, List, ◌==◌, if◌then◌else◌,
}
use cross_platform_media_sha.Text.{Bytes}
use cross_platform_media_sha.Models.{Route}
use cross_platform_media_sha.Database.Rows.{
  BlockedRow, PendingRow, ProcessedRow, DeadLetterRow, DedupeRow, HistoryRow, AuditRow, DigestRow,
}

-- schema_migrations
pub record MigrationRow : Type 0 where
  pub version : ℕ
  pub applied_at : ℕ

-- a row of pairings; a cell whose column the table lacks says nothing
pub record LegacyRow : Type 0 where
  pub route : Route
  pub words : Option Bytes
  pub rules : Option Bytes
  pub secret : Option Bytes

-- pairings, with the columns that not every version has
pub record PairingsTable : Type 0 where
  pub has_blocked_words : Bool
  pub has_rule_config : Bool
  pub has_webhook_secret : Bool
  pub rows : List LegacyRow

pub data TableName : Type 0 where
  schema_migrations_table : TableName
  pairings_table : TableName
  pairings_old_table : TableName
  blocked_words_table : TableName
  pending_events_table : TableName
  processed_events_table : TableName
  dead_letters_table : TableName
  media_dedupe_table : TableName
  audit_log_table : TableName
  event_history_table : TableName
  digest_events_table : TableName

pub data IndexName : Type 0 where
  idx_pairings_source : IndexName
  idx_pairings_target : IndexName
  idx_pending_events_available_at : IndexName
  idx_pending_events_target : IndexName
  idx_processed_events_processed_at : IndexName
  idx_dead_letters_target : IndexName
  idx_dead_letters_failed_at : IndexName
  idx_media_dedupe_created_at : IndexName
  idx_audit_log_created_at : IndexName
  idx_blocked_words_source : IndexName
  idx_event_history_event_id : IndexName
  idx_event_history_created_at : IndexName
  idx_digest_events_target : IndexName
  idx_digest_events_deliver_after : IndexName

abbrev number : IndexName → ℕ
number idx_pairings_source = 0
number idx_pairings_target = 1
number idx_pending_events_available_at = 2
number idx_pending_events_target = 3
number idx_processed_events_processed_at = 4
number idx_dead_letters_target = 5
number idx_dead_letters_failed_at = 6
number idx_media_dedupe_created_at = 7
number idx_audit_log_created_at = 8
number idx_blocked_words_source = 9
number idx_event_history_event_id = 10
number idx_event_history_created_at = 11
number idx_digest_events_target = 12
number idx_digest_events_deliver_after = 13

abbrev pub same_index : IndexName → IndexName → Bool
same_index i j = number i == number j

-- `index_of` says on which table an index of the file is, if there is one of that name
pub record Catalog : Type 0 where
  pub schema_migrations : Option (List MigrationRow)
  pub pairings : Option PairingsTable
  pub pairings_old : Option PairingsTable
  pub blocked_words : Option (List BlockedRow)
  pub pending_events : Option (List PendingRow)
  pub processed_events : Option (List ProcessedRow)
  pub dead_letters : Option (List DeadLetterRow)
  pub media_dedupe : Option (List DedupeRow)
  pub audit_log : Option (List AuditRow)
  pub event_history : Option (List HistoryRow)
  pub digest_events : Option (List DigestRow)
  pub index_of : IndexName → Option TableName

abbrev pub is_some {ℓ} : {A : Type ℓ} → Option A → Bool
is_some none = false
is_some (some a) = true

-- SELECT name FROM sqlite_master WHERE type = 'table' AND name = ?
abbrev pub present : TableName → Catalog → Bool
present schema_migrations_table c = is_some c.schema_migrations
present pairings_table c = is_some c.pairings
present pairings_old_table c = is_some c.pairings_old
present blocked_words_table c = is_some c.blocked_words
present pending_events_table c = is_some c.pending_events
present processed_events_table c = is_some c.processed_events
present dead_letters_table c = is_some c.dead_letters
present media_dedupe_table c = is_some c.media_dedupe
present audit_log_table c = is_some c.audit_log
present event_history_table c = is_some c.event_history
present digest_events_table c = is_some c.digest_events

-- why SQLite itself refuses a statement
pub data Problem : Type 0 where
  table_exists_already : TableName → Problem
  no_such_table : TableName → Problem
  no_such_column : TableName → Problem
  index_exists_already : IndexName → Problem
  unique_violated : TableName → Problem

-- what a statement does to a database that accepts it
pub data Outcome (A : Type 0) : Type 0 where
  done : A → Catalog → Outcome A
  refused : Problem → Outcome A

-- CREATE TABLE IF NOT EXISTS
abbrev pub if_not_exists {ℓ} : {A : Type ℓ} → A → Option A → Option A
if_not_exists fresh o = some (elim o [ none ↦ fresh | some t ↦ t ])

-- the indexes, with that of one name put on a table or dropped
abbrev set_index :
    IndexName → Option TableName → (IndexName → Option TableName) → IndexName → Option TableName
set_index i o indexes j = if same_index j i then o else indexes j

-- the file with an index of that name on the table
abbrev pub with_index : IndexName → TableName → Catalog → Catalog
with_index i t c = record c { index_of = set_index i (some t) c.index_of }

-- CREATE INDEX IF NOT EXISTS i ON t(…): an index of that name stays where it is
abbrev pub create_index_if_absent : IndexName → TableName → Catalog → Outcome (Unit {0})
create_index_if_absent i t c =
    if present t c
    then done tt (record c { index_of = set_index i (if_not_exists t (c.index_of i)) c.index_of })
    else refused (no_such_table t)

-- CREATE INDEX i ON t(…)
abbrev pub create_index : IndexName → TableName → Catalog → Outcome (Unit {0})
create_index i t c =
    if present t c
    then if is_some (c.index_of i)
      then refused (index_exists_already i)
      else done tt (with_index i t c)
    else refused (no_such_table t)

-- DROP INDEX IF EXISTS i
abbrev pub drop_index_if_exists : IndexName → Catalog → Outcome (Unit {0})
drop_index_if_exists i c = done tt (record c { index_of = set_index i none c.index_of })
