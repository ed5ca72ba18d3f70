-- ===== src/Database/Migrations/Steps.antt =====
-- The four migrations of internal/database/migrations.go: v1Init, v2NormalizeBlockedWords,
-- v3CreateEventHistory and v4CreateDigestEvents.
use cross_platform_media_sha.Base.{
  ℕ, take, true, false, Option, none, some, List, [], ◌∷◌, ◌++◌, ◌&&◌, if◌then◌else◌,
}
use cross_platform_media_sha.Text.{Bytes, Unicode}
use cross_platform_media_sha.Models.{Route, route_eq}
use cross_platform_media_sha.Database.Table.{has, insert_new}
use cross_platform_media_sha.Database.Rows.{BlockedRow, blocked_eq}
use cross_platform_media_sha.Database.Pairings.{blocked_row}
use cross_platform_media_sha.Database.Migrations.Legacy.{Interruption, cell_words}
use cross_platform_media_sha.Database.Migrations.Catalog.{
  Catalog, LegacyRow, TableName, Outcome, done, refused, if_not_exists, create_index_if_absent,
  create_index, drop_index_if_exists, table_exists_already, no_such_table, no_such_column,
  unique_violated, pairings_table, pairings_old_table, blocked_words_table, pending_events_table,
  processed_events_table, dead_letters_table, media_dedupe_table, audit_log_table,
  event_history_table, digest_events_table, idx_pairings_source, idx_pairings_target,
  idx_pending_events_available_at, idx_pending_events_target, idx_processed_events_processed_at,
  idx_dead_letters_target, idx_dead_letters_failed_at, idx_media_dedupe_created_at,
  idx_audit_log_created_at, idx_blocked_words_source, idx_event_history_event_id,
  idx_event_history_created_at, idx_digest_events_target, idx_digest_events_deliver_after,
}
use cross_platform_media_sha.Database.Migrations.Script.{Script, finish, ◌>>=◌, ◌>>◌, sql}
use cross_platform_media_sha.Database.Migrations.Columns.{
  create_pairings_if_absent, blocked_words_column, rule_config_column, webhook_secret_column,
  ensure_column_exists_tx,
}

unfoldable pub v1_init : Script (Unit {0})
unfolding ◌>>=◌ ensure_column_exists_tx
v1_init = do
  sql create_pairings_if_absent
  sql (create_index_if_absent idx_pairings_source pairings_table)
  sql (create_index_if_absent idx_pairings_target pairings_table)
  ensure_column_exists_tx blocked_words_column
  ensure_column_exists_tx rule_config_column
  ensure_column_exists_tx webhook_secret_column
  sql (λ c. done tt (record c { pending_events = if_not_exists [] c.pending_events }))
  sql (create_index_if_absent idx_pending_events_available_at pending_events_table)
  sql (create_index_if_absent idx_pending_events_target pending_events_table)
  sql (λ c. done tt (record c { processed_events = if_not_exists [] c.processed_events }))
  sql (create_index_if_absent idx_processed_events_processed_at processed_events_table)
  sql (λ c. done tt (record c { dead_letters = if_not_exists [] c.dead_letters }))
  sql (create_index_if_absent idx_dead_letters_target dead_letters_table)
  sql (create_index_if_absent idx_dead_letters_failed_at dead_letters_table)
  sql (λ c. done tt (record c { media_dedupe = if_not_exists [] c.media_dedupe }))
  sql (create_index_if_absent idx_media_dedupe_created_at media_dedupe_table)
  sql (λ c. done tt (record c { audit_log = if_not_exists [] c.audit_log }))
  sql (create_index_if_absent idx_audit_log_created_at audit_log_table)

-- CREATE TABLE blocked_words
abbrev create_blocked_words : Catalog → Outcome (Unit {0})
create_blocked_words c = elim c.blocked_words [
  | none ↦ done tt (record c { blocked_words = some [] })
  | some t ↦ refused (table_exists_already blocked_words_table)
]

-- the rows that the loop gets to see
abbrev pub shown : Option ℕ → List LegacyRow → List LegacyRow
shown none rows = rows
shown (some n) rows = take n rows

-- SELECT …, blocked_words FROM pairings, with the rows that rows.Scan reads
abbrev select_legacy : ⦃cut : Interruption⦄ → Catalog → Outcome (List LegacyRow)
select_legacy ⦃cut = cut⦄ c = elim c.pairings [
  | none ↦ refused (no_such_table pairings_table)
  | some t ↦
      if t.has_blocked_words
      then done (shown cut.rows_before_error t.rows) c
      else refused (no_such_column pairings_table)
]

-- tx.Prepare of the insertion
abbrev prepare_insert : Catalog → Outcome (Unit {0})
prepare_insert c = elim c.blocked_words [
  | none ↦ refused (no_such_table blocked_words_table)
  | some t ↦ done tt c
]

-- INSERT OR IGNORE INTO blocked_words
abbrev pub insert_or_ignore : BlockedRow → Catalog → Outcome (Unit {0})
insert_or_ignore r c = elim c.blocked_words [
  | none ↦ refused (no_such_table blocked_words_table)
  | some t ↦ done tt (record c { blocked_words = some (insert_new blocked_row r t) })
]

-- the inner loop over the words of a pairing
unfoldable pub insert_words : Route → List Bytes → Script (Unit {0})
insert_words r [] = finish tt
insert_words r (w ∷ ws) =
    sql (insert_or_ignore (record { route = r; word = w })) >> insert_words r ws

-- an index of pairings, after the renaming
abbrev pub moved : Option TableName → Option TableName
moved (some pairings_table) = some pairings_old_table
moved o = o

-- ALTER TABLE pairings RENAME TO pairings_old: the indexes go with the table
abbrev rename_pairings : Catalog → Outcome (Unit {0})
rename_pairings c = elim c.pairings [
  | none ↦ refused (no_such_table pairings_table)
  | some t ↦ elim c.pairings_old [
    | some u ↦ refused (table_exists_already pairings_old_table)
    | none ↦
        done tt (record c {
          pairings = none;
          pairings_old = some t;
          index_of = λ i. moved (c.index_of i);
        })
  ]
]

-- CREATE TABLE pairings, without the blocked words
abbrev create_pairings : Catalog → Outcome (Unit {0})
create_pairings c = elim c.pairings [
  | some t ↦ refused (table_exists_already pairings_table)
  | none ↦ done tt (record c {
    pairings = some (record {
      has_blocked_words = false;
      has_rule_config = true;
      has_webhook_secret = true;
      rows = [];
    });
  })
]

abbrev pub legacy_route : LegacyRow → Route
legacy_route r = r.route

-- the rows put into a table one by one, unless two have one key
unfoldable pub copy_rows : List LegacyRow → List LegacyRow → Option (List LegacyRow)
copy_rows [] out = some out
copy_rows (r ∷ rs) out = elim (has legacy_route r.route out) [
  | true ↦ none
  | false ↦ copy_rows rs (out ++ record r { words = none } ∷ [])
]

-- INSERT INTO pairings (…) SELECT … FROM pairings_old
abbrev insert_from_old : Catalog → Outcome (Unit {0})
insert_from_old c = elim c.pairings_old [
  | none ↦ refused (no_such_table pairings_old_table)
  | some old ↦ elim c.pairings [
    | none ↦ refused (no_such_table pairings_table)
    | some t ↦
        if old.has_rule_config && old.has_webhook_secret
        then elim (copy_rows old.rows t.rows) [
          | none ↦ refused (unique_violated pairings_table)
          | some rows ↦ done tt (record c { pairings = some (record t { rows = rows }) })
        ]
        else refused (no_such_column pairings_old_table)
  ]
]

-- the indexes of a table go with it
abbrev pub dropped : Option TableName → Option TableName
dropped (some pairings_old_table) = none
dropped o = o

-- DROP TABLE pairings_old
abbrev drop_pairings_old : Catalog → Outcome (Unit {0})
drop_pairings_old c = elim c.pairings_old [
  | none ↦ refused (no_such_table pairings_old_table)
  | some old ↦ done tt (record c { pairings_old = none; index_of = λ i. dropped (c.index_of i) })
]

-- the loop over the pairings that were read
unfoldable pub insert_pairs : ⦃u : Unicode⦄ → List LegacyRow → Script (Unit {0})
unfolding ◌>>=◌ insert_words
insert_pairs [] = finish tt
insert_pairs (p ∷ ps) = insert_words p.route (cell_words p.words) >> insert_pairs ps

-- step 2 of the migration: the words of the column go into the new table
unfoldable pub normalize_words : ⦃u : Unicode⦄ ⦃cut : Interruption⦄ → Script (Unit {0})
unfolding ◌>>=◌ insert_pairs
normalize_words = do pairs ← sql select_legacy; insert_pairs pairs

-- step 3 of the migration: pairings is built again without its blocked words
unfoldable pub rebuild_pairings : Script (Unit {0})
unfolding ◌>>=◌
rebuild_pairings = do
  sql rename_pairings
  sql create_pairings
  sql (drop_index_if_exists idx_pairings_source)
  sql (create_index idx_pairings_source pairings_table)
  sql (drop_index_if_exists idx_pairings_target)
  sql (create_index idx_pairings_target pairings_table)
  sql insert_from_old
  sql drop_pairings_old

unfoldable pub v2_normalize_blocked_words : ⦃u : Unicode⦄ ⦃cut : Interruption⦄ → Script (Unit {0})
unfolding ◌>>=◌ normalize_words rebuild_pairings
v2_normalize_blocked_words = do
  sql create_blocked_words
  sql (create_index idx_blocked_words_source blocked_words_table)
  normalize_words
  rebuild_pairings

unfoldable pub v3_create_event_history : Script (Unit {0})
unfolding ◌>>=◌
v3_create_event_history = do
  sql (λ c. done tt (record c { event_history = if_not_exists [] c.event_history }))
  sql (create_index idx_event_history_event_id event_history_table)
  sql (create_index idx_event_history_created_at event_history_table)

unfoldable pub v4_create_digest_events : Script (Unit {0})
unfolding ◌>>=◌
v4_create_digest_events = do
  sql (λ c. done tt (record c { digest_events = if_not_exists [] c.digest_events }))
  sql (create_index_if_absent idx_digest_events_target digest_events_table)
  sql (create_index_if_absent idx_digest_events_deliver_after digest_events_table)
