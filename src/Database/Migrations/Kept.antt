-- ===== src/Database/Migrations/Kept.antt =====
-- The migrations that move no words keep the data: v1Init, v3CreateEventHistory and
-- v4CreateDigestEvents.
use cross_platform_media_sha.Base.{
  ◌≡◌, refl, false, ◌&&◌, some, List, [], ◌∷◌, map, arith, ap, Option-cases, Bool-cases, inl, inr,
}
use mathlib.Core.List.{map-map}
use cross_platform_media_sha.Text.{Bytes, Unicode}
use cross_platform_media_sha.Models.{Route}
use cross_platform_media_sha.Database.Table.{has}
use cross_platform_media_sha.Database.Migrations.Legacy.{Interruption}
use cross_platform_media_sha.Database.Migrations.Legacy.{cell_words}
use cross_platform_media_sha.Database.Migrations.Catalog.{
  Catalog, PairingsTable, LegacyRow, audit_log_table, dead_letters_table, digest_events_table,
  event_history_table, idx_audit_log_created_at, idx_dead_letters_failed_at,
  idx_dead_letters_target, idx_digest_events_deliver_after, idx_digest_events_target,
  idx_event_history_created_at, idx_event_history_event_id, idx_media_dedupe_created_at,
  idx_pairings_source, idx_pairings_target, idx_pending_events_available_at,
  idx_pending_events_target, idx_processed_events_processed_at, media_dedupe_table, pairings_table,
  pending_events_table, processed_events_table,
}
use cross_platform_media_sha.Database.Migrations.Script.{meaning, ◌>>=◌, sql}
use cross_platform_media_sha.Database.Migrations.Steps.{
  v1_init, v3_create_event_history, v4_create_digest_events,
}
use cross_platform_media_sha.Database.Migrations.Columns.{
  Column, create_pairings_if_absent, blocked_words_column, rule_config_column,
  webhook_secret_column, has_column, fill, add_column, ensure_column_exists_tx,
}
use cross_platform_media_sha.Database.Migrations.Data.{
  KeepsData, settings, table_settings, column_blocks, KeepsData-refl, legacy_blocks,
  tables-KeepsData, rows_of-if_not_exists,
}
use cross_platform_media_sha.Database.Migrations.Keeping.{
  IsKept, then-IsKept, sql-IsKept, index-IsKept, new_index-IsKept,
}

module _ ⦃u : Unicode⦄ ⦃cut : Interruption⦄ where
  table_settings-add_column :
      (col : Column) (t : PairingsTable)
      → has_column col t ≡ false
      → table_settings (add_column col t) ≡ table_settings t
  table_settings-add_column blocked_words_column t h = map-map _ _ t.rows
  table_settings-add_column rule_config_column t h = rw h (map-map _ _ t.rows)
  table_settings-add_column webhook_secret_column t h = rw h (map-map _ _ t.rows)

  -- the default of the column says no word
  legacy_blocks-fill :
      (rs : List LegacyRow) (r : Route) (w : Bytes)
      → legacy_blocks (map (fill blocked_words_column) rs) r w ≡ false
  unfolding legacy_blocks cell_words has
  legacy_blocks-fill [] r w = refl
  legacy_blocks-fill (p ∷ ps) r w = ground (arith, legacy_blocks-fill ps r w)

  legacy_blocks-same :
      (f : LegacyRow → LegacyRow) (rs : List LegacyRow) (r : Route) (w : Bytes)
      → ((p : LegacyRow) → (f p).route ≡ p.route)
      → ((p : LegacyRow) → (f p).words ≡ p.words)
      → legacy_blocks (map f rs) r w ≡ legacy_blocks rs r w
  unfolding legacy_blocks
  legacy_blocks-same f [] r w h k = refl
  legacy_blocks-same f (p ∷ ps) r w h k = rw (h p, k p, legacy_blocks-same f ps r w h k) refl

  column_blocks-add_column :
      (col : Column) (t : PairingsTable) (r : Route) (w : Bytes)
      → has_column col t ≡ false
      → column_blocks (some (add_column col t)) r w ≡ column_blocks (some t) r w
  column_blocks-add_column blocked_words_column t r w h = rw h (legacy_blocks-fill t.rows r w)
  column_blocks-add_column rule_config_column t r w h =
      ap (λ b. t.has_blocked_words && b)
        (legacy_blocks-same (fill rule_config_column) t.rows r w (λ p. refl) (λ p. refl))
  column_blocks-add_column webhook_secret_column t r w h =
      ap (λ b. t.has_blocked_words && b)
        (legacy_blocks-same (fill webhook_secret_column) t.rows r w (λ p. refl) (λ p. refl))

  pairings-KeepsData :
      (c : Catalog) (t : PairingsTable)
      → table_settings t ≡ settings c
      → ((r : Route) (w : Bytes) → column_blocks (some t) r w ≡ column_blocks c.pairings r w)
      → KeepsData c (record c { pairings = some t })
  pairings-KeepsData c t h k = record {
    same_versions = refl;
    same_settings = h;
    same_blocks = λ z r w. elim (Option-cases c.blocked_words) [
      | inl b ↦ rw b (k r w)
      | inr (u, b) ↦ rw b refl
    ];
    same_pending = refl;
    same_processed = refl;
    same_letters = refl;
    same_hashes = refl;
    same_audit = refl;
    same_history = refl;
    same_digests = refl;
  }

  add_column-KeepsData :
      (col : Column) (c : Catalog) (t : PairingsTable)
      → c.pairings ≡ some t
      → has_column col t ≡ false
      → KeepsData c (record c { pairings = some (add_column col t) })
  add_column-KeepsData col c t e h =
      pairings-KeepsData c (add_column col t) (rw e (table_settings-add_column col t h))
        λ r w. rw e (column_blocks-add_column col t r w h)

  column-IsKept : (col : Column) → IsKept (ensure_column_exists_tx col)
  unfolding ensure_column_exists_tx meaning ◌>>=◌
  column-IsKept col = record {
    kept = λ c. elim (Option-cases c.pairings) [
      | inl e ↦ rw e tt
      | inr (t, e) ↦ elim (Bool-cases (has_column col t)) [
        | inl h ↦ rw e (rw h (KeepsData-refl _))
        | inr h ↦ rw e (rw h (add_column-KeepsData col _ t refl h))
      ]
    ];
  }

  pub v4-IsKept : IsKept v4_create_digest_events
  unfolding v4_create_digest_events
  v4-IsKept =
      then-IsKept
        (sql-IsKept _ λ c.
          tables-KeepsData c refl refl refl refl refl refl (rows_of-if_not_exists c.digest_events))
        (then-IsKept (index-IsKept idx_digest_events_target digest_events_table)
          (index-IsKept idx_digest_events_deliver_after digest_events_table))

  pub v3-IsKept : IsKept v3_create_event_history
  unfolding v3_create_event_history
  v3-IsKept =
      then-IsKept
        (sql-IsKept _ λ c.
          tables-KeepsData c refl refl refl refl refl (rows_of-if_not_exists c.event_history) refl)
        (then-IsKept (new_index-IsKept idx_event_history_event_id event_history_table)
          (new_index-IsKept idx_event_history_created_at event_history_table))

  pairings-IsKept : IsKept (sql create_pairings_if_absent)
  unfolding legacy_blocks
  pairings-IsKept = sql-IsKept create_pairings_if_absent λ c. elim (Option-cases c.pairings) [
    | inl e ↦ pairings-KeepsData c _ (rw e refl) (λ r w. rw e refl)
    | inr (t, e) ↦ pairings-KeepsData c _ (rw e refl) (λ r w. rw e refl)
  ]

  pub v1-IsKept : IsKept v1_init
  unfolding v1_init
  v1-IsKept = then-IsKept pairings-IsKept (
      then-IsKept (index-IsKept idx_pairings_source pairings_table) (
        then-IsKept (index-IsKept idx_pairings_target pairings_table) (
          then-IsKept (column-IsKept blocked_words_column) (
            then-IsKept (column-IsKept rule_config_column) (
              then-IsKept (column-IsKept webhook_secret_column) (
                then-IsKept
                  (sql-IsKept _ λ c.
                    tables-KeepsData c (rows_of-if_not_exists c.pending_events) refl refl refl refl
                      refl refl)
                  (then-IsKept (index-IsKept idx_pending_events_available_at pending_events_table) (
                    then-IsKept (index-IsKept idx_pending_events_target pending_events_table) (
                      then-IsKept
                        (sql-IsKept _ λ c.
                          tables-KeepsData c refl (rows_of-if_not_exists c.processed_events) refl
                            refl refl refl refl)
                        (then-IsKept
                          (index-IsKept idx_processed_events_processed_at processed_events_table)
                          (then-IsKept
                            (sql-IsKept _ λ c.
                              tables-KeepsData c refl refl (rows_of-if_not_exists c.dead_letters)
                                refl refl refl refl)
                            (then-IsKept (index-IsKept idx_dead_letters_target dead_letters_table) (
                              then-IsKept
                                (index-IsKept idx_dead_letters_failed_at dead_letters_table)
                                (then-IsKept
                                  (sql-IsKept _ λ c.
                                    tables-KeepsData c refl refl refl
                                      (rows_of-if_not_exists c.media_dedupe) refl refl refl)
                                  (then-IsKept
                                    (index-IsKept idx_media_dedupe_created_at media_dedupe_table)
                                    (then-IsKept
                                      (sql-IsKept _ λ c.
                                        tables-KeepsData c refl refl refl refl
                                          (rows_of-if_not_exists c.audit_log) refl refl)
                                      (index-IsKept idx_audit_log_created_at
                                        audit_log_table)))))))))))))))))
