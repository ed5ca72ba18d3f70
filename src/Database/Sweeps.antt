-- ===== src/Database/Sweeps.antt =====
-- What RunRetentionCleanup of internal/database/retention.go deletes, and what it does not.
use mathlib.Core.Path.{fun_ext}
use cross_platform_media_sha.Base.{
  ℕ, suc, ◌+◌, ◌-◌, ◌*◌, ◌/◌, ◌≡◌, refl, ap, ◌∙◌, Bool, false, List, length, ltb, pos_part,
  neg_part, arith,
}
use cross_platform_media_sha.Text.{Bytes, lit}
use cross_platform_media_sha.Database.Table.{delete}
use cross_platform_media_sha.Database.Rows.{Db}
use cross_platform_media_sha.Database.Store.{second}
use cross_platform_media_sha.Database.Retention.{
  cleanup_table, cleanup_table_ends, cleanup_table_lem,
}
use cross_platform_media_sha.Database.Cleanup.{Sweep, swept, or_rows, run_retention_cleanup}

-- Of a table nothing is lost that is not old, and nothing old is left unless the driver has refused
-- a statement on it.
pub record IsSwept {A : Type 0} (refused : ℕ → Bool) (old : A → Bool) (before after : List A)
    : Type 0 where
  pub young : delete old after ≡ delete old before
  pub finished : ((n : ℕ) → refused n ≡ false) → after ≡ delete old before

-- so many days before the start of a table's cleanup, in seconds
abbrev pub days_ago : Sweep → Bytes → ℕ → ℕ
days_ago w table n = (w.clock table - n * (86_400 * second)) / second

-- The tables of the processed events, the history and the digests are swept of what is older than 7
-- days, the dead letters of 14 and the audit log of 30, the file hashes of what is older than the
-- window for duplicates; nothing else is touched.
pub record IsSweep (w : Sweep) (d d' : Db) : Type 0 where
  pub pairings : d'.pairings ≡ d.pairings
  pub blocked_words : d'.blocked_words ≡ d.blocked_words
  pub pending_events : d'.pending_events ≡ d.pending_events
  pub processed_events :
      IsSwept
        (w.refused (lit "processed_events"))
        (λ r. ltb r.processed_at (days_ago w (lit "processed_events") 7))
        d.processed_events
        d'.processed_events
  pub event_history :
      IsSwept
        (w.refused (lit "event_history"))
        (λ r. ltb r.created_at (days_ago w (lit "event_history") 7))
        d.event_history
        d'.event_history
  pub dead_letters :
      IsSwept
        (w.refused (lit "dead_letters"))
        (λ r. ltb r.failed_at (days_ago w (lit "dead_letters") 14))
        d.dead_letters
        d'.dead_letters
  pub digest_events :
      IsSwept
        (w.refused (lit "digest_events"))
        (λ r. ltb r.created_at (days_ago w (lit "digest_events") 7))
        d.digest_events
        d'.digest_events
  pub media_dedupe :
      IsSwept
        (w.refused (lit "media_dedupe"))
        (λ r. ltb r.created_at (
          w.clock (lit "media_dedupe") / second
          + neg_part w.duplicate_media_window
          - pos_part w.duplicate_media_window))
        d.media_dedupe
        d'.media_dedupe
  pub audit_log :
      IsSwept
        (w.refused (lit "audit_log"))
        (λ r. ltb r.created_at (days_ago w (lit "audit_log") 30))
        d.audit_log
        d'.audit_log

module _ {A : Type 0} (refused : ℕ → Bool) (old : A → Bool) (rows : List A) where
  all_swept : ((n : ℕ) → refused n ≡ false) → swept refused old rows ≡ delete old rows
  unfolding swept
  all_swept h =
      ap (λ r. or_rows (cleanup_table r (suc (length rows)) 0 old 500 rows) rows)
        (fun_ext (λ n. h n))
      ∙ ap (λ o. or_rows o rows)
          (cleanup_table_lem (suc (length rows)) 0 old 499 rows (omega arith))

  swept-young : delete old (swept refused old rows) ≡ delete old rows
  unfolding swept
  swept-young =
      let (rest, e, k) =
        cleanup_table_ends refused (suc (length rows)) 0 old 499 rows (omega arith) in
      ap (λ o. delete old (or_rows o rows)) e ∙ k

  pub swept-IsSwept : IsSwept refused old rows (swept refused old rows)
  swept-IsSwept = record { young = swept-young; finished = all_swept }

-- Whatever the clock shows and whatever statements the driver refuses, a run of the cleanup touches
-- no pairing, no blocked word and no queued event, and of the other tables it deletes no row that is
-- younger than what the table keeps: 7 days for the processed events, the history and the digests,
-- 14 for the dead letters, 30 for the audit log, the window for duplicates for the file hashes. Of a
-- table on which the driver refuses nothing, every older row is gone.
pub run_retention_cleanup-IsSweep : (w : Sweep) (d : Db) → IsSweep w d (run_retention_cleanup w d)
unfolding run_retention_cleanup
run_retention_cleanup-IsSweep w d = record {
  pairings = refl;
  blocked_words = refl;
  pending_events = refl;
  processed_events = swept-IsSwept (w.refused (lit "processed_events")) _ d.processed_events;
  event_history = swept-IsSwept (w.refused (lit "event_history")) _ d.event_history;
  dead_letters = swept-IsSwept (w.refused (lit "dead_letters")) _ d.dead_letters;
  digest_events = swept-IsSwept (w.refused (lit "digest_events")) _ d.digest_events;
  media_dedupe = swept-IsSwept (w.refused (lit "media_dedupe")) _ d.media_dedupe;
  audit_log = swept-IsSwept (w.refused (lit "audit_log")) _ d.audit_log;
}
