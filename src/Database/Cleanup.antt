-- ===== src/Database/Cleanup.antt =====
-- internal/database/retention.go: RunRetentionCleanup, over all tables.
use cross_platform_media_sha.Base.{
  ℕ, ℤ, zero, suc, ◌+◌, ◌-◌, ◌*◌, ◌<◌, ◌≡◌, refl, Bool, false, Option, none, some, List, [], ◌∷◌,
  length, ltb, arith, pos_part, neg_part, All, Eq, ◌==◌, Bool-cases, inl, inr,
}
use cross_platform_media_sha.Text.{Bytes, lit}
use cross_platform_media_sha.Models.{bytes_eq}
use cross_platform_media_sha.Database.Table.{has, Unique}
use cross_platform_media_sha.Database.Rows.{
  Db, ProcessedRow, HistoryRow, DeadLetterRow, DigestRow, DedupeRow, AuditRow, dedupe_key,
  dedupe_eq,
}
use cross_platform_media_sha.Database.Store.{second, unix}
use cross_platform_media_sha.Database.Pending.{processed_id, letter_id}
use cross_platform_media_sha.Database.Retention.{delete_batch, cleanup_table}
use cross_platform_media_sha.Database.Delivery.{nat_key}
use cross_platform_media_sha.Database.Queue.Invariant.{IsSound}

-- What the cleanup takes: whether the driver refuses a statement on a table, the clock at the start
-- of a table, and duplicateMediaWindow in seconds.
pub record Sweep : Type 0 where
  pub refused : Bytes → ℕ → Bool
  pub clock : Bytes → ℕ
  pub duplicate_media_window : ℤ

abbrev days : ℕ → ℕ
days n = n * (24 * 3600 * second)

-- the seconds of a time so long before now, not below 0
abbrev cutoff_before : Sweep → Bytes → ℕ → ℕ
cutoff_before w table age = unix (w.clock table - age)

abbrev dedupe_sweep_cutoff : Sweep → ℕ
dedupe_sweep_cutoff w =
    unix (w.clock (lit "media_dedupe"))
    + neg_part w.duplicate_media_window
    - pos_part w.duplicate_media_window

module _ {A : Type 0} where
  abbrev pub or_rows : Option (List A) → List A → List A
  or_rows none rows = rows
  or_rows (some rest) rows = rest

  -- one table, in batches of 500; the fuel is one more than there are rows
  unfoldable pub swept : (ℕ → Bool) → (A → Bool) → List A → List A
  unfolding cleanup_table
  swept refused old rows = or_rows (cleanup_table refused (suc (length rows)) 0 old 500 rows) rows

-- the rows that are older than what the cleanup leaves in their table
abbrev old_processed : Sweep → ProcessedRow → Bool
old_processed w r = ltb r.processed_at (cutoff_before w (lit "processed_events") (days 7))

abbrev old_history : Sweep → HistoryRow → Bool
old_history w r = ltb r.created_at (cutoff_before w (lit "event_history") (days 7))

abbrev old_letter : Sweep → DeadLetterRow → Bool
old_letter w r = ltb r.failed_at (cutoff_before w (lit "dead_letters") (days 14))

abbrev old_digest : Sweep → DigestRow → Bool
old_digest w r = ltb r.created_at (cutoff_before w (lit "digest_events") (days 7))

abbrev old_dedupe : Sweep → DedupeRow → Bool
old_dedupe w r = ltb r.created_at (dedupe_sweep_cutoff w)

abbrev old_audit : Sweep → AuditRow → Bool
old_audit w r = ltb r.created_at (cutoff_before w (lit "audit_log") (days 30))

unfoldable pub run_retention_cleanup : Sweep → Db → Db
unfolding swept
run_retention_cleanup w d = record d {
  processed_events =
      swept (w.refused (lit "processed_events")) (old_processed w) d.processed_events;
  event_history = swept (w.refused (lit "event_history")) (old_history w) d.event_history;
  dead_letters = swept (w.refused (lit "dead_letters")) (old_letter w) d.dead_letters;
  digest_events = swept (w.refused (lit "digest_events")) (old_digest w) d.digest_events;
  media_dedupe = swept (w.refused (lit "media_dedupe")) (old_dedupe w) d.media_dedupe;
  audit_log = swept (w.refused (lit "audit_log")) (old_audit w) d.audit_log;
}

module _ {A : Type 0} (P : List A → Type 0) (old : A → Bool) where
  -- what a batch keeps, the loop keeps
  cleanup_table_keeps :
      ((n : ℕ) (rows : List A) → P rows → P (delete_batch old n rows))
      → (refused : ℕ → Bool) (fuel step n : ℕ) (rows whole : List A) → P rows
      → P whole
      → P (or_rows (cleanup_table refused fuel step old n rows) whole)
  unfolding cleanup_table
  cleanup_table_keeps k refused zero step n rows whole h w = w
  cleanup_table_keeps k refused (suc fuel) step n rows whole h w =
      elim (Bool-cases (refused step)) [
        | inl r ↦ rw r h
        | inr r ↦ rw r (elim (Bool-cases (length (delete_batch old n rows) == length rows)) [
          | inl e ↦ rw e (k n rows h)
          | inr e ↦ rw e (
              cleanup_table_keeps k refused fuel (suc step) n (delete_batch old n rows) whole
                (k n rows h) w)
        ])
      ]

  swept_keeps :
      ((n : ℕ) (rows : List A) → P rows → P (delete_batch old n rows))
      → (refused : ℕ → Bool) (rows : List A) → P rows
      → P (swept refused old rows)
  unfolding swept
  swept_keeps k refused rows h =
      cleanup_table_keeps k refused (suc (length rows)) 0 500 rows rows h h

module _ {A K : Type 0} ⦃e : Eq K⦄ (key : A → K) (old : A → Bool) where
  has-delete_batch :
      (k : K) (n : ℕ) (rows : List A)
      → has key k rows ≡ false
      → has key k (delete_batch old n rows) ≡ false
  unfolding has delete_batch
  has-delete_batch k zero rows h = h
  has-delete_batch k (suc n) [] h = refl
  has-delete_batch k (suc n) (r ∷ rs) h =
      ground (arith, has-delete_batch k n rs, has-delete_batch k (suc n) rs)

  delete_batch-Unique :
      (n : ℕ) (rows : List A) → Unique key rows → Unique key (delete_batch old n rows)
  unfolding delete_batch
  delete_batch-Unique zero rows h = h
  delete_batch-Unique (suc n) [] h = tt
  delete_batch-Unique (suc n) (r ∷ rs) h = ground (
    arith,
    delete_batch-Unique n rs h.1,
    delete_batch-Unique (suc n) rs h.1,
    has-delete_batch (key r) (suc n) rs h.0,
  )

delete_batch-fresh :
    (old : DeadLetterRow → Bool) (k n : ℕ) (rows : List DeadLetterRow)
    → All (λ l. l.dead_letter_id < k) rows
    → All (λ l. l.dead_letter_id < k) (delete_batch old n rows)
unfolding delete_batch
delete_batch-fresh old k zero rows h = h
delete_batch-fresh old k (suc n) [] h = tt
delete_batch-fresh old k (suc n) (r ∷ rs) h =
    ground (arith, delete_batch-fresh old k n rs h.1, delete_batch-fresh old k (suc n) rs h.1, h.0)

-- what is not there is not there after a sweep
swept_lacks :
    (id : Bytes) (refused : ℕ → Bool) (old : ProcessedRow → Bool) (rows : List ProcessedRow)
    → has processed_id id rows ≡ false
    → has processed_id id (swept refused old rows) ≡ false
swept_lacks id refused old rows h =
    swept_keeps (λ rs. has processed_id id rs ≡ false) old (has-delete_batch processed_id old id)
      refused rows h

-- The cleanup keeps the queue sound: whatever statement of it the driver refuses, and whatever the
-- clock shows, the keys stay unique, and no event that is marked as processed is queued.
pub run_retention_cleanup-IsSound :
    (w : Sweep) (d : Db) → IsSound d → IsSound (run_retention_cleanup w d)
unfolding run_retention_cleanup
run_retention_cleanup-IsSound w d h = record {
  pending_unique = h.pending_unique;
  processed_unique =
      swept_keeps (Unique processed_id) (old_processed w)
        (delete_batch-Unique processed_id (old_processed w)) (w.refused (lit "processed_events"))
        d.processed_events h.processed_unique;
  dedupe_unique =
      swept_keeps (Unique dedupe_key) (old_dedupe w) (delete_batch-Unique dedupe_key (old_dedupe w))
        (w.refused (lit "media_dedupe")) d.media_dedupe h.dedupe_unique;
  letters_unique =
      swept_keeps (Unique letter_id) (old_letter w) (delete_batch-Unique letter_id (old_letter w))
        (w.refused (lit "dead_letters")) d.dead_letters h.letters_unique;
  letters_fresh =
      swept_keeps (All (λ l. l.dead_letter_id < d.next_id)) (old_letter w)
        (delete_batch-fresh (old_letter w) d.next_id) (w.refused (lit "dead_letters"))
        d.dead_letters h.letters_fresh;
  disjoint = λ id p. elim (Bool-cases (has processed_id id d.processed_events)) [
    | inl q ↦ h.disjoint id q
    | inr q ↦ absurd (
        cc (
          p,
          swept_lacks id (w.refused (lit "processed_events")) (old_processed w) d.processed_events
              q,
        ))
  ];
}
