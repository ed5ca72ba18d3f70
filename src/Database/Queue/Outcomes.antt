-- ===== src/Database/Queue/Outcomes.antt =====
-- What each operation of the queue leaves in the database: the contents as they were, or one change.
use cross_platform_media_sha.Base.{ℕ, suc, ◌+◌, ◌≡◌, ◌⊎◌, none, some, true, false, arith, ltb}
use cross_platform_media_sha.Text.{Bytes, trim}
use cross_platform_media_sha.Models.{MediaEvent, route_of, bytes_eq}
use cross_platform_media_sha.Database.Table.{delete, first, at, insert_new}
use cross_platform_media_sha.Database.Rows.{
  Db, DeadLetterRow, PendingRow, DedupeRow, dedupe_key, dedupe_eq,
}
use cross_platform_media_sha.Database.Store.{Store, ok, err, unix}
use cross_platform_media_sha.Database.Pending.{
  Json, enqueue_pending_event, trim_event, pending_row, is_processed, insert_pending, dedupe_cutoff,
  delete_pending, update_pending, pending_id, letter_id,
}
use cross_platform_media_sha.Database.Delivery.{
  claim_tx, ack_pending_event, reschedule_pending_event, next_due,
  move_pending_event_to_dead_letter, replay_letter, replay_found, replay_dead_letter,
  upsert_processed, upsert_pending, delete_letter, insert_letter, letter_of, nat_key,
}

-- the fingerprints after the old ones are dropped and the event's is added
abbrev pub fingerprint : MediaEvent → ℕ → DedupeRow
fingerprint e now = record { route = route_of e; file_hash = e.file_hash; created_at = now }

abbrev pub forget_old : ℕ → Db → Db
forget_old cutoff d = record d {
  media_dedupe = delete (λ r. ltb r.created_at cutoff) d.media_dedupe;
}

abbrev pub remember : DedupeRow → Db → Db
remember row d = record d { media_dedupe = insert_new dedupe_key row d.media_dedupe }

abbrev pub acked : Bytes → ℕ → Db → Db
acked id now d = delete_pending id (upsert_processed id now d)

abbrev pub buried : Bytes → PendingRow → MediaEvent → Bytes → ℕ → Db → Db
buried id r e reason now d = delete_pending id (insert_letter (letter_of id r e reason now) d)

abbrev pub leased : PendingRow → ℕ → Db → Db
leased r until = update_pending r.event_id (λ q. record q { available_at = until })

abbrev pub rescheduled : Bytes → ℕ → ℕ → Bytes → Db → Db
rescheduled id retry_count at reason =
    update_pending id
      (λ r. record r { retry_count = retry_count; available_at = at; last_error = trim reason })

abbrev pub replayed : DeadLetterRow → ℕ → Db → Db
replayed l now d = delete_letter l.dead_letter_id (upsert_pending l now d)

module _ (s : Store) (no_tx : s.tx ≡ none) where
  pub ack_outcome :
      (id : Bytes)
      → ((ack_pending_event id s).1.db ≡ s.db)
        ⊎ ((ack_pending_event id s).1.db ≡ acked (trim id) (unix (s.env.clock (suc s.step))) s.db)
  unfolding ack_pending_event
  ack_outcome id = ground arith

  pub claim_outcome_none :
      (now lease : ℕ)
      → next_due (unix now) s.db.pending_events ≡ none
      → (claim_tx now lease s).1.db ≡ s.db
  unfolding claim_tx
  claim_outcome_none now lease e = ground arith

  pub claim_outcome :
      (now lease : ℕ) (r : PendingRow)
      → next_due (unix now) s.db.pending_events ≡ some r
      → ((claim_tx now lease s).1.db ≡ s.db)
        ⊎ ((claim_tx now lease s).1.db ≡ leased r (unix (now + lease)) s.db)
  unfolding claim_tx
  claim_outcome now lease r e = ground arith

  pub reschedule_outcome :
      (id : Bytes) (retry_count at : ℕ) (reason : Bytes)
      → ((reschedule_pending_event id retry_count at reason s).1.db ≡ s.db)
        ⊎ ((reschedule_pending_event id retry_count at reason s).1.db
            ≡ rescheduled (trim id) retry_count (unix at) reason s.db)
  unfolding reschedule_pending_event
  reschedule_outcome id retry_count at reason = ground arith

  pub replay_outcome_none :
      (id : ℕ) (platform target : Bytes)
      → first (at letter_id id) s.db.dead_letters ≡ none
      → (replay_dead_letter id platform target s).1.db ≡ s.db
  unfolding replay_dead_letter replay_found replay_letter
  replay_outcome_none id platform target e = ground arith

  pub replay_outcome :
      (id : ℕ) (platform target : Bytes) (l : DeadLetterRow)
      → first (at letter_id id) s.db.dead_letters ≡ some l
      → ((replay_dead_letter id platform target s).1.db ≡ s.db)
        ⊎ ((is_processed l.event_id s.db ≡ true)
            × ((replay_dead_letter id platform target s).1.db
                ≡ delete_letter l.dead_letter_id s.db))
        ⊎ ((is_processed l.event_id s.db ≡ false)
            × ((replay_dead_letter id platform target s).1.db
                ≡ replayed l (unix (s.env.clock (suc (suc (suc s.step))))) s.db))
  unfolding replay_dead_letter replay_found replay_letter
  replay_outcome id platform target l e = ground arith

  module _ ⦃j : Json⦄ where
    pub bury_outcome_none :
        (id reason : Bytes)
        → first (at pending_id (trim id)) s.db.pending_events ≡ none
        → (move_pending_event_to_dead_letter id reason s).1.db ≡ s.db
    unfolding move_pending_event_to_dead_letter
    bury_outcome_none id reason e = ground arith

    pub bury_outcome_undecoded :
        (id reason : Bytes) (r : PendingRow) {m : Bytes}
        → first (at pending_id (trim id)) s.db.pending_events ≡ some r
        → j.decode_event r.payload ≡ err m
        → (move_pending_event_to_dead_letter id reason s).1.db ≡ s.db
    unfolding move_pending_event_to_dead_letter
    bury_outcome_undecoded id reason r e f = ground arith

    pub bury_outcome :
        (id reason : Bytes) (r : PendingRow) (e : MediaEvent)
        → first (at pending_id (trim id)) s.db.pending_events ≡ some r
        → j.decode_event r.payload ≡ ok e
        → ((move_pending_event_to_dead_letter id reason s).1.db ≡ s.db)
          ⊎ ((move_pending_event_to_dead_letter id reason s).1.db
              ≡ buried (trim id) r e reason (unix (s.env.clock (suc (suc s.step)))) s.db)
    unfolding move_pending_event_to_dead_letter
    bury_outcome id reason r e p q = ground arith

    pub enqueue_outcome_unencoded :
        (e : MediaEvent) {m : Bytes}
        → j.encode_event (trim_event e) ≡ err m
        → (enqueue_pending_event e s).1.db ≡ s.db
    unfolding enqueue_pending_event
    enqueue_outcome_unencoded e p = ground arith

    pub enqueue_outcome :
        (e : MediaEvent) (payload : Bytes)
        → j.encode_event (trim_event e) ≡ ok payload
        → let now = unix (s.env.clock s.step) in
          let row = pending_row (trim_event e) payload now in
          ((enqueue_pending_event e s).1.db ≡ s.db)
          ⊎ ((is_processed (trim e.event_id) s.db ≡ false)
              × ((enqueue_pending_event e s).1.db ≡ insert_pending row s.db))
          ⊎ ((is_processed (trim e.event_id) s.db ≡ false)
              × ((enqueue_pending_event e s).1.db
                  ≡ remember
                      (fingerprint (trim_event e) now)
                      (forget_old (dedupe_cutoff s now) (insert_pending row s.db))))
    unfolding enqueue_pending_event
    enqueue_outcome e payload p = ground arith
