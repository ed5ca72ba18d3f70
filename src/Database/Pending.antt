-- ===== src/Database/Pending.antt =====
-- The delivery queue of internal/database/db.go: enqueue, claim, acknowledge, reschedule, move to the
-- dead letters and replay.
use cross_platform_media_sha.Base.{
  ℕ, ◌+◌, ◌-◌, Bool, true, false, not, ◌||◌, [], ltb, pos_part, neg_part, if◌then◌else◌,
}
use cross_platform_media_sha.Text.{Bytes, lit, trim, is_empty}
use cross_platform_media_sha.Models.{MediaEvent, RuleConfig, route_of, bytes_eq}
use cross_platform_media_sha.Database.Table.{delete, update, has, at, insert_new}
use cross_platform_media_sha.Database.Rows.{
  Db, PendingRow, ProcessedRow, DeadLetterRow, DedupeRow, dedupe_key, dedupe_eq,
}
use cross_platform_media_sha.Database.Store.{
  Result, ok, Store, Exec, pure, fail, lift, ◌>>=◌, ◌>>◌, query, exec, statement, begin_tx,
  commit_tx, or_rollback, rollback_with, unix, time_now,
}

-- encoding/json on the types that the tables hold as text
pub record Json : Type 0 where
  pub encode_event : MediaEvent → Result Bytes
  pub decode_event : Bytes → Result MediaEvent
  pub encode_rules : RuleConfig → Result Bytes
  -- the value that json.Unmarshal leaves behind, also where it reports an error
  pub decode_rules : Bytes → RuleConfig

pub record QueuedEvent : Type 0 where
  pub event : MediaEvent
  pub retry_count : ℕ

abbrev pub pending_id : PendingRow → Bytes
pending_id r = r.event_id

abbrev pub processed_id : ProcessedRow → Bytes
processed_id r = r.event_id

abbrev pub letter_id : DeadLetterRow → ℕ
letter_id r = r.dead_letter_id

-- the statements on single tables

abbrev pub is_processed : Bytes → Db → Bool
is_processed event_id d = has processed_id event_id d.processed_events

abbrev pub is_pending : Bytes → Db → Bool
is_pending event_id d = has pending_id event_id d.pending_events

-- INSERT INTO pending_events … ON CONFLICT(event_id) DO NOTHING
abbrev pub insert_pending : PendingRow → Db → Db
insert_pending r d = record d { pending_events = insert_new pending_id r d.pending_events }

-- DELETE FROM pending_events WHERE event_id = ?
abbrev pub delete_pending : Bytes → Db → Db
delete_pending event_id d = record d {
  pending_events = delete (at pending_id event_id) d.pending_events;
}

-- UPDATE pending_events SET … WHERE event_id = ?
abbrev pub update_pending : Bytes → (PendingRow → PendingRow) → Db → Db
update_pending event_id f d = record d {
  pending_events = update (at pending_id event_id) f d.pending_events;
}

-- now - int64(duplicateMediaWindow.Seconds()), not below 0
abbrev pub dedupe_cutoff : Store → ℕ → ℕ
dedupe_cutoff s now =
    now + neg_part s.env.duplicate_media_window - pos_part s.env.duplicate_media_window

-- true unless the file was seen on this route within the window
unfoldable pub record_media_dedupe : MediaEvent → ℕ → Exec Bool
record_media_dedupe event now s =
    if is_empty (trim event.file_hash)
    then (ok true, s)
    else (do
      exec λ d. record d { media_dedupe = delete (λ r. ltb r.created_at cutoff) d.media_dedupe }
      statement (λ d. not (has dedupe_key (dedupe_key row) d.media_dedupe))
          λ d. record d { media_dedupe = insert_new dedupe_key row d.media_dedupe })
        s
  where
    cutoff : ℕ
    cutoff = dedupe_cutoff s now

    row : DedupeRow
    row = record { route = route_of event; file_hash = event.file_hash; created_at = now }

-- the event with its identifying fields trimmed
abbrev pub trim_event : MediaEvent → MediaEvent
trim_event e = record e {
  event_id = trim e.event_id;
  source_platform = trim e.source_platform;
  source_id = trim e.source_id;
  target_platform = trim e.target_platform;
  target_id = trim e.target_id;
}

abbrev pub lacks_route : MediaEvent → Bool
lacks_route e =
    is_empty e.source_platform
    || (is_empty e.source_id || (is_empty e.target_platform || is_empty e.target_id))

-- the row that an event is queued as
abbrev pub pending_row : MediaEvent → Bytes → ℕ → PendingRow
pending_row e payload now = record {
  event_id = e.event_id;
  route = route_of e;
  payload = payload;
  available_at = if ltb 0 e.available_at then e.available_at else now;
  retry_count = 0;
  last_error = [];
  created_at = now;
}

-- what follows the INSERT: the fingerprint of the file, the commit, and the rows affected
unfoldable pub finish_enqueue : MediaEvent → ℕ → Bool → Exec Bool
unfolding record_media_dedupe
finish_enqueue e now inserted = if is_empty e.file_hash then (do commit_tx; pure inserted) else do
  fresh ← or_rollback (record_media_dedupe e now)
  if fresh then (do commit_tx; pure inserted) else rollback_with false

module _ ⦃j : Json⦄ where
  -- the transaction of `EnqueuePendingEvent`
  unfoldable pub enqueue_tx : MediaEvent → Bytes → ℕ → Exec Bool
  unfolding finish_enqueue
  enqueue_tx e payload now = do
    begin_tx
    done ← or_rollback (query (is_processed e.event_id))
    if done then rollback_with false else do
      inserted ← or_rollback (
          statement (λ d. not (is_pending e.event_id d))
            (insert_pending (pending_row e payload now)))
      finish_enqueue e now inserted

  unfoldable pub enqueue_pending_event : MediaEvent → Exec Bool
  unfolding enqueue_tx
  enqueue_pending_event event =
      let e = trim_event event in
      if is_empty e.event_id
      then fail (lit "event id is required")
      else if lacks_route e
      then fail (lit "source and target platform/ids are required")
      else do payload ← lift (j.encode_event e); now ← time_now; enqueue_tx e payload (unix now)
