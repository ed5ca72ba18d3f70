-- ===== src/Database/Delivery.antt =====
-- What internal/database/db.go does to a queued event: claim, acknowledge, reschedule, move to the
-- dead letters, replay; and the depth of the queue.
use cross_platform_media_sha.Base.{
  ℕ, suc, ◌+◌, ◌*◌, Bool, true, false, ◌||◌, ◌&&◌, Option, none, some, List, [], ◌∷◌, ◌++◌, ltb,
  leb, length, if◌then◌else◌, ◌==◌ as nat_eq, ==_iff as nat_eq_iff, Eq,
}
use cross_platform_media_sha.Text.{Bytes, lit, trim, is_empty, same}
use cross_platform_media_sha.Models.{MediaEvent, bytes_eq}
use cross_platform_media_sha.Database.Table.{delete, update, first, at, count}
use cross_platform_media_sha.Database.Rows.{Db, PendingRow, DeadLetterRow}
use cross_platform_media_sha.Database.Store.{
  ok, err, Exec, pure, fail, lift, ◌>>=◌, ◌>>◌, query, exec, statement, begin_tx, rollback,
  commit_tx, or_rollback, rollback_with, unix, second, time_now,
}
use cross_platform_media_sha.Database.Pending.{
  Json, QueuedEvent, pending_id, processed_id, letter_id, is_processed, is_pending, delete_pending,
  update_pending,
}

instance abbrev pub nat_key : Eq ℕ
nat_key = record { beq = nat_eq; beq_iff = nat_eq_iff }

-- ORDER BY available_at ASC, created_at ASC; rows that tie stay in the order of insertion
abbrev pub before : PendingRow → PendingRow → Bool
before a b =
    ltb a.available_at b.available_at
    || (nat_eq a.available_at b.available_at && ltb a.created_at b.created_at)

abbrev pub earlier : PendingRow → Option PendingRow → PendingRow
earlier r none = r
earlier r (some q) = if before q r then q else r

-- WHERE available_at <= ? ORDER BY … LIMIT 1
unfoldable pub next_due : ℕ → List PendingRow → Option PendingRow
next_due now [] = none
next_due now (r ∷ rs) =
    let rest = next_due now rs in if leb r.available_at now then some (earlier r rest) else rest

abbrev pub or_column : Bytes → Bytes → Bytes
or_column v column = if is_empty (trim v) then column else v

-- the fields that the payload lacks are taken from the columns
abbrev pub complete : MediaEvent → PendingRow → MediaEvent
complete e r = record e {
  event_id = or_column e.event_id r.event_id;
  source_platform = or_column e.source_platform r.route.source_platform;
  source_id = or_column e.source_id r.route.source_id;
  target_platform = or_column e.target_platform r.route.target_platform;
  target_id = or_column e.target_id r.route.target_id;
}

abbrev pub queued : PendingRow → MediaEvent → QueuedEvent
queued r e = record { event = complete e r; retry_count = r.retry_count }

-- the transaction: the row that is found is leased
unfoldable pub claim_tx : ℕ → ℕ → Exec (Option PendingRow)
claim_tx now lease = do
  begin_tx
  found ← or_rollback (query (λ d. next_due (unix now) d.pending_events))
  elim found [
    | none ↦ rollback_with none
    | some r ↦ do
      or_rollback
          (exec (update_pending r.event_id (λ q. record q { available_at = unix (now + lease) })))
      commit_tx
      pure (some r)
  ]

-- AckPendingEvent: `INSERT INTO processed_events … ON CONFLICT(event_id) DO UPDATE SET processed_at`
abbrev pub upsert_processed : Bytes → ℕ → Db → Db
upsert_processed event_id now d = record d {
  processed_events =
      if is_processed event_id d
      then update (at processed_id event_id) (λ r. record r { processed_at = now })
          d.processed_events
      else d.processed_events ++ record { event_id = event_id; processed_at = now } ∷ [];
}

unfoldable pub ack_tx : Bytes → Exec (Unit {0})
ack_tx event_id = do
  begin_tx
  now ← time_now
  or_rollback (exec (upsert_processed event_id (unix now)))
  or_rollback (exec (delete_pending event_id))
  commit_tx

unfoldable pub ack_pending_event : Bytes → Exec (Unit {0})
unfolding ack_tx
ack_pending_event event_id =
    let event_id = trim event_id in
    if is_empty event_id then fail (lit "event id is required") else ack_tx event_id

unfoldable pub reschedule_pending_event : Bytes → ℕ → ℕ → Bytes → Exec (Unit {0})
reschedule_pending_event event_id retry_count next_available_at reason =
    let event_id = trim event_id in
    if is_empty event_id
    then fail (lit "event id is required")
    else exec (
        update_pending event_id (λ r. record r {
          retry_count = retry_count;
          available_at = unix next_available_at;
          last_error = trim reason;
        }))

-- errors.Is(err, sql.ErrNoRows)
abbrev pub no_rows : Bytes
no_rows = lit "sql: no rows in result set"

-- the statement behind a QueryRow that must find a row
abbrev pub row_or_no_rows : {A : Type 0} → Option A → Exec A
row_or_no_rows none s = (err no_rows, rollback s)
row_or_no_rows (some r) s = (ok r, s)

abbrev pub letter_of : Bytes → PendingRow → MediaEvent → Bytes → ℕ → Db → DeadLetterRow
letter_of event_id r e reason now d = record {
  dead_letter_id = d.next_id;
  event_id = event_id;
  route = r.route;
  file_name = e.file_name;
  payload = r.payload;
  retry_count = r.retry_count;
  failure_reason = trim reason;
  failed_at = now;
}

abbrev pub insert_letter : (Db → DeadLetterRow) → Db → Db
insert_letter letter d = record d {
  dead_letters = d.dead_letters ++ letter d ∷ [];
  next_id = suc d.next_id;
}

module _ ⦃j : Json⦄ where
  unfoldable pub claim_next_pending_event : ℕ → ℕ → Exec (Option QueuedEvent)
  unfolding claim_tx
  claim_next_pending_event now lease = do
    found ← claim_tx now (if nat_eq lease 0 then 30 * second else lease)
    elim found [
      | none ↦ pure none
      | some r ↦ do e ← lift (j.decode_event r.payload); pure (some (queued r e))
    ]

  unfoldable pub dead_letter_tx : Bytes → Bytes → Exec ℕ
  dead_letter_tx event_id reason = do
    begin_tx
    found ← or_rollback (query (λ d. first (at pending_id event_id) d.pending_events))
    r ← row_or_no_rows found
    e ← or_rollback (lift (j.decode_event r.payload))
    now ← time_now
    id ←
        or_rollback
          (statement (λ d. d.next_id) (insert_letter (letter_of event_id r e reason (unix now))))
    or_rollback (exec (delete_pending event_id))
    commit_tx
    pure id

  unfoldable pub move_pending_event_to_dead_letter : Bytes → Bytes → Exec ℕ
  unfolding dead_letter_tx
  move_pending_event_to_dead_letter event_id reason =
      let event_id = trim event_id in
      if is_empty event_id
      then fail (lit "event id is required")
      else dead_letter_tx event_id reason

-- INSERT … ON CONFLICT(event_id) DO UPDATE SET available_at, retry_count = 0, last_error
abbrev pub replayed_row : DeadLetterRow → ℕ → PendingRow
replayed_row l now = record {
  event_id = l.event_id;
  route = l.route;
  payload = l.payload;
  available_at = now;
  retry_count = 0;
  last_error = lit "replayed from dead letter";
  created_at = now;
}

abbrev pub upsert_pending : DeadLetterRow → ℕ → Db → Db
upsert_pending l now d =
    if is_pending l.event_id d
    then update_pending l.event_id
        (λ r. record r {
          available_at = now;
          retry_count = 0;
          last_error = lit "replayed from dead letter";
        })
        d
    else record d { pending_events = d.pending_events ++ replayed_row l now ∷ [] }

abbrev pub delete_letter : ℕ → Db → Db
delete_letter id d = record d { dead_letters = delete (at letter_id id) d.dead_letters }

-- an empty filter lets every target pass
abbrev pub passes : Bytes → Bytes → Bool
passes filter value = is_empty (trim filter) || same value (trim filter)

abbrev pub matches_target : DeadLetterRow → Bytes → Bytes → Bool
matches_target l platform id =
    passes platform l.route.target_platform && passes id l.route.target_id

-- the transaction of `ReplayDeadLetter` from the letter that was found
unfoldable pub replay_letter : DeadLetterRow → Exec Bool
replay_letter l = do
  done ← or_rollback (query (is_processed l.event_id))
  if done
      then (do or_rollback (exec (delete_letter l.dead_letter_id)); commit_tx; pure true)
      else do
        now ← time_now
        or_rollback (exec (upsert_pending l (unix now)))
        or_rollback (exec (delete_letter l.dead_letter_id))
        commit_tx
        pure true

-- from the row that the id finds
unfoldable pub replay_found : Option DeadLetterRow → Bytes → Bytes → Exec Bool
replay_found none target_platform target_id = rollback_with false
replay_found (some l) target_platform target_id =
    if matches_target l target_platform target_id then replay_letter l else rollback_with false

unfoldable pub replay_dead_letter : ℕ → Bytes → Bytes → Exec Bool
replay_dead_letter id target_platform target_id = do
  begin_tx
  found ← or_rollback (query (λ d. first (at letter_id id) d.dead_letters))
  replay_found found target_platform target_id

-- the queue depth, and how many of the events are being retried
unfoldable pub get_queue_stats : Exec (ℕ × ℕ)
get_queue_stats =
    query λ d. (length d.pending_events, count (λ r. ltb 0 r.retry_count) d.pending_events)
