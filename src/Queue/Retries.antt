-- ===== src/Queue/Retries.antt =====
-- What a failed delivery leaves behind, when the driver refuses nothing.
use cross_platform_media_sha.Base.{
  ℕ, suc, ◌≡◌, ◌≤◌, ◌<◌, some, true, false, arith, ◌++◌, ltb, lt→ltb, ap, ◌∙◌,
}
use cross_platform_media_sha.Text.{Bytes, Unicode, lit, decimal, trim, is_empty, same_refl}
use cross_platform_media_sha.Models.{MediaEvent, bytes_eq}
use cross_platform_media_sha.Database.Table.{first, at, has, update, has-delete, has-append}
use cross_platform_media_sha.Database.Rows.{Db, PendingRow}
use cross_platform_media_sha.Database.Store.{Store, ok, unix, NoFaults}
use cross_platform_media_sha.Database.Pending.{Json, QueuedEvent, pending_id, is_pending}
use cross_platform_media_sha.Database.Pairings.{insert_event_history}
use cross_platform_media_sha.Database.Delivery.{
  reschedule_pending_event, move_pending_event_to_dead_letter, letter_of,
}
use cross_platform_media_sha.Database.Queue.Kept.{letter_event}
use cross_platform_media_sha.Database.Queue.Outcomes.{buried, rescheduled}
use cross_platform_media_sha.Queue.World.{World, Config}
use cross_platform_media_sha.Queue.Failure.{
  handle_delivery_failure, give_up, retry_later, backoff, add_duration, reason_of,
}

module _ ⦃j : Json⦄ (id reason : Bytes) (s : Store) (r : PendingRow) (e : MediaEvent) where
  bury_succeeds :
      NoFaults s
      → is_empty (trim id) ≡ false
      → first (at pending_id (trim id)) s.db.pending_events ≡ some r
      → j.decode_event r.payload ≡ ok e
      → (move_pending_event_to_dead_letter id reason s).1.db
        ≡ buried (trim id) r e reason (unix (s.env.clock (suc (suc s.step)))) s.db
  unfolding move_pending_event_to_dead_letter
  bury_succeeds nf named found decoded =
      let n = s.step in
      ground (
        arith,
        nf n,
        nf (suc n),
        nf (suc (suc n)),
        nf (suc (suc (suc n))),
        nf (suc (suc (suc (suc n)))),
        nf (suc (suc (suc (suc (suc n))))),
      )

history_rows :
    (id status details : Bytes) (s : Store)
    → ((insert_event_history id status details s).1.db.pending_events ≡ s.db.pending_events)
      × ((insert_event_history id status details s).1.env ≡ s.env)
unfolding insert_event_history
history_rows id status details s = ground arith

module _ (id reason : Bytes) (n t : ℕ) (s : Store) where
  reschedule_succeeds :
      NoFaults s
      → is_empty (trim id) ≡ false
      → (reschedule_pending_event id n t reason s).1.db
        ≡ rescheduled (trim id) n (unix t) reason s.db
  unfolding reschedule_pending_event
  reschedule_succeeds nf named = ground (arith, nf s.step)

history-NoFaults :
    (id status details : Bytes) (s : Store)
    → NoFaults s
    → NoFaults (insert_event_history id status details s).1
history-NoFaults id status details s nf n =
    ap (λ v. v.fault n) (history_rows id status details s).1 ∙ nf n

buried_rows :
    (id : Bytes) (r : PendingRow) (e : MediaEvent) (reason : Bytes) (now : ℕ) (d : Db)
    → (is_pending id (buried id r e reason now d) ≡ false)
      × (has letter_event id (buried id r e reason now d).dead_letters ≡ true)
buried_rows id r e reason now d = ground (
  arith,
  has-delete pending_id id id d.pending_events,
  has-append letter_event id d.dead_letters (letter_of id r e reason now d),
  same_refl id,
)

module _ ⦃j : Json⦄ ⦃u : Unicode⦄ (cfg : Config) (q : QueuedEvent) (reason : Bytes)
    (w : World) where
  abbrev id : Bytes
  id = trim q.event.event_id

  give_up_rows :
      (m : Bytes) (r : PendingRow) (e : MediaEvent)
      → NoFaults w.store
      → is_empty id ≡ false
      → first (at pending_id id) w.store.db.pending_events ≡ some r
      → j.decode_event r.payload ≡ ok e
      → (is_pending id (give_up q m w).store.db ≡ false)
        × (has letter_event id (give_up q m w).store.db.dead_letters ≡ true)
  unfolding give_up
  give_up_rows m r e nf named found decoded =
      let name = q.event.event_id in
      let note = lit "max retries exceeded: " ++ m in
      let s = (insert_event_history name (lit "dead_letter") note w.store).1 in
      let same_rows = history_rows name (lit "dead_letter") note w.store in
      let still = ap (first (at pending_id id)) same_rows.0 ∙ found in
      let moved =
        bury_succeeds name m s r e (history-NoFaults name (lit "dead_letter") note w.store nf) named
          still decoded in
      rw moved (buried_rows id r e m (unix (s.env.clock (suc (suc s.step)))) s.db)

  -- An event whose retries are used up leaves the queue for the dead letters at its next failure,
  -- when the driver refuses nothing and the event's payload can be decoded.
  pub handle_delivery_failure-last :
      (r : PendingRow) (e : MediaEvent)
      → NoFaults w.store
      → is_empty id ≡ false
      → first (at pending_id id) w.store.db.pending_events ≡ some r
      → j.decode_event r.payload ≡ ok e
      → cfg.max_delivery_retries ≤ q.retry_count
      → let d = (handle_delivery_failure cfg q reason w).store.db in
        (is_pending id d ≡ false) × (has letter_event id d.dead_letters ≡ true)
  unfolding handle_delivery_failure
  handle_delivery_failure-last r e nf named found decoded used_up =
      let test = lt→ltb cfg.max_delivery_retries (suc q.retry_count) (omega (arith, used_up)) in
      rw test (give_up_rows (reason_of reason) r e nf named found decoded)

  retry_later_rows :
      (m : Bytes)
      → NoFaults w.store
      → is_empty id ≡ false
      → (retry_later cfg q m w).store.db.pending_events
        ≡ (rescheduled id
            (suc q.retry_count)
            (unix (
              add_duration
                (w.store.env.clock w.store.step)
                (backoff cfg.retry_base_delay q.retry_count)))
            m
            w.store.db).pending_events
  unfolding retry_later
  retry_later_rows m nf named =
      let name = q.event.event_id in
      let t =
        add_duration (w.store.env.clock w.store.step)
          (backoff cfg.retry_base_delay q.retry_count) in
      let note =
        lit "delivery failed, scheduling retry " ++ decimal (suc q.retry_count) ++ lit ": " ++ m in
      let s0 : Store = record (w.store) { step = suc w.store.step } in
      let s = (insert_event_history name (lit "retry") note s0).1 in
      let rows = (history_rows name (lit "retry") note s0).0 in
      let done =
        reschedule_succeeds name m (suc q.retry_count) t s
          (history-NoFaults name (lit "retry") note s0 nf) named in
      ap (λ (d : Db). d.pending_events) done
      ∙ ap
          (update (at pending_id id) (λ (p : PendingRow). record p {
            retry_count = suc q.retry_count;
            available_at = unix t;
            last_error = trim m;
          }))
          rows

  -- Before, the event stays in the queue with one retry more, and is due again after the delay of
  -- that retry, when the driver refuses nothing.
  pub handle_delivery_failure-retry :
      NoFaults w.store
      → is_empty id ≡ false
      → q.retry_count < cfg.max_delivery_retries
      → (handle_delivery_failure cfg q reason w).store.db.pending_events
        ≡ (rescheduled id
            (suc q.retry_count)
            (unix (
              add_duration
                (w.store.env.clock w.store.step)
                (backoff cfg.retry_base_delay q.retry_count)))
            (reason_of reason)
            w.store.db).pending_events
  unfolding handle_delivery_failure
  handle_delivery_failure-retry nf named left =
      let test : ltb cfg.max_delivery_retries (suc q.retry_count) ≡ false = ground (arith, left) in
      rw test (retry_later_rows (reason_of reason) nf named)
