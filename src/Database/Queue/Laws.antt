-- ===== src/Database/Queue/Laws.antt =====
-- The contract of the queue towards its clients: order and leases of claims, idempotent enqueues,
-- acknowledgements, and the way to the dead letters and back.
use cross_platform_media_sha.Base.{
  ℕ, suc, ◌+◌, ap, sym, ◌∙◌, ◌≡◌, ◌≢◌, ◌≤◌, ◌<◌, some, true, false, arith, [], ◌∷◌, ◌++◌,
  if◌then◌else◌,
}
use mathlib.Core.Path.{subst}
use cross_platform_media_sha.Text.{Bytes, trim, same, same_iff, same_refl}
use cross_platform_media_sha.Models.{MediaEvent, bytes_eq}
use cross_platform_media_sha.Database.Table.{
  select, has, update, at, insert_new, has-delete, has-append,
}
use cross_platform_media_sha.Database.Rows.{PendingRow, dedupe_eq}
use cross_platform_media_sha.Database.Store.{Store, ok, unix}
use cross_platform_media_sha.Database.Pending.{
  Json, pending_id, processed_id, is_processed, is_pending, trim_event, enqueue_pending_event,
  pending_row,
}
use cross_platform_media_sha.Database.Delivery.{claim_tx, next_due, ack_pending_event, nat_key}
use cross_platform_media_sha.Database.Queue.Outcomes.{acked}
use cross_platform_media_sha.Database.Queue.Invariant.{has-upsert_processed}
use cross_platform_media_sha.Database.Queue.Claim.{
  IsFirst, next_due-IsFirst, AreLeased, leased-AreLeased, next_due-AreLeased,
}

claimed_row :
    (s : Store) (now lease : ℕ) (r : PendingRow)
    → (claim_tx now lease s).0 ≡ ok (some r)
    → next_due (unix now) s.db.pending_events ≡ some r
unfolding claim_tx
claimed_row s now lease r h = ground arith

claimed_db :
    (s : Store) (now lease : ℕ) (r : PendingRow)
    → (claim_tx now lease s).0 ≡ ok (some r)
    → (claim_tx now lease s).1.db.pending_events
      ≡ update
          (at pending_id r.event_id)
          (λ q. record q { available_at = unix (now + lease) })
          s.db.pending_events
unfolding claim_tx
claimed_db s now lease r h = ground arith

module _ (s : Store) (now lease : ℕ) (r : PendingRow) where
  -- A claimed event is due, and no event that is due stands before it in the order of
  -- `available_at` and then `created_at`.
  pub claim-IsFirst :
      (claim_tx now lease s).0 ≡ ok (some r)
      → (r.available_at ≤ unix now) × IsFirst (unix now) r s.db.pending_events
  claim-IsFirst h = next_due-IsFirst (unix now) s.db.pending_events r (claimed_row s now lease r h)

  -- Until the lease of a claimed event ends, no later claim hands it out again, as long as its row in
  -- the queue is the one that the claim has left, whatever else was done in between. (An event that
  -- is rescheduled or replayed gets another row.)
  pub claim_exclusive :
      (t : Store) (now' lease' : ℕ) (q : PendingRow)
      → (claim_tx now lease s).0 ≡ ok (some r)
      → select (at pending_id r.event_id) t.db.pending_events
        ≡ select (at pending_id r.event_id) (claim_tx now lease s).1.db.pending_events
      → (claim_tx now' lease' t).0 ≡ ok (some q)
      → unix now' < unix (now + lease)
      → q.event_id ≢ r.event_id
  claim_exclusive t now' lease' q h row k l e =
      let leased =
        ap (select (at pending_id r.event_id)) (sym (claimed_db s now lease r h)) ∙ sym row in
      cc (
        (same_iff q.event_id r.event_id).1 e,
        next_due-AreLeased (unix now') r.event_id (unix (now + lease)) t.db.pending_events q l
            (subst (AreLeased (unix (now + lease))) leased
              (leased-AreLeased r.event_id (unix (now + lease)) s.db.pending_events))
            (claimed_row t now' lease' q k),
      )

module _ (s : Store) (id : Bytes) (done : (ack_pending_event id s).0 ≡ ok tt) where
  ack_db : (ack_pending_event id s).1.db ≡ acked (trim id) (unix (s.env.clock (suc s.step))) s.db
  unfolding ack_pending_event
  ack_db = ground arith

  -- An event that was acknowledged is processed and not queued, and no other event is touched.
  pub ack_lem :
      (k : Bytes)
      → (is_processed k (ack_pending_event id s).1.db
          ≡ (if same (trim id) k then true else is_processed k s.db))
        × (is_pending k (ack_pending_event id s).1.db
            ≡ (if same (trim id) k then false else is_pending k s.db))
  ack_lem k = rw ack_db (
    has-upsert_processed (trim id) _ s.db k,
    has-delete pending_id (trim id) k s.db.pending_events,
  )

module _ ⦃j : Json⦄ (s : Store) (e : MediaEvent) (payload : Bytes)
    (encoded : j.encode_event (trim_event e) ≡ ok payload) where
  -- the time at which the event is queued, and its row
  abbrev queued_at : ℕ
  queued_at = unix (s.env.clock s.step)

  -- What an enqueue that says true has found and done: the event was neither processed nor queued,
  -- and its row stands behind the others.
  pub enqueue_accepted :
      (enqueue_pending_event e s).0 ≡ ok true
      → (is_processed (trim e.event_id) s.db ≡ false)
        × (is_pending (trim e.event_id) s.db ≡ false)
        × ((enqueue_pending_event e s).1.db.pending_events
            ≡ s.db.pending_events ++ pending_row (trim_event e) payload queued_at ∷ [])
        × ((enqueue_pending_event e s).1.db.processed_events ≡ s.db.processed_events)
  unfolding enqueue_pending_event insert_new
  enqueue_accepted h = ground arith

  -- An enqueue that says false has queued nothing.
  pub enqueue_refused :
      (enqueue_pending_event e s).0 ≡ ok false
      → ((enqueue_pending_event e s).1.db.pending_events ≡ s.db.pending_events)
        × ((enqueue_pending_event e s).1.db.processed_events ≡ s.db.processed_events)
  unfolding enqueue_pending_event insert_new
  enqueue_refused h = ground arith

  -- an event that is marked as processed is not queued, whatever the driver refuses
  enqueue_processed :
      is_processed (trim e.event_id) s.db ≡ true
      → ((enqueue_pending_event e s).0 ≢ ok true) × ((enqueue_pending_event e s).1.db ≡ s.db)
  unfolding enqueue_pending_event insert_new
  enqueue_processed h = (ground arith, ground arith)

  -- an event that is queued is not queued again
  enqueue_pending :
      is_pending (trim e.event_id) s.db ≡ true
      → ((enqueue_pending_event e s).0 ≢ ok true)
        × ((enqueue_pending_event e s).1.db.pending_events ≡ s.db.pending_events)
  unfolding enqueue_pending_event insert_new
  enqueue_pending h = (ground arith, ground arith)

module _ ⦃j : Json⦄ (s : Store) (e : MediaEvent) (payload : Bytes)
    (encoded : j.encode_event (trim_event e) ≡ ok payload) where
  -- As long as the table of the processed events is as an acknowledgement has left it, an enqueue of
  -- the event changes nothing in the database and does not say that it was queued, under whatever
  -- spaces its id comes, and whatever else was done in between. The event can be encoded.
  pub enqueue-ack :
      (id : Bytes) (t : Store)
      → trim e.event_id ≡ trim id
      → (ack_pending_event id s).0 ≡ ok tt
      → t.db.processed_events ≡ (ack_pending_event id s).1.db.processed_events
      → ((enqueue_pending_event e t).0 ≢ ok true) × ((enqueue_pending_event e t).1.db ≡ t.db)
  enqueue-ack id t same_id done same_rows =
      let marked =
        ap (λ k. has processed_id k t.db.processed_events) same_id
        ∙ ap (has processed_id (trim id)) same_rows
        ∙ (ack_lem s id done (trim id)).0
        ∙ ap (λ b. if b then true else is_processed (trim id) s.db) (same_refl (trim id)) in
      enqueue_processed t e payload encoded marked

  -- Of two enqueues of one event id in a row of which the first says that it queued the event, the
  -- queue gets one row, that of the first, behind the rows that were there; the second does not say
  -- that it queued the event. Both events can be encoded.
  pub enqueue_once :
      (e' : MediaEvent) (payload' : Bytes)
      → j.encode_event (trim_event e') ≡ ok payload'
      → trim e'.event_id ≡ trim e.event_id
      → (enqueue_pending_event e s).0 ≡ ok true
      → ((enqueue_pending_event e' (enqueue_pending_event e s).1).0 ≢ ok true)
        × ((enqueue_pending_event e' (enqueue_pending_event e s).1).1.db.pending_events
            ≡ s.db.pending_events
              ++ pending_row (trim_event e) payload (unix (s.env.clock s.step)) ∷ [])
  enqueue_once e' payload' encoded' same_id h =
      let (_, _, rows, _) = enqueue_accepted s e payload encoded h in
      let t = (enqueue_pending_event e s).1 in
      let row = pending_row (trim_event e) payload (unix (s.env.clock s.step)) in
      let found : is_pending (trim e'.event_id) t.db ≡ true =
        ap (λ k. has pending_id k t.db.pending_events) same_id
        ∙ ap (has pending_id (trim e.event_id)) rows
        ∙ has-append pending_id (trim e.event_id) s.db.pending_events row
        ∙ ground (arith, same_refl (trim e.event_id)) in
      let (unsaid, kept) = enqueue_pending t e' payload' encoded' found in (unsaid, kept ∙ rows)
