-- ===== src/Queue/Ready.antt =====
-- A round of the processor and a tick of the digest scheduler leave the store ready: no transaction
-- stays open, the queue stays sound, and an event that is watched is not lost.
use cross_platform_media_sha.Base.{
  ℕ, ◌≡◌, Option, none, some, List, [], ◌∷◌, ◌++◌, ◌==◌, inl, inr, Bool-cases,
}
use cross_platform_media_sha.Text.{Bytes, Unicode, lit, decimal}
use cross_platform_media_sha.Models.{MediaEvent, Route}
use cross_platform_media_sha.Database.Rows.{DigestRow}
use cross_platform_media_sha.Database.Store.{Store, Exec, Result, ok, err, time_now}
use cross_platform_media_sha.Database.Pending.{Json, QueuedEvent}
use cross_platform_media_sha.Database.Pairings.{Pairing, get_pairing, get_blocked_words, words_of}
use cross_platform_media_sha.Database.Listings.{DigestGroup, list_digest_groups_due}
use cross_platform_media_sha.Database.Delivery.{
  ack_pending_event, reschedule_pending_event, move_pending_event_to_dead_letter,
  claim_next_pending_event,
}
use cross_platform_media_sha.Database.Digests.{
  list_digest_events_for_group, delete_digest_events_for_group,
}
use cross_platform_media_sha.Database.Frame.{Changes, SparesQueue-frame, Unchanged, Changes-query}
use cross_platform_media_sha.Database.Frames.{
  Spares-insert_event_history, Spares-add_digest_event, Spares-delete_digest_events_for_group,
}
use cross_platform_media_sha.Database.Queue.Run.{
  Call, perform, claim, ack, reschedule, bury, state-error_of,
}
use cross_platform_media_sha.Security.RateLimit.{check_rate_limit}
use cross_platform_media_sha.Transport.{Consumer, Consumers, get_consumer}
use cross_platform_media_sha.Producer.Sound.{
  IsReady, Changes-IsReady, perform-IsReady, time_now-IsReady,
}
use cross_platform_media_sha.Queue.World.{World, Config, Services, ignore, history}
use cross_platform_media_sha.Queue.Process.{process_claimed, round}
use cross_platform_media_sha.Queue.Carried.{IsCarried, process_queued_event_carried}
use cross_platform_media_sha.Queue.Entries.{get_pairing-Unchanged, list_entries-Unchanged}
use cross_platform_media_sha.Queue.Digest.{
  digest_event, build_digest_event_id, build_digest_message, max_items, now_of, settle_digest,
  send_digest, summarize, with_entries, with_pairing, process_group, process_groups, with_groups,
  process_digests, digest_batch_limit,
}

-- An action that changes nothing leaves the store ready.
pub Unchanged-IsReady :
    {watched : Option Bytes} {A : Type 0} (m : Exec A)
    → Changes Unchanged m
    → (s : Store) → IsReady watched s
    → IsReady watched (m s).1
Unchanged-IsReady m k s h =
    Changes-IsReady m
      (record { within = λ t. rw (k.within t) (SparesQueue-frame.same t.db); same_tx = k.same_tx })
      s h

module _ ⦃j : Json⦄ {watched : Option Bytes} where
  -- a call of the queue, as the processor makes it
  call-IsReady :
      {A : Type 0} (c : Call) (m : Exec A) (s : Store)
      → (perform c s).1 ≡ (m s).1
      → IsReady watched s
      → IsReady watched (m s).1
  call-IsReady c m s e h = rw e at (perform-IsReady watched c s h)

  IsReady-IsCarried : IsCarried (IsReady watched)
  unfolding perform get_blocked_words
  IsReady-IsCarried = record {
    history = λ s h id status details.
        Changes-IsReady _ (Spares-insert_event_history id status details) s h;
    time = time_now-IsReady;
    words = λ s h r. Changes-IsReady _ (Changes-query SparesQueue-frame (words_of r)) s h;
    digest = λ s h e t. Changes-IsReady _ (Spares-add_digest_event e t) s h;
    ack = λ s h id. call-IsReady (ack id) (ack_pending_event id) s (state-error_of _) h;
    reschedule = λ s h id n t reason.
        call-IsReady (reschedule id n t reason) (reschedule_pending_event id n t reason) s
          (state-error_of _) h;
    bury = λ s h id reason.
        call-IsReady (bury id reason) (move_pending_event_to_dead_letter id reason) s
          (state-error_of _) h;
    pairing = λ s h r. Unchanged-IsReady (get_pairing r) (get_pairing-Unchanged r) s h;
  }

  module _ ⦃u : Unicode⦄ (cfg : Config) (v : Services) (consumers : Consumers) where
    claimed-IsReady :
        (w : World) (p : Result (Option QueuedEvent) × Store)
        → IsReady watched p.1
        → IsReady watched (process_claimed cfg v consumers w p).store
    unfolding process_claimed
    claimed-IsReady w (ok (some q), s) h =
        process_queued_event_carried cfg v consumers (IsReady watched) IsReady-IsCarried q
          (record w { store = s }) h
    claimed-IsReady w (ok none, s) h = h
    claimed-IsReady w (err m, s) h = h

    -- A round of the processor
    pub round-IsReady :
        (w : World) → IsReady watched w.store → IsReady watched (round cfg v consumers w).store
    unfolding round perform
    round-IsReady w h =
        let now = w.store.env.clock w.store.step in
        let ask = claim_next_pending_event now cfg.processing_lease in
        let t = (ignore time_now w).store in
        claimed-IsReady w (ask t) (
          call-IsReady (claim now cfg.processing_lease) ask t (state-error_of _)
            (time_now-IsReady w.store h))

  history-IsReady :
      (id status details : Bytes) (w : World)
      → IsReady watched w.store
      → IsReady watched (history id status details w).store
  history-IsReady id status details w h =
      Changes-IsReady _ (Spares-insert_event_history id status details) w.store h

  module _ (cfg : Config) (consumers : Consumers) (now : ℕ) where
    settle_digest-IsReady :
        (r : Route) (e : MediaEvent) (total : ℕ) (a : Option Bytes) (w : World)
        → IsReady watched w.store
        → IsReady watched (settle_digest cfg consumers now r e total a w).store
    unfolding settle_digest
    settle_digest-IsReady r e total (some m) w h =
        history-IsReady e.event_id (lit "digest_failed") m w h
    settle_digest-IsReady r e total none w h =
        history-IsReady e.event_id (lit "digest_sent")
          (lit "digest sent with " ++ decimal total ++ lit " items")
          (ignore (delete_digest_events_for_group r now) (record w { sent = e ∷ w.sent }))
          (Changes-IsReady _ (Spares-delete_digest_events_for_group r now) w.store h)

    send_digest-IsReady :
        (r : Route) (e : MediaEvent) (total : ℕ) (c : Result Consumer) (w : World)
        → IsReady watched w.store
        → IsReady watched (send_digest cfg consumers now r e total c w).store
    unfolding send_digest
    send_digest-IsReady r e total (err m) w h = h
    send_digest-IsReady r e total (ok c) w h = settle_digest-IsReady r e total _ w h

    summarize-IsReady :
        (r : Route) (events : List DigestRow) (total : ℕ) (w : World)
        → IsReady watched w.store
        → IsReady watched (summarize cfg consumers now r events total w).store
    unfolding summarize
    summarize-IsReady r events total w h =
        let e =
          digest_event r (build_digest_event_id r (now_of w))
            (build_digest_message r events total) in
        let named = ignore time_now w in
        let key = r.target_platform ++ lit ":" ++ r.target_id in
        let checked =
          check_rate_limit cfg.dest_rate_limit_max cfg.dest_rate_limit_window named.dest_buckets key
            (now_of named) in
        let counted : World = ignore time_now (record named { dest_buckets = checked.1 }) in
        let h' : IsReady watched counted.store = time_now-IsReady _ (time_now-IsReady w.store h) in
        elim (Bool-cases (total == 0)) [
          | inl z ↦ rw z h
          | inr z ↦ rw z (elim (Bool-cases checked.0) [
            | inr q ↦ rw q h'
            | inl q ↦ rw q (
                send_digest-IsReady r e total (get_consumer consumers r.target_platform) counted h')
          ])
        ]

    with_entries-IsReady :
        (r : Route) (w : World) (p : Result (List DigestRow × ℕ) × Store)
        → IsReady watched p.1
        → IsReady watched (with_entries cfg consumers now r w p).store
    unfolding with_entries
    with_entries-IsReady r w (err m, s) h = h
    with_entries-IsReady r w (ok (events, total), s) h =
        summarize-IsReady r events total (record w { store = s }) h

    with_pairing-IsReady :
        (r : Route) (w : World) (p : Result Pairing × Store)
        → IsReady watched p.1
        → IsReady watched (with_pairing cfg consumers now r w p).store
    unfolding with_pairing
    with_pairing-IsReady r w (err m, s) h =
        Changes-IsReady _ (Spares-delete_digest_events_for_group r now) s h
    with_pairing-IsReady r w (ok p, s) h =
        let load = list_digest_events_for_group r now (max_items p.rule_config.digest_max_items) in
        with_entries-IsReady r w (load s) (
          Unchanged-IsReady load
            (list_entries-Unchanged r now (max_items p.rule_config.digest_max_items)) s h)

    process_groups-IsReady :
        (gs : List DigestGroup) (w : World)
        → IsReady watched w.store
        → IsReady watched (process_groups cfg consumers now gs w).store
    unfolding process_groups process_group
    process_groups-IsReady [] w h = h
    process_groups-IsReady (g ∷ gs) w h =
        process_groups-IsReady gs (process_group cfg consumers now g.route w) (
          with_pairing-IsReady g.route w (get_pairing g.route w.store)
            (Unchanged-IsReady (get_pairing g.route) (get_pairing-Unchanged g.route) w.store h))

    with_groups-IsReady :
        (w : World) (p : Result (List DigestGroup) × Store)
        → IsReady watched p.1
        → IsReady watched (with_groups cfg consumers now w p).store
    with_groups-IsReady w (err m, s) h = h
    with_groups-IsReady w (ok gs, s) h = process_groups-IsReady gs (record w { store = s }) h

  -- A tick of the digest scheduler
  pub process_digests-IsReady :
      (cfg : Config) (consumers : Consumers) (w : World)
      → IsReady watched w.store
      → IsReady watched (process_digests cfg consumers w).store
  unfolding process_digests list_digest_groups_due
  process_digests-IsReady cfg consumers w h =
      let load = list_digest_groups_due (now_of w) digest_batch_limit in
      with_groups-IsReady cfg consumers (now_of w) w (load (ignore time_now w).store)
        (Changes-IsReady load (Changes-query SparesQueue-frame _) _ (time_now-IsReady w.store h))
