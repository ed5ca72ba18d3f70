-- ===== src/Queue/Carried.antt =====
-- What the calls that the processor makes of the database keep, the processor keeps: the properties of
-- the store that each of them carries on are carried on by the whole.
use cross_platform_media_sha.Base.{
  ℕ, suc, none, some, true, false, Option, List, Bool, if◌then◌else◌, ltb,
}
use cross_platform_media_sha.Text.{Bytes, Unicode, lit}
use cross_platform_media_sha.Models.{MediaEvent, RuleConfig, Route, route_of}
use cross_platform_media_sha.Database.Store.{Store, Result, ok, err, time_now}
use cross_platform_media_sha.Database.Pending.{Json, QueuedEvent}
use cross_platform_media_sha.Database.Pairings.{
  get_pairing, get_blocked_words, insert_event_history,
}
use cross_platform_media_sha.Database.Digests.{add_digest_event}
use cross_platform_media_sha.Database.Delivery.{
  ack_pending_event, reschedule_pending_event, move_pending_event_to_dead_letter,
}
use cross_platform_media_sha.Transport.{Consumer, Consumers, get_consumer}
use cross_platform_media_sha.Queue.World.{World, Config, Services}
use cross_platform_media_sha.Queue.Failure.{handle_delivery_failure, record_simulation}
use cross_platform_media_sha.Queue.Process.{
  filter_out, settle, dispatch, check_destination, queue_digest, digest_or_deliver, moderate,
  check_words, process_queued_event,
}

-- A property of the store that each call of the processor carries on.
pub record IsCarried ⦃j : Json⦄ (P : Store → Type 0) : Type 0 where
  pub history :
      (s : Store)
      → P s
      → (id status details : Bytes) → P (insert_event_history id status details s).1
  pub time : (s : Store) → P s → P (time_now s).1
  pub words : (s : Store) → P s → (r : Route) → P (get_blocked_words r s).1
  pub digest : (s : Store) → P s → (e : MediaEvent) (t : ℕ) → P (add_digest_event e t s).1
  pub ack : (s : Store) → P s → (id : Bytes) → P (ack_pending_event id s).1
  pub reschedule :
      (s : Store)
      → P s
      → (id : Bytes) (n t : ℕ) (reason : Bytes) → P (reschedule_pending_event id n t reason s).1
  pub bury :
      (s : Store) → P s → (id reason : Bytes) → P (move_pending_event_to_dead_letter id reason s).1
  pub pairing : (s : Store) → P s → (r : Route) → P (get_pairing r s).1

if_carried :
    (P : Store → Type 0) (b : Bool) (x y : World)
    → P x.store
    → P y.store
    → P (if b then x else y).store
if_carried P true x y h g = h
if_carried P false x y h g = g

module _ ⦃j : Json⦄ ⦃u : Unicode⦄ (cfg : Config) (v : Services) (consumers : Consumers)
    (P : Store → Type 0) (c : IsCarried P) (q : QueuedEvent) where
  filter_out_carried :
      (details : Bytes) (w : World) → P w.store → P (filter_out q.event details w).store
  unfolding filter_out
  filter_out_carried details w h = c.ack _ (c.history w.store h _ _ _) _

  failure_carried :
      (reason : Bytes) (w : World) → P w.store → P (handle_delivery_failure cfg q reason w).store
  unfolding handle_delivery_failure
  failure_carried reason w h =
      if_carried P (ltb cfg.max_delivery_retries (suc q.retry_count)) _ _
        (c.bury _ (c.history _ h _ _ _) _ _)
        (c.reschedule _ (c.history _ (c.time _ h) _ _ _) _ _ _ _)

  settle_carried :
      (e : MediaEvent) (r : Option Bytes) (w : World)
      → P w.store
      → P (settle cfg v consumers q e r w).store
  unfolding settle
  settle_carried e none w h = c.history _ (c.ack w.store h _) _ _ _
  settle_carried e (some m) w h = failure_carried _ w h

  dispatch_carried :
      (e : MediaEvent) (c : Result Consumer) (w : World)
      → P w.store
      → P (dispatch cfg v consumers q e c w).store
  unfolding dispatch
  dispatch_carried e (ok c) w h = settle_carried e _ w h
  dispatch_carried e (err m) w h = failure_carried _ w h

  check_destination_carried :
      (rules : RuleConfig) (w : World)
      → P w.store
      → P (check_destination cfg v consumers q rules w).store
  unfolding check_destination
  check_destination_carried rules w h =
      let read = c.time w.store h in
      if_carried P _ _ _ (dispatch_carried _ (get_consumer consumers _) _ (c.time _ read))
        (c.reschedule _ (c.time _ (c.history _ read _ _ _)) _ _ _ _)

  queue_digest_carried :
      (w : World) (r : Result (Unit {0}) × Store)
      → P r.1
      → P (queue_digest cfg v consumers q w r).store
  unfolding queue_digest
  queue_digest_carried w (ok x, s) h = c.ack _ (c.history s h _ _ _) _
  queue_digest_carried w (err m, s) h = failure_carried _ _ h

  digest_or_deliver_carried :
      (rules : RuleConfig) (w : World)
      → P w.store
      → P (digest_or_deliver cfg v consumers q rules w).store
  unfolding digest_or_deliver
  digest_or_deliver_carried rules w h =
      if_carried P rules.digest_enabled _ _
        (queue_digest_carried w _ (c.digest _ (c.time w.store h) _ _))
        (check_destination_carried rules w h)

  moderate_carried :
      (rules : RuleConfig) (w : World) → P w.store → P (moderate cfg v consumers q rules w).store
  unfolding moderate record_simulation
  moderate_carried rules w h = if_carried P _ _ _ (digest_or_deliver_carried rules w h) (
      if_carried P rules.simulation_mode _ _
        (digest_or_deliver_carried rules _ (c.history _ h _ _ _)) (filter_out_carried _ w h))

  check_words_carried :
      (rules : RuleConfig) (w : World) (r : Result (List Bytes) × Store)
      → P r.1
      → P (check_words cfg v consumers q rules w r).store
  unfolding check_words record_simulation
  check_words_carried rules w (err m, s) h = failure_carried _ _ h
  check_words_carried rules w (ok words, s) h =
      let read : World = record w { store = s } in
      let noted = record_simulation q.event (lit "keyword rules") read in
      if_carried P _ _ _ (moderate_carried rules read h) (
        if_carried P rules.simulation_mode _ _ (moderate_carried rules noted (c.history _ h _ _ _))
          (filter_out_carried _ read h))

  -- The processing of an event carries on the property.
  pub process_queued_event_carried :
      (w : World) → P w.store → P (process_queued_event cfg v consumers q w).store
  unfolding process_queued_event
  process_queued_event_carried w h =
      let paired = c.pairing w.store h (route_of q.event) in
      let w' : World = record w { store = (get_pairing (route_of q.event) w.store).1 } in
      if_carried P _ _ _ (failure_carried _ w' paired)
        (check_words_carried _ w' _ (c.words _ paired (route_of q.event)))
