-- ===== src/Queue/Process.antt =====
-- `processQueuedEvent` and the round of `StartProcessor` of internal/queue/processor.go.
use cross_platform_media_sha.Base.{
  ℕ, ℤ, pos, negsuc, suc, ◌*◌, ◌+◌, ◌-◌, ◌%◌, ◌^◌, ◌==◌, not, ◌&&◌, Option, none, some, List, ◌∷◌,
  ◌++◌, wrap64, pos_part, if◌then◌else◌,
}
use cross_platform_media_sha.Text.{Bytes, Unicode, lit, trim, is_empty}
use cross_platform_media_sha.Models.{MediaEvent, RuleConfig, no_rules, route_of}
use cross_platform_media_sha.Database.Store.{Result, ok, err, Store, second, time_now}
use cross_platform_media_sha.Database.Pending.{Json, QueuedEvent}
use cross_platform_media_sha.Database.Pairings.{Pairing, get_pairing, get_blocked_words}
use cross_platform_media_sha.Database.Digests.{add_digest_event}
use cross_platform_media_sha.Database.Delivery.{reschedule_pending_event, claim_next_pending_event}
use cross_platform_media_sha.Security.RateLimit.{check_rate_limit}
use cross_platform_media_sha.Observability.{register_event_filtered, register_events_forwarded}
use cross_platform_media_sha.Transport.{Consumer, Consumers, get_consumer}
use cross_platform_media_sha.Queue.World.{
  World, Config, Services, ignore, history, apply_formatting,
}
use cross_platform_media_sha.Queue.Words.{contains_blocked_word}
use cross_platform_media_sha.Queue.Failure.{handle_delivery_failure, ack_event, record_simulation}

-- an event that a rule keeps back is settled without being delivered
unfoldable pub filter_out : MediaEvent → Bytes → World → World
unfolding ack_event
filter_out e details w =
    let counted : World = record w { metrics = register_event_filtered w.metrics } in
    ack_event e.event_id (history e.event_id (lit "filtered") details counted)

-- the interval of the digests; 24 hours if it is not positive
abbrev minutes : ℤ → ℤ
minutes (pos n) = wrap64 (n * (60 * second))
minutes (negsuc n) = wrap64 (2 ^ 64 - suc n * (60 * second) % 2 ^ 64)

abbrev digest_interval : RuleConfig → ℕ
digest_interval rules =
    let n = pos_part (minutes rules.digest_interval_minutes) in
    if n == 0 then 24 * 3600 * second else n

abbrev rules_of_pairing : Result Pairing → RuleConfig
rules_of_pairing (ok p) = p.rule_config
rules_of_pairing (err e) = no_rules

abbrev dest_key : MediaEvent → Bytes
dest_key e = e.target_platform ++ lit ":" ++ e.target_id

-- the time of the clock, read at this step
abbrev now_of : World → ℕ
now_of w = w.store.env.clock w.store.step

module _ ⦃j : Json⦄ ⦃u : Unicode⦄ (cfg : Config) (v : Services) (consumers : Consumers) where
  -- what Send has returned
  unfoldable pub settle : QueuedEvent → MediaEvent → Option Bytes → World → World
  unfolding handle_delivery_failure ack_event
  settle q e none w =
      let acked =
        history e.event_id (lit "delivered") (lit "event successfully delivered")
          (ack_event e.event_id w) in
      record acked { metrics = register_events_forwarded 1 acked.metrics; sent = e ∷ acked.sent }
  settle q e (some m) w =
      handle_delivery_failure cfg q (e.target_platform ++ lit " delivery failed: " ++ m) w

  unfoldable pub dispatch : QueuedEvent → MediaEvent → Result Consumer → World → World
  unfolding settle
  dispatch q e (err m) w =
      handle_delivery_failure cfg q (lit "consumer not found for platform " ++ e.target_platform) w
  dispatch q e (ok c) w = settle q e (c.send e w.store.step) w

  -- applyFormatting and what follows; it reads the clock once
  unfoldable pub deliver : QueuedEvent → RuleConfig → World → World
  unfolding dispatch
  deliver q rules w =
      let e = apply_formatting v q.event rules (now_of w) in
      dispatch q e (get_consumer consumers e.target_platform) (ignore time_now w)

  -- a destination over its limit: five seconds later, with the same number of retries
  unfoldable pub back_off : QueuedEvent → World → World
  back_off q w =
      let e = q.event in
      let noted =
        history e.event_id (lit "rate_limited") (lit "destination rate limited: " ++ dest_key e)
          w in
      ignore
        (reschedule_pending_event e.event_id q.retry_count (now_of noted + 5 * second)
          (lit "rate limited"))
        (ignore time_now noted)

  unfoldable pub check_destination : QueuedEvent → RuleConfig → World → World
  unfolding deliver back_off
  check_destination q rules w =
      let r =
        check_rate_limit cfg.dest_rate_limit_max cfg.dest_rate_limit_window w.dest_buckets
          (dest_key q.event) (now_of w) in
      let checked : World = ignore time_now (record w { dest_buckets = r.1 }) in
      if r.0 then deliver q rules checked else back_off q checked

  unfoldable pub queue_digest : QueuedEvent → World → Result (Unit {0}) × Store → World
  unfolding handle_delivery_failure ack_event
  queue_digest q w (ok x, s) = ack_event q.event.event_id (
      history q.event.event_id (lit "digested") (lit "queued for digest delivery")
        (record w { store = s }))
  queue_digest q w (err m, s) =
      handle_delivery_failure cfg q (lit "failed to queue digest: " ++ m) (record w { store = s })

  unfoldable pub digest_or_deliver : QueuedEvent → RuleConfig → World → World
  unfolding check_destination queue_digest
  digest_or_deliver q rules w =
      if rules.digest_enabled
      then queue_digest q w
          (add_digest_event q.event (now_of w + digest_interval rules) (ignore time_now w).store)
      else check_destination q rules w

  unfoldable pub moderate : QueuedEvent → RuleConfig → World → World
  unfolding digest_or_deliver filter_out record_simulation
  moderate q rules w =
      let e = q.event in
      let d = v.evaluate e rules in
      if not (d.enabled && d.blocked)
      then digest_or_deliver q rules w
      else if rules.simulation_mode
      then digest_or_deliver q rules (record_simulation e (lit "ai moderation") w)
      else filter_out e
          (lit "filtered by ai moderation score "
            ++ d.score
            ++ lit " >= "
            ++ d.threshold
            ++ lit " ("
            ++ d.reasons
            ++ lit ")")
          w

  unfoldable pub check_words :
      QueuedEvent → RuleConfig → World → Result (List Bytes) × Store → World
  unfolding moderate handle_delivery_failure
  check_words q rules w (err m, s) =
      handle_delivery_failure cfg q (lit "failed to read blocked words: " ++ m)
        (record w { store = s })
  check_words q rules w (ok words, s) =
      let e = q.event in
      let read : World = record w { store = s } in
      if not (contains_blocked_word e.caption words)
      then moderate q rules read
      else if rules.simulation_mode
      then moderate q rules (record_simulation e (lit "keyword rules") read)
      else filter_out e (lit "filtered by keyword rules") read

  unfoldable pub process_queued_event : QueuedEvent → World → World
  unfolding check_words
  process_queued_event q w =
      let e = q.event in
      let (pairing, s) = get_pairing (route_of e) w.store in
      let paired : World = record w { store = s } in
      if is_empty (trim e.target_id)
      then handle_delivery_failure cfg q (lit "missing target id") paired
      else check_words q (rules_of_pairing pairing) paired (get_blocked_words (route_of e) s)

  -- what the claim of a round has found
  unfoldable pub process_claimed : World → Result (Option QueuedEvent) × Store → World
  unfolding process_queued_event
  process_claimed w (ok (some q), s) = process_queued_event q (record w { store = s })
  process_claimed w (_, s) = record w { store = s }

  -- one round of the loop of `StartProcessor`
  unfoldable pub round : World → World
  unfolding process_claimed
  round w =
      process_claimed w
        (claim_next_pending_event (now_of w) cfg.processing_lease (ignore time_now w).store)
