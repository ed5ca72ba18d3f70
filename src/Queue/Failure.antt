-- ===== src/Queue/Failure.antt =====
-- `handleDeliveryFailure`, `ackEvent` and `recordSimulation` of internal/queue/processor.go.
use cross_platform_media_sha.Base.{
  ℕ, ℤ, pos, negsuc, zero, suc, ◌+◌, ◌-◌, ◌*◌, ◌^◌, ◌%◌, ◌≡◌, ◌≤◌, ◌<◌, ◌++◌, ltb, arith, wrap64,
  pos_part, if◌then◌else◌, ap, ◌∙◌,
}
use cross_platform_media_sha.Text.{Bytes, Unicode, lit, trim, is_empty, decimal}
use cross_platform_media_sha.Models.{MediaEvent}
use cross_platform_media_sha.Database.Store.{second, time_now}
use cross_platform_media_sha.Database.Pending.{Json, QueuedEvent}
use cross_platform_media_sha.Database.Delivery.{
  ack_pending_event, reschedule_pending_event, move_pending_event_to_dead_letter,
}
use cross_platform_media_sha.Observability.{register_delivery_failure}
use cross_platform_media_sha.Queue.World.{World, Config, ignore, history}

abbrev pub reason_of : Bytes → Bytes
reason_of reason = if is_empty (trim reason) then lit "unknown delivery failure" else trim reason

abbrev pub max_backoff : ℕ
max_backoff = 300 * second

-- retryBaseDelay * time.Duration(1<<(nextRetry-1)), where the shift and the product are int64
abbrev pub shift : ℕ → ℕ → ℤ
shift base n = wrap64 (base * (2 ^ n % 2 ^ 64))

-- the delay before retry number `suc n`, capped
unfoldable pub backoff : ℕ → ℕ → ℤ
unfolding wrap64
backoff base n = if ltb max_backoff (pos_part (shift base n)) then pos max_backoff else shift base n

-- time.Time.Add
abbrev pub add_duration : ℕ → ℤ → ℕ
add_duration t (pos d) = t + d
add_duration t (negsuc d) = t - suc d

unfoldable pub ack_event : Bytes → World → World
ack_event event_id = ignore (ack_pending_event event_id)

unfoldable pub record_simulation : MediaEvent → Bytes → World → World
record_simulation e rule =
    history e.event_id (lit "simulated_filter")
      (lit "simulation mode: " ++ trim rule ++ lit " would block")

module _ ⦃j : Json⦄ where
  unfoldable pub give_up : QueuedEvent → Bytes → World → World
  give_up q reason w =
      ignore (move_pending_event_to_dead_letter q.event.event_id reason)
        (history q.event.event_id (lit "dead_letter") (lit "max retries exceeded: " ++ reason) w)

-- time.Now() is read before the history is written
unfoldable pub retry_later : Config → QueuedEvent → Bytes → World → World
retry_later cfg q reason w =
    let delay = backoff cfg.retry_base_delay q.retry_count in
    let now = w.store.env.clock w.store.step in
    ignore
      (reschedule_pending_event q.event.event_id (suc q.retry_count) (add_duration now delay)
        reason)
      (history q.event.event_id (lit "retry")
        (lit "delivery failed, scheduling retry "
          ++ decimal (suc q.retry_count)
          ++ lit ": "
          ++ reason)
        (ignore time_now w))

module _ ⦃j : Json⦄ ⦃u : Unicode⦄ where
  unfoldable pub handle_delivery_failure : Config → QueuedEvent → Bytes → World → World
  unfolding give_up retry_later
  handle_delivery_failure cfg q reason w =
      let counted : World = record w { metrics = register_delivery_failure reason w.metrics } in
      if ltb cfg.max_delivery_retries (suc q.retry_count)
      then give_up q (reason_of reason) counted
      else retry_later cfg q (reason_of reason) counted

mod_small : (n : ℕ) → n < 2 ^ 64 → n % 2 ^ 64 ≡ n
mod_small n h = omega arith

wrap64_lem : (n : ℕ) → n < 2 ^ 63 → wrap64 n ≡ pos n
unfolding wrap64
wrap64_lem n h = ground (arith, mod_small n (omega (arith, h)))

factor_le : (base x : ℕ) → 0 < base → x ≤ base * x
factor_le zero x h = omega arith
factor_le (suc b) x h = omega arith

-- While the delay fits in an int64, it is the base delay doubled for each retry, and at most five
-- minutes.
pub backoff_lem :
    (base n : ℕ)
    → 0 < base
    → base * 2 ^ n < 2 ^ 63
    → backoff base n ≡ pos (if ltb max_backoff (base * 2 ^ n) then max_backoff else base * 2 ^ n)
unfolding backoff
backoff_lem base n some_base h =
    let small : 2 ^ n < 2 ^ 64 = omega (arith, factor_le base (2 ^ n) some_base, h) in
    let exact : shift base n ≡ pos (base * 2 ^ n) =
      ap (λ k. wrap64 (base * k)) (mod_small (2 ^ n) small) ∙ wrap64_lem (base * 2 ^ n) h in
    rw exact (ground arith)
