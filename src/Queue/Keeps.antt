-- ===== src/Queue/Keeps.antt =====
-- Whatever becomes of an event in the processor, it is not lost.
use cross_platform_media_sha.Text.{Bytes, Unicode}
use cross_platform_media_sha.Database.Pending.{Json, QueuedEvent}
use cross_platform_media_sha.Transport.{Consumers}
use cross_platform_media_sha.Queue.World.{World, Config, Services}
use cross_platform_media_sha.Queue.Process.{process_queued_event}
use cross_platform_media_sha.Queue.Steps.{
  Keeps, history-Keeps, time_now-Keeps, get_blocked_words-Keeps, add_digest_event-Keeps, ack-Keeps,
  reschedule-Keeps, bury-Keeps, get_pairing-Keeps,
}
use cross_platform_media_sha.Queue.Carried.{IsCarried, process_queued_event_carried}

Keeps-IsCarried : ⦃j : Json⦄ (k : Bytes) → IsCarried (Keeps k)
Keeps-IsCarried k = record {
  history = history-Keeps k;
  time = time_now-Keeps k;
  words = get_blocked_words-Keeps k;
  digest = add_digest_event-Keeps k;
  ack = ack-Keeps k;
  reschedule = reschedule-Keeps k;
  bury = λ s h id reason. bury-Keeps k s h id reason;
  pairing = get_pairing-Keeps k;
}

-- Whatever the driver refuses and the consumers answer, processing an event loses no event: one
-- that is queued, processed or a dead letter is so afterwards, and no transaction is left open.
pub process_queued_event-Keeps :
    ⦃j : Json⦄ ⦃u : Unicode⦄ (cfg : Config) (v : Services) (consumers : Consumers) (k : Bytes)
    (q : QueuedEvent) (w : World)
    → Keeps k w.store
    → Keeps k (process_queued_event cfg v consumers q w).store
process_queued_event-Keeps cfg v consumers k q w h =
    process_queued_event_carried cfg v consumers (Keeps k) (Keeps-IsCarried k) q w h
