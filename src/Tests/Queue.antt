-- ===== src/Tests/Queue.antt =====
-- The processor of internal/queue at work.
use cross_platform_media_sha.Base.{◌≤◌, ◌≢◌, ◌-◌, ◌&&◌, leb}
use cross_platform_media_sha.Observability.Endpoints.{
  Settings, ready_handler, reachable, ready_handler_iff,
}
use cross_platform_media_sha.Base.{
  ℕ, pos, ◌*◌, ◌≡◌, ◌↔◌, ◌⊎◌, refl, true, false, none, some, [], ◌∷◌, arith, length,
}
use cross_platform_media_sha.Text.{Bytes, lit, same, trim, to_lower, contains}
use cross_platform_media_sha.Models.{bytes_eq, same_route, MediaEvent, route_of}
use cross_platform_media_sha.Database.Rows.{empty_db, DigestRow}
use cross_platform_media_sha.Queue.Digest.{process_digests, process_group}
use cross_platform_media_sha.Queue.Entries.{process_group_entries}
use cross_platform_media_sha.Database.Table.{first, has, select, delete, count}
use cross_platform_media_sha.Database.Store.{second, err, unix}
use cross_platform_media_sha.Database.Pending.{QueuedEvent, is_pending}
use cross_platform_media_sha.Database.Queue.Kept.{letter_event}
use cross_platform_media_sha.Database.Queue.Outcomes.{rescheduled}
use cross_platform_media_sha.Transport.{Consumer, Consumers, get_consumer}
use cross_platform_media_sha.Queue.World.{World, Services, default_config, apply_formatting}
use cross_platform_media_sha.Queue.Words.{contains_blocked_word, has_word}
use cross_platform_media_sha.Queue.Failure.{handle_delivery_failure, backoff, backoff_lem}
use cross_platform_media_sha.Queue.Process.{process_queued_event, round}
use cross_platform_media_sha.Queue.Steps.{Keeps}
use cross_platform_media_sha.Queue.Keeps.{process_queued_event-Keeps}
use cross_platform_media_sha.Queue.Retries.{
  handle_delivery_failure-last, handle_delivery_failure-retry,
}
use cross_platform_media_sha.Database.Delivery.{claim_next_pending_event, next_due}
use cross_platform_media_sha.Database.Pairings.{
  insert_event_history, get_blocked_words, get_pairing, sort_words,
}
use cross_platform_media_sha.Security.RateLimit.{check_rate_limit, lookup}
use cross_platform_media_sha.Observability.{is_reconnect_like}
use cross_platform_media_sha.Tests.Data.{ascii, photo, id_json, busy, waiting, start}

-- nothing is moderated
abbrev pub services : Services
services = record {
  evaluate =
      λ e c. record { enabled = false; blocked = false; score = []; threshold = []; reasons = [] };
  format_time = λ t. lit "00:00";
}

abbrev discord : Consumer
discord = record { platform_id = lit "discord"; send = λ e n. none }

abbrev pub broken : Consumer
broken = record { platform_id = lit "discord"; send = λ e n. some (lit "timeout") }

abbrev pub registry : Consumer → Consumers
registry c = (lit "discord", c) ∷ []

abbrev world : ℕ → World
world n = record {
  store = busy n;
  dest_buckets = [];
  metrics = record {
    forwarded_events_total = 0;
    failed_events_total = 0;
    filtered_events_total = 0;
    reconnect_streak = 0;
  };
  sent = [];
}

abbrev taken : ℕ → QueuedEvent
taken n = record { event = photo; retry_count = n }

-- one round delivers the event
delivered : length (round default_config services (registry discord) (world 0)).sent ≡ 1
unfolding round claim_next_pending_event next_due trim get_blocked_words get_pairing select
    contains_blocked_word has_word sort_words check_rate_limit lookup get_consumer same
    apply_formatting
delivered = refl

-- and with a consumer that fails it waits for its first retry
waits : (round default_config services (registry broken) (world 0)).metrics.reconnect_streak ≡ 1
unfolding round claim_next_pending_event next_due trim get_blocked_words get_pairing select
    contains_blocked_word has_word sort_words check_rate_limit lookup get_consumer same
    apply_formatting is_reconnect_like contains to_lower
waits = refl

busy-Keeps : (n : ℕ) → Keeps (lit "e1") (busy n)
unfolding has same
busy-Keeps n = record { closed = refl; kept = refl }

process_queued_event-Keeps_example :
    Keeps
      (lit "e1")
      (process_queued_event default_config services (registry broken) (taken 1) (world 1)).store
process_queued_event-Keeps_example =
    process_queued_event-Keeps default_config services (registry broken) (lit "e1") (taken 1)
      (world 1) (busy-Keeps 1)

handle_delivery_failure-last_example :
    let d = (handle_delivery_failure default_config (taken 5) (lit "gone") (world 5)).store.db in
    (is_pending (lit "e1") d ≡ false) × (has letter_event (lit "e1") d.dead_letters ≡ true)
unfolding trim first same
handle_delivery_failure-last_example =
    handle_delivery_failure-last default_config (taken 5) (lit "gone") (world 5) (waiting 5)
      (record photo { event_id = lit "e1" }) (λ n. refl) refl refl refl (omega arith)

handle_delivery_failure-retry_example :
    (handle_delivery_failure default_config
      (taken 1)
      (lit "gone")
      (world 1)).store.db.pending_events
    ≡ (rescheduled (lit "e1") 2 1004 (lit "gone") (busy 1).db).pending_events
unfolding trim backoff
handle_delivery_failure-retry_example =
    handle_delivery_failure-retry default_config (taken 1) (lit "gone") (world 1) (λ n. refl) refl
      (omega arith)

backoff_lem_example : backoff (2 * second) 3 ≡ pos (16 * second)
backoff_lem_example = backoff_lem (2 * second) 3 (omega arith) (omega arith)

-- a summary that is due, of a pairing that is there
abbrev due_row : DigestRow
due_row = record {
  id = 1;
  route = route_of photo;
  event_id = lit "e1";
  caption = lit "look";
  file_name = lit "a.png";
  media_type = lit "photo";
  created_at = 10;
  deliver_after = 20;
}

abbrev summary_world : World
summary_world = record (world 0) {
  store = record start {
    db = record empty_db {
      pairings = record { route = route_of photo; rule_config = none; webhook_secret = none } ∷ [];
      digest_events = due_row ∷ [];
    };
  };
}

-- the scheduler sends it and takes the entry away
summarized :
    length (process_digests default_config (registry discord) summary_world).store.db.digest_events
    ≡ 0
unfolding process_digests select same_route same delete count lookup insert_event_history
summarized = refl

abbrev accepting : Consumer
accepting = record { platform_id = lit "discord"; send = λ e n. none }

abbrev after_group : World
after_group =
    process_group default_config (registry accepting) (5000 * second) (route_of photo) summary_world

process_group_entries_example :
    (after_group.store.db.digest_events ≡ summary_world.store.db.digest_events)
    ⊎ ((((m : Bytes) × ((get_pairing (route_of photo) summary_world.store).0 ≡ err m))
          ⊎ ((e : MediaEvent) × ((after_group.sent ≡ e ∷ summary_world.sent)
                × (route_of e ≡ route_of photo))))
        × (after_group.store.db.digest_events
            ≡ delete
                (λ d.
                  same_route d.route (route_of photo) && leb d.deliver_after (unix (5000 * second)))
                summary_world.store.db.digest_events))
process_group_entries_example =
    process_group_entries default_config (registry accepting) (5000 * second) (route_of photo)
      summary_world

abbrev settings : Settings
settings = record {
  http_enabled = true;
  http_addr = lit ":8081";
  alert_evaluation_interval = 30 * second;
  alert_failure_rate_threshold = 0;
  alert_failure_min_sample_size = 10;
  alert_queue_depth_threshold = 500;
  alert_retry_depth_threshold = 100;
  alert_reconnect_streak_threshold = 5;
  ready_consumer_max_staleness = 30 * second;
}

ready_handler_iff_example :
    ((ready_handler settings reachable (1000 * second) 980).status_code ≡ 200) ↔ (
      (reachable ≡ reachable)
      × ((◌≢◌ {A = ℕ} 980 0)
          × (1000 * second - 980 * second ≤ settings.ready_consumer_max_staleness)))
ready_handler_iff_example = ready_handler_iff settings reachable (1000 * second) 980
