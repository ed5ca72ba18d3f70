-- ===== src/Observability/Endpoints.antt =====
-- internal/observability/observability.go: the readiness, the metrics page, one evaluation of the
-- alerts, and the settings.
use cross_platform_media_sha.Base.{
  ℕ, ℤ, pos, negsuc, ◌+◌, ◌-◌, ◌*◌, ◌/◌, ◌≡◌, ◌≢◌, ◌≤◌, ◌↔◌, Bool, true, false, not, ◌&&◌, Option,
  none, some, List, [], ◌∷◌, ◌++◌, leb, ltb, ◌==◌, ==_iff, arith, if◌then◌else◌,
}
use cross_platform_media_sha.Text.{
  Bytes, lit, trim, is_empty, join, decimal, decimal_int, parse_int, positive,
}
use cross_platform_media_sha.Database.Store.{Result, ok, err, second}
use cross_platform_media_sha.Moderation.{Floats, Environ}

pub record Settings : Type 0 where
  pub http_enabled : Bool
  pub http_addr : Bytes
  pub alert_evaluation_interval : ℕ
  pub alert_failure_rate_threshold : ℕ
  pub alert_failure_min_sample_size : ℕ
  pub alert_queue_depth_threshold : ℕ
  pub alert_retry_depth_threshold : ℕ
  pub alert_reconnect_streak_threshold : ℕ
  pub ready_consumer_max_staleness : ℕ

pub record CountersSnapshot : Type 0 where
  pub received : ℕ
  pub forwarded : ℕ
  pub filtered : ℕ
  pub failed : ℕ
  pub retries : ℕ
  pub dead_letters : ℕ
  pub reconnect_streak : ℕ

-- database.DB, and what Ping answers
pub data Connection : Type 0 where
  not_initialized : Connection
  unreachable : Connection
  reachable : Connection

pub record Readiness : Type 0 where
  pub status_code : ℕ
  pub ready : Bool
  pub database : Bytes
  pub consumer : Bytes

unfoldable pub db_status : Connection → Bytes
db_status not_initialized = lit "db_not_initialized"
db_status unreachable = lit "db_unreachable"
db_status reachable = lit "ok"

abbrev pub is_reachable : Connection → Bool
is_reachable not_initialized = false
is_reachable unreachable = false
is_reachable reachable = true

-- the time since the heartbeat, which is in seconds, in nanoseconds; 0 where it lies ahead
abbrev pub staleness_of : ℕ → ℕ → ℕ
staleness_of now heartbeat = now - heartbeat * second

abbrev pub is_fresh : Settings → ℕ → ℕ → Bool
is_fresh cfg now heartbeat =
    not (heartbeat == 0) && leb (staleness_of now heartbeat) cfg.ready_consumer_max_staleness

unfoldable pub consumer_status : Settings → ℕ → ℕ → Bytes
unfolding decimal
consumer_status cfg now heartbeat =
    if heartbeat == 0
    then lit "consumer_not_started"
    else if ltb cfg.ready_consumer_max_staleness (staleness_of now heartbeat)
    then lit "consumer_stale_" ++ decimal (staleness_of now heartbeat / second) ++ lit "s"
    else lit "ok"

unfoldable pub ready_handler : Settings → Connection → ℕ → ℕ → Readiness
unfolding db_status consumer_status
ready_handler cfg db now heartbeat =
    let is_ready = is_reachable db && is_fresh cfg now heartbeat in
    record {
      status_code = if is_ready then 200 else 503;
      ready = is_ready;
      database = db_status db;
      consumer = consumer_status cfg now heartbeat;
    }

pub data Alert : Type 0 where
  high_failure_rate : Alert
  high_queue_depth : Alert
  high_retry_depth : Alert
  reconnect_loop : Alert

-- float64(a) / float64(b)
abbrev Quotient : Type 0
Quotient = ℕ → ℕ → ℕ

abbrev alert_if : Bool → Alert → List Alert
alert_if true a = a ∷ []
alert_if false a = []

-- One evaluation: the alerts, and the counters to compare with next. The counters only grow.
unfoldable pub evaluate_alerts :
    Floats
    → Quotient
    → Settings
    → CountersSnapshot
    → CountersSnapshot
    → Result (ℕ × ℕ)
    → List Alert × CountersSnapshot
evaluate_alerts f quotient cfg previous snapshot (err e) = ([], snapshot)
evaluate_alerts f quotient cfg previous snapshot (ok (queue_depth, retry_depth)) =
    let failed_delta = snapshot.failed - previous.failed in
    let samples = snapshot.forwarded - previous.forwarded + failed_delta in
    let high_rate = f.at_most cfg.alert_failure_rate_threshold (quotient failed_delta samples) in
    (
      alert_if (leb cfg.alert_failure_min_sample_size samples && high_rate) high_failure_rate
          ++ (alert_if (leb cfg.alert_queue_depth_threshold queue_depth) high_queue_depth
              ++ (alert_if (leb cfg.alert_retry_depth_threshold retry_depth) high_retry_depth
                  ++ alert_if (leb cfg.alert_reconnect_streak_threshold snapshot.reconnect_streak)
                      reconnect_loop)),
      snapshot,
    )

-- the lines for one value; `kind` is counter or gauge
abbrev metric : Bytes → Bytes → Bytes → Bytes → List Bytes
metric name help kind value =
    (lit "# HELP " ++ name ++ lit " " ++ help)
    ∷ (lit "# TYPE " ++ name ++ lit " " ++ kind)
    ∷ (name ++ lit " " ++ value)
    ∷ []

-- the depths of the queue and of the retries, or -1
abbrev pub depth_or_unknown : Result ℕ → ℤ
depth_or_unknown (ok n) = pos n
depth_or_unknown (err e) = negsuc 0

-- `age` is the age of the heartbeat as it is printed with `%.0f`, and `uptime` is in seconds
unfoldable pub render_prometheus_metrics : CountersSnapshot → ℤ → ℤ → Bytes → ℕ → Bytes
unfolding join decimal decimal_int
render_prometheus_metrics s queue_depth retry_depth age uptime =
    let counter = lit "counter" in
    let gauge = lit "gauge" in
    join
      (metric (lit "bridge_received_events_total")
          (lit "Total number of events enqueued for delivery") counter (decimal s.received)
        ++ (metric (lit "bridge_forwarded_events_total")
              (lit "Total number of events forwarded successfully") counter (decimal s.forwarded)
            ++ (metric (lit "bridge_filtered_events_total")
                  (lit "Total number of events filtered before delivery") counter
                  (decimal s.filtered)
                ++ (metric (lit "bridge_failed_events_total")
                      (lit "Total number of delivery failures") counter (decimal s.failed)
                    ++ (metric (lit "bridge_retries_scheduled_total")
                          (lit "Total number of retry attempts scheduled") counter
                          (decimal s.retries)
                        ++ (metric (lit "bridge_dead_letter_events_total")
                              (lit "Total number of events moved to dead letter queue") counter
                              (decimal s.dead_letters)
                            ++ (metric (lit "bridge_queue_depth")
                                  (lit "Current pending event queue depth") gauge
                                  (decimal_int queue_depth)
                                ++ (metric (lit "bridge_retry_depth")
                                      (lit "Current queue depth with retry_count > 0") gauge
                                      (decimal_int retry_depth)
                                    ++ (metric (lit "bridge_reconnect_streak")
                                          (lit "Current reconnect-like failure streak") gauge
                                          (decimal s.reconnect_streak)
                                        ++ (metric (lit "bridge_consumer_heartbeat_age_seconds")
                                              (lit "Seconds since the consumer loop heartbeat")
                                              gauge age
                                            ++ metric (lit "bridge_uptime_seconds")
                                                (lit "Process uptime in seconds") gauge
                                                (decimal uptime)))))))))))
      (lit "\n")
    ++ lit "\n"

abbrev or_default : ℕ → Option ℕ → ℕ
or_default default none = default
or_default default (some n) = n

-- a number that is not positive has the default
unfoldable pub parse_int_env : Environ → Bytes → ℕ → ℕ
unfolding parse_int
parse_int_env env name default = or_default default (positive (parse_int (trim (env name))))

unfoldable pub parse_string_env : Environ → Bytes → Bytes → Bytes
parse_string_env env name default = if is_empty (trim (env name)) then default else trim (env name)

-- What the page of the readiness answers is 200 exactly where the database can be reached, the
-- consumer has sent a heartbeat, and the last one is no older than the settings allow.
pub ready_handler_iff :
    (cfg : Settings) (db : Connection) (now heartbeat : ℕ)
    → ((ready_handler cfg db now heartbeat).status_code ≡ 200) ↔ (
        (db ≡ reachable)
        × ((heartbeat ≢ 0) × (now - heartbeat * second ≤ cfg.ready_consumer_max_staleness)))
unfolding ready_handler
ready_handler_iff cfg not_initialized now heartbeat = ground arith
ready_handler_iff cfg unreachable now heartbeat = ground arith
ready_handler_iff cfg reachable now heartbeat = ground (arith, ==_iff heartbeat 0)
