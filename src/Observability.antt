-- ===== src/Observability.antt =====
-- internal/observability/observability.go: the counters that the queue processor moves. The log
-- lines are not modelled.
use cross_platform_media_sha.Base.{
  ℕ, suc, ◌+◌, zero, Bool, false, ◌||◌, List, [], ◌∷◌, if◌then◌else◌,
}
use cross_platform_media_sha.Text.{Bytes, Unicode, lit, to_lower, trim, contains}
pub mod Endpoints

pub record Metrics : Type 0 where
  pub forwarded_events_total : ℕ
  pub failed_events_total : ℕ
  pub filtered_events_total : ℕ
  pub reconnect_streak : ℕ

-- `RegisterEventsForwarded`, with a count that is not negative
abbrev pub register_events_forwarded : ℕ → Metrics → Metrics
register_events_forwarded zero m = m
register_events_forwarded (suc n) m = record m {
  forwarded_events_total = m.forwarded_events_total + suc n;
  reconnect_streak = 0;
}

abbrev pub register_event_filtered : Metrics → Metrics
register_event_filtered m = record m { filtered_events_total = suc m.filtered_events_total }

abbrev reconnect_hints : List Bytes
reconnect_hints =
    lit "gateway"
    ∷ lit "websocket"
    ∷ lit "tls"
    ∷ lit "connection"
    ∷ lit "timeout"
    ∷ lit "eof"
    ∷ lit "reset by peer"
    ∷ lit "connection refused"
    ∷ []

abbrev has_hint : List Bytes → Bytes → Bool
has_hint [] s = false
has_hint (h ∷ hs) s = contains s h || has_hint hs s

module _ ⦃u : Unicode⦄ where
  unfoldable pub is_reconnect_like : Bytes → Bool
  is_reconnect_like reason = has_hint reconnect_hints (to_lower (trim reason))

  abbrev pub register_delivery_failure : Bytes → Metrics → Metrics
  register_delivery_failure reason m = record m {
    failed_events_total = suc m.failed_events_total;
    reconnect_streak =
        if is_reconnect_like reason then suc m.reconnect_streak else m.reconnect_streak;
  }
