-- ===== src/Queue/World.antt =====
-- What the processor of internal/queue works on, and what it takes from its surroundings.
use cross_platform_media_sha.Base.{ℕ, ◌*◌, Bool, List, ◌++◌, ltb, length, take, if◌then◌else◌}
use cross_platform_media_sha.Text.{Bytes, lit, trim, is_empty, replace_all}
use cross_platform_media_sha.Models.{MediaEvent, RuleConfig}
use cross_platform_media_sha.Database.Store.{Store, Exec, second}
use cross_platform_media_sha.Database.Pairings.{insert_event_history}
use cross_platform_media_sha.Security.RateLimit.{Buckets}
use cross_platform_media_sha.Observability.{Metrics}

-- moderation.Decision; `reasons` is joined, and the two scores are printed with two digits
pub record Decision : Type 0 where
  pub enabled : Bool
  pub blocked : Bool
  pub score : Bytes
  pub threshold : Bytes
  pub reasons : Bytes

-- moderation.Evaluate, and time.Now().Format("15:04") of a time
pub record Services : Type 0 where
  pub evaluate : MediaEvent → RuleConfig → Decision
  pub format_time : ℕ → Bytes

-- The settings of the package and of the destination rate limit; times in nanoseconds.
pub record Config : Type 0 where
  pub processing_lease : ℕ
  pub max_delivery_retries : ℕ
  pub retry_base_delay : ℕ
  pub dest_rate_limit_max : ℕ
  pub dest_rate_limit_window : ℕ

-- the values that the package starts with
abbrev pub default_config : Config
default_config = record {
  processing_lease = 30 * second;
  max_delivery_retries = 5;
  retry_base_delay = 2 * second;
  dest_rate_limit_max = 60;
  dest_rate_limit_window = 60 * second;
}

-- `sent` lists what the consumers have accepted, the last first.
pub record World : Type 0 where
  pub store : Store
  pub dest_buckets : Buckets
  pub metrics : Metrics
  pub sent : List MediaEvent

-- a call whose error is logged and dropped
abbrev pub ignore : {A : Type 0} → Exec A → World → World
ignore m w = record w { store = (m w.store).1 }

abbrev pub history : Bytes → Bytes → Bytes → World → World
history event_id status details = ignore (insert_event_history event_id status details)

abbrev templated : Services → MediaEvent → Bytes → ℕ → Bytes
templated v e tpl now =
    let a = replace_all tpl (lit "{caption}") e.caption in
    let b = replace_all a (lit "{sender}") e.sender_name in
    let c = replace_all b (lit "{source_chat}") e.source_id in
    replace_all c (lit "{time}") (v.format_time now)

-- the quoted message is cut to 80 bytes
abbrev pub preview : Bytes → Bytes
preview s = if ltb 80 (length s) then take 77 s ++ lit "..." else s

abbrev blockquote : MediaEvent → Bytes
blockquote e =
    lit "> **In reply to "
    ++ e.reply_to_sender
    ++ lit ":**\n> "
    ++ preview e.reply_to_caption
    ++ lit "\n\n"

unfoldable pub apply_formatting : Services → MediaEvent → RuleConfig → ℕ → MediaEvent
apply_formatting v e rules now =
    let caption =
      if is_empty rules.caption_template
      then e.caption
      else templated v e rules.caption_template now in
    let quoted = if is_empty e.reply_to_sender then caption else blockquote e ++ caption in
    record e { caption = trim quoted }
