-- ===== src/Tests/Rules.antt =====
-- The rules of internal/rules at work.
use cross_platform_media_sha.Base.{
  ◌+◌, ◌*◌, ◌≡◌, ◌↔◌, ◌⊎◌, ◌<◌, refl, true, none, [], ◌∷◌, arith, Some,
}
use cross_platform_media_sha.Text.{Bytes, lit, same, has_prefix, to_lower, trim}
use cross_platform_media_sha.Models.{RuleConfig, no_rules}
use cross_platform_media_sha.Rules.Filter.{
  Regex, Passes, evaluate_filter_rule, evaluate_filter_rule_iff,
}
use cross_platform_media_sha.Rules.Files.{
  evaluate_file_rule, evaluate_file_rule_iff, size_limit, mega,
}
use cross_platform_media_sha.Rules.Tags.{evaluate_tag_rule}
use cross_platform_media_sha.Rules.Hashtags.{IsWorn, evaluate_tag_rule_iff}
use cross_platform_media_sha.Rules.QuietHours.{
  evaluate_time_rule, IsDelay, evaluate_time_rule-IsDelay, minute, day,
}
use cross_platform_media_sha.Rules.Spam.{Bursts, let_through, let_through_chain}
use cross_platform_media_sha.Security.RateLimit.{lookup}
use cross_platform_media_sha.Security.Defaults.{or_default}
use cross_platform_media_sha.Tests.Data.{ascii}

instance abbrev no_match : Regex
no_match = record { match_string = λ p s. none }

abbrev ruled : RuleConfig
ruled = record no_rules {
  blocked_senders = lit "eve" ∷ [];
  include_words = lit " World" ∷ [];
  regex_filters = lit "(" ∷ [];
  quiet_hours_start = lit "22:00";
  quiet_hours_end = lit "07:30";
}

evaluate_filter_rule_iff_example :
    (evaluate_filter_rule ruled (lit "Hello WORLD") (lit "ann") ≡ true)
    ↔ Passes ruled (lit "Hello WORLD") (lit "ann")
evaluate_filter_rule_iff_example = evaluate_filter_rule_iff ruled (lit "Hello WORLD") (lit "ann")

evaluate_file_rule_iff_example :
    (evaluate_file_rule no_rules (50 * mega + 7) (lit "Image/png") ≡ true) ↔ (
      (50 * mega + 7 < (size_limit no_rules + 1) * mega)
      × Some
          (λ m. has_prefix (to_lower (lit "Image/png")) (to_lower (trim m)) ≡ true)
          (or_default no_rules.allowed_mime_types))
evaluate_file_rule_iff_example = evaluate_file_rule_iff no_rules (50 * mega + 7) (lit "Image/png")

-- at 23:00 the delivery waits until 07:30 of the next day
evaluate_time_rule-IsDelay_example :
    IsDelay ruled (3 * day + 1380 * minute) (4 * day + 450 * minute)
unfolding evaluate_time_rule
evaluate_time_rule-IsDelay_example =
    evaluate_time_rule-IsDelay ruled (3 * day + 1380 * minute) (4 * day + 450 * minute) refl

abbrev key : Bytes
key = lit "1:2"

-- one message of a limit of three, at second 100
abbrev begun : Bursts
begun = record { burst_counts = (key, 1) ∷ []; burst_last = (key, 100) ∷ [] }

let_through_chain_example : let_through 3 10 key (110 ∷ 120 ∷ 130 ∷ []) begun ≡ 2
unfolding lookup same
let_through_chain_example =
    let_through_chain 3 10 key (110 ∷ 120 ∷ 130 ∷ []) begun 1 100
      (record { counted = refl; lasting = refl }) (omega arith, (omega arith, (omega arith, tt)))
      (omega arith) refl

abbrev tagged : RuleConfig
tagged = record no_rules { required_tags = lit "#News" ∷ [] }

evaluate_tag_rule_iff_example :
    (evaluate_tag_rule tagged (lit "all #NEWS") ≡ true)
    ↔ ((tagged.required_tags ≡ []) ⊎ Some (IsWorn (lit "all #NEWS")) tagged.required_tags)
evaluate_tag_rule_iff_example = evaluate_tag_rule_iff tagged (lit "all #NEWS")
