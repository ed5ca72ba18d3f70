-- ===== src/Rules/QuietHours.antt =====
-- `EvaluateTimeRule`: what arrives in the quiet hours is delivered when they end. Times are
-- nanoseconds since 1970.
use cross_platform_media_sha.Base.{
  ℕ, ◌+◌, ◌*◌, ◌/◌, ◌%◌, ◌-◌, ◌≡◌, ap, sym, ◌∙◌, ◌<◌, ◌≤◌, refl, Bool, true, false, ◌&&◌, ◌||◌,
  Option, none, some, [], ◌∷◌, arith, leb, ltb, ◌==◌, if◌then◌else◌,
}
use cross_platform_media_sha.Text.{Bytes, is_empty}
use cross_platform_media_sha.Models.{RuleConfig}

abbrev pub minute : ℕ
minute = 60_000_000_000

abbrev pub day : ℕ
day = 1440 * minute

abbrev is_digit : ℕ → Bool
is_digit c = leb b'0' c && leb c b'9'

-- ":04", the minutes behind an hour
unfoldable pub parse_minute : ℕ → Bytes → Option ℕ
parse_minute hour (colon ∷ a ∷ b ∷ []) =
    let m = (a - b'0') * 10 + (b - b'0') in
    if colon == b':' && (is_digit a && (is_digit b && (ltb m 60 && ltb hour 24)))
    then some (hour * 60 + m)
    else none
parse_minute hour _ = none

-- time.Parse("15:04", s) as a minute of the day: an hour of one or two digits, two digits of minutes
unfoldable pub parse_clock : Bytes → Option ℕ
unfolding parse_minute
parse_clock (a ∷ b ∷ s) =
    if is_digit a
    then (if is_digit b
        then parse_minute ((a - b'0') * 10 + (b - b'0')) s
        else parse_minute (a - b'0') (b ∷ s))
    else none
parse_clock _ = none

abbrev pub minute_of_day : ℕ → ℕ
minute_of_day t = t / minute % 1440

-- the span from `start` to `end`, round midnight if it does not end behind its start
unfoldable pub in_quiet_hours : ℕ → ℕ → ℕ → Bool
in_quiet_hours start end current =
    if ltb start end
    then leb start current && ltb current end
    else leb start current || ltb current end

-- time.Date of today or tomorrow at `end`
unfoldable pub next_end : ℕ → ℕ → ℕ
next_end now end =
    if ltb (minute_of_day now) end
    then now / day * day + end * minute
    else (now / day + 1) * day + end * minute

-- the rule on parsed times
unfoldable pub quiet_rule : ℕ → ℕ → ℕ → ℕ × Bool
unfolding in_quiet_hours next_end
quiet_rule start end now =
    if in_quiet_hours start end (minute_of_day now) then (next_end now end, true) else (now, false)

abbrev pub with_times : Option ℕ → Option ℕ → ℕ → ℕ × Bool
with_times none _ now = (now, false)
with_times (some start) none now = (now, false)
with_times (some start) (some end) now = quiet_rule start end now

unfoldable pub evaluate_time_rule : RuleConfig → ℕ → ℕ × Bool
unfolding parse_clock quiet_rule
evaluate_time_rule config now =
    if is_empty config.quiet_hours_start || is_empty config.quiet_hours_end
    then (now, false)
    else with_times (parse_clock config.quiet_hours_start) (parse_clock config.quiet_hours_end) now

parse_minute_bound : (hour m : ℕ) (s : Bytes) → parse_minute hour s ≡ some m → m < 1440
unfolding parse_minute
parse_minute_bound hour m (colon ∷ a ∷ b ∷ []) h = ground arith
parse_minute_bound hour m [] h = cc
parse_minute_bound hour m (a ∷ []) h = cc
parse_minute_bound hour m (a ∷ b ∷ []) h = cc
parse_minute_bound hour m (a ∷ b ∷ c ∷ d ∷ s) h = cc

parse_clock_bound : (s : Bytes) (m : ℕ) → parse_clock s ≡ some m → m < 1440
unfolding parse_clock
parse_clock_bound [] m h = cc
parse_clock_bound (a ∷ []) m h = cc
parse_clock_bound (a ∷ b ∷ s) m h = ground (
  arith,
  parse_minute_bound ((a - b'0') * 10 + (b - b'0')) m s,
  parse_minute_bound (a - b'0') m (b ∷ s),
)

quiet_rule_delay :
    (start end now : ℕ) {t : ℕ}
    → end < 1440
    → quiet_rule start end now ≡ (t, true)
    → (now < t) × (t ≤ now + day) × (minute_of_day t ≡ end) × (t % minute ≡ 0)
unfolding quiet_rule
quiet_rule_delay start end now h e = ground arith

-- What the end of the quiet hours is, where the rule puts off a delivery.
pub record IsDelay (config : RuleConfig) (now t : ℕ) : Type 0 where
  pub later : now < t
  pub within_day : t ≤ now + day
  pub whole_minute : t % minute ≡ 0
  pub at_end : parse_clock config.quiet_hours_end ≡ some (minute_of_day t)

not_put_off : {now t : ℕ} → ◌≡◌ {A = ℕ × Bool} (now, false) (t, true) → false ≡ true
not_put_off h = ap (λ r. r.1) h

with_times-IsDelay :
    (config : RuleConfig) (now : ℕ) (start end : Option ℕ) {t : ℕ}
    → parse_clock config.quiet_hours_end ≡ end
    → with_times start end now ≡ (t, true)
    → IsDelay config now t
with_times-IsDelay config now none end p h = cc (not_put_off h)
with_times-IsDelay config now (some start) none p h = cc (not_put_off h)
with_times-IsDelay config now (some start) (some end) p h =
    let (a, b, c, d) =
      quiet_rule_delay start end now (parse_clock_bound config.quiet_hours_end end p) h in
    record { later = a; within_day = b; whole_minute = d; at_end = p ∙ ap some (sym c) }

-- A delivery that the quiet hours put off is put off to the end of the quiet hours: later than now,
-- by a day at most, at the minute of the day that the rule's end names.
pub evaluate_time_rule-IsDelay :
    (config : RuleConfig) (now t : ℕ)
    → evaluate_time_rule config now ≡ (t, true)
    → IsDelay config now t
unfolding evaluate_time_rule
evaluate_time_rule-IsDelay config now t h =
    with_times-IsDelay config now (parse_clock config.quiet_hours_start)
      (parse_clock config.quiet_hours_end) refl (set_times h)
  where
    set_times :
        evaluate_time_rule config now ≡ (t, true)
        → with_times (parse_clock config.quiet_hours_start) (parse_clock config.quiet_hours_end) now
          ≡ (t, true)
    set_times h = ground (arith, h)
