-- ===== src/Rules/Spam.antt =====
-- `EvaluateSpamRule`: a burst counter for each pair of source and target.
use cross_platform_media_sha.Base.{
  ℕ, ℤ, pos, negsuc, suc, ◌+◌, ◌*◌, ◌-◌, ◌≡◌, ◌<◌, ◌≤◌, refl, Bool, true, false, ◌||◌, Option, none,
  some, List, [], ◌∷◌, ◌++◌, arith, ltb, leb, ◌==◌, pos_part, wrap64, if◌then◌else◌, length, ap,
  ◌∙◌,
}
use cross_platform_media_sha.Text.{Bytes, lit, same_refl}
use cross_platform_media_sha.Models.{RuleConfig}
use cross_platform_media_sha.Security.RateLimit.{lookup, insert, lookup-insert}

-- the two maps of the package
pub record Bursts : Type 0 where
  pub burst_counts : List (Bytes × ℕ)
  pub burst_last : List (Bytes × ℕ)

abbrev or_zero : Option ℕ → ℕ
or_zero none = 0
or_zero (some n) = n

-- time.Since(last) > window; the zero time lies further back than any window
abbrev pub is_over : ℤ → Option ℕ → ℕ → Bool
is_over w none now = true
is_over (pos w) (some last) now = ltb (last + w) now
is_over (negsuc w) (some last) now = true

-- the count after the reset of a burst that is over
abbrev pub burst_count : ℤ → Bytes → ℕ → Bursts → ℕ
burst_count w key now m =
    if is_over w (lookup key m.burst_last) now then 0 else or_zero (lookup key m.burst_counts)

-- the test of the limit, with the count in hand, and what is kept when a message passes
unfoldable pub bump : ℕ → Bytes → ℕ → ℕ → Bursts → Bool × Bursts
bump limit key now n m =
    let reset = insert key n m.burst_counts in
    if leb limit n then (false, record m { burst_counts = reset }) else (
      true,
      record { burst_counts = insert key (suc n) reset; burst_last = insert key now m.burst_last },
    )

unfoldable pub check_burst : ℕ → ℤ → Bytes → ℕ → Bursts → Bool × Bursts
unfolding bump
check_burst limit w key now m = bump limit key now (burst_count w key now m) m

-- time.Duration(BurstWindow) * time.Second, in nanoseconds as an int64
abbrev pub window_of : RuleConfig → ℤ
window_of c = wrap64 (pos_part c.burst_window * 1_000_000_000)

unfoldable pub evaluate_spam_rule : RuleConfig → Bytes → Bytes → ℕ → Bursts → Bool × Bursts
unfolding check_burst wrap64
evaluate_spam_rule config tg_id dc_channel_id now m =
    if pos_part config.burst_limit == 0 || pos_part config.burst_window == 0
    then (true, m)
    else check_burst (pos_part config.burst_limit) (window_of config)
        (tg_id ++ (lit ":" ++ dc_channel_id)) now m

-- how many of a sequence of messages on one key are let through
unfoldable pub let_through : ℕ → ℕ → Bytes → List ℕ → Bursts → ℕ
let_through limit w key [] m = 0
let_through limit w key (now ∷ times) m =
    let (passed, m') = check_burst limit (pos w) key now m in
    let rest = let_through limit w key times m' in if passed then suc rest else rest

-- messages that follow one another within the window
abbrev pub IsChain : ℕ → ℕ → List ℕ → Type 0
IsChain w last [] = Unit
IsChain w last (t ∷ ts) = (t ≤ last + w) × IsChain w t ts

-- the key's last message, and its count in a burst that is not over
pub record InBurst (w : ℕ) (key : Bytes) (n last : ℕ) (m : Bursts) : Type 0 where
  pub counted : lookup key m.burst_counts ≡ some n
  pub lasting : lookup key m.burst_last ≡ some last

burst_goes_on :
    (w : ℕ) (key : Bytes) (now : ℕ) (m : Bursts) (n last : ℕ)
    → InBurst w key n last m
    → now ≤ last + w
    → burst_count (pos w) key now m ≡ n
burst_goes_on w key now m n last b close = rw b.counted (rw b.lasting (ground arith))

bump_passes :
    (limit w : ℕ) (key : Bytes) (now : ℕ) (m : Bursts) (n : ℕ)
    → n < limit
    → ((bump limit key now n m).0 ≡ true) × InBurst w key (suc n) now (bump limit key now n m).1
unfolding bump
bump_passes limit w key now m n h =
    let counts = lookup-insert key key (suc n) (insert key n m.burst_counts) in
    let times = lookup-insert key key now m.burst_last in
    let k = same_refl key in
    (
      ground (arith, h),
      record { counted = ground (arith, counts, k); lasting = ground (arith, times, k) },
    )

bump_refuses :
    (limit : ℕ) (key : Bytes) (now : ℕ) (m : Bursts) → (bump limit key now limit m).0 ≡ false
unfolding bump
bump_refuses limit key now m = ground arith

check_burst_lem :
    (limit w : ℕ) (key : Bytes) (now : ℕ) (m : Bursts) (n last : ℕ)
    → InBurst w key n last m
    → now ≤ last + w
    → check_burst limit (pos w) key now m ≡ bump limit key now n m
unfolding check_burst
check_burst_lem limit w key now m n last b close =
    ap (λ k. bump limit key now k m) (burst_goes_on w key now m n last b close)

let_through_one :
    (limit w : ℕ) (key : Bytes) (t : ℕ) (ts : List ℕ) (m : Bursts)
    → (check_burst limit (pos w) key t m).0 ≡ true
    → let_through limit w key (t ∷ ts) m
      ≡ suc (let_through limit w key ts (check_burst limit (pos w) key t m).1)
unfolding let_through
let_through_one limit w key t ts m h = rw h refl

let_through_none :
    (limit w : ℕ) (key : Bytes) (t : ℕ) (m : Bursts)
    → (check_burst limit (pos w) key t m).0 ≡ false
    → let_through limit w key (t ∷ []) m ≡ 0
unfolding let_through
let_through_none limit w key t m h = rw h refl

-- A chain of messages is one burst, however long it takes: of a chain that is one longer than what
-- the limit has left, all messages but the last are let through.
pub let_through_chain :
    (limit w : ℕ) (key : Bytes) (times : List ℕ) (m : Bursts) (n last : ℕ)
    → InBurst w key n last m
    → IsChain w last times
    → n ≤ limit
    → n + length times ≡ suc limit
    → let_through limit w key times m ≡ limit - n
let_through_chain limit w key [] m n last b c h e = omega arith
let_through_chain limit w key (t ∷ []) m n last b c h e =
    let same_count : n ≡ limit = omega arith in
    let run = check_burst_lem limit w key t m n last b c.0 in
    let refused : (bump limit key t n m).0 ≡ false =
      ap (λ k. (bump limit key t k m).0) same_count ∙ bump_refuses limit key t m in
    let_through_none limit w key t m (ap (λ r. r.0) run ∙ refused) ∙ omega arith
let_through_chain limit w key (t ∷ u ∷ us) m n last b c h e =
    let below : n < limit = omega arith in
    let run = check_burst_lem limit w key t m n last b c.0 in
    let step = bump_passes limit w key t m n below in
    let_through_one limit w key t (u ∷ us) m (ap (λ r. r.0) run ∙ step.0)
    ∙ ap (λ r. suc (let_through limit w key (u ∷ us) r.1)) run
    ∙ ap suc (
        let_through_chain limit w key (u ∷ us) (bump limit key t n m).1 (suc n) t step.1 c.1
          (omega arith) (omega arith))
    ∙ omega arith
