-- ===== src/Security/RateLimit.antt =====
-- internal/security/ratelimit.go: one bucket for each key, in a map that a mutex guards.
use cross_platform_media_sha.Base.{
  ℕ, zero, suc, ◌+◌, ◌-◌, ◌*◌, ◌≡◌, inl, inr, Option-cases, ◌≤◌, ◌<◌, refl, Bool, true, false,
  Option, none, some, List, [], ◌∷◌, arith, All, ltb, leb, if◌then◌else◌,
}
use cross_platform_media_sha.Text.{Bytes, same, same_refl}

-- A Go map with string keys; a later entry hides an earlier one.
module _ {ℓ} {V : Type ℓ} where
  unfoldable pub lookup : Bytes → List (Bytes × V) → Option V
  lookup k [] = none
  lookup k ((j, v) ∷ m) = if same j k then some v else lookup k m

  unfoldable pub insert : Bytes → V → List (Bytes × V) → List (Bytes × V)
  insert k v m = (k, v) ∷ m

  pub lookup-insert :
      (k j : Bytes) (v : V) (m : List (Bytes × V))
      → lookup j (insert k v m) ≡ (if same k j then some v else lookup j m)
  unfolding lookup insert
  lookup-insert k j v m = refl

pub record RateBucket : Type 0 where
  pub count : ℕ
  pub window_at : ℕ

abbrev pub Buckets : Type 0
Buckets = List (Bytes × RateBucket)

-- now.Sub(bucket.windowAt) > window
abbrev pub expired : ℕ → ℕ → RateBucket → Bool
expired window now b = ltb (b.window_at + window) now

abbrev pub opened : ℕ → RateBucket
opened now = record { count = 1; window_at = now }

-- the bucket is absent, expired, full, or has room
abbrev pub admit : Option RateBucket → Bytes → ℕ → ℕ → ℕ → Buckets → Bool × Buckets
admit none key max window now m = (true, insert key (opened now) m)
admit (some b) key max window now m =
    if expired window now b
    then (true, insert key (opened now) m)
    else if leb max b.count
    then (false, m)
    else (true, insert key (record b { count = suc b.count }) m)

unfoldable pub check_limit : Buckets → Bytes → ℕ → ℕ → ℕ → Bool × Buckets
check_limit m key max window now = admit (lookup key m) key max window now m

-- `CheckSourceRateLimit` and `CheckDestinationRateLimit`: a limit of 0 is none
unfoldable pub check_rate_limit : ℕ → ℕ → Buckets → Bytes → ℕ → Bool × Buckets
unfolding check_limit
check_rate_limit zero window m key now = (true, m)
check_rate_limit (suc n) window m key now = check_limit m key (suc n) window now

-- No bucket has counted past the limit.
pub record IsWithin (max : ℕ) (m : Buckets) : Type 0 where
  pub at_key : (k : Bytes) (b : RateBucket) → lookup k m ≡ some b → b.count ≤ max

-- the bucket that has counted one more
abbrev counted : Option RateBucket → RateBucket
counted none = opened 0
counted (some b) = record b { count = suc b.count }

abbrev count_of : Option RateBucket → ℕ
count_of none = 0
count_of (some b) = b.count

-- No check lets a bucket count past the limit.
pub check_limit-IsWithin :
    (m : Buckets) (key : Bytes) (max window now : ℕ)
    → 0 < max
    → IsWithin max m
    → IsWithin max (check_limit m key max window now).1
unfolding check_limit
check_limit-IsWithin m key max window now h w = record {
  at_key = λ k b p. ground (
    arith,
    w.at_key k b,
    lookup-insert key k (opened now) m,
    lookup-insert key k (counted (lookup key m)) m,
  );
}

-- how many of a sequence of calls with one key are let through
unfoldable pub admitted : Bytes → ℕ → ℕ → List ℕ → Buckets → ℕ
admitted key max window [] m = 0
admitted key max window (now ∷ times) m =
    let (passed, m') = check_limit m key max window now in
    let rest = admitted key max window times m' in if passed then suc rest else rest

-- every time lies between `from` and `from + window`
abbrev pub Within : ℕ → ℕ → List ℕ → Type 0
Within from window = All (λ t. (from ≤ t) × (t ≤ from + window))

-- while a bucket lasts, no more calls pass than it has room for
admitted_open :
    (key : Bytes) (max window : ℕ) (times : List ℕ) (m : Buckets) (b : RateBucket)
    → lookup key m ≡ some b
    → All (λ t. t ≤ b.window_at + window) times
    → admitted key max window times m ≤ max - b.count
unfolding admitted check_limit
admitted_open key max window [] m b p h = omega arith
admitted_open key max window (now ∷ times) m b p h = ground (
  arith,
  lookup-insert key key (counted (some b)) m,
  same_refl key,
  admitted_open key max window times m b p h.1,
  admitted_open key max window times (insert key (counted (some b)) m) (counted (some b)),
)

-- a bucket that is opened by one of the calls lasts to the end
admitted_from :
    (key : Bytes) (max window from now : ℕ) (times : List ℕ) (m : Buckets)
    → from ≤ now
    → Within from window times
    → admitted key max window times (insert key (opened now) m) ≤ max - 1
admitted_from key max window from now times m h w =
    admitted_open key max window times (insert key (opened now) m) (opened now)
      (rw lookup-insert (rw same_refl)) (later times w)
  where
    later : (ts : List ℕ) → Within from window ts → All (λ t. t ≤ now + window) ts
    later [] w = tt
    later (t ∷ ts) w = (omega (arith, w.0.1), later ts w.1)

admitted_bound :
    (key : Bytes) (max window from : ℕ) (times : List ℕ) (m : Buckets)
    → 0 < max
    → Within from window times
    → admitted key max window times m ≤ max + (max - count_of (lookup key m))
unfolding admitted check_limit
admitted_bound key max window from [] m h w = omega arith
admitted_bound key max window from (now ∷ times) m h w = elim (Option-cases (lookup key m)) [
  | inl e ↦ ground (arith, e, admitted_from key max window from now times m)
  | inr (b, e) ↦ ground (
    arith,
    e,
    admitted_from key max window from now times m,
    admitted_bound key max window from times m h w.1,
    admitted_bound key max window from times (insert key (counted (some b)) m) h w.1,
    lookup-insert key key (counted (some b)) m,
    same_refl key,
  )
]

-- In any stretch of time as long as the window, whatever was counted before, at most twice the limit
-- passes.
pub admitted_window :
    (key : Bytes) (max window from : ℕ) (times : List ℕ) (m : Buckets)
    → 0 < max
    → Within from window times
    → admitted key max window times m ≤ 2 * max
admitted_window key max window from times m h w =
    omega (arith, admitted_bound key max window from times m h w)
