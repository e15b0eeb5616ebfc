-- ===== src/Middleware/RateLimit.antt =====
-- internal/middleware/ratelimit.go: the token bucket of an address. Times are nanoseconds, and
-- tokens are counted in parts of which the window has one for each nanosecond, so that all numbers
-- are whole where the source has float64.
pub mod Bound
pub mod Retry
use docflow_core.Prelude.{
  ℕ, ◌+◌, ◌-◌, ◌*◌, ◌/◌, ◌==◌, Bool, true, false, Option, none, some, ltb, leb, if◌then◌else◌,
}

-- RateLimitRequests and RateLimitWindow
pub record Config : Type 0 where
  pub max : ℕ
  pub window : ℕ

pub record Bucket : Type 0 where
  pub tokens : ℕ
  pub last_refill : ℕ

-- `rl.maxTokens`, in parts
abbrev pub full : Config → ℕ
full c = c.max * c.window

abbrev pub nanoseconds : ℕ
nanoseconds = 1000000000

-- The refill: max / window tokens for each nanosecond, up to the maximum
abbrev pub refilled : Config → ℕ → Bucket → ℕ
refilled c now b =
    let tokens = b.tokens + (now - b.last_refill) * c.max in
    if ltb (full c) tokens then full c else tokens

pub record Answer : Type 0 where
  pub allowed : Bool
  pub retry_after : ℕ

-- The part of allow under the lock of the bucket
unfoldable pub take : Config → ℕ → Bucket → Answer × Bucket
take c now b =
    let tokens = refilled c now b in
    if leb c.window tokens
    then (
      record { allowed = true; retry_after = 0 },
      record { tokens = tokens - c.window; last_refill = now },
    )
    else (
      record { allowed = false; retry_after = (c.window - tokens) / c.max / nanoseconds + 1 },
      record { tokens = tokens; last_refill = now },
    )

-- The buckets by address
abbrev pub Buckets : Type 0
Buckets = ℕ → Option Bucket

-- A new bucket is full.
abbrev pub bucket_of : Config → ℕ → Option Bucket → Bucket
bucket_of c now none = record { tokens = full c; last_refill = now }
bucket_of c now (some b) = b

unfoldable pub allow : Config → ℕ → ℕ → Buckets → Answer × Buckets
unfolding take
allow c now ip buckets =
    let (answer, b) = take c now (bucket_of c now (buckets ip)) in
    (answer, λ x. if x == ip then some b else buckets x)

-- 10 minutes
abbrev pub idle_limit : ℕ
idle_limit = 600 * nanoseconds

abbrev pub keep_fresh : ℕ → Option Bucket → Option Bucket
keep_fresh now none = none
keep_fresh now (some b) = if ltb idle_limit (now - b.last_refill) then none else some b

-- One turn of the loop in cleanup
unfoldable pub cleanup : ℕ → Buckets → Buckets
cleanup now buckets ip = keep_fresh now (buckets ip)
