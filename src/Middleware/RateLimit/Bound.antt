-- ===== src/Middleware/RateLimit/Bound.antt =====
-- allow in internal/middleware/ratelimit.go: how many requests of an address pass.
use docflow_core.Prelude.{
  ◌-◌, ◌/◌, ◌*◌, ◌≤◌, ℕ, suc, ◌+◌, ◌≡◌, Bool, true, false, List, [], ◌∷◌, leb, if◌then◌else◌, arith,
}
use docflow_core.Middleware.RateLimit.{nanoseconds, Config, Bucket, Answer, refilled, take}

-- How many of the requests pass, each so long after the one before
unfoldable pub passed : Config → ℕ → Bucket → List ℕ → ℕ
passed c now b [] = 0
passed c now b (gap ∷ gaps) =
    let (answer, b') = take c (now + gap) b in
    let rest = passed c (now + gap) b' gaps in if answer.allowed then suc rest else rest

abbrev pub total : List ℕ → ℕ
total [] = 0
total (gap ∷ gaps) = gap + total gaps

-- What a request takes from the bucket
abbrev Spent : Config → ℕ → Bucket → Answer × Bucket → Type 0
Spent c gap b (answer, b') =
    (b'.tokens + (if answer.allowed then c.window else 0) ≤ b.tokens + gap * c.max)

refilled_le :
    (c : Config) (now gap : ℕ) (b : Bucket)
    → b.last_refill ≡ now
    → refilled c (now + gap) b ≤ b.tokens + gap * c.max
refilled_le c now gap b e = ground arith

take-Spent :
    (c : Config) (now gap : ℕ) (b : Bucket)
    → b.last_refill ≡ now
    → Spent c gap b (take c (now + gap) b)
unfolding take
take-Spent c now gap b e = spent (refilled c (now + gap) b) (refilled_le c now gap b e)
  where
    spent :
        (n : ℕ)
        → n ≤ b.tokens + gap * c.max
        → Spent c gap b (
            if leb c.window n
            then (
              record { allowed = true; retry_after = 0 },
              record { tokens = n - c.window; last_refill = now + gap },
            )
            else (
              record { allowed = false; retry_after = (c.window - n) / c.max / nanoseconds + 1 },
              record { tokens = n; last_refill = now + gap },
            ))
    spent n h = ground arith

take_stamps : (c : Config) (now : ℕ) (b : Bucket) → (take c now b).1.last_refill ≡ now
unfolding take
take_stamps c now b = ground arith

step_bound :
    (rest w tokens left gap time max : ℕ) (ok : Bool)
    → left + (if ok then w else 0) ≤ tokens + gap * max
    → rest * w ≤ left + time * max
    → (if ok then suc rest else rest) * w ≤ tokens + (gap + time) * max
step_bound rest w tokens left gap time max true h k = ground arith
step_bound rest w tokens left gap time max false h k = ground arith

-- However the requests of an address come, what passes is bounded by the bucket and the time: the
-- requests that pass, times the window, are at most the tokens at the start, in parts, and the time
-- since then, times the maximum. So with a full bucket at most the maximum passes, and one more for
-- each window / maximum of time.
pub passed_bounded :
    (c : Config) (now : ℕ) (b : Bucket) (gaps : List ℕ)
    → b.last_refill ≡ now
    → passed c now b gaps * c.window ≤ b.tokens + total gaps * c.max
unfolding passed
passed_bounded c now b [] e = ground arith
passed_bounded c now b (gap ∷ gaps) e =
    let (answer, b') = take c (now + gap) b in
    step_bound (passed c (now + gap) b' gaps) c.window b.tokens b'.tokens gap (total gaps) c.max
      answer.allowed (take-Spent c now gap b e)
      (passed_bounded c (now + gap) b' gaps (take_stamps c (now + gap) b))
