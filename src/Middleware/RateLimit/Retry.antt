-- ===== src/Middleware/RateLimit/Retry.antt =====
-- internal/middleware/ratelimit.go: the answer to wait, and the pruning of idle buckets.
use docflow_core.Prelude.{
  ap, sym, ◌∙◌, ◌-◌, ◌/◌, ◌*◌, ◌<◌, ◌≤◌, ℕ, ◌+◌, ◌≡◌, refl, inl, inr, true, false, Option, none,
  some, ltb, leb, if◌then◌else◌, arith, Bool-cases,
}
use docflow_core.Middleware.RateLimit.{
  Config, Bucket, Answer, Buckets, full, refilled, nanoseconds, take, allow, bucket_of, keep_fresh,
  cleanup, idle_limit,
}
use native.Mathlib.Nat.{lt-mul-div-succ, mul-le-mul_left, mul-le-mul_right}

covers : (a m n : ℕ) → 0 < m → 0 < n → a ≤ (a / m / n + 1) * n * m
covers a m n h k = scaled (a / m) (a / m / n + 1) (lt-mul-div-succ a h) (lt-mul-div-succ (a / m) k)
  where
    scaled : (x q : ℕ) → a < m * (x + 1) → x < n * q → a ≤ q * n * m
    scaled x q less more =
        let whole : m * (x + 1) ≤ m * (n * q) = mul-le-mul_left m (ground arith) in ground arith

refilled_enough :
    (c : Config) (now n time : ℕ)
    → 0 < c.max
    → c.window - n ≤ time * c.max
    → c.window ≤ refilled c (now + time) (record { tokens = n; last_refill = now })
refilled_enough c now n time some_max enough =
    let one_each : 1 * c.window ≤ c.max * c.window = mul-le-mul_right c.window (ground arith) in
    let same : now + time - now ≡ time = ground arith in rw same (ground arith)

-- The answer depends on the tokens after the refill alone.
abbrev answer_at : Config → ℕ → Answer
answer_at c n =
    if leb c.window n
    then record { allowed = true; retry_after = 0 }
    else record { allowed = false; retry_after = (c.window - n) / c.max / nanoseconds + 1 }

take-answer_at :
    (c : Config) (now : ℕ) (b : Bucket) → (take c now b).0 ≡ answer_at c (refilled c now b)
unfolding take
take-answer_at c now b = elim (Bool-cases (leb c.window (refilled c now b))) [
  | inl e ↦ rw e refl
  | inr e ↦ rw e refl
]

allowed_at : (c : Config) (n : ℕ) → c.window ≤ n → (answer_at c n).allowed ≡ true
allowed_at c n h = ground arith

waited :
    (c : Config) (now n : ℕ)
    → 0 < c.max
    → (take c
        (now + ((c.window - n) / c.max / nanoseconds + 1) * nanoseconds)
        (record { tokens = n; last_refill = now })).0.allowed
      ≡ true
waited c now n some_max =
    let time = ((c.window - n) / c.max / nanoseconds + 1) * nanoseconds in
    let later : Bucket = record { tokens = n; last_refill = now } in
    ap (λ a. a.allowed) (take-answer_at c (now + time) later)
    ∙ allowed_at c (refilled c (now + time) later) (
        refilled_enough c now n time some_max
          (covers (c.window - n) c.max nanoseconds some_max (ground arith)))

-- When allow refuses with a time to wait, a request of the address that comes after that many
-- seconds, with none between, passes. The maximum is not 0.
pub retry_enough :
    (c : Config) (now : ℕ) (b : Bucket)
    → 0 < c.max
    → (take c now b).0.allowed ≡ false
    → (take c (now + (take c now b).0.retry_after * nanoseconds) (take c now b).1).0.allowed ≡ true
unfolding take
retry_enough c now b some_max refused = elim (Bool-cases (leb c.window (refilled c now b))) [
  | inl e ↦ absurd (ground (arith, e))
  | inr e ↦ rw e (waited c now (refilled c now b) some_max)
]

refilled-full :
    (c : Config) (now : ℕ) (b : Bucket) → c.window ≤ now - b.last_refill → refilled c now b ≡ full c
refilled-full c now b long =
    let covered : c.window * c.max ≤ (now - b.last_refill) * c.max = mul-le-mul_right c.max long in
    ground arith

answer_of :
    (c : Config) (now : ℕ) (a b : Bucket)
    → refilled c now a ≡ refilled c now b
    → (take c now a).0 ≡ (take c now b).0
answer_of c now a b same =
    take-answer_at c now a ∙ ap (answer_at c) same ∙ sym (take-answer_at c now b)

-- Pruning is not noticed: if the window is at most 10 minutes, then a request is answered as it
-- would be had cleanup not run before.
pub cleanup_unseen :
    (c : Config) (pruned now ip : ℕ) (buckets : Buckets)
    → pruned ≤ now
    → c.window ≤ idle_limit
    → (allow c now ip (cleanup pruned buckets)).0 ≡ (allow c now ip buckets).0
unfolding allow cleanup
cleanup_unseen c pruned now ip buckets before short = unseen (buckets ip)
  where
    unseen :
        (o : Option Bucket)
        → (take c now (bucket_of c now (keep_fresh pruned o))).0
          ≡ (take c now (bucket_of c now o)).0
    unseen none = refl
    unseen (some b) = elim (Bool-cases (ltb idle_limit (pruned - b.last_refill))) [
      | inl e ↦ rw e (
          answer_of c now (bucket_of c now none) b
            (ground (arith, refilled-full c now b (ground (arith, e)))))
      | inr e ↦ rw e refl
    ]
