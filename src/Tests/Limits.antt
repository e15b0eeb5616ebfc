-- ===== src/Tests/Limits.antt =====
-- A limit of two requests in ten seconds.
use docflow_core.Prelude.{◌≤◌, ◌≤◌, ℕ, ◌+◌, ◌*◌, ◌≡◌, refl, true, some, List, [], ◌∷◌, arith}
use docflow_core.Middleware.RateLimit.{
  Config, Bucket, Buckets, nanoseconds, take, allow, cleanup, full,
}
use docflow_core.Middleware.RateLimit.Bound.{passed, total, passed_bounded}
use docflow_core.Middleware.RateLimit.Retry.{retry_enough, cleanup_unseen}

abbrev two_in_ten : Config
two_in_ten = record { max = 2; window = 10 * nanoseconds }

abbrev bucket : ℕ → Bucket
bucket tokens = record { tokens = tokens; last_refill = 0 }

abbrev gaps : List ℕ
gaps = 0 ∷ 0 ∷ 0 ∷ 5 * nanoseconds ∷ []

passed_bounded_example :
    passed two_in_ten 0 (bucket (full two_in_ten)) gaps * two_in_ten.window
    ≤ full two_in_ten + total gaps * two_in_ten.max
passed_bounded_example = passed_bounded two_in_ten 0 (bucket (full two_in_ten)) gaps refl

three_pass : passed two_in_ten 0 (bucket (full two_in_ten)) gaps ≡ 3
unfolding passed take
three_pass = refl

retry_enough_example :
    (take two_in_ten
      (0 + (take two_in_ten 0 (bucket 5)).0.retry_after * nanoseconds)
      (take two_in_ten 0 (bucket 5)).1).0.allowed
    ≡ true
unfolding take
retry_enough_example = retry_enough two_in_ten 0 (bucket 5) (omega arith) refl

abbrev buckets : Buckets
buckets ip = some (bucket 5)

cleanup_unseen_example :
    (allow two_in_ten (700 * nanoseconds) 4 (cleanup (650 * nanoseconds) buckets)).0
    ≡ (allow two_in_ten (700 * nanoseconds) 4 buckets).0
cleanup_unseen_example =
    cleanup_unseen two_in_ten (650 * nanoseconds) (700 * nanoseconds) 4 buckets (omega arith)
      (omega arith)
