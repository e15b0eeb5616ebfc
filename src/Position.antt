-- ===== src/Position.antt =====
-- Fractional positions of columns and cards: internal/utils/fractional.go. A position is a
-- non-negative float64, kept as the fraction that it is.
pub mod Float
pub mod Order
pub mod Rows
use docflow_core.Prelude.{ℕ, suc, ◌+◌, ◌*◌, ◌-◌, Bool, ltb}
pub use Float.{Position, den}
use Float.{round64}

abbrev pub of_ℕ : ℕ → Position
of_ℕ n = record { num = n; below_den = 0 }

-- `a < b` on float64
abbrev pub lt_pos : Position → Position → Bool
lt_pos a b = ltb (a.num * den b) (b.num * den a)

-- `p + 1000.0`
unfoldable pub add_thousand : Position → Position
unfolding round64
add_thousand p = round64 (p.num + 1000 * den p) (den p)

-- `above - below`, 0 where it is negative
unfoldable pub difference : Position → Position → Position
unfolding round64
difference above below =
    round64 (above.num * den below - below.num * den above) (den below * den above)

-- The float64 that `0.001` is: 1152921504606847 / 2^60
abbrev pub threshold : Position
threshold = record { num = 1152921504606847; below_den = 1152921504606846975 }

-- `(above - below) < 0.001`
unfoldable pub needs_rebalance : Position → Position → Bool
unfolding difference
needs_rebalance below above = lt_pos (difference above below) threshold

-- `(below + above) / 2.0`
unfoldable pub between : Position → Position → Position
unfolding round64
between below above =
    let sum = round64 (below.num * den above + above.num * den below) (den below * den above) in
    round64 sum.num (2 * den sum)
