-- ===== src/Tests/Positions.antt =====
-- Positions of 1000 and 2000.
use docflow_core.Prelude.{arith, ◌≡◌, refl, true}
use docflow_core.Position.{of_ℕ, between, needs_rebalance, difference, lt_pos, add_thousand}
use docflow_core.Position.Float.{round64, nearest, scale_up, scale_down}
use docflow_core.Position.Order.{midpoint_fits}

midpoint_fits_example :
    (lt_pos (of_ℕ 1000) (between (of_ℕ 1000) (of_ℕ 2000)) ≡ true)
    × (lt_pos (between (of_ℕ 1000) (of_ℕ 2000)) (of_ℕ 2000) ≡ true)
    × (lt_pos (of_ℕ 2000) (add_thousand (of_ℕ 2000)) ≡ true)
unfolding needs_rebalance difference round64 nearest scale_up scale_down
midpoint_fits_example = midpoint_fits (of_ℕ 1000) (of_ℕ 2000) (omega arith) (omega arith) refl
