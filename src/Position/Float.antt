-- ===== src/Position/Float.antt =====
-- float64: rounding to the nearest value with a significand of 53 bits, ties to even, and no finer
-- than 2^-1074. Beyond 2^1024, where Go has an infinity, the model rounds on.
pub mod Error
use docflow_core.Prelude.{
  ℕ, suc, zero, ◌+◌, ◌*◌, ◌-◌, ◌/◌, ◌%◌, Bool, ltb, leb, ◌==◌, if◌then◌else◌,
}

-- `num / suc below_den`, so that no denominator is zero
pub record Position : Type 0 where
  pub num : ℕ
  pub below_den : ℕ

abbrev pub den : Position → ℕ
den p = suc p.below_den

-- The whole number nearest to n / d, the even one of two
unfoldable pub nearest : ℕ → ℕ → ℕ
nearest n d =
    let q = n / d in
    let r = n % d in if ltb (2 * r) d then q else (if ltb d (2 * r) then q + 1 else q + q % 2)

-- The power of two by which n / d is multiplied to have 53 bits, at most 2 to the steps
unfoldable pub scale_up : ℕ → ℕ → ℕ → ℕ
scale_up zero n d = 1
scale_up (suc steps) n d =
    let rest = 2 * scale_up steps (2 * n) d in if leb (4503599627370496 * d) n then 1 else rest

-- The power of two by which n / d is divided to have 53 bits
unfoldable pub scale_down : ℕ → ℕ → ℕ → ℕ
scale_down zero n d = 1
scale_down (suc steps) n d =
    let rest = 2 * scale_down steps n (2 * d) in if ltb n (9007199254740992 * d) then 1 else rest

abbrev pub finer : ℕ → ℕ → ℕ → Position
finer n d p = record { num = nearest (n * p) d; below_den = p - 1 }

abbrev pub coarser : ℕ → ℕ → ℕ → Position
coarser n d p = record { num = nearest n (d * p) * p; below_den = 0 }

-- n / d as a float64
unfoldable pub round64 : ℕ → ℕ → Position
unfolding nearest scale_up scale_down
round64 n d =
    if leb (4503599627370496 * d) n
    then coarser n d (scale_down 971 n d)
    else finer n d (scale_up 1074 n d)
