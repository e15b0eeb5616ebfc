-- ===== src/Position/Float/Error.antt =====
-- The error of rounding to float64: at most one part in 2^53, but for values far below 2^-20.
use native.Mathlib.Nat.{
  div-add-mod', mod-lt, mul-le-mul_left, lt_of_mul-lt-mul_right, mul-lt-mul_of_pos_right, mul-pos,
}
use mathlib.Core.Path.{subst}
use docflow_core.Prelude.{
  sym, Bool, ℕ, suc, zero, ◌+◌, ◌*◌, ◌-◌, ◌/◌, ◌%◌, ◌≤◌, ◌<◌, ◌≡◌, ◌⊎◌, inl, inr, refl, true, false,
  Bool-cases, ltb, leb, arith, if◌then◌else◌,
}
use docflow_core.Position.Float.{
  Position, den, nearest, scale_up, scale_down, finer, coarser, round64,
}

chosen :
    (q r d e n : ℕ)
    → e < 2
    → r < d
    → q * d + r ≡ n
    → let m = if ltb (2 * r) d then q else (if ltb d (2 * r) then q + 1 else q + e) in
      (2 * n ≤ 2 * (m * d) + d) × (2 * (m * d) ≤ 2 * n + d)
chosen q r d e n small less split =
    split_case (Bool-cases (ltb (2 * r) d)) (Bool-cases (ltb d (2 * r)))
  where
    split_case :
        (ltb (2 * r) d ≡ true) ⊎ (ltb (2 * r) d ≡ false)
        → (ltb d (2 * r) ≡ true) ⊎ (ltb d (2 * r) ≡ false)
        → let m = if ltb (2 * r) d then q else (if ltb d (2 * r) then q + 1 else q + e) in
          (2 * n ≤ 2 * (m * d) + d) × (2 * (m * d) ≤ 2 * n + d)
    split_case (inl a) b = rw (a) (ground (arith, a, split, less), ground (arith, a, split, less))
    split_case (inr a) (inl b) =
        rw (a, b) (ground (arith, b, split, less), ground (arith, b, split, less))
    split_case (inr a) (inr b) = rw (a, b) (either e small)
      where
        either : (e : ℕ) → e < 2 → (2 * n ≤ 2 * ((q + e) * d) + d) × (2 * ((q + e) * d) ≤ 2 * n + d)
        either zero h = (ground (arith, a, b, split), ground (arith, a, b, split))
        either (suc zero) h = (ground (arith, a, b, split), ground (arith, a, b, split))
        either (suc (suc e)) h = absurd (omega (arith, h))

-- Off by half at most
pub nearest-half :
    (n d : ℕ) → 0 < d → (2 * n ≤ 2 * (nearest n d * d) + d) × (2 * (nearest n d * d) ≤ 2 * n + d)
unfolding nearest
nearest-half n d pos =
    chosen (n / d) (n % d) d (n / d % 2) n (mod-lt (n / d) (omega arith)) (mod-lt n pos)
      (div-add-mod' n d)

scale_up-pos : (f n d : ℕ) → 0 < scale_up f n d
unfolding scale_up
scale_up-pos zero n d = omega arith
scale_up-pos (suc f) n d = ground (arith, scale_up-pos f (2 * n) d)

scale_down-pos : (f n d : ℕ) → 0 < scale_down f n d
unfolding scale_down
scale_down-pos zero n d = omega arith
scale_down-pos (suc f) n d = ground (arith, scale_down-pos f n (2 * d))

-- Two to the steps
abbrev power : ℕ → ℕ
power zero = 1
power (suc f) = 2 * power f

-- The scaled value has 53 bits, or the steps are used up.
scale_up-full :
    (f n d : ℕ) → (4503599627370496 * d ≤ n * scale_up f n d) ⊎ (scale_up f n d ≡ power f)
unfolding scale_up
scale_up-full zero n d = inr refl
scale_up-full (suc f) n d =
    step (Bool-cases (leb (4503599627370496 * d) n)) (scale_up-full f (2 * n) d)
  where
    p : ℕ
    p = scale_up f (2 * n) d

    scaled : Bool → ℕ
    scaled b = if b then 1 else 2 * p

    step :
        (leb (4503599627370496 * d) n ≡ true) ⊎ (leb (4503599627370496 * d) n ≡ false)
        → (4503599627370496 * d ≤ 2 * n * p) ⊎ (p ≡ power f)
        → (4503599627370496 * d ≤ n * scaled (leb (4503599627370496 * d) n))
          ⊎ (scaled (leb (4503599627370496 * d) n) ≡ 2 * power f)
    step (inl e) h = inl (rw (e) (ground (arith, e)))
    step (inr e) (inl h) = inl (rw (e) (omega (arith, h)))
    step (inr e) (inr h) = inr (rw (e) (omega (arith, h)))

scale_down-full :
    (f n d : ℕ) → 4503599627370496 * d ≤ n → 4503599627370496 * (d * scale_down f n d) ≤ n
unfolding scale_down
scale_down-full zero n d h = omega (arith, h)
scale_down-full (suc f) n d h =
    step (Bool-cases (ltb n (9007199254740992 * d))) (scale_down-full f n (2 * d))
  where
    l : ℕ
    l = scale_down f n (2 * d)

    step :
        (ltb n (9007199254740992 * d) ≡ true) ⊎ (ltb n (9007199254740992 * d) ≡ false)
        → (4503599627370496 * (2 * d) ≤ n → 4503599627370496 * (2 * d * l) ≤ n)
        → 4503599627370496 * (d * (if ltb n (9007199254740992 * d) then 1 else 2 * l)) ≤ n
    step (inl e) rest = rw (e) (omega (arith, h))
    step (inr e) rest = rw (e) (omega (arith, rest (ground (arith, e))))

power_large : 4722366482869645213696 ≤ power 1074
power_large = omega arith

-- Not far below 2^-20
abbrev pub IsNormal : ℕ → ℕ → Type 0
IsNormal n d = d ≤ n * 1048576

-- Rounding takes away, and adds, at most one part in 2^53.
abbrev pub IsNear : ℕ → ℕ → Position → Type 0
IsNear n d y =
    (9007199254740991 * (n * den y) ≤ 9007199254740992 * (y.num * d))
    × (9007199254740992 * (y.num * d) ≤ 9007199254740993 * (n * den y))

den_of : (p : ℕ) → 0 < p → suc (p - 1) ≡ p
den_of p h = omega (arith, h)

scaled_full : (n d : ℕ) → IsNormal n d → 4503599627370496 * d ≤ n * scale_up 1074 n d
scaled_full n d normal = full (scale_up-full 1074 n d)
  where
    p : ℕ
    p = scale_up 1074 n d

    full : (4503599627370496 * d ≤ n * p) ⊎ (p ≡ power 1074) → 4503599627370496 * d ≤ n * p
    full (inl h) = h
    full (inr e) = omega (
      arith,
      normal,
      mul-le-mul_left n (subst (λ x. 4722366482869645213696 ≤ x) (sym e) power_large),
    )

finer-IsNear : (n d p : ℕ) → 0 < d → 0 < p → 4503599627370496 * d ≤ n * p → IsNear n d (finer n d p)
finer-IsNear n d p d_pos p_pos full = rw (den_of p p_pos) (
  ground (arith, nearest-half (n * p) d d_pos, full),
  ground (arith, nearest-half (n * p) d d_pos, full),
)

coarser-IsNear :
    (n d l : ℕ) → 0 < d → 0 < l → 4503599627370496 * (d * l) ≤ n → IsNear n d (coarser n d l)
coarser-IsNear n d l d_pos l_pos full =
    let half = nearest-half n (d * l) (mul-pos d_pos l_pos) in
    (ground (arith, half, full), ground (arith, half, full))

pub round64-IsNear : (n d : ℕ) → 0 < d → IsNormal n d → IsNear n d (round64 n d)
unfolding round64
round64-IsNear n d pos normal = near (leb (4503599627370496 * d) n) refl
  where
    near :
        (b : Bool)
        → leb (4503599627370496 * d) n ≡ b
        → IsNear n d (if b then coarser n d (scale_down 971 n d) else finer n d (scale_up 1074 n d))
    near true e =
        coarser-IsNear n d (scale_down 971 n d) pos (scale_down-pos 971 n d)
          (scale_down-full 971 n d (ground (arith, e)))
    near false e =
        finer-IsNear n d (scale_up 1074 n d) pos (scale_up-pos 1074 n d) (scaled_full n d normal)

finer-small :
    (n d p m : ℕ)
    → 0 < d
    → 0 < p
    → (4503599627370496 * d ≤ n * p) ⊎ (1048576 ≤ p)
    → 2 * (m * d) ≤ 2 * (n * p) + d
    → 1200 * n < d
    → m * 1152921504606846976 < 1152921504606847 * p
finer-small n d p m d_pos p_pos full half small = lt_of_mul-lt-mul_right d (bound full)
  where
    scaled : 1200 * n * p < d * p
    scaled = mul-lt-mul_of_pos_right small p_pos

    bound :
        (4503599627370496 * d ≤ n * p) ⊎ (1048576 ≤ p)
        → m * 1152921504606846976 * d < 1152921504606847 * p * d
    bound (inl h) = omega (arith, h, half, scaled, d_pos)
    bound (inr h) = omega (arith, mul-le-mul_left d h, half, scaled)

-- A value below 1/1200 is rounded to one below the float64 that `0.001` is.
pub round64-small :
    (n d : ℕ)
    → 0 < d
    → 1200 * n < d
    → (round64 n d).num * 1152921504606846976 < 1152921504606847 * den (round64 n d)
unfolding round64
round64-small n d pos small = below (leb (4503599627370496 * d) n) refl
  where
    p : ℕ
    p = scale_up 1074 n d

    steps : (4503599627370496 * d ≤ n * p) ⊎ (1048576 ≤ p)
    steps = elim (scale_up-full 1074 n d) [
      | inl h ↦ inl h
      | inr e ↦ inr (omega (arith, subst (λ x. 4722366482869645213696 ≤ x) (sym e) power_large))
    ]

    below :
        (b : Bool)
        → leb (4503599627370496 * d) n ≡ b
        → let y = if b then coarser n d (scale_down 971 n d) else finer n d p in
          y.num * 1152921504606846976 < 1152921504606847 * den y
    below true e = absurd (ground (arith, e, small))
    below false e = rw (den_of p (scale_up-pos 1074 n d)) (
        finer-small n d p (nearest (n * p) d) pos (scale_up-pos 1074 n d) steps
          (nearest-half (n * p) d pos).1 small)
