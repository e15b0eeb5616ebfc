-- ===== src/Position/Order.antt =====
-- The order of positions, and what midpoints and gaps have to do with it.
use native.Mathlib.Nat.{
  mul-le-mul_right, mul-lt-mul_of_pos_right, le_of_mul-le-mul_right, lt_of_mul-lt-mul_right,
  mul-pos,
}
use docflow_core.Position.Float.{round64}
use docflow_core.Position.Float.Error.{IsNear, IsNormal, round64-IsNear, round64-small}
use mathlib.Core.Path.{subst}
use docflow_core.Prelude.{
  Bool, sym, Bool-cases, ltb, ltb→lt, ◌⊎◌, inl, inr, lt→ltb, true, ℕ, ◌+◌, ◌*◌, ◌-◌, ◌≤◌, ◌<◌, ◌≡◌,
  false, arith,
}
use docflow_core.Position.{
  of_ℕ, lt_pos, Position, den, add_thousand, needs_rebalance, difference, between,
}

infix 50 ◌≺◌ ◌≼◌
-- `a` is strictly below `b`.
abbrev pub ◌≺◌ : Position → Position → Type 0
a ≺ b = a.num * den b < b.num * den a

abbrev pub ◌≼◌ : Position → Position → Type 0
a ≼ b = a.num * den b ≤ b.num * den a

-- Fractions `a / A`, `b / B` and `c / C` are compared by their cross products.
cross_le : (a a' b b' c c' : ℕ) → 0 < b' → a * b' ≤ b * a' → b * c' ≤ c * b' → a * c' ≤ c * a'
cross_le a a' b b' c c' pos h k =
    le_of_mul-le-mul_right {k = b'} (omega (arith, mul-le-mul_right c' h, mul-le-mul_right a' k))
      pos

cross_lt_le : (a a' b b' c c' : ℕ) → 0 < c' → a * b' < b * a' → b * c' ≤ c * b' → a * c' < c * a'
cross_lt_le a a' b b' c c' pos h k =
    lt_of_mul-lt-mul_right b' (omega (arith, mul-lt-mul_of_pos_right h pos, mul-le-mul_right a' k))

cross_le_lt : (a a' b b' c c' : ℕ) → 0 < a' → a * b' ≤ b * a' → b * c' < c * b' → a * c' < c * a'
cross_le_lt a a' b b' c c' pos h k =
    lt_of_mul-lt-mul_right b' (omega (arith, mul-le-mul_right c' h, mul-lt-mul_of_pos_right k pos))

pub ≼_trans : (a b c : Position) → a ≼ b → b ≼ c → a ≼ c
≼_trans a b c = cross_le a.num (den a) b.num (den b) c.num (den c) (omega arith)

pub ≺_of_≺_of_≼ : (a b c : Position) → a ≺ b → b ≼ c → a ≺ c
≺_of_≺_of_≼ a b c = cross_lt_le a.num (den a) b.num (den b) c.num (den c) (omega arith)

pub ≺_of_≼_of_≺ : (a b c : Position) → a ≼ b → b ≺ c → a ≺ c
≺_of_≼_of_≺ a b c = cross_le_lt a.num (den a) b.num (den b) c.num (den c) (omega arith)

-- At most 2^39, and at most 2^40: floats there are no more than 2^-13 apart.
abbrev pub IsModest : Position → Type 0
IsModest p = p.num ≤ 549755813888 * den p

abbrev IsModerate : Position → Type 0
IsModerate p = p.num ≤ 1099511627776 * den p

-- `b` is above `a` by 1/1200 at least.
abbrev pub IsWide : Position → Position → Type 0
IsWide a b = den a * den b ≤ 1200 * (b.num * den a - a.num * den b)

-- Two roundings, the second of half of what the first gives
twice_low :
    (x g m e n f : ℕ)
    → 0 < e
    → 9007199254740991 * (x * e) ≤ 9007199254740992 * (m * g)
    → 9007199254740991 * (m * f) ≤ 9007199254740992 * (n * (2 * e))
    → 9007199254740991 * 9007199254740991 * (x * f)
      ≤ 9007199254740992 * 9007199254740992 * (2 * (n * g))
twice_low x g m e n f pos h k =
    le_of_mul-le-mul_right {k = e} (omega (arith, mul-le-mul_right f h, mul-le-mul_right g k)) pos

twice_high :
    (x g m e n f : ℕ)
    → 0 < e
    → 9007199254740992 * (m * g) ≤ 9007199254740993 * (x * e)
    → 9007199254740992 * (n * (2 * e)) ≤ 9007199254740993 * (m * f)
    → 9007199254740992 * 9007199254740992 * (2 * (n * g))
      ≤ 9007199254740993 * 9007199254740993 * (x * f)
twice_high x g m e n f pos h k =
    le_of_mul-le-mul_right {k = e} (omega (arith, mul-le-mul_right f h, mul-le-mul_right g k)) pos

-- The midpoint u / g + v / g over 2, rounded twice, against both
inside :
    (u v g n f : ℕ)
    → 0 < f
    → g ≤ 1200 * (v - u)
    → u ≤ 1099511627776 * g
    → v ≤ 1099511627776 * g
    → 0 < g
    → 9007199254740991 * 9007199254740991 * ((u + v) * f)
      ≤ 9007199254740992 * 9007199254740992 * (2 * (n * g))
    → 9007199254740992 * 9007199254740992 * (2 * (n * g))
      ≤ 9007199254740993 * 9007199254740993 * ((u + v) * f)
    → (u * f < n * g) × (n * g < v * f)
inside u v g n f f_pos wide u_small v_small g_pos low high = (
  omega (arith, low, mul-lt-mul_of_pos_right below f_pos),
  omega (arith, high, mul-lt-mul_of_pos_right above f_pos),
)
  where
    below :
        9007199254740992 * 9007199254740992 * (2 * u)
        < 9007199254740991 * 9007199254740991 * (u + v)
    below = omega (arith, wide, u_small, v_small, g_pos)

    above :
        9007199254740993 * 9007199254740993 * (u + v)
        < 9007199254740992 * 9007199254740992 * (2 * v)
    above = omega (arith, wide, u_small, v_small, g_pos)

-- The midpoint of a gap of 1/1200 or more, between positions of at most 2^40, lies strictly inside.
between-moderate :
    (a b : Position)
    → IsModerate a
    → IsModerate b
    → IsWide a b
    → (a ≺ between a b) × (between a b ≺ b)
unfolding between
between-moderate a b a_small b_small wide = (
  lt_of_mul-lt-mul_right (den b) (omega (arith, fits.0)),
  lt_of_mul-lt-mul_right (den a) (omega (arith, fits.1)),
)
  where
    u : ℕ
    u = a.num * den b

    v : ℕ
    v = b.num * den a

    g : ℕ
    g = den a * den b

    sum : Position
    sum = round64 (u + v) g

    mid : Position
    mid = round64 sum.num (2 * den sum)

    g_pos : 0 < g
    g_pos = mul-pos {m = den a} {n = den b} (omega arith) (omega arith)

    near : IsNear (u + v) g sum
    near = round64-IsNear (u + v) g g_pos (omega (arith, wide))

    sum_normal : IsNormal sum.num (2 * den sum)
    sum_normal = omega (
      arith,
      le_of_mul-le-mul_right {m = den sum} {n = 2000 * sum.num} {k = g}
          (omega (arith, near.0, mul-le-mul_right (den sum) wide_sum)) g_pos,
    )
      where
        wide_sum : g ≤ 1200 * (u + v)
        wide_sum = omega (arith, wide)

    half : IsNear sum.num (2 * den sum) mid
    half = round64-IsNear sum.num (2 * den sum) (omega arith) sum_normal

    fits : (u * den mid < mid.num * g) × (mid.num * g < v * den mid)
    fits =
        inside u v g mid.num (den mid) (omega arith) wide
          (omega (arith, mul-le-mul_right (den b) a_small))
          (omega (arith, mul-le-mul_right (den a) b_small)) g_pos
          (twice_low (u + v) g sum.num (den sum) mid.num (den mid) (omega arith) near.0 half.0)
          (twice_high (u + v) g sum.num (den sum) mid.num (den mid) (omega arith) near.1 half.1)

not_below : (m n : ℕ) → ltb m n ≡ false → n ≤ m
not_below m n h = ground arith

clash : (b : Bool) → b ≡ true → b ≡ false → ⊥
clash b h k = absurd (cc)

-- A gap that needs no rebalancing is wide.
pub gap-IsWide : (a b : Position) → needs_rebalance a b ≡ false → IsWide a b
unfolding needs_rebalance difference
gap-IsWide a b h = wide (Bool-cases (ltb (1200 * n) g))
  where
    n : ℕ
    n = b.num * den a - a.num * den b

    g : ℕ
    g = den a * den b

    wide : (ltb (1200 * n) g ≡ true) ⊎ (ltb (1200 * n) g ≡ false) → g ≤ 1200 * n
    wide (inr e) = not_below (1200 * n) g e
    wide (inl e) = absurd (
        clash _
          (lt→ltb _ _ (
            round64-small n g (mul-pos {m = den a} {n = den b} (omega arith) (omega arith))
              (ltb→lt (1200 * n) g e)))
          h)

add-IsNear : (p : Position) → IsNear (p.num + 1000 * den p) (den p) (add_thousand p)
unfolding add_thousand
add-IsNear p = round64-IsNear (p.num + 1000 * den p) (den p) (omega arith) (omega arith)

-- 1000 more is more by 999 at least, and at most 2^40.
pub above-add_thousand :
    (p : Position)
    → IsModest p
    → (p.num + 999 * den p) * den (add_thousand p) ≤ (add_thousand p).num * den p
above-add_thousand p small =
    omega (arith, (add-IsNear p).0, mul-le-mul_right (den (add_thousand p)) small)

add_thousand-IsModerate : (p : Position) → IsModest p → IsModerate (add_thousand p)
add_thousand-IsModerate p small =
    le_of_mul-le-mul_right {k = den p}
      (omega (arith, (add-IsNear p).1, mul-le-mul_right (den (add_thousand p)) small)) (omega arith)

pub ≺-add_thousand : (p : Position) → IsModest p → p ≺ add_thousand p
≺-add_thousand p small = omega (
  arith,
  above-add_thousand p small,
  mul-pos {m = den p} {n = den (add_thousand p)} (omega arith) (omega arith),
)

≺_of_IsWide : (a b : Position) → IsWide a b → a ≺ b
≺_of_IsWide a b h = omega (arith, h, mul-pos {m = den a} {n = den b} (omega arith) (omega arith))

IsModerate-of_modest : (p : Position) → IsModest p → IsModerate p
IsModerate-of_modest p h = omega (arith, h)

-- The same, for positions of at most 2^39, or 1000 more than such a one
pub ≺-between :
    (a b : Position)
    → IsModest a
    → IsModest b ⊎ ((p : Position) × IsModest p × (b ≡ add_thousand p))
    → IsWide a b
    → (a ≺ between a b) × (between a b ≺ b)
≺-between a b a_small (inl b_small) wide =
    between-moderate a b (IsModerate-of_modest a a_small) (IsModerate-of_modest b b_small) wide
≺-between a b a_small (inr (p, p_small, e)) wide =
    between-moderate a b (IsModerate-of_modest a a_small)
      (subst IsModerate (sym e) (add_thousand-IsModerate p p_small)) wide

-- What is below p is far below 1000 more than p.
pub IsWide-add_thousand : (a p : Position) → IsModest p → a ≺ p → IsWide a (add_thousand p)
IsWide-add_thousand a p small below = omega (
  arith,
  cross_le (a.num + 999 * den a) (den a) (p.num + 999 * den p) (den p) (add_thousand p).num
      (den (add_thousand p)) (omega arith) (omega (arith, below)) (above-add_thousand p small),
  mul-pos {m = den a} {n = den (add_thousand p)} (omega arith) (omega arith),
)

-- Different positions of whole thousands are wide apart.
pub IsWide-thousands :
    (i j : ℕ) → of_ℕ (i * 1000) ≺ of_ℕ (j * 1000) → IsWide (of_ℕ (i * 1000)) (of_ℕ (j * 1000))
IsWide-thousands i j h = omega (arith, h)

-- Where no rebalancing is called for, between positions of at most 2^39, the rounded midpoint lies
-- strictly between the two, as the comparison of floats decides it, and 1000 more, rounded, lies
-- strictly above the upper one.
pub midpoint_fits :
    (below above : Position)
    → IsModest below
    → IsModest above
    → needs_rebalance below above ≡ false
    → (lt_pos below (between below above) ≡ true)
      × (lt_pos (between below above) above ≡ true)
      × (lt_pos above (add_thousand above) ≡ true)
midpoint_fits a b a_small b_small h =
    let (low, high) = ≺-between a b a_small (inl b_small) (gap-IsWide a b h) in
    (lt→ltb _ _ low, lt→ltb _ _ high, lt→ltb _ _ (≺-add_thousand b b_small))
