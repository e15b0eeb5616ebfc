-- ===== src/Position/Rows/Extremes.antt =====
-- MAX and MIN are bounds, and are taken on by a row.
use docflow_core.Prelude.{
  ◌≡◌, refl, sym, true, false, Bool, Bool-cases, Option, none, some, List, [], ◌∷◌, arith,
  if◌then◌else◌, select, Every, inl, inr,
}
use mathlib.Core.Path.{subst}
use docflow_core.Position.{Position, lt_pos}
use docflow_core.Position.Order.{◌≼◌, ≼_trans}
use docflow_core.Position.Rows.{extreme, highest, lowest}

module _ {A : Type 0} where
  pub Every-map : (P Q : A → Type 0) (xs : List A) → ((x : A) → P x → Q x) → Every P xs → Every Q xs
  Every-map P Q [] f h = tt
  Every-map P Q (x ∷ xs) f (h, hs) = (f x h, Every-map P Q xs f hs)

  pass :
      (P : A → Type 0) (b : A → Bool) (x : A) (xs : List A) (t : Bool)
      → b x ≡ t
      → (Every P (select b xs) → Every (λ y. b y ≡ true → P y) xs)
      → Every P (if t then x ∷ select b xs else select b xs)
      → (b x ≡ true → P x) × Every (λ y. b y ≡ true → P y) xs
  pass P b x xs true e rest (h, hs) = (λ _. h, rest hs)
  pass P b x xs false e rest hs = (λ f. absurd (cc), rest hs)

  -- What holds of the rows selected holds of all rows that pass the test.
  pub Every-select :
      (P : A → Type 0) (b : A → Bool) (xs : List A)
      → Every P (select b xs)
      → Every (λ x. b x ≡ true → P x) xs
  Every-select P b [] h = tt
  Every-select P b (x ∷ xs) h = pass P b x xs (b x) refl (Every-select P b xs) h

  selected :
      (b : A → Bool) (x : A) (xs : List A) (t : Bool)
      → b x ≡ t
      → Every (λ y. b y ≡ true) (select b xs)
      → Every (λ y. b y ≡ true) (if t then x ∷ select b xs else select b xs)
  selected b x xs true e rest = (e, rest)
  selected b x xs false e rest = rest

  pub Every-selected : (b : A → Bool) (xs : List A) → Every (λ x. b x ≡ true) (select b xs)
  Every-selected b [] = tt
  Every-selected b (x ∷ xs) = selected b x xs (b x) refl (Every-selected b xs)

module _ (beats : Position → Position → Bool) where
  abbrev best : Position → Option Position → Option Position
  best p o = elim o [ none ↦ some p | some q ↦ some (if beats p q then p else q) ]

  pub extreme-none : (ps : List Position) → extreme beats ps ≡ none → ps ≡ []
  extreme-none [] h = refl
  extreme-none (p ∷ ps) h = absurd (taken (extreme beats ps) h)
    where
      taken : (o : Option Position) → best p o ≡ none → ⊥
      taken none e = cc
      taken (some q) e = cc

  chosen :
      (P : Position → Type 0) (p : Position) (o : Option Position) (m : Position)
      → best p o ≡ some m
      → P p
      → ((q : Position) → o ≡ some q → P q)
      → P m
  chosen P p none m e h k = subst P (cc) h
  chosen P p (some q) m e h k = elim (Bool-cases (beats p q)) [
    | inl won_it ↦ let same : p ≡ m = ground arith in subst P same h
    | inr lost_it ↦ let same : q ≡ m = ground arith in subst P same (k q refl)
  ]

  -- The extreme is one of the positions.
  pub extreme_taken :
      (P : Position → Type 0) (ps : List Position) (m : Position)
      → Every P ps
      → extreme beats ps ≡ some m
      → P m
  extreme_taken P [] m hs h = absurd (cc)
  extreme_taken P (p ∷ ps) m (k, ks) h =
      chosen P p (extreme beats ps) m h k (λ q e. extreme_taken P ps q ks e)

  module _ (Below : Position → Position → Type 0) (below_self : (p : Position) → Below p p)
      (below_trans : (a b c : Position) → Below a b → Below b c → Below a c)
      (won : (p q : Position) → beats p q ≡ true → Below q p)
      (lost : (p q : Position) → beats p q ≡ false → Below p q) where
    bound :
        (p : Position) (ps : List Position) (o : Option Position) (m : Position)
        → extreme beats ps ≡ o
        → best p o ≡ some m
        → ((q : Position) → o ≡ some q → Every (λ x. Below x q) ps)
        → Every (λ x. Below x m) (p ∷ ps)
    bound p ps none m e h rest =
        let same : p ≡ m = cc in
        (
          subst (Below p) same (below_self p),
          subst (Every (λ x. Below x m)) (sym (extreme-none ps e)) tt,
        )
    bound p ps (some q) m e h rest = elim (Bool-cases (beats p q)) [
      | inl won_it ↦
          let same : p ≡ m = ground arith in
          subst (λ x. Every (λ y. Below y x) (p ∷ ps)) same
            (
              below_self p,
              Every-map _ _ ps (λ x k. below_trans x q p k (won p q won_it)) (rest q refl),
            )
      | inr lost_it ↦
          let same : q ≡ m = ground arith in
          subst (λ x. Every (λ y. Below y x) (p ∷ ps)) same (lost p q lost_it, rest q refl)
    ]

    -- The extreme bounds the positions.
    extreme-Every :
        (ps : List Position) (m : Position) → extreme beats ps ≡ some m → Every (λ p. Below p m) ps
    extreme-Every [] m h = tt
    extreme-Every (p ∷ ps) m h =
        bound p ps (extreme beats ps) m refl h (λ q e. extreme-Every ps q e)

not_lt : (p q : Position) → lt_pos q p ≡ false → p ≼ q
not_lt p q h = ground arith

lt_le : (p q : Position) → lt_pos p q ≡ true → p ≼ q
lt_le p q h = ground arith

pub ≼_refl : (p : Position) → p ≼ p
≼_refl p = omega arith

pub highest-Every :
    (ps : List Position) (m : Position) → highest ps ≡ some m → Every (λ p. p ≼ m) ps
highest-Every =
    extreme-Every (λ p q. lt_pos q p) ◌≼◌ ≼_refl ≼_trans (λ p q h. lt_le q p h)
      (λ p q h. not_lt p q h)

pub lowest-Every : (ps : List Position) (m : Position) → lowest ps ≡ some m → Every (λ p. m ≼ p) ps
lowest-Every =
    extreme-Every lt_pos (λ p q. q ≼ p) ≼_refl (λ a b c h k. ≼_trans c b a k h)
      (λ p q h. lt_le p q h) (λ p q h. not_lt q p h)
