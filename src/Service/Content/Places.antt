-- ===== src/Service/Content/Places.antt =====
-- Where new and moved cards come to stand in their column.
use docflow_core.Prelude.{
  Bool, false, ◌⊎◌, inl, inr, if◌then◌else◌, ℕ, ◌≡◌, refl, sym, true, Option, none, some, get_or,
  List, [], ◌∷◌, arith, select, Every, ltb→lt,
}
use mathlib.Core.Path.{subst, subst₂}
use docflow_core.Position.{Position, of_ℕ, lt_pos, add_thousand, needs_rebalance}
use docflow_core.Position.Order.{
  IsModest, IsWide, gap-IsWide, IsWide-add_thousand, IsWide-thousands, ◌≺◌, ◌≼◌, ≺_of_≺_of_≼,
  ≺_of_≼_of_≺, ≺-between, ≺-add_thousand,
}
use docflow_core.Position.Rows.{extreme, highest, lowest}
use docflow_core.Position.Rows.Extremes.{
  Every-map, Every-select, Every-selected, extreme_taken, extreme-none, highest-Every, lowest-Every,
}
use docflow_core.Model.Store.{Store}
use docflow_core.Repo.Cards.{card_positions, position_below, position_above}
use docflow_core.Service.Content.Rules.{landing, made_room}
use docflow_core.Repo.Cards.Writing.{rebalanced}
use docflow_core.Repo.Cards.Placing.{IsThousands, rebalanced-IsThousands}

pub below_highest :
    (o : Option Position) (z : Position) (ps : List Position)
    → highest ps ≡ o
    → Every (λ p. p ≼ get_or o z) ps
below_highest none z ps e = subst (Every (λ p. p ≼ z)) (sym (extreme-none _ ps e)) tt
below_highest (some m) z ps e = highest-Every ps m e

above_lowest :
    (o : Option Position) (z : Position) (ps : List Position)
    → lowest ps ≡ o
    → Every (λ p. get_or o z ≼ p) ps
above_lowest none z ps e = subst (Every (λ p. z ≼ p)) (sym (extreme-none _ ps e)) tt
above_lowest (some m) z ps e = lowest-Every ps m e

Every-both :
    {A : Type 0} (P Q : A → Type 0) (xs : List A)
    → Every P xs
    → Every Q xs
    → Every (λ x. P x × Q x) xs
Every-both P Q [] h k = tt
Every-both P Q (x ∷ xs) (h, hs) (k, ks) = ((h, k), Every-both P Q xs hs ks)

≼_of_≺ : (p q : Position) → p ≺ q → p ≼ q
≼_of_≺ p q h = omega (arith, h)

-- The reference position lies above what is chosen below it.
below_ref :
    (ref : Position) (ps : List Position)
    → of_ℕ 0 ≺ ref
    → get_or (highest (select (λ p. lt_pos p ref) ps)) (of_ℕ 0) ≺ ref
below_ref ref ps h = go (highest below) refl
  where
    below : List Position
    below = select (λ p. lt_pos p ref) ps

    go : (o : Option Position) → highest below ≡ o → get_or o (of_ℕ 0) ≺ ref
    go none e = h
    go (some m) e = ltb→lt _ _ (extreme_taken _ _ below m (Every-selected _ ps) e)

above_ref :
    (ref : Position) (ps : List Position)
    → IsModest ref
    → ref ≺ get_or (lowest (select (λ p. lt_pos ref p) ps)) (add_thousand ref)
above_ref ref ps small = go (lowest above) refl
  where
    above : List Position
    above = select (λ p. lt_pos ref p) ps

    go : (o : Option Position) → lowest above ≡ o → ref ≺ get_or o (add_thousand ref)
    go none e = ≺-add_thousand ref small
    go (some m) e = ltb→lt _ _ (extreme_taken _ _ above m (Every-selected _ ps) e)

Every-chosen :
    {A : Type 0} (P : A → Type 0) (q : A → Bool) (xs : List A) → Every P xs → Every P (select q xs)
Every-chosen P q [] all = tt
Every-chosen P q (x ∷ xs) (here, all) =
    elim (q x) as (λ b. Every P (if b then x ∷ select q xs else select q xs)) [
      | true ↦ (here, Every-chosen P q xs all)
      | false ↦ Every-chosen P q xs all
    ]

-- The chosen position is one of the column's, or the one that stands in for none.
taken :
    (P : Position → Type 0) (beats : Position → Position → Bool) (q : Position → Bool)
    (ps : List Position) (o : Option Position) (z : Position)
    → Every P ps
    → extreme beats (select q ps) ≡ o
    → P (get_or o z) ⊎ (get_or o z ≡ z)
taken P beats q ps none z all e = inr refl
taken P beats q ps (some m) z all e =
    inl (extreme_taken beats P (select q ps) m (Every-chosen P q ps all) e)

module _ (column : ℕ) (ref : Position) (pos : of_ℕ 0 ≺ ref) (small : IsModest ref) where
  below-≺ : (t : Store) → position_below column ref t ≺ ref
  below-≺ t = below_ref ref (card_positions column t) pos

  ≺-above : (t : Store) → ref ≺ position_above column ref t
  ≺-above t = above_ref ref (card_positions column t) small

  below_above : (t : Store) → position_below column ref t ≺ position_above column ref t
  below_above t =
      ≺_of_≺_of_≼ (position_below column ref t) ref (position_above column ref t) (below-≺ t)
        (≼_of_≺ ref (position_above column ref t) (≺-above t))

  thousands :
      (b a : Position)
      → b ≺ ref
      → b ≺ a
      → IsThousands b ⊎ (b ≡ of_ℕ 0)
      → IsThousands a ⊎ (a ≡ add_thousand ref)
      → IsWide b a
  thousands b a low gap x (inr e) = subst (IsWide b) (sym e) (IsWide-add_thousand b ref small low)
  thousands b a low gap (inl (i, e)) (inl (j, f)) =
      subst₂ IsWide (sym e) (sym f) (IsWide-thousands i j (subst₂ (λ x y. x ≺ y) e f gap))
  thousands b a low gap (inr e) (inl (j, f)) =
      subst₂ IsWide (sym e) (sym f) (IsWide-thousands 0 j (subst₂ (λ x y. x ≺ y) e f gap))

  -- Between its neighbours the new position has room, if need be after the column is rebalanced.
  room :
      (s : Store) (b : Bool)
      → needs_rebalance (position_below column ref s) (position_above column ref s) ≡ b
      → let t = if b then rebalanced column s else s in
        IsWide (position_below column ref t) (position_above column ref t)
  room s false e = gap-IsWide (position_below column ref s) (position_above column ref s) e
  room s true e =
      let t = rebalanced column s in
      let all = rebalanced-IsThousands column s in
      thousands (position_below column ref t) (position_above column ref t) (below-≺ t)
        (below_above t)
        (taken IsThousands _ (λ p. lt_pos p ref) (card_positions column t) _ (of_ℕ 0) all refl)
        (taken IsThousands _ (λ p. lt_pos ref p) (card_positions column t) _ (add_thousand ref) all
          refl)

  module _ (s : Store) (low : Every IsModest (card_positions column (made_room column ref s))) where
    abbrev t : Store
    t = made_room column ref s

    below-IsModest : IsModest (position_below column ref t)
    below-IsModest =
        elim (taken IsModest _ (λ p. lt_pos p ref) (card_positions column t) _ (of_ℕ 0) low refl) [
          | inl h ↦ h
          | inr e ↦ subst IsModest (sym e) (omega arith)
        ]

    above-IsModest :
        IsModest (position_above column ref t)
        ⊎ ((p : Position) × IsModest p × (position_above column ref t ≡ add_thousand p))
    above-IsModest =
        elim (taken IsModest _ (λ p. lt_pos ref p) (card_positions column t) _ (add_thousand ref)
          low refl) [ inl h ↦ inl h | inr e ↦ inr (ref, small, e) ]

    fits :
        (position_below column ref t ≺ landing column ref t)
        × (landing column ref t ≺ position_above column ref t)
    fits =
        ≺-between (position_below column ref t) (position_above column ref t) below-IsModest
          above-IsModest (room s _ refl)

    -- The place in the gap is above what is below the reference position, and below what is above
    -- it.
    pub landing_fits :
        Every
          (λ p.
            (lt_pos p ref ≡ true → p ≺ landing column ref t)
            × (lt_pos ref p ≡ true → landing column ref t ≺ p))
          (card_positions column t)
    landing_fits =
        let ps = card_positions column t in
        Every-both _ _ ps
          (Every-map _ _ ps
            (λ p k e.
              ≺_of_≼_of_≺ p (position_below column ref t) (landing column ref t) (k e) fits.0)
            (Every-select _ (λ p. lt_pos p ref) ps (below_highest _ (of_ℕ 0) _ refl)))
          (Every-map _ _ ps
            (λ p k e.
              ≺_of_≺_of_≼ (landing column ref t) (position_above column ref t) p fits.1 (k e))
            (Every-select _ (λ p. lt_pos ref p) ps (above_lowest _ (add_thousand ref) _ refl)))
