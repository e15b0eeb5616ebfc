-- ===== src/Repo/Cards/Placing.antt =====
-- RebalanceColumn in internal/repositories/cards.go: where the cards stand afterwards.
use docflow_core.Prelude.{
  ℕ, ◌+◌, ◌*◌, ◌≡◌, ◌⊎◌, inl, inr, refl, ◌∙◌, Bool, true, false, ◌==◌, List, [], ◌∷◌, map, select,
  update_rows, exists_row, exists-map, exists-sort_by, Every, arith, if◌then◌else◌,
}
use docflow_core.Position.{Position, of_ℕ}
use docflow_core.Position.Rows.Extremes.{Every-map}
use docflow_core.Model.{Card}
use docflow_core.Model.Store.{Store}
use docflow_core.Repo.Cards.{card_positions, live_cards, is_live, has_card_id, place_row, with_card}
use docflow_core.Repo.Cards.Writing.{placed, rebalanced}

module _ {A : Type 0} where
  Every-update :
      (P Q : A → Type 0) (q : A → Bool) (f : A → A) (xs : List A)
      → ((x : A) → P x → q x ≡ true → Q (f x))
      → ((x : A) → P x → q x ≡ false → Q x)
      → Every P xs
      → Every Q (update_rows q f xs)
  Every-update P Q q f [] h k all = tt
  Every-update P Q q f (x ∷ xs) h k (here, all) = (head (q x) refl, Every-update P Q q f xs h k all)
    where
      head : (b : Bool) → q x ≡ b → Q (if b then f x else x)
      head true e = h x here e
      head false e = k x here e

  Every-mapped :
      {B : Type 0} (P : B → Type 0) (q : A → Bool) (f : A → B) (xs : List A)
      → Every (λ x. q x ≡ true → P (f x)) xs
      → Every P (map f (select q xs))
  Every-mapped P q f [] all = tt
  Every-mapped P q f (x ∷ xs) (here, all) = head (q x) refl (Every-mapped P q f xs all)
    where
      head :
          (b : Bool)
          → q x ≡ b
          → Every P (map f (select q xs))
          → Every P (map f (if b then x ∷ select q xs else select q xs))
      head true e rest = (here e, rest)
      head false e rest = rest

-- A whole number of thousands
abbrev pub IsThousands : Position → Type 0
IsThousands p = (k : ℕ) × (p ≡ of_ℕ (k * 1000))

abbrev named : ℕ → List ℕ → Bool
named id = exists_row (λ x. x == id)

-- Cards whose identifiers have been named stand at thousands, as do those named now.
placed-IsThousands :
    (ids : List ℕ) (i : ℕ) (seen : List ℕ) (s : Store)
    → Every (λ c. named c.id seen ≡ true → IsThousands c.position) s.cards
    → Every
        (λ c. (named c.id seen ≡ true) ⊎ (named c.id ids ≡ true) → IsThousands c.position)
        (placed i ids s).cards
placed-IsThousands [] i seen s h =
    Every-map _ _ s.cards (λ c f why. elim why [ inl e ↦ f e | inr e ↦ absurd (cc) ]) h
placed-IsThousands (id ∷ ids) i seen s h =
    Every-map _ _ (placed i (id ∷ ids) s).cards (λ c f why. f (ground (arith, why)))
      (placed-IsThousands ids (i + 1) (id ∷ seen)
        (with_card id (place_row (of_ℕ ((i + 1) * 1000)) s.now) s)
        (Every-update _ _ (has_card_id id) (place_row (of_ℕ ((i + 1) * 1000)) s.now) s.cards
          (λ c f e k. (i + 1, refl)) (λ c f e k. f (ground (arith, e, k))) h))

placed-kept :
    (column : ℕ) (all ids : List ℕ) (i : ℕ) (s : Store)
    → Every (λ c. is_live column c ≡ true → named c.id all ≡ true) s.cards
    → Every (λ c. is_live column c ≡ true → named c.id all ≡ true) (placed i ids s).cards
placed-kept column all [] i s h = h
placed-kept column all (id ∷ ids) i s h =
    placed-kept column all ids (i + 1) (with_card id (place_row (of_ℕ ((i + 1) * 1000)) s.now) s) (
      Every-update _ _ (has_card_id id) (place_row (of_ℕ ((i + 1) * 1000)) s.now) s.cards
        (λ c f e. f) (λ c f e. f) h)

selected_named :
    (q : Card → Bool) (cs : List Card)
    → Every (λ c. q c ≡ true → exists_row (has_card_id c.id) (select q cs) ≡ true) cs
selected_named q [] = tt
selected_named q (c ∷ cs) =
    (λ e. ground (arith, e), Every-map _ _ cs (λ d f e. ground (arith, f e)) (selected_named q cs))

-- After a column has been rebalanced, its cards that are not archived stand at thousands.
pub rebalanced-IsThousands :
    (column : ℕ) (s : Store) → Every IsThousands (card_positions column (rebalanced column s))
rebalanced-IsThousands column s =
    Every-mapped IsThousands (is_live column) (λ c. c.position) t.cards
      (both t.cards
        (placed-kept column ids ids 0 s (
          Every-map _ _ s.cards (λ c f e. listed c.id ∙ f e)
            (selected_named (is_live column) s.cards)))
        (placed-IsThousands ids 0 [] s (none_named s.cards)))
  where
    ids : List ℕ
    ids = map (λ c. c.id) (live_cards column s)

    t : Store
    t = rebalanced column s

    none_named : (cs : List Card) → Every (λ c. named c.id [] ≡ true → IsThousands c.position) cs
    none_named [] = tt
    none_named (c ∷ cs) = (λ e. absurd (cc), none_named cs)

    listed : (id : ℕ) → named id ids ≡ exists_row (has_card_id id) (select (is_live column) s.cards)
    listed id =
        exists-map (λ x. x == id) (λ (c : Card). c.id) (live_cards column s)
        ∙ exists-sort_by _ (has_card_id id) (select (is_live column) s.cards)

    both :
        (cs : List Card)
        → Every (λ c. is_live column c ≡ true → named c.id ids ≡ true) cs
        → Every (λ c. (named c.id [] ≡ true) ⊎ (named c.id ids ≡ true) → IsThousands c.position) cs
        → Every (λ c. is_live column c ≡ true → IsThousands c.position) cs
    both [] h k = tt
    both (c ∷ cs) (h, hs) (k, ks) = (λ e. k (inr (h e)), both cs hs ks)
