-- ===== src/Repo/Boards/Detail/Grouping.antt =====
-- internal/repositories/boards.go: what the grouping loop of GetBoardDetail makes of the rows of
-- one column.
use mathlib.Core.List.{append_assoc, append-nil}
use mathlib.Core.Path.{subst}
use docflow_core.Model.{Card, CardResponse, Column}
use docflow_core.Model.Views.{ColumnWithCards}
use docflow_core.Repo.Boards.Detail.{
  rows_of, add_row, group_rows, shown_card, shown_column, has_group_id, append_card, JoinedRow,
}
use docflow_core.Prelude.{
  ==_iff, find_row-update_other, ==_refl, ℕ, ◌≡◌, refl, sym, ap, ◌∙◌, inl, inr, ◌==◌, Bool, true,
  false, Option, none, some, get_or, List, [], ◌∷◌, ◌++◌, map, find_row, exists_row, select,
  update_rows, insert_row, if◌then◌else◌, arith, Bool-cases,
}
use docflow_core.Model.Store.{Store}

module _ {A : Type 0} (p : A → Bool) where
  find_row-inserted :
      (y : A) (xs : List A)
      → find_row p (insert_row y xs)
        ≡ (elim (find_row p xs) [ none ↦ if p y then some y else none | some a ↦ some a ])
  find_row-inserted y [] = ground arith
  find_row-inserted y (x ∷ xs) = ground (arith, find_row-inserted y xs)

  exists_row-found :
      (xs : List A) → exists_row p xs ≡ (elim (find_row p xs) [ none ↦ false | some a ↦ true ])
  exists_row-found [] = refl
  exists_row-found (x ∷ xs) = ground (arith, exists_row-found xs)

  find_row-all_updated :
      (f : A → A) (xs : List A)
      → ((x : A) → p (f x) ≡ p x)
      → find_row p (update_rows p f xs)
        ≡ (elim (find_row p xs) [ none ↦ none | some a ↦ some (f a) ])
  find_row-all_updated f [] same = refl
  find_row-all_updated f (x ∷ xs) same = ground (arith, same x, find_row-all_updated f xs same)

abbrev pub has_row_id : ℕ → JoinedRow → Bool
has_row_id id r = r.column.id == id

module _ (board : ℕ) (s : Store) where
  abbrev push : JoinedRow → ColumnWithCards → ColumnWithCards
  push r g = elim r.card [ none ↦ g | some c ↦ append_card (shown_card board s r.column.id c) g ]

  abbrev known : JoinedRow → List ColumnWithCards → List ColumnWithCards
  known r groups =
      if exists_row (has_group_id r.column.id) groups
      then groups
      else insert_row (shown_column board r.column []) groups

  abbrev group : JoinedRow → Option ColumnWithCards → ColumnWithCards
  group r o = get_or o (shown_column board r.column [])

  find-known_same :
      (r : JoinedRow) (groups : List ColumnWithCards)
      → find_row (has_group_id r.column.id) (known r groups)
        ≡ some (group r (find_row (has_group_id r.column.id) groups))
  find-known_same r groups = ground (
    arith,
    exists_row-found (has_group_id r.column.id) groups,
    find_row-inserted (has_group_id r.column.id) (shown_column board r.column []) groups,
    ==_refl r.column.id,
  )

  find-known_other :
      (r : JoinedRow) (id : ℕ) (groups : List ColumnWithCards)
      → (r.column.id == id) ≡ false
      → find_row (has_group_id id) (known r groups) ≡ find_row (has_group_id id) groups
  find-known_other r id groups e =
      ground (arith, e, find_row-inserted (has_group_id id) (shown_column board r.column []) groups)

  abbrev added : JoinedRow → ℕ → Option ColumnWithCards → Option ColumnWithCards
  added r id o = if r.column.id == id then some (push r (group r o)) else o

  find-add_row_same :
      (k : Column) (card : Option Card) (groups : List ColumnWithCards)
      → let r : JoinedRow = record { column = k; card = card } in
        find_row (has_group_id k.id) (add_row board s r groups)
        ≡ some (push r (group r (find_row (has_group_id k.id) groups)))
  find-add_row_same k none groups = find-known_same (record { column = k; card = none }) groups
  find-add_row_same k (some c) groups =
      let r : JoinedRow = record { column = k; card = some c } in
      find_row-all_updated (has_group_id k.id) (append_card (shown_card board s k.id c))
        (known r groups) (λ x. refl)
      ∙ rw (find-known_same r groups) refl

  find-add_row_other :
      (k : Column) (card : Option Card) (id : ℕ) (groups : List ColumnWithCards)
      → (k.id == id) ≡ false
      → find_row (has_group_id id) (add_row board s (record { column = k; card = card }) groups)
        ≡ find_row (has_group_id id) groups
  find-add_row_other k none id groups e =
      find-known_other (record { column = k; card = none }) id groups e
  find-add_row_other k (some c) id groups e =
      let r : JoinedRow = record { column = k; card = some c } in
      find_row-update_other (has_group_id id) (has_group_id k.id)
        (append_card (shown_card board s k.id c)) (known r groups) (λ x. refl)
        (λ x h. ground (arith, e, h))
      ∙ find-known_other r id groups e

  find-add_row_here :
      (k : Column) (card : Option Card) (id : ℕ) (groups : List ColumnWithCards)
      → (k.id == id) ≡ true
      → let r : JoinedRow = record { column = k; card = card } in
        find_row (has_group_id id) (add_row board s r groups)
        ≡ some (push r (group r (find_row (has_group_id id) groups)))
  find-add_row_here k card id groups e =
      let r : JoinedRow = record { column = k; card = card } in
      subst
        (λ j.
          find_row (has_group_id j) (add_row board s r groups)
          ≡ some (push r (group r (find_row (has_group_id j) groups))))
        ((==_iff k.id id).0 e) (find-add_row_same k card groups)

  -- What becomes of one group
  abbrev pub gather : Option ColumnWithCards → List JoinedRow → Option ColumnWithCards
  gather o [] = o
  gather o (r ∷ rs) = gather (some (push r (group r o))) rs

  -- The group of a column is made of the rows of that column, in their order.
  pub find-group_rows :
      (id : ℕ) (rs : List JoinedRow) (groups : List ColumnWithCards)
      → find_row (has_group_id id) (group_rows board s rs groups)
        ≡ gather (find_row (has_group_id id) groups) (select (has_row_id id) rs)
  find-group_rows id [] groups = refl
  find-group_rows id (r ∷ rs) groups = elim (Bool-cases (r.column.id == id)) [
    | inl e ↦
        find-group_rows id rs (add_row board s r groups)
        ∙ rw (e, find-add_row_here r.column r.card id groups e) refl
    | inr e ↦
        find-group_rows id rs (add_row board s r groups)
        ∙ rw (e, find-add_row_other r.column r.card id groups e) refl
  ]

  abbrev with_cards : ColumnWithCards → List CardResponse → ColumnWithCards
  with_cards g cards = record g { cards = cards }

  gather-cards :
      (k : Column) (g : ColumnWithCards) (cs : List Card)
      → gather (some g) (map (λ c. record { column = k; card = some c }) cs)
        ≡ some (with_cards g (g.cards ++ map (shown_card board s k.id) cs))
  gather-cards k g [] = ap (λ xs. some (with_cards g xs)) (sym (append-nil g.cards))
  gather-cards k g (c ∷ cs) =
      gather-cards k (append_card (shown_card board s k.id c) g) cs
      ∙ ap (λ xs. some (with_cards g xs))
          (append_assoc g.cards (shown_card board s k.id c ∷ []) (map (shown_card board s k.id) cs))

  -- The rows of one column make the column with its cards.
  pub gather-rows_of :
      (k : Column) (cs : List Card)
      → gather none (rows_of k cs) ≡ some (shown_column board k (map (shown_card board s k.id) cs))
  gather-rows_of k [] = refl
  gather-rows_of k (c ∷ cs) =
      gather-cards k (shown_column board k (shown_card board s k.id c ∷ [])) cs
