-- ===== src/Repo/Boards/Detail/Columns.antt =====
-- internal/repositories/boards.go: the columns that GetBoardDetail answers with.
use mathlib.Core.Path.{subst}
use mathlib.Core.List.{append-nil}
use docflow_core.Repo.Cards.{is_live, live_cards}
use docflow_core.Model.Views.{ColumnWithCards}
use docflow_core.Repo.Columns.{find_column, has_column_id}
use docflow_core.Position.Order.{≼_trans}
use docflow_core.Repo.Boards.Detail.{
  group_rows, shown_card, has_group_id, joined, is_column_of, shown_column, detail_rows, JoinedRow,
  rows_of, row_before, card_before,
}
use docflow_core.Model.{Card, Column}
use docflow_core.Prelude.{
  select-key, to_list, sym, Bool-cases, find_row_holds, inr, inl, ◌≤◌, count_rows, ==_iff,
  select-sort_by, sort_by-map, insert_by, lexicographic-IsWeakOrder, sort_by, IsWeakOrder,
  join_rows, ℕ, ◌≡◌, refl, ap, ◌∙◌, ◌==◌, Bool, true, false, Option, none, some, List, [], ◌∷◌,
  ◌++◌, map, find_row, select, if◌then◌else◌, arith,
}
use docflow_core.Model.Store.{Store}
use docflow_core.Position.{lt_pos}
use docflow_core.Position.Rows.{order_by}
use docflow_core.Repo.Boards.Detail.Grouping.{has_row_id, find-group_rows, gather-rows_of}

module _ {A : Type 0} (p q : A → Bool) where
  select_comm : (xs : List A) → select p (select q xs) ≡ select q (select p xs)
  select_comm [] = refl
  select_comm (x ∷ xs) = ground (arith, select_comm xs)

module _ {A : Type 0} (p : A → Bool) where
  select-append : (xs ys : List A) → select p (xs ++ ys) ≡ select p xs ++ select p ys
  select-append [] ys = refl
  select-append (x ∷ xs) ys = ground (arith, select-append xs ys)

  select-join_rows :
      {B : Type 0} (q : B → Bool) (f : B → List A) (xs : List B)
      → ((x : B) → select p (f x) ≡ (if q x then f x else []))
      → select p (join_rows f xs) ≡ join_rows f (select q xs)
  select-join_rows q f [] each = refl
  select-join_rows q f (x ∷ xs) each =
      select-append (f x) (join_rows f xs)
      ∙ rw (each x, select-join_rows q f xs each) (chosen (q x))
    where
      chosen :
          (t : Bool)
          → (if t then f x else []) ++ join_rows f (select q xs)
            ≡ join_rows f (if t then x ∷ select q xs else select q xs)
      chosen true = refl
      chosen false = refl

lt_pos-IsWeakOrder : IsWeakOrder lt_pos
lt_pos-IsWeakOrder = (λ x y z h k. ground (arith, h, k, ≼_trans x y z), λ x y h. ground (arith, h))

card_before-IsWeakOrder : IsWeakOrder card_before
card_before-IsWeakOrder = (weak, asymmetric)
  where
    weak :
        (x y z : Option Card)
        → card_before y x ≡ false
        → card_before z y ≡ false
        → card_before z x ≡ false
    weak x y none h k = refl
    weak none y (some c) h k = ground (arith, h, k)
    weak (some a) none (some c) h k = absurd (cc)
    weak (some a) (some b) (some c) h k = lt_pos-IsWeakOrder.0 a.position b.position c.position h k

    asymmetric : (x y : Option Card) → card_before x y ≡ true → card_before y x ≡ false
    asymmetric none y h = absurd (cc)
    asymmetric (some a) none h = refl
    asymmetric (some a) (some b) h = lt_pos-IsWeakOrder.1 a.position b.position h

row_before-IsWeakOrder : IsWeakOrder row_before
row_before-IsWeakOrder =
    lexicographic-IsWeakOrder _ _
      (
        λ x y z. lt_pos-IsWeakOrder.0 x.column.position y.column.position z.column.position,
        λ x y. lt_pos-IsWeakOrder.1 x.column.position y.column.position,
      )
      (
        λ x y z. card_before-IsWeakOrder.0 x.card y.card z.card,
        λ x y. card_before-IsWeakOrder.1 x.card y.card,
      )

abbrev row : Column → Card → JoinedRow
row k c = record { column = k; card = some c }

select-map_row :
    (id : ℕ) (k : Column) (cs : List Card)
    → select (has_row_id id) (map (row k) cs) ≡ (if k.id == id then map (row k) cs else [])
select-map_row id k [] = ground arith
select-map_row id k (c ∷ cs) = ground (arith, select-map_row id k cs)

select-rows_of :
    (id : ℕ) (k : Column) (cs : List Card)
    → select (has_row_id id) (rows_of k cs) ≡ (if k.id == id then rows_of k cs else [])
select-rows_of id k [] = refl
select-rows_of id k (c ∷ cs) = select-map_row id k (c ∷ cs)

rows_of-insert :
    (before : Card → Card → Bool) (k : Column) (c : Card) (cs : List Card)
    → map (row k) (insert_by before c cs) ≡ rows_of k (insert_by before c cs)
rows_of-insert before k c [] = refl
rows_of-insert before k c (d ∷ cs) = ground arith

sort_by-rows_of :
    (k : Column) (cs : List Card)
    → sort_by row_before (rows_of k cs) ≡ rows_of k (order_by (λ c. c.position) cs)
sort_by-rows_of k [] = refl
sort_by-rows_of k (c ∷ cs) =
    sort_by-map (λ a b. lt_pos a.position b.position) row_before (row k)
      (λ a b. ground (arith, lt_pos-IsWeakOrder.1 k.position k.position)) (c ∷ cs)
    ∙ rows_of-insert (λ a b. lt_pos a.position b.position) k c (order_by (λ a. a.position) cs)

module _ (board : ℕ) (s : Store) where
  rows_with_id :
      (id : ℕ)
      → select (has_row_id id) (detail_rows board s)
        ≡ sort_by row_before (
            join_rows
              (joined s)
              (select (is_column_of board) (select (has_column_id id) s.columns)))
  rows_with_id id =
      select-sort_by row_before row_before-IsWeakOrder (has_row_id id) _
      ∙ ap (sort_by row_before) (
          select-join_rows (has_row_id id) (has_column_id id) (joined s)
            (select (is_column_of board) s.columns)
            (λ k. select-rows_of id k (select (is_live k.id) s.cards))
          ∙ ap (join_rows (joined s))
              (select_comm (has_column_id id) (is_column_of board) s.columns))

  abbrev answered : ℕ → Option ColumnWithCards
  answered id = find_row (has_group_id id) (group_rows board s (detail_rows board s) [])

  answered-column :
      (k : Column)
      → select (has_column_id k.id) s.columns ≡ k ∷ []
      → k.board_id == board ≡ true
      → answered k.id
        ≡ some (shown_column board k (map (shown_card board s k.id) (live_cards k.id s)))
  answered-column k only here =
      find-group_rows board s k.id (detail_rows board s) []
      ∙ rw
          (
            rows_with_id k.id,
            only,
            here,
            append-nil (joined s k),
            sort_by-rows_of k (select (is_live k.id) s.cards),
            gather-rows_of board s k (live_cards k.id s),
          )
          refl

  answered-missing :
      (id : ℕ)
      → select (is_column_of board) (select (has_column_id id) s.columns) ≡ []
      → answered id ≡ none
  answered-missing id h =
      find-group_rows board s id (detail_rows board s) [] ∙ rw (rows_with_id id, h) refl

  abbrev column_if : Option Column → Option ColumnWithCards
  column_if o = elim o [
    | none ↦ none
    | some k ↦
        if k.board_id == board
        then some (shown_column board k (map (shown_card board s k.id) (live_cards k.id s)))
        else none
  ]

  -- The column with the id, with the cards of it that are not archived, by position; none if the
  -- column is missing or another board's.
  abbrev pub expected_column : ℕ → Option ColumnWithCards
  expected_column id = column_if (find_column id s)

  answered-column_if :
      (id : ℕ) (o : Option Column)
      → find_column id s ≡ o
      → select (has_column_id id) s.columns ≡ to_list o
      → answered id ≡ column_if o
  answered-column_if id none e only = answered-missing id (rw (only) refl)
  answered-column_if id (some k) e only = elim (Bool-cases (k.board_id == board)) [
    | inl here ↦ rw (here) (
        subst
          (λ j.
            answered j
            ≡ some (shown_column board k (map (shown_card board s k.id) (live_cards k.id s))))
          k_id
          (answered-column k
            (subst (λ j. select (has_column_id j) s.columns ≡ k ∷ []) (sym k_id) only) here))
    | inr gone ↦ rw (gone) (answered-missing id (rw (only, gone) refl))
  ]
    where
      k_id : k.id ≡ id
      k_id = (==_iff k.id id).0 (find_row_holds (has_column_id id) s.columns k e)

  -- The grouping loop finds what one lookup for each column would find.
  pub answered-expected :
      (id : ℕ) → count_rows (has_column_id id) s.columns ≤ 1 → answered id ≡ expected_column id
  answered-expected id key =
      answered-column_if id (find_column id s) refl (select-key (has_column_id id) s.columns key)
