-- ===== src/Repo/Columns.antt =====
-- internal/repositories/columns.go.
pub mod Effects
use docflow_core.Prelude.{
  ℕ, suc, String, Option, List, map, get_or, ◌==◌, Bool, select, find_row, exists_row, update_rows,
  insert_row,
}
use docflow_core.Position.{Position, of_ℕ}
use docflow_core.Position.Rows.{highest, order_by}
use docflow_core.Model.{Column}
use docflow_core.Model.Store.{Store, Result, ok}
use docflow_core.Exec.{Exec, query, execute, found}
use docflow_core.Repo.Cascade
use docflow_core.Repo.Statement.{affected, returning}

abbrev pub has_column_id : ℕ → Column → Bool
has_column_id id k = k.id == id

abbrev pub find_column : ℕ → Store → Option Column
find_column id s = find_row (has_column_id id) s.columns

abbrev pub column_row : ℕ → String → Position → Store → Column
column_row board title position s = record {
  id = s.next_id;
  board_id = board;
  title = title;
  position = position;
  created_at = s.now;
  updated_at = s.now;
}

abbrev pub with_new_column : Column → Store → Store
with_new_column k s = record s { columns = insert_row k s.columns; next_id = suc s.next_id }

unfoldable pub insert_column : ℕ → String → Position → Store → Result Column × Store
insert_column board title position s =
    let k = column_row board title position s in (ok k, with_new_column k s)

unfoldable pub create : ℕ → String → Position → Exec Column
unfolding execute insert_column
create board title position = execute (insert_column board title position)

unfoldable pub find_by_id : ℕ → Exec Column
unfolding query
find_by_id id = query λ s. found (find_column id s)

unfoldable pub find_by_board : ℕ → Exec (List Column)
unfolding query
find_by_board board =
    query λ s. ok (order_by (λ k. k.position) (select (λ k. k.board_id == board) s.columns))

-- `COALESCE($1, title)`
abbrev pub update_column_row : Option String → Option Position → ℕ → Column → Column
update_column_row title position now k = record k {
  title = get_or title k.title;
  position = get_or position k.position;
  updated_at = now;
}

abbrev pub with_column : ℕ → Option String → Option Position → Store → Store
with_column id title position s = record s {
  columns = update_rows (has_column_id id) (update_column_row title position s.now) s.columns;
}

unfoldable pub update : ℕ → Option String → Option Position → Exec Column
unfolding execute
update id title position = execute λ s.
    returning (find_column id s) (update_column_row title position s.now) s
      (with_column id title position s)

unfoldable pub delete : ℕ → Exec (Unit {0})
unfolding execute
delete id = execute λ s.
    affected (exists_row (has_column_id id) s.columns) s
      (Cascade.delete_columns (has_column_id id) s)

-- The positions of a board's columns
abbrev pub column_positions : ℕ → Store → List Position
column_positions board s = map (λ k. k.position) (select (λ k. k.board_id == board) s.columns)

-- `COALESCE(MAX(position), 0)`
unfoldable pub get_max_position : ℕ → Exec Position
unfolding query
get_max_position board = query λ s. ok (get_or (highest (column_positions board s)) (of_ℕ 0))
