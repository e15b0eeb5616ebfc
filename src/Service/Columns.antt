-- ===== src/Service/Columns.antt =====
-- internal/services/columns.go: ColumnService.
use docflow_core.Prelude.{ℕ, String, Option, none, some}
use docflow_core.Position.{Position, add_thousand}
use docflow_core.Model.{Role, Column, ColumnResponse}
use docflow_core.Model.Error.{not_found}
use docflow_core.Model.Store.{Payload}
use docflow_core.Exec.{Exec, ◌>>=◌, ◌>>◌, pure, missing_as, broadcast}
use docflow_core.Repo.Columns
use docflow_core.Service.Access.{check_access}

-- columnToResponse
abbrev pub column_to_response : Column → ColumnResponse
column_to_response k = record {
  id = k.id;
  board_id = k.board_id;
  title = k.title;
  position = k.position;
  created_at = k.created_at;
}

-- CreateColumn
unfoldable pub create_column : ℕ → ℕ → Role → String → Exec Column
unfolding check_access Columns.get_max_position Columns.create add_thousand broadcast
create_column board user member_role title = do
  check_access board user member_role
  max ← Columns.get_max_position board
  column ← Columns.create board title (add_thousand max)
  broadcast board (Payload.column_created (column_to_response column))
  pure column

-- The events that tell what was changed
unfoldable pub tell_change : ℕ → ℕ → Option String → Option Position → Exec (Unit {0})
unfolding broadcast
tell_change board column (some title) (some position) =
    broadcast board (Payload.column_renamed column title)
    >> broadcast board (Payload.column_reordered column position)
tell_change board column (some title) none = broadcast board (Payload.column_renamed column title)
tell_change board column none (some position) =
    broadcast board (Payload.column_reordered column position)
tell_change board column none none = pure tt

-- UpdateColumn
unfoldable pub update_column : ℕ → ℕ → Role → Option String → Option Position → Exec Column
unfolding check_access missing_as Columns.find_by_id Columns.update tell_change
update_column id user member_role title position = do
  column ← missing_as not_found (Columns.find_by_id id)
  check_access column.board_id user member_role
  updated ← missing_as not_found (Columns.update id title position)
  tell_change column.board_id id title position
  pure updated

-- DeleteColumn
unfoldable pub delete_column : ℕ → ℕ → Role → Exec (Unit {0})
unfolding check_access missing_as Columns.find_by_id Columns.delete broadcast
delete_column id user member_role = do
  column ← missing_as not_found (Columns.find_by_id id)
  check_access column.board_id user member_role
  missing_as not_found (Columns.delete id)
  broadcast column.board_id (Payload.column_deleted id)
