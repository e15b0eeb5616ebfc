-- ===== src/Service/Content/Request.antt =====
-- The requests that change the columns and cards of a board, and the service that serves each:
-- internal/handlers/cards.go and internal/handlers/columns.go. What the services return is left
-- out here.
use docflow_core.Prelude.{ℕ, String, Option}
use docflow_core.Position.{Position}
use docflow_core.Model.{Role}
use docflow_core.Exec.{Exec}
use docflow_core.Service.Boards.Request.{discard}
use docflow_core.Service.Columns
use docflow_core.Service.Cards

pub data Request : Type 0 where
  create_column : ℕ → String → Request
  update_column : ℕ → Option String → Option Position → Request
  delete_column : ℕ → Request
  create_card : ℕ → String → Option String → Request
  update_card : ℕ → Option String → Option String → Option ℕ → Request
  move_card : ℕ → ℕ → Position → Request
  archive_card unarchive_card delete_card : ℕ → Request

-- The calls of the services in the handlers, with the caller and the caller's workspace role
unfoldable pub perform : ℕ → Role → Request → Exec (Unit {0})
perform user role (Request.create_column board title) =
    discard (Columns.create_column board user role title)
perform user role (Request.update_column id title position) =
    discard (Columns.update_column id user role title position)
perform user role (Request.delete_column id) = Columns.delete_column id user role
perform user role (Request.create_card column title color) =
    discard (Cards.create_card column user role title color)
perform user role (Request.update_card id title color assignee) =
    discard (Cards.update_card id user role title color assignee)
perform user role (Request.move_card id column position) =
    discard (Cards.move_card id user role column position)
perform user role (Request.archive_card id) = Cards.archive_card id user role
perform user role (Request.unarchive_card id) = Cards.unarchive_card id user role
perform user role (Request.delete_card id) = Cards.delete_card id user role
