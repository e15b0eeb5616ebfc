-- ===== src/Handler/Boards.antt =====
-- internal/handlers/boards.go: the binding of requests that change one board, by the tags of
-- internal/models/board.go, the call of BoardService, and the status of the answer.
pub mod Safety
pub mod Ownership
pub mod Stale
pub mod Views
pub mod Listing
use Prim.Native.String.{count}
use docflow_core.Prelude.{
  ℕ, Bool, true, false, ◌&&◌, ◌||◌, String, Option, none, some, leb, if◌then◌else◌,
}
use docflow_core.Model.{Role, Error, same_role}
use docflow_core.Model.Error.{validation_error}
use docflow_core.Exec.{Exec, ◌>>=◌, ◌>>◌, require}
use docflow_core.Middleware
use docflow_core.Middleware.Board
use docflow_core.Service.Boards.Request.{Request, perform}

-- `oneof=admin editor`
abbrev pub is_assignable : Role → Bool
is_assignable role = same_role role Role.admin || same_role role Role.editor

-- `min=1,max=100`, counted in characters
abbrev pub is_title : String → Bool
is_title t = leb 1 (count t) && leb (count t) 100

-- `omitempty`
abbrev pub if_given : {A : Type 0} → (A → Bool) → Option A → Bool
if_given p none = true
if_given p (some a) = p a

-- ShouldBindJSON; a visibility is one of the two by its type
unfoldable pub binds : Request → Bool
binds (Request.update_board title visibility) = if_given is_title title
binds (Request.add_member target role) = if_given is_assignable role
binds (Request.set_member_role target role) = is_assignable role
binds _ = true

-- The routes of /boards/:id that change a board
unfoldable pub handle : ℕ → ℕ → Request → Exec (Unit {0})
unfolding binds perform
handle id user request = do
  caller ← Middleware.Board.board id user
  require (binds request) validation_error
  perform id caller request

-- handleBoardError, and the answers of the middleware
unfoldable pub status : Error → ℕ
status Error.not_found = 404
status Error.board_access_denied = 403
status Error.insufficient_permissions = 403
status Error.already_board_member = 409
status Error.cannot_remove_board_owner = 403
status Error.target_not_board_member = 422
status Error.user_not_found = 404
status Error.board_not_found = 404
status Error.not_workspace_member = 403
status Error.validation_error = 400
status _ = 500
