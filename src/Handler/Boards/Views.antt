-- ===== src/Handler/Boards/Views.antt =====
-- internal/handlers/boards.go: the routes that create a board or show boards.
use docflow_core.Model.{Board, Visibility}
use docflow_core.Model.Views.{ArchivedCardResponse, BoardMember, BoardDetailResponse, BoardResponse}
use docflow_core.Prelude.{ℕ, String, Option, List}
use docflow_core.Exec.{require, Exec, ◌>>=◌, ◌>>◌}
use docflow_core.Service
use docflow_core.Service.Boards
use docflow_core.Service.Boards.Viewing
use docflow_core.Middleware
use docflow_core.Middleware.Board
use docflow_core.Middleware.Workspace
use docflow_core.Handler.Boards.{is_title}
use docflow_core.Model.Error.{validation_error}

-- GET /workspaces/:id/boards
unfoldable pub list_boards : ℕ → ℕ → Exec (List BoardResponse)
unfolding Viewing.list_boards Middleware.Workspace.member_role
list_boards workspace user = do
  Middleware.Workspace.member_role workspace user
  Viewing.list_boards workspace user

-- POST /workspaces/:id/boards; a visibility is one of the two by its type
unfoldable pub create_board : ℕ → ℕ → String → Option Visibility → Exec Board
unfolding Service.Boards.create_board Middleware.Workspace.member_role
create_board workspace user title visibility = do
  Middleware.Workspace.member_role workspace user
  require (is_title title) validation_error
  Service.Boards.create_board workspace user title visibility

-- GET /boards/:id
unfoldable pub get_board_detail : ℕ → ℕ → Exec BoardDetailResponse
unfolding Viewing.get_board_detail Middleware.Board.board
get_board_detail id user = do
  caller ← Middleware.Board.board id user
  Viewing.get_board_detail id caller.user caller.workspace_role caller.board_role

-- GET /boards/:id/members
unfoldable pub list_board_members : ℕ → ℕ → Exec (List BoardMember)
unfolding Viewing.list_board_members Middleware.Board.board
list_board_members id user = do
  caller ← Middleware.Board.board id user
  Viewing.list_board_members id caller.user caller.workspace_role

-- GET /boards/:id/archived-cards
unfoldable pub get_archived_cards : ℕ → ℕ → Exec (List ArchivedCardResponse)
unfolding Viewing.get_archived_cards Middleware.Board.board
get_archived_cards id user = do
  caller ← Middleware.Board.board id user
  Viewing.get_archived_cards id caller.user caller.workspace_role

-- GET /share/:token
unfoldable pub get_public_board : ℕ → Exec BoardDetailResponse
unfolding Viewing.get_public_board
get_public_board token = Viewing.get_public_board token
