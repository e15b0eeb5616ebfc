-- ===== src/Service/Boards/Viewing.antt =====
-- internal/services/boards.go: the methods of BoardService that show a board.
pub mod Guarded
pub mod Shown
pub mod Links
use docflow_core.Model.Views.{BoardResponse}
use docflow_core.Repo.Boards
use docflow_core.Service.Access.{check_access}
use docflow_core.Repo.Boards.Lists.{find_by_workspace}
use docflow_core.Repo.Boards.Lists
use docflow_core.Repo.Boards.Detail
use docflow_core.Model.Views.{BoardMember, ArchivedCardResponse, BoardDetailResponse}
use docflow_core.Model.{Role}
use docflow_core.Model.Error.{not_found}
use docflow_core.Prelude.{ℕ, true, List}
use docflow_core.Exec.{Exec, ◌>>=◌, ◌>>◌, pure, missing_as}

-- ListBoards
unfoldable pub list_boards : ℕ → ℕ → Exec (List BoardResponse)
unfolding find_by_workspace
list_boards workspace user = find_by_workspace workspace user

-- GetBoardDetail
unfoldable pub get_board_detail : ℕ → ℕ → Role → Role → Exec BoardDetailResponse
unfolding check_access Detail.get_board_detail
get_board_detail board user workspace_role board_role = do
  check_access board user workspace_role
  detail ← Detail.get_board_detail board
  pure (record detail { my_board_role = board_role })

-- ListBoardMembers
unfoldable pub list_board_members : ℕ → ℕ → Role → Exec (List BoardMember)
unfolding check_access Lists.list_board_members
list_board_members board user workspace_role = do
  check_access board user workspace_role
  Lists.list_board_members board

-- GetArchivedCards
unfoldable pub get_archived_cards : ℕ → ℕ → Role → Exec (List ArchivedCardResponse)
unfolding check_access missing_as Lists.find_archived_cards
get_archived_cards board user workspace_role = do
  check_access board user workspace_role
  missing_as not_found (Lists.find_archived_cards board)

-- GetPublicBoard
unfoldable pub get_public_board : ℕ → Exec BoardDetailResponse
unfolding missing_as Boards.find_by_share_token Detail.get_board_detail
get_public_board token = do
  board ← missing_as not_found (Boards.find_by_share_token token)
  detail ← Detail.get_board_detail board.id
  pure (record detail { is_public_view = true; my_board_role = Role.blank })
