-- ===== src/Service/Access.antt =====
-- internal/services/boards.go: who may see a board, and which role a caller has on it.
pub mod Sight
pub mod Complete
use docflow_core.Prelude.{
  ℕ, Bool, true, false, ◌||◌, Option, none, some, List, [], ◌∷◌, if◌then◌else◌,
}
use docflow_core.Model.{Role, Error, Board, same_role, is_workspace_visible}
use docflow_core.Model.Error.{not_found, insufficient_permissions, board_access_denied}
use docflow_core.Model.Store.{World, Result, ok, err}
use docflow_core.Exec.{Exec, ◌>>=◌, ◌>>◌, pure, raise, missing_as, optional}
use docflow_core.Repo.Boards

abbrev pub contains_role : Role → List Role → Bool
contains_role r [] = false
contains_role r (a ∷ allowed) = same_role r a || contains_role r allowed

-- requireBoardRole
unfoldable pub require_board_role : Role → List Role → Exec (Unit {0})
require_board_role role allowed =
    if contains_role role allowed then pure tt else raise insufficient_permissions

-- the role variable after `GetBoardMemberRole`, "" when there is no row
abbrev pub role_or_blank : Option Role → Role
role_or_blank none = Role.blank
role_or_blank (some r) = r

-- `workspaceRole == "owner" || workspaceRole == "admin"`
abbrev pub is_manager : Role → Bool
is_manager role = same_role role Role.owner || same_role role Role.admin

-- The cascade of tests at the end of ResolveBoardRole
unfoldable pub effective_role : Role → Role → Role
effective_role board_role workspace_role =
    if same_role board_role Role.owner
    then Role.owner
    else (if is_manager workspace_role
        then Role.admin
        else (if same_role board_role Role.blank then Role.editor else board_role))

-- ResolveBoardRole
unfoldable pub resolve_board_role : ℕ → ℕ → Role → Exec Role
unfolding effective_role optional Boards.get_member_role
resolve_board_role board user workspace_role = do
  row ← optional (Boards.get_member_role board user)
  pure (effective_role (role_or_blank row) workspace_role)

-- checkAccess
unfoldable pub check_access : ℕ → ℕ → Role → Exec (Unit {0})
unfolding missing_as Boards.find_by_id Boards.is_member
check_access id user workspace_role = do
  board ← missing_as not_found (Boards.find_by_id id)
  if is_workspace_visible board.visibility
      then pure tt
      else (if is_manager workspace_role then pure tt else (do
        is_member ← Boards.is_member id user
        if is_member then pure tt else raise board_access_denied))
