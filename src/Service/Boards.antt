-- ===== src/Service/Boards.antt =====
-- internal/services/boards.go: BoardService. The caller's two roles are arguments, resolved
-- beforehand by the middleware.
pub mod Request
pub mod Rights
pub mod Serving
pub mod Refines
pub mod Ownership
pub mod Handover
pub mod Creation
pub mod Viewing
use docflow_core.Prelude.{
  ℕ, String, Bool, true, false, not, ◌&&◌, ◌==◌, Option, none, some, get_or, List, [], ◌∷◌,
  if◌then◌else◌,
}
use docflow_core.Model.{Role, Visibility, Error, Board, same_role}
use docflow_core.Model.Error.{
  not_found, user_not_found, insufficient_permissions, already_board_member,
  cannot_remove_board_owner, target_not_board_member,
}
use docflow_core.Model.Store.{World, Result, ok, err}
use docflow_core.Exec.{Exec, ◌>>=◌, ◌>>◌, pure, raise, missing_as, optional, generate_token}
use docflow_core.Repo.Boards
use docflow_core.Repo.Workspaces
use docflow_core.Service.Access.{check_access, require_board_role}

abbrev pub owner_only : List Role
owner_only = Role.owner ∷ []

abbrev pub owner_or_admin : List Role
owner_or_admin = Role.owner ∷ Role.admin ∷ []

abbrev pub when_given : {A : Type 0} → Option A → Exec (Unit {0}) → Exec (Unit {0})
when_given none check = pure tt
when_given (some _) check = check

-- CreateBoard
unfoldable pub create_board : ℕ → ℕ → String → Option Visibility → Exec Board
unfolding Boards.create
create_board workspace user title visibility =
    Boards.create workspace title (get_or visibility Visibility.workspace) user

-- UpdateBoard
unfoldable pub update_board : ℕ → ℕ → Role → Role → Option String → Option Visibility → Exec Board
unfolding check_access require_board_role missing_as Boards.update
update_board board user workspace_role board_role title visibility = do
  check_access board user workspace_role
  when_given visibility (require_board_role board_role owner_only)
  when_given title (require_board_role board_role owner_or_admin)
  missing_as not_found (Boards.update board title visibility)

-- DeleteBoard
unfoldable pub delete_board : ℕ → ℕ → Role → Role → Exec (Unit {0})
unfolding check_access missing_as Boards.delete
delete_board board user workspace_role board_role = do
  check_access board user workspace_role
  if not (same_role board_role Role.owner) && not (same_role workspace_role Role.owner)
      then raise insufficient_permissions
      else missing_as not_found (Boards.delete board)

-- AddBoardMember
unfoldable pub add_board_member : ℕ → ℕ → Role → Role → ℕ → Option Role → Exec (Unit {0})
unfolding check_access require_board_role missing_as Boards.find_by_id Workspaces.get_member
    Boards.is_member Boards.add_member
add_board_member board requester workspace_role board_role target role = do
  check_access board requester workspace_role
  require_board_role board_role owner_or_admin
  let target_role = get_or role Role.editor
  if same_role target_role Role.admin then require_board_role board_role owner_only else pure tt
  row ← missing_as not_found (Boards.find_by_id board)
  missing_as user_not_found (Workspaces.get_member row.workspace_id target)
  already ← Boards.is_member board target
  if already then raise already_board_member else Boards.add_member board target target_role

-- RemoveBoardMember
unfoldable pub remove_board_member : ℕ → ℕ → ℕ → Role → Role → Exec (Unit {0})
unfolding check_access require_board_role missing_as Boards.get_member_role Boards.remove_member
remove_board_member board target requester workspace_role board_role = do
  check_access board requester workspace_role
  require_board_role board_role owner_or_admin
  target_role ← missing_as not_found (Boards.get_member_role board target)
  if same_role target_role Role.owner
      then raise cannot_remove_board_owner
      else (if same_role target_role Role.admin && not (same_role board_role Role.owner)
          then raise insufficient_permissions
          else Boards.remove_member board target)

-- UpdateBoardMemberRole
unfoldable pub update_board_member_role : ℕ → ℕ → ℕ → Role → Role → Role → Exec (Unit {0})
unfolding check_access require_board_role missing_as Boards.get_member_role
    Boards.update_member_role
update_board_member_role board target requester workspace_role board_role role = do
  check_access board requester workspace_role
  require_board_role board_role owner_only
  target_role ← missing_as not_found (Boards.get_member_role board target)
  if same_role target_role Role.owner
      then raise cannot_remove_board_owner
      else Boards.update_member_role board target role

-- TransferOwnership
unfoldable pub transfer_ownership : ℕ → ℕ → Role → Role → ℕ → Exec (Unit {0})
unfolding check_access require_board_role missing_as Boards.transfer_ownership
transfer_ownership board requester workspace_role board_role to = do
  check_access board requester workspace_role
  require_board_role board_role owner_only
  if to == requester
      then raise insufficient_permissions
      else missing_as target_not_board_member (Boards.transfer_ownership board requester to)

-- GenerateShareLink; the URL is made of the token
unfoldable pub generate_share_link : ℕ → ℕ → Role → Role → Exec ℕ
unfolding check_access require_board_role generate_token Boards.set_share_token
generate_share_link board user workspace_role board_role = do
  check_access board user workspace_role
  require_board_role board_role owner_or_admin
  token ← generate_token
  Boards.set_share_token board (some token)
  pure token

-- RevokeShareLink
unfoldable pub revoke_share_link : ℕ → ℕ → Role → Role → Exec (Unit {0})
unfolding check_access require_board_role Boards.set_share_token
revoke_share_link board user workspace_role board_role = do
  check_access board user workspace_role
  require_board_role board_role owner_or_admin
  Boards.set_share_token board none
