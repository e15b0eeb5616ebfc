-- ===== src/Service/Workspaces.antt =====
-- internal/services/workspaces.go: WorkspaceService. The requester's role is an argument, resolved
-- beforehand by the middleware.
pub mod Rules
pub mod Refines
pub mod Owner
use docflow_core.Prelude.{
  ℕ, ◌==◌, ◌&&◌, Bool, true, false, String, Option, none, some, List, [], ◌∷◌, if◌then◌else◌,
}
use docflow_core.Exec.{Exec, ◌>>=◌, ◌>>◌, pure, raise, missing_as, optional}
use docflow_core.Model.{Role, Workspace, same_role}
use docflow_core.Model.Error.{
  not_found, already_member, cannot_remove_owner, insufficient_permissions, cannot_change_self_role,
}
use docflow_core.Repo.Users
use docflow_core.Repo.Workspaces
use docflow_core.Repo.Workspaces.{WorkspaceResponse, MemberResponse}
use docflow_core.Service.Access.{contains_role}

abbrev pub admin_or_owner : List Role
admin_or_owner = Role.admin ∷ Role.owner ∷ []

abbrev pub owner_alone : List Role
owner_alone = Role.owner ∷ []

-- requireRole
unfoldable pub require_role : Role → List Role → Exec (Unit {0})
require_role actual permitted =
    if contains_role actual permitted then pure tt else raise insufficient_permissions

unfoldable pub create_workspace : ℕ → String → Exec Workspace
unfolding Workspaces.create_with_owner
create_workspace user name = Workspaces.create_with_owner name user

unfoldable pub list_workspaces : ℕ → Exec (List WorkspaceResponse)
unfolding Workspaces.find_by_user_id
list_workspaces user = Workspaces.find_by_user_id user

pub record WorkspaceDetailResponse : Type 0 where
  pub id : ℕ
  pub name : String
  pub owner_id : ℕ
  pub members : List MemberResponse
  pub created_at : ℕ

unfoldable pub get_workspace : ℕ → Exec WorkspaceDetailResponse
unfolding missing_as Workspaces.find_by_id Workspaces.list_members
get_workspace workspace = do
  ws ← missing_as not_found (Workspaces.find_by_id workspace)
  members ← Workspaces.list_members workspace
  pure (record {
    id = ws.id;
    name = ws.name;
    owner_id = ws.owner_id;
    members = members;
    created_at = ws.created_at;
  })

unfoldable pub rename_workspace : ℕ → Role → String → Exec Workspace
unfolding require_role missing_as Workspaces.update
rename_workspace workspace role name = do
  require_role role admin_or_owner
  missing_as not_found (Workspaces.update workspace name)

unfoldable pub delete_workspace : ℕ → Role → Exec (Unit {0})
unfolding require_role missing_as Workspaces.delete
delete_workspace workspace role = do
  require_role role owner_alone
  missing_as not_found (Workspaces.delete workspace)

unfoldable pub list_members : ℕ → Exec (List MemberResponse)
unfolding Workspaces.list_members
list_members workspace = Workspaces.list_members workspace

abbrev pub is_there : {A : Type 0} → Option A → Bool
is_there none = false
is_there (some _) = true

unfoldable pub invite_member : ℕ → Role → String → Exec (Unit {0})
unfolding require_role missing_as optional Users.find_by_email Workspaces.get_member
    Workspaces.add_member
invite_member workspace role email = do
  require_role role admin_or_owner
  user ← missing_as not_found (Users.find_by_email email)
  row ← optional (Workspaces.get_member workspace user.id)
  if is_there row then raise already_member else Workspaces.add_member workspace user.id Role.member

unfoldable pub remove_member : ℕ → Role → ℕ → Exec (Unit {0})
unfolding require_role missing_as Workspaces.get_member Workspaces.remove_member
remove_member workspace role target = do
  require_role role admin_or_owner
  row ← missing_as not_found (Workspaces.get_member workspace target)
  if same_role row.role Role.owner
      then raise cannot_remove_owner
      else (if same_role role Role.admin && same_role row.role Role.admin
          then raise insufficient_permissions
          else Workspaces.remove_member workspace target)

unfoldable pub update_member_role : ℕ → ℕ → Role → ℕ → Role → Exec (Unit {0})
unfolding require_role missing_as Workspaces.get_member Workspaces.update_member_role
update_member_role workspace requester role target new_role = do
  require_role role owner_alone
  if requester == target then raise cannot_change_self_role else (do
    missing_as not_found (Workspaces.get_member workspace target)
    Workspaces.update_member_role workspace target new_role)
