-- ===== src/Repo/Workspaces.antt =====
-- internal/repositories/workspaces.go.
pub mod Effects
use docflow_core.Prelude.{
  ℕ, suc, ◌==◌, ◌&&◌, Bool, true, false, String, Option, none, some, List, [], ◌∷◌, map, find_row,
  exists_row, select, count_rows, update_rows, delete_rows, insert_row, if◌then◌else◌,
}
use docflow_core.Position.{of_ℕ}
use docflow_core.Position.Rows.{order_by}
use docflow_core.Model.{Role, User, Workspace, WorkspaceMember}
use docflow_core.Model.Error.{driver}
use docflow_core.Model.Store.{Store, Result, ok, err}
use docflow_core.Exec.{Exec, ◌>>=◌, ◌>>◌, pure, query, execute, found, transaction}
use docflow_core.Repo.Cascade
use docflow_core.Repo.Statement.{affected, returning}

abbrev pub has_workspace_id : ℕ → Workspace → Bool
has_workspace_id id w = w.id == id

abbrev pub find_workspace : ℕ → Store → Option Workspace
find_workspace id s = find_row (has_workspace_id id) s.workspaces

abbrev pub is_member_row : ℕ → ℕ → WorkspaceMember → Bool
is_member_row workspace user m = m.workspace_id == workspace && m.user_id == user

abbrev pub find_member : ℕ → ℕ → Store → Option WorkspaceMember
find_member workspace user s = find_row (is_member_row workspace user) s.workspace_members

abbrev pub workspace_row : String → ℕ → Store → Workspace
workspace_row name owner s = record {
  id = s.next_id;
  name = name;
  owner_id = owner;
  created_at = s.now;
  updated_at = s.now;
}

-- `INSERT INTO workspaces`
unfoldable pub insert_workspace : String → ℕ → Store → Result Workspace × Store
insert_workspace name owner s =
    let w = workspace_row name owner s in
    (ok w, record s { workspaces = insert_row w s.workspaces; next_id = suc s.next_id })

abbrev pub member_row : ℕ → ℕ → Role → Store → WorkspaceMember
member_row workspace user role s = record {
  workspace_id = workspace;
  user_id = user;
  role = role;
  joined_at = s.now;
}

abbrev pub with_member : ℕ → ℕ → Role → Store → Store
with_member workspace user role s = record s {
  workspace_members = insert_row (member_row workspace user role s) s.workspace_members;
}

-- `INSERT INTO workspace_members`, with the primary key (workspace_id, user_id)
unfoldable pub insert_member : ℕ → ℕ → Role → Store → Result (Unit {0}) × Store
insert_member workspace user role s =
    if exists_row (is_member_row workspace user) s.workspace_members
    then (err driver, s)
    else (ok tt, with_member workspace user role s)

unfoldable pub create_with_owner : String → ℕ → Exec Workspace
unfolding insert_workspace insert_member execute transaction
create_with_owner name owner = transaction do
  ws ← execute (insert_workspace name owner)
  execute (insert_member ws.id owner Role.owner)
  pure ws

unfoldable pub find_by_id : ℕ → Exec Workspace
unfolding query
find_by_id id = query λ s. found (find_workspace id s)

pub record WorkspaceResponse : Type 0 where
  pub id : ℕ
  pub name : String
  pub owner_id : ℕ
  pub created_at : ℕ
  pub member_count : ℕ

abbrev pub workspace_response : Store → Workspace → WorkspaceResponse
workspace_response s w = record {
  id = w.id;
  name = w.name;
  owner_id = w.owner_id;
  created_at = w.created_at;
  member_count = count_rows (λ m. m.workspace_id == w.id) s.workspace_members;
}

-- The workspaces of a user, the oldest first
abbrev pub workspaces_of : ℕ → Store → List Workspace
workspaces_of user s =
    order_by (λ w. of_ℕ w.created_at)
      (select (λ w. exists_row (is_member_row w.id user) s.workspace_members) s.workspaces)

unfoldable pub find_by_user_id : ℕ → Exec (List WorkspaceResponse)
unfolding query
find_by_user_id user = query λ s. ok (map (workspace_response s) (workspaces_of user s))

abbrev pub rename_row : String → ℕ → Workspace → Workspace
rename_row name now w = record w { name = name; updated_at = now }

abbrev pub with_name : ℕ → String → Store → Store
with_name id name s = record s {
  workspaces = update_rows (has_workspace_id id) (rename_row name s.now) s.workspaces;
}

unfoldable pub update : ℕ → String → Exec Workspace
unfolding execute
update id name =
    execute λ s. returning (find_workspace id s) (rename_row name s.now) s (with_name id name s)

unfoldable pub delete : ℕ → Exec (Unit {0})
unfolding execute
delete id =
    execute λ s.
      affected (exists_row (has_workspace_id id) s.workspaces) s (Cascade.delete_workspace id s)

unfoldable pub get_member : ℕ → ℕ → Exec WorkspaceMember
unfolding query
get_member workspace user = query λ s. found (find_member workspace user s)

unfoldable pub add_member : ℕ → ℕ → Role → Exec (Unit {0})
unfolding execute insert_member
add_member workspace user role = execute (insert_member workspace user role)

abbrev pub with_role : ℕ → ℕ → Role → Store → Store
with_role workspace user role s = record s {
  workspace_members =
      update_rows (is_member_row workspace user) (λ m. record m { role = role })
        s.workspace_members;
}

unfoldable pub update_member_role : ℕ → ℕ → Role → Exec (Unit {0})
unfolding execute
update_member_role workspace user role = execute λ s.
    affected (exists_row (is_member_row workspace user) s.workspace_members) s
      (with_role workspace user role s)

abbrev pub without_member : ℕ → ℕ → Store → Store
without_member workspace user s = record s {
  workspace_members = delete_rows (is_member_row workspace user) s.workspace_members;
}

unfoldable pub remove_member : ℕ → ℕ → Exec (Unit {0})
unfolding execute
remove_member workspace user = execute λ s.
    affected (exists_row (is_member_row workspace user) s.workspace_members) s
      (without_member workspace user s)

pub record MemberResponse : Type 0 where
  pub user_id : ℕ
  pub name : String
  pub email : String
  pub avatar_url : Option String
  pub role : Role
  pub joined_at : ℕ

-- The join of a member with its user, which is there by the foreign key
abbrev pub member_responses : List User → List WorkspaceMember → List MemberResponse
member_responses users [] = []
member_responses users (m ∷ ms) =
    let rest = member_responses users ms in
    elim (find_row (λ u. u.id == m.user_id) users) [
      | none ↦ rest
      | some u ↦
          record {
            user_id = u.id;
            name = u.name;
            email = u.email;
            avatar_url = u.avatar_url;
            role = m.role;
            joined_at = m.joined_at;
          }
          ∷ rest
    ]

unfoldable pub list_members : ℕ → Exec (List MemberResponse)
unfolding query
list_members workspace = query λ s. ok (
    member_responses s.users (
      order_by (λ m. of_ℕ m.joined_at)
        (select (λ m. m.workspace_id == workspace) s.workspace_members)))
