-- ===== src/Service/Workspaces/Rules.antt =====
-- The requests that change one workspace, the method of WorkspaceService that serves each
-- (internal/handlers/workspaces.go), and its rules as an abstract specification.
use docflow_core.Prelude.{ℕ, ◌≡◌, ◌≢◌, false, String, some, List, exists_row}
use docflow_core.Model.Store.{Store, BoardEvent}
use docflow_core.Exec.{Exec}
use docflow_core.Model.{Role, User, WorkspaceMember}
use docflow_core.Repo.Cascade
use docflow_core.Repo.Users.{find_user_by_email}
use docflow_core.Repo.Workspaces.{
  find_member, is_member_row, with_member, with_name, with_role, without_member,
}
use docflow_core.Service.Boards.Request.{discard}
use docflow_core.Service.Boards.Rights.{IsBoardManager}
use docflow_core.Service.Workspaces

pub data Request : Type 0 where
  rename : String → Request
  delete : Request
  invite : String → Request
  remove : ℕ → Request
  set_role : ℕ → Role → Request

-- `user_id` and `member_role` of the request's context
pub record Caller : Type 0 where
  pub user : ℕ
  pub role : Role

-- The calls of WorkspaceService in the handlers
unfoldable pub perform : ℕ → Caller → Request → Exec (Unit {0})
perform ws c (Request.rename name) = discard (Workspaces.rename_workspace ws c.role name)
perform ws c Request.delete = Workspaces.delete_workspace ws c.role
perform ws c (Request.invite email) = Workspaces.invite_member ws c.role email
perform ws c (Request.remove target) = Workspaces.remove_member ws c.role target
perform ws c (Request.set_role target role) =
    Workspaces.update_member_role ws c.user c.role target role

abbrev pub Rights : ℕ → Caller → Store → Request → Type 0
Rights ws c s (Request.rename name) = IsBoardManager c.role
Rights ws c s Request.delete = c.role ≡ Role.owner
Rights ws c s (Request.invite email) = IsBoardManager c.role
Rights ws c s (Request.remove target) =
    IsBoardManager c.role
    × ((m : WorkspaceMember) × (find_member ws target s ≡ some m)
        × (m.role ≢ Role.owner)
        × (m.role ≡ Role.admin → c.role ≡ Role.owner))
Rights ws c s (Request.set_role target role) =
    (c.role ≡ Role.owner)
    × (c.user ≢ target)
    × ((m : WorkspaceMember) × (find_member ws target s ≡ some m))

-- The tables afterwards
abbrev pub Effect : ℕ → Caller → Request → Store → Store → Type 0
Effect ws c (Request.rename name) s t = t ≡ with_name ws name s
Effect ws c Request.delete s t = t ≡ Cascade.delete_workspace ws s
Effect ws c (Request.invite email) s t =
    (u : User) × (find_user_by_email email s ≡ some u)
    × (exists_row (is_member_row ws u.id) s.workspace_members ≡ false)
    × (t ≡ with_member ws u.id Role.member s)
Effect ws c (Request.remove target) s t = t ≡ without_member ws target s
Effect ws c (Request.set_role target role) s t = t ≡ with_role ws target role s

-- A request that is granted; no event is sent.
pub record Granted (ws : ℕ) (c : Caller) (r : Request) (s : Store) (es : List BoardEvent)
    (t : Store) (es' : List BoardEvent) : Type 0 where
  pub rights : Rights ws c s r
  pub effect : Effect ws c r s t
  pub silent : es' ≡ es
