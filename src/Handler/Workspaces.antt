-- ===== src/Handler/Workspaces.antt =====
-- internal/handlers/workspaces.go: the binding of requests that change one workspace, by the tags
-- of internal/models/workspace.go, the call of WorkspaceService, and the status of the answer.
pub mod Owner
use docflow_core.Prelude.{
  ℕ, zero, suc, ◌+◌, ◌*◌, ◌≡◌, ◌≢◌, refl, sym, ap, ◌∙◌, ◌⊎◌, inl, inr, ◌==◌, ◌&&◌, ◌||◌, not, Bool,
  true, false, String, Option, none, some, get_or, List, [], ◌∷◌, ◌++◌, map, find_row, exists_row,
  select, count_rows, update_rows, delete_rows, insert_row, ltb, leb, same_text, if◌then◌else◌,
  arith, Every, Bool-cases, Option-cases,
}
use docflow_core.Model.Error.{driver, record_not_found}
use docflow_core.Model.Store.{Store, World, BoardEvent, Result, ok, err}
use docflow_core.Exec.{
  Exec, ◌>>=◌, ◌>>◌, pure, raise, query, execute, found, transaction, missing_as, optional,
}
use docflow_core.Repo.Statement.{affected, returning}
use docflow_core.Position.{of_ℕ}
use docflow_core.Position.Rows.{order_by}
use Prim.Native.String.{count}
use docflow_core.Model.{Role, Error, same_role}
use docflow_core.Model.Error.{validation_error}
use docflow_core.Exec.{require}
use docflow_core.Middleware.Workspace.{member_role}
use docflow_core.Service.Workspaces.Rules.{Request, Caller, perform}

-- `min=2,max=100`, counted in characters
abbrev pub is_name : String → Bool
is_name t = leb 2 (count t) && leb (count t) 100

-- `oneof=admin member`
abbrev pub is_given_role : Role → Bool
is_given_role role = same_role role Role.admin || same_role role Role.member

-- `is_email` is the tag `email` of the library that binds requests.
module _ (is_email : String → Bool) where
  -- ShouldBindJSON, and the test of `req.Name == nil`
  unfoldable pub binds : Request → Bool
  binds (Request.rename name) = is_name name
  binds (Request.invite email) = is_email email
  binds (Request.set_role target role) = is_given_role role
  binds _ = true

  -- The routes of /workspaces/:id that change a workspace
  unfoldable pub handle : ℕ → ℕ → Request → Exec (Unit {0})
  unfolding binds member_role perform
  handle workspace user request = do
    role ← member_role workspace user
    require (binds request) validation_error
    perform workspace (record { user = user; role = role }) request

-- handleWorkspaceError, and the answers of the middleware and the binding
unfoldable pub status : Error → ℕ
status Error.not_found = 404
status Error.insufficient_permissions = 403
status Error.already_member = 409
status Error.cannot_remove_owner = 403
status Error.cannot_change_self_role = 400
status Error.not_workspace_member = 403
status Error.validation_error = 400
status _ = 500
