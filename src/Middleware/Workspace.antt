-- ===== src/Middleware/Workspace.antt =====
-- internal/middleware/workspace.go: the middleware of all routes under /workspaces/:id. The
-- identifiers in the path have been parsed.
use docflow_core.Prelude.{ℕ}
use docflow_core.Exec.{Exec, ◌>>=◌, pure, missing_as}
use docflow_core.Model.{Role}
use docflow_core.Model.Error.{not_workspace_member}
use docflow_core.Repo.Workspaces

-- Workspace, up to `c.Next()`: the member_role of the context
unfoldable pub member_role : ℕ → ℕ → Exec Role
unfolding missing_as Workspaces.get_member
member_role workspace user = do
  row ← missing_as not_workspace_member (Workspaces.get_member workspace user)
  pure row.role
