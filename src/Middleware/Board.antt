-- ===== src/Middleware/Board.antt =====
-- internal/middleware/board.go: the middleware of all routes under /boards/:id. It resolves the
-- caller's roles; the identifiers in the path have been parsed.
pub mod Agreement
use docflow_core.Prelude.{ℕ, ◌||◌, ◌≡◌, refl, ap, some, if◌then◌else◌}
use docflow_core.Model.{Role, WorkspaceMember, Board, same_role}
use docflow_core.Model.Error.{board_not_found, not_workspace_member}
use docflow_core.Model.Store.{Store}
use docflow_core.Exec.{Exec, ◌>>=◌, pure, missing_as, optional}
use docflow_core.Exec.Reads.{Reads, Reads-pure, Reads-bind, Reads-missing_as}
use docflow_core.Repo.Boards
use docflow_core.Repo.Boards.{find_board, find_row_of, role_of}
use docflow_core.Repo.Boards.Lookups.{find_by_id-Reads, get_member-Reads}
use docflow_core.Repo.Workspaces
use docflow_core.Repo.Workspaces.{find_member}
use docflow_core.Service.Access.Sight.{role_in_row, optional_role-Reads}
use docflow_core.Service.Access.{role_or_blank}
use docflow_core.Service.Boards.Request.{Caller}

-- resolveBoardRole
unfoldable pub resolve_role : Role → Role → Role
resolve_role workspace_role board_member_role =
    if same_role board_member_role Role.owner
    then Role.owner
    else (if same_role workspace_role Role.owner || same_role workspace_role Role.admin
        then Role.admin
        else (if same_role board_member_role Role.blank then Role.editor else board_member_role))

-- Board, up to `c.Next()`
unfoldable pub board : ℕ → ℕ → Exec Caller
unfolding resolve_role missing_as optional Boards.find_by_id Workspaces.get_member
    Boards.get_member_role
board id user = do
  row ← missing_as board_not_found (Boards.find_by_id id)
  member ← missing_as not_workspace_member (Workspaces.get_member row.workspace_id user)
  role ← optional (Boards.get_member_role id user)
  pure (record {
    user = user;
    workspace_role = member.role;
    board_role = resolve_role member.role (role_or_blank role);
  })

-- The roles are those that the tables give the user.
abbrev pub IsCaller : ℕ → ℕ → Store → Caller → Type 0
IsCaller id user s c =
    (b : Board) × (m : WorkspaceMember) × (find_board id s ≡ some b)
    × (find_member b.workspace_id user s ≡ some m)
    × (c.user ≡ user)
    × (c.workspace_role ≡ m.role)
    × (c.board_role ≡ resolve_role m.role (role_in_row (find_row_of id user s)))

-- The middleware changes nothing, and lets only members of the board's workspace through.
pub board-Reads : (id user : ℕ) → Reads (IsCaller id user) (board id user)
unfolding board
board-Reads id user =
    Reads-bind _ _ _ _ (Reads-missing_as _ board_not_found _ (find_by_id-Reads id)) λ b.
      Reads-bind _ _ _ _
        (Reads-missing_as _ not_workspace_member _ (get_member-Reads b.workspace_id user))
        λ m. Reads-bind _ _ _ _ (optional_role-Reads id user) λ r.
          Reads-pure _ _
            λ s row inside here. (b, m, here, inside, refl, refl, ap (resolve_role m.role) row)
