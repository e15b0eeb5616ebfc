-- ===== src/Service/Access/Complete.antt =====
-- checkAccess in internal/services/boards.go, for callers who can see the board.
use docflow_core.Prelude.{◌+◌, ℕ, ◌≡◌, false, arith}
use docflow_core.Model.{Role}
use docflow_core.Model.Store.{World, ok}
use docflow_core.Exec.{query, missing_as}
use docflow_core.Repo.Boards
use docflow_core.Service.Access.{check_access}
use docflow_core.Service.Access.Sight.{CanSee}

-- While no call of the driver fails, checkAccess returns without an error for whoever can see the
-- board: it is open to the workspace, or the caller manages the workspace or is a board member.
pub check_access_complete :
    (board user : ℕ) (role : Role) (w : World)
    → ((n : ℕ) → w.outage n ≡ false)
    → CanSee w.db board user role
    → (check_access board user role w).0 ≡ ok tt
unfolding check_access missing_as query Boards.find_by_id Boards.is_member
check_access_complete board user role w up (b, here, why) =
    ground (arith, up w.tick, up (w.tick + 1), here, why)
