-- ===== src/Middleware/Board/Agreement.antt =====
-- internal/middleware/board.go and ResolveBoardRole in internal/services/boards.go: the two places
-- that compute a board role.
use docflow_core.Prelude.{arith, ℕ, ◌≡◌, sym, ap, ◌∙◌}
use docflow_core.Model.{Role}
use docflow_core.Model.Store.{World, ok}
use docflow_core.Exec.Reads.{Reads, Reads-pure, Reads-bind}
use docflow_core.Middleware
use docflow_core.Middleware.Board.{IsCaller, resolve_role, board-Reads}
use docflow_core.Repo.Boards.{find_row_of}
use docflow_core.Service.Access.{effective_role, resolve_board_role}
use docflow_core.Service.Access.Sight.{role_in_row, optional_role-Reads}
use docflow_core.Service.Boards.Request.{Caller}

cascades_agree : (w b : Role) → resolve_role w b ≡ effective_role b w
unfolding resolve_role effective_role
cascades_agree w b = ground arith

resolve_board_role-Reads :
    (board user : ℕ) (w : Role)
    → Reads
        (λ s r. r ≡ effective_role (role_in_row (find_row_of board user s)) w)
        (resolve_board_role board user w)
unfolding resolve_board_role
resolve_board_role-Reads board user w =
    Reads-bind _ _ _ _ (optional_role-Reads board user)
      λ r. Reads-pure _ _ (λ s e. ap (λ x. effective_role x w) e)

-- When the middleware lets a request on a board pass, the board role it has put into the request's
-- context is the one that ResolveBoardRole, called next with the resolved workspace role, returns.
pub role_agrees :
    (id user : ℕ) (c : Caller) (r : Role) (w v u : World)
    → Middleware.Board.board id user w ≡ (ok c, v)
    → resolve_board_role id user c.workspace_role v ≡ (ok r, u)
    → r ≡ c.board_role
role_agrees id user c r w v u first second =
    let (b, m, _, _, _, has_w, has_b) = (board-Reads id user).reads w c (ap (λ x. x.0) first) in
    let same : v.db ≡ w.db = sym (ap (λ x. x.1.db) first) ∙ (board-Reads id user).same_db w in
    let read =
      (resolve_board_role-Reads id user c.workspace_role).reads v r (ap (λ x. x.0) second) in
    read
    ∙ sym (cascades_agree c.workspace_role (role_in_row (find_row_of id user v.db)))
    ∙ ap (λ s. resolve_role c.workspace_role (role_in_row (find_row_of id user s))) same
    ∙ ap (λ x. resolve_role x (role_in_row (find_row_of id user w.db))) has_w
    ∙ sym has_b
