-- ===== src/Service/Boards/Request.antt =====
-- The requests that change one board, and the method of BoardService that serves each:
-- internal/handlers/boards.go. What the methods return is left out here.
use docflow_core.Prelude.{ℕ, String, Option}
use docflow_core.Model.{Role, Visibility}
use docflow_core.Exec.{Exec, ◌>>=◌, pure}
use docflow_core.Service.Boards

pub data Request : Type 0 where
  update_board : Option String → Option Visibility → Request
  delete_board : Request
  add_member : ℕ → Option Role → Request
  remove_member : ℕ → Request
  set_member_role : ℕ → Role → Request
  transfer : ℕ → Request
  generate_link revoke_link : Request

-- `user_id`, `member_role` and `board_role` of the request's context
pub record Caller : Type 0 where
  pub user : ℕ
  pub workspace_role : Role
  pub board_role : Role

abbrev pub discard : {A : Type 0} → Exec A → Exec (Unit {0})
discard m = m >>= λ _. pure tt

-- The calls of BoardService in the handlers
unfoldable pub perform : ℕ → Caller → Request → Exec (Unit {0})
perform b c (Request.update_board title visibility) =
    discard (Boards.update_board b c.user c.workspace_role c.board_role title visibility)
perform b c Request.delete_board = Boards.delete_board b c.user c.workspace_role c.board_role
perform b c (Request.add_member target role) =
    Boards.add_board_member b c.user c.workspace_role c.board_role target role
perform b c (Request.remove_member target) =
    Boards.remove_board_member b target c.user c.workspace_role c.board_role
perform b c (Request.set_member_role target role) =
    Boards.update_board_member_role b target c.user c.workspace_role c.board_role role
perform b c (Request.transfer to) =
    Boards.transfer_ownership b c.user c.workspace_role c.board_role to
perform b c Request.generate_link =
    discard (Boards.generate_share_link b c.user c.workspace_role c.board_role)
perform b c Request.revoke_link = Boards.revoke_share_link b c.user c.workspace_role c.board_role
