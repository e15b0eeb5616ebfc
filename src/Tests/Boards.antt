-- ===== src/Tests/Boards.antt =====
-- One board with three members, requests on it, and the creation of a second.
use docflow_core.Prelude.{◌+◌, ℕ, ◌≡◌, refl, inr, false, none, [], ◌∷◌, arith}
use docflow_core.Model.{Role, Visibility, Board, Membership, WorkspaceMember}
use docflow_core.Model.Store.{Store, World, ok}
use docflow_core.Exec.Ensures.{Outcome}
use docflow_core.Handler.Boards.{handle}
use docflow_core.Handler.Boards.Safety.{Handled, handle_refines}
use docflow_core.Handler.Boards.Ownership.{handle_keeps}
use docflow_core.Handler.Boards.Stale.{stale_transfer}
use docflow_core.Middleware
use docflow_core.Middleware.Board.Agreement.{role_agrees}
use docflow_core.Repo.Boards.Owners.{owners}
use docflow_core.Service.Access.{check_access, resolve_board_role}
use docflow_core.Service.Access.Complete.{check_access_complete}
use docflow_core.Service
use docflow_core.Service.Boards
use docflow_core.Service.Boards.{create_board}
use docflow_core.Service.Boards.Creation.{Created, create_board_founds}
use docflow_core.Service.Boards.Ownership.{HasOneOwner}
use docflow_core.Service.Boards.Request.{Request, Caller, perform}

abbrev pub row : ℕ → Role → Membership
row user role = record { board_id = 1; user_id = user; role = role; added_at = 0 }

abbrev pub in_workspace : ℕ → Role → WorkspaceMember
in_workspace user role = record { workspace_id = 7; user_id = user; role = role; joined_at = 0 }

abbrev pub plans : Board
plans = record {
  id = 1;
  workspace_id = 7;
  title = "plans";
  visibility = Visibility.private;
  share_token = none;
  created_by = 10;
  created_at = 0;
  updated_at = 0;
}

abbrev pub tables : Store
tables = record {
  users = [];
  workspaces = [];
  workspace_members =
      in_workspace 10 Role.member ∷ in_workspace 11 Role.member ∷ in_workspace 12 Role.member ∷ [];
  boards = plans ∷ [];
  board_members = row 10 Role.owner ∷ row 11 Role.editor ∷ row 12 Role.editor ∷ [];
  columns = [];
  cards = [];
  documents = [];
  document_updates = [];
  refresh_tokens = [];
  invitations = [];
  now = 5;
  next_id = 2;
}

abbrev pub world : World
world = record { db = tables; tick = 0; outage = λ n. false; random = λ n. n + 100; events = [] }

abbrev ten : Caller
ten = record { user = 10; workspace_role = Role.member; board_role = Role.owner }

tables-HasOneOwner : HasOneOwner tables
tables-HasOneOwner = record {
  one_row = λ b u. ground arith;
  one_owner = λ b h. ground arith;
  fresh_board = λ b h. ground arith;
  fresh_rows = λ b h. ground arith;
}

-- A member is removed.
handle_refines_example :
    Outcome tables []
      (Handled 1 10 (Request.remove_member 11) tables [])
      (handle 1 10 (Request.remove_member 11) world).0
      (handle 1 10 (Request.remove_member 11) world).1.db
      (handle 1 10 (Request.remove_member 11) world).1.events
handle_refines_example = handle_refines 1 10 (Request.remove_member 11) world

-- Ownership is handed over.
handle_keeps_example : HasOneOwner (handle 1 10 (Request.transfer 12) world).1.db
handle_keeps_example = handle_keeps 1 10 (Request.transfer 12) world tables-HasOneOwner

-- The two handovers that have passed the middleware, one after the other.
abbrev first_done : World
first_done = (perform 1 ten (Request.transfer 11) world).1

abbrev second_done : World
second_done = (perform 1 ten (Request.transfer 12) first_done).1

stale_transfer_example : owners 1 second_done.db.board_members ≡ 2
unfolding perform Service.Boards.transfer_ownership
stale_transfer_example =
    stale_transfer 1 ten 11 12 world first_done second_done tables-HasOneOwner
      (row 10 Role.owner, refl, refl) (omega arith) refl refl

role_agrees_example : Role.owner ≡ ten.board_role
unfolding Middleware.Board.board resolve_board_role
role_agrees_example =
    role_agrees 1 10 ten Role.owner world (Middleware.Board.board 1 10 world).1
      (resolve_board_role 1 10 Role.member (Middleware.Board.board 1 10 world).1).1 refl refl

check_access_complete_example : (check_access 1 11 Role.member world).0 ≡ ok tt
check_access_complete_example =
    check_access_complete 1 11 Role.member world (λ n. refl) (plans, refl, inr (inr (inr refl)))

create_board_founds_example :
    Outcome tables []
      (Created tables [] 7 11 "notes" none)
      (create_board 7 11 "notes" none world).0
      (create_board 7 11 "notes" none world).1.db
      (create_board 7 11 "notes" none world).1.events
create_board_founds_example = create_board_founds 7 11 "notes" none world tables-HasOneOwner
