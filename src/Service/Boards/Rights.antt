-- ===== src/Service/Boards/Rights.antt =====
-- The rules of BoardService as an abstract specification: who may make a request, and what it does
-- to the tables when it succeeds.
use docflow_core.Prelude.{ℕ, ◌≡◌, ◌≢◌, ◌⊎◌, false, Option, none, some, get_or, exists_row}
use docflow_core.Model.{Role, Board, WorkspaceMember}
use docflow_core.Model.Store.{Store}
use docflow_core.Repo.Boards.{
  find_board, is_row, insert_member, with_board, with_token, without_row, set_role,
}
use docflow_core.Repo.Boards.Lookups.{HasRole}
use docflow_core.Repo.Cascade
use docflow_core.Repo.Workspaces.{find_member}
use docflow_core.Service.Access.Sight.{CanSee}
use docflow_core.Service.Boards.Request.{Request, Caller}

abbrev pub IsGiven : {A : Type 0} → Option A → Type 0
IsGiven none = ⊥
IsGiven (some _) = Unit

abbrev pub IsBoardManager : Role → Type 0
IsBoardManager r = (r ≡ Role.owner) ⊎ (r ≡ Role.admin)

-- The target is in the board's workspace, and has no row of its own yet.
abbrev pub CanJoin : ℕ → ℕ → Store → Type 0
CanJoin board target s =
    (b : Board) × (m : WorkspaceMember) × (find_board board s ≡ some b)
    × (find_member b.workspace_id target s ≡ some m)
    × (exists_row (is_row board target) s.board_members ≡ false)

-- What each request takes of the caller's board role, beyond seeing the board.
abbrev pub Rights : ℕ → Caller → Store → Request → Type 0
Rights board c s (Request.update_board title visibility) =
    (IsGiven visibility → c.board_role ≡ Role.owner) × (IsGiven title → IsBoardManager c.board_role)
Rights board c s Request.delete_board =
    (c.board_role ≡ Role.owner) ⊎ (c.workspace_role ≡ Role.owner)
Rights board c s (Request.add_member target role) =
    IsBoardManager c.board_role
    × (role ≡ some Role.admin → c.board_role ≡ Role.owner)
    × CanJoin board target s
Rights board c s (Request.remove_member target) =
    IsBoardManager c.board_role
    × ((r : Role) × HasRole board target s r
        × (r ≢ Role.owner)
        × (r ≡ Role.admin → c.board_role ≡ Role.owner))
Rights board c s (Request.set_member_role target role) =
    (c.board_role ≡ Role.owner) × ((r : Role) × HasRole board target s r × (r ≢ Role.owner))
Rights board c s (Request.transfer to) =
    (c.board_role ≡ Role.owner)
    × (to ≢ c.user)
    × ((r : Role) × HasRole board c.user s r)
    × ((r : Role) × HasRole board to s r)
Rights board c s Request.generate_link = IsBoardManager c.board_role
Rights board c s Request.revoke_link = IsBoardManager c.board_role

-- The tables afterwards.
abbrev pub Effect : ℕ → Caller → Request → Store → Store → Type 0
Effect board c (Request.update_board title visibility) s t = t ≡ with_board board title visibility s
Effect board c Request.delete_board s t = t ≡ Cascade.delete_board board s
Effect board c (Request.add_member target role) s t =
    t ≡ (insert_member board target (get_or role Role.editor) s).1
Effect board c (Request.remove_member target) s t = t ≡ without_row board target s
Effect board c (Request.set_member_role target role) s t = t ≡ set_role board target role s
Effect board c (Request.transfer to) s t =
    t ≡ set_role board to Role.owner (set_role board c.user Role.admin s)
Effect board c Request.generate_link s t = (token : ℕ) × (t ≡ with_token board (some token) s)
Effect board c Request.revoke_link s t = t ≡ with_token board none s

-- A request that is granted.
pub record Granted (board : ℕ) (c : Caller) (r : Request) (s t : Store) : Type 0 where
  pub seen : CanSee s board c.user c.workspace_role
  pub rights : Rights board c s r
  pub effect : Effect board c r s t
