-- ===== src/Handler/Boards/Listing.antt =====
-- internal/handlers/boards.go: the list of a workspace's boards against the boards that can be opened.
use docflow_core.Service.Boards.Request.{Caller}
use docflow_core.Middleware.Board.{resolve_role, IsCaller}
use docflow_core.Repo.Boards.Detail.{stored_detail}
use docflow_core.Model.Views.{BoardResponse, BoardDetailResponse}
use docflow_core.Exec.Answers.{
  IsUp, Replies-raise, Replies-stop, Replies-query, Replies-bind, Answers-optional, Answers-pure,
  Answers-missing_as, Answers-bind, Answers-query, Replies, Answers,
}
use docflow_core.Repo.Workspaces
use docflow_core.Service.Access.{role_or_blank, check_access, is_manager}
use docflow_core.Repo.Boards.Lists.{
  find_by_workspace, is_visible, board_response, is_manager_row, visible_boards,
}
use docflow_core.Repo.Workspaces.{is_member_row, find_member}
use docflow_core.Repo.Boards.Finding.{has_id}
use docflow_core.Model.{
  not_found, board_access_denied, board_not_found, not_workspace_member, Role, Visibility,
  Membership, is_workspace_visible, WorkspaceMember, Board,
}
use docflow_core.Prelude.{
  find_row_holds, ==_iff, ==_refl, exists-select, exists-sort_by, exists-both, to_list, exists-map,
  select-key, ◌≤◌, ℕ, ◌≡◌, refl, ap, ◌∙◌, ◌⊎◌, inl, inr, ◌==◌, ◌&&◌, ◌||◌, Bool, true, false,
  Option, none, some, List, [], ◌∷◌, exists_row, select, count_rows, if◌then◌else◌, arith,
  Bool-cases,
}
use docflow_core.Model.Store.{Store, World, ok, err}
use docflow_core.Exec.{absent, found}
use docflow_core.Service.Boards.Viewing
use docflow_core.Repo.Boards
use docflow_core.Middleware
use docflow_core.Middleware.Board
use docflow_core.Middleware.Workspace
use docflow_core.Handler.Boards.Views.{list_boards, get_board_detail}
use docflow_core.Repo.Boards.{find_board, find_row_of, is_row, role_of}
use docflow_core.Service.Boards.Viewing.Shown.{
  find_by_id-Answers, detail-Answers, check_access-Answers,
}

module _ (s : Store) (id user : ℕ) (b : Board) (m : WorkspaceMember)
    (here : find_board id s ≡ some b) (one_board : count_rows (has_id id) s.boards ≤ 1)
    (inside : find_member b.workspace_id user s ≡ some m)
    (one_row : count_rows (is_member_row b.workspace_id user) s.workspace_members ≤ 1) where
  only_board : select (has_id id) s.boards ≡ b ∷ []
  only_board = select-key (has_id id) s.boards one_board ∙ ap to_list here

  only_row : select (is_member_row b.workspace_id user) s.workspace_members ≡ m ∷ []
  only_row =
      select-key (is_member_row b.workspace_id user) s.workspace_members one_row ∙ ap to_list inside

  -- Whether the list of the workspace's boards has the board
  abbrev listed : Bool
  listed = exists_row (λ r. r.id == id) (visible_boards b.workspace_id user s)

  manages : exists_row (is_manager_row b.workspace_id user) s.workspace_members ≡ is_manager m.role
  manages =
      exists-both (is_member_row b.workspace_id user) (λ k. is_manager k.role) s.workspace_members
      ∙ rw (only_row) (ground arith)

  abbrev can_see : Bool
  can_see =
      is_workspace_visible b.visibility
      || exists_row (is_row id user) s.board_members
      || is_manager m.role

  listed-can_see : listed ≡ can_see
  listed-can_see =
      exists-map (λ r. r.id == id) (board_response s) _
      ∙ exists-sort_by _ (has_id id) (select (is_visible b.workspace_id user s) s.boards)
      ∙ exists-select (has_id id) (is_visible b.workspace_id user s) s.boards
      ∙ rw (only_board)
          (seen b.id ((==_iff b.id id).0 (find_row_holds (has_id id) s.boards b here)))
    where
      seen :
          (i : ℕ)
          → i ≡ id
          → (if b.workspace_id == b.workspace_id
                && (is_workspace_visible b.visibility
                    || exists_row (is_row i user) s.board_members
                    || exists_row (is_manager_row b.workspace_id user) s.workspace_members)
              then true
              else false)
            ≡ can_see
      seen i e = rw (e, manages) (ground (arith, ==_refl b.workspace_id))

  get_member-Answers : Answers s m (Workspaces.get_member b.workspace_id user)
  unfolding Workspaces.get_member
  get_member-Answers = Answers-query s _ m (ap found inside)

  list-Answers : Answers s (visible_boards b.workspace_id user s) (list_boards b.workspace_id user)
  unfolding list_boards Viewing.list_boards find_by_workspace Middleware.Workspace.member_role
  list-Answers =
      Answers-bind s m.role _ _ _
        (Answers-bind s m m.role _ _
          (Answers-missing_as s not_workspace_member _ m get_member-Answers)
          (Answers-pure s m.role))
        (Answers-query s _ _ refl)

  abbrev row_role : Option Membership → Option Role
  row_role none = none
  row_role (some k) = some k.role

  absent-role_of : (o : Option Membership) → absent (role_of o) ≡ ok (row_role o)
  absent-role_of none = refl
  absent-role_of (some k) = refl

  abbrev caller : Caller
  caller = record {
    user = user;
    workspace_role = m.role;
    board_role = resolve_role m.role (role_or_blank (row_role (find_row_of id user s)));
  }

  middleware-Answers : Answers s caller (Middleware.Board.board id user)
  unfolding Middleware.Board.board Boards.get_member_role
  middleware-Answers =
      Answers-bind s b caller _ _
        (Answers-missing_as s board_not_found _ b (find_by_id-Answers s id b here))
        (Answers-bind s m caller _ _
          (Answers-missing_as s not_workspace_member _ m get_member-Answers)
          (Answers-bind s (row_role (find_row_of id user s)) caller _ _
            (Answers-optional s (role_of (find_row_of id user s)) _ _
              (absent-role_of (find_row_of id user s)) (Replies-query s _))
            (Answers-pure s caller)))

  why_seen :
      can_see ≡ true
      → (b.visibility ≡ Visibility.workspace)
        ⊎ (m.role ≡ Role.owner)
        ⊎ (m.role ≡ Role.admin)
        ⊎ (exists_row (is_row id user) s.board_members ≡ true)
  why_seen e = ground (arith, e)

  abbrev answer : BoardDetailResponse
  answer = record (stored_detail id b s) { my_board_role = caller.board_role }

  detail-Answers_seen : can_see ≡ true → Answers s answer (get_board_detail id user)
  unfolding get_board_detail Viewing.get_board_detail
  detail-Answers_seen e = Answers-bind s caller answer _ _ middleware-Answers (
      Answers-bind s tt answer _ _ (check_access-Answers s id user m.role (b, here, why_seen e)) (
        Answers-bind s (stored_detail id b s) answer _ _ (detail-Answers s id b here)
          (Answers-pure s answer)))

  check_access-Replies :
      can_see ≡ false → Replies s (err board_access_denied) (check_access id user m.role)
  unfolding check_access Boards.is_member
  check_access-Replies e =
      Replies-bind s b (err board_access_denied) _ _
        (Answers-missing_as s not_found _ b (find_by_id-Answers s id b here))
        (rw (unseen.0, unseen.1)
          (Replies-bind s false (err board_access_denied) _ _
            (Answers-query s _ false (ap ok unseen.2)) (Replies-raise s board_access_denied)))
    where
      unseen :
          (is_workspace_visible b.visibility ≡ false)
          × (is_manager m.role ≡ false)
          × (exists_row (is_row id user) s.board_members ≡ false)
      unseen = (ground (arith, e), ground (arith, e), ground (arith, e))

  detail-Replies_unseen :
      can_see ≡ false → Replies s (err board_access_denied) (get_board_detail id user)
  unfolding get_board_detail Viewing.get_board_detail
  detail-Replies_unseen e =
      Replies-bind s caller _ _ _ middleware-Answers
        (Replies-stop s board_access_denied _ _ (check_access-Replies e))

-- While no call of the driver fails, and for a board, a workspace member and rows that are keys of
-- their tables, the list of the workspace's boards agrees with the boards that can be opened: the
-- list that the member is answered with has the board, and then GET /boards/:id shows it; or the
-- list does not have it, and then the request is refused for want of access.
pub listed_boards_open :
    (id user : ℕ) (b : Board) (m : WorkspaceMember) (w : World)
    → IsUp w
    → find_board id w.db ≡ some b
    → count_rows (has_id id) w.db.boards ≤ 1
    → find_member b.workspace_id user w.db ≡ some m
    → count_rows (is_member_row b.workspace_id user) w.db.workspace_members ≤ 1
    → (bs : List BoardResponse) × ((list_boards b.workspace_id user w).0 ≡ ok bs)
      × (((exists_row (λ r. r.id == id) bs ≡ true)
            × (d : BoardDetailResponse) × ((get_board_detail id user w).0 ≡ ok d))
          ⊎ ((exists_row (λ r. r.id == id) bs ≡ false)
              × ((get_board_detail id user w).0 ≡ err board_access_denied)))
listed_boards_open id user b m w up here one_board inside one_row = (
  visible_boards b.workspace_id user w.db,
  ((list-Answers w.db id user b m here one_board inside one_row).at w refl up).0,
  elim (Bool-cases (can_see w.db id user b m here one_board inside one_row)) [
    | inl e ↦ inl (
      listed-can_see w.db id user b m here one_board inside one_row ∙ e,
      _,
      ((detail-Answers_seen w.db id user b m here one_board inside one_row e).at w refl up).0,
    )
    | inr e ↦ inr (
      listed-can_see w.db id user b m here one_board inside one_row ∙ e,
      ((detail-Replies_unseen w.db id user b m here one_board inside one_row e).at w refl up).0,
    )
  ],
)
