-- ===== src/Repo/Boards/Lists.antt =====
-- internal/repositories/boards.go: the statements that list boards, members and archived cards.
use docflow_core.Repo.Boards.{is_row}
use docflow_core.Repo.Columns.{find_column}
use docflow_core.Repo.Workspaces.{is_member_row}
use docflow_core.Repo.Cards.{find_document}
use docflow_core.Model.Views.{ArchivedCardResponse, BoardMember, BoardResponse}
use docflow_core.Model.{
  same_role, UserPublic, Membership, is_workspace_visible, Card, Column, User, Role, Board,
  WorkspaceMember,
}
use docflow_core.Prelude.{
  lexicographic, inner_join, sort_by, ℕ, ◌==◌, ◌&&◌, ◌||◌, not, Bool, Option, none, some, List, map,
  find_row, exists_row, select, count_rows, ltb,
}
use docflow_core.Model.Store.{Store, ok}
use docflow_core.Exec.{Exec, query}
use docflow_core.Position.{lt_pos}

abbrev pub is_manager_row : ℕ → ℕ → WorkspaceMember → Bool
is_manager_row workspace user m =
    is_member_row workspace user m && (same_role m.role Role.owner || same_role m.role Role.admin)

-- The WHERE clause of FindByWorkspace
abbrev pub is_visible : ℕ → ℕ → Store → Board → Bool
is_visible workspace user s b =
    b.workspace_id == workspace
    && (is_workspace_visible b.visibility
        || exists_row (is_row b.id user) s.board_members
        || exists_row (is_manager_row workspace user) s.workspace_members)

abbrev pub board_response : Store → Board → BoardResponse
board_response s b = record {
  id = b.id;
  workspace_id = b.workspace_id;
  title = b.title;
  visibility = b.visibility;
  member_count = count_rows (λ m. m.board_id == b.id) s.board_members;
  card_count = count_rows (λ c. c.board_id == b.id && not c.archived) s.cards;
  created_at = b.created_at;
  updated_at = b.updated_at;
}

abbrev pub visible_boards : ℕ → ℕ → Store → List BoardResponse
visible_boards workspace user s =
    map (board_response s) (
      sort_by (λ a b. ltb a.created_at b.created_at)
        (select (is_visible workspace user s) s.boards))

unfoldable pub find_by_workspace : ℕ → ℕ → Exec (List BoardResponse)
unfolding query
find_by_workspace workspace user = query λ s. ok (visible_boards workspace user s)

-- `CASE bm.role`; NULL comes last
abbrev pub rank : Role → ℕ
rank Role.owner = 1
rank Role.admin = 2
rank Role.editor = 3
rank _ = 4

abbrev pub member_before : BoardMember → BoardMember → Bool
member_before =
    lexicographic (λ a b. ltb (rank a.board_role) (rank b.board_role))
      (λ a b. ltb a.added_at b.added_at)

-- `JOIN users u ON u.id = bm.user_id`
abbrev pub member_of : List User → Membership → Option BoardMember
member_of users m = elim (find_row (λ u. u.id == m.user_id) users) [
  | none ↦ none
  | some u ↦ some (record {
    user_id = u.id;
    name = u.name;
    email = u.email;
    avatar_url = u.avatar_url;
    board_role = m.role;
    added_at = m.added_at;
  })
]

abbrev pub members_of : ℕ → Store → List BoardMember
members_of board s =
    sort_by member_before
      (inner_join (member_of s.users) (select (λ m. m.board_id == board) s.board_members))

unfoldable pub list_board_members : ℕ → Exec (List BoardMember)
unfolding query
list_board_members board = query λ s. ok (members_of board s)

-- `LEFT JOIN users u ON u.id = c.assignee_id`, of which no created_at is read. A foreign key sees to
-- it that an assignee is a user.
abbrev pub shown_assignee : Option ℕ → List User → Option UserPublic
shown_assignee none users = none
shown_assignee (some id) users = elim (find_row (λ u. u.id == id) users) [
  | none ↦ none
  | some u ↦ some (record {
    id = id;
    email = u.email;
    name = u.name;
    avatar_url = u.avatar_url;
    created_at = 0;
  })
]

-- `LEFT JOIN documents d ON d.card_id = c.id`; 0 stands for "".
abbrev pub shown_document : ℕ → Store → ℕ
shown_document card s = elim (find_document card s) [ none ↦ 0 | some d ↦ d.id ]

abbrev pub archived_response : Store → Column × Card → ArchivedCardResponse
archived_response s (k, c) = record {
  id = c.id;
  board_id = c.board_id;
  column_id = c.column_id;
  column_title = k.title;
  title = c.title;
  position = c.position;
  color = c.color;
  assignee = shown_assignee c.assignee_id s.users;
  document_id = shown_document c.id s;
  archived_at = c.updated_at;
  created_at = c.created_at;
}

-- `ORDER BY col.position ASC, c.updated_at DESC`
abbrev pub archived_before : Column × Card → Column × Card → Bool
archived_before =
    lexicographic (λ a b. lt_pos a.0.position b.0.position)
      (λ a b. ltb b.1.updated_at a.1.updated_at)

abbrev pub with_column_of : Store → Card → Option (Column × Card)
with_column_of s c = elim (find_column c.column_id s) [ none ↦ none | some k ↦ some (k, c) ]

abbrev pub archived_of : ℕ → Store → List ArchivedCardResponse
archived_of board s = map (archived_response s) (
    sort_by archived_before
      (inner_join (with_column_of s) (select (λ c. c.board_id == board && c.archived) s.cards)))

unfoldable pub find_archived_cards : ℕ → Exec (List ArchivedCardResponse)
unfolding query
find_archived_cards board = query λ s. ok (archived_of board s)
