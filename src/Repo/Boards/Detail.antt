-- ===== src/Repo/Boards/Detail.antt =====
-- internal/repositories/boards.go: GetBoardDetail, which groups the rows of one join by column.
pub mod Grouping
pub mod Columns
use docflow_core.Repo.Boards.Lists.{members_of, shown_document, list_board_members, shown_assignee}
use docflow_core.Repo.Boards
use docflow_core.Model.Views.{BoardDetailResponse, BoardMember, ColumnWithCards}
use docflow_core.Model.{Role, Board, CardResponse, Card, Column}
use docflow_core.Prelude.{
  lexicographic, join_rows, sort_by, ℕ, ◌==◌, Bool, true, false, Option, none, some, List, [], ◌∷◌,
  map, exists_row, select, update_rows, insert_row, if◌then◌else◌,
}
use docflow_core.Model.Store.{Store, ok}
use docflow_core.Exec.{Exec, ◌>>=◌, pure, query}
use docflow_core.Repo.Cards.{is_live}
use docflow_core.Position.{lt_pos}

-- A row of the join; a column without cards that are not archived has one row without a card.
pub record JoinedRow : Type 0 where
  pub column : Column
  pub card : Option Card

abbrev pub rows_of : Column → List Card → List JoinedRow
rows_of k [] = record { column = k; card = none } ∷ []
rows_of k (c ∷ cs) = map (λ d. record { column = k; card = some d }) (c ∷ cs)

-- `LEFT JOIN cards c ON c.column_id = col.id AND c.archived = FALSE`
abbrev pub joined : Store → Column → List JoinedRow
joined s k = rows_of k (select (is_live k.id) s.cards)

-- Within a column, cards by position; a row without a card comes last.
abbrev pub card_before : Option Card → Option Card → Bool
card_before none d = false
card_before (some c) none = true
card_before (some c) (some d) = lt_pos c.position d.position

-- `ORDER BY col.position ASC, c.position ASC`
abbrev pub column_before : JoinedRow → JoinedRow → Bool
column_before a b = lt_pos a.column.position b.column.position

abbrev pub row_before : JoinedRow → JoinedRow → Bool
row_before = lexicographic column_before (λ a b. card_before a.card b.card)

abbrev pub is_column_of : ℕ → Column → Bool
is_column_of board k = k.board_id == board

abbrev pub detail_rows : ℕ → Store → List JoinedRow
detail_rows board s =
    sort_by row_before (join_rows (joined s) (select (is_column_of board) s.columns))

abbrev pub shown_column : ℕ → Column → List CardResponse → ColumnWithCards
shown_column board k cards = record {
  id = k.id;
  board_id = board;
  title = k.title;
  position = k.position;
  cards = cards;
  created_at = k.created_at;
}

abbrev pub shown_card : ℕ → Store → ℕ → Card → CardResponse
shown_card board s column c = record {
  id = c.id;
  board_id = board;
  column_id = column;
  title = c.title;
  position = c.position;
  color = c.color;
  assignee = shown_assignee c.assignee_id s.users;
  document_id = shown_document c.id s;
  archived = c.archived;
  created_at = c.created_at;
}

abbrev pub has_group_id : ℕ → ColumnWithCards → Bool
has_group_id id g = g.id == id

abbrev pub append_card : CardResponse → ColumnWithCards → ColumnWithCards
append_card c g = record g { cards = insert_row c g.cards }

-- The body of the loop. The list is columnMap in the order that columnOrder keeps.
abbrev pub add_row : ℕ → Store → JoinedRow → List ColumnWithCards → List ColumnWithCards
add_row board s r groups =
    let known =
      (if exists_row (has_group_id r.column.id) groups
        then groups
        else insert_row (shown_column board r.column []) groups) in
    elim r.card [
      | none ↦ known
      | some c ↦
          update_rows (has_group_id r.column.id) (append_card (shown_card board s r.column.id c))
            known
    ]

abbrev pub group_rows : ℕ → Store → List JoinedRow → List ColumnWithCards → List ColumnWithCards
group_rows board s [] groups = groups
group_rows board s (r ∷ rs) groups = group_rows board s rs (add_row board s r groups)

abbrev pub detail_of : Board → List BoardMember → List ColumnWithCards → BoardDetailResponse
detail_of b members columns = record {
  id = b.id;
  workspace_id = b.workspace_id;
  title = b.title;
  visibility = b.visibility;
  is_public_view = false;
  my_board_role = Role.blank;
  columns = columns;
  members = members;
  created_at = b.created_at;
}

unfoldable pub get_board_detail : ℕ → Exec BoardDetailResponse
unfolding query Boards.find_by_id list_board_members
get_board_detail board = do
  b ← Boards.find_by_id board
  members ← list_board_members board
  columns ← query (λ s. ok (group_rows board s (detail_rows board s) []))
  pure (detail_of b members columns)

-- The answer as a function of the tables
abbrev pub stored_detail : ℕ → Board → Store → BoardDetailResponse
stored_detail board b s =
    detail_of b (members_of board s) (group_rows board s (detail_rows board s) [])
