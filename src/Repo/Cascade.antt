-- ===== src/Repo/Cascade.antt =====
-- The ON DELETE CASCADE clauses of migrations/*.up.sql: what goes with the columns, the cards, the
-- board or the workspace that a DELETE removes.
use docflow_core.Prelude.{ℕ, Bool, ◌==◌, ◌&&◌, delete_rows, exists_row}
use docflow_core.Model.{Column, Card, Document, DocumentUpdate}
use docflow_core.Model.Store.{Store}

abbrev pub document_goes : (Card → Bool) → Store → Document → Bool
document_goes p s d = exists_row (λ c. p c && c.id == d.card_id) s.cards

abbrev pub update_goes : (Card → Bool) → Store → DocumentUpdate → Bool
update_goes p s u = exists_row (λ d. document_goes p s d && d.id == u.document_id) s.documents

unfoldable pub delete_cards : (Card → Bool) → Store → Store
delete_cards p s = record s {
  cards = delete_rows p s.cards;
  documents = delete_rows (document_goes p s) s.documents;
  document_updates = delete_rows (update_goes p s) s.document_updates;
}

unfoldable pub delete_columns : (Column → Bool) → Store → Store
unfolding delete_cards
delete_columns p s =
    delete_cards (λ c. exists_row (λ k. p k && k.id == c.column_id) s.columns)
      (record s { columns = delete_rows p s.columns })

unfoldable pub delete_board : ℕ → Store → Store
unfolding delete_cards delete_columns
delete_board id s =
    let t = delete_cards (λ c. c.board_id == id) (delete_columns (λ k. k.board_id == id) s) in
    record t {
      boards = delete_rows (λ b. b.id == id) t.boards;
      board_members = delete_rows (λ m. m.board_id == id) t.board_members;
    }

-- The boards of a workspace go, with all that is on them, and so do its members and invitations.
unfoldable pub delete_workspace : ℕ → Store → Store
unfolding delete_cards delete_columns
delete_workspace id s =
    let gone = λ (board : ℕ). exists_row (λ b. b.workspace_id == id && b.id == board) s.boards in
    let t = delete_cards (λ c. gone c.board_id) (delete_columns (λ k. gone k.board_id) s) in
    record t {
      workspaces = delete_rows (λ w. w.id == id) t.workspaces;
      workspace_members = delete_rows (λ m. m.workspace_id == id) t.workspace_members;
      invitations = delete_rows (λ i. i.workspace_id == id) t.invitations;
      boards = delete_rows (λ b. b.workspace_id == id) t.boards;
      board_members = delete_rows (λ m. gone m.board_id) t.board_members;
    }
