-- ===== src/Model/Views.antt =====
-- The answers of internal/models/board.go and column.go: what a client is shown of a board.
use docflow_core.Prelude.{ℕ, String, Bool, Option, List}
use docflow_core.Position.{Position}
use docflow_core.Model.{Role, Visibility, UserPublic, CardResponse}

-- `BoardResponse`
pub record BoardResponse : Type 0 where
  pub id : ℕ
  pub workspace_id : ℕ
  pub title : String
  pub visibility : Visibility
  pub member_count : ℕ
  pub card_count : ℕ
  pub created_at : ℕ
  pub updated_at : ℕ

-- `BoardMember`
pub record BoardMember : Type 0 where
  pub user_id : ℕ
  pub name : String
  pub email : String
  pub avatar_url : Option String
  pub board_role : Role
  pub added_at : ℕ

-- `ColumnWithCards`
pub record ColumnWithCards : Type 0 where
  pub id : ℕ
  pub board_id : ℕ
  pub title : String
  pub position : Position
  pub cards : List CardResponse
  pub created_at : ℕ

-- `BoardDetailResponse`
pub record BoardDetailResponse : Type 0 where
  pub id : ℕ
  pub workspace_id : ℕ
  pub title : String
  pub visibility : Visibility
  pub is_public_view : Bool
  pub my_board_role : Role
  pub columns : List ColumnWithCards
  pub members : List BoardMember
  pub created_at : ℕ

-- `ArchivedCardResponse`
pub record ArchivedCardResponse : Type 0 where
  pub id : ℕ
  pub board_id : ℕ
  pub column_id : ℕ
  pub column_title : String
  pub title : String
  pub position : Position
  pub color : Option String
  pub assignee : Option UserPublic
  pub document_id : ℕ
  pub archived_at : ℕ
  pub created_at : ℕ
