-- ===== src/Model.antt =====
-- The rows of the tables in migrations/*.up.sql as internal/models declares them, the errors of
-- internal/services/errors.go and internal/repositories/errors.go, and the database as a record of
-- tables. Identifiers and share tokens are only compared, so they are natural numbers; times are
-- numbers of seconds.
pub mod Store
pub mod Views
use docflow_core.Prelude.{ℕ, String, Bool, true, false, Option, List}
use docflow_core.Position.{Position}

-- The role strings of workspace_members and board_members; `blank` is "".
pub data Role : Type 0 where
  blank owner admin editor member : Role

-- `==` on role strings
abbrev pub same_role : Role → Role → Bool
same_role Role.blank Role.blank = true
same_role Role.owner Role.owner = true
same_role Role.admin Role.admin = true
same_role Role.editor Role.editor = true
same_role Role.member Role.member = true
same_role _ _ = false

pub data Visibility : Type 0 where
  workspace private : Visibility

abbrev pub is_workspace_visible : Visibility → Bool
is_workspace_visible Visibility.workspace = true
is_workspace_visible Visibility.private = false

-- `driver` is any error of the database driver, `record_not_found` is repositories.ErrNotFound.
pub data Error : Type 0 where
  driver record_not_found : Error
  not_found user_not_found : Error
  already_member cannot_remove_owner cannot_change_self_role insufficient_permissions : Error
  board_access_denied already_board_member cannot_remove_board_owner : Error
  target_not_board_member : Error
  email_already_exists invalid_credentials invalid_refresh_token refresh_token_expired : Error
  token_theft_detected weak_password : Error
  invitation_invalid invitation_expired invitation_already_pending : Error
  invitation_email_mismatch email_delivery_failed : Error
  -- what the middleware and the binding of requests answer with
  board_not_found not_workspace_member validation_error : Error

pub record User : Type 0 where
  pub id : ℕ
  pub email : String
  pub password_hash : String
  pub name : String
  pub avatar_url : Option String
  pub created_at : ℕ
  pub updated_at : ℕ

-- `UserPublic`: a user as others see them.
pub record UserPublic : Type 0 where
  pub id : ℕ
  pub email : String
  pub name : String
  pub avatar_url : Option String
  pub created_at : ℕ

pub record Workspace : Type 0 where
  pub id : ℕ
  pub name : String
  pub owner_id : ℕ
  pub created_at : ℕ
  pub updated_at : ℕ

pub record RefreshToken : Type 0 where
  pub id : ℕ
  pub user_id : ℕ
  pub token_hash : ℕ
  pub expires_at : ℕ
  pub revoked : Bool
  pub created_at : ℕ

pub data InvitationStatus : Type 0 where
  pending accepted cancelled : InvitationStatus

abbrev pub is_pending : InvitationStatus → Bool
is_pending InvitationStatus.pending = true
is_pending _ = false

-- `WorkspaceInvitation`
pub record Invitation : Type 0 where
  pub id : ℕ
  pub workspace_id : ℕ
  pub invited_email : String
  pub token_hash : ℕ
  pub invited_by : ℕ
  pub role : Role
  pub status : InvitationStatus
  pub expires_at : ℕ
  pub accepted_at : Option ℕ
  pub created_at : ℕ

pub record WorkspaceMember : Type 0 where
  pub workspace_id : ℕ
  pub user_id : ℕ
  pub role : Role
  pub joined_at : ℕ

pub record Board : Type 0 where
  pub id : ℕ
  pub workspace_id : ℕ
  pub title : String
  pub visibility : Visibility
  pub share_token : Option ℕ
  pub created_by : ℕ
  pub created_at : ℕ
  pub updated_at : ℕ

-- A row of board_members.
pub record Membership : Type 0 where
  pub board_id : ℕ
  pub user_id : ℕ
  pub role : Role
  pub added_at : ℕ

pub record Column : Type 0 where
  pub id : ℕ
  pub board_id : ℕ
  pub title : String
  pub position : Position
  pub created_at : ℕ
  pub updated_at : ℕ

pub record Card : Type 0 where
  pub id : ℕ
  pub board_id : ℕ
  pub column_id : ℕ
  pub title : String
  pub position : Position
  pub color : Option String
  pub assignee_id : Option ℕ
  pub archived : Bool
  pub created_by : ℕ
  pub created_at : ℕ
  pub updated_at : ℕ

pub record Document : Type 0 where
  pub id : ℕ
  pub card_id : ℕ
  pub snapshot : Option (List ℕ)
  pub snapshot_clock : ℕ
  pub updated_at : ℕ

pub record DocumentUpdate : Type 0 where
  pub document_id : ℕ
  pub update_data : List ℕ
  pub clock : ℕ
  pub created_at : ℕ

-- `CardResponse`: a card as a client sees it.
pub record CardResponse : Type 0 where
  pub id : ℕ
  pub board_id : ℕ
  pub column_id : ℕ
  pub title : String
  pub position : Position
  pub color : Option String
  pub assignee : Option UserPublic
  pub document_id : ℕ
  pub archived : Bool
  pub created_at : ℕ

pub record ColumnResponse : Type 0 where
  pub id : ℕ
  pub board_id : ℕ
  pub title : String
  pub position : Position
  pub created_at : ℕ
