-- ===== src/Model/Store.antt =====
-- The database, the events for board rooms, and the world in which a request runs.
use docflow_core.Prelude.{ℕ, String, Bool, Option, List}
use docflow_core.Position.{Position}
use docflow_core.Model.{
  Error, User, Workspace, RefreshToken, Invitation, WorkspaceMember, Board, Membership, Column,
  Card, Document, DocumentUpdate, CardResponse, ColumnResponse,
}

-- `now` is the value of NOW(); `next_id` is the next value of uuid_generate_v4(), which no row has.
pub record Store : Type 0 where
  pub users : List User
  pub workspaces : List Workspace
  pub workspace_members : List WorkspaceMember
  pub boards : List Board
  pub board_members : List Membership
  pub columns : List Column
  pub cards : List Card
  pub documents : List Document
  pub document_updates : List DocumentUpdate
  pub refresh_tokens : List RefreshToken
  pub invitations : List Invitation
  pub now : ℕ
  pub next_id : ℕ

-- The payloads that the services hand to `BroadcastToBoard`.
pub data Payload : Type 0 where
  card_created card_unarchived : CardResponse → Payload
  card_updated : ℕ → Option String → Option String → Option ℕ → Payload
  card_moved : ℕ → ℕ → Position → Payload
  card_archived card_deleted column_deleted : ℕ → Payload
  column_created : ColumnResponse → Payload
  column_renamed : ℕ → String → Payload
  column_reordered : ℕ → Position → Payload

pub record BoardEvent : Type 0 where
  pub board_id : ℕ
  pub payload : Payload

-- `outage n` says whether the n-th call of the driver fails, for whatever reason: a lost
-- connection, a violated constraint. `random n` is what crypto/rand yields for it.
pub record World : Type 0 where
  pub db : Store
  pub tick : ℕ
  pub outage : ℕ → Bool
  pub random : ℕ → ℕ
  pub events : List BoardEvent

pub data Result (A : Type 0) : Type 0 where
  ok : A → Result A
  err : Error → Result A
