-- ===== src/Repo/Invitations.antt =====
-- internal/repositories/invitations.go.
pub mod Effects
use docflow_core.Repo.Users.{find_user, has_user_id}
use docflow_core.Repo.Workspaces.{find_workspace}
use docflow_core.Model.{Workspace, InvitationStatus, is_pending, User, Role, Invitation}
use docflow_core.Prelude.{
  ℕ, suc, ◌==◌, ◌&&◌, ◌||◌, Bool, String, Option, none, some, List, [], ◌∷◌, find_row, exists_row,
  select, update_rows, insert_row, ltb, same_text, if◌then◌else◌,
}
use docflow_core.Model.Error.{driver}
use docflow_core.Model.Store.{Store, Result, ok, err}
use docflow_core.Exec.{Exec, query, execute, found}
use docflow_core.Repo.Statement.{affected}
use docflow_core.Position.{of_ℕ}
use docflow_core.Position.Rows.{order_by}
use mathlib.Core.List.{reverse}
use mathlib.Core.Option.{Option}

abbrev pub has_invitation_id : ℕ → Invitation → Bool
has_invitation_id id i = i.id == id

abbrev pub has_token : ℕ → Invitation → Bool
has_token hash i = i.token_hash == hash

abbrev pub find_invitation : ℕ → Store → Option Invitation
find_invitation id s = find_row (has_invitation_id id) s.invitations

abbrev pub find_by_hash : ℕ → Store → Option Invitation
find_by_hash hash s = find_row (has_token hash) s.invitations

-- The key of the partial unique index, on the rows that are pending
abbrev pub is_pending_for : ℕ → String → Invitation → Bool
is_pending_for workspace email i =
    i.workspace_id == workspace && (same_text i.invited_email email && is_pending i.status)

abbrev pub invitation_row : ℕ → String → ℕ → ℕ → Role → ℕ → Store → Invitation
invitation_row workspace email hash inviter role expires_at s = record {
  id = s.next_id;
  workspace_id = workspace;
  invited_email = email;
  token_hash = hash;
  invited_by = inviter;
  role = role;
  status = InvitationStatus.pending;
  expires_at = expires_at;
  accepted_at = none;
  created_at = s.now;
}

abbrev pub with_invitation : Invitation → Store → Store
with_invitation i s = record s { invitations = insert_row i s.invitations; next_id = suc s.next_id }

-- `INSERT INTO workspace_invitations`, with the two unique indexes
unfoldable pub insert_invitation : ℕ → String → ℕ → ℕ → Role → ℕ → Store → Result Invitation × Store
insert_invitation workspace email hash inviter role expires_at s =
    if exists_row (has_token hash) s.invitations
      || exists_row (is_pending_for workspace email) s.invitations
    then (err driver, s)
    else (let i = invitation_row workspace email hash inviter role expires_at s in
        (ok i, with_invitation i s))

unfoldable pub create : ℕ → String → ℕ → ℕ → Role → ℕ → Exec Invitation
unfolding execute insert_invitation
create workspace email hash inviter role expires_at =
    execute (insert_invitation workspace email hash inviter role expires_at)

unfoldable pub find_by_token_hash : ℕ → Exec Invitation
unfolding query
find_by_token_hash hash = query λ s. found (find_by_hash hash s)

unfoldable pub find_by_id : ℕ → Exec Invitation
unfolding query
find_by_id id = query λ s. found (find_invitation id s)

pub record PendingInvitationResponse : Type 0 where
  pub id : ℕ
  pub invited_email : String
  pub inviter_name : String
  pub role : Role
  pub expires_at : ℕ
  pub created_at : ℕ

-- The join of invitations with their inviters, who are there by the foreign key
abbrev pub pending_responses : List User → List Invitation → List PendingInvitationResponse
pending_responses users [] = []
pending_responses users (i ∷ is) =
    let rest = pending_responses users is in
    elim (find_row (has_user_id i.invited_by) users) [
      | none ↦ rest
      | some u ↦
          record {
            id = i.id;
            invited_email = i.invited_email;
            inviter_name = u.name;
            role = i.role;
            expires_at = i.expires_at;
            created_at = i.created_at;
          }
          ∷ rest
    ]

abbrev pub is_live : ℕ → Invitation → Bool
is_live now i = is_pending i.status && ltb now i.expires_at

abbrev pub live_of : ℕ → Store → List Invitation
live_of workspace s = select (λ i. i.workspace_id == workspace && is_live s.now i) s.invitations

-- `ORDER BY created_at DESC`
unfoldable pub list_pending : ℕ → Exec (List PendingInvitationResponse)
unfolding query
list_pending workspace = query λ s.
    ok (
      pending_responses s.users (reverse (order_by (λ i. of_ℕ i.created_at) (live_of workspace s))))

pub record InvitationDetailResponse : Type 0 where
  pub id : ℕ
  pub workspace_id : ℕ
  pub workspace_name : String
  pub invited_email : String
  pub inviter_name : String
  pub role : Role
  pub expires_at : ℕ

abbrev pub detail_of : Invitation → Workspace → User → InvitationDetailResponse
detail_of i ws u = record {
  id = i.id;
  workspace_id = i.workspace_id;
  workspace_name = ws.name;
  invited_email = i.invited_email;
  inviter_name = u.name;
  role = i.role;
  expires_at = i.expires_at;
}

-- The join of an invitation with its workspace and its inviter
abbrev pub find_detail : ℕ → Store → Option InvitationDetailResponse
find_detail hash s = elim (find_by_hash hash s) [
  | none ↦ none
  | some i ↦ elim (find_workspace i.workspace_id s) [
    | none ↦ none
    | some ws ↦ elim (find_user i.invited_by s) [ none ↦ none | some u ↦ some (detail_of i ws u) ]
  ]
]

unfoldable pub get_detail_by_token_hash : ℕ → Exec InvitationDetailResponse
unfolding query
get_detail_by_token_hash hash = query λ s. found (find_detail hash s)

-- `WHERE id = $1 AND status = 'pending'`
abbrev pub is_open : ℕ → Invitation → Bool
is_open id i = i.id == id && is_pending i.status

abbrev pub accept_row : ℕ → Invitation → Invitation
accept_row now i = record i { status = InvitationStatus.accepted; accepted_at = some now }

abbrev pub with_accepted : ℕ → Store → Store
with_accepted id s = record s {
  invitations = update_rows (is_open id) (accept_row s.now) s.invitations;
}

unfoldable pub accept : ℕ → Exec (Unit {0})
unfolding execute
accept id = execute λ s. affected (exists_row (is_open id) s.invitations) s (with_accepted id s)

abbrev pub cancel_row : Invitation → Invitation
cancel_row i = record i { status = InvitationStatus.cancelled }

abbrev pub with_cancelled : ℕ → Store → Store
with_cancelled id s = record s { invitations = update_rows (is_open id) cancel_row s.invitations }

unfoldable pub cancel : ℕ → Exec (Unit {0})
unfolding execute
cancel id = execute λ s. affected (exists_row (is_open id) s.invitations) s (with_cancelled id s)

unfoldable pub has_pending_for_email : ℕ → String → Exec Bool
unfolding query
has_pending_for_email workspace email = query λ s.
    ok (exists_row (λ i. is_pending_for workspace email i && ltb s.now i.expires_at) s.invitations)
