-- ===== src/Service/Invitations.antt =====
-- internal/services/invitations.go: InvitationService. The mail client and SHA-256 are parameters,
-- as are the functions of the package strings.
pub mod Accepting
pub mod Blocking
use docflow_core.Prelude.{ℕ, ◌+◌, ◌==◌, Bool, String, Option, none, some, List, ltb, if◌then◌else◌}
use docflow_core.Model.Store.{World, ok}
use docflow_core.Exec.{Exec, ◌>>=◌, ◌>>◌, pure, raise, missing_as, optional}
use docflow_core.Model.{Role, Invitation, User, is_pending}
use docflow_core.Model.Error.{
  not_found, already_member, invitation_invalid, invitation_expired, invitation_already_pending,
  invitation_email_mismatch, email_delivery_failed,
}
use docflow_core.Exec.{ask, attempt, time_now, generate_token}
use docflow_core.Repo.Users
use docflow_core.Repo.Invitations
use docflow_core.Repo.Invitations.{InvitationDetailResponse, PendingInvitationResponse}
use docflow_core.Repo.Workspaces
use docflow_core.Service.Workspaces.{is_there, require_role, admin_or_owner}

-- `hash_token` is HashToken, `normalize` is ToLower of TrimSpace, `equal_fold` is EqualFold, and
-- `sends` says whether the mail client delivers to an address.
pub record Mail : Type 0 where
  pub hash_token : ℕ → ℕ
  pub normalize : String → String
  pub equal_fold : String → String → Bool
  pub sends : String → World → Bool

-- 7 days in seconds
abbrev pub invitation_ttl : ℕ
invitation_ttl = 604800

pub record SendInvitationResponse : Type 0 where
  pub id : ℕ
  pub invited_email : String
  pub role : Role
  pub expires_at : ℕ

-- Whether the user that has the address, if any, is a member already
unfoldable pub refuse_member : ℕ → Option User → Exec (Unit {0})
unfolding optional Workspaces.get_member
refuse_member workspace none = pure tt
refuse_member workspace (some user) = do
  row ← optional (Workspaces.get_member workspace user.id)
  if is_there row then raise already_member else pure tt

-- The part of AcceptInvitation that follows the tests
unfoldable pub join : Invitation → ℕ → Exec ℕ
unfolding optional attempt Workspaces.get_member Workspaces.add_member Invitations.accept
join i caller = do
  row ← optional (Workspaces.get_member i.workspace_id caller)
  if is_there row then (do attempt (Invitations.accept i.id); pure i.workspace_id) else (do
    Workspaces.add_member i.workspace_id caller i.role
    Invitations.accept i.id
    pure i.workspace_id)

module _ (c : Mail) where
  -- The part of SendInvitation that follows the making of the token
  unfoldable pub store_and_send : ℕ → ℕ → String → Role → ℕ → ℕ → Exec SendInvitationResponse
  unfolding ask Invitations.create
  store_and_send workspace requester email role raw now = do
    i ← Invitations.create workspace email (c.hash_token raw) requester role (now + invitation_ttl)
    sent ← ask (λ w. ok (c.sends email w))
    if sent
        then pure (record {
          id = i.id;
          invited_email = i.invited_email;
          role = i.role;
          expires_at = i.expires_at;
        })
        else raise email_delivery_failed

  unfoldable pub send_invitation : ℕ → ℕ → Role → String → Role → Exec SendInvitationResponse
  unfolding require_role missing_as optional generate_token time_now Workspaces.find_by_id
      Users.find_by_id Users.find_by_email refuse_member Invitations.has_pending_for_email
      store_and_send
  send_invitation workspace requester requester_role address role = do
    require_role requester_role admin_or_owner
    missing_as not_found (Workspaces.find_by_id workspace)
    Users.find_by_id requester
    let email = c.normalize address
    existing ← optional (Users.find_by_email email)
    refuse_member workspace existing
    has_pending ← Invitations.has_pending_for_email workspace email
    if has_pending then raise invitation_already_pending else (do
      raw ← generate_token
      now ← time_now
      store_and_send workspace requester email role raw now)

  unfoldable pub get_invitation_by_token : ℕ → Exec InvitationDetailResponse
  unfolding missing_as time_now Invitations.get_detail_by_token_hash Invitations.find_by_token_hash
  get_invitation_by_token raw = do
    detail ← missing_as invitation_invalid (Invitations.get_detail_by_token_hash (c.hash_token raw))
    i ← Invitations.find_by_token_hash (c.hash_token raw)
    if is_pending i.status
        then (do
          now ← time_now
          if ltb i.expires_at now then raise invitation_expired else pure detail)
        else raise invitation_invalid

  unfoldable pub accept_invitation : ℕ → ℕ → String → Exec ℕ
  unfolding missing_as time_now Invitations.find_by_token_hash join
  accept_invitation raw caller caller_email = do
    i ← missing_as invitation_invalid (Invitations.find_by_token_hash (c.hash_token raw))
    if is_pending i.status
        then (do
          now ← time_now
          if ltb i.expires_at now
              then raise invitation_expired
              else (if c.equal_fold caller_email i.invited_email
                  then join i caller
                  else raise invitation_email_mismatch))
        else raise invitation_invalid

unfoldable pub list_pending_invitations : ℕ → Role → Exec (List PendingInvitationResponse)
unfolding require_role Invitations.list_pending
list_pending_invitations workspace requester_role = do
  require_role requester_role admin_or_owner
  Invitations.list_pending workspace

unfoldable pub cancel_invitation : ℕ → ℕ → Role → Exec (Unit {0})
unfolding require_role missing_as Invitations.find_by_id Invitations.cancel
cancel_invitation workspace invitation requester_role = do
  require_role requester_role admin_or_owner
  i ← missing_as not_found (Invitations.find_by_id invitation)
  if i.workspace_id == workspace then Invitations.cancel invitation else raise not_found
