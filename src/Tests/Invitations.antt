-- ===== src/Tests/Invitations.antt =====
-- An invitation to the workspace of Tests/Accounts, accepted by the one it is for, and an expired one.
use docflow_core.Prelude.{ℕ, ◌≡◌, refl, true, none, [], ◌∷◌, same_text}
use docflow_core.Model.Store.{World, err}
use docflow_core.Model.{Role, Error, Invitation, InvitationStatus}
use docflow_core.Model.Error.{invitation_invalid}
use docflow_core.Service.Invitations.{Mail, accept_invitation, send_invitation}
use docflow_core.Service.Invitations.Accepting.{IsInvited, Admitted, accept_admits, accept_once}
use docflow_core.Service.Invitations.Blocking.{pending_blocks}
use docflow_core.Tests.Accounts.{team}

abbrev mail : Mail
mail = record {
  hash_token = λ raw. raw;
  normalize = λ address. address;
  equal_fold = λ a b. same_text a b;
  sends = λ address w. true;
}

abbrev invitation : ℕ → ℕ → Invitation
invitation token expires_at = record {
  id = 80;
  workspace_id = 7;
  invited_email = "bob@docflow";
  token_hash = token;
  invited_by = 10;
  role = Role.member;
  status = InvitationStatus.pending;
  expires_at = expires_at;
  accepted_at = none;
  created_at = 0;
}

abbrev inviting : ℕ → World
inviting expires_at = record team {
  db = record team.db { invitations = invitation 600 expires_at ∷ [] };
}

abbrev joined : World
joined = (accept_invitation mail 600 13 "bob@docflow" (inviting 1000)).1

accept_admits_example :
    (i : Invitation) × IsInvited mail 600 "bob@docflow" (inviting 1000).db i
    × (7 ≡ i.workspace_id)
    × Admitted mail 600 13 i (inviting 1000).db joined.db
    × (joined.events ≡ (inviting 1000).events)
unfolding accept_invitation
accept_admits_example = accept_admits mail 600 13 "bob@docflow" (inviting 1000) joined 7 refl

accept_once_example :
    ((accept_invitation mail 600 12 "bob@docflow" joined).0 ≡ err invitation_invalid)
    × ((accept_invitation mail 600 12 "bob@docflow" joined).1.db ≡ joined.db)
unfolding accept_invitation
accept_once_example =
    accept_once mail 600 13 12 "bob@docflow" "bob@docflow" (invitation 600 1000) (inviting 1000)
      joined 7 refl refl refl (λ n. refl)

-- The invitation has expired at 1, and it is 5.
pending_blocks_example :
    ((e : Error) × ((send_invitation mail 7 10 Role.owner "bob@docflow" Role.member (inviting 1)).0
        ≡ err e))
    × ((send_invitation mail 7 10 Role.owner "bob@docflow" Role.member (inviting 1)).1.db
        ≡ (inviting 1).db)
pending_blocks_example =
    pending_blocks mail 7 10 Role.owner "bob@docflow" Role.member (inviting 1) refl
