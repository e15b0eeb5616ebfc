-- ===== src/Service/Invitations/Blocking.antt =====
-- SendInvitation in internal/services/invitations.go, while a pending invitation is stored.
use docflow_core.Prelude.{
  ℕ, ◌+◌, ◌≡◌, refl, ap, ◌&&◌, true, String, Option, none, some, List, exists_row, ltb,
}
use docflow_core.Model.Error.{driver}
use docflow_core.Model.Store.{Store, World, BoardEvent, Result, ok, err}
use docflow_core.Exec.{Exec, ◌>>=◌, found, optional}
use docflow_core.Model.{Role, Error, User, Invitation}
use docflow_core.Model.Error.{not_found, already_member, invitation_already_pending}
use docflow_core.Exec.{time_now}
use docflow_core.Exec.Reads.{
  Reads, Reads-query, Reads-weaken, Reads-missing_as, Reads-optional, Reads-bind, Reads-if,
  Reads-pure, Reads-raise, time_now-Reads, generate_token-Reads,
}
use docflow_core.Exec.Ensures.{Outcome, Ensures-execute_bind}
use docflow_core.Exec.Steps.{Yields, after_read, refuses}
use docflow_core.Repo.Invitations
use docflow_core.Repo.Invitations.{is_pending_for, insert_invitation}
use docflow_core.Repo.Invitations.Effects.{insert_invitation-blocked}
use docflow_core.Repo.Users
use docflow_core.Repo.Users.{find_user_by_email}
use docflow_core.Repo.Workspaces
use docflow_core.Repo.Workspaces.{find_workspace}
use docflow_core.Repo.Workspaces.Effects.{lookup-Reads}
use docflow_core.Service.Auth.Issue.{find_user-Reads}
use docflow_core.Service.Invitations.{
  Mail, SendInvitationResponse, send_invitation, store_and_send, refuse_member, invitation_ttl,
}
use docflow_core.Service.Workspaces.{is_there, admin_or_owner}
use docflow_core.Service.Workspaces.Refines.{require_role-Reads}

refuse_member-Reads :
    (workspace : ℕ) (o : Option User) → Reads (λ _ _. Unit {0}) (refuse_member workspace o)
unfolding refuse_member
refuse_member-Reads workspace none = Reads-pure _ tt (λ s. tt)
refuse_member-Reads workspace (some user) =
    Reads-bind _ _ _ _ (lookup-Reads workspace user.id) λ row.
      Reads-if _ (is_there row) _ _ (λ _. Reads-raise _ already_member)
        (λ _. Reads-pure _ tt (λ s _. tt))

find_workspace-Reads :
    (id : ℕ) → Reads (λ s ws. found (find_workspace id s) ≡ ok ws) (Workspaces.find_by_id id)
unfolding Workspaces.find_by_id
find_workspace-Reads id = Reads-query (λ s. found (find_workspace id s))

has_pending-Reads :
    (workspace : ℕ) (email : String)
    → Reads (λ _ _. Unit {0}) (Invitations.has_pending_for_email workspace email)
unfolding Invitations.has_pending_for_email
has_pending-Reads workspace email =
    Reads-weaken _ _ _ (λ _ _ _. tt)
      (Reads-query (λ s. ok (
        exists_row (λ i. is_pending_for workspace email i && ltb s.now i.expires_at)
          s.invitations)))

find_email-Reads : (email : String) → Reads (λ _ _. Unit {0}) (optional (Users.find_by_email email))
unfolding Users.find_by_email
find_email-Reads email =
    Reads-weaken _ _ _ (λ _ _ _. tt) (Reads-optional (λ s. found (find_user_by_email email s)))

module _ (c : Mail) (ws requester : ℕ) (requester_role : Role) (address : String) (role : Role)
    (s : Store) (es : List BoardEvent)
    (stored : exists_row (is_pending_for ws (c.normalize address)) s.invitations ≡ true) where
  abbrev Never : {A : Type 0} → A → Store → List BoardEvent → Type 0
  Never _ _ _ = ⊥

  insert-blocked :
      {B : Type 0} (hash expires_at : ℕ) (k : Invitation → Exec B)
      → Yields Never s es
          (Invitations.create ws (c.normalize address) hash requester role expires_at >>= k)
  unfolding Invitations.create
  insert-blocked hash expires_at k =
      let f = insert_invitation ws (c.normalize address) hash requester role expires_at in
      let none_made =
        insert_invitation-blocked ws (c.normalize address) hash requester role expires_at s
          stored in
      Ensures-execute_bind _ s es f k (refl, refl) (λ e h. (ap (λ x. x.1) none_made, refl))
        λ i h. absurd (not_made (f s).0 i (ap (λ x. x.0) none_made) h)
    where
      not_made : (r : Result Invitation) (i : Invitation) → r ≡ err driver → r ≡ ok i → ⊥
      not_made r i h k = cc

  store-blocked :
      (raw now : ℕ)
      → Yields Never s es (store_and_send c ws requester (c.normalize address) role raw now)
  unfolding store_and_send
  store-blocked raw now = insert-blocked (c.hash_token raw) (now + invitation_ttl) _

  send-Yields : Yields Never s es (send_invitation c ws requester requester_role address role)
  unfolding send_invitation
  send-Yields =
      after_read Never s es _ _ _ (require_role-Reads requester_role admin_or_owner) λ _ _.
        after_read Never s es _ _ _ (Reads-missing_as _ not_found _ (find_workspace-Reads ws))
          λ _ _. after_read Never s es _ _ _ (find_user-Reads requester) λ _ _.
            after_read Never s es _ _ _ (find_email-Reads (c.normalize address)) λ existing _.
              after_read Never s es _ _ _ (refuse_member-Reads ws existing) λ _ _.
                after_read Never s es _ _ _ (has_pending-Reads ws (c.normalize address)) λ live _.
                  refuses Never s es live invitation_already_pending _ λ _.
                    after_read Never s es _ _ _ generate_token-Reads λ raw _.
                      after_read Never s es _ time_now
                        (store_and_send c ws requester (c.normalize address) role raw)
                        time_now-Reads λ now _. store-blocked raw now

-- While a pending invitation of the workspace to the address is stored, be it long expired, no
-- SendInvitation to that address succeeds: it returns an error and leaves the tables as they were.
pub pending_blocks :
    (c : Mail) (ws requester : ℕ) (requester_role : Role) (address : String) (role : Role)
    (w : World)
    → exists_row (is_pending_for ws (c.normalize address)) w.db.invitations ≡ true
    → ((e : Error) × ((send_invitation c ws requester requester_role address role w).0 ≡ err e))
      × ((send_invitation c ws requester requester_role address role w).1.db ≡ w.db)
pending_blocks c ws requester requester_role address role w stored =
    failed (send_invitation c ws requester requester_role address role w).0
      (send_invitation c ws requester requester_role address role w).1
      ((send-Yields c ws requester requester_role address role w.db w.events stored).at w refl refl)
  where
    failed :
        (r : Result SendInvitationResponse) (v : World)
        → Outcome w.db w.events (λ _ _ _. ⊥) r v.db v.events
        → ((e : Error) × (r ≡ err e)) × (v.db ≡ w.db)
    failed (ok a) v h = absurd h
    failed (err e) v h = ((e, refl), h.0)
