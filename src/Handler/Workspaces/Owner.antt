-- ===== src/Handler/Workspaces/Owner.antt =====
-- internal/handlers/workspaces.go: a request to a workspace, from the middleware on, and its owner.
use docflow_core.Prelude.{ℕ, ◌≡◌, ◌≢◌, refl, Bool, true, false, String, some, arith}
use docflow_core.Model.Store.{Store, World}
use docflow_core.Model.{Role, Error, WorkspaceMember}
use docflow_core.Model.Error.{not_workspace_member, validation_error}
use docflow_core.Exec.{require}
use docflow_core.Exec.Reads.{Reads, Reads-missing_as, Reads-bind, Reads-pure, Reads-raise}
use docflow_core.Exec.Ensures.{Post, Ensures, Ensures-Reads, Ensures-weaken}
use docflow_core.Repo.Boards.Lookups.{get_member-Reads}
use docflow_core.Repo.Workspaces.{find_member}
use docflow_core.Middleware.Workspace.{member_role}
use docflow_core.Handler.Workspaces.{binds, handle}
use docflow_core.Service.Workspaces.Rules.{Request, Caller, perform}
use docflow_core.Service.Workspaces.Refines.{perform-Yields}
use docflow_core.Service.Workspaces.Owner.{IsOwnedBy, IsBound, outcome}

abbrev HasMemberRole : ℕ → ℕ → Store → Role → Type 0
HasMemberRole ws user s role =
    (m : WorkspaceMember) × (find_member ws user s ≡ some m) × (m.role ≡ role)

member_role-Reads : (ws user : ℕ) → Reads (HasMemberRole ws user) (member_role ws user)
unfolding member_role
member_role-Reads ws user =
    Reads-bind _ (HasMemberRole ws user) _ _
      (Reads-missing_as _ not_workspace_member _ (get_member-Reads ws user))
      λ m. Reads-pure _ m.role (λ s here. (m, here, refl))

require-Reads : (b : Bool) (e : Error) → Reads (λ _ _. b ≡ true) (require b e)
require-Reads true e = Reads-pure _ tt (λ _. refl)
require-Reads false e = Reads-raise _ e

binds-IsBound : (is_email : String → Bool) (r : Request) → binds is_email r ≡ true → IsBound r
unfolding binds
binds-IsBound is_email (Request.rename name) h = tt
binds-IsBound is_email Request.delete h = tt
binds-IsBound is_email (Request.invite email) h = tt
binds-IsBound is_email (Request.remove target) h = tt
binds-IsBound is_email (Request.set_role target role) h = λ e. ground arith

-- A request to a workspace, from the middleware on: whoever sends it and whichever calls of the
-- driver fail, the workspace has the same one owner afterwards, unless it is the request to delete
-- the workspace.
pub handle_keeps_owner :
    (is_email : String → Bool) (ws owner user : ℕ) (r : Request) (w : World)
    → IsOwnedBy ws owner w.db
    → r ≢ Request.delete
    → IsOwnedBy ws owner (handle is_email ws user r w).1.db
unfolding handle
handle_keeps_owner is_email ws owner user r w owned stays = kept.at w refl refl
  where
    Owned : Post (Unit {0})
    Owned o t es = IsOwnedBy ws owner t

    kept : Ensures Owned w.db w.events (handle is_email ws user r)
    kept =
        Ensures-Reads Owned w.db w.events _ _ _ (member_role-Reads ws user) (λ e. owned)
          λ role honest.
            Ensures-Reads Owned w.db w.events _ _ _
              (require-Reads (binds is_email r) validation_error) (λ e. owned)
              λ _ bound.
                let c : Caller = record { user = user; role = role } in
                Ensures-weaken Owned w.db w.events _ (perform ws c r)
                  (λ o t es h.
                    outcome ws owner w.db owned c r w.events es o t honest
                      (binds-IsBound is_email r bound) stays h)
                  (perform-Yields ws c w.db w.events r)
