-- ===== src/Service/Workspaces/Refines.antt =====
-- internal/services/workspaces.go: each method of WorkspaceService against its rules.
use docflow_core.Prelude.{ℕ, ◌≡◌, refl, ◌==◌, ◌&&◌, true, false, String, some, List, arith}
use docflow_core.Model.Store.{Store, World, BoardEvent}
use docflow_core.Exec.{Exec, found}
use docflow_core.Model.{Role, same_role}
use docflow_core.Model.Error.{
  not_found, already_member, cannot_remove_owner, insufficient_permissions, cannot_change_self_role,
}
use docflow_core.Exec.Reads.{
  Reads, Reads-query, Reads-weaken, Reads-missing_as, Reads-if, Reads-pure, Reads-raise,
}
use docflow_core.Exec.Ensures.{Outcome, Outcome-missing_as, Outcome-map}
use docflow_core.Exec.Steps.{Yields, after_read, refuses, writes}
use docflow_core.Repo.Boards.Lookups.{found_ok, get_member-Reads}
use docflow_core.Repo.Cascade
use docflow_core.Repo.Users
use docflow_core.Repo.Users.{find_user_by_email}
use docflow_core.Repo.Workspaces.{with_member, with_name, with_role, without_member}
use docflow_core.Repo.Workspaces.Effects.{
  lookup-Reads, update-Wrote, delete-Wrote, add_member-Wrote, update_member_role-Wrote,
  remove_member-Wrote,
}
use docflow_core.Service.Access.{contains_role}
use docflow_core.Service.Boards.Rights.{IsBoardManager}
use docflow_core.Service.Workspaces
use docflow_core.Service.Workspaces.{require_role, admin_or_owner, owner_alone, is_there}
use docflow_core.Service.Workspaces.Rules.{Request, Caller, perform, Granted}

admin_or_owner-true : (r : Role) → contains_role r admin_or_owner ≡ true → IsBoardManager r
admin_or_owner-true r h = ground arith

owner_alone-true : (r : Role) → contains_role r owner_alone ≡ true → r ≡ Role.owner
owner_alone-true r h = ground arith

pub require_role-Reads :
    (actual : Role) (permitted : List Role)
    → Reads (λ _ _. contains_role actual permitted ≡ true) (require_role actual permitted)
unfolding require_role
require_role-Reads actual permitted =
    Reads-if _ (contains_role actual permitted) _ _ (λ e. Reads-pure _ tt (λ _. e))
      (λ _. Reads-raise _ insufficient_permissions)

pub find_email-Reads :
    (email : String)
    → Reads (λ s u. find_user_by_email email s ≡ some u) (Users.find_by_email email)
unfolding Users.find_by_email
find_email-Reads email =
    Reads-weaken _ _ _ (λ s u e. found_ok (find_user_by_email email s) u e)
      (Reads-query (λ s. found (find_user_by_email email s)))

low_admin :
    (role target : Role)
    → IsBoardManager role
    → (same_role role Role.admin && same_role target Role.admin) ≡ false
    → target ≡ Role.admin
    → role ≡ Role.owner
low_admin role target high low same = ground arith

module _ (ws : ℕ) (c : Caller) (s : Store) (es : List BoardEvent) where
  abbrev pub Served : Request → {A : Type 0} → Exec A → Type 0
  Served r = Yields (λ _. Granted ws c r s es) s es

  rename-Yields :
      (name : String) → Served (Request.rename name) (perform ws c (Request.rename name))
  unfolding perform Workspaces.rename_workspace
  rename-Yields name =
      Outcome-map s es (Granted ws c (Request.rename name) s es) _ (λ _. tt)
        (after_read _ s es _ _ _ (require_role-Reads c.role admin_or_owner) λ _ held.
          writes _ s es (with_name ws name s) _ _
            (λ _ _. record {
              rights = admin_or_owner-true c.role held;
              effect = refl;
              silent = refl;
            })
            (Outcome-missing_as _ s es not_found _ (update-Wrote s es ws name)))

  delete-Yields : Served Request.delete (perform ws c Request.delete)
  unfolding perform Workspaces.delete_workspace
  delete-Yields = after_read _ s es _ _ _ (require_role-Reads c.role owner_alone) λ _ held.
      writes _ s es (Cascade.delete_workspace ws s) _ _
        (λ _ _. record { rights = owner_alone-true c.role held; effect = refl; silent = refl })
        (Outcome-missing_as _ s es not_found _ (delete-Wrote s es ws))

  invite-Yields :
      (email : String) → Served (Request.invite email) (perform ws c (Request.invite email))
  unfolding perform Workspaces.invite_member
  invite-Yields email = after_read _ s es _ _ _ (require_role-Reads c.role admin_or_owner) λ _ held.
      after_read _ s es _ _ _ (Reads-missing_as _ not_found _ (find_email-Reads email)) λ u known.
        after_read _ s es _ _ _ (lookup-Reads ws u.id) λ row _.
          refuses _ s es (is_there row) already_member _ λ _.
            writes _ s es (with_member ws u.id Role.member s) _ _
              (λ _ fresh. record {
                rights = admin_or_owner-true c.role held;
                effect = (u, known, fresh, refl);
                silent = refl;
              })
              (add_member-Wrote s es ws u.id Role.member)

  remove-Yields :
      (target : ℕ) → Served (Request.remove target) (perform ws c (Request.remove target))
  unfolding perform Workspaces.remove_member
  remove-Yields target =
      after_read _ s es _ _ _ (require_role-Reads c.role admin_or_owner) λ _ held.
        after_read _ s es _ _ _ (Reads-missing_as _ not_found _ (get_member-Reads ws target))
          λ m row. refuses _ s es (same_role m.role Role.owner) cannot_remove_owner _ λ low.
            refuses _ s es (same_role c.role Role.admin && same_role m.role Role.admin)
              insufficient_permissions _
              λ rank.
                writes _ s es (without_member ws target s) _ _
                  (λ _ _. record {
                    rights = (
                      admin_or_owner-true c.role held,
                      (
                        m,
                        row,
                        ground arith,
                        low_admin c.role m.role (admin_or_owner-true c.role held) rank,
                      ),
                    );
                    effect = refl;
                    silent = refl;
                  })
                  (remove_member-Wrote s es ws target)

  set_role-Yields :
      (target : ℕ) (role : Role)
      → Served (Request.set_role target role) (perform ws c (Request.set_role target role))
  unfolding perform Workspaces.update_member_role
  set_role-Yields target role =
      after_read _ s es _ _ _ (require_role-Reads c.role owner_alone) λ _ held.
        refuses _ s es (c.user == target) cannot_change_self_role _ λ other.
          after_read _ s es _ _ _ (Reads-missing_as _ not_found _ (get_member-Reads ws target))
            λ m row.
              writes _ s es (with_role ws target role s) _ _
                (λ _ _. record {
                  rights = (owner_alone-true c.role held, ground arith, (m, row));
                  effect = refl;
                  silent = refl;
                })
                (update_member_role-Wrote s es ws target role)

  pub perform-Yields : (r : Request) → Served r (perform ws c r)
  perform-Yields (Request.rename name) = rename-Yields name
  perform-Yields Request.delete = delete-Yields
  perform-Yields (Request.invite email) = invite-Yields email
  perform-Yields (Request.remove target) = remove-Yields target
  perform-Yields (Request.set_role target role) = set_role-Yields target role

-- Whatever the request to WorkspaceService and whichever calls of the driver fail: the request
-- fails and leaves the tables as they were, or it succeeds, the caller and the target had the roles
-- that its rules ask for, and the tables are those that its rules give; nothing is broadcast.
pub workspace_refines :
    (ws : ℕ) (c : Caller) (r : Request) (w : World)
    → Outcome w.db w.events
        (λ _. Granted ws c r w.db w.events)
        (perform ws c r w).0
        (perform ws c r w).1.db
        (perform ws c r w).1.events
workspace_refines ws c r w = (perform-Yields ws c w.db w.events r).at w refl refl
