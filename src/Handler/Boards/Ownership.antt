-- ===== src/Handler/Boards/Ownership.antt =====
-- internal/handlers/boards.go: the requests on a board, and the owner rows of board_members.
use mathlib.Core.Path.{subst}
use docflow_core.Prelude.{
  ℕ, ◌≡◌, refl, sym, ◌∙◌, true, false, Option, none, some, List, arith, get_or,
}
use docflow_core.Model.{Role, Membership, same_role}
use docflow_core.Model.Store.{Store, World, BoardEvent, Result, ok, err}
use docflow_core.Exec.Ensures.{Outcome}
use docflow_core.Middleware.Board.{IsCaller, resolve_role}
use docflow_core.Repo.Boards.{find_row_of, update_board_row}
use docflow_core.Repo.Boards.Finding.{is_board_of_found}
use docflow_core.Repo.Boards.Lookups.{HasRole}
use docflow_core.Service.Access.Sight.{role_in_row}
use docflow_core.Service.Boards.Handover.{handed-HasOneOwner}
use docflow_core.Service.Boards.Ownership.{
  HasOneOwner, set_role-HasOneOwner, without_row-HasOneOwner, insert_member-HasOneOwner,
  boards-HasOneOwner, delete_board-HasOneOwner,
}
use docflow_core.Service.Boards.Request.{Request, Caller}
use docflow_core.Service.Boards.Rights.{Granted}
use docflow_core.Handler.Boards.{binds, handle, is_assignable}
use docflow_core.Handler.Boards.Safety.{Handled, handle_refines}

role_in_row_owner :
    (o : Option Membership)
    → role_in_row o ≡ Role.owner
    → (m : Membership) × (o ≡ some m) × (m.role ≡ Role.owner)
role_in_row_owner none h = cc
role_in_row_owner (some m) h = (m, refl, h)

resolve_owner : (wr br : Role) → resolve_role wr br ≡ Role.owner → br ≡ Role.owner
unfolding resolve_role
resolve_owner wr br h = ground arith

-- Only an owner row makes an owner.
pub owner_row :
    (id user : ℕ) (s : Store) (c : Caller)
    → IsCaller id user s c
    → c.board_role ≡ Role.owner
    → HasRole id c.user s Role.owner
owner_row id user s c (b, m, _, _, same, _, has) h =
    subst (λ u. HasRole id u s Role.owner) (sym same)
      (role_in_row_owner (find_row_of id user s)
        (resolve_owner m.role (role_in_row (find_row_of id user s)) (sym has ∙ h)))

assignable_not_owner : (r : Role) → is_assignable r ≡ true → same_role r Role.owner ≡ false
assignable_not_owner r h = ground arith

added_not_owner :
    (target : ℕ) (role : Option Role)
    → binds (Request.add_member target role) ≡ true
    → same_role (get_or role Role.editor) Role.owner ≡ false
unfolding binds
added_not_owner target none h = refl
added_not_owner target (some r) h = assignable_not_owner r h

set_not_owner :
    (target : ℕ) (role : Role)
    → binds (Request.set_member_role target role) ≡ true
    → same_role role Role.owner ≡ false
unfolding binds
set_not_owner target role h = assignable_not_owner role h

module _ (id user : ℕ) (c : Caller) (s t : Store) (is_caller : IsCaller id user s c)
    (inv : HasOneOwner s) where
  Granted-HasOneOwner : (r : Request) → binds r ≡ true → Granted id c r s t → HasOneOwner t
  Granted-HasOneOwner (Request.update_board title visibility) bound g =
      subst HasOneOwner (sym g.effect)
        (boards-HasOneOwner s inv id (update_board_row title visibility s.now) (λ b. refl))
  Granted-HasOneOwner Request.delete_board bound g =
      subst HasOneOwner (sym g.effect) (delete_board-HasOneOwner s inv id)
  Granted-HasOneOwner (Request.add_member target role) bound g =
      let (_, _, (b, m, here, _, absent)) = g.rights in
      subst HasOneOwner (sym g.effect) (
        insert_member-HasOneOwner s inv id target (get_or role Role.editor)
          (is_board_of_found id s.boards b here) absent (added_not_owner target role bound))
  Granted-HasOneOwner (Request.remove_member target) bound g =
      let (_, (r, row, low, _)) = g.rights in
      subst HasOneOwner (sym g.effect) (without_row-HasOneOwner s inv id target r row low)
  Granted-HasOneOwner (Request.set_member_role target role) bound g =
      let (_, (r, row, low)) = g.rights in
      subst HasOneOwner (sym g.effect)
        (set_role-HasOneOwner s inv id target role r row low (set_not_owner target role bound))
  Granted-HasOneOwner (Request.transfer to) bound g =
      let (own, ne, _, (r, row)) = g.rights in
      subst HasOneOwner (sym g.effect)
        (handed-HasOneOwner id c.user to ne s inv row (owner_row id user s c is_caller own))
  Granted-HasOneOwner Request.generate_link bound g =
      let (token, e) = g.effect in
      subst HasOneOwner (sym e) (boards-HasOneOwner s inv id _ (λ b. refl))
  Granted-HasOneOwner Request.revoke_link bound g =
      subst HasOneOwner (sym g.effect) (boards-HasOneOwner s inv id _ (λ b. refl))

Handled-HasOneOwner :
    (id user : ℕ) (request : Request) (s : Store) (es : List BoardEvent) (r : Result (Unit {0}))
    (t : Store) (es' : List BoardEvent)
    → HasOneOwner s
    → Outcome s es (Handled id user request s es) r t es'
    → HasOneOwner t
Handled-HasOneOwner id user request s es (ok _) t es' inv (c, is_caller, bound, g, _) =
    Granted-HasOneOwner id user c s t is_caller inv request bound g
Handled-HasOneOwner id user request s es (err _) t es' inv (same, _) =
    subst HasOneOwner (sym same) inv

-- If every board has exactly one owner, no user has two rows on a board, and no row has an
-- identifier that is still to be given, before a request on a board, then so it is after it,
-- whether it succeeds or fails.
pub handle_keeps :
    (id user : ℕ) (request : Request) (w : World)
    → HasOneOwner w.db
    → HasOneOwner (handle id user request w).1.db
handle_keeps id user request w inv =
    Handled-HasOneOwner id user request w.db w.events (handle id user request w).0
      (handle id user request w).1.db (handle id user request w).1.events inv
      (handle_refines id user request w)
