-- ===== src/Service/Workspaces/Owner.antt =====
-- The owner of a workspace, as WorkspaceService leaves it.
use docflow_core.Prelude.{
  ℕ, ◌≡◌, ◌≢◌, refl, sym, ap, ◌∙◌, ◌⊎◌, inl, inr, true, false, some, List, exists_row, arith,
}
use docflow_core.Model.Store.{Store, BoardEvent, Result, ok, err}
use mathlib.Core.Path.{subst}
use native.Mathlib.Decide.{ℕ_discrete}
use docflow_core.Prelude.{
  find_row-insert, find_row-insert_cases, find_row-delete_other, find_row-update_other,
  find_row-deleted, find_row-updated,
}
use docflow_core.Model.{Role, WorkspaceMember}
use docflow_core.Exec.Ensures.{Outcome}
use docflow_core.Repo.Workspaces.{
  find_member, is_member_row, with_member, with_role, without_member, member_row,
}
use docflow_core.Service.Workspaces.Rules.{Request, Caller, Granted}

-- The user has the row of an owner, and nobody else has.
pub record IsOwnedBy (ws user : ℕ) (s : Store) : Type 0 where
  pub row : (m : WorkspaceMember) × (find_member ws user s ≡ some m) × (m.role ≡ Role.owner)
  pub alone :
      (u : ℕ) (m : WorkspaceMember) → find_member ws u s ≡ some m → m.role ≡ Role.owner → u ≡ user

-- The caller's role is the one in the caller's row.
abbrev pub IsHonest : ℕ → Caller → Store → Type 0
IsHonest ws c s = (m : WorkspaceMember) × (find_member ws c.user s ≡ some m) × (m.role ≡ c.role)

-- The tag `oneof=admin member` of UpdateMemberRoleRequest
abbrev pub IsBound : Request → Type 0
IsBound (Request.set_role target role) = role ≢ Role.owner
IsBound _ = Unit

module _ (ws user : ℕ) (s : Store) (owned : IsOwnedBy ws user s) where
  invited :
      (new : ℕ)
      → exists_row (is_member_row ws new) s.workspace_members ≡ false
      → IsOwnedBy ws user (with_member ws new Role.member s)
  invited new fresh = record {
    row =
        let (m, here, high) = owned.row in
        (m, find_row-insert (is_member_row ws user) _ s.workspace_members m here, high);
    alone = λ u m here high.
        joined u m high (find_row-insert_cases (is_member_row ws u) _ s.workspace_members m here);
  }
    where
      joined :
          (u : ℕ) (m : WorkspaceMember)
          → m.role ≡ Role.owner
          → (find_member ws u s ≡ some m) ⊎ (m ≡ member_row ws new Role.member s)
          → u ≡ user
      joined u m high (inl here) = owned.alone u m here high
      joined u m high (inr same) = absurd (ground (arith, same, high))

  -- A target who is not the owner
  module _ (target : ℕ) (other : target ≢ user) where
    apart :
        (u : ℕ)
        → u ≢ target
        → (x : WorkspaceMember) → is_member_row ws u x ≡ true
        → is_member_row ws target x ≡ false
    apart u differs x h = ground arith

    removed : IsOwnedBy ws user (without_member ws target s)
    removed = record {
      row =
          let (m, here, high) = owned.row in
          (
            m,
            find_row-delete_other (is_member_row ws user) (is_member_row ws target)
                  s.workspace_members (apart user (λ e. other (sym e)))
                ∙ here,
            high,
          );
      alone = λ u m here high. left u m here high (ℕ_discrete u target);
    }
      where
        left :
            (u : ℕ) (m : WorkspaceMember)
            → find_member ws u (without_member ws target s) ≡ some m
            → m.role ≡ Role.owner
            → Dec (u ≡ target)
            → u ≡ user
        left u m here high (yes e) = absurd (
            ground (arith, here, e, find_row-deleted (is_member_row ws target) s.workspace_members))
        left u m here high (no differs) =
            owned.alone u m
              (sym (
                  find_row-delete_other (is_member_row ws u) (is_member_row ws target)
                    s.workspace_members (apart u differs))
                ∙ here)
              high

    changed : (role : Role) → role ≢ Role.owner → IsOwnedBy ws user (with_role ws target role s)
    changed role low = record {
      row =
          let (m, here, high) = owned.row in
          (
            m,
            find_row-update_other (is_member_row ws user) (is_member_row ws target)
                  (λ m. record m { role = role }) s.workspace_members (λ x. refl)
                  (apart user (λ e. other (sym e)))
                ∙ here,
            high,
          );
      alone = λ u m here high. left u m here high (ℕ_discrete u target);
    }
      where
        left :
            (u : ℕ) (m : WorkspaceMember)
            → find_member ws u (with_role ws target role s) ≡ some m
            → m.role ≡ Role.owner
            → Dec (u ≡ target)
            → u ≡ user
        left u m here high (yes e) = absurd (
            low (
              set_to m
                (find_row-updated (is_member_row ws target) (λ m. record m { role = role })
                  s.workspace_members m (λ x. refl)
                  (subst (λ v. find_member ws v (with_role ws target role s) ≡ some m) e here))
                high))
          where
            set_to :
                (m : WorkspaceMember)
                → ((b : WorkspaceMember) × (m ≡ record b { role = role }))
                → m.role ≡ Role.owner
                → role ≡ Role.owner
            set_to m (b, same) high = ap (λ x. x.role) (sym same) ∙ high
        left u m here high (no differs) =
            owned.alone u m
              (sym (
                  find_row-update_other (is_member_row ws u) (is_member_row ws target)
                    (λ m. record m { role = role }) s.workspace_members (λ x. refl)
                    (apart u differs))
                ∙ here)
              high

  not_user :
      (target : ℕ) (m : WorkspaceMember)
      → find_member ws target s ≡ some m
      → m.role ≢ Role.owner
      → target ≢ user
  not_user target m here low same =
      let (o, there, high) = owned.row in low (ground (arith, here, there, high, same))

  granted :
      (c : Caller) (r : Request) (es es' : List BoardEvent) (t : Store)
      → IsHonest ws c s
      → IsBound r
      → r ≢ Request.delete
      → Granted ws c r s es t es'
      → IsOwnedBy ws user t
  granted c (Request.rename name) es es' t honest bound stays g =
      subst (IsOwnedBy ws user) (sym g.effect) (record { row = owned.row; alone = owned.alone })
  granted c Request.delete es es' t honest bound stays g = absurd (stays refl)
  granted c (Request.invite email) es es' t honest bound stays g =
      let (u, known, fresh, e) = g.effect in subst (IsOwnedBy ws user) (sym e) (invited u.id fresh)
  granted c (Request.remove target) es es' t honest bound stays g =
      let (_, (m, here, low, _)) = g.rights in
      subst (IsOwnedBy ws user) (sym g.effect) (removed target (not_user target m here low))
  granted c (Request.set_role target role) es es' t honest bound stays g =
      let (high, self, _) = g.rights in
      let (m, here, own) = honest in
      let mine = owned.alone c.user m here (own ∙ high) in
      subst (IsOwnedBy ws user) (sym g.effect)
        (changed target (λ e. self (mine ∙ sym e)) role bound)

  pub outcome :
      (c : Caller) (r : Request) (es es' : List BoardEvent) (o : Result (Unit {0})) (t : Store)
      → IsHonest ws c s
      → IsBound r
      → r ≢ Request.delete
      → Outcome s es (λ _. Granted ws c r s es) o t es'
      → IsOwnedBy ws user t
  outcome c r es es' (ok a) t honest bound stays h = granted c r es es' t honest bound stays h
  outcome c r es es' (err e) t honest bound stays h = subst (IsOwnedBy ws user) (sym h.0) owned
