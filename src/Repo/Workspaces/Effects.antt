-- ===== src/Repo/Workspaces/Effects.antt =====
-- What the methods of the workspace repository tell and do.
use docflow_core.Exec.{optional, found}
use docflow_core.Prelude.{
  inr, inl, Bool-cases, ℕ, ◌≡◌, refl, ◌∙◌, ap, false, String, List, exists_row, arith,
}
use docflow_core.Model.{Role, Workspace}
use docflow_core.Model.Store.{Store, BoardEvent, ok}
use docflow_core.Exec.Reads.{Reads, Optional, Reads-optional}
use docflow_core.Exec.Ensures.{
  Ensures, Outcome, Outcome-affected, Wrote, Ensures-transaction, Ensures-execute_bind,
  Ensures-pure,
}
use docflow_core.Repo.Cascade
use docflow_core.Repo.Workspaces
use docflow_core.Repo.Workspaces.{
  find_member, find_workspace, has_workspace_id, is_member_row, workspace_row, insert_workspace,
  insert_member, with_member, with_role, without_member, with_name, rename_row,
}
use docflow_core.Repo.Statement.Effects.{affected-Wrote, returning-Wrote}

abbrev pub founded : String → ℕ → Store → Store
founded name owner s = with_member s.next_id owner Role.owner (insert_workspace name owner s).1

abbrev pub Joined :
    ℕ → ℕ → Role → Store → List BoardEvent → Unit {0} → Store → List BoardEvent → Type 0
Joined workspace user role s es =
    Wrote (with_member workspace user role s)
      (λ _. exists_row (is_member_row workspace user) s.workspace_members ≡ false) es

insert_member-Outcome :
    (workspace user : ℕ) (role : Role) (s : Store) (es : List BoardEvent)
    → Outcome s es
        (Joined workspace user role s es)
        (insert_member workspace user role s).0
        (insert_member workspace user role s).1
        es
unfolding insert_member
insert_member-Outcome workspace user role s es =
    elim (Bool-cases (exists_row (is_member_row workspace user) s.workspace_members)) [
      | inl e ↦ rw e (refl, refl)
      | inr e ↦ rw e (refl, refl, refl)
    ]

insert_member_ok :
    (workspace user : ℕ) (role : Role) (s : Store)
    → (insert_member workspace user role s).0 ≡ ok tt
    → (insert_member workspace user role s).1 ≡ with_member workspace user role s
unfolding insert_member
insert_member_ok workspace user role s h = ground arith

module _ (s : Store) (es : List BoardEvent) where
  pub update-Wrote :
      (id : ℕ) (name : String)
      → Ensures
          (Outcome s es (Wrote (with_name id name s) (λ _. Unit {0}) es))
          s
          es
          (Workspaces.update id name)
  unfolding Workspaces.update
  update-Wrote id name =
      Outcome-affected _ s es _
        (returning-Wrote s es (find_workspace id s) (rename_row name s.now) (with_name id name s))

  pub delete-Wrote :
      (id : ℕ)
      → Ensures
          (Outcome s es (Wrote (Cascade.delete_workspace id s) (λ _. Unit {0}) es))
          s
          es
          (Workspaces.delete id)
  unfolding Workspaces.delete
  delete-Wrote id =
      Outcome-affected _ s es _ (affected-Wrote s es _ (Cascade.delete_workspace id s))

  pub add_member-Wrote :
      (workspace user : ℕ) (role : Role)
      → Ensures
          (Outcome s es (Joined workspace user role s es))
          s
          es
          (Workspaces.add_member workspace user role)
  unfolding Workspaces.add_member insert_member
  add_member-Wrote workspace user role =
      Outcome-affected _ s es _ (insert_member-Outcome workspace user role s es)

  pub update_member_role-Wrote :
      (workspace user : ℕ) (role : Role)
      → Ensures
          (Outcome s es (Wrote (with_role workspace user role s) (λ _. Unit {0}) es))
          s
          es
          (Workspaces.update_member_role workspace user role)
  unfolding Workspaces.update_member_role
  update_member_role-Wrote workspace user role =
      Outcome-affected _ s es _ (affected-Wrote s es _ (with_role workspace user role s))

  pub remove_member-Wrote :
      (workspace user : ℕ)
      → Ensures
          (Outcome s es (Wrote (without_member workspace user s) (λ _. Unit {0}) es))
          s
          es
          (Workspaces.remove_member workspace user)
  unfolding Workspaces.remove_member
  remove_member-Wrote workspace user =
      Outcome-affected _ s es _ (affected-Wrote s es _ (without_member workspace user s))

  -- The workspace, and its owner's row in the same transaction
  pub create_with_owner-Wrote :
      (name : String) (owner : ℕ)
      → Ensures
          (Outcome s es (Wrote (founded name owner s) (λ w. w ≡ workspace_row name owner s) es))
          s
          es
          (Workspaces.create_with_owner name owner)
  unfolding Workspaces.create_with_owner insert_workspace insert_member
  create_with_owner-Wrote name owner = Ensures-transaction _ s es _ (
      Ensures-execute_bind _ s es _ _ refl (λ e h. cc)
        λ w e.
          Ensures-execute_bind _ _ es _ _ refl (λ x h. refl)
            λ u f. Ensures-pure _ _ es w (
              (
                same_row w e,
                insert_member_ok w.id owner Role.owner (insert_workspace name owner s).1 f
                    ∙ ap (λ x. with_member x.id owner Role.owner (insert_workspace name owner s).1)
                        (same_row w e),
                refl,
              ),
              refl,
            ))
    where
      same_row :
          (w : Workspace)
          → (insert_workspace name owner s).0 ≡ ok w
          → w ≡ workspace_row name owner s
      same_row w e = cc

-- A member who may be missing
pub lookup-Reads :
    (workspace user : ℕ)
    → Reads
        (Optional (λ s. found (find_member workspace user s)))
        (optional (Workspaces.get_member workspace user))
unfolding Workspaces.get_member
lookup-Reads workspace user = Reads-optional (λ s. found (find_member workspace user s))
