-- ===== src/Repo/Boards/Writes.antt =====
-- What the writing methods of the board repository do: all that is asked, or nothing.
use docflow_core.Prelude.{
  ℕ, ◌≡◌, refl, Bool, true, false, String, Option, none, some, List, exists_row,
}
use docflow_core.Model.{Role, Visibility}
use docflow_core.Model.Store.{Store, BoardEvent}
use docflow_core.Exec.Ensures.{
  Outcome, Ensures, Outcome-affected, Ensures-transaction, Ensures-Reads, Ensures-execute,
  Ensures-execute_bind,
}
use docflow_core.Repo.Cascade
use docflow_core.Repo.Boards
use docflow_core.Repo.Boards.{
  find_board, is_row, insert_member, with_board, with_token, without_row, set_role,
  update_board_row,
}
use docflow_core.Repo.Boards.Lookups.{HasRole, get_member_role-Reads}
use docflow_core.Repo.Statement.{affected, returning}

-- The method has replaced the database s by t, and has sent no event.
abbrev pub Replaced : {A : Type 0} → List BoardEvent → Store → A → Store → List BoardEvent → Type 0
Replaced es t _ s' es' = (s' ≡ t) × (es' ≡ es)

affected-Outcome :
    (s : Store) (es : List BoardEvent) (found_it : Bool) (t : Store)
    → Outcome s es (Replaced es t) (affected found_it s t).0 (affected found_it s t).1 es
affected-Outcome s es true t = (refl, refl)
affected-Outcome s es false t = (refl, refl)

returning-Outcome :
    {A : Type 0} (s : Store) (es : List BoardEvent) (o : Option A) (f : A → A) (t : Store)
    → Outcome s es (Replaced es t) (returning o f s t).0 (returning o f s t).1 es
returning-Outcome s es none f t = (refl, refl)
returning-Outcome s es (some a) f t = (refl, refl)

module _ (s : Store) (es : List BoardEvent) where
  pub update-Ensures :
      (id : ℕ) (title : Option String) (visibility : Option Visibility)
      → Ensures
          (Outcome s es (Replaced es (with_board id title visibility s)))
          s
          es
          (Boards.update id title visibility)
  unfolding Boards.update
  update-Ensures id title visibility = Outcome-affected _ s es _ (
      returning-Outcome s es (find_board id s) (update_board_row title visibility s.now)
        (with_board id title visibility s))

  pub delete-Ensures :
      (id : ℕ)
      → Ensures (Outcome s es (Replaced es (Cascade.delete_board id s))) s es (Boards.delete id)
  unfolding Boards.delete
  delete-Ensures id =
      Outcome-affected _ s es _ (affected-Outcome s es _ (Cascade.delete_board id s))

  pub set_share_token-Ensures :
      (id : ℕ) (token : Option ℕ)
      → Ensures
          (Outcome s es (Replaced es (with_token id token s)))
          s
          es
          (Boards.set_share_token id token)
  unfolding Boards.set_share_token
  set_share_token-Ensures id token =
      Outcome-affected _ s es _ (affected-Outcome s es _ (with_token id token s))

  pub update_member_role-Ensures :
      (board user : ℕ) (role : Role)
      → Ensures
          (Outcome s es (Replaced es (set_role board user role s)))
          s
          es
          (Boards.update_member_role board user role)
  unfolding Boards.update_member_role
  update_member_role-Ensures board user role =
      Outcome-affected _ s es _ (affected-Outcome s es _ (set_role board user role s))

  pub remove_member-Ensures :
      (board user : ℕ)
      → Ensures
          (Outcome s es (Replaced es (without_row board user s)))
          s
          es
          (Boards.remove_member board user)
  unfolding Boards.remove_member
  remove_member-Ensures board user =
      Outcome-affected _ s es _ (affected-Outcome s es _ (without_row board user s))

  -- For a user with no row yet: with one, ON CONFLICT leaves the table as it is.
  pub add_member-Ensures :
      (board user : ℕ) (role : Role)
      → exists_row (is_row board user) s.board_members ≡ false
      → Ensures
          (Outcome s es (Replaced es (insert_member board user role s).1))
          s
          es
          (Boards.add_member board user role)
  unfolding Boards.add_member
  add_member-Ensures board user role fresh = Outcome-affected _ s es _ (rw fresh (refl, refl))

  -- Both rows are there, and the two updates are made together.
  abbrev pub Transferred : ℕ → ℕ → ℕ → Unit {0} → Store → List BoardEvent → Type 0
  Transferred board from to _ s' es' =
      ((r : Role) × HasRole board from s r)
      × ((r : Role) × HasRole board to s r)
      × (s' ≡ set_role board to Role.owner (set_role board from Role.admin s))
      × (es' ≡ es)

  pub transfer_ownership-Ensures :
      (board from to : ℕ)
      → Ensures
          (Outcome s es (Transferred board from to))
          s
          es
          (Boards.transfer_ownership board from to)
  unfolding Boards.transfer_ownership
  transfer_ownership-Ensures board from to =
      Ensures-transaction (Transferred board from to) s es _ (
        Ensures-Reads _ s es _ _ _ (get_member_role-Reads board from) (λ e. refl)
          λ r from_row.
            Ensures-Reads _ s es _ _ _ (get_member_role-Reads board to) (λ e. refl)
              λ q to_row.
                Ensures-execute_bind _ s es _ _ refl (λ e h. cc)
                  λ _ _.
                    Ensures-execute _ _ es _ refl (((r, from_row), (q, to_row), refl, refl), refl))
