-- ===== src/Service/Access/Sight.antt =====
-- checkAccess in internal/services/boards.go: who may see a board, said of the tables.
use docflow_core.Repo.Boards
use docflow_core.Prelude.{
  none, Option, ℕ, ◌≡◌, ◌⊎◌, inl, inr, Bool, true, false, some, List, arith, exists_row,
  if◌then◌else◌,
}
use docflow_core.Model.{Membership, Role, Visibility, Board, is_workspace_visible}
use docflow_core.Model.Error.{
  record_not_found, not_found, insufficient_permissions, board_access_denied,
}
use docflow_core.Model.Store.{Store, ok, err}
use docflow_core.Exec.{optional, pure, raise}
use docflow_core.Exec.Reads.{
  Reads-weaken, Reads-optional, Optional, Reads, Reads-pure, Reads-raise, Reads-missing_as,
  Reads-if, Reads-bind,
}
use docflow_core.Repo.Boards.{role_of, find_row_of, find_board, is_row}
use docflow_core.Repo.Boards.Lookups.{find_by_id-Reads, is_member-Reads}
use docflow_core.Service.Access.{
  role_or_blank, contains_role, require_board_role, is_manager, check_access,
}

-- The board is there, and open to the workspace, or the caller manages the workspace, or has a row
-- in board_members.
abbrev pub CanSee : Store → ℕ → ℕ → Role → Type 0
CanSee s board user workspace_role =
    (b : Board) × (find_board board s ≡ some b)
    × ((b.visibility ≡ Visibility.workspace)
        ⊎ (workspace_role ≡ Role.owner)
        ⊎ (workspace_role ≡ Role.admin)
        ⊎ (exists_row (is_row board user) s.board_members ≡ true))

is_workspace_visible-true :
    (v : Visibility) → is_workspace_visible v ≡ true → v ≡ Visibility.workspace
is_workspace_visible-true v h = ground arith

pub is_manager-true : (r : Role) → is_manager r ≡ true → (r ≡ Role.owner) ⊎ (r ≡ Role.admin)
is_manager-true r h = ground arith

module _ (board user : ℕ) (workspace_role : Role) where
  abbrev Seen : Store → Unit {0} → Type 0
  Seen s _ = CanSee s board user workspace_role

  member_case :
      (b : Board) (is_member : Bool)
      → Reads
          (λ s x.
            exists_row (is_row board user) s.board_members ≡ is_member
            → find_board board s ≡ some b
            → Seen s x)
          (if is_member then pure tt else raise board_access_denied)
  member_case b true = Reads-pure _ tt (λ s e f. (b, f, inr (inr (inr e))))
  member_case b false = Reads-raise _ board_access_denied

  -- checkAccess changes nothing, and returns only for those who can see the board.
  pub check_access-Reads : Reads Seen (check_access board user workspace_role)
  unfolding check_access
  check_access-Reads =
      Reads-bind _ Seen _ _ (Reads-missing_as _ not_found _ (find_by_id-Reads board)) λ b.
        Reads-if _ (is_workspace_visible b.visibility) _ _
          (λ e. Reads-pure _ tt (λ s f. (b, f, inl (is_workspace_visible-true b.visibility e))))
          (λ _.
            Reads-if _ (is_manager workspace_role) _ _
              (λ e.
                Reads-pure _ tt (λ s f. (b, f, ground (arith, is_manager-true workspace_role e))))
              (λ _. Reads-bind _ _ _ _ (is_member-Reads board user) (member_case b)))

pub require_board_role-Reads :
    (role : Role) (allowed : List Role)
    → Reads (λ _ _. contains_role role allowed ≡ true) (require_board_role role allowed)
unfolding require_board_role
require_board_role-Reads role allowed =
    Reads-if _ (contains_role role allowed) _ _ (λ e. Reads-pure _ tt (λ s. e))
      (λ _. Reads-raise _ insufficient_permissions)

-- The role in a row of board_members, "" if there is none.
abbrev pub role_in_row : Option Membership → Role
role_in_row none = Role.blank
role_in_row (some m) = m.role

role_of_none :
    (o : Option Membership) → role_of o ≡ err record_not_found → Role.blank ≡ role_in_row o
role_of_none o h = ground arith

role_of_some : (o : Option Membership) (r : Role) → role_of o ≡ ok r → r ≡ role_in_row o
role_of_some o r h = ground arith

abbrev pub IsRoleInRow : ℕ → ℕ → Store → Option Role → Type 0
IsRoleInRow board user s r = role_or_blank r ≡ role_in_row (find_row_of board user s)

Optional-IsRoleInRow :
    (board user : ℕ) (s : Store) (r : Option Role)
    → Optional (λ t. role_of (find_row_of board user t)) s r
    → IsRoleInRow board user s r
Optional-IsRoleInRow board user s none h = role_of_none (find_row_of board user s) h
Optional-IsRoleInRow board user s (some r) h = role_of_some (find_row_of board user s) r h

-- The lookup of a role whose absence is no error.
pub optional_role-Reads :
    (board user : ℕ) → Reads (IsRoleInRow board user) (optional (Boards.get_member_role board user))
unfolding Boards.get_member_role
optional_role-Reads board user =
    Reads-weaken _ _ _ (Optional-IsRoleInRow board user)
      (Reads-optional (λ t. role_of (find_row_of board user t)))
