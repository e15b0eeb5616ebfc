-- ===== src/Repo/Boards/Lookups.antt =====
-- What the reading statements of the board and workspace repositories tell.
use docflow_core.Prelude.{ℕ, ◌≡◌, refl, Option, none, some, exists_row}
use docflow_core.Model.{Role, Membership}
use docflow_core.Model.Store.{Store, ok}
use docflow_core.Exec.{found}
use docflow_core.Exec.Reads.{Reads, Reads-query, Reads-weaken}
use docflow_core.Repo.Boards
use docflow_core.Repo.Boards.{find_board, find_row_of, is_row, role_of}
use docflow_core.Repo.Workspaces
use docflow_core.Repo.Workspaces.{find_member}

pub found_ok : {A : Type 0} (o : Option A) (a : A) → found o ≡ ok a → o ≡ some a
found_ok none a h = cc
found_ok (some b) a h = cc

pub find_by_id-Reads : (id : ℕ) → Reads (λ s b. find_board id s ≡ some b) (Boards.find_by_id id)
unfolding Boards.find_by_id
find_by_id-Reads id =
    Reads-weaken _ _ _ (λ s b e. found_ok (find_board id s) b e)
      (Reads-query (λ s. found (find_board id s)))

pub is_member-Reads :
    (board user : ℕ)
    → Reads
        (λ s b. exists_row (is_row board user) s.board_members ≡ b)
        (Boards.is_member board user)
unfolding Boards.is_member
is_member-Reads board user =
    Reads-weaken _ _ _ (λ s b e. cc)
      (Reads-query (λ s. ok (exists_row (is_row board user) s.board_members)))

role_of_ok :
    (o : Option Membership) (r : Role)
    → role_of o ≡ ok r
    → (m : Membership) × (o ≡ some m) × (m.role ≡ r)
role_of_ok none r h = cc
role_of_ok (some m) r h = (m, refl, cc)

-- A role is read from the caller's row.
abbrev pub HasRole : ℕ → ℕ → Store → Role → Type 0
HasRole board user s r = (m : Membership) × (find_row_of board user s ≡ some m) × (m.role ≡ r)

pub get_member_role-Reads :
    (board user : ℕ) → Reads (HasRole board user) (Boards.get_member_role board user)
unfolding Boards.get_member_role
get_member_role-Reads board user =
    Reads-weaken _ _ _ (λ s r e. role_of_ok (find_row_of board user s) r e)
      (Reads-query (λ s. role_of (find_row_of board user s)))

pub get_member-Reads :
    (workspace user : ℕ)
    → Reads (λ s m. find_member workspace user s ≡ some m) (Workspaces.get_member workspace user)
unfolding Workspaces.get_member
get_member-Reads workspace user =
    Reads-weaken _ _ _ (λ s m e. found_ok (find_member workspace user s) m e)
      (Reads-query (λ s. found (find_member workspace user s)))
