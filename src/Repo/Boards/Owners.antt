-- ===== src/Repo/Boards/Owners.antt =====
-- Counting the owners of a board in the rows of board_members.
use docflow_core.Prelude.{
  ℕ, ◌+◌, ◌≤◌, ◌≡◌, refl, ◌≢◌, Bool, false, ◌&&◌, ◌==◌, some, List, [], ◌∷◌, ◌++◌, arith,
  if◌then◌else◌, count_rows, find_row, exists_row, update_rows, delete_rows,
}
use docflow_core.Model.{Role, Membership, same_role}
use docflow_core.Repo.Boards.{is_row}

abbrev pub is_owner_row : ℕ → Membership → Bool
is_owner_row board m = m.board_id == board && same_role m.role Role.owner

-- The rows that make a user an owner of a board.
abbrev pub owns : ℕ → ℕ → Membership → Bool
owns board user m = is_row board user m && same_role m.role Role.owner

abbrev pub owners : ℕ → List Membership → ℕ
owners board = count_rows (is_owner_row board)

abbrev pub with_role : Role → Membership → Membership
with_role role m = record m { role = role }

pub count_rows-append {ℓ} :
    {A : Type ℓ} (p : A → Bool) (xs ys : List A)
    → count_rows p (xs ++ ys) ≡ count_rows p xs + count_rows p ys
count_rows-append p [] ys = omega arith
count_rows-append p (x ∷ xs) ys = ground (arith, count_rows-append p xs ys)

pub count_rows_of_absent {ℓ} :
    {A : Type ℓ} (p : A → Bool) (xs : List A) → exists_row p xs ≡ false → count_rows p xs ≡ 0
count_rows_of_absent p [] h = refl
count_rows_of_absent p (x ∷ xs) h = ground (arith, count_rows_of_absent p xs)

pub count_rows_of_found {ℓ} :
    {A : Type ℓ} (p : A → Bool) (xs : List A) (a : A) → find_row p xs ≡ some a → 1 ≤ count_rows p xs
count_rows_of_found p [] a h = cc
count_rows_of_found p (x ∷ xs) a h = ground (arith, count_rows_of_found p xs a)

pub owns-le-owners :
    (board user : ℕ) (ms : List Membership) → count_rows (owns board user) ms ≤ owners board ms
owns-le-owners board user [] = omega arith
owns-le-owners board user (m ∷ ms) = ground (arith, owns-le-owners board user ms)

-- A user whose first row is that of an owner.
pub owns_of_owner :
    (board user : ℕ) (ms : List Membership) (m : Membership)
    → find_row (is_row board user) ms ≡ some m
    → m.role ≡ Role.owner
    → 1 ≤ count_rows (owns board user) ms
owns_of_owner board user [] m h e = cc
owns_of_owner board user (x ∷ ms) m h e = ground (arith, owns_of_owner board user ms m)

owns-le-rows :
    (board user : ℕ) (ms : List Membership)
    → count_rows (owns board user) ms ≤ count_rows (is_row board user) ms
owns-le-rows board user [] = omega arith
owns-le-rows board user (m ∷ ms) = ground (arith, owns-le-rows board user ms)

-- A user whose only row is not that of an owner.
pub owns_of_other :
    (board user : ℕ) (ms : List Membership) (m : Membership)
    → count_rows (is_row board user) ms ≤ 1
    → find_row (is_row board user) ms ≡ some m
    → m.role ≢ Role.owner
    → count_rows (owns board user) ms ≡ 0
owns_of_other board user [] m u h e = refl
owns_of_other board user (x ∷ ms) m u h e =
    ground (arith, owns_of_other board user ms m, owns-le-rows board user ms)

module _ (board user : ℕ) (role : Role) where
  pub owners-set_role :
      (ms : List Membership)
      → owners board (update_rows (is_row board user) (with_role role) ms)
          + count_rows (owns board user) ms
        ≡ owners board ms
          + (if same_role role Role.owner then count_rows (is_row board user) ms else 0)
  owners-set_role [] = ground arith
  owners-set_role (m ∷ ms) = ground (arith, owners-set_role ms)

  pub owners-set_role_ne :
      (other : ℕ) (ms : List Membership)
      → other ≢ board
      → owners other (update_rows (is_row board user) (with_role role) ms) ≡ owners other ms
  owners-set_role_ne other [] ne = refl
  owners-set_role_ne other (m ∷ ms) ne = ground (arith, owners-set_role_ne other ms ne)

  pub rows-set_role :
      (b u : ℕ) (ms : List Membership)
      → count_rows (is_row b u) (update_rows (is_row board user) (with_role role) ms)
        ≡ count_rows (is_row b u) ms
  rows-set_role b u [] = refl
  rows-set_role b u (m ∷ ms) = ground (arith, rows-set_role b u ms)

pub owners-delete :
    (board user : ℕ) (ms : List Membership)
    → owners board (delete_rows (is_row board user) ms) + count_rows (owns board user) ms
      ≡ owners board ms
owners-delete board user [] = refl
owners-delete board user (m ∷ ms) = ground (arith, owners-delete board user ms)

pub owners-delete_ne :
    (board user other : ℕ) (ms : List Membership)
    → other ≢ board
    → owners other (delete_rows (is_row board user) ms) ≡ owners other ms
owners-delete_ne board user other [] ne = refl
owners-delete_ne board user other (m ∷ ms) ne =
    ground (arith, owners-delete_ne board user other ms ne)

pub count_rows-delete {ℓ} :
    {A : Type ℓ} (p q : A → Bool) (xs : List A) → count_rows p (delete_rows q xs) ≤ count_rows p xs
count_rows-delete p q [] = omega arith
count_rows-delete p q (x ∷ xs) = ground (arith, count_rows-delete p q xs)

pub owners-delete_board :
    (board other : ℕ) (ms : List Membership)
    → other ≢ board
    → owners other (delete_rows (λ m. m.board_id == board) ms) ≡ owners other ms
owners-delete_board board other [] ne = refl
owners-delete_board board other (m ∷ ms) ne = ground (arith, owners-delete_board board other ms ne)
