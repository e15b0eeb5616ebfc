-- ===== src/Repo/Boards.antt =====
-- internal/repositories/boards.go.
pub mod Lookups
pub mod Writes
pub mod Owners
pub mod Finding
pub mod Lists
pub mod Detail
use docflow_core.Prelude.{
  ℕ, suc, ◌+◌, String, Bool, true, false, Option, none, some, ◌==◌, ◌&&◌, if◌then◌else◌, find_row,
  exists_row, update_rows, delete_rows, insert_row, get_or,
}
use docflow_core.Model.{Role, Visibility, Board, Membership}
use docflow_core.Model.Error.{record_not_found}
use docflow_core.Model.Store.{Store, Result, ok, err}
use docflow_core.Exec.{Exec, ◌>>=◌, ◌>>◌, pure, query, execute, found, transaction}
use docflow_core.Repo.Cascade
use docflow_core.Repo.Statement.{affected, returning}

abbrev pub is_row : ℕ → ℕ → Membership → Bool
is_row board user m = m.board_id == board && m.user_id == user

abbrev pub find_row_of : ℕ → ℕ → Store → Option Membership
find_row_of board user s = find_row (is_row board user) s.board_members

abbrev pub find_board : ℕ → Store → Option Board
find_board id s = find_row (λ b. b.id == id) s.boards

unfoldable pub insert_board : ℕ → String → Visibility → ℕ → Store → Result Board × Store
insert_board workspace title visibility creator s =
    let b : Board = record {
      id = s.next_id;
      workspace_id = workspace;
      title = title;
      visibility = visibility;
      share_token = none;
      created_by = creator;
      created_at = s.now;
      updated_at = s.now;
    } in
    (ok b, record s { boards = insert_row b s.boards; next_id = suc s.next_id })

-- `INSERT INTO board_members`
unfoldable pub insert_member : ℕ → ℕ → Role → Store → Result (Unit {0}) × Store
insert_member board user role s =
    let m : Membership = record {
      board_id = board;
      user_id = user;
      role = role;
      added_at = s.now;
    } in
    (ok tt, record s { board_members = insert_row m s.board_members })

unfoldable pub create : ℕ → String → Visibility → ℕ → Exec Board
unfolding insert_board insert_member execute transaction
create workspace title visibility creator = transaction do
  board ← execute (insert_board workspace title visibility creator)
  execute (insert_member board.id creator Role.owner)
  pure board

unfoldable pub find_by_id : ℕ → Exec Board
unfolding query
find_by_id id = query λ s. found (find_board id s)

-- `COALESCE($1, title)`
abbrev pub update_board_row : Option String → Option Visibility → ℕ → Board → Board
update_board_row title visibility now b = record b {
  title = get_or title b.title;
  visibility = get_or visibility b.visibility;
  updated_at = now;
}

abbrev pub with_board : ℕ → Option String → Option Visibility → Store → Store
with_board id title visibility s = record s {
  boards = update_rows (λ b. b.id == id) (update_board_row title visibility s.now) s.boards;
}

unfoldable pub update_statement :
    ℕ → Option String → Option Visibility → Store → Result Board × Store
update_statement id title visibility s =
    returning (find_board id s) (update_board_row title visibility s.now) s
      (with_board id title visibility s)

unfoldable pub update : ℕ → Option String → Option Visibility → Exec Board
unfolding execute update_statement
update id title visibility = execute (update_statement id title visibility)

unfoldable pub delete : ℕ → Exec (Unit {0})
unfolding execute
delete id =
    execute λ s. affected (exists_row (λ b. b.id == id) s.boards) s (Cascade.delete_board id s)

unfoldable pub find_by_share_token : ℕ → Exec Board
unfolding query
find_by_share_token token =
    query λ s.
      found (find_row (λ b. elim b.share_token [ none ↦ false | some t ↦ t == token ]) s.boards)

abbrev pub with_token : ℕ → Option ℕ → Store → Store
with_token id token s = record s {
  boards =
      update_rows (λ b. b.id == id) (λ b. record b { share_token = token; updated_at = s.now })
        s.boards;
}

unfoldable pub set_share_token : ℕ → Option ℕ → Exec (Unit {0})
unfolding execute
set_share_token id token =
    execute λ s. affected (exists_row (λ b. b.id == id) s.boards) s (with_token id token s)

abbrev pub role_of : Option Membership → Result Role
role_of none = err record_not_found
role_of (some m) = ok m.role

-- GetBoardMemberRole
unfoldable pub get_member_role : ℕ → ℕ → Exec Role
unfolding query
get_member_role board user = query λ s. role_of (find_row_of board user s)

unfoldable pub is_member : ℕ → ℕ → Exec Bool
unfolding query
is_member board user = query λ s. ok (exists_row (is_row board user) s.board_members)

-- `ON CONFLICT (board_id, user_id) DO NOTHING`
unfoldable pub add_member : ℕ → ℕ → Role → Exec (Unit {0})
unfolding execute insert_member
add_member board user role = execute λ s.
    if exists_row (is_row board user) s.board_members
    then (ok tt, s)
    else insert_member board user role s

abbrev pub set_role : ℕ → ℕ → Role → Store → Store
set_role board user role s = record s {
  board_members = update_rows (is_row board user) (λ m. record m { role = role }) s.board_members;
}

unfoldable pub update_member_role : ℕ → ℕ → Role → Exec (Unit {0})
unfolding execute
update_member_role board user role =
    execute
      λ s. affected (exists_row (is_row board user) s.board_members) s (set_role board user role s)

abbrev pub without_row : ℕ → ℕ → Store → Store
without_row board user s = record s {
  board_members = delete_rows (is_row board user) s.board_members;
}

unfoldable pub remove_member : ℕ → ℕ → Exec (Unit {0})
unfolding execute
remove_member board user =
    execute
      λ s. affected (exists_row (is_row board user) s.board_members) s (without_row board user s)

-- The two SELECTs read the roles and check only that the rows are there.
unfoldable pub transfer_ownership : ℕ → ℕ → ℕ → Exec (Unit {0})
unfolding get_member_role execute transaction
transfer_ownership board from to = transaction do
  from_role ← get_member_role board from
  to_role ← get_member_role board to
  execute (λ s. (ok tt, set_role board from Role.admin s))
  execute (λ s. (ok tt, set_role board to Role.owner s))
