-- ===== src/Repo/Users.antt =====
-- internal/repositories/users.go.
use docflow_core.Prelude.{
  ℕ, suc, ◌==◌, Bool, String, Option, none, get_or, find_row, exists_row, update_rows, insert_row,
  same_text, if◌then◌else◌,
}
use docflow_core.Model.Error.{driver}
use docflow_core.Model.Store.{Store, Result, ok, err}
use docflow_core.Exec.{Exec, ◌>>=◌, pure, query, execute, found}
use docflow_core.Repo.Statement.{returning}
use docflow_core.Model.{User, UserPublic}
use docflow_core.Repo.Cards.{given_or}

abbrev pub has_user_id : ℕ → User → Bool
has_user_id id u = u.id == id

abbrev pub find_user : ℕ → Store → Option User
find_user id s = find_row (has_user_id id) s.users

unfoldable pub find_by_id : ℕ → Exec User
unfolding query
find_by_id id = query λ s. found (find_user id s)

abbrev pub has_email : String → User → Bool
has_email email u = same_text u.email email

abbrev pub find_user_by_email : String → Store → Option User
find_user_by_email email s = find_row (has_email email) s.users

unfoldable pub find_by_email : String → Exec User
unfolding query
find_by_email email = query λ s. found (find_user_by_email email s)

abbrev pub user_row : String → String → String → Store → User
user_row email password_hash name s = record {
  id = s.next_id;
  email = email;
  password_hash = password_hash;
  name = name;
  avatar_url = none;
  created_at = s.now;
  updated_at = s.now;
}

abbrev pub with_new_user : String → String → String → Store → Store
with_new_user email password_hash name s = record s {
  users = insert_row (user_row email password_hash name s) s.users;
  next_id = suc s.next_id;
}

-- `INSERT INTO users`, with the unique index on email
unfoldable pub insert_user : String → String → String → Store → Result User × Store
insert_user email password_hash name s =
    if exists_row (has_email email) s.users
    then (err driver, s)
    else (ok (user_row email password_hash name s), with_new_user email password_hash name s)

unfoldable pub create : String → String → String → Exec User
unfolding execute insert_user
create email password_hash name = execute (insert_user email password_hash name)

-- The columns of `RETURNING` and of `UserPublic`, with no password hash
abbrev pub user_public : User → UserPublic
user_public u = record {
  id = u.id;
  email = u.email;
  name = u.name;
  avatar_url = u.avatar_url;
  created_at = u.created_at;
}

-- `SET name = COALESCE($1, name), avatar_url = COALESCE($2, avatar_url)`
abbrev pub update_user_row : Option String → Option String → ℕ → User → User
update_user_row name avatar_url now u = record u {
  name = get_or name u.name;
  avatar_url = given_or avatar_url u.avatar_url;
  updated_at = now;
}

abbrev pub with_user : ℕ → Option String → Option String → Store → Store
with_user id name avatar_url s = record s {
  users = update_rows (has_user_id id) (update_user_row name avatar_url s.now) s.users;
}

unfoldable pub update : ℕ → Option String → Option String → Exec UserPublic
unfolding execute
update id name avatar_url = do
  u ← execute λ s.
      returning (find_user id s) (update_user_row name avatar_url s.now) s
        (with_user id name avatar_url s)
  pure (user_public u)
