-- ===== src/Repo/RefreshTokens.antt =====
-- internal/repositories/refresh_tokens.go.
use docflow_core.Prelude.{
  ℕ, suc, ◌==◌, ◌&&◌, not, Bool, true, false, Option, find_row, exists_row, update_rows,
  delete_rows, insert_row, ltb, if◌then◌else◌,
}
use docflow_core.Model.Error.{driver}
use docflow_core.Model.Store.{Store, Result, ok, err}
use docflow_core.Exec.{Exec, query, execute, found}
use docflow_core.Model.{RefreshToken}

abbrev pub has_hash : ℕ → RefreshToken → Bool
has_hash hash t = t.token_hash == hash

abbrev pub find_token : ℕ → Store → Option RefreshToken
find_token hash s = find_row (has_hash hash) s.refresh_tokens

abbrev pub token_row : ℕ → ℕ → ℕ → Store → RefreshToken
token_row user hash expires_at s = record {
  id = s.next_id;
  user_id = user;
  token_hash = hash;
  expires_at = expires_at;
  revoked = false;
  created_at = s.now;
}

abbrev pub with_new_token : ℕ → ℕ → ℕ → Store → Store
with_new_token user hash expires_at s = record s {
  refresh_tokens = insert_row (token_row user hash expires_at s) s.refresh_tokens;
  next_id = suc s.next_id;
}

-- `INSERT INTO refresh_tokens`, with the unique index on token_hash
unfoldable pub insert_token : ℕ → ℕ → ℕ → Store → Result (Unit {0}) × Store
insert_token user hash expires_at s =
    if exists_row (has_hash hash) s.refresh_tokens
    then (err driver, s)
    else (ok tt, with_new_token user hash expires_at s)

unfoldable pub create : ℕ → ℕ → ℕ → Exec (Unit {0})
unfolding execute insert_token
create user hash expires_at = execute (insert_token user hash expires_at)

unfoldable pub find_by_hash : ℕ → Exec RefreshToken
unfolding query
find_by_hash hash = query λ s. found (find_token hash s)

abbrev pub revoke_row : RefreshToken → RefreshToken
revoke_row t = record t { revoked = true }

abbrev pub revoked_where : (RefreshToken → Bool) → Store → Store
revoked_where p s = record s { refresh_tokens = update_rows p revoke_row s.refresh_tokens }

unfoldable pub revoke : ℕ → Exec (Unit {0})
unfolding execute
revoke id = execute λ s. (ok tt, revoked_where (λ t. t.id == id) s)

abbrev pub is_live_of : ℕ → RefreshToken → Bool
is_live_of user t = t.user_id == user && not t.revoked

unfoldable pub revoke_all_for_user : ℕ → Exec (Unit {0})
unfolding execute
revoke_all_for_user user = execute λ s. (ok tt, revoked_where (is_live_of user) s)

unfoldable pub delete_expired : Exec (Unit {0})
unfolding execute
delete_expired = execute λ s. (
  ok tt,
  record s { refresh_tokens = delete_rows (λ t. ltb t.expires_at s.now) s.refresh_tokens },
)
