-- ===== src/Service/Auth/Issue.antt =====
-- issueTokenPair in internal/services/auth.go: it fails and changes nothing, or it stores the hash
-- of a new token.
use docflow_core.Prelude.{ℕ, ◌+◌, ◌≡◌, sym, String, some, List, arith}
use docflow_core.Model.Error.{driver}
use docflow_core.Model.Store.{Store, BoardEvent, ok, err}
use docflow_core.Exec.{Exec, ◌>>◌, pure, found}
use mathlib.Core.Path.{subst}
use docflow_core.Model.{Error, User}
use docflow_core.Exec.{time_now}
use docflow_core.Exec.Reads.{
  Reads, Reads-query, Reads-weaken, ask-Reads, time_now-Reads, generate_token-Reads,
}
use docflow_core.Exec.Ensures.{Post, Ensures, Ensures-Reads, Ensures-execute_bind, Ensures-pure}
use docflow_core.Repo.Boards.Lookups.{found_ok}
use docflow_core.Repo.Users
use docflow_core.Repo.Users.{find_user, user_public}
use docflow_core.Repo.RefreshTokens
use docflow_core.Repo.RefreshTokens.{insert_token, with_new_token}
use docflow_core.Service.Auth.{Crypto, AuthResponse, issue_token_pair}

pub find_user-Reads : (id : ℕ) → Reads (λ s u. find_user id s ≡ some u) (Users.find_by_id id)
unfolding Users.find_by_id
find_user-Reads id =
    Reads-weaken _ _ _ (λ s u e. found_ok (find_user id s) u e)
      (Reads-query (λ s. found (find_user id s)))

insert_token_ok :
    (user hash expires_at : ℕ) (s : Store) (a : Unit {0})
    → (insert_token user hash expires_at s).0 ≡ ok a
    → (insert_token user hash expires_at s).1 ≡ with_new_token user hash expires_at s
unfolding insert_token
insert_token_ok user hash expires_at s a h = ground arith

insert_token_err :
    (user hash expires_at : ℕ) (s : Store) (e : Error)
    → (insert_token user hash expires_at s).0 ≡ err e
    → (insert_token user hash expires_at s).1 ≡ s
unfolding insert_token
insert_token_err user hash expires_at s e h = ground arith

abbrev pub answer : User → String → ℕ → AuthResponse
answer user access new = record {
  user = user_public user;
  access_token = access;
  refresh_token = new;
}

module _ (c : Crypto) (P : Post AuthResponse) (user : User) (s : Store) (es : List BoardEvent)
    (fails : (e : Error) → P (err e) s es) where
  abbrev finish : String → ℕ → ℕ → Exec AuthResponse
  finish access new now =
      RefreshTokens.create user.id (c.hash_token new) (now + c.refresh_expiry)
      >> pure (answer user access new)

  abbrev stored : ℕ → ℕ → Store
  stored new now = with_new_token user.id (c.hash_token new) (now + c.refresh_expiry) s

  finish-Ensures :
      (access : String) (new now : ℕ)
      → P (ok (answer user access new)) (stored new now) es
      → Ensures P s es (finish access new now)
  unfolding RefreshTokens.create
  finish-Ensures access new now h =
      let hash = c.hash_token new in
      let later = now + c.refresh_expiry in
      Ensures-execute_bind P s es (insert_token user.id hash later)
        (λ _. pure (answer user access new)) (fails driver)
        (λ e q.
          subst (λ t. P (err e) t es) (sym (insert_token_err user.id hash later s e q)) (fails e))
        λ a q. Ensures-pure P _ es (answer user access new) (
          subst (λ t. P (ok (answer user access new)) t es)
            (sym (insert_token_ok user.id hash later s a q)) h)

  pub issue-Ensures :
      ((access : String) (new now : ℕ)
        → P
            (ok (answer user access new))
            (with_new_token user.id (c.hash_token new) (now + c.refresh_expiry) s)
            es)
      → Ensures P s es (issue_token_pair c user)
  unfolding issue_token_pair
  issue-Ensures h =
      Ensures-Reads P s es _ _ _ (ask-Reads (c.access_token user.id user.email user.name)) fails
        λ access _. Ensures-Reads P s es _ _ _ generate_token-Reads fails λ new _.
          Ensures-Reads P s es _ time_now (finish access new) time_now-Reads fails
            λ now _. finish-Ensures access new now (h access new now)
