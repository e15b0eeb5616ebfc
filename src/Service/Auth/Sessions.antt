-- ===== src/Service/Auth/Sessions.antt =====
-- Login in internal/services/auth.go: the sessions that it leaves open.
use docflow_core.Prelude.{
  ℕ, ◌≡◌, refl, ◌⊎◌, inl, true, String, Option, none, some, List, [], ◌∷◌, update_rows, insert_row,
  if◌then◌else◌, arith, Every,
}
use docflow_core.Model.Store.{Store, World, BoardEvent, ok, err}
use docflow_core.Exec.{◌>>◌, raise, query}
use mathlib.Core.Path.{subst}
use docflow_core.Model.{RefreshToken, User}
use docflow_core.Model.Error.{invalid_credentials}
use docflow_core.Exec.{attempt}
use docflow_core.Exec.Reads.{Reads}
use docflow_core.Exec.Ensures.{
  Post, Ensures, Ensures-Reads, Ensures-if, Ensures-execute_bind, Ensures-raise,
}
use docflow_core.Repo.Users
use docflow_core.Repo.Users.{find_user_by_email, user_public}
use docflow_core.Repo.RefreshTokens
use docflow_core.Repo.RefreshTokens.{revoke_row, revoked_where, is_live_of, with_new_token}
use docflow_core.Service.Auth.{Crypto, AuthResponse, login, issue_token_pair}
use docflow_core.Service.Auth.Issue.{issue-Ensures}

-- Of the user's tokens, all but those with the hash given are revoked.
abbrev pub OnlyOpen : ℕ → ℕ → List RefreshToken → Type 0
OnlyOpen user hash = Every (λ t. t.user_id ≡ user → (t.token_hash ≡ hash) ⊎ (t.revoked ≡ true))

only_new :
    (user hash : ℕ) (new : RefreshToken) (ts : List RefreshToken)
    → new.token_hash ≡ hash
    → OnlyOpen user hash (insert_row new (update_rows (is_live_of user) revoke_row ts))
only_new user hash new [] same = (λ _. inl same, tt)
only_new user hash new (t ∷ ts) same = (ground arith, only_new user hash new ts same)

-- What the caller has shown, and what is left of the sessions
abbrev pub LoggedIn : Crypto → String → List ℕ → Store → AuthResponse → Store → Type 0
LoggedIn c email password s r t =
    ((u : User) × (find_user_by_email email s ≡ some u)
      × (c.check_password password u.password_hash ≡ true)
      × (r.user ≡ user_public u))
    × OnlyOpen r.user.id (c.hash_token r.refresh_token) t.refresh_tokens

abbrev TriedEmail : Store → String → Option User → Type 0
TriedEmail s email none = Unit
TriedEmail s email (some u) = find_user_by_email email s ≡ some u

find_email-Reads :
    (email : String) → Reads (λ s. TriedEmail s email) (attempt (Users.find_by_email email))
unfolding Users.find_by_email attempt query
find_email-Reads email = record {
  same_db = λ w. ground arith;
  same_events = λ w. ground arith;
  reads = λ w o. read w o;
}
  where
    read :
        (w : World) (o : Option User)
        → (attempt (Users.find_by_email email) w).0 ≡ ok o
        → TriedEmail w.db email o
    read w none h = tt
    read w (some u) h = ground arith

module _ (c : Crypto) (email : String) (password : List ℕ) (s : Store) (es : List BoardEvent) where
  abbrev pub Logs : Post AuthResponse
  Logs (ok r) t es' = LoggedIn c email password s r t × (es' ≡ es)
  Logs (err e) t es' = Unit {0}

  opened :
      (u : User)
      → find_user_by_email email s ≡ some u
      → c.check_password password u.password_hash ≡ true
      → Ensures Logs s es (RefreshTokens.revoke_all_for_user u.id >> issue_token_pair c u)
  unfolding RefreshTokens.revoke_all_for_user
  opened u here right =
      Ensures-execute_bind Logs s es _ (λ _. issue_token_pair c u) tt (λ e h. tt)
        λ _ _.
          issue-Ensures c Logs u (revoked_where (is_live_of u.id) s) es (λ e. tt)
            λ access new now. (
              ((u, here, right, refl), only_new u.id (c.hash_token new) _ s.refresh_tokens refl),
              refl,
            )

  login-Logs : Ensures Logs s es (login c email password)
  unfolding login
  login-Logs =
      Ensures-Reads Logs s es _ _ _ (find_email-Reads email) (λ e. tt) λ o here. chosen o here
    where
      chosen :
          (o : Option User)
          → TriedEmail s email o
          → Ensures Logs s es (elim o [
            | none ↦ raise invalid_credentials
            | some u ↦
                if c.check_password password u.password_hash
                then RefreshTokens.revoke_all_for_user u.id >> issue_token_pair c u
                else raise invalid_credentials
          ])
      chosen none here = Ensures-raise Logs s es invalid_credentials tt
      chosen (some u) here =
          Ensures-if Logs s es (c.check_password password u.password_hash) _ _
            (λ right. opened u here right) (λ _. Ensures-raise Logs s es invalid_credentials tt)

-- When Login returns, the password is the one of the user with that email, the answer is about that
-- user, and every refresh token of the user is revoked, but for those with the hash of the token
-- just issued; nothing is broadcast.
pub login_one_session :
    (c : Crypto) (email : String) (password : List ℕ) (w v : World) (r : AuthResponse)
    → login c email password w ≡ (ok r, v)
    → LoggedIn c email password w.db r v.db × (v.events ≡ w.events)
login_one_session c email password w v r done =
    subst (λ x. Logs c email password w.db w.events x.0 x.1.db x.1.events) done
      ((login-Logs c email password w.db w.events).at w refl refl)
