-- ===== src/Service/Auth.antt =====
-- internal/services/auth.go: AuthService. SHA-256, bcrypt and JWT are parameters, as is the package
-- unicode.
pub mod Issue
pub mod Reuse
pub mod Sessions
use docflow_core.Prelude.{
  ℕ, ◌+◌, Bool, true, false, String, Option, none, some, List, ltb, if◌then◌else◌,
}
use docflow_core.Model.Store.{World, Result}
use docflow_core.Exec.{Exec, ◌>>=◌, ◌>>◌, pure, raise, missing_as, optional}
use docflow_core.Model.{User, UserPublic, RefreshToken}
use docflow_core.Model.Error.{
  email_already_exists, weak_password, invalid_credentials, invalid_refresh_token,
  token_theft_detected, refresh_token_expired, user_not_found,
}
use docflow_core.Exec.{ask, attempt, time_now, generate_token}
use docflow_core.Repo.Users
use docflow_core.Repo.Users.{user_public}
use docflow_core.Repo.RefreshTokens
use docflow_core.Repo.Workspaces
use docflow_core.Service.Passwords.{PasswordCheck, validate_password}
use docflow_core.Service.Workspaces.{is_there}
use Prim.Native.String.{◌++◌}

-- `hash_token` is HashToken, `hash_password` and `check_password` are bcrypt's, `access_token` is
-- GenerateAccessToken.
pub record Crypto : Type 0 where
  pub hash_token : ℕ → ℕ
  pub hash_password : List ℕ → World → Result String
  pub check_password : List ℕ → String → Bool
  pub access_token : ℕ → String → String → World → Result String
  pub refresh_expiry : ℕ
  pub is_digit : ℕ → Bool
  pub is_special : ℕ → Bool

pub record AuthResponse : Type 0 where
  pub user : UserPublic
  pub access_token : String
  pub refresh_token : ℕ

abbrev pub is_accepted : PasswordCheck → Bool
is_accepted PasswordCheck.accepted = true
is_accepted _ = false

module _ (c : Crypto) where
  -- issueTokenPair
  unfoldable pub issue_token_pair : User → Exec AuthResponse
  unfolding ask time_now generate_token RefreshTokens.create
  issue_token_pair user = do
    access ← ask (c.access_token user.id user.email user.name)
    raw ← generate_token
    now ← time_now
    RefreshTokens.create user.id (c.hash_token raw) (now + c.refresh_expiry)
    pure (record { user = user_public user; access_token = access; refresh_token = raw })

  unfoldable pub register : String → List ℕ → String → Exec AuthResponse
  unfolding optional ask Users.find_by_email Users.create Workspaces.create_with_owner
      validate_password issue_token_pair
  register email password name = do
    taken ← optional (Users.find_by_email email)
    if is_there taken then raise email_already_exists else pure tt
    if is_accepted (validate_password c.is_digit c.is_special password)
        then pure tt
        else raise weak_password
    hash ← ask (c.hash_password password)
    user ← Users.create email hash name
    Workspaces.create_with_owner (name ++ "'s Workspace") user.id
    issue_token_pair user

  unfoldable pub login : String → List ℕ → Exec AuthResponse
  unfolding attempt Users.find_by_email RefreshTokens.revoke_all_for_user issue_token_pair
  login email password = do
    found_user ← attempt (Users.find_by_email email)
    elim found_user [
      | none ↦ raise invalid_credentials
      | some user ↦
          if c.check_password password user.password_hash
          then RefreshTokens.revoke_all_for_user user.id >> issue_token_pair user
          else raise invalid_credentials
    ]

  -- The part of Refresh that follows the tests
  unfoldable pub rotate : RefreshToken → Exec AuthResponse
  unfolding RefreshTokens.revoke Users.find_by_id issue_token_pair
  rotate t = do RefreshTokens.revoke t.id; user ← Users.find_by_id t.user_id; issue_token_pair user

  unfoldable pub refresh : ℕ → Exec AuthResponse
  unfolding missing_as attempt time_now RefreshTokens.find_by_hash RefreshTokens.revoke_all_for_user
      rotate
  refresh raw = do
    t ← missing_as invalid_refresh_token (RefreshTokens.find_by_hash (c.hash_token raw))
    if t.revoked
        then attempt (RefreshTokens.revoke_all_for_user t.user_id) >> raise token_theft_detected
        else (do
          now ← time_now
          if ltb t.expires_at now then raise refresh_token_expired else rotate t)

  -- No token is the empty cookie.
  unfoldable pub logout : Option ℕ → Exec (Unit {0})
  unfolding attempt RefreshTokens.find_by_hash RefreshTokens.revoke
  logout none = pure tt
  logout (some raw) = do
    stored ← attempt (RefreshTokens.find_by_hash (c.hash_token raw))
    elim stored [ none ↦ pure tt | some t ↦ RefreshTokens.revoke t.id ]

unfoldable pub get_me : ℕ → Exec UserPublic
unfolding Users.find_by_id
get_me user = do u ← Users.find_by_id user; pure (user_public u)

unfoldable pub update_me : ℕ → Option String → Option String → Exec UserPublic
unfolding missing_as Users.update
update_me user name avatar_url = missing_as user_not_found (Users.update user name avatar_url)
