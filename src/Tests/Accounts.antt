-- ===== src/Tests/Accounts.antt =====
-- A workspace of three with an owner, a user of it with an open session, and passwords.
use docflow_core.Prelude.{
  ◌≤◌, ◌↔◌, ℕ, ◌≡◌, refl, ◌==◌, true, false, String, none, List, [], ◌∷◌, arith, Every,
}
use docflow_core.Model.Store.{World, ok, err}
use docflow_core.Model.{Role, User, RefreshToken}
use docflow_core.Model.Error.{token_theft_detected}
use docflow_core.Exec.Ensures.{Outcome}
use docflow_core.Handler.Workspaces.{handle}
use docflow_core.Handler.Workspaces.Owner.{handle_keeps_owner}
use docflow_core.Service.Auth.{Crypto, AuthResponse, refresh, login}
use docflow_core.Service.Auth.Reuse.{reuse_is_theft}
use docflow_core.Service.Auth.Sessions.{LoggedIn, login_one_session}
use docflow_core.Service.Passwords.{PasswordCheck, validate_password, byte_length}
use docflow_core.Service.Passwords.Rules.{any_rune, special_rune, validate_password_exact}
use docflow_core.Service.Workspaces.Rules.{Request, Caller, perform, Granted}
use docflow_core.Service.Workspaces.Refines.{workspace_refines}
use docflow_core.Service.Workspaces.Owner.{IsOwnedBy}
use docflow_core.Tests.Boards.{tables, world, in_workspace}

abbrev pub user : ℕ → String → User
user id email = record {
  id = id;
  email = email;
  password_hash = "hash";
  name = "name";
  avatar_url = none;
  created_at = 0;
  updated_at = 0;
}

abbrev session : RefreshToken
session = record {
  id = 60;
  user_id = 10;
  token_hash = 500;
  expires_at = 1000;
  revoked = false;
  created_at = 0;
}

abbrev pub team : World
team = record world {
  db = record tables {
    users = user 10 "ann@docflow" ∷ user 13 "bob@docflow" ∷ [];
    workspaces =
        record { id = 7; name = "team"; owner_id = 10; created_at = 0; updated_at = 0 } ∷ [];
    workspace_members =
        in_workspace 10 Role.owner ∷ in_workspace 11 Role.admin ∷ in_workspace 12 Role.member ∷ [];
    refresh_tokens = session ∷ [];
    next_id = 70;
  };
}

abbrev ann : Caller
ann = record { user = 10; role = Role.owner }

workspace_refines_example :
    Outcome team.db team.events
      (λ _. Granted 7 ann (Request.remove 12) team.db team.events)
      (perform 7 ann (Request.remove 12) team).0
      (perform 7 ann (Request.remove 12) team).1.db
      (perform 7 ann (Request.remove 12) team).1.events
workspace_refines_example = workspace_refines 7 ann (Request.remove 12) team

team-IsOwnedBy : IsOwnedBy 7 10 team.db
team-IsOwnedBy = record {
  row = (in_workspace 10 Role.owner, refl, refl);
  alone = λ u m here high. ground arith;
}

handle_keeps_owner_example :
    IsOwnedBy 7 10 (handle (λ email. true) 7 11 (Request.remove 12) team).1.db
handle_keeps_owner_example =
    handle_keeps_owner (λ email. true) 7 10 11 (Request.remove 12) team team-IsOwnedBy (λ e. cc)

abbrev crypto : Crypto
crypto = record {
  hash_token = λ raw. raw;
  hash_password = λ password w. ok "hash";
  check_password = λ password hash. true;
  access_token = λ id email name w. ok "jwt";
  refresh_expiry = 100;
  is_digit = λ c. c == 49;
  is_special = λ c. c == 33;
}

abbrev issued : ℕ → AuthResponse
issued raw = record {
  user = record {
    id = 10;
    email = "ann@docflow";
    name = "name";
    avatar_url = none;
    created_at = 0;
  };
  access_token = "jwt";
  refresh_token = raw;
}

abbrev rotated : World
rotated = (refresh crypto 500 team).1

reuse_is_theft_example :
    ((refresh crypto 500 rotated).0 ≡ err token_theft_detected)
    × Every
        (λ t. t.user_id ≡ 10 → t.revoked ≡ true)
        (refresh crypto 500 rotated).1.db.refresh_tokens
unfolding refresh
reuse_is_theft_example = reuse_is_theft crypto 500 team rotated (issued 103) refl (λ n. refl)

abbrev logged_in : World
logged_in = (login crypto "ann@docflow" [] team).1

login_one_session_example :
    LoggedIn crypto "ann@docflow" [] team.db (issued 102) logged_in.db
    × (logged_in.events ≡ team.events)
unfolding login
login_one_session_example =
    login_one_session crypto "ann@docflow" [] team logged_in (issued 102) refl

abbrev long : List ℕ
long = 97 ∷ 97 ∷ 97 ∷ 97 ∷ 97 ∷ 97 ∷ 49 ∷ 33 ∷ []

validate_password_exact_example :
    (validate_password crypto.is_digit crypto.is_special long ≡ PasswordCheck.accepted) ↔ (
      (8 ≤ byte_length long)
      × (any_rune crypto.is_digit long ≡ true)
      × (any_rune (special_rune crypto.is_digit crypto.is_special) long ≡ true))
validate_password_exact_example = validate_password_exact crypto.is_digit crypto.is_special long
