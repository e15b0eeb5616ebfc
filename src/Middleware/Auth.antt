-- ===== src/Middleware/Auth.antt =====
-- internal/utils/jwt.go and internal/middleware/auth.go: the tokens and the middleware of all
-- protected routes.
use docflow_core.Prelude.{ℕ, String, Bool, true, false, same_text, if◌then◌else◌}

-- The `token_type` strings
pub data TokenType : Type 0 where
  access refresh document : TokenType

abbrev pub is_access : TokenType → Bool
is_access TokenType.access = true
is_access _ = false

abbrev pub is_document : TokenType → Bool
is_document TokenType.document = true
is_document _ = false

pub record Claims : Type 0 where
  pub user_id : String
  pub email : String
  pub name : String
  pub token_type : TokenType
  pub document_id : String
  pub color : String
  pub expires_at : ℕ

-- What the library makes of a token: its claims, the error for an expired one, another error
pub data Parsed : Type 0 where
  valid : Claims → Parsed
  expired malformed : Parsed

-- The JWT library: `SignedString` and `ParseWithClaims`, with a secret, at a time
pub record Jwt (T : Type 0) : Type 0 where
  pub sign : Claims → String → T
  pub parse : T → String → ℕ → Parsed

pub data Refusal : Type 0 where
  missing_token invalid_token token_expired board_access_denied : Refusal

-- What is known of the caller afterwards, or the code of the answer
pub data Admission : Type 0 where
  admitted : Claims → Admission
  refused : Refusal → Admission

-- The Authorization header, split at its first space
pub data Header (T : Type 0) : Type 0 where
  missing unsplit : Header T
  parts : String → T → Header T

abbrev pub access_claims : String → String → String → ℕ → Claims
access_claims user email name expires_at = record {
  user_id = user;
  email = email;
  name = name;
  token_type = TokenType.access;
  document_id = "";
  color = "";
  expires_at = expires_at;
}

abbrev pub document_claims : String → String → String → ℕ → Claims
document_claims user scope color expires_at = record {
  user_id = user;
  email = "";
  name = "";
  token_type = TokenType.document;
  document_id = scope;
  color = color;
  expires_at = expires_at;
}

module _ {T : Type 0} (jwt : Jwt T) where
  unfoldable pub generate_access_token : String → String → String → String → ℕ → T
  generate_access_token user email name secret expires_at =
      jwt.sign (access_claims user email name expires_at) secret

  unfoldable pub generate_document_token : String → String → String → String → ℕ → T
  generate_document_token user scope color secret expires_at =
      jwt.sign (document_claims user scope color expires_at) secret

  -- ValidateToken, with `then` for what is done with the claims, and the code for an expired token
  unfoldable pub validate_token : T → String → ℕ → Refusal → (Claims → Admission) → Admission
  validate_token token secret now late next = elim (jwt.parse token secret now) [
    | Parsed.valid c ↦ next c
    | Parsed.expired ↦ Admission.refused late
    | Parsed.malformed ↦ Admission.refused Refusal.invalid_token
  ]

  -- Auth, up to `c.Next()`
  unfoldable pub auth : Header T → String → ℕ → Admission
  unfolding validate_token
  auth Header.missing secret now = Admission.refused Refusal.missing_token
  auth Header.unsplit secret now = Admission.refused Refusal.invalid_token
  auth (Header.parts scheme token) secret now =
      if same_text scheme "Bearer"
      then validate_token token secret now Refusal.token_expired (λ c.
        if is_access c.token_type
        then Admission.admitted c
        else Admission.refused Refusal.invalid_token)
      else Admission.refused Refusal.invalid_token
