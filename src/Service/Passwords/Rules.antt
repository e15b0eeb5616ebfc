-- ===== src/Service/Passwords/Rules.antt =====
-- ValidatePassword in internal/utils/validator.go against the rules in its comment.
use docflow_core.Prelude.{
  ◌↔◌, ◌≤◌, ℕ, ◌≡◌, ◌∙◌, inl, inr, ◌&&◌, ◌||◌, not, Bool, true, false, List, [], ◌∷◌, ltb,
  if◌then◌else◌, arith, Bool-cases,
}
use docflow_core.Service.Passwords.{PasswordCheck, byte_length, scan, verdict, validate_password}

-- Whether a rune of the password passes the test
abbrev pub any_rune : (ℕ → Bool) → List ℕ → Bool
any_rune p [] = false
any_rune p (c ∷ cs) = p c || any_rune p cs

module _ (is_digit is_special : ℕ → Bool) where
  scan_any :
      (digit special : Bool) (cs : List ℕ)
      → scan is_digit is_special (digit, special) cs ≡ (
        digit || any_rune is_digit cs,
        special || any_rune (λ c. not (is_digit c) && is_special c) cs,
      )
  scan_any digit special [] = ground arith
  scan_any digit special (c ∷ cs) = elim (Bool-cases (is_digit c)) [
    | inl e ↦ rw e (scan_any true special cs ∙ ground arith)
    | inr e ↦ rw e (scan_any digit (special || is_special c) cs ∙ ground arith)
  ]

  -- A special character, which the switch looks at only if it is no digit
  abbrev pub special_rune : ℕ → Bool
  special_rune c = not (is_digit c) && is_special c

  exact :
      (n : ℕ) (digit special : Bool)
      → ((if ltb n 8 then PasswordCheck.too_short else verdict is_digit is_special (digit, special))
          ≡ PasswordCheck.accepted)
        ↔ ((8 ≤ n) × (digit ≡ true) × (special ≡ true))
  exact n false special = ground arith
  exact n true false = ground arith
  exact n true true = ground arith

  -- ValidatePassword accepts a password just when it has 8 bytes or more, a digit, and a
  -- punctuation character or symbol that is no digit.
  pub validate_password_exact :
      (password : List ℕ)
      → (validate_password is_digit is_special password ≡ PasswordCheck.accepted) ↔ (
          (8 ≤ byte_length password)
          × (any_rune is_digit password ≡ true)
          × (any_rune special_rune password ≡ true))
  unfolding validate_password
  validate_password_exact password =
      rw (scan_any false false password)
        (exact (byte_length password) (any_rune is_digit password) (any_rune special_rune password))
