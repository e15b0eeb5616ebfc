-- ===== src/Service/Passwords.antt =====
-- internal/utils/validator.go: ValidatePassword. A password is the list of its code points; the
-- tests of the package unicode are parameters.
pub mod Rules
use docflow_core.Prelude.{ℕ, ◌+◌, ◌||◌, Bool, true, false, List, [], ◌∷◌, ltb, if◌then◌else◌}

-- The bytes of a code point in UTF-8
abbrev pub rune_bytes : ℕ → ℕ
rune_bytes c = if ltb c 128 then 1 else (if ltb c 2048 then 2 else (if ltb c 65536 then 3 else 4))

-- `len(password)`
abbrev pub byte_length : List ℕ → ℕ
byte_length [] = 0
byte_length (c ∷ cs) = rune_bytes c + byte_length cs

pub data PasswordCheck : Type 0 where
  accepted too_short no_digit no_special : PasswordCheck

-- `is_special` is `unicode.IsPunct(ch) || unicode.IsSymbol(ch)`
module _ (is_digit is_special : ℕ → Bool) where
  -- One turn of the loop: a switch, so that a digit is not looked at further
  abbrev pub scan : Bool × Bool → List ℕ → Bool × Bool
  scan seen [] = seen
  scan (digit, special) (c ∷ cs) =
      scan (if is_digit c then (true, special) else (digit, special || is_special c)) cs

  abbrev pub verdict : Bool × Bool → PasswordCheck
  verdict (false, _) = PasswordCheck.no_digit
  verdict (true, false) = PasswordCheck.no_special
  verdict (true, true) = PasswordCheck.accepted

  unfoldable pub validate_password : List ℕ → PasswordCheck
  validate_password password =
      if ltb (byte_length password) 8
      then PasswordCheck.too_short
      else verdict (scan (false, false) password)
