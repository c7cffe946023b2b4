-- ===== src/Auth/Rules.antt =====
-- modules/auth/domain/rules.ts.
use cryptox.Base.{
  ℕ, ◌==◌, leb, Bool, true, false, not, ◌&&◌, ◌||◌, if◌then◌else◌, [], ◌∷◌, length, all, Result, ok,
  err, Codes, trim, is_space,
}

pub data AuthCode : Type 0 where
  configuration_error email_already_exists invalid_credentials invalid_token : AuthCode
  validation_error : AuthCode

-- `[^\s@]`
abbrev pub is_part : ℕ → Bool
is_part c = not (is_space c) && not (c == b'@')

abbrev pub is_filled : Codes → Bool
is_filled [] = false
is_filled (c ∷ cs) = true

abbrev pub dot_follows : Codes → Bool
dot_follows [] = false
dot_follows (c ∷ cs) = c == b'.' && is_filled cs && all is_part cs

-- `[^\s@]+\.[^\s@]+`
unfoldable pub is_domain : Codes → Bool
is_domain [] = false
is_domain (c ∷ cs) = is_part c && (dot_follows cs || is_domain cs)

abbrev pub at_follows : Codes → Bool
at_follows [] = false
at_follows (c ∷ cs) = c == b'@' && is_domain cs

-- `emailPattern`
unfoldable pub is_email : Codes → Bool
is_email [] = false
is_email (c ∷ cs) = is_part c && (at_follows cs || is_email cs)

unfoldable pub normalize_email : (Codes → Codes) → Codes → Result AuthCode Codes
normalize_email to_lower email =
    if not (is_email (to_lower (trim email))) || not (leb (length (to_lower (trim email))) 254)
    then err validation_error
    else ok (to_lower (trim email))

unfoldable pub validate_password : Codes → Result AuthCode Codes
validate_password password =
    if not (leb 8 (length password)) || not (leb (length password) 128)
    then err validation_error
    else ok password

unfoldable pub validate_token : Codes → Result AuthCode Codes
validate_token token = if is_filled (trim token) then ok (trim token) else err invalid_token
