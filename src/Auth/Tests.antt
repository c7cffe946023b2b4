-- ===== src/Auth/Tests.antt =====
-- A user that registers and logs in, and the theorem at that user.
use cryptox.Base.{
  ◌==◌, ◌≡◌, refl, true, false, some, [], ◌∷◌, length, no_clash, ok, err, ◌>>=◌, Text, Codes, codes,
  trim, set_by,
}
use cryptox.Auth.Rules.{
  configuration_error, email_already_exists, invalid_credentials, is_domain, is_email,
  normalize_email, validate_password, validate_token,
}
use cryptox.Auth.Service.{
  User, Users, find_by_email, insert, Ports, new_user, register, check_password, login, verify,
  read_secret,
}
use cryptox.Auth.Accounts.{here, next, same_email, register-login}

-- The length of a password in place of its hash, and one code for a token.
abbrev ports : Ports
ports = record {
  to_lower = λ s. s;
  hash = λ password. length password;
  verify = λ password hash. length password == hash;
  sign = λ id. id ∷ [];
  read_token = λ token. some 7;
}

abbrev no_users : Users
no_users = record { users_by_email = []; users_by_id = [] }

abbrev user : Text → Codes → User
user id email = record { id = id; email = email; password_hash = 10; created_at = 9 }

abbrev one_user : Users
one_user = record {
  users_by_email = user 7 (codes "a@b.example") ∷ [];
  users_by_id = user 7 (codes "a@b.example") ∷ [];
}

abbrev two_users : Users
two_users = record {
  users_by_email = user 7 (codes "a@b.example") ∷ user 8 (codes "c@b.example") ∷ [];
  users_by_id = user 7 (codes "a@b.example") ∷ user 8 (codes "c@b.example") ∷ [];
}

patterns :
    (is_email (codes "a@b.c") ≡ true)
    × (is_email (codes "a@b@b.c") ≡ false)
    × (is_email (codes "a@.c") ≡ false)
    × (is_email (codes "a@b.c.") ≡ true)
    × (is_email (codes "a@b.") ≡ false)
unfolding is_email is_domain
patterns = (refl, refl, refl, refl, refl)

registers : register ports (codes " a@b.example") (codes "0123456789") 7 9 no_users ≡ ok one_user
unfolding register new_user normalize_email is_email is_domain trim validate_password find_by_email
    insert set_by ◌>>=◌
registers = refl

second : insert (user 8 (codes "c@b.example")) one_user ≡ ok two_users
unfolding insert set_by
second = refl

unknown_user : login ports (codes "d@b.example") (codes "short") two_users ≡ err invalid_credentials
unfolding login check_password normalize_email is_email is_domain trim find_by_email ◌>>=◌
unknown_user = refl

tokens : verify ports (codes " t ") ≡ ok 7
unfolding verify validate_token trim ◌>>=◌
tokens = refl

blank_secret : read_secret (some (codes "  ")) true ≡ err configuration_error
unfolding read_secret trim
blank_secret = refl

register-login_example :
    (login ports (codes " a@b.example") (codes "0123456789") two_users ≡ ok (7 ∷ []))
    × (register ports (codes " a@b.example") (codes "0123456789") 70 90 two_users
        ≡ err email_already_exists)
    × (no_clash same_email two_users.users_by_email ≡ true)
register-login_example =
    register-login ports (codes " a@b.example") (codes "0123456789") 7 9 70 90 no_users one_user
      two_users refl refl registers (next (user 8 (codes "c@b.example")) second here)
