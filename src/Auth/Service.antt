-- ===== src/Auth/Service.antt =====
-- modules/auth/application/service.ts: the users in memory, and the operations over them.
use cryptox.Base.{
  codes, trim, Bool, true, false, if◌then◌else◌, Option, none, some, List, [], ◌∷◌, ◌++◌, any,
  find_first, lookup_by, set_by, Result, ok, err, ◌>>=◌, Text, Codes, same,
}
use cryptox.Auth.Rules.{
  AuthCode, configuration_error, is_filled, email_already_exists, invalid_credentials,
  invalid_token, normalize_email, validate_password, validate_token,
}

pub record User : Type 0 where
  pub id : Text
  pub email : Codes
  pub password_hash : Text
  pub created_at : Text

pub record Users : Type 0 where
  pub users_by_email : List User
  pub users_by_id : List User

abbrev pub has_email : Codes → User → Bool
has_email email user = same user.email email

abbrev user_id : User → Text
user_id user = user.id

unfoldable pub find_by_email : Codes → Users → Option User
find_by_email email s = find_first (has_email email) s.users_by_email

unfoldable pub find_by_id : Text → Users → Option User
find_by_id id s = lookup_by user_id id s.users_by_id

unfoldable pub insert : User → Users → Result AuthCode Users
insert user s =
    if any (has_email user.email) s.users_by_email
    then err email_already_exists
    else ok (record {
      users_by_email = s.users_by_email ++ user ∷ [];
      users_by_id = set_by user_id user s.users_by_id;
    })

-- The hasher of passwords and the codec of tokens.
pub record Ports : Type 0 where
  pub to_lower : Codes → Codes
  pub hash : Codes → Text
  pub verify : Codes → Text → Bool
  pub sign : Text → Codes
  -- The user, where the token is valid.
  pub read_token : Codes → Option Text

abbrev pub absent : Option User → Result AuthCode (Unit {0})
absent none = ok tt
absent (some user) = err email_already_exists

module _ (ports : Ports) where
  -- `register` before it waits for the repository to insert.
  unfoldable pub new_user : Codes → Codes → Text → Text → Users → Result AuthCode User
  new_user email password id now s = do
    normalized_email ← normalize_email ports.to_lower email
    normalized_password ← validate_password password
    _ ← absent (find_by_email normalized_email s)
    ok (record {
      id = id;
      email = normalized_email;
      password_hash = ports.hash normalized_password;
      created_at = now;
    })

  unfoldable pub register : Codes → Codes → Text → Text → Users → Result AuthCode Users
  register email password id now s = new_user email password id now s >>= λ user. insert user s

  -- The password is checked only where there is a user.
  unfoldable pub check_password : Option User → Codes → Result AuthCode User
  check_password none password = err invalid_credentials
  check_password (some user) password = validate_password password >>= λ valid.
      if ports.verify valid user.password_hash then ok user else err invalid_credentials

  unfoldable pub login : Codes → Codes → Users → Result AuthCode Codes
  login email password s = normalize_email ports.to_lower email >>= λ normalized.
      check_password (find_by_email normalized s) password >>= λ user. ok (ports.sign user.id)

  abbrev read_user : Option Text → Result AuthCode Text
  read_user none = err invalid_token
  read_user (some id) = ok id

  unfoldable pub verify : Codes → Result AuthCode Text
  verify token = validate_token token >>= λ valid. read_user (ports.read_token valid)

-- The secret of the tokens; without one, the tests have theirs.
unfoldable pub read_secret : Option Codes → Bool → Result AuthCode Codes
read_secret (some secret) is_test =
    if is_filled (trim secret) then ok (trim secret) else err configuration_error
read_secret none true = ok (codes "cryptox-test-only-secret")
read_secret none false = err configuration_error
