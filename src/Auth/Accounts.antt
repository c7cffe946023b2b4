-- ===== src/Auth/Accounts.antt =====
-- Users that have registered, whoever registers after them: modules/auth/application/service.ts.
use cryptox.Base.{
  ◌≡◌, refl, ◌∙◌, ap, arith, Bool, true, false, some, List, [], ◌∷◌, ◌++◌, any, find_first,
  no_clash, no_clash-snoc, ok, err, ◌>>=◌, >>=-eq-ok, Text, Codes, same, same_refl, same_comm,
}
use cryptox.Auth.Rules.{email_already_exists, normalize_email, validate_password}
use cryptox.Auth.Service.{
  User, Users, has_email, find_by_email, insert, Ports, absent, new_user, register, check_password,
  login,
}

-- Other users that are inserted, also by registrations that began before.
pub data Inserts : Users → Users → Type 0 where
  here : {s : Users} → Inserts s s
  next : {s t u : Users} (user : User) → insert user s ≡ ok t → Inserts t u → Inserts s u

abbrev pub same_email : User → User → Bool
same_email a b = same b.email a.email

insert_lem :
    (user : User) (s t : Users)
    → insert user s ≡ ok t
    → (any (has_email user.email) s.users_by_email ≡ false)
      × (t.users_by_email ≡ s.users_by_email ++ user ∷ [])
unfolding insert
insert_lem user s t h = (ground arith, ground arith)

find_first-append :
    (test : User → Bool) (xs ys : List User) (u : User)
    → find_first test xs ≡ some u
    → find_first test (xs ++ ys) ≡ some u
find_first-append test [] ys u h = absurd (ground arith)
find_first-append test (x ∷ xs) ys u h = ground (arith, find_first-append test xs ys u)

find_first-snoc :
    (test : User → Bool) (xs : List User) (u : User)
    → any test xs ≡ false
    → test u ≡ true
    → find_first test (xs ++ u ∷ []) ≡ some u
find_first-snoc test [] u h k = ground arith
find_first-snoc test (x ∷ xs) u h k = ground (arith, find_first-snoc test xs u)

Inserts-find :
    (email : Codes) (u : User) {s t : Users}
    → Inserts s t
    → find_by_email email s ≡ some u
    → find_by_email email t ≡ some u
unfolding find_by_email
Inserts-find email u here found = found
Inserts-find email u (next {s} {t = m} user h rest) found = Inserts-find email u rest (
    rw (insert_lem user s m h).1
      (find_first-append (has_email email) s.users_by_email (user ∷ []) u found))

insert-distinct :
    (user : User) (s t : Users)
    → insert user s ≡ ok t
    → no_clash same_email s.users_by_email ≡ true
    → no_clash same_email t.users_by_email ≡ true
insert-distinct user s t h distinct = rw (insert_lem user s t h).1 (
    no_clash-snoc same_email s.users_by_email user (λ x. same_comm user.email x.email) distinct
      (insert_lem user s t h).0)

Inserts-distinct :
    {s t : Users}
    → Inserts s t
    → no_clash same_email s.users_by_email ≡ true
    → no_clash same_email t.users_by_email ≡ true
Inserts-distinct here distinct = distinct
Inserts-distinct (next {s} {t = m} user h rest) distinct =
    Inserts-distinct rest (insert-distinct user s m h distinct)

found_after :
    (user : User) (s t : Users) → insert user s ≡ ok t → find_by_email user.email t ≡ some user
unfolding find_by_email
found_after user s t h = rw (insert_lem user s t h).1 (
    find_first-snoc (has_email user.email) s.users_by_email user (insert_lem user s t h).0
      (same_refl user.email))

validate_password_lem :
    (password valid : Codes) → validate_password password ≡ ok valid → valid ≡ password
unfolding validate_password
validate_password_lem password valid h = ground arith

-- What a registration inserts.
abbrev IsFor : Ports → Codes → Text → User → Type 0
IsFor ports password id user =
    (user.id ≡ id)
    × (user.password_hash ≡ ports.hash password)
    × (validate_password password ≡ ok password)

module _ (ports : Ports) (email password : Codes) (id now : Text) (s : Users) where
  new_user_lem :
      (user : User)
      → new_user ports email password id now s ≡ ok user
      → (normalize_email ports.to_lower email ≡ ok user.email) × IsFor ports password id user
  unfolding new_user
  new_user_lem user h =
      let (normalized, normal, h1) = >>=-eq-ok (normalize_email ports.to_lower email) _ h in
      let (valid, checked, h2) = >>=-eq-ok (validate_password password) _ h1 in
      let (u, is_absent, h3) = >>=-eq-ok (absent (find_by_email normalized s)) _ h2 in
      let same_password = validate_password_lem password valid checked in
      (
        normal ∙ ap ok (ground arith),
        (ground arith, ground (arith, same_password), checked ∙ ap ok same_password),
      )

login_found :
    (ports : Ports) (email password : Codes) (id : Text) (s : Users) (user : User)
    → ports.verify password (ports.hash password) ≡ true
    → normalize_email ports.to_lower email ≡ ok user.email
    → IsFor ports password id user
    → find_by_email user.email s ≡ some user
    → login ports email password s ≡ ok (ports.sign id)
unfolding login check_password ◌>>=◌
login_found ports email password id s user verifies normal is_for found =
    rw (normal, found, is_for.2, is_for.1, verifies, is_for.0, login, check_password) refl

register_found :
    (ports : Ports) (email password : Codes) (id now : Text) (s : Users) (user : User)
    → normalize_email ports.to_lower email ≡ ok user.email
    → validate_password password ≡ ok password
    → find_by_email user.email s ≡ some user
    → register ports email password id now s ≡ err email_already_exists
unfolding register new_user ◌>>=◌
register_found ports email password id now s user normal checked found =
    rw (normal, checked, found, register, new_user) refl

-- Let a password be verified against its hash, and no two users have one email. Then whoever has registered
-- logs in with the same email and password and gets a token of their id, and cannot register once
-- more, whatever users are inserted in between; and no two users come to have one email.
pub register-login :
    (ports : Ports) (email password : Codes) (id now id' now' : Text) (s t u : Users)
    → ports.verify password (ports.hash password) ≡ true
    → no_clash same_email s.users_by_email ≡ true
    → register ports email password id now s ≡ ok t
    → Inserts t u
    → (login ports email password u ≡ ok (ports.sign id))
      × (register ports email password id' now' u ≡ err email_already_exists)
      × (no_clash same_email u.users_by_email ≡ true)
unfolding register
register-login ports email password id now id' now' s t u verifies distinct h later =
    let (user, made, inserts) = >>=-eq-ok (new_user ports email password id now s) _ h in
    let (normal, is_for) = new_user_lem ports email password id now s user made in
    let found = Inserts-find user.email user later (found_after user s t inserts) in
    (
      login_found ports email password id u user verifies normal is_for found,
      register_found ports email password id' now' u user normal is_for.2 found,
      Inserts-distinct later (insert-distinct user s t inserts distinct),
    )
