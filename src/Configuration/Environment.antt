-- ===== src/Configuration/Environment.antt =====
-- The readers of apps/backend/src/runtime-config.ts: values, numbers, profiles and addresses of the
-- environment. A number is finite or not; a finite one is a whole multiple of 2^-1074, the least
-- positive double, and that integer stands for it.
use Prim.Native.String.{String}
use cryptox.Base.{
  trim, whole, is_integer, ℕ, ◌==◌, Bool, true, false, not, ◌&&◌, ◌||◌, if◌then◌else◌, Option, none,
  some, List, [], ◌∷◌, ◌++◌, any, ℤ, ltb_ℤ, Result, ok, err, ◌>>=◌, ◌>>◌, throw_if, Codes, codes,
  same,
}

pub record Url : Type 0 where
  pub protocol : Codes
  pub username : Codes
  pub password : Codes
  pub hostname : Codes
  pub href : Codes

-- What the code uses of JavaScript: case, Number(text) (`none` is not finite), and new URL(text),
-- which throws on a text that is none (`none`).
pub record Javascript : Type 0 where
  pub to_upper : Codes → Codes
  pub to_lower : Codes → Codes
  pub to_number : Codes → Option ℤ
  pub parse_url : Codes → Option Url

pub data ConfigError : Type 0 where
  invalid : String → ConfigError
  missing : String → ConfigError
  unknown_provider : Codes → ConfigError

abbrev pub Environment : Type 0
Environment = String → Option Codes

-- `candidate || undefined`
abbrev pub given : Codes → Option Codes
given [] = none
given (c ∷ cs) = some (c ∷ cs)

abbrev trimmed : Option Codes → Option Codes
trimmed none = none
trimmed (some s) = given (trim s)

unfoldable pub value : Environment → String → Option Codes
unfolding trim
value env key = trimmed (env key)

abbrev pub or_text : Option Codes → Codes → Codes
or_text none s = s
or_text (some t) s = t

abbrev pub or_value : Option Codes → Option Codes → Option Codes
or_value none o = o
or_value (some t) o = some t

abbrev pub is_present : Option Codes → Bool
is_present none = false
is_present (some t) = true

unfoldable pub required : Environment → String → Result ConfigError Codes
required env key = elim (value env key) [ none ↦ err (missing key) | some t ↦ ok t ]

-- Whether a number lies outside the bounds.
abbrev pub is_outside : ℤ → ℤ → ℤ → Bool
is_outside v minimum maximum = ltb_ℤ v minimum || ltb_ℤ maximum v

abbrev pub checked_integer : String → ℕ → ℕ → Option ℤ → Result ConfigError ℤ
checked_integer key minimum maximum none = err (invalid key)
checked_integer key minimum maximum (some v) =
    if not (is_integer v) || is_outside v (whole minimum) (whole maximum)
    then err (invalid key)
    else ok v

abbrev pub checked_number : String → ℤ → ℤ → Option ℤ → Result ConfigError ℤ
checked_number key minimum maximum none = err (invalid key)
checked_number key minimum maximum (some v) =
    if is_outside v minimum maximum then err (invalid key) else ok v

abbrev pub same_text : Codes → List Codes → Bool
same_text s texts = any (λ t. same t s) texts

abbrev pub with_text : Codes → List Codes → List Codes
with_text s texts = if same_text s texts then texts else texts ++ s ∷ []

-- `[...new Set(urls)]`, after those that are kept.
unfoldable pub distinct_from : List Codes → List Codes → List Codes
distinct_from kept [] = kept
distinct_from kept (s ∷ texts) = distinct_from (with_text s kept) texts

-- The first part and the rest, at commas and ends of lines.
abbrev split_at : ℕ → Codes × List Codes → Codes × List Codes
split_at c (part, parts) =
    if c == b',' || c == 13 || c == 10 then ([], part ∷ parts) else (c ∷ part, parts)

unfoldable pub split_list : Codes → Codes × List Codes
split_list [] = ([], [])
split_list (c ∷ cs) = split_at c (split_list cs)

-- The parts trimmed, without the empty ones.
abbrev add_given : Option Codes → List Codes → List Codes
add_given none parts = parts
add_given (some t) parts = t ∷ parts

unfoldable pub given_parts : List Codes → List Codes
given_parts [] = []
given_parts (part ∷ parts) = add_given (given (trim part)) (given_parts parts)

pub data RuntimeProfile : Type 0 where
  test demo development production : RuntimeProfile

module _ (js : Javascript) where
  abbrev pub numeric : Option Codes → ℤ → Option ℤ
  numeric none fallback = some fallback
  numeric (some raw) fallback = js.to_number raw

  unfoldable pub positive_integer : Environment → String → ℕ → ℕ → ℕ → Result ConfigError ℤ
  positive_integer env key fallback minimum maximum =
      checked_integer key minimum maximum (numeric (value env key) (whole fallback))

  unfoldable pub bounded_number : Environment → String → ℤ → ℤ → ℤ → Result ConfigError ℤ
  bounded_number env key fallback minimum maximum =
      checked_number key minimum maximum (numeric (value env key) fallback)

  abbrev named_profile : Codes → Result ConfigError RuntimeProfile
  named_profile s =
      if same s (codes "TEST")
      then ok test
      else if same s (codes "DEMO")
      then ok demo
      else if same s (codes "DEVELOPMENT")
      then ok development
      else if same s (codes "PRODUCTION")
      then ok production
      else err (invalid "RUNTIME_PROFILE")

  abbrev default_profile : Option Codes → RuntimeProfile
  default_profile none = development
  default_profile (some s) = if same (js.to_lower s) (codes "test") then test else development

  unfoldable pub profile_for : Environment → Result ConfigError RuntimeProfile
  profile_for env = elim (value env "RUNTIME_PROFILE") [
    | none ↦ ok (default_profile (env "NODE_ENV"))
    | some s ↦ named_profile (js.to_upper s)
  ]

  abbrev pub is_web : Url → Bool
  is_web url = same url.protocol (codes "http:") || same url.protocol (codes "https:")

  abbrev pub is_text : Codes → Bool
  is_text [] = false
  is_text (c ∷ cs) = true

  -- An address that may be crawled.
  abbrev pub is_source : Option Url → Bool
  is_source none = false
  is_source (some url) =
      is_web url && not (is_text url.username) && not (is_text url.password) && is_text url.hostname

  unfoldable pub check_urls : String → List Codes → Result ConfigError (Unit {0})
  check_urls key [] = ok tt
  check_urls key (url ∷ urls) =
      if is_source (js.parse_url url) then check_urls key urls else err (invalid key)

  abbrev pub no_urls : List Codes → Bool
  no_urls [] = true
  no_urls (url ∷ urls) = false

  unfoldable pub parse_url_list : Environment → String → Result ConfigError (List Codes)
  parse_url_list env key = do
    raw ← required env key
    throw_if (no_urls (given_parts ((split_list raw).0 ∷ (split_list raw).1))) (missing key)
    check_urls key (given_parts ((split_list raw).0 ∷ (split_list raw).1))
    ok (distinct_from [] (given_parts ((split_list raw).0 ∷ (split_list raw).1)))

  abbrev pub endpoint_of : String → Option Url → Result ConfigError (Option Codes)
  endpoint_of key none = err (invalid key)
  endpoint_of key (some url) =
      if not (is_web url) || is_text url.username || is_text url.password
      then err (invalid key)
      else ok (some url.href)

  unfoldable pub validate_endpoint : String → Option Codes → Result ConfigError (Option Codes)
  validate_endpoint key none = ok none
  validate_endpoint key (some s) = endpoint_of key (js.parse_url s)
