-- ===== src/Base/Texts.antt =====
-- Texts that the program only compares (identifiers, timestamps, hashes, names): numbers in the
-- order of the texts. 0 is the empty text and 1 stands for a text of spaces alone.
use Prim.Native.Nat.{ℕ, zero, suc}
use mathlib.Core.Bool.{Bool, true, false, ◌&&◌, ◌||◌}
use mathlib.Core.Option.{Option, none, some}
use cryptox.Base.Int.{ℤ}
use mathlib.Core.List.{List, [], ◌∷◌}
use cryptox.Base.Tests.{leb, ◌==◌, if◌then◌else◌}

abbrev pub Text : Type 0
Text = ℕ

abbrev pub is_blank : Text → Bool
is_blank t = leb t 1

abbrev pub is_empty : Text → Bool
is_empty t = t == 0

-- A hexadecimal SHA-256, by its code points: /^[a-f0-9]{64}$/i.
abbrev pub is_hex : ℕ → Bool
is_hex c = (leb b'a' c && leb c b'f') || (leb b'A' c && leb c b'F') || (leb b'0' c && leb c b'9')

abbrev pub all_hex : ℕ → List ℕ → Bool
all_hex zero [] = true
all_hex zero (c ∷ cs) = false
all_hex (suc n) [] = false
all_hex (suc n) (c ∷ cs) = is_hex c && all_hex n cs

abbrev pub is_sha256 : List ℕ → Bool
is_sha256 text = all_hex 64 text

-- Date.parse and toISOString: `none` is NaN.
pub record Dates : Type 0 where
  pub parse : Text → Option ℤ
  pub to_iso : ℤ → Text

module _ {ℓ} {A : Type ℓ} where
  -- The loops of `filter`, `some` and `every`.
  abbrev pub keep : (A → Bool) → List A → List A
  keep test [] = []
  keep test (x ∷ xs) = if test x then x ∷ keep test xs else keep test xs

  abbrev pub any : (A → Bool) → List A → Bool
  any test [] = false
  any test (x ∷ xs) = test x || any test xs

  abbrev pub all : (A → Bool) → List A → Bool
  all test [] = true
  all test (x ∷ xs) = test x && all test xs

  abbrev pub find_first : (A → Bool) → List A → Option A
  find_first test [] = none
  find_first test (x ∷ xs) = if test x then some x else find_first test xs
