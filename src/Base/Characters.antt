-- ===== src/Base/Characters.antt =====
-- Texts that the program reads inside or prints, as their UTF-16 code units, and the decimal
-- printing of a natural number.
use Prim.Native.Nat.{ℕ, zero, suc, ◌+◌, ◌*◌, ◌-◌, ◌/◌, ◌%◌, ◌<◌}
use Prim.Native.Char.{code}
use Prim.Native.String.{String}
use mathlib.Core.Path.{◌≡◌, refl, ap, ◌∙◌}
use mathlib.Core.Bool.{Bool, true, false, ◌&&◌, ◌||◌}
use mathlib.Core.Logic.{inl, inr}
use mathlib.Core.List.{List, [], ◌∷◌, ◌++◌}
use mathlib.Core.Option.{Option, none, some}
use native.Mathlib.Omega.{arith}
use cryptox.Base.Tests.{ltb, leb, ◌==◌, if◌then◌else◌, Bool-cases}

abbrev pub Codes : Type 0
Codes = List ℕ

abbrev pub codes : String → Codes
codes String.[] = []
codes (String.◌∷◌ c s) = code c ∷ codes s

abbrev pub same : Codes → Codes → Bool
same [] [] = true
same [] (d ∷ ds) = false
same (c ∷ cs) [] = false
same (c ∷ cs) (d ∷ ds) = (c == d) && same cs ds

pub same_refl : (s : Codes) → same s s ≡ true
same_refl [] = refl
same_refl (c ∷ cs) = ground (arith, same_refl cs)

pub same_comm : (s t : Codes) → same s t ≡ same t s
same_comm [] [] = refl
same_comm [] (d ∷ ds) = refl
same_comm (c ∷ cs) [] = refl
same_comm (c ∷ cs) (d ∷ ds) = ground (arith, same_comm cs ds)

pub eq_of_same : (s t : Codes) → same s t ≡ true → s ≡ t
eq_of_same [] [] h = refl
eq_of_same [] (d ∷ ds) h = cc
eq_of_same (c ∷ cs) [] h = cc
eq_of_same (c ∷ cs) (d ∷ ds) h = ground (arith, eq_of_same cs ds)

-- What stands after the prefix, where the text has it.
unfoldable pub strip : Codes → Codes → Option Codes
strip [] s = some s
strip (c ∷ cs) [] = none
strip (c ∷ cs) (d ∷ ds) = if c == d then strip cs ds else none

pub strip-append : (p s : Codes) → strip p (p ++ s) ≡ some s
unfolding strip
strip-append [] s = refl
strip-append (c ∷ cs) s = ground (arith, strip-append cs s)

abbrev pub is_digit : ℕ → Bool
is_digit c = leb b'0' c && leb c b'9'

abbrev pub is_positive_digit : ℕ → Bool
is_positive_digit c = leb b'1' c && leb c b'9'

abbrev pub all_digits : Codes → Bool
all_digits [] = true
all_digits (c ∷ cs) = is_digit c && all_digits cs

-- [1-9][0-9]*
abbrev pub is_numeral : Codes → Bool
is_numeral [] = false
is_numeral (c ∷ cs) = is_positive_digit c && all_digits cs

-- The decimal digits of a number before those that are printed, on fuel.
unfoldable pub print_before : ℕ → ℕ → Codes → Codes
print_before zero n cs = cs
print_before (suc fuel) n cs =
    let rest = print_before fuel (n / 10) ((b'0' + n % 10) ∷ cs) in
    if ltb n 10 then (b'0' + n) ∷ cs else rest

unfoldable pub print : ℕ → Codes
unfolding print_before
print n = print_before (suc n) n []

unfoldable pub read_after : ℕ → Codes → ℕ
read_after n [] = n
read_after n (c ∷ cs) = read_after (n * 10 + (c - b'0')) cs

read_after-print_before :
    (fuel n : ℕ) (cs : Codes) → n < fuel → read_after 0 (print_before fuel n cs) ≡ read_after n cs
unfolding print_before read_after
read_after-print_before zero n cs h = elim h [ ]
read_after-print_before (suc fuel) n cs h = elim (Bool-cases (ltb n 10)) [
  | inl small ↦ rw small (ap (λ (k : ℕ). read_after k cs) (omega arith))
  | inr large ↦ rw large (
      read_after-print_before fuel (n / 10) ((b'0' + n % 10) ∷ cs) (ground arith)
      ∙ ap (λ (k : ℕ). read_after k cs) (omega arith))
]

-- A printed number reads as itself, so that different numbers are printed differently.
pub read_after-print : (n : ℕ) → read_after 0 (print n) ≡ n
unfolding print read_after
read_after-print n = read_after-print_before (suc n) n [] (omega arith)

print_before-is_numeral :
    (fuel n : ℕ) (cs : Codes)
    → n < fuel
    → 0 < n
    → all_digits cs ≡ true
    → is_numeral (print_before fuel n cs) ≡ true
unfolding print_before
print_before-is_numeral zero n cs h p v = elim h [ ]
print_before-is_numeral (suc fuel) n cs h p v = elim (Bool-cases (ltb n 10)) [
  | inl small ↦ rw small (ground arith)
  | inr large ↦ rw large (
      print_before-is_numeral fuel (n / 10) ((b'0' + n % 10) ∷ cs) (ground arith) (ground arith)
        (ground arith))
]

pub print-is_numeral : (n : ℕ) → 0 < n → is_numeral (print n) ≡ true
unfolding print
print-is_numeral n p = print_before-is_numeral (suc n) n [] (omega arith) p refl

-- `String.prototype.trim`.
abbrev pub is_space : ℕ → Bool
is_space c =
    (leb 9 c && leb c 13)
    || c == 32
    || c == 0xa0
    || c == 0x1680
    || (leb 0x2000 c && leb c 0x200a)
    || c == 0x2028
    || c == 0x2029
    || c == 0x202f
    || c == 0x205f
    || c == 0x3000
    || c == 0xfeff

abbrev trim_start : Codes → Codes
trim_start [] = []
trim_start (c ∷ cs) = if is_space c then trim_start cs else c ∷ cs

abbrev prepend_unless_blank : ℕ → Codes → Codes
prepend_unless_blank c [] = if is_space c then [] else c ∷ []
prepend_unless_blank c (d ∷ ds) = c ∷ d ∷ ds

abbrev trim_end : Codes → Codes
trim_end [] = []
trim_end (c ∷ cs) = prepend_unless_blank c (trim_end cs)

unfoldable pub trim : Codes → Codes
trim s = trim_end (trim_start s)
