-- ===== src/Backtesting/Decimal/Rounding.antt =====
-- Rounding in modules/backtesting/domain/simulator.ts.
use native.Mathlib.Nat.{div-add-mod, mod-lt, div-eq_of_lt-le}
use cryptox.Base.{
  ℕ, zero, suc, ◌+◌, ◌*◌, ◌/◌, ◌%◌, ◌<◌, ◌≡◌, refl, inl, inr, Bool, true, false, arith, differ, ltb,
  Bool-cases, if◌then◌else◌, eqb_ℤ, ℤ, pos, negsuc, nat_abs, is_negative, signed, ok, err, ◌+ℤ◌,
  ◌*ℤ◌, neg_ℤ, tdiv, tmod,
}
use cryptox.Backtesting.Decimal.{invalid_input, rounded_division, absolute, from_integer}

-- The quotient of magnitudes to the nearest, halves up.
abbrev pub half_up : ℕ → ℕ → ℕ
half_up n d = (2 * n + d) / (2 * d)

half_up_step :
    (n d q r : ℕ) → n ≡ d * q + r → r < d → half_up n d ≡ (if ltb (r * 2) d then q else q + 1)
half_up_step n d q r e h = elim (Bool-cases (ltb (r * 2) d)) [
  | inl down ↦ rw down (div-eq_of_lt-le {k = q} (2 * d) (ground arith) (ground arith))
  | inr up ↦ rw up (div-eq_of_lt-le {k = q + 1} (2 * d) (ground arith) (ground arith))
]

half_up_lem :
    (n d : ℕ)
    → half_up n (suc d) ≡ (if ltb (n % suc d * 2) (suc d) then n / suc d else n / suc d + 1)
half_up_lem n d =
    half_up_step n (suc d) (n / suc d) (n % suc d) (omega (arith, div-add-mod n (suc d)))
      (mod-lt n (omega arith))

size_lem : (a : ℤ) → (absolute (from_integer a)).units ≡ pos (nat_abs a)
unfolding absolute from_integer neg_ℤ
size_lem (pos zero) = refl
size_lem (pos (suc n)) = ground arith
size_lem (negsuc n) = ground arith

double_lem : (n : ℕ) → pos n *ℤ pos 2 ≡ pos (n * 2)
unfolding ◌*ℤ◌
double_lem n = ground arith

nat_abs-signed : (b : Bool) (n : ℕ) → nat_abs (signed b n) ≡ n
nat_abs-signed false n = refl
nat_abs-signed true zero = refl
nat_abs-signed true (suc n) = refl

-- One step away from zero.
step_away :
    (b : Bool) (q : ℕ) → signed b q +ℤ (if b then neg_ℤ (pos 1) else pos 1) ≡ signed b (q + 1)
unfolding ◌+ℤ◌ neg_ℤ
step_away false q = ground arith
step_away true zero = refl
step_away true (suc q) = ground arith

-- `roundedDivision` fails on a zero divisor alone. Otherwise it is the quotient of the magnitudes
-- to the nearest integer, a half rounded up, with the sign of the exact quotient: so a half is
-- rounded away from zero.
pub rounded_division-nearest :
    (n d : ℤ)
    → rounded_division n d ≡ (
        if eqb_ℤ d (pos 0)
        then err invalid_input
        else ok (signed (differ (is_negative n) (is_negative d)) (half_up (nat_abs n) (nat_abs d))))
unfolding rounded_division tdiv tmod
rounded_division-nearest (pos n) (pos zero) = refl
rounded_division-nearest (negsuc n) (pos zero) = refl
rounded_division-nearest (pos zero) (pos (suc d)) =
    rw (size_lem, size_lem, double_lem, half_up_lem)
      (ground (arith, nat_abs-signed false (zero % suc d), step_away false (zero / suc d)))
rounded_division-nearest (pos (suc n)) (pos (suc d)) =
    rw (size_lem, size_lem, double_lem, half_up_lem)
      (ground (arith, nat_abs-signed false (suc n % suc d), step_away false (suc n / suc d)))
rounded_division-nearest (negsuc n) (pos (suc d)) =
    rw (size_lem, size_lem, double_lem, half_up_lem)
      (ground (arith, nat_abs-signed true (suc n % suc d), step_away true (suc n / suc d)))
rounded_division-nearest (pos zero) (negsuc d) =
    rw (size_lem, size_lem, double_lem, half_up_lem)
      (ground (arith, nat_abs-signed false (zero % suc d), step_away true (zero / suc d)))
rounded_division-nearest (pos (suc n)) (negsuc d) =
    rw (size_lem, size_lem, double_lem, half_up_lem)
      (ground (arith, nat_abs-signed false (suc n % suc d), step_away true (suc n / suc d)))
rounded_division-nearest (negsuc n) (negsuc d) =
    rw (size_lem, size_lem, double_lem, half_up_lem)
      (ground (arith, nat_abs-signed true (suc n % suc d), step_away false (suc n / suc d)))
