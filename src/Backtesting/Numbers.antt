-- ===== src/Backtesting/Numbers.antt =====
-- The comparisons of JavaScript numbers that modules/backtesting/domain/simulator.ts makes.
use cryptox.Base.{ℕ, zero, Bool, false, not, if◌then◌else◌, Option, none, some, ℤ, pos}
use cryptox.Backtesting.Decimal.{Decimal, Number, finite, not_finite, normalize, less}

abbrev pub integer : ℕ → Decimal
integer n = record { units = pos n; scale = 0 }

-- A finite number above a whole number, and one not below it.
unfoldable pub is_above : ℕ → Number → Bool
is_above n (finite d) = less (integer n) d
is_above n not_finite = false

unfoldable pub is_at_least : ℕ → Number → Bool
is_at_least n (finite d) = not (less d (integer n))
is_at_least n not_finite = false

unfoldable pub is_below : ℕ → Number → Bool
is_below n (finite d) = less d (integer n)
is_below n not_finite = false

-- `a < b` on numbers that have been checked to be finite.
unfoldable pub number_less : Number → Number → Bool
number_less (finite a) (finite b) = less a b
number_less (finite a) not_finite = false
number_less not_finite b = false

unfoldable pub number_max : Number → Number → Number
unfolding number_less
number_max a b = if number_less a b then b else a

unfoldable pub number_min : Number → Number → Number
unfolding number_less
number_min a b = if number_less b a then b else a

-- `Number.isInteger(value) && value >= 0`, with the value.
abbrev whole_units : ℤ → ℕ → Option ℕ
whole_units (pos n) zero = some n
whole_units _ _ = none

unfoldable pub whole : Number → Option ℕ
whole not_finite = none
whole (finite d) = whole_units (normalize d).units (normalize d).scale
