-- ===== src/Base/Doubles.antt =====
-- Finite doubles as whole multiples of 2^-1074, the least positive one.
use Prim.Native.Nat.{ℕ, ◌*◌, ◌^◌}
use mathlib.Core.Bool.{Bool}
use cryptox.Base.Int.{ℤ, pos, tmod, eqb_ℤ}

-- How many units make one.
unfoldable pub one : ℕ
one = 2 ^ 1074

abbrev pub whole : ℕ → ℤ
whole n = pos (n * one)

unfoldable pub is_integer : ℤ → Bool
is_integer v = eqb_ℤ (tmod v (pos one)) (pos 0)
