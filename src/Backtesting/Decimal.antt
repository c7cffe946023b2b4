-- ===== src/Backtesting/Decimal.antt =====
-- The bigint decimals of modules/backtesting/domain/simulator.ts. A finite JavaScript number
-- is given by the decimal that `String` prints for it: no two doubles print alike, and the
-- decimals are ordered as the doubles are.
pub mod Laws
pub mod Rounding
use cryptox.Base.{
  ℕ, zero, suc, ◌+◌, ◌-◌, ◌^◌, max, Bool, true, false, ◌||◌, ◌≡◌, if◌then◌else◌, leb, ltb, ◌==◌, ℤ,
  pos, ◌+ℤ◌, ◌*ℤ◌, neg_ℤ, tdiv, tmod, ltb_ℤ, leb_ℤ, eqb_ℤ, Result, ok, err, ◌>>=◌, eqb,
}

pub data Error : Type 0 where
  invalid_input snapshot_incomplete invalid_signal : Error

pub record Decimal : Type 0 where
  pub units : ℤ
  pub scale : ℕ

pub data Number : Type 0 where
  finite : Decimal → Number
  not_finite : Number

unfoldable pub power_of_ten : ℕ → ℤ
power_of_ten exponent = pos (10 ^ exponent)

-- The loop of `normalize`; the scale falls by one in each round.
unfoldable pub strip_zeros : ℤ → ℕ → Decimal
strip_zeros units zero = record { units = units; scale = zero }
strip_zeros units (suc scale) =
    let rest = strip_zeros (tdiv units (pos 10)) scale in
    if eqb_ℤ (tmod units (pos 10)) (pos 0)
    then rest
    else record { units = units; scale = suc scale }

unfoldable pub normalize : Decimal → Decimal
normalize value = strip_zeros value.units value.scale

unfoldable pub decimal : Number → Result Error Decimal
decimal (finite value) = ok (normalize value)
decimal not_finite = err invalid_input

unfoldable pub from_integer : ℤ → Decimal
from_integer value = record { units = value; scale = 0 }

unfoldable pub add : Decimal → Decimal → Decimal
add left right =
    let scale = max left.scale right.scale in
    normalize (record {
      units =
          left.units *ℤ power_of_ten (scale - left.scale)
          +ℤ right.units *ℤ power_of_ten (scale - right.scale);
      scale = scale;
    })

unfoldable pub subtract : Decimal → Decimal → Decimal
subtract left right = add left (record { units = neg_ℤ right.units; scale = right.scale })

unfoldable pub multiply : Decimal → Decimal → Decimal
multiply left right =
    normalize (record { units = left.units *ℤ right.units; scale = left.scale + right.scale })

unfoldable pub absolute : Decimal → Decimal
absolute value =
    if ltb_ℤ value.units (pos 0)
    then record { units = neg_ℤ value.units; scale = value.scale }
    else value

unfoldable pub rounded_division : ℤ → ℤ → Result Error ℤ
rounded_division numerator denominator =
    let quotient = tdiv numerator denominator in
    let remainder = tmod numerator denominator in
    let away =
      eqb_ℤ numerator (pos 0) || eqb (ltb_ℤ (pos 0) numerator) (ltb_ℤ (pos 0) denominator) in
    if eqb_ℤ denominator (pos 0)
    then err invalid_input
    else if ltb_ℤ ((absolute (from_integer remainder)).units *ℤ pos 2)
        (absolute (from_integer denominator)).units
    then ok quotient
    else ok (quotient +ℤ (if away then pos 1 else neg_ℤ (pos 1)))

unfoldable pub round : Decimal → ℕ → Result Error Decimal
round value scale =
    if leb value.scale scale
    then ok (record { units = value.units *ℤ power_of_ten (scale - value.scale); scale = scale })
    else do
      units ← rounded_division value.units (power_of_ten (value.scale - scale))
      ok (record { units = units; scale = scale })

-- `exponent` is `right.scale + scale - left.scale`, which may be negative.
unfoldable pub divide : Decimal → Decimal → ℕ → Result Error Decimal
divide left right scale =
    let raised = right.scale + scale in
    let numerator =
      if leb left.scale raised
      then left.units *ℤ power_of_ten (raised - left.scale)
      else left.units in
    let denominator =
      if leb left.scale raised
      then right.units
      else right.units *ℤ power_of_ten (left.scale - raised) in
    do units ← rounded_division numerator denominator; ok (record { units = units; scale = scale })

-- The order of two finite numbers.
unfoldable pub less : Decimal → Decimal → Bool
less a b = ltb_ℤ (a.units *ℤ power_of_ten b.scale) (b.units *ℤ power_of_ten a.scale)
