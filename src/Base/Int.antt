-- ===== src/Base/Int.antt =====
-- Signed integers over the native numbers, for JavaScript's bigint: truncated division and
-- remainder take the sign of the quotient and of the dividend.
use Prim.Native.Nat.{ℕ, zero, suc, ◌+◌, ◌-◌, ◌*◌, ◌/◌, ◌%◌, ◌≤◌, ◌<◌}
use mathlib.Core.Path.{◌≡◌, ap}
use mathlib.Core.Bool.{Bool, true, false}
use native.Mathlib.Omega.{arith}
use native.Mathlib.Nat.{div-add-mod}
use cryptox.Base.Tests.{ltb, leb, ◌==◌, if◌then◌else◌, differ}

-- `negsuc n` is -(n + 1).
pub data ℤ : Type 0 where
  pos : ℕ → ℤ
  negsuc : ℕ → ℤ

abbrev pub pos_part : ℤ → ℕ
pos_part (pos n) = n
pos_part (negsuc n) = 0

abbrev pub neg_part : ℤ → ℕ
neg_part (pos n) = 0
neg_part (negsuc n) = suc n

abbrev pub nat_abs : ℤ → ℕ
nat_abs (pos n) = n
nat_abs (negsuc n) = suc n

abbrev pub is_negative : ℤ → Bool
is_negative (pos n) = false
is_negative (negsuc n) = true

-- a - b, as an integer.
abbrev pub sub_ℕ : ℕ → ℕ → ℤ
sub_ℕ a b = if leb b a then pos (a - b) else negsuc (b - a - 1)

-- The integer of a sign and a magnitude.
abbrev pub signed : Bool → ℕ → ℤ
signed false n = pos n
signed true zero = pos zero
signed true (suc n) = negsuc n

infixl 65 ◌+ℤ◌ ◌-ℤ◌
infixl 70 ◌*ℤ◌
infix 50 ◌≤ℤ◌ ◌<ℤ◌
unfoldable pub ◌+ℤ◌ : ℤ → ℤ → ℤ
a +ℤ b = sub_ℕ (pos_part a + pos_part b) (neg_part a + neg_part b)

unfoldable pub ◌-ℤ◌ : ℤ → ℤ → ℤ
a -ℤ b = sub_ℕ (pos_part a + neg_part b) (neg_part a + pos_part b)

unfoldable pub ◌*ℤ◌ : ℤ → ℤ → ℤ
a *ℤ b =
    sub_ℕ (pos_part a * pos_part b + neg_part a * neg_part b)
      (pos_part a * neg_part b + neg_part a * pos_part b)

unfoldable pub neg_ℤ : ℤ → ℤ
neg_ℤ a = sub_ℕ (neg_part a) (pos_part a)

unfoldable pub tdiv : ℤ → ℤ → ℤ
tdiv a b = signed (differ (is_negative a) (is_negative b)) (nat_abs a / nat_abs b)

unfoldable pub tmod : ℤ → ℤ → ℤ
tmod a b = signed (is_negative a) (nat_abs a % nat_abs b)

abbrev pub ◌≤ℤ◌ : ℤ → ℤ → Type 0
a ≤ℤ b = pos_part a + neg_part b ≤ pos_part b + neg_part a

abbrev pub ◌<ℤ◌ : ℤ → ℤ → Type 0
a <ℤ b = pos_part a + neg_part b < pos_part b + neg_part a

abbrev pub ltb_ℤ : ℤ → ℤ → Bool
ltb_ℤ a b = ltb (pos_part a + neg_part b) (pos_part b + neg_part a)

abbrev pub leb_ℤ : ℤ → ℤ → Bool
leb_ℤ a b = leb (pos_part a + neg_part b) (pos_part b + neg_part a)

abbrev pub eqb_ℤ : ℤ → ℤ → Bool
eqb_ℤ a b = (pos_part a + neg_part b) == (pos_part b + neg_part a)

pub +ℤ_parts :
    (a b : ℤ)
    → pos_part (a +ℤ b) + neg_part a + neg_part b ≡ neg_part (a +ℤ b) + pos_part a + pos_part b
unfolding ◌+ℤ◌
+ℤ_parts a b = ground arith

pub -ℤ_parts :
    (a b : ℤ)
    → pos_part (a -ℤ b) + neg_part a + pos_part b ≡ neg_part (a -ℤ b) + pos_part a + neg_part b
unfolding ◌-ℤ◌
-ℤ_parts a b = ground arith

pub neg_ℤ_parts : (a : ℤ) → pos_part (neg_ℤ a) + pos_part a ≡ neg_part (neg_ℤ a) + neg_part a
unfolding neg_ℤ
neg_ℤ_parts a = ground arith

pub *ℤ_parts :
    (a b : ℤ)
    → pos_part (a *ℤ b) + pos_part a * neg_part b + neg_part a * pos_part b
      ≡ neg_part (a *ℤ b) + pos_part a * pos_part b + neg_part a * neg_part b
unfolding ◌*ℤ◌
*ℤ_parts a b = ground arith

pub eq_of_parts : (a b : ℤ) → pos_part a + neg_part b ≡ pos_part b + neg_part a → a ≡ b
eq_of_parts a b h = ground arith

pub ruleset int_laws = (arith, +ℤ_parts, -ℤ_parts, neg_ℤ_parts, eq_of_parts)

pub +ℤ-neg_ℤ : (a b : ℤ) → a +ℤ neg_ℤ b ≡ a -ℤ b
+ℤ-neg_ℤ a b = omega int_laws

pub *ℤ-one : (a : ℤ) → a *ℤ pos 1 ≡ a
*ℤ-one a = omega (arith, *ℤ_parts a (pos 1), eq_of_parts)

pos_part-*ℤ : (a b : ℤ) → pos_part (a *ℤ b) ≡ pos_part a * pos_part b + neg_part a * neg_part b
unfolding ◌*ℤ◌
pos_part-*ℤ a b = ground arith

neg_part-*ℤ : (a b : ℤ) → neg_part (a *ℤ b) ≡ pos_part a * neg_part b + neg_part a * pos_part b
unfolding ◌*ℤ◌
neg_part-*ℤ a b = ground arith

ruleset product_parts = (pos_part-*ℤ, neg_part-*ℤ)

pub *ℤ_assoc : (a b c : ℤ) → a *ℤ b *ℤ c ≡ a *ℤ (b *ℤ c)
*ℤ_assoc a b c = eq_of_parts _ _ (simp product_parts (omega arith))

pub *ℤ_comm : (a b : ℤ) → a *ℤ b ≡ b *ℤ a
*ℤ_comm a b = eq_of_parts _ _ (simp product_parts (omega arith))

pub pos-*ℤ : (m n : ℕ) → pos m *ℤ pos n ≡ pos (m * n)
pos-*ℤ m n = eq_of_parts _ _ (simp product_parts (omega arith))

-- A number with no remainder is a multiple of its quotient.
pub tdiv-tmod-zero :
    (a : ℤ) (n : ℕ) → eqb_ℤ (tmod a (pos n)) (pos 0) ≡ true → tdiv a (pos n) *ℤ pos n ≡ a
unfolding tdiv tmod ◌*ℤ◌
tdiv-tmod-zero (pos m) n h = ground (arith, div-add-mod m n)
tdiv-tmod-zero (negsuc m) n h = ground (arith, div-add-mod (suc m) n)

pub +ℤ-*ℤ : (a b c : ℤ) → (a +ℤ b) *ℤ c ≡ a *ℤ c +ℤ b *ℤ c
+ℤ-*ℤ a b c = eq_of_parts _ _ (
    simp product_parts (
      omega (
        arith,
        simp product_parts at (+ℤ_parts (a *ℤ c) (b *ℤ c)),
        ap (λ (t : ℕ). t * pos_part c) (+ℤ_parts a b),
        ap (λ (t : ℕ). t * neg_part c) (+ℤ_parts a b),
      )))

pub neg_ℤ-*ℤ : (a c : ℤ) → neg_ℤ a *ℤ c ≡ neg_ℤ (a *ℤ c)
neg_ℤ-*ℤ a c = eq_of_parts _ _ (
    simp product_parts (
      omega (
        arith,
        simp product_parts at (neg_ℤ_parts (a *ℤ c)),
        ap (λ (t : ℕ). t * pos_part c) (neg_ℤ_parts a),
        ap (λ (t : ℕ). t * neg_part c) (neg_ℤ_parts a),
      )))

pub +ℤ_assoc : (a b c : ℤ) → a +ℤ b +ℤ c ≡ a +ℤ (b +ℤ c)
+ℤ_assoc a b c = omega int_laws

pub +ℤ-zero : (a : ℤ) → a +ℤ pos 0 ≡ a
+ℤ-zero a = omega int_laws
