-- ===== src/Backtesting/Decimal/Laws.antt =====
-- Decimals as numbers: what each operation of modules/backtesting/domain/simulator.ts keeps.
use Prim.Native.Nat.pow
use native.Mathlib.Nat.{pow-suc}
use mathlib.Core.Path.{ap₂}
use cryptox.Base.{
  ℕ, zero, suc, ◌+◌, ◌-◌, ◌*◌, ◌^◌, ◌≤◌, max, ◌≡◌, ◌⊎◌, refl, sym, ap, ◌∙◌, inl, inr, true, false,
  arith, Bool-cases, ℤ, pos, ◌+ℤ◌, ◌-ℤ◌, ◌*ℤ◌, neg_ℤ, tdiv, tmod, eqb_ℤ, ok, *ℤ_assoc, pos-*ℤ,
  tdiv-tmod-zero, *ℤ-one, +ℤ-neg_ℤ, +ℤ-*ℤ, neg_ℤ-*ℤ,
}
use cryptox.Backtesting.Decimal.{
  Decimal, power_of_ten, strip_zeros, normalize, add, subtract, round,
}

-- The units of a decimal at a finer scale.
abbrev pub units_at : ℕ → Decimal → ℤ
units_at k d = d.units *ℤ power_of_ten (k - d.scale)

power_of_ten-suc : (k : ℕ) → power_of_ten (suc k) ≡ power_of_ten k *ℤ pos 10
unfolding power_of_ten
power_of_ten-suc k = rw pos-*ℤ (ap pos (pow-suc 10 k))

power_of_ten-zero : (a : ℤ) → a *ℤ power_of_ten 0 ≡ a
unfolding power_of_ten
power_of_ten-zero a = *ℤ-one a

pow-add : (b m n : ℕ) → b ^ (m + n) ≡ b ^ m * b ^ n
pow-add b m zero = let e : m + 0 ≡ m = omega arith in rw (e, pow.zero) (omega arith)
pow-add b m (suc n) =
    let e : m + suc n ≡ suc (m + n) = omega arith in
    rw (e, pow-suc b (m + n), pow-suc b n, pow-add b m n) (omega arith)

power_of_ten-add : (m n : ℕ) → power_of_ten (m + n) ≡ power_of_ten m *ℤ power_of_ten n
unfolding power_of_ten
power_of_ten-add m n = rw (pos-*ℤ, pow-add 10 m n)

-- From one scale to a finer one.
units_at_finer :
    (m k : ℕ) (d : Decimal)
    → d.scale ≤ m
    → m ≤ k
    → units_at k d ≡ units_at m d *ℤ power_of_ten (k - m)
units_at_finer m k d h g =
    rw
      (
        *ℤ_assoc d.units (power_of_ten (m - d.scale)) (power_of_ten (k - m)),
        ← power_of_ten-add (m - d.scale) (k - m),
      )
      (ap (λ e. d.units *ℤ power_of_ten e) (omega arith))

pub units_at_self : (d : Decimal) → units_at d.scale d ≡ d.units
units_at_self d = ap (λ e. d.units *ℤ power_of_ten e) (omega arith) ∙ power_of_ten-zero d.units

-- `d` is `units` at `scale`, written with no zero at its end that it could drop.
pub record Strips (units : ℤ) (scale : ℕ) (d : Decimal) : Type 0 where
  pub shorter : d.scale ≤ scale
  pub same : units_at scale d ≡ units
  pub short : (d.scale ≡ 0) ⊎ (eqb_ℤ (tmod d.units (pos 10)) (pos 0) ≡ false)

one_round :
    (units : ℤ) (scale : ℕ) (d : Decimal)
    → d.scale ≤ scale
    → units_at scale d ≡ tdiv units (pos 10)
    → eqb_ℤ (tmod units (pos 10)) (pos 0) ≡ true
    → units_at (suc scale) d ≡ units
unfolding power_of_ten
one_round units scale d h e drops =
    let one : suc scale - scale ≡ 1 = omega arith in
    units_at_finer scale (suc scale) d h (omega arith)
    ∙ (ap (λ u. u *ℤ power_of_ten (suc scale - scale)) e
        ∙ (ap (λ k. tdiv units (pos 10) *ℤ power_of_ten k) one ∙ tdiv-tmod-zero units 10 drops))

strip_zeros-Strips : (units : ℤ) (scale : ℕ) → Strips units scale (strip_zeros units scale)
unfolding strip_zeros
strip_zeros-Strips units zero = record {
  shorter = omega arith;
  same = power_of_ten-zero units;
  short = inl refl;
}
strip_zeros-Strips units (suc scale) = elim (Bool-cases (eqb_ℤ (tmod units (pos 10)) (pos 0))) [
  | inl drops ↦ rw drops (
      let s = strip_zeros-Strips (tdiv units (pos 10)) scale in
      record {
        shorter = omega (arith, s.shorter);
        same =
            one_round units scale (strip_zeros (tdiv units (pos 10)) scale) s.shorter s.same drops;
        short = s.short;
      })
  | inr keeps ↦ rw keeps (record {
    shorter = omega arith;
    same = units_at_self (record { units = units; scale = suc scale });
    short = inr keeps;
  })
]

-- `normalize` keeps the number that a decimal stands for, never lengthens it, and leaves no zero
-- at its end that could be dropped.
pub normalize-Strips : (d : Decimal) → Strips d.units d.scale (normalize d)
unfolding normalize
normalize-Strips d = strip_zeros-Strips d.units d.scale

units_at-normalize : (k : ℕ) (d : Decimal) → d.scale ≤ k → units_at k (normalize d) ≡ units_at k d
units_at-normalize k d h =
    let s = normalize-Strips d in
    units_at_finer d.scale k (normalize d) s.shorter h
    ∙ ap (λ u. u *ℤ power_of_ten (k - d.scale)) s.same

-- Addition is exact: at every scale that both numbers reach, the units add up.
pub units_at-add :
    (k : ℕ) (a b : Decimal)
    → a.scale ≤ k
    → b.scale ≤ k
    → ((add a b).scale ≤ k) × (units_at k (add a b) ≡ units_at k a +ℤ units_at k b)
unfolding add
units_at-add k a b ha hb = (
  omega (arith, (normalize-Strips sum).shorter),
  units_at-normalize k sum (omega arith)
      ∙ (+ℤ-*ℤ (units_at scale a) (units_at scale b) (power_of_ten (k - scale))
          ∙ ap₂ ◌+ℤ◌ (sym (units_at_finer scale k a (omega arith) (omega arith)))
              (sym (units_at_finer scale k b (omega arith) (omega arith)))),
)
  where
    scale : ℕ
    scale = max a.scale b.scale

    sum : Decimal
    sum = record { units = units_at scale a +ℤ units_at scale b; scale = scale }

-- So is subtraction.
pub units_at-subtract :
    (k : ℕ) (a b : Decimal)
    → a.scale ≤ k
    → b.scale ≤ k
    → ((subtract a b).scale ≤ k) × (units_at k (subtract a b) ≡ units_at k a -ℤ units_at k b)
unfolding subtract
units_at-subtract k a b ha hb =
    let minus : Decimal = record { units = neg_ℤ b.units; scale = b.scale } in
    let s = units_at-add k a minus ha hb in
    (
      s.0,
      s.1
          ∙ (ap (λ u. units_at k a +ℤ u) (neg_ℤ-*ℤ b.units (power_of_ten (k - b.scale)))
              ∙ +ℤ-neg_ℤ (units_at k a) (units_at k b)),
    )

-- Rounding to a scale that holds every digit only writes the number at that scale.
pub round_exact :
    (k : ℕ) (d : Decimal)
    → d.scale ≤ k
    → round d k ≡ ok (record { units = units_at k d; scale = k })
unfolding round
round_exact k d h = ground arith
