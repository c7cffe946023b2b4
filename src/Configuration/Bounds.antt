-- ===== src/Configuration/Bounds.antt =====
-- The numbers of the configuration of the backend (apps/backend/src/runtime-config.ts) and their
-- bounds.
use Prim.Native.String.{String}
use cryptox.Base.{
  is_integer, whole, ℕ, ◌≡◌, refl, Bool, true, false, not, ◌||◌, Option, none, some, ℤ, pos,
  Ensures, returned, thrown, Ensures-bind, if-Ensures,
}
use cryptox.Configuration.Environment.{
  Javascript, Environment, value, is_outside, checked_integer, checked_number, numeric,
  positive_integer, bounded_number,
}
use cryptox.Configuration.Loading.{
  CrawlerLimits, BacktestDefaults, read_crawler_limits, read_backtest_defaults,
}

-- A finite number between the bounds, and a whole one.
abbrev pub IsWithin : ℤ → ℤ → ℤ → Type 0
IsWithin minimum maximum v = is_outside v minimum maximum ≡ false

abbrev pub IsWholeWithin : ℕ → ℕ → ℤ → Type 0
IsWholeWithin minimum maximum v =
    (is_integer v ≡ true) × (is_outside v (whole minimum) (whole maximum) ≡ false)

checked_integer-IsWholeWithin :
    (key : String) (minimum maximum : ℕ) (v : Option ℤ)
    → Ensures (IsWholeWithin minimum maximum) (checked_integer key minimum maximum v)
checked_integer-IsWholeWithin key minimum maximum none = thrown
checked_integer-IsWholeWithin key minimum maximum (some v) =
    if-Ensures (not (is_integer v) || is_outside v (whole minimum) (whole maximum)) _ _
      (λ e. thrown)
      (λ e. returned (split (is_integer v) (is_outside v (whole minimum) (whole maximum)) e))
  where
    split : (a b : Bool) → (not a || b) ≡ false → (a ≡ true) × (b ≡ false)
    split true false e = (refl, refl)
    split true true e = cc
    split false b e = cc

checked_number-IsWithin :
    (key : String) (minimum maximum : ℤ) (v : Option ℤ)
    → Ensures (IsWithin minimum maximum) (checked_number key minimum maximum v)
checked_number-IsWithin key minimum maximum none = thrown
checked_number-IsWithin key minimum maximum (some v) =
    if-Ensures (is_outside v minimum maximum) _ _ (λ e. thrown) (λ e. returned e)

abbrev pub LimitsWithin : CrawlerLimits → Type 0
LimitsWithin limits =
    (IsWholeWithin 100 120_000 limits.request_timeout_ms
      × IsWholeWithin 1_024 10_000_000 limits.max_html_bytes
      × IsWholeWithin 1_024 10_000_000 limits.max_interpreter_html_bytes
      × IsWholeWithin 1_024 10_000_000 limits.max_output_bytes
      × IsWholeWithin 1 64 limits.max_candidates
      × IsWholeWithin 128 500_000 limits.max_field_length)

abbrev pub DefaultsWithin : BacktestDefaults → Type 0
DefaultsWithin d =
    (IsWholeWithin 5_000 300_000 d.recovery_interval_ms
      × IsWholeWithin 1 100 d.worker_concurrency
      × IsWithin (pos 1) (whole 1_000_000_000_000) d.initial_capital
      × IsWithin (whole 0) (whole 100) d.fee_rate_percent
      × IsWholeWithin 0 500 d.slippage_bps
      × IsWholeWithin 1 10 d.max_attempts)

module _ (js : Javascript) (env : Environment) where
  pub positive_integer-IsWholeWithin :
      (key : String) (fallback minimum maximum : ℕ)
      → Ensures
          (IsWholeWithin minimum maximum)
          (positive_integer js env key fallback minimum maximum)
  unfolding positive_integer
  positive_integer-IsWholeWithin key fallback minimum maximum =
      checked_integer-IsWholeWithin key minimum maximum
        (numeric js (value env key) (whole fallback))

  bounded_number-IsWithin :
      (key : String) (fallback minimum maximum : ℤ)
      → Ensures (IsWithin minimum maximum) (bounded_number js env key fallback minimum maximum)
  unfolding bounded_number
  bounded_number-IsWithin key fallback minimum maximum =
      checked_number-IsWithin key minimum maximum (numeric js (value env key) fallback)

  pub read_crawler_limits-Within : Ensures LimitsWithin (read_crawler_limits js env)
  unfolding read_crawler_limits
  read_crawler_limits-Within = Ensures-bind _ (positive_integer-IsWholeWithin _ _ _ _) λ a ha.
      Ensures-bind _ (positive_integer-IsWholeWithin _ _ _ _) λ b hb.
        Ensures-bind _ (positive_integer-IsWholeWithin _ _ _ _) λ c hc.
          Ensures-bind _ (positive_integer-IsWholeWithin _ _ _ _) λ d hd.
            Ensures-bind _ (positive_integer-IsWholeWithin _ _ _ _) λ e he.
              Ensures-bind _ (positive_integer-IsWholeWithin _ _ _ _)
                λ f hf. returned (ha, hb, hc, hd, he, hf)

  pub read_backtest_defaults-Within : Ensures DefaultsWithin (read_backtest_defaults js env)
  unfolding read_backtest_defaults
  read_backtest_defaults-Within = Ensures-bind _ (positive_integer-IsWholeWithin _ _ _ _) λ a ha.
      Ensures-bind _ (positive_integer-IsWholeWithin _ _ _ _) λ b hb.
        Ensures-bind _ (bounded_number-IsWithin _ _ _ _) λ c hc.
          Ensures-bind _ (bounded_number-IsWithin _ _ _ _) λ d hd.
            Ensures-bind _ (positive_integer-IsWholeWithin _ _ _ _) λ e he.
              Ensures-bind _ (positive_integer-IsWholeWithin _ _ _ _)
                λ f hf. returned (ha, hb, hc, hd, he, hf)
