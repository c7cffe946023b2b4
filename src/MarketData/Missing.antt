-- ===== src/MarketData/Missing.antt =====
-- What `missingRanges` of modules/market-data/domain/rules.ts returns.
use cryptox.Base.{
  ℕ, zero, suc, ◌+◌, ◌*◌, ◌<◌, ◌≤◌, ◌≡◌, inl, inr, refl, sym, ◌∙◌, arith, ltb, leb, Bool, true,
  false, not, ◌&&◌, Option, none, some, List, [], any, Bool-cases, Dates, subst,
}
use cryptox.Backtesting.Trading.{Timeframe, m1, m5, m15, h1, h4, d1, Candle}
use cryptox.MarketData.Rules.{Gap, is_existing, or_else, close_gap, scan, missing_ranges, interval}

-- Whether a gap has a time in it; its end is not.
abbrev pub covers : List Gap → ℕ → Bool
covers gaps p = any (λ (g : Gap). leb g.from p && ltb p g.to) gaps

module _ (exists : ℕ → Bool) (step to : ℕ) (positive : 0 < step) where
  -- One turn of the loop.
  scan-turn :
      (fuel t : ℕ) (start : Option ℕ) (P : List Gap → Type 0)
      → (ltb t to ≡ false → P (close_gap start to []))
      → (ltb t to ≡ true
          → exists t ≡ false
          → P (scan exists step to fuel (t + step) (some (or_else start t))))
      → (ltb t to ≡ true
          → exists t ≡ true
          → P (close_gap start t (scan exists step to fuel (t + step) none)))
      → P (scan exists step to (suc fuel) t start)
  unfolding scan
  scan-turn fuel t start P ends goes closes = elim (Bool-cases (ltb t to)) [
    | inr over ↦ rw (scan, over) (ends over)
    | inl going ↦ elim (Bool-cases (exists t)) [
      | inr missing ↦ rw (scan, going, missing) (goes going missing)
      | inl found ↦ rw (scan, going, found) (closes going found)
    ]
  ]

  covers-close_gap_below :
      (start : Option ℕ) (t u p : ℕ) (gaps : List Gap)
      → p < or_else start u
      → covers gaps p ≡ false
      → covers (close_gap start t gaps) p ≡ false
  covers-close_gap_below none t u p gaps h k = k
  covers-close_gap_below (some s) t u p gaps h k = ground arith

  -- No gap begins before the open one, or before the time that the loop is at.
  scan_below :
      (fuel t : ℕ) (start : Option ℕ) (p : ℕ)
      → p < or_else start t
      → or_else start t ≤ t
      → covers (scan exists step to fuel t start) p ≡ false
  unfolding scan
  scan_below zero t start p h k = covers-close_gap_below start to t p [] h refl
  scan_below (suc fuel) t start p h k =
      scan-turn fuel t start (λ gaps. covers gaps p ≡ false)
        (λ over. covers-close_gap_below start to t p [] h refl)
        (λ going missing. scan_below fuel (t + step) (some (or_else start t)) p h (omega arith))
        (λ going found.
          covers-close_gap_below start t t p (scan exists step to fuel (t + step) none) h
            (scan_below fuel (t + step) none p (omega arith) (omega arith)))

  -- The open gap covers what lies between its start and the time that the loop is at.
  scan_open :
      (fuel t s p : ℕ)
      → s ≤ p
      → p < t
      → p < to
      → covers (scan exists step to fuel t (some s)) p ≡ true
  unfolding scan
  scan_open zero t s p h k l = ground arith
  scan_open (suc fuel) t s p h k l =
      scan-turn fuel t (some s) (λ gaps. covers gaps p ≡ true) (λ over. ground arith)
        (λ going missing. scan_open fuel (t + step) s p h (omega arith) l)
        (λ going found. ground arith)

  covers-close_gap_after :
      (start : Option ℕ) (t p : ℕ) (gaps : List Gap)
      → t ≤ p
      → covers (close_gap start t gaps) p ≡ covers gaps p
  covers-close_gap_after none t p gaps h = refl
  covers-close_gap_after (some s) t p gaps h = ground arith

  -- The time that the loop is at.
  scan_now :
      (fuel t : ℕ) (start : Option ℕ)
      → or_else start t ≤ t
      → t < to
      → covers (scan exists step to (suc fuel) t start) t ≡ not (exists t)
  scan_now fuel t start h l =
      scan-turn fuel t start (λ gaps. covers gaps t ≡ not (exists t))
        (λ over. absurd (ground arith))
        (λ going missing.
          rw missing (scan_open fuel (t + step) (or_else start t) t h (omega arith) l))
        (λ going found. rw found (
          covers-close_gap_after start t t (scan exists step to fuel (t + step) none) (omega arith)
          ∙ scan_below fuel (t + step) none t (omega arith) (omega arith)))

  -- A later time, from what holds of the rest of the loop.
  scan_later :
      (fuel t p : ℕ) (start : Option ℕ)
      → or_else start t ≤ t
      → t + step ≤ p
      → p < to
      → ((next : Option ℕ)
          → or_else next (t + step) ≤ t + step
          → covers (scan exists step to fuel (t + step) next) p ≡ not (exists p))
      → covers (scan exists step to (suc fuel) t start) p ≡ not (exists p)
  scan_later fuel t p start h k l rest =
      scan-turn fuel t start (λ gaps. covers gaps p ≡ not (exists p))
        (λ over. absurd (ground arith))
        (λ going missing. rest (some (or_else start t)) (omega arith))
        (λ going found.
          covers-close_gap_after start t p (scan exists step to fuel (t + step) none) (omega arith)
          ∙ rest none (omega arith))

  grid_zero : (t : ℕ) → t + 0 * step ≡ t
  grid_zero t = omega arith

  grid_suc : (t k : ℕ) → t + suc k * step ≡ t + step + k * step
  grid_suc t k = grind arith

  -- At the times of the grid that the loop has yet to reach.
  covers-scan :
      (fuel t k : ℕ) (start : Option ℕ)
      → to ≤ t + fuel
      → or_else start t ≤ t
      → t + k * step < to
      → covers (scan exists step to fuel t start) (t + k * step) ≡ not (exists (t + k * step))
  covers-scan zero t k start enough h l = absurd (omega arith)
  covers-scan (suc fuel) t zero start enough h l =
      subst (λ p. covers (scan exists step to (suc fuel) t start) p ≡ not (exists p))
        (sym (grid_zero t)) (scan_now fuel t start h (omega arith))
  covers-scan (suc fuel) t (suc k) start enough h l =
      let l' : t + step + k * step < to = subst (λ p. p < to) (grid_suc t k) l in
      subst (λ p. covers (scan exists step to (suc fuel) t start) p ≡ not (exists p))
        (sym (grid_suc t k))
        (scan_later fuel t (t + step + k * step) start h (omega arith) l'
          (λ next m. covers-scan fuel (t + step) k next (omega arith) m l'))

-- The times of the grid in the range that no closed candle has are those that the gaps cover.
pub covers-missing_ranges :
    (dates : Dates) (candles : List Candle) (from to k : ℕ) (timeframe : Timeframe)
    → from + k * interval timeframe < to
    → covers (missing_ranges dates candles from to timeframe) (from + k * interval timeframe)
      ≡ not (is_existing dates candles (from + k * interval timeframe))
unfolding missing_ranges
covers-missing_ranges dates candles from to k timeframe h =
    covers-scan (is_existing dates candles) (interval timeframe) to (positive timeframe) to from k
      none (omega arith) (omega arith) h
  where
    positive : (timeframe : Timeframe) → 0 < interval timeframe
    positive m1 = omega arith
    positive m5 = omega arith
    positive m15 = omega arith
    positive h1 = omega arith
    positive h4 = omega arith
    positive d1 = omega arith
