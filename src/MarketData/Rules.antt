-- ===== src/MarketData/Rules.antt =====
-- The rules of modules/market-data/domain/rules.ts on limits, timestamps and ranges.
use cryptox.Base.{
  ℕ, zero, suc, ◌+◌, ◌*◌, ◌==◌, ltb, Bool, true, false, not, ◌&&◌, ◌||◌, if◌then◌else◌, Option,
  none, some, List, [], ◌∷◌, ℤ, pos, negsuc, ltb_ℤ, leb_ℤ, eqb_ℤ, tmod, Result, ok, err, ◌>>=◌,
  ◌>>◌, throw_if, Text, Dates, any,
}
use cryptox.Backtesting.Trading.{Timeframe, m1, m5, m15, h1, h4, d1, Candle}
use cryptox.Search.Rules.{Setting, integer, no_integer}

pub data MarketError : Type 0 where
  invalid_range range_too_large : MarketError

unfoldable pub timeframe_seconds : Timeframe → ℕ
timeframe_seconds m1 = 60
timeframe_seconds m5 = 300
timeframe_seconds m15 = 900
timeframe_seconds h1 = 3600
timeframe_seconds h4 = 14400
timeframe_seconds d1 = 86400

abbrev pub default_page_limit : ℕ
default_page_limit = 1000

abbrev pub max_page_limit : ℕ
max_page_limit = 10000

-- `none` is an absent value.
unfoldable pub validate_limit : Option Setting → Result MarketError ℕ
validate_limit none = ok default_page_limit
validate_limit (some no_integer) = err range_too_large
validate_limit (some (integer (negsuc n))) = err range_too_large
validate_limit (some (integer (pos n))) =
    if n == 0 || ltb max_page_limit n then err range_too_large else ok n

abbrev pub interval : Timeframe → ℕ
interval timeframe = timeframe_seconds timeframe * 1000

-- Whether `now` parses to an earlier time.
abbrev pub is_after : ℤ → Option ℤ → Bool
is_after ms none = false
is_after ms (some now) = ltb_ℤ now ms

module _ (dates : Dates) (ends_in_z : Text → Bool) where
  -- `none` is a value that is no string.
  unfoldable pub parse_timestamp : Option Text → Timeframe → Text → Bool → Result MarketError Text
  unfolding timeframe_seconds
  parse_timestamp none timeframe now allow_future = err invalid_range
  parse_timestamp (some value) timeframe now allow_future = elim (dates.parse value) [
    | none ↦ err invalid_range
    | some ms ↦
        if not (ends_in_z value)
        then err invalid_range
        else if not (eqb_ℤ (tmod ms (pos (interval timeframe))) (pos 0))
        then err invalid_range
        else if not allow_future && is_after ms (dates.parse now)
        then err invalid_range
        else ok (dates.to_iso ms)
  ]

  -- Whether the end is not after the start; a comparison with NaN is false.
  abbrev pub is_no_later : Option ℤ → Option ℤ → Bool
  is_no_later none start = false
  is_no_later (some end) none = false
  is_no_later (some end) (some start) = leb_ℤ end start

  unfoldable pub validate_range :
      Option Text → Option Text → Timeframe → Text → Result MarketError (Text × Text)
  unfolding parse_timestamp
  validate_range from to timeframe now = do
    start ← parse_timestamp from timeframe now false
    end ← parse_timestamp to timeframe now true
    throw_if (is_no_later (dates.parse end) (dates.parse start)) invalid_range
    ok (start, end)

-- A gap between closed candles, in milliseconds since 1970.
pub record Gap : Type 0 where
  pub from : ℕ
  pub to : ℕ

abbrev pub is_at : Option ℤ → ℕ → Bool
is_at none t = false
is_at (some (pos n)) t = n == t
is_at (some (negsuc n)) t = false

-- Whether a closed candle has this timestamp.
unfoldable pub is_existing : Dates → List Candle → ℕ → Bool
is_existing dates candles t =
    any (λ (c : Candle). c.is_closed && is_at (dates.parse c.timestamp) t) candles

abbrev pub or_else : Option ℕ → ℕ → ℕ
or_else none t = t
or_else (some s) t = s

abbrev pub close_gap : Option ℕ → ℕ → List Gap → List Gap
close_gap none t gaps = gaps
close_gap (some s) t gaps = record { from = s; to = t } ∷ gaps

module _ (exists : ℕ → Bool) (step to : ℕ) where
  -- The loop of `missingRanges` at `t`, with the start of the open gap.
  unfoldable pub scan : ℕ → ℕ → Option ℕ → List Gap
  scan zero t start = close_gap start to []
  scan (suc fuel) t start = elim (ltb t to) [
    | false ↦ close_gap start to []
    | true ↦ elim (exists t) [
      | false ↦ scan fuel (t + step) (some (or_else start t))
      | true ↦ close_gap start t (scan fuel (t + step) none)
    ]
  ]

unfoldable pub missing_ranges : Dates → List Candle → ℕ → ℕ → Timeframe → List Gap
unfolding scan timeframe_seconds is_existing
missing_ranges dates candles from to timeframe =
    scan (is_existing dates candles) (interval timeframe) to to from none
