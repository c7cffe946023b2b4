-- ===== src/Backtesting/Run.antt =====
-- `simulateBacktest` of modules/backtesting/domain/simulator.ts as a whole: checks, loop, and the
-- close of what is still open at the end of the range.
mod Tests
pub mod Keeps
pub mod Prefix
pub mod Fills
pub mod Books
use cryptox.Base.{
  ℕ, ltb, leb, Bool, not, ◌||◌, if◌then◌else◌, Option, none, some, List, [], ◌∷◌, pos, Result, ok,
  err, ◌>>=◌, ◌>>◌, throw_if, is_blank, Dates, keep, length, sort_by, get_last,
}
use cryptox.Backtesting.Decimal.{
  Error, invalid_input, snapshot_incomplete, Decimal, Number, finite, decimal, from_integer, round,
  divide,
}
use cryptox.Backtesting.Numbers.{is_above, is_at_least, whole, integer}
use cryptox.Backtesting.Trading.{Candle, Terms, Book, Trade, range_end}
use cryptox.Backtesting.Positions.{close_position}
use cryptox.Backtesting.Inputs.{
  SimulationInput, CompletedBacktestResult, assert_positive_percent, candle_close_time,
  validate_candles,
}
use cryptox.Backtesting.Simulator.{price, run_candles}

-- `input.slippageBps ?? 5` and `input.warmupCandles ?? 0`.
unfoldable pub slippage_or_default : SimulationInput → Number
slippage_or_default input = elim input.slippage_bps [ none ↦ finite (integer 5) | some bps ↦ bps ]

unfoldable pub warmup_or_default : SimulationInput → Option ℕ
warmup_or_default input = elim input.warmup_candles [ none ↦ some 0 | some n ↦ whole n ]

-- The sealed candles in the order of their timestamps.
unfoldable pub sealed_candles : SimulationInput → List Candle
sealed_candles input =
    sort_by (λ left right. leb left.timestamp right.timestamp)
      (keep (λ c. c.is_closed) input.candles)

unfoldable pub validate_amounts : SimulationInput → Result Error (Unit {0})
unfolding assert_positive_percent slippage_or_default
validate_amounts input = do
  throw_if
      (is_blank input.settlement_asset
        || not (is_above 0 input.initial_capital)
        || not (is_at_least 0 input.fee_rate_percent))
      invalid_input
  assert_positive_percent input.stop_loss_percent
  assert_positive_percent input.take_profit_percent
  throw_if (not (is_at_least 0 (slippage_or_default input))) invalid_input

unfoldable pub terms_of : SimulationInput → Result Error Terms
unfolding slippage_or_default
terms_of input = do
  fee ← decimal input.fee_rate_percent
  fee_rate ← divide fee (from_integer (pos 100)) 20
  bps ← decimal (slippage_or_default input)
  slippage_rate ← divide bps (from_integer (pos 10000)) 20
  ok (record {
    pair = input.pair;
    settlement_asset = input.settlement_asset;
    attempt_id = input.attempt_id;
    slippage_bps = slippage_or_default input;
    fee_rate = fee_rate;
    slippage_rate = slippage_rate;
    stop_loss_percent = input.stop_loss_percent;
    take_profit_percent = input.take_profit_percent;
  })

unfoldable pub initial_book : SimulationInput → Result Error Book
initial_book input = do
  capital ← decimal input.initial_capital
  equity ← round capital 2
  ok (record { equity = equity; position = none; scheduled = none; sequence = 0; trades = [] })

unfoldable pub result_of : SimulationInput → List Trade → CompletedBacktestResult
result_of input trades = record {
  candidate_id = input.candidate_id;
  attempt_id = input.attempt_id;
  worker_runtime_version = input.worker_runtime_version;
  worker_runtime_sha256 = input.worker_runtime_sha256;
  started_at = input.started_at;
  completed_at = input.completed_at;
  initial_capital = input.initial_capital;
  trades = trades;
}

module _ (dates : Dates) where
  -- The timestamp of the last candle has been checked, so its close time is defined.
  unfoldable pub close_at_range_end :
      SimulationInput → Terms → List Candle → Book → Result Error Book
  unfolding candle_close_time
  close_at_range_end input terms candles b = elim b.position [
    | none ↦ ok b
    | some p ↦ elim (get_last candles) [
      | none ↦ ok b
      | some last ↦ do
        exit ← price last.close
        end ← candle_close_time dates last.timestamp input.timeframe
        close_position terms exit end range_end b
    ]
  ]

  -- The books at the end of the run.
  unfoldable pub simulate : SimulationInput → Result Error Book
  unfolding validate_amounts terms_of initial_book warmup_or_default sealed_candles
  simulate input = do
    let candles = sealed_candles input
    validate_amounts input
    warmup ← elim (warmup_or_default input) [ none ↦ err invalid_input | some n ↦ ok n ]
    validate_candles dates input none candles
    throw_if (ltb (length candles) warmup) snapshot_incomplete
    terms ← terms_of input
    start ← initial_book input
    ran ← run_candles dates input terms (length candles) warmup 0 [] candles start
    close_at_range_end input terms candles ran

  unfoldable pub simulate_backtest : SimulationInput → Result Error CompletedBacktestResult
  unfolding simulate result_of
  simulate_backtest input = do b ← simulate input; ok (result_of input b.trades)
