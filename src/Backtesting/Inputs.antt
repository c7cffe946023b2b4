-- ===== src/Backtesting/Inputs.antt =====
-- The input of `simulateBacktest` of modules/backtesting/domain/simulator.ts, its result, and the
-- checks on each part of the input.
use cryptox.Base.{
  ℕ, ◌==◌, leb, Bool, true, false, not, ◌||◌, Option, none, some, List, [], ◌∷◌, pos, ◌+ℤ◌, Result,
  ok, err, ◌>>◌, throw_if, Text, Dates, all,
}
use cryptox.Backtesting.Decimal.{Error, invalid_input, Number}
use cryptox.Backtesting.Numbers.{
  is_above, is_at_least, is_below, number_less, number_max, number_min,
}
use cryptox.Backtesting.Trading.{Timeframe, m1, m5, m15, h1, h4, d1, Candle, Action, Trade}

pub record StrategyCandle : Type 0 where
  pub timestamp : Text
  pub opening : Number
  pub high : Number
  pub low : Number
  pub close : Number
  pub volume : Number

pub record Sentiment : Type 0 where
  pub label : Text
  pub average_score : Number

pub record StrategyContext : Type 0 where
  pub pair : Text
  pub timeframe : Timeframe
  pub candles : List StrategyCandle
  pub current_price : Number
  pub sentiment : Option Sentiment

-- What a strategy returns: an action, HOLD, or a value that is no signal.
pub data Signal : Type 0 where
  act : Action → Signal
  hold : Signal
  unknown : Signal

pub record SimulationInput : Type 0 where
  pub candidate_id : Text
  pub attempt_id : Text
  pub pair : Text
  pub settlement_asset : Text
  pub timeframe : Timeframe
  pub candles : List Candle
  pub warmup_candles : Option Number
  pub analyze : StrategyContext → Signal
  pub sentiment_at : Option (Text → Option Sentiment)
  pub initial_capital : Number
  pub fee_rate_percent : Number
  pub slippage_bps : Option Number
  pub stop_loss_percent : Option Number
  pub take_profit_percent : Option Number
  pub worker_runtime_version : Text
  pub worker_runtime_sha256 : Text
  pub started_at : Text
  pub completed_at : Text

pub record CompletedBacktestResult : Type 0 where
  pub candidate_id : Text
  pub attempt_id : Text
  pub worker_runtime_version : Text
  pub worker_runtime_sha256 : Text
  pub started_at : Text
  pub completed_at : Text
  pub initial_capital : Number
  pub trades : List Trade

unfoldable pub timeframe_ms : Timeframe → ℕ
timeframe_ms m1 = 60000
timeframe_ms m5 = 300000
timeframe_ms m15 = 900000
timeframe_ms h1 = 3600000
timeframe_ms h4 = 14400000
timeframe_ms d1 = 86400000

unfoldable pub same_timeframe : Timeframe → Timeframe → Bool
unfolding timeframe_ms
same_timeframe a b = timeframe_ms a == timeframe_ms b

-- `value !== undefined && (... value <= 0 || value >= 100)` throws.
unfoldable pub assert_positive_percent : Option Number → Result Error (Unit {0})
assert_positive_percent none = ok tt
assert_positive_percent (some value) =
    throw_if (not (is_above 0 value) || not (is_below 100 value)) invalid_input

module _ (dates : Dates) where
  unfoldable pub candle_close_time : Text → Timeframe → Result Error Text
  unfolding timeframe_ms
  candle_close_time timestamp timeframe = elim (dates.parse timestamp) [
    | none ↦ err invalid_input
    | some parsed ↦ ok (dates.to_iso (parsed +ℤ pos (timeframe_ms timeframe)))
  ]

  unfoldable pub validate_candle : SimulationInput → Candle → Result Error (Unit {0})
  unfolding same_timeframe
  validate_candle input candle = do
    throw_if
        (not (candle.pair == input.pair)
          || not (same_timeframe candle.timeframe input.timeframe)
          || elim (dates.parse candle.timestamp) [ none ↦ true | some _ ↦ false ])
        invalid_input
    throw_if
        (not (all (is_above 0) (candle.opening ∷ candle.high ∷ candle.low ∷ candle.close ∷ []))
          || not (is_at_least 0 candle.volume))
        invalid_input
    throw_if
        (number_less candle.high (number_max candle.opening candle.close)
          || number_less (number_min candle.opening candle.close) candle.low)
        invalid_input

  -- The `forEach` over the sorted candles; `previous` is the timestamp of the one before.
  unfoldable pub validate_candles :
      SimulationInput → Option Text → List Candle → Result Error (Unit {0})
  unfolding validate_candle
  validate_candles input previous [] = ok tt
  validate_candles input previous (candle ∷ rest) = do
    validate_candle input candle
    throw_if (elim previous [ none ↦ false | some t ↦ leb candle.timestamp t ]) invalid_input
    validate_candles input (some candle.timestamp) rest
