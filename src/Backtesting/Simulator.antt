-- ===== src/Backtesting/Simulator.antt =====
-- `simulateBacktest` of modules/backtesting/domain/simulator.ts: the loop over the candles, one
-- function for each of its three parts, and the whole.
use cryptox.Base.{
  ℕ, ◌+◌, ltb, leb, ◌==◌, Bool, true, false, not, ◌||◌, ◌&&◌, if◌then◌else◌, Option, none, some,
  List, [], ◌∷◌, ◌++◌, map, leb_ℤ, Result, ok, err, ◌>>=◌, Dates,
}
use cryptox.Backtesting.Decimal.{Error, invalid_signal, Decimal, Number, decimal, round}
use cryptox.Backtesting.Trading.{
  Candle, Action, Side, long, short, stop_loss_hit, take_profit_hit, strategy_close, Position,
  Terms, Book,
}
use cryptox.Backtesting.Positions.{side, close_position, open_position}
use cryptox.Backtesting.Inputs.{
  StrategyCandle, Sentiment, StrategyContext, Signal, act, hold, unknown, SimulationInput,
  candle_close_time,
}

unfoldable pub same_side : Side → Side → Bool
same_side long long = true
same_side long short = false
same_side short long = false
same_side short short = true

unfoldable pub price : Number → Result Error Decimal
price value = do round (← decimal value) 8

-- Whether there is a position on another side than the one wanted.
unfoldable pub is_opposed : Option Position → Side → Bool
is_opposed none desired = false
is_opposed (some p) desired = not (same_side p.signal desired)

abbrev pub is_flat : Option Position → Bool
is_flat none = true
is_flat (some p) = false

-- An action scheduled by the candle before is carried out at this candle's open.
unfoldable pub carry_out : Terms → ℕ → ℕ → Candle → Action → Book → Result Error Book
carry_out terms count index candle action b = do
  closed ←
      if is_opposed b.position (side action)
      then (do
        opening ← price candle.opening
        close_position terms opening candle.timestamp strategy_close b)
      else ok b
  opened ←
      if is_flat closed.position && ltb (index + 1) count
      then open_position terms action candle index closed
      else ok closed
  ok (record opened { scheduled = none })

unfoldable pub run_scheduled : Terms → ℕ → ℕ → ℕ → Candle → Book → Result Error Book
run_scheduled terms count warmup index candle b = elim b.scheduled [
  | none ↦ ok b
  | some action ↦ if leb warmup index then carry_out terms count index candle action b else ok b
]

unfoldable pub stop_triggered : Side → Decimal → Decimal → Decimal → Bool
stop_triggered long high low stop = leb_ℤ low.units stop.units
stop_triggered short high low stop = leb_ℤ stop.units high.units

unfoldable pub take_triggered : Side → Decimal → Decimal → Decimal → Bool
take_triggered long high low take = leb_ℤ take.units high.units
take_triggered short high low take = leb_ℤ low.units take.units

-- A candle that opens beyond the level fills at its open.
unfoldable pub stop_fill : Side → Decimal → Decimal → Decimal
stop_fill long opening stop = if leb_ℤ opening.units stop.units then opening else stop
stop_fill short opening stop = if leb_ℤ stop.units opening.units then opening else stop

unfoldable pub take_fill : Side → Decimal → Decimal → Decimal
take_fill long opening take = if leb_ℤ take.units opening.units then opening else take
take_fill short opening take = if leb_ℤ opening.units take.units then opening else take

unfoldable pub try_take :
    Terms → Candle → Position → Decimal → Decimal → Decimal → Book → Result Error Book
try_take terms candle p opening high low b = elim p.take_profit [
  | none ↦ ok b
  | some take ↦
      if take_triggered p.signal high low take
      then close_position terms (take_fill p.signal opening take) candle.timestamp take_profit_hit b
      else ok b
]

unfoldable pub try_stop :
    Terms → Candle → Position → Decimal → Decimal → Decimal → Book → Result Error Book
try_stop terms candle p opening high low b = elim p.stop_loss [
  | none ↦ try_take terms candle p opening high low b
  | some stop ↦
      if stop_triggered p.signal high low stop
      then close_position terms (stop_fill p.signal opening stop) candle.timestamp stop_loss_hit b
      else try_take terms candle p opening high low b
]

unfoldable pub check_exits : Terms → ℕ → Candle → Book → Result Error Book
check_exits terms index candle b = elim b.position [
  | none ↦ ok b
  | some p ↦
      if ltb p.entry_index index
      then (do
        opening ← price candle.opening
        high ← price candle.high
        low ← price candle.low
        try_stop terms candle p opening high low b)
      else ok b
]

unfoldable pub to_strategy_candle : Candle → StrategyCandle
to_strategy_candle c = record {
  timestamp = c.timestamp;
  opening = c.opening;
  high = c.high;
  low = c.low;
  close = c.close;
  volume = c.volume;
}

-- `candles.slice(0, index + 1)` is the candles before this one, and this one.
unfoldable pub context_of :
    SimulationInput → List Candle → Candle → Option Sentiment → StrategyContext
unfolding to_strategy_candle
context_of input seen candle sentiment = record {
  pair = input.pair;
  timeframe = input.timeframe;
  candles = map to_strategy_candle (seen ++ candle ∷ []);
  current_price = candle.close;
  sentiment = sentiment;
}

unfoldable pub schedule : Signal → Book → Result Error Book
schedule hold b = ok b
schedule unknown b = err invalid_signal
schedule (act action) b =
    if is_flat b.position || is_opposed b.position (side action)
    then ok (record b { scheduled = some action })
    else ok b

module _ (dates : Dates) (input : SimulationInput) where
  unfoldable pub sentiment_for : Candle → Result Error (Option Sentiment)
  unfolding candle_close_time
  sentiment_for candle = elim input.sentiment_at [
    | none ↦ ok none
    | some read_at ↦
        candle_close_time dates candle.timestamp input.timeframe >>= λ close. ok (read_at close)
  ]

  unfoldable pub decide : ℕ → ℕ → ℕ → List Candle → Candle → Book → Result Error Book
  decide count warmup index seen candle b =
      if ltb index warmup || index + 1 == count
      then ok b
      else sentiment_for candle >>= λ sentiment.
          schedule (input.analyze (context_of input seen candle sentiment)) b

  module _ (terms : Terms) (count warmup : ℕ) where
    unfoldable pub step : ℕ → List Candle → Candle → Book → Result Error Book
    step index seen candle b = do
      b₁ ← run_scheduled terms count warmup index candle b
      b₂ ← check_exits terms index candle b₁
      decide count warmup index seen candle b₂

    unfoldable pub run_candles : ℕ → List Candle → List Candle → Book → Result Error Book
    run_candles index seen [] b = ok b
    run_candles index seen (candle ∷ rest) b =
        step index seen candle b >>= λ b'. run_candles (index + 1) (seen ++ candle ∷ []) rest b'
