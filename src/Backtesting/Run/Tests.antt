-- ===== src/Backtesting/Run/Tests.antt =====
-- A run of `simulateBacktest` (modules/backtesting/domain/simulator.ts) on five candles, and the
-- theorems at concrete inputs.
use cryptox.Base.{
  ℕ, ◌*◌, ◌≤◌, ◌≡◌, refl, arith, ◌==◌, true, if◌then◌else◌, none, some, List, [], ◌∷◌, ◌++◌, pos,
  negsuc, nat_abs, ok, ◌>>=◌, ◌>>◌, throw_if, Dates, length, sort_by, insert_by, tdiv, tmod, neg_ℤ,
  ◌+ℤ◌, ◌*ℤ◌,
}
use cryptox.Backtesting.Decimal.{
  Number, finite, power_of_ten, normalize, strip_zeros, decimal, from_integer, add, subtract,
  multiply, absolute, rounded_division, round, divide, less,
}
use cryptox.Backtesting.Numbers.{
  is_above, is_at_least, is_below, number_less, number_max, number_min, whole,
}
use cryptox.Backtesting.Trading.{
  m1, Candle, buy, sell, long, stop_loss_hit, loss, Terms, Book, Trade,
}
use cryptox.Backtesting.Inputs.{
  StrategyContext, Signal, act, hold, validate_candles, assert_positive_percent, SimulationInput,
  CompletedBacktestResult,
}
use cryptox.Backtesting.Decimal.Laws.{units_at, units_at-add}
use cryptox.Backtesting.Decimal.Rounding.{rounded_division-nearest}
use cryptox.Backtesting.Positions.{
  close_position, settle, settle_equity, record_trade, open_position, enter, level,
  assert_positive_price, side, direction, outcome_of,
}
use cryptox.Backtesting.Simulator
use cryptox.Backtesting.Simulator.{
  run_candles, step, run_scheduled, carry_out, is_opposed, same_side, check_exits, try_stop,
  try_take, stop_triggered, take_triggered, stop_fill, take_fill, decide, sentiment_for, context_of,
  schedule,
}
use cryptox.Backtesting.Run.{simulate_backtest, close_at_range_end}
use cryptox.Backtesting.Run.Prefix.{run_candles_causal}
use cryptox.Backtesting.Run.Books.{AddsUp, simulate_backtest-AddsUp}

abbrev dates : Dates
dates = record { parse = λ t. some (pos t); to_iso = nat_abs }

abbrev price : ℕ → Number
price n = finite (record { units = pos n; scale = 1 })

-- A closed candle at a minute, its prices in tenths.
abbrev candle : ℕ → ℕ → ℕ → ℕ → ℕ → Candle
candle minute opening high low close = record {
  pair = 7;
  timeframe = m1;
  timestamp = 60000 * minute;
  opening = price opening;
  high = price high;
  low = price low;
  close = price close;
  volume = price 0;
  is_closed = true;
}

-- Buy on the first candle, and sell on the fourth.
abbrev analyze : StrategyContext → Signal
analyze c =
    if length c.candles == 1 then act buy else if length c.candles == 4 then act sell else hold

abbrev input : SimulationInput
input = record {
  candidate_id = 1;
  attempt_id = 2;
  pair = 7;
  settlement_asset = 3;
  timeframe = m1;
  candles =
      candle 2 1000 1100 990 1050
      ∷ candle 1 1000 1010 990 1000
      ∷ candle 3 1050 1060 1040 1050
      ∷ candle 4 1050 1060 800 900
      ∷ candle 5 900 910 890 900
      ∷ [];
  warmup_candles = none;
  analyze = analyze;
  sentiment_at = none;
  initial_capital = finite (record { units = pos 1000; scale = 0 });
  fee_rate_percent = finite (record { units = pos 1; scale = 1 });
  slippage_bps = none;
  stop_loss_percent = some (finite (record { units = pos 10; scale = 0 }));
  take_profit_percent = none;
  worker_runtime_version = 4;
  worker_runtime_sha256 = 5;
  started_at = 6;
  completed_at = 7;
}

-- Bought at the second open, stopped out on the fourth candle at the level.
abbrev stopped : Trade
stopped = record {
  sequence = 1;
  pair = 7;
  settlement_asset = 3;
  backtest_attempt_id = 2;
  signal = long;
  entry_time = 120000;
  market_entry_price = record { units = pos 10000000000; scale = 8 };
  entry_price = record { units = pos 10005000000; scale = 8 };
  stop_loss = some (record { units = pos 9000000000; scale = 8 });
  take_profit = none;
  exit_time = 240000;
  market_exit_price = record { units = pos 9000000000; scale = 8 };
  exit_price = record { units = pos 8995500000; scale = 8 };
  exit_reason = stop_loss_hit;
  quantity = record { units = pos 998501748; scale = 8 };
  notional_entry_value = record { units = pos 99900; scale = 2 };
  equity_before_trade = record { units = pos 100000; scale = 2 };
  equity_after_trade = record { units = pos 89730; scale = 2 };
  gross_profit = record { units = negsuc 9984; scale = 2 };
  fee_amount = record { units = pos 190; scale = 2 };
  slippage_bps = finite (record { units = pos 5; scale = 0 });
  slippage_amount = record { units = pos 95; scale = 2 };
  profit = record { units = negsuc 10269; scale = 2 };
  result_percent = record { units = negsuc 1026999999; scale = 8 };
  result = loss;
}

abbrev expected : CompletedBacktestResult
expected = record {
  candidate_id = 1;
  attempt_id = 2;
  worker_runtime_version = 4;
  worker_runtime_sha256 = 5;
  started_at = 6;
  completed_at = 7;
  initial_capital = finite (record { units = pos 1000; scale = 0 });
  trades = stopped ∷ [];
}

-- All that a run computes with.
abbrev running : Unit {0}
unfolding simulate_backtest run_candles step run_scheduled carry_out is_opposed same_side
    check_exits try_stop try_take stop_triggered take_triggered stop_fill take_fill Simulator.price
    decide sentiment_for context_of schedule close_at_range_end close_position settle settle_equity
    record_trade open_position enter level assert_positive_price side direction outcome_of decimal
    normalize strip_zeros from_integer add subtract multiply absolute rounded_division round divide
    less power_of_ten is_above is_at_least is_below number_less number_max number_min whole tdiv
    tmod neg_ℤ ◌+ℤ◌ ◌*ℤ◌ ◌>>=◌ ◌>>◌ throw_if sort_by insert_by validate_candles
    assert_positive_percent
running = tt

ran : simulate_backtest dates input ≡ ok expected
unfolding running
ran = refl

simulate_backtest-AddsUp_example : AddsUp input expected
simulate_backtest-AddsUp_example = simulate_backtest-AddsUp dates input ran

rounded_division-nearest_example : rounded_division (negsuc 6) (pos 2) ≡ ok (negsuc 3)
rounded_division-nearest_example = rounded_division-nearest (negsuc 6) (pos 2)

abbrev terms : Terms
terms = record {
  pair = 7;
  settlement_asset = 3;
  attempt_id = 2;
  slippage_bps = finite (record { units = pos 5; scale = 0 });
  fee_rate = record { units = pos 1; scale = 3 };
  slippage_rate = record { units = pos 5; scale = 4 };
  stop_loss_percent = none;
  take_profit_percent = none;
}

abbrev first_book : Book
first_book = record {
  equity = record { units = pos 100000; scale = 2 };
  position = none;
  scheduled = none;
  sequence = 0;
  trades = [];
}

abbrev early : List Candle
early = candle 1 1000 1010 990 1000 ∷ candle 2 1000 1100 990 1050 ∷ []

run_candles_causal_example :
    run_candles dates input terms 3 0 0 [] (early ++ candle 3 1050 1060 1040 1050 ∷ []) first_book
    ≡ (run_candles dates input terms 9 0 0 [] early first_book
        >>= run_candles dates input terms 3 0
            (length early)
            early
            (candle 3 1050 1060 1040 1050 ∷ []))
run_candles_causal_example =
    run_candles_causal dates input terms 0 3 9 early (candle 3 1050 1060 1040 1050 ∷ []) first_book
      (omega arith) (omega arith)

units_at-add_example :
    ((add (record { units = pos 15; scale = 1 }) (record { units = negsuc 24; scale = 2 })).scale
      ≤ 2)
    × (units_at 2
          (add (record { units = pos 15; scale = 1 }) (record { units = negsuc 24; scale = 2 }))
        ≡ units_at 2 (record { units = pos 15; scale = 1 })
          +ℤ units_at 2 (record { units = negsuc 24; scale = 2 }))
units_at-add_example =
    units_at-add 2 (record { units = pos 15; scale = 1 }) (record { units = negsuc 24; scale = 2 })
      (omega arith) (omega arith)
