-- ===== src/Backtesting/Trading.antt =====
-- modules/backtesting/domain/simulator.ts and contracts.ts: candles, positions and trades. A trade
-- holds the exact decimals that the program turns into numbers by `asNumber` when it records it.
use cryptox.Base.{ℕ, Bool, Option, List, Text}
use cryptox.Backtesting.Decimal.{Decimal, Number}

pub data Timeframe : Type 0 where
  m1 m5 m15 h1 h4 d1 : Timeframe

pub record Candle : Type 0 where
  pub pair : Text
  pub timeframe : Timeframe
  pub timestamp : Text
  pub opening : Number
  pub high : Number
  pub low : Number
  pub close : Number
  pub volume : Number
  pub is_closed : Bool

pub data Action : Type 0 where
  buy sell : Action

pub data Side : Type 0 where
  long short : Side

pub data ExitReason : Type 0 where
  stop_loss_hit take_profit_hit strategy_close range_end : ExitReason

pub data Outcome : Type 0 where
  win loss breakeven : Outcome

pub record Position : Type 0 where
  pub signal : Side
  pub entry_index : ℕ
  pub market_entry_price : Decimal
  pub entry_price : Decimal
  pub entry_time : Text
  pub quantity : Decimal
  pub equity_before_trade : Decimal
  pub stop_loss : Option Decimal
  pub take_profit : Option Decimal

-- The id is `${attemptId}-trade-${sequence}`, so it is given by these two.
pub record Trade : Type 0 where
  pub sequence : ℕ
  pub pair : Text
  pub settlement_asset : Text
  pub backtest_attempt_id : Text
  pub signal : Side
  pub entry_time : Text
  pub market_entry_price : Decimal
  pub entry_price : Decimal
  pub stop_loss : Option Decimal
  pub take_profit : Option Decimal
  pub exit_time : Text
  pub market_exit_price : Decimal
  pub exit_price : Decimal
  pub exit_reason : ExitReason
  pub quantity : Decimal
  pub notional_entry_value : Decimal
  pub equity_before_trade : Decimal
  pub equity_after_trade : Decimal
  pub gross_profit : Decimal
  pub fee_amount : Decimal
  pub slippage_bps : Number
  pub slippage_amount : Decimal
  pub profit : Decimal
  pub result_percent : Decimal
  pub result : Outcome

-- What the closures read of the input, and the rates computed before the loop.
pub record Terms : Type 0 where
  pub pair : Text
  pub settlement_asset : Text
  pub attempt_id : Text
  pub slippage_bps : Number
  pub fee_rate : Decimal
  pub slippage_rate : Decimal
  pub stop_loss_percent : Option Number
  pub take_profit_percent : Option Number

-- The variables of the loop.
pub record Book : Type 0 where
  pub equity : Decimal
  pub position : Option Position
  pub scheduled : Option Action
  pub sequence : ℕ
  pub trades : List Trade
