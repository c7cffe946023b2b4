-- ===== src/Backtesting/Positions.antt =====
-- The closures `openPosition` and `closePosition` of modules/backtesting/domain/simulator.ts.
use cryptox.Base.{
  ℕ, ◌+◌, if◌then◌else◌, Option, none, some, [], ◌∷◌, ◌++◌, pos, neg_ℤ, leb_ℤ, ltb_ℤ, Result, ok,
  ◌>>=◌, ◌>>◌, throw_if, Text,
}
use cryptox.Backtesting.Decimal.{
  Error, invalid_input, Decimal, Number, decimal, from_integer, add, subtract, multiply, absolute,
  round, divide,
}
use cryptox.Backtesting.Trading.{
  Candle, Action, buy, sell, Side, long, short, ExitReason, Outcome, win, loss, breakeven, Position,
  Trade, Terms, Book,
}

unfoldable pub side : Action → Side
side buy = long
side sell = short

unfoldable pub direction : Side → Decimal
direction long = from_integer (pos 1)
direction short = from_integer (neg_ℤ (pos 1))

unfoldable pub outcome_of : Decimal → Outcome
outcome_of profit =
    if ltb_ℤ (pos 0) profit.units
    then win
    else if ltb_ℤ profit.units (pos 0)
    then loss
    else breakeven

-- The amounts of a trade that is closed at a market price.
pub record Settlement : Type 0 where
  pub exit_price : Decimal
  pub entry_notional : Decimal
  pub gross_profit : Decimal
  pub slippage_amount : Decimal
  pub fee_amount : Decimal
  pub profit : Decimal
  pub equity_after_trade : Decimal
  pub result_percent : Decimal

-- The last three amounts, from the money moved and its costs.
unfoldable pub settle_equity :
    Position → Decimal → Decimal → Decimal → Decimal → Decimal → Result Error Settlement
settle_equity p exit_price entry_notional gross_profit slippage_amount fee_amount = do
  profit ← round (subtract (subtract gross_profit slippage_amount) fee_amount) 2
  equity_after ← round (add p.equity_before_trade profit) 2
  percent ← divide (multiply profit (from_integer (pos 100))) p.equity_before_trade 8
  ok (record {
    exit_price = exit_price;
    entry_notional = entry_notional;
    gross_profit = gross_profit;
    slippage_amount = slippage_amount;
    fee_amount = fee_amount;
    profit = profit;
    equity_after_trade = equity_after;
    result_percent = percent;
  })

unfoldable pub settle : Terms → Position → Decimal → Result Error Settlement
settle terms p market_exit = do
  let toward = direction p.signal
  exit_price ←
      round
        (multiply market_exit
          (subtract (from_integer (pos 1)) (multiply toward terms.slippage_rate)))
        8
  entry_notional ← round (multiply p.entry_price p.quantity) 2
  exit_notional ← round (multiply exit_price p.quantity) 2
  gross_profit ←
      round (multiply toward (multiply (subtract market_exit p.market_entry_price) p.quantity)) 2
  entry_slippage ←
      round (multiply (absolute (subtract p.entry_price p.market_entry_price)) p.quantity) 2
  exit_slippage ← round (multiply (absolute (subtract exit_price market_exit)) p.quantity) 2
  slippage_amount ← round (add entry_slippage exit_slippage) 2
  entry_fee ← round (multiply terms.fee_rate entry_notional) 2
  exit_fee ← round (multiply terms.fee_rate exit_notional) 2
  fee_amount ← round (add entry_fee exit_fee) 2
  settle_equity p exit_price entry_notional gross_profit slippage_amount fee_amount

unfoldable pub trade_of : Terms → Position → Decimal → Text → ExitReason → ℕ → Settlement → Trade
trade_of terms p market_exit exit_time reason sequence s = record {
  sequence = sequence;
  pair = terms.pair;
  settlement_asset = terms.settlement_asset;
  backtest_attempt_id = terms.attempt_id;
  signal = p.signal;
  entry_time = p.entry_time;
  market_entry_price = p.market_entry_price;
  entry_price = p.entry_price;
  stop_loss = p.stop_loss;
  take_profit = p.take_profit;
  exit_time = exit_time;
  market_exit_price = market_exit;
  exit_price = s.exit_price;
  exit_reason = reason;
  quantity = p.quantity;
  notional_entry_value = s.entry_notional;
  equity_before_trade = p.equity_before_trade;
  equity_after_trade = s.equity_after_trade;
  gross_profit = s.gross_profit;
  fee_amount = s.fee_amount;
  slippage_bps = terms.slippage_bps;
  slippage_amount = s.slippage_amount;
  profit = s.profit;
  result_percent = s.result_percent;
  result = outcome_of s.profit;
}

unfoldable pub record_trade :
    Terms → Position → Decimal → Text → ExitReason → Book → Settlement → Book
unfolding trade_of
record_trade terms p market_exit exit_time reason b s = record b {
  equity = s.equity_after_trade;
  sequence = b.sequence + 1;
  trades = b.trades ++ trade_of terms p market_exit exit_time reason (b.sequence + 1) s ∷ [];
  position = none;
}

unfoldable pub close_position : Terms → Decimal → Text → ExitReason → Book → Result Error Book
close_position terms market_exit exit_time reason b = elim b.position [
  | none ↦ ok b
  | some p ↦
      settle terms p market_exit >>= λ s. ok (record_trade terms p market_exit exit_time reason b s)
]

unfoldable pub assert_positive_price : Option Decimal → Result Error (Unit {0})
assert_positive_price none = ok tt
assert_positive_price (some value) = throw_if (leb_ℤ value.units (pos 0)) invalid_input

-- A stop-loss or take-profit level: the market price moved by a percentage.
unfoldable pub level :
    (Decimal → Decimal → Decimal)
    → Decimal
    → Decimal
    → Option Number
    → Result Error (Option Decimal)
level move market_entry toward none = ok none
level move market_entry toward (some percent) = do
  exact ← decimal percent
  rate ← divide exact (from_integer (pos 100)) 20
  price ← round (multiply market_entry (move (from_integer (pos 1)) (multiply toward rate))) 8
  ok (some price)

-- `openPosition` once the quantity is known to be positive.
unfoldable pub enter :
    Terms → Side → Candle → ℕ → Decimal → Decimal → Decimal → Book → Result Error Book
enter terms signal candle index market_entry entry_price quantity b = do
  stop_loss ← level subtract market_entry (direction signal) terms.stop_loss_percent
  take_profit ← level add market_entry (direction signal) terms.take_profit_percent
  assert_positive_price stop_loss
  assert_positive_price take_profit
  ok (record b {
    position = some (record {
      signal = signal;
      entry_index = index;
      market_entry_price = market_entry;
      entry_price = entry_price;
      entry_time = candle.timestamp;
      quantity = quantity;
      equity_before_trade = b.equity;
      stop_loss = stop_loss;
      take_profit = take_profit;
    });
  })

unfoldable pub open_position : Terms → Action → Candle → ℕ → Book → Result Error Book
open_position terms action candle index b = do
  let signal = side action
  opening ← decimal candle.opening
  market_entry ← round opening 8
  entry_price ←
      round
        (multiply market_entry
          (add (from_integer (pos 1)) (multiply (direction signal) terms.slippage_rate)))
        8
  quantity ← divide b.equity (multiply entry_price (add (from_integer (pos 1)) terms.fee_rate)) 8
  if leb_ℤ quantity.units (pos 0)
      then ok b
      else enter terms signal candle index market_entry entry_price quantity b
