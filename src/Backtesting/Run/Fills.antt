-- ===== src/Backtesting/Run/Fills.antt =====
-- At what price the simulator of modules/backtesting/domain/simulator.ts closes a trade.
use cryptox.Base.{Option, none, some, List, [], ◌∷◌, ◌≤ℤ◌}
use cryptox.Backtesting.Decimal.{Decimal}
use cryptox.Backtesting.Trading.{
  Book, Trade, Side, long, short, ExitReason, stop_loss_hit, take_profit_hit, strategy_close,
  range_end,
}
use cryptox.Backtesting.Run.Keeps.{Keeps}

-- A price at which the holder of a position gains no more than at another one.
abbrev pub NoBetter : Side → Decimal → Decimal → Type 0
NoBetter long price level = price.units ≤ℤ level.units
NoBetter short price level = level.units ≤ℤ price.units

-- What the reason of an exit says of its price and of the levels of the position.
abbrev pub FairExit : ExitReason → Side → Option Decimal → Option Decimal → Decimal → Type 0
FairExit stop_loss_hit signal (some stop) take price = NoBetter signal price stop
FairExit stop_loss_hit signal none take price = ⊥
FairExit take_profit_hit signal stop (some take) price = NoBetter signal take price
FairExit take_profit_hit signal stop none price = ⊥
FairExit strategy_close signal stop take price = Unit {0}
FairExit range_end signal stop take price = Unit {0}

abbrev pub IsFair : Trade → Type 0
IsFair t = FairExit t.exit_reason t.signal t.stop_loss t.take_profit t.market_exit_price

abbrev pub AllFair : List Trade → Type 0
AllFair [] = Unit {0}
AllFair (t ∷ ts) = IsFair t × AllFair ts

abbrev FairBook : Book → Type 0
FairBook b = AllFair b.trades
