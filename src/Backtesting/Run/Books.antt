-- ===== src/Backtesting/Run/Books.antt =====
-- The books of a finished run of `simulateBacktest` (modules/backtesting/domain/simulator.ts).
use cryptox.Base.{
  ◌≡◌, refl, ◌+ℤ◌, ok, Ensures, returned, bind-Ensures, Ensures-bind, Ensures-eq, Dates,
}
use cryptox.Backtesting.Decimal.{Decimal}
use cryptox.Backtesting.Trading.{Terms, Book}
use cryptox.Backtesting.Settlement.{round-scale}
use cryptox.Backtesting.Ledger.{
  Chain, Chain-total, total_profit, Sound, close_position-Sound, open_position-Sound,
}
use cryptox.Backtesting.Inputs.{SimulationInput, CompletedBacktestResult}
use cryptox.Backtesting.Run.{initial_book, result_of, simulate, simulate_backtest}
use cryptox.Backtesting.Run.Keeps.{Keeps, simulate-keeps}

Sound-Keeps : (terms : Terms) (start : Decimal) → Keeps terms (Sound start)
Sound-Keeps terms start = record {
  reversal = λ exit time b v. close_position-Sound start terms exit time _ b v;
  ending = λ exit time b v. close_position-Sound start terms exit time _ b v;
  stopping = λ p stop opening time b _ _ v. close_position-Sound start terms _ time _ b v;
  taking = λ p take opening time b _ _ v. close_position-Sound start terms _ time _ b v;
  opening = λ action candle index b v. open_position-Sound start terms action candle index b v;
  scheduling = λ action b v. record {
    chain = v.chain;
    counted = v.counted;
    cents = v.cents;
    funded = v.funded;
  };
}

initial_book-Sound :
    (input : SimulationInput) → Ensures (λ start. Sound start.equity start) (initial_book input)
unfolding initial_book
initial_book-Sound input = bind-Ensures _ _ λ capital _. bind-Ensures _ _ λ equity e.
    returned (record { chain = refl; counted = refl; cents = round-scale capital 2 e; funded = tt })

simulate-Sound :
    (dates : Dates) (input : SimulationInput)
    → Ensures
        (λ b. (start : Book) × (initial_book input ≡ ok start) × Sound start.equity b)
        (simulate dates input)
simulate-Sound dates input =
    simulate-keeps dates input (λ start b. Sound start.equity b)
      λ terms start e. (Ensures-eq (initial_book-Sound input) e, Sound-Keeps terms start.equity)

-- The trades lead from the initial capital, rounded to cents, to a final equity, and the profits
-- make up the difference.
abbrev pub AddsUp : SimulationInput → CompletedBacktestResult → Type 0
AddsUp input r =
    (start : Book) × (final : Decimal) × (initial_book input ≡ ok start)
    × Chain 0 start.equity r.trades final
    × (final.units ≡ start.equity.units +ℤ total_profit r.trades)

-- The trades of a completed backtest, in order, are numbered from 1; each starts from the equity
-- that the one before it left, the first from the initial capital rounded to cents; the profit of
-- each is its gross profit less slippage and fees, and is what its equity changes by; and the last
-- equity is the first one plus all the profits. All this is exact, in cents.
pub simulate_backtest-AddsUp :
    (dates : Dates) (input : SimulationInput) {r : CompletedBacktestResult}
    → simulate_backtest dates input ≡ ok r
    → AddsUp input r
unfolding simulate_backtest result_of
simulate_backtest-AddsUp dates input e =
    Ensures-eq {P = AddsUp input}
      (Ensures-bind _ (simulate-Sound dates input) λ b (start, s, v).
        returned
          (start, b.equity, s, v.chain, Chain-total 0 start.equity b.trades b.equity v.chain))
      e
