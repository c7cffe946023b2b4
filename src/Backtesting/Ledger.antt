-- ===== src/Backtesting/Ledger.antt =====
-- The books of modules/backtesting/domain/simulator.ts before and after `closePosition`.
use cryptox.Base.{
  ℕ, suc, ◌+◌, ◌≡◌, ◌∙◌, refl, ap, arith, Option, none, some, List, [], ◌∷◌, ◌++◌, ℤ, pos, ◌+ℤ◌,
  ◌-ℤ◌, Ensures, returned, bind-Ensures, Ensures-bind, Text, length, length-append, subst, +ℤ_assoc,
  +ℤ-zero, Option-cases, then-Ensures, if-Ensures, leb_ℤ, inl, inr,
}
use cryptox.Backtesting.Decimal.{Decimal}
use cryptox.Backtesting.Trading.{Position, Candle, Action, Trade, Terms, Book, ExitReason}
use cryptox.Backtesting.Settlement.{IsCents, Balances, settle-Balances}
use cryptox.Backtesting.Positions.{
  Settlement, trade_of, record_trade, close_position, enter, open_position,
}

-- A trade that carries on the books: the next number, the equity that the books had, and amounts
-- that add up.
pub record CarriesOn (n : ℕ) (before : Decimal) (t : Trade) : Type 0 where
  pub numbered : t.sequence ≡ suc n
  pub from_equity : t.equity_before_trade ≡ before
  pub profit_units :
      t.profit.units ≡ t.gross_profit.units -ℤ t.slippage_amount.units -ℤ t.fee_amount.units
  pub equity_units : t.equity_after_trade.units ≡ before.units +ℤ t.profit.units
  pub cents : IsCents t.equity_after_trade

-- The trades numbered from `n` on that lead from one equity to another.
abbrev pub Chain : ℕ → Decimal → List Trade → Decimal → Type 0
Chain n before [] after = before ≡ after
Chain n before (t ∷ ts) after = CarriesOn n before t × Chain (suc n) t.equity_after_trade ts after

-- The sum of the profits, in cents.
abbrev pub total_profit : List Trade → ℤ
total_profit [] = pos 0
total_profit (t ∷ ts) = t.profit.units +ℤ total_profit ts

Chain-append :
    (n : ℕ) (before : Decimal) (ts : List Trade) (middle : Decimal) (t : Trade)
    → Chain n before ts middle
    → CarriesOn (n + length ts) middle t
    → Chain n before (ts ++ t ∷ []) t.equity_after_trade
Chain-append n before [] middle t e c =
    (rw e (subst (λ k. CarriesOn k middle t) (omega arith) c), refl)
Chain-append n before (u ∷ us) middle t (c, h) d = (
  c,
  Chain-append (suc n) u.equity_after_trade us middle t h
      (subst (λ k. CarriesOn k middle t) (omega arith) d),
)

-- The equity at the end is the equity at the start and the profits.
pub Chain-total :
    (n : ℕ) (before : Decimal) (ts : List Trade) (after : Decimal)
    → Chain n before ts after
    → after.units ≡ before.units +ℤ total_profit ts
Chain-total n before [] after e = rw (+ℤ-zero before.units, e)
Chain-total n before (t ∷ ts) after (c, h) =
    Chain-total (suc n) t.equity_after_trade ts after h
    ∙ (ap (λ u. u +ℤ total_profit ts) c.equity_units
        ∙ +ℤ_assoc before.units t.profit.units (total_profit ts))

abbrev Funded : Decimal → Option Position → Type 0
Funded equity none = Unit {0}
Funded equity (some p) = p.equity_before_trade ≡ equity

-- The invariant of the loop: the trades lead from the start to the equity, which is in cents, and
-- an open position was opened with that equity.
pub record Sound (start : Decimal) (b : Book) : Type 0 where
  pub chain : Chain 0 start b.trades b.equity
  pub counted : b.sequence ≡ length b.trades
  pub cents : IsCents b.equity
  pub funded : Funded b.equity b.position

record_trade-Sound :
    (start : Decimal) (terms : Terms) (p : Position) (exit : Decimal) (time : Text)
    (reason : ExitReason) (b : Book) (s : Settlement)
    → Sound start b
    → p.equity_before_trade ≡ b.equity
    → Balances p.equity_before_trade s
    → Sound start (record_trade terms p exit time reason b s)
unfolding record_trade
record_trade-Sound start terms p exit time reason b s v e w =
    let t = trade_of terms p exit time reason (b.sequence + 1) s in
    record {
      chain = Chain-append 0 start b.trades b.equity t v.chain (trade_of-CarriesOn v.counted e w);
      counted = omega (arith, length-append b.trades (t ∷ []), v.counted);
      cents = w.cents;
      funded = tt;
    }
  where
    trade_of-CarriesOn :
        b.sequence ≡ length b.trades
        → p.equity_before_trade ≡ b.equity
        → Balances p.equity_before_trade s
        → CarriesOn
            (0 + length b.trades)
            b.equity
            (trade_of terms p exit time reason (b.sequence + 1) s)
    trade_of-CarriesOn counted same w = record {
      numbered = omega (arith, counted);
      from_equity = same;
      profit_units = w.profit_units;
      equity_units = w.equity_units ∙ ap (λ (d : Decimal). d.units +ℤ s.profit.units) same;
      cents = w.cents;
    }

-- `closePosition` keeps the invariant.
pub close_position-Sound :
    (start : Decimal) (terms : Terms) (exit : Decimal) (time : Text) (reason : ExitReason)
    (b : Book)
    → Sound start b
    → Ensures (Sound start) (close_position terms exit time reason b)
unfolding close_position
close_position-Sound start terms exit time reason b v = elim (Option-cases b.position) [
  | inl e ↦ rw (e, close_position) (returned v)
  | inr (p, e) ↦
      rw (e, close_position)
        (let same = subst (Funded b.equity) e v.funded in
          Ensures-bind _
            (settle-Balances terms p exit (ap (λ (d : Decimal). d.scale) same ∙ v.cents))
            λ s w. returned (record_trade-Sound start terms p exit time reason b s v same w))
]

-- So does `openPosition`, which opens with the equity of the books.
pub open_position-Sound :
    (start : Decimal) (terms : Terms) (action : Action) (candle : Candle) (index : ℕ) (b : Book)
    → Sound start b
    → Ensures (Sound start) (open_position terms action candle index b)
unfolding open_position enter
open_position-Sound start terms action candle index b v = bind-Ensures _ _ λ opening _.
    bind-Ensures _ _ λ market_entry _. bind-Ensures _ _ λ entry_price _.
      bind-Ensures _ _ λ quantity _.
        if-Ensures (leb_ℤ quantity.units (pos 0)) _ _ (λ _. returned v)
          λ _. bind-Ensures _ _ λ stop _. bind-Ensures _ _ λ take _. then-Ensures _ _ λ _ _.
            then-Ensures _ _ λ _ _.
              returned
                (record { chain = v.chain; counted = v.counted; cents = v.cents; funded = refl })
