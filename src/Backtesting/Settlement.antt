-- ===== src/Backtesting/Settlement.antt =====
-- The amounts that `closePosition` of modules/backtesting/domain/simulator.ts computes.
use cryptox.Base.{
  ℕ, ◌≡◌, ◌∙◌, ap, sym, arith, ◌+ℤ◌, ◌-ℤ◌, Result, ok, ◌>>=◌, Ensures, returned, bind-Ensures,
}
use cryptox.Backtesting.Decimal.{Error, Decimal, add, subtract, round}
use cryptox.Backtesting.Decimal.Laws.{
  units_at, units_at_self, units_at-add, units_at-subtract, round_exact,
}
use cryptox.Backtesting.Trading.{Position, Terms}
use cryptox.Backtesting.Positions.{Settlement, settle_equity, settle}

-- A number of cents.
abbrev pub IsCents : Decimal → Type 0
IsCents d = d.scale ≡ 2

pub round-scale : (d : Decimal) (k : ℕ) {r : Decimal} → round d k ≡ ok r → r.scale ≡ k
unfolding round ◌>>=◌
round-scale d k h = ground arith

units_at_cents : (d : Decimal) → IsCents d → units_at 2 d ≡ d.units
units_at_cents d h = ap (λ k. units_at k d) (sym h) ∙ units_at_self d

ok-units : {d r : Decimal} → ◌≡◌ {A = Result Error Decimal} (ok d) (ok r) → r.units ≡ d.units
ok-units h = cc

round_difference :
    (g s f : Decimal) {r : Decimal}
    → IsCents g
    → IsCents s
    → IsCents f
    → round (subtract (subtract g s) f) 2 ≡ ok r
    → r.units ≡ g.units -ℤ s.units -ℤ f.units
round_difference g s f hg hs hf h =
    let inner = units_at-subtract 2 g s (omega arith) (omega arith) in
    let outer = units_at-subtract 2 (subtract g s) f inner.0 (omega arith) in
    cc (
      ok-units (sym (round_exact 2 (subtract (subtract g s) f) outer.0) ∙ h),
      inner.1,
      outer.1,
      units_at_cents g hg,
      units_at_cents s hs,
      units_at_cents f hf,
    )

round_sum :
    (a b : Decimal) {r : Decimal}
    → IsCents a
    → IsCents b
    → round (add a b) 2 ≡ ok r
    → r.units ≡ a.units +ℤ b.units
round_sum a b ha hb h =
    let sum = units_at-add 2 a b (omega arith) (omega arith) in
    cc (
      ok-units (sym (round_exact 2 (add a b) sum.0) ∙ h),
      sum.1,
      units_at_cents a ha,
      units_at_cents b hb,
    )

-- A settlement that balances, from an equity in cents.
pub record Balances (before : Decimal) (s : Settlement) : Type 0 where
  pub profit_units :
      s.profit.units ≡ s.gross_profit.units -ℤ s.slippage_amount.units -ℤ s.fee_amount.units
  pub equity_units : s.equity_after_trade.units ≡ before.units +ℤ s.profit.units
  pub cents : IsCents s.equity_after_trade
  pub profit_cents : IsCents s.profit

settle_equity-Balances :
    (p : Position) (exit_price entry_notional gross slip fee : Decimal)
    → IsCents p.equity_before_trade
    → IsCents gross
    → IsCents slip
    → IsCents fee
    → Ensures
        (Balances p.equity_before_trade)
        (settle_equity p exit_price entry_notional gross slip fee)
unfolding settle_equity
settle_equity-Balances p exit_price entry_notional gross slip fee hp hg hs hf =
    bind-Ensures _ _ λ profit e₁. bind-Ensures _ _ λ after e₂. bind-Ensures _ _ λ percent e₃.
      let c₁ : IsCents profit = round-scale _ 2 e₁ in
      returned (record {
        profit_units = round_difference gross slip fee hg hs hf e₁;
        equity_units = round_sum p.equity_before_trade profit hp c₁ e₂;
        cents = round-scale _ 2 e₂;
        profit_cents = c₁;
      })

-- Whatever the prices and rates, closing a position in cents balances.
pub settle-Balances :
    (terms : Terms) (p : Position) (market_exit : Decimal)
    → IsCents p.equity_before_trade
    → Ensures (Balances p.equity_before_trade) (settle terms p market_exit)
unfolding settle
settle-Balances terms p market_exit hp = bind-Ensures _ _ λ exit_price _.
    bind-Ensures _ _ λ entry_notional _. bind-Ensures _ _ λ exit_notional _.
      bind-Ensures _ _ λ gross e₁. bind-Ensures _ _ λ _ _. bind-Ensures _ _ λ _ _.
        bind-Ensures _ _ λ slip e₂. bind-Ensures _ _ λ _ _. bind-Ensures _ _ λ _ _.
          bind-Ensures _ _ λ fee e₃.
            settle_equity-Balances p exit_price entry_notional gross slip fee hp
              (round-scale _ 2 e₁) (round-scale _ 2 e₂) (round-scale _ 2 e₃)
