-- ===== src/Backtesting/Run/Keeps.antt =====
-- What each step of the simulation keeps, the whole run keeps: one rule for the invariants of
-- modules/backtesting/domain/simulator.ts.
use cryptox.Base.{
  ℕ, ◌+◌, ltb, leb, ◌==◌, ◌≡◌, ◌&&◌, ◌||◌, inl, inr, Option, none, some, List, [], ◌∷◌, ◌++◌, ok,
  Ensures, returned, thrown, bind-Ensures, then-Ensures, if-Ensures, Ensures-bind, Ensures-map,
  Text, Dates, Option-cases, get_last,
}
use cryptox.Backtesting.Decimal.{Decimal}
use cryptox.Backtesting.Trading.{
  Candle, Action, Position, Terms, Book, stop_loss_hit, take_profit_hit, strategy_close, range_end,
}
use cryptox.Backtesting.Positions.{side, close_position, open_position}
use cryptox.Backtesting.Inputs.{SimulationInput, Signal, act, hold, unknown}
use cryptox.Backtesting.Simulator.{
  is_opposed, is_flat, carry_out, run_scheduled, stop_triggered, take_triggered, stop_fill,
  take_fill, try_take, try_stop, check_exits, schedule, decide, step, run_candles,
}
use cryptox.Backtesting.Run.{initial_book, close_at_range_end, simulate}

-- The ways in which a step changes the books.
pub record Keeps (terms : Terms) (P : Book → Type 0) : Type 0 where
  pub reversal :
      (exit : Decimal) (time : Text) (b : Book)
      → P b
      → Ensures P (close_position terms exit time strategy_close b)
  pub ending :
      (exit : Decimal) (time : Text) (b : Book)
      → P b
      → Ensures P (close_position terms exit time range_end b)
  pub stopping :
      (p : Position) (stop opening : Decimal) (time : Text) (b : Book)
      → b.position ≡ some p
      → p.stop_loss ≡ some stop
      → P b
      → Ensures P (close_position terms (stop_fill p.signal opening stop) time stop_loss_hit b)
  pub taking :
      (p : Position) (take opening : Decimal) (time : Text) (b : Book)
      → b.position ≡ some p
      → p.take_profit ≡ some take
      → P b
      → Ensures P (close_position terms (take_fill p.signal opening take) time take_profit_hit b)
  pub opening :
      (action : Action) (candle : Candle) (index : ℕ) (b : Book)
      → P b
      → Ensures P (open_position terms action candle index b)
  pub scheduling : (action : Option Action) (b : Book) → P b → P (record b { scheduled = action })

module _ {terms : Terms} {P : Book → Type 0} (keeps : Keeps terms P) where
  carry_out-keeps :
      (count index : ℕ) (candle : Candle) (action : Action) (b : Book)
      → P b
      → Ensures P (carry_out terms count index candle action b)
  unfolding carry_out
  carry_out-keeps count index candle action b v =
      Ensures-bind {Q = P} _
        (if-Ensures (is_opposed b.position (side action)) _ _
          (λ _. bind-Ensures _ _ λ exit _. keeps.reversal exit candle.timestamp b v)
          (λ _. returned v))
        λ closed v₁.
          Ensures-bind {Q = P} _
            (if-Ensures (is_flat closed.position && ltb (index + 1) count) _ _
              (λ _. keeps.opening action candle index closed v₁) (λ _. returned v₁))
            λ opened v₂. returned (keeps.scheduling none opened v₂)

  run_scheduled-keeps :
      (count warmup index : ℕ) (candle : Candle) (b : Book)
      → P b
      → Ensures P (run_scheduled terms count warmup index candle b)
  unfolding run_scheduled
  run_scheduled-keeps count warmup index candle b v = elim (Option-cases b.scheduled) [
    | inl e ↦ rw (e, run_scheduled) (returned v)
    | inr (action, e) ↦
        rw (e, run_scheduled)
          (if-Ensures (leb warmup index) _ _ (λ _. carry_out-keeps count index candle action b v)
            (λ _. returned v))
  ]

  module _ (candle : Candle) (p : Position) (opening high low : Decimal) (b : Book) where
    try_take-keeps :
        b.position ≡ some p → P b → Ensures P (try_take terms candle p opening high low b)
    unfolding try_take
    try_take-keeps e v = elim (Option-cases p.take_profit) [
      | inl f ↦ rw (f, try_take) (returned v)
      | inr (take, f) ↦
          rw (f, try_take)
            (if-Ensures (take_triggered p.signal high low take) _ _
              (λ _. keeps.taking p take opening candle.timestamp b e f v) (λ _. returned v))
    ]

    try_stop-keeps :
        b.position ≡ some p → P b → Ensures P (try_stop terms candle p opening high low b)
    unfolding try_stop
    try_stop-keeps e v = elim (Option-cases p.stop_loss) [
      | inl f ↦ rw (f, try_stop) (try_take-keeps e v)
      | inr (stop, f) ↦
          rw (f, try_stop)
            (if-Ensures (stop_triggered p.signal high low stop) _ _
              (λ _. keeps.stopping p stop opening candle.timestamp b e f v)
              (λ _. try_take-keeps e v))
    ]

  check_exits-keeps :
      (index : ℕ) (candle : Candle) (b : Book) → P b → Ensures P (check_exits terms index candle b)
  unfolding check_exits
  check_exits-keeps index candle b v = elim (Option-cases b.position) [
    | inl e ↦ rw (e, check_exits) (returned v)
    | inr (p, e) ↦
        rw (e, check_exits)
          (if-Ensures (ltb p.entry_index index) _ _
            (λ _. bind-Ensures _ _ λ opening _.
              bind-Ensures _ _
                λ high _. bind-Ensures _ _ λ low _. try_stop-keeps candle p opening high low b e v)
            (λ _. returned v))
  ]

  schedule-keeps : (signal : Signal) (b : Book) → P b → Ensures P (schedule signal b)
  unfolding schedule
  schedule-keeps hold b v = returned v
  schedule-keeps unknown b v = thrown
  schedule-keeps (act action) b v =
      if-Ensures (is_flat b.position || is_opposed b.position (side action)) _ _
        (λ _. returned (keeps.scheduling (some action) b v)) (λ _. returned v)

  module _ (dates : Dates) (input : SimulationInput) where
    decide-keeps :
        (count warmup index : ℕ) (seen : List Candle) (candle : Candle) (b : Book)
        → P b
        → Ensures P (decide dates input count warmup index seen candle b)
    unfolding decide
    decide-keeps count warmup index seen candle b v =
        if-Ensures (ltb index warmup || index + 1 == count) _ _ (λ _. returned v)
          λ _. bind-Ensures _ _ λ sentiment _. schedule-keeps _ b v

    step-keeps :
        (count warmup index : ℕ) (seen : List Candle) (candle : Candle) (b : Book)
        → P b
        → Ensures P (step dates input terms count warmup index seen candle b)
    unfolding step
    step-keeps count warmup index seen candle b v =
        Ensures-bind _ (run_scheduled-keeps count warmup index candle b v) λ b₁ v₁.
          Ensures-bind _ (check_exits-keeps index candle b₁ v₁)
            λ b₂ v₂. decide-keeps count warmup index seen candle b₂ v₂

    run_candles-keeps :
        (count warmup index : ℕ) (seen candles : List Candle) (b : Book)
        → P b
        → Ensures P (run_candles dates input terms count warmup index seen candles b)
    unfolding run_candles
    run_candles-keeps count warmup index seen [] b v = returned v
    run_candles-keeps count warmup index seen (candle ∷ rest) b v =
        Ensures-bind _ (step-keeps count warmup index seen candle b v)
          λ b' v'. run_candles-keeps count warmup (index + 1) (seen ++ candle ∷ []) rest b' v'

    close_at_range_end-keeps :
        (candles : List Candle) (b : Book)
        → P b
        → Ensures P (close_at_range_end dates input terms candles b)
    unfolding close_at_range_end
    close_at_range_end-keeps candles b v = elim (Option-cases b.position) [
      | inl e ↦ rw (e, close_at_range_end) (returned v)
      | inr (p, e) ↦ elim (Option-cases (get_last candles)) [
        | inl f ↦ rw (e, f, close_at_range_end) (returned v)
        | inr (last, f) ↦
            rw (e, f, close_at_range_end)
              (bind-Ensures _ _ λ exit _. bind-Ensures _ _ λ end _. keeps.ending exit end b v)
      ]
    ]

-- What the first books have and each step keeps, the last books have.
pub simulate-keeps :
    (dates : Dates) (input : SimulationInput) (P : Book → Book → Type 0)
    → ((terms : Terms) (start : Book)
        → initial_book input ≡ ok start
        → P start start × Keeps terms (P start))
    → Ensures
        (λ b. (start : Book) × (initial_book input ≡ ok start) × P start b)
        (simulate dates input)
unfolding simulate
simulate-keeps dates input P h = then-Ensures _ _ λ _ _. bind-Ensures _ _ λ warmup _.
    then-Ensures _ _ λ _ _. then-Ensures _ _ λ _ _. bind-Ensures _ _ λ terms _.
      bind-Ensures _ _ λ start e.
        let (first, keeps) = h terms start e in
        Ensures-bind _ (run_candles-keeps keeps dates input _ warmup 0 [] _ start first) λ ran v.
          Ensures-map (close_at_range_end-keeps keeps dates input _ ran v) λ b w. (start, e, w)
