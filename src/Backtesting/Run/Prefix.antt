-- ===== src/Backtesting/Run/Prefix.antt =====
-- The loop of `simulateBacktest` (modules/backtesting/domain/simulator.ts) does not look ahead.
use cryptox.Base.{
  ℕ, suc, ◌+◌, ◌<◌, ◌≡◌, refl, ◌∙◌, sym, arith, ltb, ◌==◌, List, [], ◌∷◌, ◌++◌, ◌>>=◌, Dates,
  length, append_assoc, bind_assoc, append-nil, Option-cases, inl, inr,
}
use cryptox.Backtesting.Trading.{Terms, Book, Candle, Action}
use cryptox.Backtesting.Inputs.{SimulationInput}
use cryptox.Backtesting.Simulator.{carry_out, run_scheduled, check_exits, decide, step, run_candles}

-- A bound that both lengths pass is tested alike.
same_tests :
    (index m n : ℕ)
    → index + 1 < m
    → index + 1 < n
    → (ltb (index + 1) m ≡ ltb (index + 1) n) × ((index + 1 == m) ≡ (index + 1 == n))
same_tests index m n h k = (ground arith, ground arith)

module _ (dates : Dates) (input : SimulationInput) (terms : Terms) (warmup : ℕ) where
  module _ (m n index : ℕ) (h : index + 1 < m) (k : index + 1 < n) where
    carry_out_same :
        (candle : Candle) (action : Action) (b : Book)
        → carry_out terms m index candle action b ≡ carry_out terms n index candle action b
    unfolding carry_out
    carry_out_same candle action b =
        let below : ltb (index + 1) m ≡ ltb (index + 1) n = (same_tests index m n h k).0 in
        simp below

    run_scheduled_same :
        (candle : Candle) (b : Book)
        → run_scheduled terms m warmup index candle b ≡ run_scheduled terms n warmup index candle b
    unfolding run_scheduled
    run_scheduled_same candle b = elim (Option-cases b.scheduled) [
      | inl e ↦ rw (e, run_scheduled) refl
      | inr (action, e) ↦ rw (e, run_scheduled, carry_out_same candle action b) refl
    ]

    decide_same :
        (seen : List Candle) (candle : Candle) (b : Book)
        → decide dates input m warmup index seen candle b
          ≡ decide dates input n warmup index seen candle b
    unfolding decide
    decide_same seen candle b =
        let last : (index + 1 == m) ≡ (index + 1 == n) = (same_tests index m n h k).1 in
        rw last refl

    step_same :
        (seen : List Candle) (candle : Candle) (b : Book)
        → step dates input terms m warmup index seen candle b
          ≡ step dates input terms n warmup index seen candle b
    unfolding step
    step_same seen candle b = λ i. run_scheduled_same candle b i >>= λ b₁.
        check_exits terms index candle b₁ >>= λ b₂. decide_same seen candle b₂ i

  -- The books after some candles, whatever the number of candles to come.
  run_candles_same :
      (m n index : ℕ) (seen xs : List Candle) (b : Book)
      → index + length xs < m
      → index + length xs < n
      → run_candles dates input terms m warmup index seen xs b
        ≡ run_candles dates input terms n warmup index seen xs b
  unfolding run_candles
  run_candles_same m n index seen [] b h k = refl
  run_candles_same m n index seen (x ∷ xs) b h k = λ i.
      step_same m n index (omega arith) (omega arith) seen x b i >>= λ b'.
      run_candles_same m n (index + 1) (seen ++ x ∷ []) xs b' (omega arith) (omega arith) i

  -- The rest of the run after `xs`.
  run_candles-append :
      (n index : ℕ) (seen xs ys : List Candle) (b : Book)
      → run_candles dates input terms n warmup index seen (xs ++ ys) b ≡ (
          run_candles dates input terms n warmup index seen xs b
          >>= run_candles dates input terms n warmup (index + length xs) (seen ++ xs) ys)
  unfolding run_candles ◌>>=◌
  run_candles-append n index seen [] ys b =
      let e : index + 0 ≡ index = omega arith in rw (append-nil, e) refl
  run_candles-append n index seen (x ∷ xs) ys b =
      let e : index + suc (length xs) ≡ index + 1 + length xs = omega arith in
      rw (e, ← append_assoc seen (x ∷ []) xs)
        ((λ i. step dates input terms n warmup index seen x b >>= λ b'.
            run_candles-append n (index + 1) (seen ++ x ∷ []) xs ys b' i)
          ∙ sym (bind_assoc (step dates input terms n warmup index seen x b) _ _))

  -- The books after the candles `xs` are the same whatever candles follow, as long as there is one:
  -- a run over more candles passes through the books of any other run that begins with `xs`, and
  -- goes on from there. No trade, order or equity up to a candle depends on a later one.
  pub run_candles_causal :
      (m n : ℕ) (xs ys : List Candle) (b : Book)
      → length xs < m
      → length xs < n
      → run_candles dates input terms m warmup 0 [] (xs ++ ys) b ≡ (
          run_candles dates input terms n warmup 0 [] xs b
          >>= run_candles dates input terms m warmup (length xs) xs ys)
  run_candles_causal m n xs ys b h k =
      let from_zero : 0 + length xs ≡ length xs = omega arith in
      run_candles-append m 0 [] xs ys b
      ∙ rw (run_candles_same m n 0 [] xs b (omega arith) (omega arith), from_zero) refl
