-- ===== src/Sentiment/Results.antt =====
-- The results that `analyze` of modules/sentiment/application/service.ts stores, and the failures
-- that it reports.
use cryptox.Base.{
  no_clash, no_clash-snoc, ℕ, suc, ◌+◌, ◌≡◌, arith, Bool, true, false, Bool-cases, some, List, [],
  ◌∷◌, ◌++◌, length, length-append, any, inl, inr, Result, ok, err, Result-cases, Text, Dates, All,
}
use cryptox.Sentiment.Rules.{
  SentimentInput, SentimentResult, SentimentCode, duplicate_result, is_known, is_score,
  validate_sentiment_input, validate_sentiment_result,
}
use cryptox.Sentiment.Windows.{Row}
use cryptox.Sentiment.Repositories.{Thrown, Failure, Store, same_identity, insert_result}
use cryptox.Sentiment.Service.{code_thrown, store_analysis, analyze}

-- A result with a known label and a score from -1 to 1, of the news that it is stored with.
abbrev pub IsGenuine : Row → Type 0
IsGenuine row =
    (is_known row.result.label ≡ true)
    × (is_score row.result.score ≡ true)
    × (row.result.news_id ≡ row.input.news_id)

-- Of one news item and model.
abbrev pub are_same : Row → Row → Bool
are_same a b = same_identity a.result b

pub record IsStored (s : Store) : Type 0 where
  pub genuine : All IsGenuine s.rows
  pub differ : no_clash are_same s.rows ≡ true
  pub counted : s.sequence ≡ length s.rows

abbrev pub is_ok : {E A : Type 0} → Result E A → Bool
is_ok (ok a) = true
is_ok (err e) = false

abbrev pub count : Bool → ℕ
count true = 1
count false = 0

All-snoc :
    (rows : List Row) (row : Row)
    → All IsGenuine rows
    → IsGenuine row
    → All IsGenuine (rows ++ row ∷ [])
All-snoc [] row all_rows h = (h, tt)
All-snoc (r ∷ rows) row all_rows h = (all_rows.0, All-snoc rows row all_rows.1 h)

are_same_comm : (a b : Row) → are_same a b ≡ are_same b a
are_same_comm a b = ground arith

module _ (dates : Dates) (ends_in_z : Text → Bool) where
  validated_lem :
      (result r : SentimentResult) (input : SentimentInput)
      → validate_sentiment_result dates ends_in_z result (some input) ≡ ok r
      → (is_known r.label ≡ true) × (is_score r.score ≡ true) × (r.news_id ≡ input.news_id)
  unfolding validate_sentiment_result
  validated_lem result r input h = (ground arith, ground arith, ground arith)

  -- What comes of an analysis: the results stay stored, and the answer says whether one was added.
  abbrev pub Settled : Store → ℕ → Result SentimentCode SentimentResult × Store → Type 0
  Settled s tries out =
      IsStored out.1
      × (length out.1.rows ≡ length s.rows + count (is_ok out.0))
      × (length out.1.rows + length out.1.failures ≡ length s.rows + length s.failures + tries)

  reported :
      (s : Store) (code : SentimentCode) (failure : Failure)
      → IsStored s
      → Settled s 1 (err code, record s { failures = s.failures ++ failure ∷ [] })
  reported s code failure stored = (
    record { genuine = stored.genuine; differ = stored.differ; counted = stored.counted },
    omega arith,
    omega (arith, length-append s.failures (failure ∷ [])),
  )

  inserted_row :
      (s : Store) (row : Row)
      → IsStored s
      → IsGenuine row
      → any (same_identity row.result) s.rows ≡ false
      → Settled s 1
          (ok row.result, record s { rows = s.rows ++ row ∷ []; sequence = suc s.sequence })
  inserted_row s row stored genuine free = (
    record {
      genuine = All-snoc s.rows row stored.genuine genuine;
      differ = no_clash-snoc are_same s.rows row (λ r. are_same_comm r row) stored.differ free;
      counted = omega (arith, stored.counted, length-append s.rows (row ∷ []));
    },
    length-append s.rows (row ∷ []),
    omega (arith, length-append s.rows (row ∷ [])),
  )

  store_analysis-Settled :
      (input : SentimentInput) (answer : Result Thrown SentimentResult) (s : Store)
      → IsStored s
      → Settled s 1 (store_analysis dates ends_in_z input answer s)
  unfolding store_analysis insert_result
  store_analysis-Settled input (err error) s stored = reported s (code_thrown error.code) _ stored
  store_analysis-Settled input (ok answer) s stored =
      elim (Result-cases (validate_sentiment_result dates ends_in_z answer (some input))) [
        | inr (code, bad) ↦ rw (bad, store_analysis) (reported s code _ stored)
        | inl (result, good) ↦ elim (Bool-cases (any (same_identity result) s.rows)) [
          | inl taken ↦ rw (good, taken, store_analysis) (reported s duplicate_result _ stored)
          | inr free ↦
              rw (good, free, store_analysis)
                (inserted_row s
                  (record { input = input; result = result; sequence = suc s.sequence }) stored
                  (validated_lem answer result input good) free)
        ]
      ]

  -- From stored results, each of a known label and a score from -1 to 1, of its own news and of no
  -- other's news and model, an analysis leads to such results again. It answers with a result exactly
  -- when it added one; and one result or one report of a failure is added if the input is valid, and
  -- none of them if it is not.
  pub analyze-IsStored :
      (model : SentimentInput → Result Thrown SentimentResult) (input : SentimentInput) (s : Store)
      → IsStored s
      → Settled s
          (count (is_ok (validate_sentiment_input dates ends_in_z input)))
          (analyze dates ends_in_z model input s)
  unfolding analyze
  analyze-IsStored model input s stored =
      elim (Result-cases (validate_sentiment_input dates ends_in_z input)) [
        | inr (code, bad) ↦ rw (bad, analyze) (stored, omega arith, omega arith)
        | inl (normalized, good) ↦
            rw (good, analyze) (store_analysis-Settled normalized (model normalized) s stored)
      ]
