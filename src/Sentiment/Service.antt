-- ===== src/Sentiment/Service.antt =====
-- The operations of modules/sentiment/application/service.ts.
use cryptox.Base.{
  ℕ, ◌==◌, length, Bool, true, false, not, ◌&&◌, ◌||◌, if◌then◌else◌, Option, none, some, List, [],
  ◌∷◌, ◌++◌, any, lookup_by, ℤ, Result, ok, err, ◌>>=◌, ◌>>◌, throw_if, Text, Dates, Codes,
}
use cryptox.Sentiment.Rules.{
  SentimentInput, SentimentResult, SnapshotCommand, SnapshotPoint, SentimentCode, invalid_result,
  analysis_failed, invalid_snapshot, snapshot_not_found, validate_sentiment_input,
  validate_sentiment_result, validate_snapshot_command, validate_snapshot_point,
}
use cryptox.Sentiment.Windows.{SnapshotRef, Sealed, aggregate_snapshot_points, point_for_candle}
use cryptox.Sentiment.Repositories.{
  Thrown, FailureReason, timeout, inference_error, invalid, Store, insert_result, read_for_snapshot,
  snapshot_id, insert_sealed,
}

abbrev is_invalid_result : Option SentimentCode → Bool
is_invalid_result (some invalid_result) = true
is_invalid_result code = false

unfoldable pub inference_failure_reason : Thrown → FailureReason
inference_failure_reason error =
    if error.says_timeout
    then timeout
    else if is_invalid_result error.code
    then invalid
    else inference_error

abbrev report : Text → Thrown → Store → Store
report news_id error s = record s {
  failures =
      s.failures ++ record { news_id = news_id; reason = inference_failure_reason error } ∷ [];
}

abbrev own : SentimentCode → Thrown
own code = record { code = some code; says_timeout = false }

abbrev pub code_thrown : Option SentimentCode → SentimentCode
code_thrown none = analysis_failed
code_thrown (some code) = code

abbrev failed : Text → Thrown → Store → Result SentimentCode SentimentResult × Store
failed news_id error s = (err (code_thrown error.code), report news_id error s)

module _ (dates : Dates) (ends_in_z : Text → Bool) where
  -- What follows the answer of the model.
  unfoldable pub store_analysis :
      SentimentInput
      → Result Thrown SentimentResult
      → Store
      → Result SentimentCode SentimentResult × Store
  unfolding insert_result inference_failure_reason
  store_analysis input (err error) s = failed input.news_id error s
  store_analysis input (ok answer) s =
      elim (validate_sentiment_result dates ends_in_z answer (some input)) [
        | err code ↦ failed input.news_id (own code) s
        | ok result ↦ elim (insert_result result input s) [
          | err code ↦ failed input.news_id (own code) s
          | ok stored ↦ (ok result, stored)
        ]
      ]

  unfoldable pub analyze :
      (SentimentInput → Result Thrown SentimentResult)
      → SentimentInput
      → Store
      → Result SentimentCode SentimentResult × Store
  unfolding store_analysis
  analyze model input s = elim (validate_sentiment_input dates ends_in_z input) [
    | err code ↦ (err code, s)
    | ok normalized ↦ store_analysis normalized (model normalized) s
  ]

  abbrev is_empty_list : List SnapshotPoint → Bool
  is_empty_list [] = true
  is_empty_list (p ∷ points) = false

  -- `hash` is the SHA-256 of the serialization, `id` a new identifier.
  unfoldable pub prepare_snapshot :
      (Codes → Codes)
      → (List ℕ → List ℕ)
      → (List (Option ℤ) → Option ℤ)
      → (SnapshotCommand → List SnapshotPoint → Text)
      → Text
      → Text
      → SnapshotCommand
      → Store
      → Result SentimentCode Sealed
  prepare_snapshot to_upper lower average hash id now command s = do
    normalized ← validate_snapshot_command dates ends_in_z to_upper lower command
    points ←
        aggregate_snapshot_points dates ends_in_z average normalized
          (read_for_snapshot normalized s)
    throw_if (is_empty_list points) invalid_snapshot
    ok (record {
      ref = record {
        id = id;
        related_coin = normalized.related_coin;
        from = normalized.from;
        to = normalized.to;
        aggregation_window_seconds = normalized.aggregation_window_seconds;
        model_name = normalized.model_name;
        model_version = normalized.model_version;
        model_sha256 = normalized.model_sha256;
        point_count = length points;
        sha256 = hash normalized points;
        created_at = now;
      };
      points = points;
    })

  unfoldable pub check_points : List SnapshotPoint → Result SentimentCode (List SnapshotPoint)
  check_points [] = ok []
  check_points (p ∷ points) = validate_snapshot_point dates ends_in_z p >>= λ checked.
      check_points points >>= λ rest. ok (checked ∷ rest)

  abbrev differ_in_time : List SnapshotPoint → Bool
  differ_in_time [] = true
  differ_in_time (p ∷ points) =
      not (any (λ (q : SnapshotPoint). q.timestamp == p.timestamp) points) && differ_in_time points

  -- What the reader that is answered reads at a candle's close.
  unfoldable pub read_snapshot :
      Text → Store → Result SentimentCode (Text → Text → Option SnapshotPoint)
  read_snapshot id s = elim (lookup_by snapshot_id id s.snapshots) [
    | none ↦ err snapshot_not_found
    | some snapshot ↦ check_points snapshot.points >>= λ points.
        throw_if (not (length points == snapshot.ref.point_count) || not (differ_in_time points))
          invalid_snapshot
        >> ok (point_for_candle dates ends_in_z (record { ref = snapshot.ref; points = points }))
  ]

unfoldable pub create_snapshot :
    (dates : Dates) (ends_in_z : Text → Bool)
    → (Codes → Codes)
    → (List ℕ → List ℕ)
    → (List (Option ℤ) → Option ℤ)
    → (SnapshotCommand → List SnapshotPoint → Text)
    → Text
    → Text
    → SnapshotCommand
    → Store
    → Result SentimentCode (Option SnapshotRef) × Store
unfolding insert_sealed
create_snapshot dates ends_in_z to_upper lower average hash id now command s =
    elim (prepare_snapshot dates ends_in_z to_upper lower average hash id now command s) [
      | err code ↦ (err code, s)
      | ok snapshot ↦ (
        ok (insert_sealed snapshot.ref snapshot.points s).0,
        (insert_sealed snapshot.ref snapshot.points s).1,
      )
    ]
