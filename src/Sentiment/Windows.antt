-- ===== src/Sentiment/Windows.antt =====
-- The windows of a sentiment snapshot: `aggregateSnapshotPoints` and `pointForCandle` of
-- modules/sentiment/application/service.ts. Times are milliseconds; the division of doubles is exact
-- on differences of times below 2^53.
use cryptox.Base.{
  ℕ, ◌+◌, ◌-◌, ◌*◌, ◌/◌, max, ◌==◌, Bool, not, ◌||◌, if◌then◌else◌, Option, none, some, List, [],
  ◌∷◌, ◌++◌, any, sort_by, find_first, ℤ, pos, negsuc, ◌+ℤ◌, ◌-ℤ◌, eqb_ℤ, ltb_ℤ, leb_ℤ, pos_part,
  Result, ok, ◌>>=◌, Text, Dates, Codes, same,
}
use cryptox.Sentiment.Rules.{
  Label, neutral, SentimentInput, SentimentResult, SnapshotCommand, SnapshotPoint, SentimentCode,
  is_label_for, validate_sentiment_input, validate_sentiment_result, validate_snapshot_point,
}

-- A row of the results: what was analysed, and the result.
pub record Row : Type 0 where
  pub input : SentimentInput
  pub result : SentimentResult
  pub sequence : ℕ

pub record Bucket : Type 0 where
  pub end : ℤ
  pub scores : List (Option ℤ)

pub record SnapshotRef : Type 0 where
  pub id : Text
  pub related_coin : Codes
  pub from : Text
  pub to : Text
  pub aggregation_window_seconds : Option ℤ
  pub model_name : Text
  pub model_version : Text
  pub model_sha256 : List ℕ
  pub point_count : ℕ
  pub sha256 : Text
  pub created_at : Text

pub record Sealed : Type 0 where
  pub ref : SnapshotRef
  pub points : List SnapshotPoint

unfoldable pub window_ms : Option ℤ → ℕ
window_ms (some (pos n)) = n * 1000
window_ms (some (negsuc n)) = 0
window_ms none = 0

unfoldable pub ceil_div : ℕ → ℕ → ℕ
ceil_div n w = (n + (w - 1)) / w

-- `from + Math.max(1, Math.ceil((time - from) / windowMs)) * windowMs`, for a time from `from` on.
unfoldable pub window_end : ℤ → ℕ → ℤ → ℤ
unfolding ceil_div
window_end from w time = from +ℤ pos (max 1 (ceil_div (pos_part (time -ℤ from)) w) * w)

abbrev pub has_coin : Codes → List Codes → Bool
has_coin coin coins = any (λ c. same c coin) coins

unfoldable pub put_score : ℤ → Option ℤ → List Bucket → List Bucket
put_score end score [] = record { end = end; scores = score ∷ [] } ∷ []
put_score end score (b ∷ buckets) =
    if eqb_ℤ b.end end
    then record b { scores = b.scores ++ score ∷ [] } ∷ buckets
    else b ∷ put_score end score buckets

-- The end of the window of a time in the range, where the window lies in the range.
abbrev pub end_within : Option ℤ → Option ℤ → ℕ → Option ℤ → Option ℤ
end_within (some from) (some to) w (some time) =
    if ltb_ℤ time from || leb_ℤ to time
    then none
    else if ltb_ℤ to (window_end from w time)
    then none
    else some (window_end from w time)
end_within (some from) (some to) w none = none
end_within (some from) none w time = none
end_within none to w time = none

module _ (dates : Dates) (ends_in_z : Text → Bool) where
  -- The end of the window in which a row counts, where it does.
  unfoldable pub window_of : SnapshotCommand → Row → Option ℤ
  window_of command row =
      if not (row.result.model_name == command.model_name)
        || not (row.result.model_version == command.model_version)
        || not (has_coin command.related_coin row.input.related_coins)
      then none
      else end_within (dates.parse command.from) (dates.parse command.to)
          (window_ms command.aggregation_window_seconds) (dates.parse row.input.published_at)

  abbrev pub put_at : Option ℤ → Option ℤ → List Bucket → List Bucket
  put_at none score buckets = buckets
  put_at (some end) score buckets = put_score end score buckets

  -- The loop over the rows.
  unfoldable pub collect :
      SnapshotCommand → List Row → List Bucket → Result SentimentCode (List Bucket)
  collect command [] buckets = ok buckets
  collect command (row ∷ rows) buckets =
      validate_sentiment_input dates ends_in_z row.input >>= λ input.
      validate_sentiment_result dates ends_in_z row.result (some row.input) >>= λ result.
      collect command rows (put_at (window_of command row) row.result.score buckets)

  abbrev ends_before : Bucket → Bucket → Bool
  ends_before a b = leb_ℤ a.end b.end

  abbrev label_of : Option ℤ → Label
  label_of none = neutral
  label_of (some v) = is_label_for v

  -- `average` is the sum over the count, to twelve places; `none` is not finite.
  unfoldable pub points_of :
      (List (Option ℤ) → Option ℤ) → List Bucket → Result SentimentCode (List SnapshotPoint)
  points_of average [] = ok []
  points_of average (b ∷ buckets) =
      validate_snapshot_point dates ends_in_z (record {
        timestamp = dates.to_iso b.end;
        label = label_of (average b.scores);
        average_score = average b.scores;
      })
      >>= λ point. points_of average buckets >>= λ points. ok (point ∷ points)

  unfoldable pub aggregate_snapshot_points :
      (List (Option ℤ) → Option ℤ)
      → SnapshotCommand
      → List Row
      → Result SentimentCode (List SnapshotPoint)
  aggregate_snapshot_points average command rows = do
    buckets ← collect command rows []
    points_of average (sort_by ends_before buckets)

  abbrev point_at : List SnapshotPoint → Option ℤ → Option ℤ → ℕ → Option ℤ → Option SnapshotPoint
  point_at points (some from) (some to) w (some close) =
      if leb_ℤ close from || ltb_ℤ to close
      then none
      else if ltb_ℤ to (window_end from w close) || not (eqb_ℤ (window_end from w close) close)
      then none
      else find_first (λ (p : SnapshotPoint). p.timestamp == dates.to_iso (window_end from w close))
          points
  point_at points (some from) (some to) w none = none
  point_at points (some from) none w close = none
  point_at points none to w close = none

  unfoldable pub point_for_candle : Sealed → Text → Text → Option SnapshotPoint
  point_for_candle snapshot id close =
      if not (snapshot.ref.id == id)
      then none
      else point_at snapshot.points (dates.parse snapshot.ref.from) (dates.parse snapshot.ref.to)
          (window_ms snapshot.ref.aggregation_window_seconds) (dates.parse close)
