-- ===== src/Sentiment/Tests.antt =====
-- News that is analysed and put into a snapshot, and the theorems at it. Times are numbers of
-- milliseconds, windows are of one second.
use cryptox.Base.{
  ℕ, Text, Bool, ◌≡◌, refl, arith, true, Option, none, some, List, [], ◌∷◌, Dates, ℤ, pos, nat_abs,
  Result, ok, err, ◌>>=◌, ◌>>◌, throw_if, codes, lookup_by, set_by, sort_by, insert_by, ◌+ℤ◌, ◌-ℤ◌,
  keep, map, all, one, trim, replicate,
}
use cryptox.Sentiment.Rules.{
  positive, SentimentInput, SentimentResult, SnapshotCommand, duplicate_result, is_score,
  is_label_for, canonical_timestamp, is_base_asset, validate_sentiment_input,
  validate_sentiment_result, validate_snapshot_point, validate_snapshot_command,
}
use cryptox.Sentiment.Windows.{
  ceil_div, window_ms, window_end, put_score, window_of, collect, points_of,
  aggregate_snapshot_points, point_for_candle,
}
use cryptox.Sentiment.Repositories.{
  Thrown, Store, read_for_snapshot, insert_sealed, get_snapshot_ref,
}
use cryptox.Sentiment.Service.{
  store_analysis, analyze, prepare_snapshot, create_snapshot, check_points, read_snapshot,
}
use cryptox.Sentiment.Causality.{scores_at, score_of, falls_in, counts_within, collect-IsCausal}
use cryptox.Sentiment.Results.{IsStored, Settled, count, is_ok, analyze-IsStored}

abbrev dates : Dates
dates = record { parse = λ t. some (pos t); to_iso = nat_abs }

abbrev news : ℕ → SentimentInput
news at = record {
  news_id = at;
  title = 2;
  content = 3;
  source = 4;
  published_at = at;
  related_coins = codes "BTC" ∷ [];
}

-- A model that likes everything.
abbrev likes : SentimentInput → Result Thrown SentimentResult
likes input = ok (record {
  news_id = input.news_id;
  label = positive;
  score = some (pos 1);
  model_name = 5;
  model_version = 6;
  analyzed_at = 9000;
})

abbrev empty_store : Store
empty_store = record { rows = []; sequence = 0; snapshots = []; ids_by_hash = []; failures = [] }

abbrev ends : Text → Bool
ends t = true

-- Published at the start, in the first window, on its end, and past the last window.
abbrev full_store : Store
full_store =
    (analyze dates ends likes (news 9900)
      (analyze dates ends likes (news 2000)
        (analyze dates ends likes (news 1500)
          (analyze dates ends likes (news 1000) empty_store).1).1).1).1

abbrev command : SnapshotCommand
command = record {
  related_coin = codes "BTC";
  from = 1000;
  to = 3500;
  aggregation_window_seconds = some (pos 1);
  model_name = 5;
  model_version = 6;
  model_sha256 = replicate 64 b'a';
}

abbrev first_score : List (Option ℤ) → Option ℤ
first_score [] = none
first_score (score ∷ scores) = score

twice : (analyze dates ends likes (news 2000) full_store).0 ≡ err duplicate_result
unfolding analyze store_analysis validate_sentiment_input validate_sentiment_result
    canonical_timestamp is_score one trim
twice = refl

gathered :
    collect dates ends command full_store.rows []
    ≡ ok (record { end = pos 2000; scores = some (pos 1) ∷ some (pos 1) ∷ some (pos 1) ∷ [] } ∷ [])
unfolding collect window_of window_ms window_end ceil_div put_score ◌+ℤ◌ ◌-ℤ◌ ◌>>=◌ analyze
    store_analysis validate_sentiment_input validate_sentiment_result canonical_timestamp is_score
    one trim
gathered = refl

-- An identity in place of the cases and the hash.
abbrev sealed : Store
sealed =
    (create_snapshot dates ends (λ s. s) (λ s. s) first_score (λ c points. 77) 70 9990 command
      full_store).1

reads :
    (get_snapshot_ref 70 sealed >>= λ ref.
    read_snapshot dates ends 70 sealed >>= λ read. ok (read ref.id 2000))
    ≡ ok (some (record { timestamp = 2000; label = positive; average_score = some (pos 1) }))
unfolding create_snapshot insert_sealed prepare_snapshot read_for_snapshot validate_snapshot_command
    is_base_asset aggregate_snapshot_points points_of sort_by insert_by validate_snapshot_point
    is_label_for read_snapshot check_points get_snapshot_ref point_for_candle lookup_by set_by
    throw_if ◌>>◌ collect window_of window_ms window_end ceil_div put_score ◌+ℤ◌ ◌-ℤ◌ ◌>>=◌ analyze
    store_analysis validate_sentiment_input validate_sentiment_result canonical_timestamp is_score
    one trim
reads = refl

collect-IsCausal_example :
    (scores_at
        (pos 2000)
        (record { end = pos 2000; scores = some (pos 1) ∷ some (pos 1) ∷ some (pos 1) ∷ [] } ∷ [])
      ≡ map score_of (keep (falls_in dates ends command (pos 2000)) full_store.rows))
    × (all
          (counts_within dates ends command (pos 2000))
          (keep (falls_in dates ends command (pos 2000)) full_store.rows)
        ≡ true)
unfolding window_ms
collect-IsCausal_example =
    collect-IsCausal dates ends command full_store.rows
      (record { end = pos 2000; scores = some (pos 1) ∷ some (pos 1) ∷ some (pos 1) ∷ [] } ∷ [])
      (pos 2000) (omega arith) gathered

empty_store-IsStored : IsStored empty_store
empty_store-IsStored = record { genuine = tt; differ = refl; counted = refl }

analyze-IsStored_example :
    Settled dates ends empty_store
      (count (is_ok (validate_sentiment_input dates ends (news 1500))))
      (analyze dates ends likes (news 1500) empty_store)
analyze-IsStored_example =
    analyze-IsStored dates ends likes (news 1500) empty_store empty_store-IsStored
