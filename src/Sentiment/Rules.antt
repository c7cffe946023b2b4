-- ===== src/Sentiment/Rules.antt =====
-- The checks of modules/sentiment/domain/rules.ts. A score is a finite double or `none`.
use Prim.Native.String.{String}
use cryptox.Base.{
  ℕ, ◌-◌, ◌==◌, leb, Bool, true, false, not, ◌&&◌, ◌||◌, if◌then◌else◌, Option, none, some, List,
  [], ◌∷◌, length, drop, all, ℤ, pos, negsuc, ltb_ℤ, leb_ℤ, Result, ok, err, Text, is_blank,
  is_sha256, Dates, Codes, codes, same, is_digit, trim, one,
}

pub data Label : Type 0 where
  positive neutral negative : Label
  -- Any other text.
  unknown : Label

pub record SentimentInput : Type 0 where
  pub news_id : Text
  pub title : Text
  pub content : Text
  pub source : Text
  pub published_at : Text
  pub related_coins : List Codes

pub record SentimentResult : Type 0 where
  pub news_id : Text
  pub label : Label
  pub score : Option ℤ
  pub model_name : Text
  pub model_version : Text
  pub analyzed_at : Text

pub record SnapshotCommand : Type 0 where
  pub related_coin : Codes
  pub from : Text
  pub to : Text
  -- `none` is a number that is no integer.
  pub aggregation_window_seconds : Option ℤ
  pub model_name : Text
  pub model_version : Text
  pub model_sha256 : List ℕ

pub record SnapshotPoint : Type 0 where
  pub timestamp : Text
  pub label : Label
  pub average_score : Option ℤ

pub data SentimentCode : Type 0 where
  invalid_input invalid_result duplicate_result analysis_failed : SentimentCode
  invalid_snapshot snapshot_not_found : SentimentCode

abbrev pub required_text : Text → Bool
required_text t = not (is_blank t)

abbrev pub is_known : Label → Bool
is_known unknown = false
is_known label = true

-- Whether a score lies from -1 to 1.
unfoldable pub is_score : Option ℤ → Bool
unfolding one
is_score none = false
is_score (some v) = leb_ℤ (negsuc (one - 1)) v && leb_ℤ v (pos one)

unfoldable pub is_label_for : ℤ → Label
is_label_for score =
    if ltb_ℤ (pos 0) score then positive else if ltb_ℤ score (pos 0) then negative else neutral

-- The last codes of a text.
abbrev ends_in : String → Codes → Bool
ends_in suffix s =
    leb (length (codes suffix)) (length s)
    && same (drop (length s - length (codes suffix)) s) (codes suffix)

abbrev is_capital : ℕ → Bool
is_capital c = (leb b'A' c && leb c b'Z') || is_digit c

abbrev is_filled : Codes → Bool
is_filled [] = false
is_filled (c ∷ cs) = true

abbrev all_filled : List Codes → Bool
all_filled coins = all (λ coin. is_filled (trim coin)) coins

-- /^[A-Z0-9]{2,12}$/, not ending in a quote asset, and its own upper case.
unfoldable pub is_base_asset : (Codes → Codes) → Codes → Bool
is_base_asset to_upper coin =
    is_filled (trim coin)
    && same coin (to_upper coin)
    && not (
        ends_in "USDT" coin
        || ends_in "USDC" coin
        || ends_in "BUSD" coin
        || ends_in "FDUSD" coin
        || ends_in "USD" coin)
    && leb 2 (length coin)
    && leb (length coin) 12
    && all is_capital coin

module _ (dates : Dates) (ends_in_z : Text → Bool) where
  abbrev is_printed : Text → Option ℤ → Bool
  is_printed t none = false
  is_printed t (some ms) = ends_in_z t && dates.to_iso ms == t

  unfoldable pub canonical_timestamp : Text → Bool
  canonical_timestamp t = is_printed t (dates.parse t)

  unfoldable pub validate_sentiment_input : SentimentInput → Result SentimentCode SentimentInput
  validate_sentiment_input input =
      if not (
        required_text input.news_id
        && required_text input.title
        && required_text input.content
        && required_text input.source)
      then err invalid_input
      else if not (canonical_timestamp input.published_at) || not (all_filled input.related_coins)
      then err invalid_input
      else ok input

  abbrev pub is_of : Option SentimentInput → Text → Bool
  is_of none id = true
  is_of (some input) id = id == input.news_id

  unfoldable pub validate_sentiment_result :
      SentimentResult → Option SentimentInput → Result SentimentCode SentimentResult
  validate_sentiment_result result input =
      if not (required_text result.news_id)
        || not (is_known result.label)
        || not (is_score result.score)
      then err invalid_result
      else if not (required_text result.model_name && required_text result.model_version)
          || not (canonical_timestamp result.analyzed_at)
      then err invalid_result
      else if not (is_of input result.news_id)
      then err invalid_result
      else ok result

  unfoldable pub validate_snapshot_point : SnapshotPoint → Result SentimentCode SnapshotPoint
  validate_snapshot_point point =
      if not (canonical_timestamp point.timestamp)
        || not (is_known point.label)
        || not (is_score point.average_score)
      then err invalid_snapshot
      else ok point

  abbrev ends_late : Option ℤ → Option ℤ → Bool
  ends_late none to = false
  ends_late (some from) none = false
  ends_late (some from) (some to) = ltb_ℤ from to

  abbrev is_positive : Option ℤ → Bool
  is_positive none = false
  is_positive (some n) = ltb_ℤ (pos 0) n

  -- `lower` is the lower case of the hash.
  unfoldable pub validate_snapshot_command :
      (Codes → Codes) → (List ℕ → List ℕ) → SnapshotCommand → Result SentimentCode SnapshotCommand
  validate_snapshot_command to_upper lower command =
      if not (is_base_asset to_upper command.related_coin)
      then err invalid_snapshot
      else if not (canonical_timestamp command.from)
          || not (canonical_timestamp command.to)
          || not (ends_late (dates.parse command.from) (dates.parse command.to))
      then err invalid_snapshot
      else if not (is_positive command.aggregation_window_seconds)
          || not (required_text command.model_name && required_text command.model_version)
          || not (is_sha256 command.model_sha256)
      then err invalid_snapshot
      else ok (record command { model_sha256 = lower command.model_sha256 })
