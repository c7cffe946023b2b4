-- ===== src/Sentiment/Repositories.antt =====
-- The repositories in memory of modules/sentiment/application/service.ts.
use cryptox.Base.{
  ℕ, suc, ◌==◌, ltb, leb, Bool, ◌&&◌, ◌||◌, if◌then◌else◌, Option, none, some, List, [], ◌∷◌, ◌++◌,
  any, keep, sort_by, lookup_by, set_by, Result, ok, err, Text,
}
use cryptox.Sentiment.Rules.{
  SentimentInput, SentimentResult, SnapshotCommand, SnapshotPoint, SentimentCode, duplicate_result,
  snapshot_not_found,
}
use cryptox.Sentiment.Windows.{Row, SnapshotRef, Sealed, has_coin}

-- What the adapter of the model may throw: a code, if it is an error of this module, and whether its
-- text speaks of a timeout.
pub record Thrown : Type 0 where
  pub code : Option SentimentCode
  pub says_timeout : Bool

pub data FailureReason : Type 0 where
  timeout inference_error invalid : FailureReason

pub record Failure : Type 0 where
  pub news_id : Text
  pub reason : FailureReason

pub record HashedId : Type 0 where
  pub sha256 : Text
  pub id : Text

-- The repositories, with the failures that were reported.
pub record Store : Type 0 where
  pub rows : List Row
  pub sequence : ℕ
  pub snapshots : List Sealed
  pub ids_by_hash : List HashedId
  pub failures : List Failure

-- The same news item and model.
abbrev pub same_identity : SentimentResult → Row → Bool
same_identity result row =
    row.result.news_id == result.news_id
    && row.result.model_name == result.model_name
    && row.result.model_version == result.model_version

unfoldable pub insert_result : SentimentResult → SentimentInput → Store → Result SentimentCode Store
insert_result result input s =
    if any (same_identity result) s.rows
    then err duplicate_result
    else ok (record s {
      rows = s.rows ++ record { input = input; result = result; sequence = suc s.sequence } ∷ [];
      sequence = suc s.sequence;
    })

abbrev is_newer : Row → Row → Bool
is_newer a b =
    ltb b.result.analyzed_at a.result.analyzed_at
    || (a.result.analyzed_at == b.result.analyzed_at && leb b.sequence a.sequence)

abbrev first_result : List Row → Option SentimentResult
first_result [] = none
first_result (row ∷ rows) = some row.result

unfoldable pub read_latest_for_news : Text → Store → Option SentimentResult
read_latest_for_news news_id s =
    first_result (sort_by is_newer (keep (λ (row : Row). row.result.news_id == news_id) s.rows))

unfoldable pub read_for_snapshot : SnapshotCommand → Store → List Row
read_for_snapshot command s =
    keep
      (λ (row : Row).
        row.result.model_name == command.model_name
        && row.result.model_version == command.model_version
        && has_coin command.related_coin row.input.related_coins
        && leb command.from row.input.published_at
        && ltb row.input.published_at command.to)
      s.rows

abbrev pub snapshot_id : Sealed → Text
snapshot_id snapshot = snapshot.ref.id

abbrev hash_of : HashedId → Text
hash_of entry = entry.sha256

-- A snapshot with the hash of an old one is the old one.
unfoldable pub insert_sealed : SnapshotRef → List SnapshotPoint → Store → Option SnapshotRef × Store
insert_sealed ref points s = elim (lookup_by hash_of ref.sha256 s.ids_by_hash) [
  | some entry ↦ elim (lookup_by snapshot_id entry.id s.snapshots) [
    | some old ↦ (some old.ref, s)
    -- Undefined, where the hash is known and the snapshot is not.
    | none ↦ (none, s)
  ]
  | none ↦ (
    some ref,
    record s {
      snapshots = set_by snapshot_id (record { ref = ref; points = points }) s.snapshots;
      ids_by_hash = set_by hash_of (record { sha256 = ref.sha256; id = ref.id }) s.ids_by_hash;
    },
  )
]

unfoldable pub get_snapshot_ref : Text → Store → Result SentimentCode SnapshotRef
get_snapshot_ref id s = elim (lookup_by snapshot_id id s.snapshots) [
  | none ↦ err snapshot_not_found
  | some snapshot ↦ ok snapshot.ref
]
