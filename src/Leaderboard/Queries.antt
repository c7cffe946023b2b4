-- ===== src/Leaderboard/Queries.antt =====
-- The other operations of `createLeaderboardModule` (modules/leaderboard/application/service.ts) but
-- `score`: rankings, and scopes made and read.
use cryptox.Base.{
  set_by, ℕ, ◌+◌, leb, Bool, true, false, not, ◌&&◌, ◌||◌, if◌then◌else◌, Option, none, some, List,
  [], ◌∷◌, ℤ, pos, ltb_ℤ, leb_ℤ, Result, ok, err, Text, is_blank, is_empty, is_sha256, keep,
  sort_by,
}
use cryptox.Leaderboard.Ranking.{Entry, rank_entries}
use cryptox.Leaderboard.Store.{Command, Scope, Store, get_formula, get_active_top_k}
use cryptox.Leaderboard.Service.{
  Error, invalid_auth_context, score_formula_not_found, invalid_scope, search_run_not_found,
  Experiment, top_k_limit, open_scope, cache_scope, cache_formula,
}

unfoldable pub top_k : (ℕ → Text) → Text → Text → Store → Store × Result Error (List Entry)
unfolding open_scope
top_k id_text user_id scope_id s =
    if is_blank user_id
    then (s, err invalid_auth_context)
    else let (s', opened) = open_scope user_id scope_id s in
      (
        s',
        elim opened [
          | err e ↦ err e
          | ok scope ↦ ok (rank_entries id_text (get_active_top_k id_text scope_id top_k_limit s'))
        ],
      )

unfoldable pub get_leaderboard_scope : Text → Text → Store → Store × Result Error Scope
get_leaderboard_scope user_id id s =
    if is_blank user_id then (s, err invalid_auth_context) else open_scope user_id id s

-- A finite number, above 0 or not below it.
unfoldable pub is_amount : Bool → Option ℤ → Bool
is_amount strict none = false
is_amount strict (some n) = if strict then ltb_ℤ (pos 0) n else leb_ℤ (pos 0) n

unfoldable pub is_valid_command : Command → Bool
unfolding is_amount
is_valid_command c =
    not (
      is_blank c.name
      || is_empty c.dataset_snapshot.id
      || is_empty c.dataset_snapshot.pair
      || ltb_ℤ c.dataset_snapshot.candle_count (pos 0)
      || not (is_sha256 c.dataset_snapshot.sha256))
    && (is_amount true c.initial_capital
        && is_amount false c.fee_rate_percent
        && is_amount false c.slippage_bps)
    && not (
        is_blank c.worker_runtime_version
        || is_blank c.evaluation_runtime_version
        || not (is_sha256 c.worker_runtime_sha256)
        || not (is_sha256 c.evaluation_runtime_sha256))

-- `scope_text` writes `leaderboard-scope-${n}`.
unfoldable pub create_leaderboard_scope :
    (ℕ → Text) → Text → Text → Command → Store → Store × Result Error Scope
unfolding is_valid_command cache_formula cache_scope
create_leaderboard_scope scope_text now user_id command s =
    if is_blank user_id
    then (s, err invalid_auth_context)
    else if not (is_valid_command command)
    then (s, err invalid_scope)
    else elim (get_formula command.score_formula_id s) [
      | none ↦ (s, err score_formula_not_found)
      | some formula ↦
          let scope : Scope = record {
            id = scope_text (s.sequence + 1);
            user_id = user_id;
            version = 1;
            terms = command;
            created_at = now;
          } in
          let s' = cache_formula formula s in
          (
            cache_scope scope (record s' {
              sequence = s'.sequence + 1;
              scopes = set_by (λ (c : Scope). c.id) scope s'.scopes;
            }),
            ok scope,
          )
    ]

pub record SearchRunRankingEntry : Type 0 where
  pub rank : ℕ
  pub search_run_id : Text
  pub leaderboard_scope_id : Text
  pub candidate_id : Text
  pub experiment_result_id : Text
  pub score_formula_id : Text
  pub score : ℤ

abbrev pub score_or_zero : Experiment → ℤ
score_or_zero x = elim x.overall_score [ none ↦ pos 0 | some score ↦ score ]

abbrev is_finite : Option ℤ → Bool
is_finite none = false
is_finite (some n) = true

unfoldable pub is_ranked : Experiment → Bool
is_ranked x = x.rank_eligible && is_finite x.overall_score

-- The comparator of `rankSearchRun`, on experiments with a finite score.
unfoldable pub scores_before : Experiment → Experiment → Bool
scores_before left right =
    if ltb_ℤ (score_or_zero right) (score_or_zero left)
    then true
    else if ltb_ℤ (score_or_zero left) (score_or_zero right)
    then false
    else leb left.id right.id

unfoldable pub number_experiments : Text → ℕ → List Experiment → List SearchRunRankingEntry
number_experiments run_id n [] = []
number_experiments run_id n (x ∷ xs) =
    record {
      rank = n;
      search_run_id = run_id;
      leaderboard_scope_id = x.leaderboard_scope_id;
      candidate_id = x.candidate_id;
      experiment_result_id = x.id;
      score_formula_id = x.score_formula_id;
      score = score_or_zero x;
    }
    ∷ number_experiments run_id (n + 1) xs

-- Whether there is a reader of search runs and it knows no run of this id for the user.
unfoldable pub is_unknown_run : Option (Text → Text → Bool) → Text → Text → Bool
is_unknown_run none user_id run_id = false
is_unknown_run (some known) user_id run_id = not (known user_id run_id)

-- `experiments` is what the experiment reader returns for the run.
unfoldable pub rank_search_run :
    Option (Text → Text → Bool)
    → Text
    → Text
    → List Experiment
    → Result Error (List SearchRunRankingEntry)
unfolding number_experiments scores_before is_ranked is_unknown_run
rank_search_run reader user_id run_id experiments =
    if is_blank user_id
    then err invalid_auth_context
    else if is_unknown_run reader user_id run_id
    then err search_run_not_found
    else ok (number_experiments run_id 1 (sort_by scores_before (keep is_ranked experiments)))
