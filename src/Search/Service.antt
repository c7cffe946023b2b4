-- ===== src/Search/Service.antt =====
-- `createSearchModule` of modules/search/application/service.ts over its in-memory repository: the
-- operations on the runs. A repository hands out the object that it holds, so what `fillCore` has
-- changed of a run stays changed when it throws.
use cryptox.Base.{
  ℕ, ◌+◌, ◌==◌, Bool, true, false, ◌||◌, if◌then◌else◌, Option, none, some, List, [], ◌∷◌, length,
  pos, negsuc, Result, ok, err, ◌>>=◌, ◌>>◌, throw_if, Text, is_blank, is_empty, Dates, keep,
  lookup_by, set_by, distinct,
}
use cryptox.Leaderboard.Queries.{SearchRunRankingEntry}
use cryptox.Search.Types.{
  GeneratorType, RunState, running, paused, cancelled, failed, user_cancelled, stopped_by_error,
  Error, invalid_auth_context, invalid_search_config, search_run_not_found,
  cannot_resume_failed_run, SearchSpace, StopCondition, Summary, SearchRun,
}
use cryptox.Search.Rules.{
  Setting, integer, no_integer, StopSettings, validate_stop_condition, validate_domain_rules,
  validate_search_space_owner,
}
use cryptox.Search.Ports.{Ports}
use cryptox.Search.Loop.{is_running, active_duration, fill_core, head}

pub record State (W : Type 0) : Type 0 where
  pub runs : List SearchRun
  pub sequence : ℕ
  pub world : W

abbrev pub run_key : SearchRun → Text
run_key run = run.search_run_id

pub record StartConfig : Type 0 where
  pub search_space : SearchSpace
  pub stop_condition : StopSettings
  pub generator_type : GeneratorType
  pub leaderboard_scope_id : Text
  pub max_in_flight : Setting

abbrev no_summary : Summary
no_summary = record {
  active = [];
  queued_count = 0;
  running_count = 0;
  candidates_tested = 0;
  failed_candidate_count = 0;
  retry_exhausted_candidate_count = 0;
  infrastructure_failure_candidate_count = 0;
  completion_processing_failure_candidate_count = 0;
  failed_attempt_count = 0;
  average_backtest_duration_ms = none;
}

unfoldable pub create_run : Text → StartConfig → StopCondition → ℕ → Text → Text → SearchRun
unfolding distinct
create_run id config condition max_in_flight owner now = record {
  search_run_id = id;
  owner_user_id = owner;
  state = running;
  summary = no_summary;
  current_top_entry = none;
  created_at = now;
  started_at = some now;
  updated_at = now;
  ended_at = none;
  stop_reason = none;
  stop_condition = condition;
  last_error = none;
  search_space = record config.search_space {
    generated_fingerprints = distinct config.search_space.generated_fingerprints;
  };
  generator_type = config.generator_type;
  leaderboard_scope_id = config.leaderboard_scope_id;
  max_in_flight = max_in_flight;
  next_iteration = 1;
  active_duration_ms = some (pos 0);
  active_since = some now;
  best_score = none;
  last_improvement_at_candidates = none;
}

-- The check of `maxInFlight` in `start`.
unfoldable pub read_max_in_flight : Setting → Result Error ℕ
read_max_in_flight no_integer = err invalid_search_config
read_max_in_flight (integer (negsuc n)) = err invalid_search_config
read_max_in_flight (integer (pos n)) = if n == 0 then err invalid_search_config else ok n

abbrev pub is_open : RunState → Bool
is_open running = true
is_open paused = true
is_open _ = false

abbrev pub is_failed : RunState → Bool
is_failed failed = true
is_failed _ = false

abbrev pub is_paused : RunState → Bool
is_paused paused = true
is_paused _ = false

abbrev pub is_cancelled : RunState → Bool
is_cancelled cancelled = true
is_cancelled _ = false

unfoldable pub owned_by : Text → Option SearchRun → Option SearchRun
owned_by owner none = none
owned_by owner (some run) = if run.owner_user_id == owner then some run else none

module _ {W : Type 0} where
  unfoldable pub get_run : Text → State W → Option SearchRun
  unfolding lookup_by
  get_run id s = lookup_by run_key id s.runs

  unfoldable pub save_run : SearchRun → State W → State W
  unfolding set_by
  save_run run s = record s { runs = set_by run_key run s.runs }

  -- `assertAuth` and `loadOwned`.
  unfoldable pub load_owned : Text → Text → State W → Result Error SearchRun
  unfolding get_run owned_by
  load_owned user id s =
      if is_blank user then err invalid_auth_context else elim (owned_by user (get_run id s)) [
        | none ↦ err search_run_not_found
        | some run ↦ ok run
      ]

module _ {W : Type 0} (ports : Ports W) (dates : Dates) (clock : ℕ → Text) where
  -- The handler of `fill` for an error: the run fails, if it has not ended.
  unfoldable pub fail_run : Text → Error → State W → State W
  unfolding get_run save_run
  fail_run id e s = elim (get_run id s) [
    | none ↦ s
    | some run ↦
        if is_open run.state
        then save_run
            (record run {
              state = failed;
              stop_reason = some stopped_by_error;
              last_error = some e;
              ended_at = some (clock 7);
              updated_at = clock 8;
            })
            s
        else s
  ]

  unfoldable pub fill : Text → State W → State W × Result Error (Unit {0})
  unfolding get_run save_run fill_core fail_run
  fill id s = elim (get_run id s) [
    | none ↦ (fail_run id search_run_not_found s, err search_run_not_found)
    | some run ↦
        let (w, run', result) = fill_core ports dates clock run s.world in
        let s' = save_run run' (record s { world = w }) in
        elim result [ ok u ↦ (s', ok u) | err e ↦ (fail_run id e s', err e) ]
  ]

  -- `clock 9` is read where the run is made.
  unfoldable pub check_start : Text → Text → StartConfig → State W → Result Error SearchRun
  unfolding create_run read_max_in_flight
  check_start id user config s = do
    throw_if (is_blank user) invalid_auth_context
    condition ← validate_stop_condition config.stop_condition
    in_flight_limit ← read_max_in_flight config.max_in_flight
    throw_if
        (is_empty config.leaderboard_scope_id
          || length config.search_space.available_strategies == 0)
        invalid_search_config
    validate_search_space_owner user config.search_space
    validate_domain_rules config.generator_type config.search_space
    ports.read_benchmark_scope user config.leaderboard_scope_id s.world
    ok (create_run id config condition in_flight_limit user (clock 9))

  -- The first filling follows; its error is dropped. `run_text` writes an id.
  unfoldable pub start : (ℕ → Text) → Text → StartConfig → State W → State W × Result Error Text
  unfolding check_start fill save_run
  start run_text user config s = elim (check_start (run_text (s.sequence + 1)) user config s) [
    | err e ↦ (s, err e)
    | ok run ↦
        let s' = save_run run (record s { sequence = s.sequence + 1 }) in
        ((fill run.search_run_id s').0, ok run.search_run_id)
  ]

  unfoldable pub pause : Text → Text → State W → State W × Result Error (Unit {0})
  unfolding load_owned save_run active_duration
  pause user id s = elim (load_owned user id s) [
    | err e ↦ (s, err e)
    | ok run ↦
        if is_running run.state
        then (
          save_run
              (record run {
                state = paused;
                active_duration_ms = active_duration dates (clock 0) run;
                active_since = none;
                updated_at = clock 0;
              })
              s,
          ok tt,
        )
        else (s, ok tt)
  ]

  unfoldable pub reopen : SearchRun → State W → State W
  unfolding save_run
  reopen run s =
      if is_paused run.state
      then save_run
          (record run { state = running; active_since = some (clock 9); updated_at = clock 9 }) s
      else s

  unfoldable pub resume : Text → Text → State W → State W × Result Error (Unit {0})
  unfolding load_owned reopen fill
  resume user id s = elim (load_owned user id s) [
    | err e ↦ (s, err e)
    | ok run ↦
        if is_failed run.state then (s, err cannot_resume_failed_run) else fill id (reopen run s)
  ]

  -- What is saved in a unit of work that is rolled back is restored; the candidates that the
  -- coordinator has cancelled in it are its own matter.
  unfoldable pub cancel : Text → Text → State W → State W × Result Error (Unit {0})
  unfolding get_run owned_by save_run
  cancel user id s =
      if is_blank user then (s, err invalid_auth_context) else elim (owned_by user (get_run id s)) [
        | none ↦ (s, err search_run_not_found)
        | some run ↦
            if is_cancelled run.state || is_failed run.state
            then (s, ok tt)
            else let (w, ids) = ports.cancel_search_candidates user id s.world in
              elim ids [
                | err e ↦ (record s { world = w }, err e)
                | ok candidate_ids ↦
                    let s' =
                      save_run
                        (record run {
                          state = cancelled;
                          stop_reason = some user_cancelled;
                          ended_at = some (clock 0);
                          active_since = none;
                          updated_at = clock 0;
                        })
                        (record s { world = w }) in
                    let (w', removed) = ports.remove_pending_jobs candidate_ids w in
                    (record s' { world = w' }, removed)
              ]
      ]

  -- `project`, whose result is the run with what the modules report.
  unfoldable pub status : Text → Text → State W → Result Error SearchRun
  unfolding load_owned
  status user id s = elim (load_owned user id s) [
    | err e ↦ err e
    | ok run ↦
        elim (ports.summarize_search_candidates run.owner_user_id run.search_run_id s.world) [
          | err e ↦ err e
          | ok summary ↦ elim (ports.rank_search_run run.owner_user_id run.search_run_id s.world) [
            | err e ↦ err e
            | ok ranking ↦ ok (record run { summary = summary; current_top_entry = head ranking })
          ]
        ]
  ]

  unfoldable pub leaderboard : Text → Text → State W → Result Error (List SearchRunRankingEntry)
  unfolding load_owned
  leaderboard user id s = elim (load_owned user id s) [
    | err e ↦ err e
    | ok run ↦ ports.rank_search_run run.owner_user_id id s.world
  ]

  -- The loop of `reconcileRunningRuns` over the ids of the runs that were running: an error ends it.
  unfoldable pub fill_each : List SearchRun → State W → State W × Result Error (Unit {0})
  unfolding fill
  fill_each [] s = (s, ok tt)
  fill_each (run ∷ rest) s =
      let (s', result) = fill run.search_run_id s in
      elim result [ err e ↦ (s', err e) | ok u ↦ fill_each rest s' ]

  unfoldable pub reconcile_running_runs : State W → State W × Result Error ℕ
  unfolding fill_each
  reconcile_running_runs s =
      let list_running = keep (λ (run : SearchRun). is_running run.state) s.runs in
      let (s', result) = fill_each list_running s in
      (s', elim result [ err e ↦ err e | ok u ↦ ok (length list_running) ])
