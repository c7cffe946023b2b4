-- ===== src/Search/Tests.antt =====
-- The theorems on modules/search/application/service.ts at runs with two slots over the in-memory
-- coordinator.
use cryptox.Base.{
  sort_by, insert_by, false, true, ◌>>=◌, throw_if, all, ◌≤◌, ℕ, ◌+◌, ◌≡◌, refl, none, some, [],
  ◌∷◌, pos, Text, Dates, nat_abs, ok, Result, lookup_by, set_by, distinct, distinct_after,
}
use cryptox.Search.Rules.{
  validate_domain_rules, check_rules, read_categories, repeats, includes, same_category,
  is_eligible, is_unsatisfiable, is_domain_guided,
}
use cryptox.Search.Listing.{list_runs, list_by_owner, summary_of}
use cryptox.Search.Satisfiable.{is_usable, validate_domain_rules-satisfiable}
use cryptox.Search.Types.{
  trend, momentum, domain_guided, DomainRules, random, Error, SearchSpace, GeneratedCandidate,
  SearchRun, RunState, running, cancelled,
}
use cryptox.Search.Ports.{Ports}
use cryptox.Search.Submission.{submit, stored_ids}
use cryptox.Search.Loop.{
  fill_core, fill_slots, try_slots, attempt, refresh, note_best, stop_reason, is_over_time,
  is_out_of_candidates, is_stalled, slots, settle_run, finish_if,
}
use cryptox.Search.Service.{State, get_run, resume}
use cryptox.Search.Memory.{
  MemoryWorld, memory_ports, summarize, submit_to_memory, memory-Accounting,
}
use cryptox.Search.Filling.{WithinLimits, fill_core-WithinLimits}
use cryptox.Search.Fingerprints.{Numbers, fill_core-Numbers, fingerprints, IsDistinct}
use cryptox.Search.Lifecycle.{Reaches}
use cryptox.Search.Reachability.{stop, next, resumes, Steps-Ended}

abbrev dates : Dates
dates = record { parse = λ t. some (pos t); to_iso = nat_abs }

abbrev clock : ℕ → Text
clock n = 1000 + n

-- One candidate for each iteration.
abbrev generate : SearchSpace → Text → ℕ → Result Error GeneratedCandidate
generate space run_id n = ok (record {
  strategy_definitions = [];
  composite_definition = record {
    id = 60 + n;
    user_id = 5;
    method = 61;
    components = [];
    thresholds = none;
  };
  execution_policy_intent = record {
    mode = 62;
    stop_loss_percent = none;
    take_profit_percent = none;
  };
  generated_by = random;
  fingerprint = 100 + n;
  lineage = none;
})

abbrev ports : Ports MemoryWorld
ports = memory_ports (λ n. 300 + n) (λ g. some generate)

abbrev empty : MemoryWorld
empty = record { candidates = []; sequence = 0 }

abbrev run : RunState → SearchRun
run state = record {
  search_run_id = 50;
  owner_user_id = 5;
  state = state;
  summary = record {
    active = [];
    queued_count = 0;
    running_count = 0;
    candidates_tested = 0;
    failed_candidate_count = 0;
    retry_exhausted_candidate_count = 0;
    infrastructure_failure_candidate_count = 0;
    completion_processing_failure_candidate_count = 0;
    failed_attempt_count = 0;
    average_backtest_duration_ms = none;
  };
  current_top_entry = none;
  created_at = 900;
  started_at = some 900;
  updated_at = 900;
  ended_at = none;
  stop_reason = none;
  stop_condition = record {
    max_candidates = some 5;
    max_duration_seconds = none;
    no_improvement_after_iterations = none;
  };
  last_error = none;
  search_space = record {
    available_strategies = [];
    domain_rules = none;
    max_components = none;
    generated_fingerprints = 101 ∷ [];
  };
  generator_type = random;
  leaderboard_scope_id = 2;
  max_in_flight = 2;
  next_iteration = 2;
  active_duration_ms = some (pos 0);
  active_since = some 900;
  best_score = none;
  last_improvement_at_candidates = none;
}

-- Two candidates are submitted; the second was generated as iteration 4 and is submitted as 3.
filled : fingerprints (fill_core ports dates clock (run running) empty).1 ≡ 101 ∷ 102 ∷ 104 ∷ []
unfolding fill_core fill_slots try_slots attempt refresh note_best stop_reason is_over_time
    is_out_of_candidates is_stalled slots settle_run finish_if submit stored_ids summarize
    submit_to_memory distinct distinct_after set_by
filled = refl

fill_core-WithinLimits_example :
    WithinLimits ports dates clock
      (memory-Accounting (λ n. 300 + n) (λ g. some generate))
      (run running)
      empty
      (fill_core ports dates clock (run running) empty)
fill_core-WithinLimits_example =
    fill_core-WithinLimits ports dates clock (memory-Accounting (λ n. 300 + n) (λ g. some generate))
      (run running) empty

fingerprints-IsDistinct : IsDistinct (fingerprints (run running))
unfolding distinct distinct_after
fingerprints-IsDistinct = refl

fill_core-Numbers_example :
    Numbers (run running) (fill_core ports dates clock (run running) empty).1
fill_core-Numbers_example =
    fill_core-Numbers ports dates clock (run running) empty fingerprints-IsDistinct

-- A cancelled run, which its owner resumes.
abbrev before : State MemoryWorld
before = record { runs = run cancelled ∷ []; sequence = 1; world = empty }

abbrev resumed : State MemoryWorld
resumed = (resume ports dates clock 5 50 before).0

stored : get_run 50 before ≡ some (run cancelled)
unfolding get_run lookup_by
stored = refl

Steps-Ended_example :
    (run' : SearchRun) × (get_run 50 resumed ≡ some run')
    × Reaches cancelled run'.state
    × (run'.state ≡ cancelled)
Steps-Ended_example =
    Steps-Ended ports dates before resumed 50 (run cancelled) (next stop (resumes clock 5 50 refl))
      stored

-- A space with one strategy of the category that is required.
abbrev rules : DomainRules
rules = record {
  required_categories = some (some (trend ∷ []));
  allowed_categories = none;
  forbidden_categories = some (some (momentum ∷ []));
}

abbrev guided_space : SearchSpace
guided_space = record {
  available_strategies =
      record {
        id = 70;
        user_id = some 5;
        strategy_name = 71;
        parameters = 72;
        category = some trend;
      }
      ∷ [];
  domain_rules = some rules;
  max_components = some 2;
  generated_fingerprints = [];
}

guided_space-passes : validate_domain_rules domain_guided guided_space ≡ ok tt
unfolding validate_domain_rules check_rules read_categories repeats includes same_category
    is_eligible is_unsatisfiable ◌>>=◌ throw_if
guided_space-passes = refl

validate_domain_rules-satisfiable_example :
    (is_domain_guided domain_guided ≡ true)
    × (repeats (trend ∷ []) ≡ false)
    × (all (is_usable none (some (momentum ∷ [])) guided_space.available_strategies) (trend ∷ [])
        ≡ true)
    × ((n : ℕ) → some 2 ≡ some n → 1 ≤ n)
validate_domain_rules-satisfiable_example =
    validate_domain_rules-satisfiable domain_guided guided_space rules (trend ∷ []) tt refl refl
      guided_space-passes

listed : list_runs dates 5 50 before ≡ ok (summary_of (run cancelled) ∷ [])
unfolding list_runs list_by_owner sort_by insert_by
listed = refl
