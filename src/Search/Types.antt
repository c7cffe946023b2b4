-- ===== src/Search/Types.antt =====
-- modules/search/domain/contracts.ts: what a search run keeps and what a generator returns. Scores
-- and weights are whole multiples of 2^-1074, as on the leaderboard.
use cryptox.Base.{ℕ, Option, List, ℤ, Text}
use cryptox.Leaderboard.Queries.{SearchRunRankingEntry}

pub data GeneratorType : Type 0 where
  random domain_guided genetic : GeneratorType

pub data StrategyCategory : Type 0 where
  trend momentum volatility structure information : StrategyCategory

pub data RunState : Type 0 where
  created running paused completed cancelled failed : RunState

pub data StopReason : Type 0 where
  max_candidates_met max_duration_met no_improvement user_cancelled stopped_by_error : StopReason

pub data Error : Type 0 where
  invalid_auth_context invalid_stop_condition invalid_search_config domain_rule_unsatisfiable
        search_run_not_found unsupported_generator search_generation_exhausted
        cannot_resume_failed_run :
      Error
  -- An error of another module.
  thrown_outside : Text → Error

-- The parameters are their JSON text.
pub record StrategyDefinition : Type 0 where
  pub id : Text
  pub user_id : Option Text
  pub strategy_name : Text
  pub parameters : Text
  pub category : Option StrategyCategory

pub record Component : Type 0 where
  pub strategy_definition_id : Text
  pub weight : ℤ

pub record Composite : Type 0 where
  pub id : Text
  pub user_id : Text
  pub method : Text
  pub components : List Component
  pub thresholds : Option (ℤ × ℤ)

pub record CandidateLineage : Type 0 where
  pub parent_fingerprints : List Text
  pub crossover_point : ℕ
  pub mutated_parameter_keys : List Text
  pub selection_mutation : Option (Option Text × Option Text)

pub record ExecutionPolicyIntent : Type 0 where
  pub mode : Text
  pub stop_loss_percent : Option ℤ
  pub take_profit_percent : Option ℤ

pub record GeneratedCandidate : Type 0 where
  pub strategy_definitions : List StrategyDefinition
  pub composite_definition : Composite
  pub execution_policy_intent : ExecutionPolicyIntent
  pub generated_by : GeneratorType
  pub fingerprint : Text
  pub lineage : Option CandidateLineage

-- `none` is a value that is no array of known categories.
pub record DomainRules : Type 0 where
  pub required_categories : Option (Option (List StrategyCategory))
  pub allowed_categories : Option (Option (List StrategyCategory))
  pub forbidden_categories : Option (Option (List StrategyCategory))

pub record SearchSpace : Type 0 where
  pub available_strategies : List StrategyDefinition
  pub domain_rules : Option DomainRules
  pub max_components : Option ℕ
  pub generated_fingerprints : List Text

-- As it is checked: its numbers are positive integers.
pub record StopCondition : Type 0 where
  pub max_candidates : Option ℕ
  pub max_duration_seconds : Option ℕ
  pub no_improvement_after_iterations : Option ℕ

pub data CandidateStatus : Type 0 where
  candidate_created candidate_queued candidate_backtesting candidate_retry_wait
        candidate_processing_result candidate_failure_pending candidate_completed candidate_failed
        candidate_cancelled :
      CandidateStatus

pub record CandidateProgress : Type 0 where
  pub candidate_id : Text
  pub search_run_id : Text
  pub iteration_number : ℕ
  pub fingerprint : Text
  pub status : CandidateStatus

-- What `summarizeSearchCandidates` returns.
pub record Summary : Type 0 where
  pub active : List CandidateProgress
  pub queued_count : ℕ
  pub running_count : ℕ
  pub candidates_tested : ℕ
  pub failed_candidate_count : ℕ
  pub retry_exhausted_candidate_count : ℕ
  pub infrastructure_failure_candidate_count : ℕ
  pub completion_processing_failure_candidate_count : ℕ
  pub failed_attempt_count : ℕ
  pub average_backtest_duration_ms : Option ℤ

-- The counts of a run are the summary that it was last refreshed with. The duration is `none` where
-- it is NaN.
pub record SearchRun : Type 0 where
  pub search_run_id : Text
  pub owner_user_id : Text
  pub state : RunState
  pub summary : Summary
  pub current_top_entry : Option SearchRunRankingEntry
  pub created_at : Text
  pub started_at : Option Text
  pub updated_at : Text
  pub ended_at : Option Text
  pub stop_reason : Option StopReason
  pub stop_condition : StopCondition
  pub last_error : Option Error
  pub search_space : SearchSpace
  pub generator_type : GeneratorType
  pub leaderboard_scope_id : Text
  pub max_in_flight : ℕ
  pub next_iteration : ℕ
  pub active_duration_ms : Option ℤ
  pub active_since : Option Text
  pub best_score : Option ℤ
  pub last_improvement_at_candidates : Option ℕ

pub record CandidateCommand : Type 0 where
  pub leaderboard_scope_id : Text
  pub strategy_definition_ids : List Text
  pub composite_definition_id : Text
  pub execution_policy : ExecutionPolicyIntent
  pub max_attempts : ℕ
  pub search_run_id : Text
  pub iteration_number : ℕ
  pub generated_by : GeneratorType
  pub fingerprint : Text
  pub lineage : Option CandidateLineage
