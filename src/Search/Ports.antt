-- ===== src/Search/Ports.antt =====
-- The ports of the search service (modules/search/application/ports.ts) over a state of the modules
-- behind them. Reading leaves that state alone.
use cryptox.Base.{ℕ, Option, List, Result, Text}
use cryptox.Leaderboard.Queries.{SearchRunRankingEntry}
use cryptox.Search.Types.{
  Error, StrategyDefinition, Composite, CandidateCommand, Summary, GeneratorType, SearchSpace,
  GeneratedCandidate,
}

pub record StrategyPort (W : Type 0) : Type 0 where
  pub read_definitions : Text → List Text → W → Result Error (List StrategyDefinition)
  pub define_strategy : Option (Text → Text → Text → W → W × Result Error StrategyDefinition)
  pub define_composite : Text → Composite → W → W × Result Error Composite
  pub read_composite : Text → Text → W → Result Error Composite

-- A generator is called with the search space, the run and the iteration number.
pub record Ports (W : Type 0) : Type 0 where
  pub generators : GeneratorType → Option (SearchSpace → Text → ℕ → Result Error GeneratedCandidate)
  pub strategy_service : Option (StrategyPort W)
  pub read_benchmark_scope : Text → Text → W → Result Error (Unit {0})
  pub submit_search_candidate : Text → CandidateCommand → W → W × Result Error (Unit {0})
  pub summarize_search_candidates : Text → Text → W → Result Error Summary
  pub cancel_search_candidates : Text → Text → W → W × Result Error (List Text)
  pub remove_pending_jobs : List Text → W → W × Result Error (Unit {0})
  pub rank_search_run : Text → Text → W → Result Error (List SearchRunRankingEntry)
