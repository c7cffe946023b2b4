-- ===== src/Candidates.antt =====
-- modules/backtesting/application: the candidates of the backtests, their attempts, dispatches and
-- completions, as InMemoryBacktestingRepository keeps them.
pub mod Records
pub mod Scopes
pub mod Worker
pub mod Recovery
pub mod Completion
pub mod Effects
pub mod WorkerEffects
pub mod CompletionEffects
pub mod Finality
pub mod Lifecycle
pub mod Stuck
pub mod Leases
mod Samples
mod Tests
mod LeaseTests
