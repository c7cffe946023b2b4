-- ===== src/Lib.antt =====
-- Cryptox: backtests of trading strategies, the leaderboard that ranks their experiments, and the
-- search runs that generate strategies and submit them.
--
-- The parts and how they interact. A search run (modules/search) fills its free slots with
-- candidates of a generator and submits them to the backtests. A worker simulates a candidate over
-- candles (modules/backtesting/domain/simulator.ts). A finished experiment is submitted to the board
-- of its scope (modules/leaderboard), and the run reads its ranking back.
-- Strategies and composites are defined and versioned by modules/strategy; news gets sentiment
-- results, which are sealed into snapshots for backtests (modules/sentiment). modules/market-data
-- keeps candles complete and up to date, modules/auth has the users that own all of it,
-- apps/backend reads the configuration, and apps/frontend keeps charts and routes.
--
-- The files.
-- - Base: Boolean tests on the native numbers, lists, integers, errors as values (`Result`), the
--   stable sort of JavaScript, texts, and maps and sets as lists.
-- - Backtesting models modules/backtesting/domain/simulator.ts. Decimal has the bigint decimals
--   (powerOfTen to divide), Trading the data, Positions `closePosition` and `openPosition`, Inputs
--   the checks of candles and percentages, Simulator the loop over the candles with its two
--   closures, Run `simulateBacktest`. Settlement, Ledger and the files below Decimal and Run hold
--   the proofs.
-- - Leaderboard models modules/leaderboard/application/service.ts. Ranking has `rankEntries`, Store
--   the in-memory repositories and the caches, Service `submit`, Queries the other operations but
--   `score`. Ranks, Boards, Admission, Submissions, Answers and RunRanking hold the proofs.
-- - Search models modules/search/application/service.ts. Types has the records of
--   modules/search/domain/contracts.ts, Rules the checks of `start`, Ports the ports of
--   modules/search/application/ports.ts over a state of the modules behind them, Submission
--   `submit`, Loop `refresh`, `stopReason` and `fillCore`, Service the operations but `list`, which
--   Listing has, Memory the in-memory coordinator. Accounting states what the filling relies on,
--   which Memory fills; Limits, Turns, Refreshing, Filling, Fingerprints, Lifecycle, Evolution,
--   Steps, Reachability and Satisfiable hold the proofs.
-- - MarketData models modules/market-data/domain/rules.ts: Rules has limits, timestamps, ranges and
--   `missingRanges`; Missing and Ranges hold the proofs. Manager models
--   modules/market-data/application/subscription-manager.ts, each part of a method between two
--   awaits as a function, and Reconnects has its steps in any order and the proofs.
-- - Candidates models InMemoryBacktestingRepository in modules/backtesting/application/service.ts:
--   Records has the data, Scopes the benchmark scopes and their deletion, Worker the submissions
--   and the worker's claims, Recovery repairs, dispatches and what `cancelManualCandidate` and
--   `cancelSearchCandidates` write, Completion the completions and lists. Effects, WorkerEffects,
--   CompletionEffects, Finality, Lifecycle, Stuck and Leases hold the proofs.
-- - Configuration models apps/backend/src/runtime-config.ts: Environment its readers, Sections and
--   Loading `loadBackendRuntimeConfig`; Bounds, Crawling and Safety hold the
--   proofs.
-- - Sentiment models modules/sentiment: Rules domain/rules.ts, and of application/service.ts Windows
--   `aggregateSnapshotPoints` and `pointForCandle`, Repositories and Service the repositories and the
--   operations. Causality and Results hold the proofs.
-- - Strategies models modules/strategy: Records domain/contracts.ts, and of application/service.ts
--   Parameters `validateParameters` and `lookupFactory` (with the registry of domain/plugins.ts),
--   Service, CompositeStore and Composites the repositories and what defines, reads and deletes,
--   Signals `runtimeCombine`, Overlays `normalizeVisualization`, Generation `generateStrategy`
--   from the proposal on, Artifacts the factories that are resolved. Bounds, Families, Library,
--   Versions, Shown and Pinning hold the proofs.
-- - Auth models modules/auth: Rules domain/rules.ts, Service application/service.ts; Accounts holds the
--   proofs.
-- - Frontend models apps/frontend/src/state.ts: Values has what JSON.parse gives, Layout the layout
--   of the charts and its check, Panels `nextChartId` and `addMarketPanel`, Storage the reading and
--   persisting, Routes and RoundTrip the paths, Candles and Merging `mergeCandle`.
--
-- How the code is written down.
-- - A number of the simulator is the decimal that `String` prints for it, or not finite; its bigint
--   decimals are exact. Scores and weights are finite doubles, each a whole multiple of 2^-1074, and
--   that integer stands for it, which keeps their order.
-- - A text that the code only compares is a number in the order of the texts: 0 is the empty text
--   and 1 a blank one. `localeCompare` is read as that order. Dates are parsed and printed by
--   parameters (`Dates`), and a clock is a function from the places that read it.
-- - A function that throws returns a `Result`. Where state that was changed before the throw stays
--   changed, the state is returned beside the result.
-- - Elapsed milliseconds are compared with a limit in seconds by multiplying the limit, which agrees
--   with the division of doubles as long as the limit is below 2^40 seconds.
-- - The operations on candidates follow one another in any order; a cancellation reads a candidate
--   and writes the copy after any others, and one that is rolled back puts back what was stored
--   when it wrote. Fields that no operation looks at stand together as `details`.
-- - A loop is a recursion on a list or on the attempts that are left: the filling of a run makes at
--   most max(4 * slots, slots + 1) attempts, as in the code. `missingRanges` has the end of the
--   range as fuel, which is enough since each turn moves at least one millisecond on.
-- - Operations of the leaderboard and of the search runs run one after another. A filling that
--   waits while another operation runs, and the row locks of the database, are not modelled.
--
-- Not modelled: the expansion of scientific notation in the simulator, `score`, the generators, the
-- operations of the backtest service over the store of candidates, the rest of market data, the
-- built-in strategies and their indicators, and news; and the SQL repositories, the queue, the HTTP
-- application and the views of the frontend, which are calls of other systems.
pub mod Base
pub mod Backtesting
pub mod Leaderboard
pub mod Search
pub mod MarketData
pub mod Frontend
pub mod Candidates
pub mod Configuration
pub mod Sentiment
pub mod Strategies
pub mod Auth
