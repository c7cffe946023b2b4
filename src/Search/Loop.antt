-- ===== src/Search/Loop.antt =====
-- The slot filling of modules/search/application/service.ts: `project`, `refresh`, `stopReason` and
-- `fillCore`. `clock n` is the reading of the clock at one of the places that read it.
use cryptox.Base.{
  ℕ, zero, suc, ◌+◌, ◌*◌, ◌-◌, min, max, ◌==◌, ltb, leb, Bool, true, false, not, ◌&&◌,
  if◌then◌else◌, Option, none, some, List, [], ◌∷◌, ℤ, pos, ltb_ℤ, leb_ℤ, ◌+ℤ◌, ◌-ℤ◌, Result, ok,
  err, Text, is_empty, Dates, is_among,
}
use cryptox.Leaderboard.Queries.{SearchRunRankingEntry}
use cryptox.Search.Types.{
  RunState, running, completed, StopReason, max_candidates_met, max_duration_met, no_improvement,
  Error, unsupported_generator, search_generation_exhausted, SearchSpace, GeneratedCandidate,
  SearchRun,
}
use cryptox.Search.Ports.{Ports}
use cryptox.Search.Submission.{submit}

abbrev pub in_flight : SearchRun → ℕ
in_flight run = run.summary.queued_count + run.summary.running_count

abbrev pub is_running : RunState → Bool
is_running running = true
is_running _ = false

abbrev pub head : List SearchRunRankingEntry → Option SearchRunRankingEntry
head [] = none
head (e ∷ es) = some e

-- `Math.max(run.candidatesTested + inFlight(run), run.nextIteration - 1)`
abbrev pub reserved : SearchRun → ℕ
reserved run = max (run.summary.candidates_tested + in_flight run) (run.next_iteration - 1)

abbrev pub is_better : ℤ → Option ℤ → Bool
is_better score none = true
is_better score (some best) = ltb_ℤ best score

-- `run.activeDurationMs + (run.activeSince ? Date.parse(now) - Date.parse(run.activeSince) : 0)`;
-- `none` is NaN.
unfoldable pub active_duration : Dates → Text → SearchRun → Option ℤ
active_duration dates now run = elim run.active_duration_ms [
  | none ↦ none
  | some before ↦ elim run.active_since [
    | none ↦ some before
    | some since ↦ if is_empty since then some before else elim (dates.parse now) [
      | none ↦ none
      | some end ↦ elim (dates.parse since) [
        | none ↦ none
        | some start ↦ some (before +ℤ (end -ℤ start))
      ]
    ]
  ]
]

-- What comes of one turn of the loop.
pub data Attempt : Type 0 where
  failed : Error → Attempt
  skipped : Attempt
  submitted : SearchRun → Attempt

module _ {W : Type 0} (ports : Ports W) (dates : Dates) (clock : ℕ → Text) where
  unfoldable pub note_best : SearchRun → SearchRun
  note_best run = elim run.current_top_entry [
    | none ↦ run
    | some top ↦
        if is_better top.score run.best_score
        then record run {
          best_score = some top.score;
          last_improvement_at_candidates = some run.summary.candidates_tested;
        }
        else run
  ]

  unfoldable pub refresh : ℕ → SearchRun → W → Result Error SearchRun
  unfolding note_best
  refresh at run w =
      elim (ports.summarize_search_candidates run.owner_user_id run.search_run_id w) [
        | err e ↦ err e
        | ok summary ↦ elim (ports.rank_search_run run.owner_user_id run.search_run_id w) [
          | err e ↦ err e
          | ok ranking ↦ ok (
              note_best (record run {
                summary = summary;
                current_top_entry = head ranking;
                updated_at = clock at;
              }))
        ]
      ]

  unfoldable pub is_over_time : ℕ → SearchRun → Bool
  unfolding active_duration
  is_over_time at run = elim run.stop_condition.max_duration_seconds [
    | none ↦ false
    | some seconds ↦ elim (active_duration dates (clock at) run) [
      | none ↦ false
      | some ms ↦ leb_ℤ (pos (1000 * seconds)) ms
    ]
  ]

  unfoldable pub is_out_of_candidates : SearchRun → Bool
  is_out_of_candidates run = elim run.stop_condition.max_candidates [
    | none ↦ false
    | some n ↦ leb n (reserved run)
  ]

  -- The difference of the counts may be negative, and is compared as a sum.
  unfoldable pub is_stalled : SearchRun → Bool
  is_stalled run = elim run.stop_condition.no_improvement_after_iterations [
    | none ↦ false
    | some n ↦ elim run.best_score [
      | none ↦ false
      | some best ↦ elim run.last_improvement_at_candidates [
        | none ↦ false
        | some improved ↦ leb (n + improved) run.summary.candidates_tested
      ]
    ]
  ]

  unfoldable pub stop_reason : ℕ → SearchRun → Option StopReason
  unfolding is_over_time is_out_of_candidates is_stalled
  stop_reason at run =
      if is_over_time at run
      then some max_duration_met
      else if is_out_of_candidates run
      then some max_candidates_met
      else if is_stalled run
      then some no_improvement
      else none

  -- A run whose stop condition is met is over once nothing is in flight.
  unfoldable pub finish_if : Option StopReason → ℕ → SearchRun → SearchRun
  finish_if none at run = run
  finish_if (some met) at run =
      if in_flight run == 0
      then record run { state = completed; stop_reason = some met; ended_at = some (clock at) }
      else run

  abbrev pub budget : SearchRun → ℕ
  budget run = elim run.stop_condition.max_candidates [
    | none ↦ run.max_in_flight
    | some n ↦ n - reserved run
  ]

  unfoldable pub slots : SearchRun → ℕ
  slots run = min (run.max_in_flight - in_flight run) (budget run)

  -- One turn of the loop: generating and submitting a candidate whose fingerprint is new.
  unfoldable pub attempt :
      (SearchSpace → Text → ℕ → Result Error GeneratedCandidate) → ℕ → SearchRun → W → W × Attempt
  attempt generate n run w =
      elim (generate run.search_space run.search_run_id (run.next_iteration + n - 1)) [
        | err e ↦ (w, failed e)
        | ok candidate ↦
            if is_among candidate.fingerprint run.search_space.generated_fingerprints
            then (w, skipped)
            else let (w', result) = submit ports run candidate w in
              (w', elim result [ err e ↦ failed e | ok run' ↦ submitted run' ])
      ]

  -- The loop of `fillCore` after `n` attempts and `count` submissions, with `left` attempts to go.
  -- An error ends it where no attempt is left.
  unfoldable pub try_slots :
      (SearchSpace → Text → ℕ → Result Error GeneratedCandidate)
      → (left n count wanted : ℕ) → SearchRun
      → W
      → W × SearchRun × Result Error ℕ
  unfolding attempt
  try_slots generate zero n count wanted run w = (w, run, ok count)
  try_slots generate (suc left) n count wanted run w = elim (ltb count wanted) [
    | false ↦ (w, run, ok count)
    | true ↦
        let (w', tried) = attempt generate (n + 1) run w in
        elim tried [
          | submitted run' ↦ try_slots generate left (n + 1) (count + 1) wanted run' w'
          | skipped ↦ try_slots generate left (n + 1) count wanted run w'
          | failed e ↦ elim (left == 0) [
            | true ↦ (w', run, err e)
            | false ↦ try_slots generate left (n + 1) count wanted run w'
          ]
        ]
  ]

  -- The end of `fillCore`, after the loop.
  unfoldable pub settle_run : SearchRun → W → SearchRun × Result Error (Unit {0})
  unfolding refresh stop_reason finish_if
  settle_run run w = elim (refresh 3 run w) [
    | err e ↦ (run, err e)
    | ok run' ↦ (record (finish_if (stop_reason 4 run') 5 run') { updated_at = clock 6 }, ok tt)
  ]

  unfoldable pub fill_slots : SearchRun → W → W × SearchRun × Result Error (Unit {0})
  unfolding slots try_slots settle_run
  fill_slots run w = elim (ports.generators run.generator_type) [
    | none ↦ (w, run, err unsupported_generator)
    | some generate ↦
        let wanted = slots run in
        let (w', run', count) =
          try_slots generate (max (wanted * 4) (wanted + 1)) 0 0 wanted run w in
        elim count [
          | err e ↦ (w', run', err e)
          | ok n ↦
              if ltb 0 wanted && n == 0
              then (w', run', err search_generation_exhausted)
              else let (run'', result) = settle_run run' w' in (w', run'', result)
        ]
  ]

  -- `fillCore`: the run as it stands in the repository's object afterwards, also where an error is
  -- thrown.
  unfoldable pub fill_core : SearchRun → W → W × SearchRun × Result Error (Unit {0})
  unfolding refresh stop_reason finish_if fill_slots
  fill_core run w = if not (is_running run.state) then (w, run, ok tt) else elim (refresh 0 run w) [
    | err e ↦ (w, run, err e)
    | ok run' ↦ elim (stop_reason 1 run') [
      | some met ↦ (w, finish_if (some met) 2 run', ok tt)
      | none ↦ fill_slots run' w
    ]
  ]
