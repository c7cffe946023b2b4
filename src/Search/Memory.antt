-- ===== src/Search/Memory.antt =====
-- The in-memory backtest coordinator of `createInMemorySearchDependencies`
-- (modules/search/application/service.ts), as the ports of the search service.
use cryptox.Base.{
  ℕ, ◌+◌, ◌≤◌, ◌≡◌, inl, inr, arith, ◌==◌, not, ◌&&◌, Bool, true, false, if◌then◌else◌, List, [],
  ◌∷◌, map, Option, none, some, Result, ok, Text, Bool-cases, set_by, length, keep,
}
use cryptox.Search.Types.{
  Error, GeneratorType, SearchSpace, GeneratedCandidate, CandidateStatus, candidate_created,
  candidate_queued, candidate_backtesting, candidate_retry_wait, candidate_processing_result,
  candidate_failure_pending, candidate_completed, candidate_failed, candidate_cancelled,
  CandidateProgress, Summary, CandidateCommand,
}
use cryptox.Search.Ports.{Ports}
use cryptox.Search.Accounting.{Accounting}

pub record MemoryWorld : Type 0 where
  pub candidates : List CandidateProgress
  pub sequence : ℕ

abbrev pub is_queued : CandidateStatus → Bool
is_queued candidate_queued = true
is_queued _ = false

abbrev pub is_at_work : CandidateStatus → Bool
is_at_work candidate_backtesting = true
is_at_work candidate_retry_wait = true
is_at_work candidate_processing_result = true
is_at_work _ = false

abbrev pub is_over : CandidateStatus → Bool
is_over candidate_completed = true
is_over candidate_failed = true
is_over candidate_cancelled = true
is_over _ = false

abbrev pub is_tested : CandidateStatus → Bool
is_tested candidate_completed = true
is_tested candidate_failed = true
is_tested _ = false

abbrev pub is_lost : CandidateStatus → Bool
is_lost candidate_failed = true
is_lost _ = false

abbrev pub of_run : Text → List CandidateProgress → List CandidateProgress
of_run run_id cs = keep (λ (c : CandidateProgress). c.search_run_id == run_id) cs

abbrev pub count_of : (CandidateStatus → Bool) → List CandidateProgress → ℕ
count_of test cs = length (keep (λ (c : CandidateProgress). test c.status) cs)

unfoldable pub summarize : Text → MemoryWorld → Summary
summarize run_id w =
    let values = of_run run_id w.candidates in
    record {
      active = keep (λ (c : CandidateProgress). not (is_over c.status)) values;
      queued_count = count_of is_queued values;
      running_count = count_of is_at_work values;
      candidates_tested = count_of is_tested values;
      failed_candidate_count = count_of is_lost values;
      retry_exhausted_candidate_count = 0;
      infrastructure_failure_candidate_count = 0;
      completion_processing_failure_candidate_count = 0;
      failed_attempt_count = 0;
      average_backtest_duration_ms = none;
    }

-- `candidate_text` writes `search-candidate-${n}`.
abbrev pub submitted_as : (ℕ → Text) → CandidateCommand → ℕ → CandidateProgress
submitted_as candidate_text command n = record {
  candidate_id = candidate_text n;
  search_run_id = command.search_run_id;
  iteration_number = command.iteration_number;
  fingerprint = command.fingerprint;
  status = candidate_queued;
}

unfoldable pub submit_to_memory :
    (ℕ → Text) → CandidateCommand → MemoryWorld → MemoryWorld × Result Error (Unit {0})
submit_to_memory candidate_text command w = (
  record {
    candidates =
        set_by (λ (c : CandidateProgress). c.candidate_id)
          (submitted_as candidate_text command (w.sequence + 1)) w.candidates;
    sequence = w.sequence + 1;
  },
  ok tt,
)

abbrev pub is_cancellable : Text → CandidateProgress → Bool
is_cancellable run_id c = c.search_run_id == run_id && not (is_over c.status)

unfoldable pub cancel_in_memory : Text → MemoryWorld → MemoryWorld × Result Error (List Text)
cancel_in_memory run_id w = (
  record w {
    candidates =
        map
          (λ (c : CandidateProgress).
            if is_cancellable run_id c then record c { status = candidate_cancelled } else c)
          w.candidates;
  },
  ok (map (λ (c : CandidateProgress). c.candidate_id) (keep (is_cancellable run_id) w.candidates)),
)

abbrev pub memory_ports :
    (ℕ → Text)
    → (GeneratorType → Option (SearchSpace → Text → ℕ → Result Error GeneratedCandidate))
    → Ports MemoryWorld
memory_ports candidate_text generators = record {
  generators = generators;
  strategy_service = none;
  read_benchmark_scope = λ user scope_id w. ok tt;
  submit_search_candidate = λ user command w. submit_to_memory candidate_text command w;
  summarize_search_candidates = λ user run_id w. ok (summarize run_id w);
  cancel_search_candidates = λ user run_id w. cancel_in_memory run_id w;
  remove_pending_jobs = λ ids w. (w, ok tt);
  rank_search_run = λ user run_id w. ok [];
}

abbrev outstanding : Text → List CandidateProgress → ℕ
outstanding run_id cs =
    count_of is_queued (of_run run_id cs) + count_of is_at_work (of_run run_id cs)

abbrev weight_of : Text → CandidateProgress → ℕ
weight_of run_id c = outstanding run_id (c ∷ [])

outstanding_cons :
    (run_id : Text) (c : CandidateProgress) (cs : List CandidateProgress)
    → outstanding run_id (c ∷ cs) ≡ weight_of run_id c + outstanding run_id cs
outstanding_cons run_id c cs = ground arith

status_le :
    (s : CandidateStatus) → (if is_queued s then 1 else 0) + (if is_at_work s then 1 else 0) ≤ 1
status_le candidate_created = omega arith
status_le candidate_queued = omega arith
status_le candidate_backtesting = omega arith
status_le candidate_retry_wait = omega arith
status_le candidate_processing_result = omega arith
status_le candidate_failure_pending = omega arith
status_le candidate_completed = omega arith
status_le candidate_failed = omega arith
status_le candidate_cancelled = omega arith

weight_le : (run_id : Text) (c : CandidateProgress) → weight_of run_id c ≤ 1
weight_le run_id c = ground (arith, status_le c.status)

-- A candidate that is set adds at most one to those in flight.
outstanding-set_by :
    (run_id : Text) (c : CandidateProgress) (cs : List CandidateProgress)
    → outstanding run_id (set_by (λ (d : CandidateProgress). d.candidate_id) c cs)
      ≤ outstanding run_id cs + 1
unfolding set_by
outstanding-set_by run_id c [] = omega (arith, weight_le run_id c)
outstanding-set_by run_id c (d ∷ ds) = elim (Bool-cases (d.candidate_id == c.candidate_id)) [
  | inl same ↦ rw same (
      omega (arith, weight_le run_id c, outstanding_cons run_id c ds, outstanding_cons run_id d ds))
  | inr other ↦ rw other (
      omega (
        arith,
        outstanding-set_by run_id c ds,
        outstanding_cons run_id d ds,
        outstanding_cons run_id d (set_by (λ (e : CandidateProgress). e.candidate_id) c ds),
      ))
]

-- The in-memory coordinator keeps the accounting: a submission puts at most the candidate that it
-- accepts in flight.
pub memory-Accounting :
    (candidate_text : ℕ → Text)
    (generators : GeneratorType → Option (SearchSpace → Text → ℕ → Result Error GeneratedCandidate))
    → Accounting (memory_ports candidate_text generators)
unfolding submit_to_memory summarize
memory-Accounting candidate_text generators = record {
  submits = λ user command w.
      outstanding-set_by command.search_run_id
        (submitted_as candidate_text command (w.sequence + 1)) w.candidates;
  defines = λ port define served able. absurd (none_served port served);
  composes = λ port served. absurd (none_served port served);
}
  where
    none_served : {A : Type 0} (a : A) → ◌≡◌ {A = Option A} none (some a) → ⊥
    none_served a h = cc
