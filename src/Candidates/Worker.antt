-- ===== src/Candidates/Worker.antt =====
-- The worker's side of InMemoryBacktestingRepository in
-- modules/backtesting/application/service.ts: submission, claims of attempts, their failure and
-- success, recovery, repair and dispatch; and the cancellation by BacktestingService.
use cryptox.Base.{
  ℕ, ◌+◌, ◌==◌, Bool, false, not, ◌&&◌, ◌||◌, if◌then◌else◌, Option, none, some, List, [], ◌∷◌,
  Text, Dates, is_empty, find_first, Result, ok, err,
}
use cryptox.Candidates.Records.{
  queued, backtesting, retry_wait, processing_result, terminal_failure_pending, completed, failed,
  infrastructure, retry_exhausted, retryable, cancelled_audit, of_error, running, Candidate,
  Attempt, Dispatch, SubmissionKey, Store, Fault, fence_lost, get_candidate, put_candidate,
  get_attempt, put_attempt, put_dispatch, terminal, is_claimable, is_backtesting, is_cancelled,
  is_processing_result, is_terminal_failure_pending, is_given, is_token, same_number, or_zero,
  is_later,
}

-- createQueuedSubmission
abbrev pub same_iteration : Option Text → Option ℕ → Candidate → Bool
same_iteration (some run) (some iteration) c =
    is_token c.search_run_id run && same_number c.iteration_number (some iteration)
same_iteration (some run) none c = false
same_iteration none iteration c = false

abbrev find_key : Text → Text → List SubmissionKey → Option Text
find_key owner key [] = none
find_key owner key (k ∷ ks) =
    if k.owner_user_id == owner && k.key == key then some k.candidate_id else find_key owner key ks

-- A later key takes the place of an earlier one.
abbrev put_key : Text → Text → Text → List SubmissionKey → List SubmissionKey
put_key owner key id ks = record { owner_user_id = owner; key = key; candidate_id = id } ∷ ks

unfoldable pub create_candidate : Candidate → Option Text → Store → Store
create_candidate c none s = put_candidate c s
create_candidate c (some key) s =
    if is_empty key then put_candidate c s else record (put_candidate c s) {
      candidate_keys = put_key c.owner_user_id key c.candidate_id s.candidate_keys;
    }

abbrev candidate_at : Option Text → Store → Option Candidate
candidate_at none s = none
candidate_at (some id) s = if is_empty id then none else get_candidate id s

unfoldable pub find_candidate_by_submission : Text → Text → Store → Option Candidate
find_candidate_by_submission owner key s = candidate_at (find_key owner key s.candidate_keys) s

abbrev pub existing_submission : Option Text → Text → Store → Option Candidate
existing_submission none owner s = none
existing_submission (some key) owner s =
    if is_empty key then none else find_candidate_by_submission owner key s

abbrev pub or_option : Option Candidate → Option Candidate → Option Candidate
or_option none o = o
or_option (some c) o = some c

-- The candidate that is answered, with the store.
unfoldable pub create_queued_submission :
    Candidate → Dispatch → Option Text → Store → Candidate × Store
unfolding create_candidate find_candidate_by_submission
create_queued_submission c d key s =
    elim (or_option (find_first (same_iteration c.search_run_id c.iteration_number) s.candidates)
      (existing_submission key c.owner_user_id s)) [
        | some existing ↦ (existing, s)
        | none ↦ (c, put_dispatch d (create_candidate c key s))
      ]

unfoldable pub read_candidate : Text → Option Text → Store → Option Candidate
read_candidate id owner s = elim (get_candidate id s) [
  | none ↦ none
  | some c ↦ if not (is_given owner) || is_token owner c.owner_user_id then some c else none
]

-- claimWorkerAttempt
pub record Claim : Type 0 where
  pub candidate_id : Text
  pub queue_job_id : Text
  pub delivery_attempt : ℕ
  pub attempt_id : Text
  pub fence_token : Text
  pub now : Text
  pub lease_expires_at : Text
  pub worker_runtime_version : Text
  pub worker_runtime_sha256 : Text

abbrev new_attempt : Claim → Candidate → Attempt
new_attempt k c = record {
  attempt_id = k.attempt_id;
  candidate_id = c.candidate_id;
  queue_job_id = k.queue_job_id;
  attempt_number = k.delivery_attempt;
  worker_runtime_version = k.worker_runtime_version;
  worker_runtime_sha256 = k.worker_runtime_sha256;
  status = queued;
  trade_count = 0;
  audit_only = false;
  delivery_attempt_count = none;
  fence_token = none;
  lease_expires_at = none;
  failure_category = none;
  failure_code = none;
  error_message = none;
  started_at = k.now;
  completed_at = none;
}

abbrev or_attempt : Option Attempt → Attempt → Attempt
or_attempt none a = a
or_attempt (some b) a = b

abbrev claimed_attempt : Claim → Attempt → Attempt
claimed_attempt k a = record a {
  status = running;
  started_at = if is_empty a.started_at then k.now else a.started_at;
  completed_at = none;
  delivery_attempt_count = some k.delivery_attempt;
  fence_token = some k.fence_token;
  lease_expires_at = some k.lease_expires_at;
  failure_category = none;
  failure_code = none;
  error_message = none;
}

abbrev pub claimed_candidate : Claim → Candidate → Candidate
claimed_candidate k c = record c {
  status = backtesting;
  active_attempt_number = some k.delivery_attempt;
  execution_generation = some (or_zero c.execution_generation + 1);
  active_fence_token = some k.fence_token;
  active_lease_expires_at = some k.lease_expires_at;
  updated_at = k.now;
}

module _ (dates : Dates) where
  -- Whether a delivery may not run the candidate.
  abbrev pub is_refused : Claim → Candidate → Bool
  is_refused k c =
      not (c.queue_job_id == k.queue_job_id)
      || terminal c.status
      || is_processing_result c.status
      || is_terminal_failure_pending c.status
      || (is_backtesting c.status && is_later dates c.active_lease_expires_at k.now)
      || not (is_claimable c.status)

  unfoldable pub claim_worker_attempt : Claim → Store → Option (Candidate × Attempt) × Store
  unfolding terminal is_claimable
  claim_worker_attempt k s = elim (get_candidate k.candidate_id s) [
    | none ↦ (none, s)
    | some c ↦
        if is_refused k c
        then (none, s)
        else let attempt =
            claimed_attempt k (or_attempt (get_attempt k.attempt_id s) (new_attempt k c)) in
          let updated = claimed_candidate k c in
          (some (updated, attempt), put_candidate updated (put_attempt attempt s))
  ]

-- failWorkerAttempt
abbrev pub retired : Candidate → Text → Candidate
retired c now = record c {
  active_attempt_number = none;
  active_fence_token = none;
  active_lease_expires_at = none;
  updated_at = now;
}

abbrev pub failed_candidate : Bool → Text → Text → Candidate → Candidate
failed_candidate retrying now error c =
    if is_cancelled c.status then retired c now else record (retired c now) {
      status = if retrying then retry_wait else terminal_failure_pending;
      failure_kind = if retrying then none else some retry_exhausted;
      failure_code = some (of_error error);
      last_error = some error;
    }

abbrev failed_attempt : Bool → Text → Text → Candidate → Attempt → Attempt
failed_attempt retrying now error c a = record a {
  status = failed;
  completed_at = some now;
  failure_category = some (
      if is_cancelled c.status
      then cancelled_audit
      else if retrying
      then retryable
      else infrastructure);
  failure_code = some error;
  error_message = some error;
  lease_expires_at = none;
}

-- Whether the candidate and the attempt both carry the fence token.
abbrev pub is_fenced : Text → Candidate → Attempt → Bool
is_fenced token c a = is_token c.active_fence_token token && is_token a.fence_token token

-- What is done to the stored candidate and attempt of a worker that holds the fence.
unfoldable pub with_fence :
    Text → Text → Text → (Candidate → Attempt → Store → Store) → Store → Result Fault Store
with_fence candidate_id attempt_id token body s = elim (get_candidate candidate_id s) [
  | none ↦ err fence_lost
  | some c ↦ elim (get_attempt attempt_id s) [
    | none ↦ err fence_lost
    | some a ↦ if is_fenced token c a then ok (body c a s) else err fence_lost
  ]
]

abbrev pub record_failure : Bool → Text → Text → Candidate → Attempt → Store → Store
record_failure retrying now error c a s =
    put_candidate (failed_candidate retrying now error c)
      (put_attempt (failed_attempt retrying now error c a) s)

unfoldable pub fail_worker_attempt :
    Text → Text → Text → Bool → Text → Text → Store → Result Fault Store
unfolding with_fence
fail_worker_attempt candidate_id attempt_id token retrying now error =
    with_fence candidate_id attempt_id token (record_failure retrying now error)

-- persistWorkerSuccess, but the trades that it stores for the attempt.
abbrev completed_attempt : Text → ℕ → Candidate → Attempt → Attempt
completed_attempt completed_at trades c a = record a {
  status = completed;
  completed_at = some completed_at;
  trade_count = trades;
  audit_only = is_cancelled c.status;
  lease_expires_at = none;
}

abbrev pub processing_candidate : Text → Candidate → Candidate
processing_candidate completed_at c =
    if is_cancelled c.status then retired c completed_at else record (retired c completed_at) {
      status = processing_result;
      completion_next_retry_at = some completed_at;
    }

abbrev pub record_success : Text → ℕ → Candidate → Attempt → Store → Store
record_success completed_at trades c a s =
    put_candidate (processing_candidate completed_at c)
      (put_attempt (completed_attempt completed_at trades c a) s)

unfoldable pub persist_worker_success : Text → Text → Text → Text → ℕ → Store → Result Fault Store
unfolding with_fence
persist_worker_success candidate_id attempt_id token completed_at trades =
    with_fence candidate_id attempt_id token (record_success completed_at trades)
