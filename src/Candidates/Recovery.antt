-- ===== src/Candidates/Recovery.antt =====
-- The repair of candidates in InMemoryBacktestingRepository of
-- modules/backtesting/application/service.ts, its dispatches, and the cancellation of a candidate by
-- BacktestingService.
use cryptox.Base.{
  ℕ, ◌+◌, ◌==◌, ltb, Bool, true, false, not, ◌&&◌, ◌||◌, if◌then◌else◌, Option, none, some, List,
  [], ◌∷◌, Text, Dates, keep, find_first,
}
use cryptox.Candidates.Records.{
  retry_wait, terminal_failure_pending, failed, cancelled, infrastructure, of_error, pending,
  dispatched, Candidate, Attempt, Dispatch, Store, get_candidate, put_candidate, put_attempt,
  get_dispatch, put_dispatch, terminal, is_backtesting, is_terminal_failure_pending, is_running,
  is_dispatch_cancelled, is_given, is_later,
}

-- The text `${candidateId}:recovery:attempt:1` and the version of the recovery are parameters.
pub record RecoveryRuntime : Type 0 where
  pub attempt_id : Text → Text
  pub version : Text
  pub sha256 : Text

unfoldable pub attempts_of : Text → Store → List Attempt
attempts_of id s = keep (λ (a : Attempt). a.candidate_id == id) s.attempts

abbrev is_number : Option ℕ → ℕ → Bool
is_number none n = false
is_number (some m) n = m == n

abbrev or_running : Option Attempt → List Attempt → Option Attempt
or_running none attempts = find_first (λ (a : Attempt). is_running a.status) attempts
or_running (some a) attempts = some a

unfoldable pub running_attempt : Option ℕ → List Attempt → Option Attempt
running_attempt active attempts =
    or_running
      (find_first (λ (a : Attempt). is_running a.status && is_number active a.attempt_number)
        attempts)
      attempts

abbrev pub interrupted : Text → Text → Attempt → Attempt
interrupted now error a = record a {
  status = failed;
  completed_at = some now;
  lease_expires_at = none;
  failure_category = some infrastructure;
  failure_code = some error;
  error_message = some error;
}

-- The attempt that is recorded for a candidate without any.
abbrev pub recovery_attempt : RecoveryRuntime → Text → Text → Candidate → Attempt
recovery_attempt runtime now error c = record {
  attempt_id = runtime.attempt_id c.candidate_id;
  candidate_id = c.candidate_id;
  queue_job_id = c.queue_job_id;
  attempt_number = 1;
  worker_runtime_version = runtime.version;
  worker_runtime_sha256 = runtime.sha256;
  status = failed;
  trade_count = 0;
  audit_only = false;
  delivery_attempt_count = some 0;
  fence_token = none;
  lease_expires_at = none;
  failure_category = some infrastructure;
  failure_code = some error;
  error_message = some error;
  started_at = now;
  completed_at = some now;
}

abbrev pub or_number : Option ℕ → ℕ → ℕ
or_number none n = n
or_number (some m) n = m

abbrev number_of : Option Attempt → Option ℕ
number_of none = none
number_of (some a) = some a.attempt_number

-- `activeAttemptNumber ?? running?.attemptNumber ?? maxAttempts`
unfoldable pub attempt_reached : Candidate → List Attempt → ℕ
attempt_reached c attempts =
    or_number c.active_attempt_number
      (or_number (number_of (or_running none attempts)) c.max_attempts)

unfoldable pub recovered_candidate : Bool → Text → Text → Candidate → Candidate
recovered_candidate retrying now error c = record c {
  status = if retrying then retry_wait else terminal_failure_pending;
  active_attempt_number = none;
  active_fence_token = none;
  active_lease_expires_at = none;
  failure_kind = if retrying then none else some infrastructure;
  failure_code = if retrying then none else some (of_error error);
  last_error = if retrying then none else some error;
  updated_at = now;
}

abbrev pub redispatched : Text → Text → Option Dispatch → Store → Store
redispatched now error none s = s
redispatched now error (some d) s =
    if is_dispatch_cancelled d.state
    then s
    else put_dispatch (record d { state = pending; last_error = some error; updated_at = now }) s

unfoldable pub end_attempts :
    RecoveryRuntime → Text → Text → Candidate → Option Attempt → List Attempt → Store → Store
end_attempts runtime now error c (some a) attempts s = put_attempt (interrupted now error a) s
end_attempts runtime now error c none [] s = put_attempt (recovery_attempt runtime now error c) s
end_attempts runtime now error c none (a ∷ attempts) s = s

-- Whether the attempt that was reached leaves others.
unfoldable pub retries : Candidate → List Attempt → Bool
unfolding attempt_reached
retries c attempts = ltb (attempt_reached c attempts) c.max_attempts

unfoldable pub recover_as : RecoveryRuntime → Text → Text → Candidate → Bool → Store → Store
unfolding end_attempts running_attempt recovered_candidate
recover_as runtime now error c retrying s =
    let attempts = attempts_of c.candidate_id s in
    let ended =
      end_attempts runtime now error c (running_attempt c.active_attempt_number attempts) attempts
        s in
    let saved = put_candidate (recovered_candidate retrying now error c) ended in
    if retrying then redispatched now error (get_dispatch c.queue_job_id saved) saved else saved

unfoldable pub recover_found : RecoveryRuntime → Text → Text → Candidate → Store → Store
recover_found runtime now error c s =
    recover_as runtime now error c (retries c (attempts_of c.candidate_id s)) s

module _ (dates : Dates) (runtime : RecoveryRuntime) where
  abbrev pub is_not_abandoned : Text → Candidate → Bool
  is_not_abandoned now c =
      not (is_backtesting c.status)
      || not (is_given c.active_lease_expires_at)
      || is_later dates c.active_lease_expires_at now

  unfoldable pub recover_abandoned_attempt : Text → Text → Text → Store → Bool × Store
  unfolding recover_found
  recover_abandoned_attempt candidate_id now error s = elim (get_candidate candidate_id s) [
    | none ↦ (false, s)
    | some c ↦
        if is_not_abandoned now c then (false, s) else (true, recover_found runtime now error c s)
  ]

unfoldable pub broken_candidate : Text → Text → Candidate → Candidate
broken_candidate now error c = record c {
  status = terminal_failure_pending;
  active_attempt_number = none;
  active_fence_token = none;
  active_lease_expires_at = none;
  failure_kind = some infrastructure;
  failure_code = some (of_error error);
  last_error = some error;
  updated_at = now;
}

unfoldable pub repair_terminal_queue_failure : RecoveryRuntime → Text → Text → Text → Store → Store
unfolding terminal end_attempts broken_candidate
repair_terminal_queue_failure runtime candidate_id error now s =
    elim (get_candidate candidate_id s) [
      | none ↦ s
      | some c ↦
          if terminal c.status || is_terminal_failure_pending c.status
          then s
          else let attempts = attempts_of candidate_id s in
            put_candidate (broken_candidate now error c)
              (end_attempts runtime now error c (or_running none attempts) attempts s)
    ]

abbrev pub with_dispatch : (Dispatch → Dispatch) → Option Dispatch → Store → Store
with_dispatch change none s = s
with_dispatch change (some d) s = put_dispatch (change d) s

abbrev pub unless_cancelled : (Dispatch → Dispatch) → Dispatch → Dispatch
unless_cancelled change d = if is_dispatch_cancelled d.state then d else change d

unfoldable pub mark_dispatch_dispatched : Text → Text → Store → Store
mark_dispatch_dispatched job_id at s =
    with_dispatch
      (unless_cancelled (λ d. record d {
        state = dispatched;
        dispatch_attempts = d.dispatch_attempts + 1;
        dispatched_at = some at;
        last_error = none;
        updated_at = at;
      }))
      (get_dispatch job_id s) s

unfoldable pub mark_dispatch_failed : Text → Text → Text → Store → Store
mark_dispatch_failed job_id error at s =
    with_dispatch
      (unless_cancelled (λ d. record d {
        state = pending;
        dispatch_attempts = d.dispatch_attempts + 1;
        last_error = some error;
        updated_at = at;
      }))
      (get_dispatch job_id s) s

unfoldable pub mark_dispatch_cancelled : Text → Text → Store → Store
mark_dispatch_cancelled job_id at s =
    with_dispatch (λ d. record d { state = cancelled; updated_at = at }) (get_dispatch job_id s) s

-- The candidate that a cancellation writes: a worker keeps its fence, to record its attempt.
unfoldable pub cancelled_candidate : Text → Candidate → Candidate
cancelled_candidate now c = record c {
  status = cancelled;
  active_fence_token = if is_backtesting c.status then c.active_fence_token else none;
  active_lease_expires_at = none;
  updated_at = now;
}

-- The part of `cancelManualCandidate` and `cancelSearchCandidates` for one candidate.
unfoldable pub cancel_candidate : Text → Candidate → Store → Store
unfolding terminal cancelled_candidate mark_dispatch_cancelled
cancel_candidate now c s =
    if terminal c.status
    then s
    else mark_dispatch_cancelled c.queue_job_id now (put_candidate (cancelled_candidate now c) s)

-- What `onRollback` of a cancellation does: the candidate, and the dispatch, that it found stored are
-- put back, or removed where there was none.
unfoldable pub roll_back_candidate : Text → Option Candidate → Store → Store
roll_back_candidate id none s = record s {
  candidates = keep (λ (c : Candidate). not (c.candidate_id == id)) s.candidates;
}
roll_back_candidate id (some c) s = put_candidate c s

unfoldable pub roll_back_dispatch : Text → Option Dispatch → Store → Store
roll_back_dispatch job_id none s = record s {
  dispatches = keep (λ (d : Dispatch). not (d.job_id == job_id)) s.dispatches;
}
roll_back_dispatch job_id (some d) s = put_dispatch d s
