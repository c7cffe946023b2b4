-- ===== src/Candidates/Completion.antt =====
-- The completion's side of InMemoryBacktestingRepository in
-- modules/backtesting/application/service.ts: claims of completions and how they end, and the lists
-- that the recovery reads.
use cryptox.Base.{
  ℕ, ◌+◌, ◌==◌, leb, Bool, true, false, not, ◌&&◌, ◌||◌, if◌then◌else◌, Option, none, some, List,
  [], ◌∷◌, take, map, sort_by, Text, Dates, keep, Result, ok, err,
}
use cryptox.Candidates.Records.{
  processing_result, completed, failed, completion_processing, completion_processing_failed,
  Candidate, Attempt, AttemptStatus, Dispatch, DispatchState, pending, Store, Fault,
  completion_fence_lost, get_candidate, put_candidate, is_claimable, is_pending_completion,
  is_processing_result, is_terminal_failure_pending, is_given, is_token, same_number, or_zero,
  is_later, no_later, has_passed,
}

pub record CompletionClaim : Type 0 where
  pub candidate_id : Text
  pub claim_token : Text
  pub now : Text
  pub lease_expires_at : Text

unfoldable pub claimed_completion : CompletionClaim → Candidate → Candidate
claimed_completion k c = record c {
  completion_attempt_count = c.completion_attempt_count + 1;
  completion_generation = some (or_zero c.completion_generation + 1);
  active_completion_claim_token = some k.claim_token;
  active_completion_lease_expires_at = some k.lease_expires_at;
  completion_next_retry_at = none;
  updated_at = k.now;
}

-- The fields of a completion that has ended.
abbrev pub released : Text → Candidate → Candidate
released now c = record c {
  active_completion_claim_token = none;
  active_completion_lease_expires_at = none;
  completion_next_retry_at = none;
  updated_at = now;
}

unfoldable pub completed_candidate : Text → Text → Candidate → Candidate
completed_candidate experiment now c = record (released now c) {
  status = completed;
  experiment_result_id = some experiment;
}

unfoldable pub terminated_candidate : Text → Candidate → Candidate
terminated_candidate now c = record (released now c) { status = failed }

unfoldable pub uncompleted_candidate : Option Text → Text → Text → Candidate → Candidate
uncompleted_candidate retry_at now error c =
    let exhausted = leb c.completion_max_attempts c.completion_attempt_count in
    record (released now c) {
      status = if exhausted then failed else processing_result;
      completion_next_retry_at = if exhausted then none else retry_at;
      failure_kind = if exhausted then some completion_processing else c.failure_kind;
      failure_code = if exhausted then some completion_processing_failed else c.failure_code;
      last_error = some error;
    }

module _ (dates : Dates) where
  abbrev pub is_claim_refused : CompletionClaim → Candidate → Bool
  is_claim_refused k c =
      not (is_pending_completion c.status)
      || is_later dates c.completion_next_retry_at k.now
      || is_later dates c.active_completion_lease_expires_at k.now
      || leb c.completion_max_attempts c.completion_attempt_count

  unfoldable pub claim_completion : CompletionClaim → Store → Option Candidate × Store
  unfolding is_pending_completion claimed_completion
  claim_completion k s = elim (get_candidate k.candidate_id s) [
    | none ↦ (none, s)
    | some c ↦
        if is_claim_refused k c
        then (none, s)
        else (some (claimed_completion k c), put_candidate (claimed_completion k c) s)
  ]

  -- Whether the lease is there and ends after `now`; a lease that is no date does not count as ended.
  abbrev pub is_held : Option Text → Text → Bool
  is_held none now = false
  is_held (some t) now = is_given (some t) && not (no_later dates (dates.parse t) (dates.parse now))

  abbrev pub holds_claim : Text → Option ℕ → Text → Candidate → Bool
  holds_claim token generation now c =
      is_token c.active_completion_claim_token token
      && same_number c.completion_generation generation
      && is_held c.active_completion_lease_expires_at now

  -- A change to the stored candidate that only the holder of its claim may make.
  unfoldable pub with_claim :
      Text → (Candidate → Bool) → (Candidate → Candidate) → Store → Result Fault Store
  with_claim candidate_id may change s = elim (get_candidate candidate_id s) [
    | none ↦ err completion_fence_lost
    | some c ↦ if may c then ok (put_candidate (change c) s) else err completion_fence_lost
  ]

  unfoldable pub finalize_completion :
      Text → Option ℕ → Text → Text → Text → Store → Result Fault Store
  unfolding with_claim completed_candidate
  finalize_completion candidate_id generation experiment token now =
      with_claim candidate_id
        (λ (c : Candidate). is_processing_result c.status && holds_claim token generation now c)
        (completed_candidate experiment now)

  unfoldable pub finalize_terminal_failure :
      Text → Option ℕ → Text → Text → Store → Result Fault Store
  unfolding with_claim terminated_candidate
  finalize_terminal_failure candidate_id generation token now =
      with_claim candidate_id
        (λ (c : Candidate).
          is_terminal_failure_pending c.status && holds_claim token generation now c)
        (terminated_candidate now)

  -- The status is not looked at.
  unfoldable pub fail_completion :
      Text → Option ℕ → Text → Option Text → Text → Text → Store → Result Fault Store
  unfolding with_claim uncompleted_candidate
  fail_completion candidate_id generation token retry_at now error =
      with_claim candidate_id (holds_claim token generation now)
        (uncompleted_candidate retry_at now error)

  abbrev updated_before : Candidate → Candidate → Bool
  updated_before a b = leb a.updated_at b.updated_at

  abbrev pub is_due : Text → Candidate → Bool
  is_due now c =
      is_pending_completion c.status
      && has_passed dates c.completion_next_retry_at now
      && has_passed dates c.active_completion_lease_expires_at now

  unfoldable pub list_due_completions : Text → ℕ → Store → List Text
  unfolding is_pending_completion
  list_due_completions now limit s =
      map (λ (c : Candidate). c.candidate_id)
        (take limit (sort_by updated_before (keep (is_due now) s.candidates)))

unfoldable pub list_queue_recovery_candidates : ℕ → Store → List Text
unfolding is_claimable
list_queue_recovery_candidates limit s =
    map (λ (c : Candidate). c.candidate_id)
      (take limit (
        sort_by (λ (a b : Candidate). leb a.updated_at b.updated_at)
          (keep (λ (c : Candidate). is_claimable c.status) s.candidates)))

abbrev is_pending : DispatchState → Bool
is_pending pending = true
is_pending state = false

unfoldable pub list_pending_dispatches : ℕ → Store → List Dispatch
list_pending_dispatches limit s = take limit (
    sort_by (λ (a b : Dispatch). leb a.created_at b.created_at)
      (keep (λ (d : Dispatch). is_pending d.state) s.dispatches))

abbrev is_completed : AttemptStatus → Bool
is_completed completed = true
is_completed status = false

abbrev first_of : List Attempt → Option Attempt
first_of [] = none
first_of (a ∷ attempts) = some a

unfoldable pub read_latest_completed_attempt : Text → Store → Option Attempt
read_latest_completed_attempt id s = first_of (
    sort_by (λ (a b : Attempt). leb b.attempt_number a.attempt_number)
      (keep (λ (a : Attempt). a.candidate_id == id && is_completed a.status) s.attempts))

unfoldable pub list_candidates_by_search_run : Text → Option Text → Store → List Candidate
list_candidates_by_search_run run owner s =
    keep
      (λ (c : Candidate).
        is_token c.search_run_id run && (not (is_given owner) || is_token owner c.owner_user_id))
      s.candidates
