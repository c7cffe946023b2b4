-- ===== src/Candidates/WorkerEffects.antt =====
-- The effects of submissions, workers, repairs, dispatches and cancellations on the candidates.
use cryptox.Base.{
  ℕ, ◌≡◌, ◌⊎◌, refl, subst, ap, ◌∙◌, arith, Bool, true, false, ◌||◌, Option, none, some, List, [],
  ◌∷◌, Text, Dates, set_by, ok, Bool-cases, Option-cases, inl, inr, find_first,
}
use cryptox.Candidates.Records.{
  Candidate, Attempt, Dispatch, Store, candidate_key, get_candidate, put_candidate, get_attempt,
  terminal, is_pending_completion, is_terminal_failure_pending, get_dispatch, is_backtesting,
}
use cryptox.Candidates.Worker.{
  create_candidate, create_queued_submission, or_option, same_iteration, existing_submission, Claim,
  is_refused, claimed_candidate, claim_worker_attempt, with_fence, is_fenced, failed_candidate,
  record_failure, record_success, fail_worker_attempt, processing_candidate, persist_worker_success,
}
use cryptox.Candidates.Recovery.{
  RecoveryRuntime, attempts_of, retries, recover_as, redispatched, recovered_candidate,
  recover_found, recover_abandoned_attempt, is_not_abandoned, broken_candidate,
  repair_terminal_queue_failure, end_attempts, mark_dispatch_dispatched, mark_dispatch_cancelled,
  roll_back_dispatch, with_dispatch, mark_dispatch_failed, cancelled_candidate, cancel_candidate,
}
use cryptox.Candidates.Effects.{
  is_final, IsSealed, Moves, Stays, Effect, same, moved, added, found_by_own,
}

end_attempts-candidates :
    (runtime : RecoveryRuntime) (now error : Text) (c : Candidate) (a : Option Attempt)
    (attempts : List Attempt) (s : Store)
    → (end_attempts runtime now error c a attempts s).candidates ≡ s.candidates
unfolding end_attempts
end_attempts-candidates runtime now error c (some a) attempts s = refl
end_attempts-candidates runtime now error c none [] s = refl
end_attempts-candidates runtime now error c none (a ∷ attempts) s = refl

redispatched-candidates :
    (now error : Text) (d : Option Dispatch) (s : Store)
    → (redispatched now error d s).candidates ≡ s.candidates
redispatched-candidates now error none s = refl
redispatched-candidates now error (some d) s = ground arith

recover_as-candidates :
    (runtime : RecoveryRuntime) (now error : Text) (c : Candidate) (retrying : Bool) (s : Store)
    → (recover_as runtime now error c retrying s).candidates
      ≡ set_by candidate_key (recovered_candidate retrying now error c) s.candidates
unfolding recover_as
recover_as-candidates runtime now error c true s =
    redispatched-candidates now error _ _
    ∙ ap (set_by candidate_key (recovered_candidate true now error c))
        (end_attempts-candidates runtime now error c _ _ s)
recover_as-candidates runtime now error c false s =
    ap (set_by candidate_key (recovered_candidate false now error c))
      (end_attempts-candidates runtime now error c _ _ s)

recovered_candidate-id :
    (retrying : Bool) (now error : Text) (c : Candidate)
    → (recovered_candidate retrying now error c).candidate_id ≡ c.candidate_id
unfolding recovered_candidate
recovered_candidate-id retrying now error c = refl

recovered_candidate-Moves :
    (retrying : Bool) (now error : Text) (c : Candidate)
    → is_backtesting c.status ≡ true
    → Moves c (recovered_candidate retrying now error c)
unfolding recovered_candidate is_pending_completion
recovered_candidate-Moves retrying now error c running v = ground (arith, v)

recovered_candidate-Stays :
    (retrying : Bool) (now error : Text) (c : Candidate)
    → is_backtesting c.status ≡ true
    → Stays none c (recovered_candidate retrying now error c)
unfolding recovered_candidate is_pending_completion
recovered_candidate-Stays retrying now error c running scope token v spent other =
    absurd (ground (arith, running, spent))

module _ (dates : Dates) where
  pub claim_worker_attempt-Effect :
      (k : Claim) (s : Store) → Effect none s (claim_worker_attempt dates k s).1
  unfolding claim_worker_attempt is_pending_completion
  claim_worker_attempt-Effect k s = elim (Option-cases (get_candidate k.candidate_id s)) [
    | inl missing ↦ rw (claim_worker_attempt, missing) (same refl)
    | inr (c, found) ↦ elim (Bool-cases (is_refused dates k c)) [
      | inl refused ↦ rw (claim_worker_attempt, found, refused) (same refl)
      | inr free ↦
          rw (claim_worker_attempt, found, free)
            (moved c (claimed_candidate k c) (found_by_own k.candidate_id s c found) refl
              (λ v. ground (arith, v)) (λ scope token v spent other. ground (arith, v, spent)) refl)
    ]
  ]

  pub recover_abandoned_attempt-Effect :
      (runtime : RecoveryRuntime) (id now error : Text) (s : Store)
      → Effect none s (recover_abandoned_attempt dates runtime id now error s).1
  unfolding recover_abandoned_attempt recover_found
  recover_abandoned_attempt-Effect runtime id now error s =
      elim (Option-cases (get_candidate id s)) [
        | inl missing ↦ rw (recover_abandoned_attempt, missing) (same refl)
        | inr (c, found) ↦ elim (Bool-cases (is_not_abandoned dates runtime now c)) [
          | inl refused ↦ rw (recover_abandoned_attempt, found, refused) (same refl)
          | inr abandoned ↦
              rw (recover_abandoned_attempt, found, abandoned)
                (moved c
                  (recovered_candidate (retries c (attempts_of c.candidate_id s)) now error c)
                  (found_by_own id s c found) (recovered_candidate-id _ now error c)
                  (recovered_candidate-Moves _ now error c (ground arith))
                  (recovered_candidate-Stays _ now error c (ground arith))
                  (recover_as-candidates runtime now error c _ s))
        ]
      ]

-- What is done under a fence moves the candidate that carries it.
with_fence-Effect :
    (candidate_id attempt_id token : Text) (body : Candidate → Attempt → Store → Store)
    (change : Candidate → Candidate) (s s' : Store)
    → ((c : Candidate) (a : Attempt)
        → (body c a s).candidates ≡ set_by candidate_key (change c) s.candidates)
    → ((c : Candidate) → (change c).candidate_id ≡ c.candidate_id)
    → ((c : Candidate) (a : Attempt) → is_fenced token c a ≡ true → Moves c (change c))
    → ((c : Candidate) (a : Attempt) → is_fenced token c a ≡ true → Stays none c (change c))
    → with_fence candidate_id attempt_id token body s ≡ ok s'
    → Effect none s s'
unfolding with_fence
with_fence-Effect candidate_id attempt_id token body change s s' writes keeps moves stays h =
    elim (Option-cases (get_candidate candidate_id s)) [
      | inl missing ↦ absurd (ground (arith, h))
      | inr (c, found) ↦ elim (Option-cases (get_attempt attempt_id s)) [
        | inl missing ↦ absurd (ground (arith, h))
        | inr (a, tried) ↦ elim (Bool-cases (is_fenced token c a)) [
          | inl fenced ↦
              let e : body c a s ≡ s' = ground (arith, h) in
              subst (Effect none s) e (
                moved c (change c) (found_by_own candidate_id s c found) (keeps c)
                  (moves c a fenced) (stays c a fenced) (writes c a))
          | inr lost ↦ absurd (ground (arith, h))
        ]
      ]
    ]

pub fail_worker_attempt-Effect :
    (candidate_id attempt_id token : Text) (retrying : Bool) (now error : Text) (s s' : Store)
    → fail_worker_attempt candidate_id attempt_id token retrying now error s ≡ ok s'
    → Effect none s s'
unfolding fail_worker_attempt is_pending_completion
fail_worker_attempt-Effect candidate_id attempt_id token retrying now error s s' =
    with_fence-Effect candidate_id attempt_id token (record_failure retrying now error)
      (failed_candidate retrying now error) s s' (λ c a. refl) (λ c. ground arith)
      (λ c a fenced v. ground (arith, v, fenced))
      (λ c a fenced scope tok v spent other. ground (arith, v, spent, fenced))

pub persist_worker_success-Effect :
    (candidate_id attempt_id token completed_at : Text) (trades : ℕ) (s s' : Store)
    → persist_worker_success candidate_id attempt_id token completed_at trades s ≡ ok s'
    → Effect none s s'
unfolding persist_worker_success is_pending_completion
persist_worker_success-Effect candidate_id attempt_id token completed_at trades s s' =
    with_fence-Effect candidate_id attempt_id token (record_success completed_at trades)
      (processing_candidate completed_at) s s' (λ c a. refl) (λ c. ground arith)
      (λ c a fenced v. ground (arith, v, fenced))
      (λ c a fenced scope tok v spent other. ground (arith, v, spent, fenced))

pub repair_terminal_queue_failure-Effect :
    (runtime : RecoveryRuntime) (id error now : Text) (s : Store)
    → Effect none s (repair_terminal_queue_failure runtime id error now s)
unfolding repair_terminal_queue_failure is_pending_completion
repair_terminal_queue_failure-Effect runtime id error now s =
    elim (Option-cases (get_candidate id s)) [
      | inl missing ↦ rw (repair_terminal_queue_failure, missing) (same refl)
      | inr (c, found) ↦
          elim (Bool-cases (terminal c.status || is_terminal_failure_pending c.status)) [
            | inl ended ↦ rw (repair_terminal_queue_failure, found, ended) (same refl)
            | inr open_still ↦
                rw (repair_terminal_queue_failure, found, open_still)
                  (moved c (broken_candidate now error c) (found_by_own id s c found) refl
                    (λ v. ground (arith, v)) (λ scope token v spent other. ground (arith, v, spent))
                    (ap (set_by candidate_key (broken_candidate now error c))
                      (end_attempts-candidates runtime now error c _ _ s)))
          ]
    ]

dispatch-candidates :
    (change : Dispatch → Dispatch) (d : Option Dispatch) (s : Store)
    → (with_dispatch change d s).candidates ≡ s.candidates
dispatch-candidates change none s = refl
dispatch-candidates change (some d) s = refl

pub mark_dispatch_dispatched-Effect :
    (job_id at : Text) (s : Store) → Effect none s (mark_dispatch_dispatched job_id at s)
unfolding mark_dispatch_dispatched
mark_dispatch_dispatched-Effect job_id at s = same (dispatch-candidates _ (get_dispatch job_id s) s)

pub mark_dispatch_failed-Effect :
    (job_id error at : Text) (s : Store) → Effect none s (mark_dispatch_failed job_id error at s)
unfolding mark_dispatch_failed
mark_dispatch_failed-Effect job_id error at s =
    same (dispatch-candidates _ (get_dispatch job_id s) s)

pub mark_dispatch_cancelled-Effect :
    (job_id at : Text) (s : Store) → Effect none s (mark_dispatch_cancelled job_id at s)
unfolding mark_dispatch_cancelled
mark_dispatch_cancelled-Effect job_id at s = same (dispatch-candidates _ (get_dispatch job_id s) s)

pub roll_back_dispatch-Effect :
    (job_id : Text) (d : Option Dispatch) (s : Store)
    → Effect none s (roll_back_dispatch job_id d s)
unfolding roll_back_dispatch
roll_back_dispatch-Effect job_id none s = same refl
roll_back_dispatch-Effect job_id (some d) s = same refl

-- A cancellation writes the copy that it was given, unless that has ended.
pub cancel_candidate-written :
    (now : Text) (c : Candidate) (s : Store)
    → ((cancel_candidate now c s).candidates ≡ s.candidates)
      ⊎ ((is_final c.status ≡ false)
          × ((cancel_candidate now c s).candidates
              ≡ set_by candidate_key (cancelled_candidate now c) s.candidates))
unfolding cancel_candidate terminal
cancel_candidate-written now c s = elim (Bool-cases (terminal c.status)) [
  | inl ended ↦ inl (rw (cancel_candidate, ended) refl)
  | inr open_still ↦ inr (
    ground arith,
    rw (cancel_candidate, open_still)
        (dispatch-candidates _ (get_dispatch c.queue_job_id s)
          (put_candidate (cancelled_candidate now c) s)),
  )
]

pub create_queued_submission-Effect :
    (c : Candidate) (d : Dispatch) (key : Option Text) (s : Store)
    → get_candidate c.candidate_id s ≡ none
    → IsSealed c
    → Effect none s (create_queued_submission c d key s).1
unfolding create_queued_submission create_candidate
create_queued_submission-Effect c d key s new v =
    elim (Option-cases (
      or_option (find_first (same_iteration c.search_run_id c.iteration_number) s.candidates)
        (existing_submission key c.owner_user_id s))) [
          | inl fresh ↦ rw (create_queued_submission, fresh) (added c new v (stored key))
          | inr (e, found) ↦ rw (create_queued_submission, found) (same refl)
        ]
  where
    stored :
        (k : Option Text)
        → (create_candidate c k s).candidates ≡ set_by candidate_key c s.candidates
    stored none = refl
    stored (some t) = ground arith
