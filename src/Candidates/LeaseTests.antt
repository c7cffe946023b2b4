-- ===== src/Candidates/LeaseTests.antt =====
-- The theorems on claims, completions and cancellations at concrete stores.
use cryptox.Base.{◌≡◌, refl, arith, true, false, ◌||◌, none, some, [], ◌∷◌, ok, err, lookup_by}
use cryptox.Candidates.Records.{
  processing_result, completed, Candidate, Attempt, Store, fence_lost, completion_fence_lost,
  get_candidate, is_pending_completion, is_cancelled,
}
use cryptox.Candidates.Worker.{claim_worker_attempt, persist_worker_success, fail_worker_attempt}
use cryptox.Candidates.Recovery.{repair_terminal_queue_failure, cancel_candidate}
use cryptox.Candidates.Completion.{
  CompletionClaim, claim_completion, finalize_completion, fail_completion,
}
use cryptox.Candidates.Lifecycle.{Steps, here, next, cancels, repairs, creates_scope, spares}
use cryptox.Candidates.Scopes.{create_scope}
use cryptox.Candidates.Leases.{
  claim_worker_attempt-excludes, cancel_candidate-revives, cancel_candidate-overwrites,
}
use cryptox.Candidates.Stuck.{leaves, claim_completion-stuck}
use cryptox.Candidates.Samples.{
  dates, runtime, candidate, store, delivery, redelivery, completion, other_scope,
}

granted :
    (c : Candidate) × (a : Attempt) × ((claim_worker_attempt dates delivery store).0 ≡ some (c, a))
unfolding claim_worker_attempt lookup_by
granted = (_, _, refl)

claim_worker_attempt-excludes_example :
    (persist_worker_success 10 12 51 155 4 (claim_worker_attempt dates delivery store).1
      ≡ err fence_lost)
    × (fail_worker_attempt 10 12 51 true 155 9 (claim_worker_attempt dates delivery store).1
        ≡ err fence_lost)
    × (claim_worker_attempt dates redelivery (claim_worker_attempt dates delivery store).1
        ≡ (none, (claim_worker_attempt dates delivery store).1))
claim_worker_attempt-excludes_example =
    claim_worker_attempt-excludes dates delivery store granted.0 granted.1 12 51 redelivery true 155
      9 4 granted.2 refl refl refl

-- A candidate whose completion is under way.
abbrev completing : Candidate
completing = record candidate {
  status = processing_result;
  completion_attempt_count = 5;
  completion_generation = some 1;
  active_completion_claim_token = some 60;
  active_completion_lease_expires_at = some 190;
}

abbrev completing_store : Store
completing_store = record store { candidates = completing ∷ [] }

completing_is_stored : get_candidate 10 completing_store ≡ some completing
unfolding lookup_by
completing_is_stored = refl

cancel_candidate-revives_example :
    (finalize_completion dates 10
        (some 1)
        70
        60
        140
        (cancel_candidate 135 completing completing_store)
      ≡ err completion_fence_lost)
    × ((s' : Store) × (c' : Candidate) × (fail_completion dates 10
            (some 1)
            60
            (some 150)
            140
            9
            (cancel_candidate 135 completing completing_store)
          ≡ ok s')
        × (get_candidate 10 s' ≡ some c')
        × (is_cancelled c'.status ≡ false))
cancel_candidate-revives_example =
    cancel_candidate-revives dates completing_store completing 10 60 70 135 140 9 (some 1)
      (some 150) completing_is_stored refl refl

cancel_candidate-overwrites_example :
    (s' : Store) × (x y : Candidate) × (finalize_completion dates 10
        (some 1)
        70
        60
        140
        completing_store
      ≡ ok s')
    × (get_candidate 10 s' ≡ some x)
    × (x.status ≡ completed)
    × (x.experiment_result_id ≡ some 70)
    × (get_candidate 10 (cancel_candidate 135 completing s') ≡ some y)
    × (is_cancelled y.status ≡ true)
    × (y.experiment_result_id ≡ none)
cancel_candidate-overwrites_example =
    cancel_candidate-overwrites dates completing_store completing 10 60 70 140 135 (some 1)
      completing_is_stored refl refl refl

abbrev completion_later : CompletionClaim
completion_later = record completion { claim_token = 61; now = 200; lease_expires_at = 260 }

-- The candidate is repaired, and cancelled after another scope is created.
abbrev stuck_store : Store
stuck_store =
    cancel_candidate 220 completing
      (create_scope other_scope 9 (repair_terminal_queue_failure runtime 10 9 210 completing_store))

unfoldable stuck_steps : Steps dates runtime completing_store stuck_store
stuck_steps =
    cancels 220 10 completing here completing_is_stored
      (next (next here (repairs 10 9 210 refl)) (creates_scope other_scope 9 refl)) refl

stuck_steps-spares : spares 6 stuck_steps ≡ true
unfolding stuck_steps
stuck_steps-spares = refl

stuck_steps-leaves : leaves 60 stuck_steps ≡ true
unfolding stuck_steps
stuck_steps-leaves = refl

claim_completion-stuck_example :
    (x : Candidate) × (get_candidate 10 stuck_store ≡ some x)
    × ((is_pending_completion x.status || is_cancelled x.status) ≡ true)
    × (claim_completion dates completion_later stuck_store ≡ (none, stuck_store))
unfolding is_pending_completion
claim_completion-stuck_example =
    claim_completion-stuck 60 completing completion_later stuck_steps stuck_steps-spares
      stuck_steps-leaves ((refl, refl, omega arith), tt) completing_is_stored refl (omega arith)
      refl
