-- ===== src/Candidates/Tests.antt =====
-- A candidate through its life, and the theorems on all operations at concrete stores.
use cryptox.Base.{
  ◌≡◌, refl, arith, true, Option, none, some, [], ◌∷◌, Result, ok, err, lookup_by, set_by, ◌>>=◌,
}
use cryptox.Candidates.Records.{
  CandidateStatus, completed, failed, Candidate, Store, Fault, get_candidate,
}
use cryptox.Candidates.Worker.{
  create_queued_submission, claim_worker_attempt, persist_worker_success,
}
use cryptox.Candidates.Recovery.{cancel_candidate}
use cryptox.Candidates.Completion.{claim_completion, finalize_completion}
use cryptox.Candidates.Lifecycle.{
  Steps, here, next, deletes, cancels, submits, claims, creates_scope, spares, Steps-AllSealed,
  Steps-Final,
}
use cryptox.Candidates.Finality.{AllSealed}
use cryptox.Candidates.Scopes.{create_scope, delete_scope}
use cryptox.Candidates.Samples.{
  dates, runtime, candidate, dispatch, empty, store, delivery, completion, scope, other_scope,
}

abbrev status_of : Option Candidate → Option CandidateStatus
status_of none = none
status_of (some c) = some c.status

-- Submitted, claimed, persisted, claimed for completion, completed.
abbrev life : Result Fault Store
life =
    persist_worker_success 10 11 50 120 4
      (claim_worker_attempt dates delivery
        (create_queued_submission candidate dispatch none empty).1).1
    >>= λ s. finalize_completion dates 10 (some 1) 70 60 140 (claim_completion dates completion s).1

abbrev status_after : Result Fault Store → Option CandidateStatus
status_after (ok s) = status_of (get_candidate 10 s)
status_after (err e) = none

life_completes : status_after life ≡ some completed
unfolding create_queued_submission claim_worker_attempt persist_worker_success claim_completion
    finalize_completion lookup_by set_by ◌>>=◌
life_completes = refl

-- The store after the submission, and after the claim.
abbrev submitted : Store
submitted = (create_queued_submission candidate dispatch none empty).1

abbrev claimed : Store
claimed = (claim_worker_attempt dates delivery submitted).1

-- A cancellation that read the candidate before the claim, and a deletion of a scope of another.
abbrev after_cancellation : Store
after_cancellation =
    (delete_scope 6 4 (cancel_candidate 115 candidate (create_scope scope 9 claimed))).1

submitted_is_stored : get_candidate 10 submitted ≡ some candidate
unfolding lookup_by create_queued_submission set_by
submitted_is_stored = refl

steps : Steps dates runtime empty after_cancellation
unfolding lookup_by
steps =
    deletes 6 4
      (cancels 115 10 candidate
        (next here (submits candidate dispatch none refl (refl, refl, omega arith) refl))
        submitted_is_stored (next (next here (claims delivery refl)) (creates_scope scope 9 refl))
        refl)
      refl

Steps-AllSealed_example : AllSealed after_cancellation
Steps-AllSealed_example = Steps-AllSealed steps tt

abbrev finished : Candidate
finished = record candidate { status = failed }

abbrev finished_store : Store
finished_store = record store { candidates = finished ∷ [] }

finished_is_stored : get_candidate 10 finished_store ≡ some finished
unfolding lookup_by
finished_is_stored = refl

-- Another scope is created and deleted, and a cancellation of the candidate spans it.
abbrev later_store : Store
later_store = (delete_scope 7 5 (create_scope other_scope 9 finished_store)).1

unfoldable later_steps :
    Steps dates runtime finished_store
      (claim_worker_attempt dates delivery (cancel_candidate 160 finished later_store)).1
later_steps =
    next
      (cancels 160 10 finished here finished_is_stored
        (deletes 7 5 (next here (creates_scope other_scope 9 refl)) refl) refl)
      (claims delivery refl)

later_steps-spares : spares 6 later_steps ≡ true
unfolding later_steps
later_steps-spares = refl

Steps-Final_example :
    get_candidate 10
      (claim_worker_attempt dates delivery (cancel_candidate 160 finished later_store)).1
    ≡ some finished
Steps-Final_example =
    Steps-Final 10 finished later_steps later_steps-spares ((refl, refl, omega arith), tt)
      finished_is_stored refl
