-- ===== src/Candidates/Lifecycle.antt =====
-- The operations on the candidates of backtests in any order, and what never changes.
use cryptox.Base.{
  ℕ, ◌==◌, ◌≡◌, sym, subst, arith, Bool, true, not, ◌&&◌, Option, none, some, Text, inl, inr, Dates,
  ok,
}
use cryptox.Candidates.Records.{Candidate, Dispatch, Scope, Store, get_candidate}
use cryptox.Candidates.Scopes.{create_scope, create_scope-candidates, delete_scope}
use cryptox.Candidates.Worker.{
  create_queued_submission, Claim, claim_worker_attempt, fail_worker_attempt,
  persist_worker_success,
}
use cryptox.Candidates.Recovery.{
  RecoveryRuntime, recover_abandoned_attempt, repair_terminal_queue_failure,
  mark_dispatch_dispatched, mark_dispatch_failed, cancel_candidate, mark_dispatch_cancelled,
  roll_back_candidate, roll_back_dispatch,
}
use cryptox.Candidates.Completion.{
  CompletionClaim, claim_completion, finalize_completion, finalize_terminal_failure,
  fail_completion,
}
use cryptox.Candidates.Effects.{is_final, IsSealed, Effect, same}
use cryptox.Candidates.Finality.{
  AllSealed, lookup_by-All, Effect-AllSealed, Effect-final, delete_scope-AllSealed,
  delete_scope-keeps, cancel_candidate-AllSealed, cancel_candidate-keeps,
  roll_back_candidate-AllSealed, roll_back_candidate-found, same_copy,
}
use cryptox.Candidates.WorkerEffects.{
  create_queued_submission-Effect, claim_worker_attempt-Effect, fail_worker_attempt-Effect,
  persist_worker_success-Effect, recover_abandoned_attempt-Effect,
  repair_terminal_queue_failure-Effect, mark_dispatch_dispatched-Effect,
  mark_dispatch_failed-Effect, mark_dispatch_cancelled-Effect, roll_back_dispatch-Effect,
}
use cryptox.Candidates.CompletionEffects.{
  claim_completion-Effect, finalize_completion-Effect, finalize_terminal_failure-Effect,
  fail_completion-Effect,
}

-- One operation on the store. A submission brings a candidate of a new id.
pub data Step (dates : Dates) (runtime : RecoveryRuntime) (s s' : Store) : Type 0 where
  submits :
      (c : Candidate) (d : Dispatch) (key : Option Text)
      → get_candidate c.candidate_id s ≡ none
      → IsSealed c
      → s' ≡ (create_queued_submission c d key s).1
      → Step dates runtime s s'
  claims : (k : Claim) → s' ≡ (claim_worker_attempt dates k s).1 → Step dates runtime s s'
  fails :
      (id attempt token : Text) (retrying : Bool) (now error : Text)
      → fail_worker_attempt id attempt token retrying now error s ≡ ok s'
      → Step dates runtime s s'
  persists :
      (id attempt token completed_at : Text) (trades : ℕ)
      → persist_worker_success id attempt token completed_at trades s ≡ ok s'
      → Step dates runtime s s'
  recovers :
      (id now error : Text)
      → s' ≡ (recover_abandoned_attempt dates runtime id now error s).1
      → Step dates runtime s s'
  repairs :
      (id error now : Text)
      → s' ≡ repair_terminal_queue_failure runtime id error now s
      → Step dates runtime s s'
  dispatches : (job at : Text) → s' ≡ mark_dispatch_dispatched job at s → Step dates runtime s s'
  misses :
      (job error at : Text) → s' ≡ mark_dispatch_failed job error at s → Step dates runtime s s'
  unqueues : (job at : Text) → s' ≡ mark_dispatch_cancelled job at s → Step dates runtime s s'
  restores_dispatch :
      (job : Text) (d : Option Dispatch) → s' ≡ roll_back_dispatch job d s → Step dates runtime s s'
  creates_scope : (b : Scope) (key : Text) → s' ≡ create_scope b key s → Step dates runtime s s'
  completes : (k : CompletionClaim) → s' ≡ (claim_completion dates k s).1 → Step dates runtime s s'
  finalizes :
      (id : Text) (generation : Option ℕ) (experiment token now : Text)
      → finalize_completion dates id generation experiment token now s ≡ ok s'
      → Step dates runtime s s'
  terminates :
      (id : Text) (generation : Option ℕ) (token now : Text)
      → finalize_terminal_failure dates id generation token now s ≡ ok s'
      → Step dates runtime s s'
  gives_up :
      (id : Text) (generation : Option ℕ) (token : Text) (retry_at : Option Text) (now error : Text)
      → fail_completion dates id generation token retry_at now error s ≡ ok s'
      → Step dates runtime s s'

-- Operations one after another. A deletion of a scope removes its candidates. A cancellation reads
-- its candidate, and writes the copy that it read after any other operations; one that is rolled back
-- puts back, after others again, what was stored when it wrote.
pub data Steps (dates : Dates) (runtime : RecoveryRuntime) : Store → Store → Type 0 where
  here : {s : Store} → Steps dates runtime s s
  next :
      {s t u : Store} → Steps dates runtime s t → Step dates runtime t u → Steps dates runtime s u
  deletes :
      {s t u : Store} (scope owner : Text)
      → Steps dates runtime s t
      → u ≡ (delete_scope scope owner t).1
      → Steps dates runtime s u
  cancels :
      {s t u v : Store} (now id : Text) (c : Candidate)
      → Steps dates runtime s t
      → get_candidate id t ≡ some c
      → Steps dates runtime t u
      → v ≡ cancel_candidate now c u
      → Steps dates runtime s v
  rolls_back :
      {s t u v : Store} (id : Text)
      → Steps dates runtime s t
      → Steps dates runtime t u
      → v ≡ roll_back_candidate id (get_candidate id t) u
      → Steps dates runtime s v

module _ {dates : Dates} {runtime : RecoveryRuntime} where
  -- The token of the claim of a completion that the operation uses.
  abbrev pub token_of : {s s' : Store} → Step dates runtime s s' → Option Text
  token_of (finalizes id generation experiment token now e) = some token
  token_of (terminates id generation token now e) = some token
  token_of (gives_up id generation token retry_at now error e) = some token
  token_of step = none

  pub Step-Effect : {s s' : Store} (step : Step dates runtime s s') → Effect (token_of step) s s'
  Step-Effect {s} (submits c d key new v e) =
      subst (Effect none s) (sym e) (create_queued_submission-Effect c d key s new v)
  Step-Effect {s} (claims k e) =
      subst (Effect none s) (sym e) (claim_worker_attempt-Effect dates k s)
  Step-Effect (fails id attempt token retrying now error e) =
      fail_worker_attempt-Effect id attempt token retrying now error _ _ e
  Step-Effect (persists id attempt token completed_at trades e) =
      persist_worker_success-Effect id attempt token completed_at trades _ _ e
  Step-Effect {s} (recovers id now error e) =
      subst (Effect none s) (sym e) (recover_abandoned_attempt-Effect dates runtime id now error s)
  Step-Effect {s} (repairs id error now e) =
      subst (Effect none s) (sym e) (repair_terminal_queue_failure-Effect runtime id error now s)
  Step-Effect {s} (dispatches job at e) =
      subst (Effect none s) (sym e) (mark_dispatch_dispatched-Effect job at s)
  Step-Effect {s} (misses job error at e) =
      subst (Effect none s) (sym e) (mark_dispatch_failed-Effect job error at s)
  Step-Effect {s} (unqueues job at e) =
      subst (Effect none s) (sym e) (mark_dispatch_cancelled-Effect job at s)
  Step-Effect {s} (restores_dispatch job d e) =
      subst (Effect none s) (sym e) (roll_back_dispatch-Effect job d s)
  Step-Effect {s} (creates_scope b key e) =
      subst (Effect none s) (sym e) (same (create_scope-candidates b key s))
  Step-Effect {s} (completes k e) =
      subst (Effect none s) (sym e) (claim_completion-Effect dates k s)
  Step-Effect (finalizes id generation experiment token now e) =
      finalize_completion-Effect dates id generation experiment token now _ _ e
  Step-Effect (terminates id generation token now e) =
      finalize_terminal_failure-Effect dates id generation token now _ _ e
  Step-Effect (gives_up id generation token retry_at now error e) =
      fail_completion-Effect dates id generation token retry_at now error _ _ e

module _ {dates : Dates} {runtime : RecoveryRuntime} where
  -- Whether none of the deletions is of the scope.
  abbrev pub spares : {s s' : Store} → Text → Steps dates runtime s s' → Bool
  spares scope here = true
  spares scope (next steps step) = spares scope steps
  spares scope (deletes deleted owner steps e) = not (scope == deleted) && spares scope steps
  spares scope (cancels now id c before read after e) = spares scope before && spares scope after
  spares scope (rolls_back id before after e) = spares scope before && spares scope after

  -- Through all operations in any order, with submissions of new ids, deletions of scopes,
  -- cancellations that write what they read before, and rollbacks of them, sealed candidates stay
  -- sealed: a fence is held only by a candidate that runs or was cancelled, a completion claimed
  -- only of one that waits for it or was cancelled, never both, and no more completions are
  -- attempted than may be.
  pub Steps-AllSealed : {s s' : Store} → Steps dates runtime s s' → AllSealed s → AllSealed s'
  Steps-AllSealed here v = v
  Steps-AllSealed {s'} (next {t} steps step) v =
      Effect-AllSealed (token_of step) t s' (Step-Effect step) (Steps-AllSealed steps v)
  Steps-AllSealed (deletes {t} scope owner steps e) v =
      subst AllSealed (sym e) (delete_scope-AllSealed scope owner t (Steps-AllSealed steps v))
  Steps-AllSealed (cancels {t} {u} now id c before read after e) v =
      let v' = Steps-AllSealed before v in
      subst AllSealed (sym e) (
        cancel_candidate-AllSealed now c u (lookup_by-All id t.candidates c v' read)
          (Steps-AllSealed after v'))
  Steps-AllSealed (rolls_back {t} {u} id before after e) v =
      let v' = Steps-AllSealed before v in
      subst AllSealed (sym e) (roll_back_candidate-AllSealed id t u v' (Steps-AllSealed after v'))

  -- A candidate that has completed or failed, in a store of sealed candidates, is never changed
  -- again by operations that begin from then on, in any order: submissions of new ids, deletions of
  -- other scopes than its own, cancellations that write what they read after that moment, and
  -- rollbacks of such writes among them.
  pub Steps-Final :
      {s s' : Store} (id : Text) (c : Candidate) (steps : Steps dates runtime s s')
      → spares c.leaderboard_scope_id steps ≡ true
      → AllSealed s
      → get_candidate id s ≡ some c
      → is_final c.status ≡ true
      → get_candidate id s' ≡ some c
  Steps-Final id c here spared v h f = h
  Steps-Final {s'} id c (next {t} steps step) spared v h f =
      Effect-final (token_of step) t s' id c (Step-Effect step) (Steps-AllSealed steps v)
        (Steps-Final id c steps spared v h f) f
  Steps-Final id c (deletes {t} scope owner steps e) spared v h f =
      subst (λ (x : Store). get_candidate id x ≡ some c) (sym e)
        (delete_scope-keeps scope owner id c t
          (Steps-Final id c steps (ground (arith, spared)) v h f) (ground (arith, spared)))
  Steps-Final id c (cancels {t} {u} now read_id d before read after e) spared v h f =
      let h' = Steps-Final id c before (ground (arith, spared)) v h f in
      let h'' = Steps-Final id c after (ground (arith, spared)) (Steps-AllSealed before v) h' f in
      subst (λ (x : Store). get_candidate id x ≡ some c) (sym e)
        (cancel_candidate-keeps now id c d u h'' f (same_copy read_id id t d c read h'))
  Steps-Final id c (rolls_back {t} {u} rolled before after e) spared v h f =
      let h' = Steps-Final id c before (ground (arith, spared)) v h f in
      let h'' = Steps-Final id c after (ground (arith, spared)) (Steps-AllSealed before v) h' f in
      subst (λ (x : Store). get_candidate id x ≡ some c) (sym e)
        (elim (roll_back_candidate-found rolled id c c t u h' h'') [ inl r ↦ r | inr r ↦ r ])
