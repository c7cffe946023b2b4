-- ===== src/Candidates/CompletionEffects.antt =====
-- The effects of the completions on the candidates.
use cryptox.Base.{
  ℕ, ◌≡◌, refl, subst, arith, Bool, true, Option, none, some, Text, Dates, ok, Bool-cases,
  Option-cases, inl, inr,
}
use cryptox.Candidates.Records.{
  Candidate, Store, get_candidate, put_candidate, is_pending_completion,
}
use cryptox.Candidates.Completion.{
  CompletionClaim, claimed_completion, is_claim_refused, claim_completion, with_claim, holds_claim,
  completed_candidate, finalize_completion, terminated_candidate, finalize_terminal_failure,
  uncompleted_candidate, fail_completion,
}
use cryptox.Candidates.Effects.{Moves, Stays, Effect, same, moved, found_by_own}

module _ (dates : Dates) where
  pub claim_completion-Effect :
      (k : CompletionClaim) (s : Store) → Effect none s (claim_completion dates k s).1
  unfolding claim_completion
  claim_completion-Effect k s = elim (Option-cases (get_candidate k.candidate_id s)) [
    | inl missing ↦ rw (claim_completion, missing) (same refl)
    | inr (c, found) ↦ elim (Bool-cases (is_claim_refused dates k c)) [
      | inl refused ↦ rw (claim_completion, found, refused) (same refl)
      | inr free ↦
          rw (claim_completion, found, free)
            (moved c (claimed_completion k c) (found_by_own k.candidate_id s c found) refl
              (λ v. ground (arith, v))
              (λ scope token v spent other. absurd (ground (arith, v, spent, free))) refl)
    ]
  ]

  -- What the holder of a claim writes moves the candidate.
  with_claim-Effect :
      (id token : Text) (may : Candidate → Bool) (change : Candidate → Candidate) (s s' : Store)
      → ((c : Candidate) → (change c).candidate_id ≡ c.candidate_id)
      → ((c : Candidate) → may c ≡ true → Moves c (change c))
      → ((c : Candidate) → may c ≡ true → Stays (some token) c (change c))
      → with_claim dates id may change s ≡ ok s'
      → Effect (some token) s s'
  unfolding with_claim
  with_claim-Effect id token may change s s' keeps moves stays h =
      elim (Option-cases (get_candidate id s)) [
        | inl missing ↦ absurd (ground (arith, h))
        | inr (c, found) ↦ elim (Bool-cases (may c)) [
          | inl held ↦
              let e : put_candidate (change c) s ≡ s' = ground (arith, h) in
              subst (Effect (some token) s) e (
                moved c (change c) (found_by_own id s c found) (keeps c) (moves c held)
                  (stays c held) refl)
          | inr lost ↦ absurd (ground (arith, h))
        ]
      ]

  pub finalize_completion-Effect :
      (id : Text) (generation : Option ℕ) (experiment token now : Text) (s s' : Store)
      → finalize_completion dates id generation experiment token now s ≡ ok s'
      → Effect (some token) s s'
  unfolding finalize_completion is_pending_completion
  finalize_completion-Effect id generation experiment token now s s' =
      with_claim-Effect id token _ (completed_candidate experiment now) s s' (λ c. refl)
        (λ c held v. ground (arith, v, held))
        (λ c held scope tok v spent other. ground (arith, v, spent, held, other))

  pub finalize_terminal_failure-Effect :
      (id : Text) (generation : Option ℕ) (token now : Text) (s s' : Store)
      → finalize_terminal_failure dates id generation token now s ≡ ok s'
      → Effect (some token) s s'
  unfolding finalize_terminal_failure is_pending_completion
  finalize_terminal_failure-Effect id generation token now s s' =
      with_claim-Effect id token _ (terminated_candidate now) s s' (λ c. refl)
        (λ c held v. ground (arith, v, held))
        (λ c held scope tok v spent other. ground (arith, v, spent, held, other))

  pub fail_completion-Effect :
      (id : Text) (generation : Option ℕ) (token : Text) (retry_at : Option Text) (now error : Text)
      (s s' : Store)
      → fail_completion dates id generation token retry_at now error s ≡ ok s'
      → Effect (some token) s s'
  unfolding fail_completion is_pending_completion
  fail_completion-Effect id generation token retry_at now error s s' =
      with_claim-Effect id token (holds_claim dates token generation now)
        (uncompleted_candidate retry_at now error) s s' (λ c. refl)
        (λ c held v. ground (arith, v, held))
        (λ c held scope tok v spent other. ground (arith, v, spent, held, other))
