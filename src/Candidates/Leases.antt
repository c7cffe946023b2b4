-- ===== src/Candidates/Leases.antt =====
-- What leases and tokens keep apart: the workers of a candidate, and its completions; and where a
-- completion is not kept apart from a cancellation.
use cryptox.Base.{
  ℕ, ◌==◌, ◌≡◌, refl, sym, subst, ◌∙◌, arith, Bool, true, false, Option, none, some, Text, Dates,
  lookup_by-key, lookup_by-set_by, ok, err, Bool-cases, Option-cases, inl, inr, ==_iff,
}
use cryptox.Candidates.Records.{
  Candidate, Attempt, Dispatch, Store, fence_lost, completion_fence_lost, candidate_key,
  get_candidate, put_candidate, get_attempt, completed, terminal, is_cancelled,
  is_processing_result, is_token, is_later,
}
use cryptox.Candidates.Worker.{
  Claim, is_refused, claimed_candidate, claim_worker_attempt, with_fence, fail_worker_attempt,
  persist_worker_success, record_failure, record_success,
}
use cryptox.Candidates.Recovery.{cancelled_candidate, cancel_candidate, with_dispatch}
use cryptox.Candidates.Completion.{
  completed_candidate, with_claim, holds_claim, finalize_completion, uncompleted_candidate,
  fail_completion,
}

get_put :
    (id : Text) (x : Candidate) (s : Store)
    → x.candidate_id ≡ id
    → get_candidate id (put_candidate x s) ≡ some x
get_put id x s e =
    lookup_by-set_by candidate_key id x s.candidates ∙ rw ((==_iff x.candidate_id id).1 e) refl

module _ (dates : Dates) where
  -- A claim that is granted leaves the claimed candidate stored.
  claim_worker_attempt-stored :
      (k : Claim) (s : Store) (c : Candidate) (a : Attempt)
      → (claim_worker_attempt dates k s).0 ≡ some (c, a)
      → (d : Candidate) × (get_candidate k.candidate_id (claim_worker_attempt dates k s).1
          ≡ some (claimed_candidate k d))
  unfolding claim_worker_attempt
  claim_worker_attempt-stored k s c a h = elim (Option-cases (get_candidate k.candidate_id s)) [
    | inl missing ↦ absurd (ground (arith, rw (claim_worker_attempt, missing) at h))
    | inr (d, found) ↦ elim (Bool-cases (is_refused dates k d)) [
      | inl refused ↦ absurd (ground (arith, rw (claim_worker_attempt, found, refused) at h))
      | inr free ↦ (
        d,
        rw (claim_worker_attempt, found, free)
            (get_put k.candidate_id (claimed_candidate k d) s
              (lookup_by-key candidate_key k.candidate_id s.candidates d found)),
      )
    ]
  ]

  with_fence-lost :
      (id attempt token : Text) (body : Candidate → Attempt → Store → Store) (s : Store)
      (c : Candidate)
      → get_candidate id s ≡ some c
      → is_token c.active_fence_token token ≡ false
      → with_fence id attempt token body s ≡ err fence_lost
  unfolding with_fence
  with_fence-lost id attempt token body s c found other =
      elim (Option-cases (get_attempt attempt s)) [
        | inl missing ↦ rw (with_fence, found, missing) refl
        | inr (a, tried) ↦ rw (with_fence, found, tried, other) refl
      ]

  refused_claim :
      (k : Claim) (s : Store) (c : Candidate)
      → get_candidate k.candidate_id s ≡ some c
      → is_refused dates k c ≡ true
      → claim_worker_attempt dates k s ≡ (none, s)
  unfolding claim_worker_attempt
  refused_claim k s c found refused = rw (claim_worker_attempt, found, refused) refl

  with_claim-lost :
      (id : Text) (may : Candidate → Bool) (change : Candidate → Candidate) (s : Store)
      (c : Candidate)
      → get_candidate id s ≡ some c
      → may c ≡ false
      → with_claim dates id may change s ≡ err completion_fence_lost
  unfolding with_claim
  with_claim-lost id may change s c found lost = rw (with_claim, found, lost) refl

  with_claim-held :
      (id : Text) (may : Candidate → Bool) (change : Candidate → Candidate) (s : Store)
      (c : Candidate)
      → get_candidate id s ≡ some c
      → may c ≡ true
      → with_claim dates id may change s ≡ ok (put_candidate (change c) s)
  unfolding with_claim
  with_claim-held id may change s c found held = rw (with_claim, found, held) refl

  -- Once a worker has claimed a candidate, a worker with another token can record neither a result
  -- nor a failure for it, and until the lease ends no other delivery can claim it.
  pub claim_worker_attempt-excludes :
      (k : Claim) (s : Store) (c : Candidate) (a : Attempt) (attempt token : Text) (later : Claim)
      (retrying : Bool) (at error : Text) (trades : ℕ)
      → (claim_worker_attempt dates k s).0 ≡ some (c, a)
      → (k.fence_token == token) ≡ false
      → later.candidate_id ≡ k.candidate_id
      → is_later dates (some k.lease_expires_at) later.now ≡ true
      → (persist_worker_success k.candidate_id attempt token at trades
            (claim_worker_attempt dates k s).1
          ≡ err fence_lost)
        × (fail_worker_attempt k.candidate_id attempt token retrying at error
              (claim_worker_attempt dates k s).1
            ≡ err fence_lost)
        × (claim_worker_attempt dates later (claim_worker_attempt dates k s).1
            ≡ (none, (claim_worker_attempt dates k s).1))
  unfolding persist_worker_success fail_worker_attempt
  claim_worker_attempt-excludes k s c a attempt token later retrying at error trades granted other
        own held =
      let (d, stored) = claim_worker_attempt-stored k s c a granted in
      (
        with_fence-lost k.candidate_id attempt token (record_success at trades) _
            (claimed_candidate k d) stored other,
        with_fence-lost k.candidate_id attempt token (record_failure retrying at error) _
            (claimed_candidate k d) stored other,
        refused d (claim_worker_attempt dates k s).1 (
            subst
              (λ (i : Text).
                get_candidate i (claim_worker_attempt dates k s).1 ≡ some (claimed_candidate k d))
              (sym own) stored),
      )
    where
      refused :
          (d : Candidate) (t : Store)
          → get_candidate later.candidate_id t ≡ some (claimed_candidate k d)
          → claim_worker_attempt dates later t ≡ (none, t)
      refused d t found = refused_claim later t (claimed_candidate k d) found (ground (arith, held))

  dispatch_kept :
      (id : Text) (change : Dispatch → Dispatch) (d : Option Dispatch) (s : Store)
      → get_candidate id (with_dispatch change d s) ≡ get_candidate id s
  dispatch_kept id change none s = refl
  dispatch_kept id change (some d) s = refl

  -- A cancellation stores the copy that it was given, whatever is stored by then.
  copy-stored :
      (s : Store) (c : Candidate) (id at : Text)
      → c.candidate_id ≡ id
      → terminal c.status ≡ false
      → get_candidate id (cancel_candidate at c s) ≡ some (cancelled_candidate at c)
  unfolding cancel_candidate
  copy-stored s c id at own open_still =
      rw (cancel_candidate, open_still)
        (dispatch_kept id _ _ (put_candidate (cancelled_candidate at c) s)
          ∙ get_put id (cancelled_candidate at c) s own)

  uncompleted-is_cancelled :
      (retry_at : Option Text) (now error : Text) (c : Candidate)
      → is_cancelled (uncompleted_candidate retry_at now error c).status ≡ false
  unfolding uncompleted_candidate
  uncompleted-is_cancelled retry_at now error c = ground arith

  -- A candidate that is cancelled while its completion is under way: the completion loses its fence,
  -- but the failure that it then records takes the candidate out of CANCELLED.
  pub cancel_candidate-revives :
      (s : Store) (c : Candidate) (id token experiment at now error : Text) (generation : Option ℕ)
      (retry_at : Option Text)
      → get_candidate id s ≡ some c
      → is_processing_result c.status ≡ true
      → holds_claim dates token generation now c ≡ true
      → (finalize_completion dates id generation experiment token now (cancel_candidate at c s)
          ≡ err completion_fence_lost)
        × ((s' : Store) × (c' : Candidate) × (fail_completion dates id generation token retry_at now
                error
                (cancel_candidate at c s)
              ≡ ok s')
            × (get_candidate id s' ≡ some c')
            × (is_cancelled c'.status ≡ false))
  unfolding finalize_completion fail_completion cancel_candidate
  cancel_candidate-revives s c id token experiment at now error generation retry_at found busy
        held =
      let own : c.candidate_id ≡ id = lookup_by-key candidate_key id s.candidates c found in
      let stored = copy-stored s c id at own (ground (arith, busy)) in
      let x : Candidate = cancelled_candidate at c in
      let claim : holds_claim dates token generation now x ≡ true = held in
      (
        with_claim-lost id _ _ (cancel_candidate at c s) x stored refl,
        (
          put_candidate (uncompleted_candidate retry_at now error x) (cancel_candidate at c s),
          uncompleted_candidate retry_at now error x,
          with_claim-held id _ _ (cancel_candidate at c s) x stored claim,
          get_put id (uncompleted_candidate retry_at now error x) (cancel_candidate at c s)
              (lookup_by-key candidate_key id s.candidates c found),
          uncompleted-is_cancelled retry_at now error x,
        ),
      )

  -- A cancellation that read a candidate while its completion was under way, and writes the copy
  -- after the completion has ended: the candidate, completed with its experiment, is CANCELLED, and
  -- has the experiment no more.
  pub cancel_candidate-overwrites :
      (s : Store) (c : Candidate) (id token experiment now at : Text) (generation : Option ℕ)
      → get_candidate id s ≡ some c
      → is_processing_result c.status ≡ true
      → c.experiment_result_id ≡ none
      → holds_claim dates token generation now c ≡ true
      → (s' : Store) × (x y : Candidate) × (finalize_completion dates id generation experiment token
            now s
          ≡ ok s')
        × (get_candidate id s' ≡ some x)
        × (x.status ≡ completed)
        × (x.experiment_result_id ≡ some experiment)
        × (get_candidate id (cancel_candidate at c s') ≡ some y)
        × (is_cancelled y.status ≡ true)
        × (y.experiment_result_id ≡ none)
  unfolding finalize_completion cancelled_candidate completed_candidate terminal
  cancel_candidate-overwrites s c id token experiment now at generation found busy no_result held =
      let own : c.candidate_id ≡ id = lookup_by-key candidate_key id s.candidates c found in
      let x : Candidate = completed_candidate experiment now c in
      (
        put_candidate x s,
        x,
        cancelled_candidate at c,
        with_claim-held id _ _ s c found (ground (arith, held, busy)),
        get_put id x s own,
        refl,
        refl,
        copy-stored (put_candidate x s) c id at own (ground (arith, busy)),
        refl,
        no_result,
      )
