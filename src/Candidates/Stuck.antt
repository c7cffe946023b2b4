-- ===== src/Candidates/Stuck.antt =====
-- A candidate whose completion was claimed for the last time, and the claim left without an end.
use cryptox.Base.{
  ◌≤◌, ◌==◌, ◌≡◌, refl, sym, subst, ◌∙◌, arith, Bool, true, ◌&&◌, ◌||◌, Option, none, some, Text,
  Dates, lookup_by-set_by, Bool-cases, inl, inr, ==_iff,
}
use cryptox.Candidates.Records.{
  Candidate, Store, candidate_key, get_candidate, is_pending_completion, is_cancelled, is_token,
}
use cryptox.Candidates.Recovery.{
  RecoveryRuntime, cancelled_candidate, cancel_candidate, roll_back_candidate,
}
use cryptox.Candidates.Completion.{CompletionClaim, is_claim_refused, claim_completion}
use cryptox.Candidates.Effects.{is_spent, is_other, Effect, same, moved, added}
use cryptox.Candidates.WorkerEffects.{cancel_candidate-written}
use cryptox.Candidates.Finality.{
  AllSealed, lookup_by-All, delete_scope-keeps, roll_back_candidate-found, same_copy,
}
use cryptox.Candidates.Lifecycle.{
  Steps, here, next, deletes, cancels, rolls_back, token_of, Step-Effect, spares, Steps-AllSealed,
}

-- A candidate of the scope, stored under the id, that is spent.
abbrev pub IsStuck : Text → Text → Text → Store → Type 0
IsStuck scope token id s =
    (c : Candidate) × (get_candidate id s ≡ some c) × (is_spent scope token c ≡ true)

Effect-IsStuck :
    (used : Option Text) (s s' : Store) (scope token id : Text)
    → Effect used s s'
    → AllSealed s
    → is_other used token ≡ true
    → IsStuck scope token id s
    → IsStuck scope token id s'
Effect-IsStuck used s s' scope token id (same e) v other (c, h, f) = (c, rw e h, f)
Effect-IsStuck used s s' scope token id (moved d x found keeps moves stays e) v other (c, h, f) =
    elim (Bool-cases (x.candidate_id == id)) [
      | inl own ↦
          let same_id : d.candidate_id ≡ id = sym keeps ∙ (==_iff x.candidate_id id).0 own in
          let d_is_c : d ≡ c = same_copy d.candidate_id id s d c found h same_id in
          let spent : is_spent scope token d ≡ true =
            subst (λ (y : Candidate). is_spent scope token y ≡ true) (sym d_is_c) f in
          (
            x,
            rw e (lookup_by-set_by candidate_key id x s.candidates ∙ rw own refl),
            stays scope token (lookup_by-All d.candidate_id s.candidates d v found) spent other,
          )
      | inr apart ↦ (c, rw e (lookup_by-set_by candidate_key id x s.candidates ∙ rw apart h), f)
    ]
Effect-IsStuck used s s' scope token id (added x new p e) v other (c, h, f) =
    elim (Bool-cases (x.candidate_id == id)) [
      | inl own ↦
          let missing : get_candidate id s ≡ none =
            subst (λ (k : Text). get_candidate k s ≡ none) ((==_iff x.candidate_id id).0 own) new in
          absurd (ground (arith, sym missing ∙ h))
      | inr apart ↦ (c, rw e (lookup_by-set_by candidate_key id x s.candidates ∙ rw apart h), f)
    ]

cancelled-is_spent :
    (now scope token : Text) (c : Candidate)
    → is_spent scope token c ≡ true
    → is_spent scope token (cancelled_candidate now c) ≡ true
unfolding cancelled_candidate
cancelled-is_spent now scope token c f = ground (arith, f)

-- A cancellation writes a copy: one of the stuck candidate is spent too.
cancel_candidate-IsStuck :
    (now scope token id : Text) (d : Candidate) (s : Store)
    → (d.candidate_id ≡ id → is_spent scope token d ≡ true)
    → IsStuck scope token id s
    → IsStuck scope token id (cancel_candidate now d s)
unfolding cancelled_candidate
cancel_candidate-IsStuck now scope token id d s read (c, h, f) =
    elim (cancel_candidate-written now d s) [
      | inl e ↦ (c, rw e h, f)
      | inr (unfinal, e) ↦ elim (Bool-cases (d.candidate_id == id)) [
        | inl own ↦ (
          cancelled_candidate now d,
          rw e (
              lookup_by-set_by candidate_key id (cancelled_candidate now d) s.candidates
              ∙ rw own refl),
          cancelled-is_spent now scope token d (read ((==_iff d.candidate_id id).0 own)),
        )
        | inr apart ↦ (
          c,
          rw e (
              lookup_by-set_by candidate_key id (cancelled_candidate now d) s.candidates
              ∙ rw apart h),
          f,
        )
      ]
    ]

roll_back_candidate-IsStuck :
    (rolled scope token id : Text) (t u : Store)
    → IsStuck scope token id t
    → IsStuck scope token id u
    → IsStuck scope token id (roll_back_candidate rolled (get_candidate rolled t) u)
roll_back_candidate-IsStuck rolled scope token id t u (c, h, f) (d, k, g) =
    elim (roll_back_candidate-found rolled id c d t u h k) [ inl e ↦ (c, e, f) | inr e ↦ (d, e, g) ]

copy-is_spent :
    (s : Store) (read_id scope token id : Text) (d : Candidate)
    → get_candidate read_id s ≡ some d
    → IsStuck scope token id s
    → d.candidate_id ≡ id
    → is_spent scope token d ≡ true
copy-is_spent s read_id scope token id d read (c, h, f) own =
    subst (λ (y : Candidate). is_spent scope token y ≡ true)
      (sym (same_copy read_id id s d c read h own)) f

spent_claim :
    (dates : Dates) (scope token : Text) (k : CompletionClaim) (c : Candidate) (s : Store)
    → get_candidate k.candidate_id s ≡ some c
    → is_spent scope token c ≡ true
    → claim_completion dates k s ≡ (none, s)
unfolding claim_completion
spent_claim dates scope token k c s found spent =
    let refused : is_claim_refused dates k c ≡ true = ground (arith, spent) in
    rw (claim_completion, found, refused) refl

module _ {dates : Dates} {runtime : RecoveryRuntime} where
  -- Whether no operation uses the token to end a completion.
  abbrev pub leaves : {s s' : Store} → Text → Steps dates runtime s s' → Bool
  leaves token here = true
  leaves token (next steps step) = leaves token steps && is_other (token_of step) token
  leaves token (deletes deleted owner steps e) = leaves token steps
  leaves token (cancels now id c before read after e) = leaves token before && leaves token after
  leaves token (rolls_back id before after e) = leaves token before && leaves token after

  Steps-IsStuck :
      {s s' : Store} (scope token id : Text) (steps : Steps dates runtime s s')
      → spares scope steps ≡ true
      → leaves token steps ≡ true
      → AllSealed s
      → IsStuck scope token id s
      → IsStuck scope token id s'
  Steps-IsStuck scope token id here spared left v stuck = stuck
  Steps-IsStuck {s'} scope token id (next {t} steps step) spared left v stuck =
      Effect-IsStuck (token_of step) t s' scope token id (Step-Effect step)
        (Steps-AllSealed steps v) (ground (arith, left))
        (Steps-IsStuck scope token id steps spared (ground (arith, left)) v stuck)
  Steps-IsStuck scope token id (deletes {t} deleted owner steps e) spared left v stuck =
      let (c, h, f) = Steps-IsStuck scope token id steps (ground (arith, spared)) left v stuck in
      (
        c,
        subst (λ (x : Store). get_candidate id x ≡ some c) (sym e)
            (delete_scope-keeps deleted owner id c t h (ground (arith, spared, f))),
        f,
      )
  Steps-IsStuck scope token id (cancels {t} {u} now read_id d before read after e) spared left v
        stuck =
      let then =
        Steps-IsStuck scope token id before (ground (arith, spared)) (ground (arith, left)) v
          stuck in
      let later =
        Steps-IsStuck scope token id after (ground (arith, spared)) (ground (arith, left))
          (Steps-AllSealed before v) then in
      subst (IsStuck scope token id) (sym e) (
        cancel_candidate-IsStuck now scope token id d u
          (copy-is_spent t read_id scope token id d read then) later)
  Steps-IsStuck scope token id (rolls_back {t} {u} rolled before after e) spared left v stuck =
      let then =
        Steps-IsStuck scope token id before (ground (arith, spared)) (ground (arith, left)) v
          stuck in
      let later =
        Steps-IsStuck scope token id after (ground (arith, spared)) (ground (arith, left))
          (Steps-AllSealed before v) then in
      subst (IsStuck scope token id) (sym e)
        (roll_back_candidate-IsStuck rolled scope token id t u then later)

  -- A candidate in a store of sealed candidates, whose completion was claimed for the last time:
  -- after operations that begin from then on, in any order, do not use the token of that claim, do
  -- not delete its scope, and submit only new ids, it still waits for its completion or is
  -- cancelled, and no claim of its completion is granted.
  pub claim_completion-stuck :
      {s s' : Store} (token : Text) (c : Candidate) (k : CompletionClaim)
      (steps : Steps dates runtime s s')
      → spares c.leaderboard_scope_id steps ≡ true
      → leaves token steps ≡ true
      → AllSealed s
      → get_candidate k.candidate_id s ≡ some c
      → is_pending_completion c.status ≡ true
      → c.completion_max_attempts ≤ c.completion_attempt_count
      → is_token c.active_completion_claim_token token ≡ true
      → (x : Candidate) × (get_candidate k.candidate_id s' ≡ some x)
        × ((is_pending_completion x.status || is_cancelled x.status) ≡ true)
        × (claim_completion dates k s' ≡ (none, s'))
  claim_completion-stuck {s} {s'} token c k steps spared left v found waits no_more held =
      let spent : is_spent c.leaderboard_scope_id token c ≡ true = ground arith in
      let (x, h, f) =
        Steps-IsStuck c.leaderboard_scope_id token k.candidate_id steps spared left v
          (c, found, spent) in
      (x, h, ground (arith, f), spent_claim dates c.leaderboard_scope_id token k x s' h f)
