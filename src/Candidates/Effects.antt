-- ===== src/Candidates/Effects.antt =====
-- What the operations of the store of candidates do to its candidates, but for deletions,
-- cancellations and their rollbacks: each is one move of one candidate, in an invariant on fences,
-- claims and completion attempts.
use cryptox.Base.{
  ◌≤◌, ◌==◌, leb, ◌≡◌, sym, subst, Bool, true, false, not, ◌&&◌, ◌||◌, Option, none, some, Text,
  set_by, lookup_by-key,
}
use cryptox.Candidates.Records.{
  CandidateStatus, completed, failed, Candidate, Store, candidate_key, get_candidate,
  is_pending_completion, is_backtesting, is_cancelled,
}

abbrev pub has_text : Option Text → Bool
has_text none = false
has_text (some t) = true

-- COMPLETED and FAILED.
abbrev pub is_final : CandidateStatus → Bool
is_final completed = true
is_final failed = true
is_final status = false

-- A fence is held only while a worker runs, or ran when the candidate was cancelled; a claim only
-- while a completion is pending, or was when the candidate was cancelled; never both. No more
-- completions were attempted than may be.
abbrev pub IsSealed : Candidate → Type 0
IsSealed c =
    (((not (has_text c.active_fence_token)
          || ((is_backtesting c.status || is_cancelled c.status)
              && not (has_text c.active_completion_claim_token)))
        ≡ true)
      × ((not (has_text c.active_completion_claim_token)
            || is_pending_completion c.status
            || is_cancelled c.status)
          ≡ true)
      × (c.completion_attempt_count ≤ c.completion_max_attempts))

-- A sealed candidate that moves is not final before, and sealed after.
abbrev pub Moves : Candidate → Candidate → Type 0
Moves c x = IsSealed c → (is_final c.status ≡ false) × IsSealed x

-- No completion is claimed, or under the token.
abbrev pub holds_only : Text → Option Text → Bool
holds_only token none = true
holds_only token (some t) = t == token

-- A candidate of the scope that waits for its completion, or was cancelled then, with no attempt
-- left, and claimed under no other token.
abbrev pub is_spent : Text → Text → Candidate → Bool
is_spent scope token c =
    (is_pending_completion c.status || is_cancelled c.status)
    && leb c.completion_max_attempts c.completion_attempt_count
    && holds_only token c.active_completion_claim_token
    && c.leaderboard_scope_id == scope

-- An operation that uses no token, or another one.
abbrev pub is_other : Option Text → Text → Bool
is_other none token = true
is_other (some u) token = not (u == token)

-- A sealed candidate without attempts left stays so where its token is not used.
abbrev pub Stays : Option Text → Candidate → Candidate → Type 0
Stays used c x =
    (scope token : Text)
    → IsSealed c
    → is_spent scope token c ≡ true
    → is_other used token ≡ true
    → is_spent scope token x ≡ true

-- The effect of an operation that uses the token of a claim of a completion, or none.
pub data Effect (used : Option Text) (s s' : Store) : Type 0 where
  same : s'.candidates ≡ s.candidates → Effect used s s'
  moved :
      (c x : Candidate)
      → get_candidate c.candidate_id s ≡ some c
      → x.candidate_id ≡ c.candidate_id
      → Moves c x
      → Stays used c x
      → s'.candidates ≡ set_by candidate_key x s.candidates
      → Effect used s s'
  added :
      (x : Candidate)
      → get_candidate x.candidate_id s ≡ none
      → IsSealed x
      → s'.candidates ≡ set_by candidate_key x s.candidates
      → Effect used s s'

-- A candidate found by an id is found by its own.
pub found_by_own :
    (id : Text) (s : Store) (c : Candidate)
    → get_candidate id s ≡ some c
    → get_candidate c.candidate_id s ≡ some c
found_by_own id s c e =
    subst (λ (k : Text). get_candidate k s ≡ some c)
      (sym (lookup_by-key candidate_key id s.candidates c e)) e
