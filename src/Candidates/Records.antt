-- ===== src/Candidates/Records.antt =====
-- The records of modules/backtesting/domain/contracts.ts and application/ports.ts, and the store of
-- InMemoryBacktestingRepository in modules/backtesting/application/service.ts. Fields that no
-- operation of the store looks at or changes stand together as `details`.
use cryptox.Base.{
  ℕ, ◌==◌, Bool, true, false, not, ◌&&◌, ◌||◌, Option, none, some, List, ltb_ℤ, leb_ℤ, ℤ, Text,
  Dates, lookup_by, set_by, is_empty,
}

pub data CandidateStatus : Type 0 where
  created queued backtesting retry_wait processing_result terminal_failure_pending : CandidateStatus
  completed failed cancelled : CandidateStatus

pub data FailureKind : Type 0 where
  retry_exhausted infrastructure completion_processing : FailureKind

-- The code of a failure: the message of an error, or COMPLETION_PROCESSING_FAILED.
pub data FailureCode : Type 0 where
  of_error : Text → FailureCode
  completion_processing_failed : FailureCode

pub record Candidate : Type 0 where
  pub candidate_id : Text
  pub owner_user_id : Text
  pub is_search : Bool
  pub search_run_id : Option Text
  pub iteration_number : Option ℕ
  pub leaderboard_scope_id : Text
  pub details : Text
  pub status : CandidateStatus
  pub queue_job_id : Text
  pub max_attempts : ℕ
  pub active_attempt_number : Option ℕ
  pub execution_generation : Option ℕ
  pub active_fence_token : Option Text
  pub active_lease_expires_at : Option Text
  pub completion_attempt_count : ℕ
  pub completion_max_attempts : ℕ
  pub completion_generation : Option ℕ
  pub active_completion_claim_token : Option Text
  pub active_completion_lease_expires_at : Option Text
  pub completion_next_retry_at : Option Text
  pub experiment_result_id : Option Text
  pub failure_kind : Option FailureKind
  pub failure_code : Option FailureCode
  pub last_error : Option Text
  pub created_at : Text
  pub updated_at : Text

pub data AttemptStatus : Type 0 where
  queued running retry_wait completed failed cancelled : AttemptStatus

pub data FailureCategory : Type 0 where
  retryable infrastructure cancelled_audit : FailureCategory

pub record Attempt : Type 0 where
  pub attempt_id : Text
  pub candidate_id : Text
  pub queue_job_id : Text
  pub attempt_number : ℕ
  pub worker_runtime_version : Text
  pub worker_runtime_sha256 : Text
  pub status : AttemptStatus
  pub trade_count : ℕ
  pub audit_only : Bool
  pub delivery_attempt_count : Option ℕ
  pub fence_token : Option Text
  pub lease_expires_at : Option Text
  pub failure_category : Option FailureCategory
  pub failure_code : Option Text
  pub error_message : Option Text
  pub started_at : Text
  pub completed_at : Option Text

pub data DispatchState : Type 0 where
  pending dispatched cancelled : DispatchState

pub record Dispatch : Type 0 where
  pub job_id : Text
  pub state : DispatchState
  pub dispatch_attempts : ℕ
  pub last_error : Option Text
  pub dispatched_at : Option Text
  pub created_at : Text
  pub updated_at : Text

-- A key of a submission: its owner and text, with the candidate that it led to.
pub record SubmissionKey : Type 0 where
  pub owner_user_id : Text
  pub key : Text
  pub candidate_id : Text

-- A benchmark scope. What no operation of the store looks at stands together as `details`.
pub record Scope : Type 0 where
  pub id : Text
  pub owner_user_id : Text
  pub created_at : Text
  pub details : Text

-- The key of a creation of a scope: its owner and text, with the scope.
pub record ScopeKey : Type 0 where
  pub owner_user_id : Text
  pub key : Text
  pub scope_id : Text

pub record Store : Type 0 where
  pub scopes : List Scope
  pub scope_keys : List ScopeKey
  pub candidates : List Candidate
  pub candidate_keys : List SubmissionKey
  pub attempts : List Attempt
  pub dispatches : List Dispatch

pub data Fault : Type 0 where
  fence_lost completion_fence_lost : Fault

abbrev pub candidate_key : Candidate → Text
candidate_key c = c.candidate_id

abbrev pub attempt_key : Attempt → Text
attempt_key a = a.attempt_id

abbrev pub dispatch_key : Dispatch → Text
dispatch_key d = d.job_id

abbrev pub get_candidate : Text → Store → Option Candidate
get_candidate id s = lookup_by candidate_key id s.candidates

abbrev pub put_candidate : Candidate → Store → Store
put_candidate c s = record s { candidates = set_by candidate_key c s.candidates }

abbrev pub get_attempt : Text → Store → Option Attempt
get_attempt id s = lookup_by attempt_key id s.attempts

abbrev pub put_attempt : Attempt → Store → Store
put_attempt a s = record s { attempts = set_by attempt_key a s.attempts }

abbrev pub get_dispatch : Text → Store → Option Dispatch
get_dispatch id s = lookup_by dispatch_key id s.dispatches

abbrev pub put_dispatch : Dispatch → Store → Store
put_dispatch d s = record s { dispatches = set_by dispatch_key d s.dispatches }

unfoldable pub terminal : CandidateStatus → Bool
terminal completed = true
terminal failed = true
terminal cancelled = true
terminal status = false

-- ["QUEUED", "RETRY_WAIT", "BACKTESTING"].includes
unfoldable pub is_claimable : CandidateStatus → Bool
is_claimable queued = true
is_claimable retry_wait = true
is_claimable backtesting = true
is_claimable status = false

-- ["PROCESSING_RESULT", "TERMINAL_FAILURE_PENDING"].includes
unfoldable pub is_pending_completion : CandidateStatus → Bool
is_pending_completion processing_result = true
is_pending_completion terminal_failure_pending = true
is_pending_completion status = false

abbrev pub is_backtesting : CandidateStatus → Bool
is_backtesting backtesting = true
is_backtesting status = false

abbrev pub is_cancelled : CandidateStatus → Bool
is_cancelled cancelled = true
is_cancelled status = false

abbrev pub is_processing_result : CandidateStatus → Bool
is_processing_result processing_result = true
is_processing_result status = false

abbrev pub is_terminal_failure_pending : CandidateStatus → Bool
is_terminal_failure_pending terminal_failure_pending = true
is_terminal_failure_pending status = false

abbrev pub is_running : AttemptStatus → Bool
is_running running = true
is_running status = false

abbrev pub is_dispatch_cancelled : DispatchState → Bool
is_dispatch_cancelled cancelled = true
is_dispatch_cancelled state = false

-- An optional text that is there and not empty.
abbrev pub is_given : Option Text → Bool
is_given none = false
is_given (some t) = not (is_empty t)

abbrev pub is_token : Option Text → Text → Bool
is_token none t = false
is_token (some u) t = u == t

abbrev pub same_number : Option ℕ → Option ℕ → Bool
same_number none none = true
same_number none (some n) = false
same_number (some m) none = false
same_number (some m) (some n) = m == n

abbrev pub or_zero : Option ℕ → ℕ
or_zero none = 0
or_zero (some n) = n

module _ (dates : Dates) where
  abbrev pub later : Option ℤ → Option ℤ → Bool
  later none b = false
  later (some a) none = false
  later (some a) (some b) = ltb_ℤ b a

  abbrev pub no_later : Option ℤ → Option ℤ → Bool
  no_later none b = false
  no_later (some a) none = false
  no_later (some a) (some b) = leb_ℤ a b

  -- `value && Date.parse(value) > Date.parse(now)`
  abbrev pub is_later : Option Text → Text → Bool
  is_later none now = false
  is_later (some t) now = not (is_empty t) && later (dates.parse t) (dates.parse now)

  -- `!value || Date.parse(value) <= Date.parse(now)`
  abbrev pub has_passed : Option Text → Text → Bool
  has_passed none now = true
  has_passed (some t) now = is_empty t || no_later (dates.parse t) (dates.parse now)
