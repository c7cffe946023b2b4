-- ===== src/Candidates/Samples.antt =====
-- A candidate with its dispatch, scope and store, and claims of it, for the tests.
use cryptox.Base.{◌+◌, false, none, some, [], ◌∷◌, Dates, pos, nat_abs}
use cryptox.Candidates.Records.{queued, Candidate, Dispatch, pending, Scope, Store}
use cryptox.Candidates.Worker.{Claim}
use cryptox.Candidates.Recovery.{RecoveryRuntime}
use cryptox.Candidates.Completion.{CompletionClaim}

abbrev pub dates : Dates
dates = record { parse = λ t. some (pos t); to_iso = nat_abs }

abbrev pub runtime : RecoveryRuntime
runtime = record { attempt_id = λ t. t + 1000; version = 2; sha256 = 3 }

abbrev pub candidate : Candidate
candidate = record {
  candidate_id = 10;
  owner_user_id = 5;
  is_search = false;
  search_run_id = none;
  iteration_number = none;
  leaderboard_scope_id = 6;
  details = 7;
  status = queued;
  queue_job_id = 10;
  max_attempts = 3;
  active_attempt_number = none;
  execution_generation = some 0;
  active_fence_token = none;
  active_lease_expires_at = none;
  completion_attempt_count = 0;
  completion_max_attempts = 5;
  completion_generation = some 0;
  active_completion_claim_token = none;
  active_completion_lease_expires_at = none;
  completion_next_retry_at = none;
  experiment_result_id = none;
  failure_kind = none;
  failure_code = none;
  last_error = none;
  created_at = 100;
  updated_at = 100;
}

abbrev pub dispatch : Dispatch
dispatch = record {
  job_id = 10;
  state = pending;
  dispatch_attempts = 0;
  last_error = none;
  dispatched_at = none;
  created_at = 100;
  updated_at = 100;
}

abbrev pub empty : Store
empty = record {
  scopes = [];
  scope_keys = [];
  candidates = [];
  candidate_keys = [];
  attempts = [];
  dispatches = [];
}

abbrev pub store : Store
store = record empty { candidates = candidate ∷ []; dispatches = dispatch ∷ [] }

abbrev pub delivery : Claim
delivery = record {
  candidate_id = 10;
  queue_job_id = 10;
  delivery_attempt = 1;
  attempt_id = 11;
  fence_token = 50;
  now = 110;
  lease_expires_at = 170;
  worker_runtime_version = 2;
  worker_runtime_sha256 = 3;
}

abbrev pub redelivery : Claim
redelivery = record delivery { attempt_id = 12; delivery_attempt = 2; fence_token = 51; now = 150 }

abbrev pub completion : CompletionClaim
completion = record { candidate_id = 10; claim_token = 60; now = 130; lease_expires_at = 190 }

abbrev pub scope : Scope
scope = record { id = 6; owner_user_id = 5; created_at = 90; details = 8 }

abbrev pub other_scope : Scope
other_scope = record scope { id = 7 }
