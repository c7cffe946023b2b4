-- ===== src/Search/Listing.antt =====
-- `list` of modules/search/application/service.ts over the in-memory repository.
use cryptox.Base.{
  keep-All, ℕ, zero, suc, ◌≤◌, ◌≡◌, refl, arith, ◌==◌, Bool, true, if◌then◌else◌, Option, none,
  some, List, [], ◌∷◌, map, ℤ, leb_ℤ, Result, ok, err, Text, is_blank, Dates, length, length-take,
  length-map, take, keep, sort_by, All, sort_by-All, Ensures, returned, thrown, Ensures-eq,
  if-Ensures,
}
use cryptox.Search.Types.{
  GeneratorType, RunState, StopReason, Error, invalid_auth_context, SearchRun,
}
use cryptox.Search.Service.{State}

pub record RunSummary : Type 0 where
  pub search_run_id : Text
  pub state : RunState
  pub generator_type : GeneratorType
  pub leaderboard_scope_id : Text
  pub max_in_flight : ℕ
  pub next_iteration : ℕ
  pub best_score : Option ℤ
  pub stop_reason : Option StopReason
  pub created_at : Text
  pub started_at : Option Text
  pub ended_at : Option Text
  pub updated_at : Text

abbrev pub summary_of : SearchRun → RunSummary
summary_of run = record {
  search_run_id = run.search_run_id;
  state = run.state;
  generator_type = run.generator_type;
  leaderboard_scope_id = run.leaderboard_scope_id;
  max_in_flight = run.max_in_flight;
  next_iteration = run.next_iteration;
  best_score = run.best_score;
  stop_reason = run.stop_reason;
  created_at = run.created_at;
  started_at = run.started_at;
  ended_at = run.ended_at;
  updated_at = run.updated_at;
}

-- The newest first; a date that is NaN is a tie.
abbrev pub is_newer : Option ℤ → Option ℤ → Bool
is_newer none b = true
is_newer (some a) none = true
is_newer (some a) (some b) = leb_ℤ b a

abbrev pub created_before : Dates → SearchRun → SearchRun → Bool
created_before dates a b = is_newer (dates.parse a.created_at) (dates.parse b.created_at)

-- Summaries of runs of one owner, no more than a limit.
pub record IsListing (user : Text) (limit : ℕ) (rows : List RunSummary) : Type 0 where
  pub runs : List SearchRun
  pub summarized : rows ≡ map summary_of runs
  pub owned : All (λ run. (run.owner_user_id == user) ≡ true) runs
  pub limited : length rows ≤ limit

All-take : (P : SearchRun → Type 0) (n : ℕ) (xs : List SearchRun) → All P xs → All P (take n xs)
All-take P zero xs v = tt
All-take P (suc n) [] v = tt
All-take P (suc n) (x ∷ xs) (p, v) = (p, All-take P n xs v)

module _ {W : Type 0} (dates : Dates) where
  unfoldable pub list_by_owner : Text → ℕ → State W → List SearchRun
  list_by_owner owner limit s = take limit (
      sort_by (created_before dates)
        (keep (λ (run : SearchRun). run.owner_user_id == owner) s.runs))

  unfoldable pub list_runs : Text → ℕ → State W → Result Error (List RunSummary)
  unfolding list_by_owner
  list_runs user limit s =
      if is_blank user
      then err invalid_auth_context
      else ok (map summary_of (list_by_owner user limit s))

  -- What `list` answers a user is summaries of runs of that user, no more than the limit.
  pub list_runs-IsListing :
      (user : Text) (limit : ℕ) (s : State W) (rows : List RunSummary)
      → list_runs user limit s ≡ ok rows
      → IsListing user limit rows
  unfolding list_runs list_by_owner
  list_runs-IsListing user limit s rows h = Ensures-eq {P = IsListing user limit} lists h
    where
      lists : Ensures (IsListing user limit) (list_runs user limit s)
      lists =
          let mine = λ (run : SearchRun). run.owner_user_id == user in
          let sorted = sort_by (created_before dates) (keep mine s.runs) in
          if-Ensures (is_blank user) _ _ (λ blank. thrown)
            (λ named. returned (record {
              runs = take limit sorted;
              summarized = refl;
              owned =
                  All-take (λ run. mine run ≡ true) limit sorted
                    (sort_by-All (created_before dates) (λ run. mine run ≡ true) (keep mine s.runs)
                      (keep-All mine s.runs));
              limited =
                  omega
                    (arith, length-map (take limit sorted) summary_of, length-take limit sorted);
            }))
