-- ===== src/Leaderboard/Store.antt =====
-- The in-memory repositories of modules/leaderboard/application/service.ts
-- (`createInMemoryLeaderboardDependencies`) and the caches of the module, as one state.
use cryptox.Base.{
  lookup_by, set_by, ℕ, ◌+◌, ◌==◌, Bool, true, false, ◌&&◌, if◌then◌else◌, Option, none, some, List,
  map, ℤ, Text, keep, take,
}
use cryptox.Leaderboard.Ranking.{Entry, rank_entries}

pub record ScoreFormula : Type 0 where
  pub id : Text
  pub version : ℕ
  pub name : Text
  pub risk_score_method : Text
  pub created_at : Text

pub record DatasetSnapshot : Type 0 where
  pub id : Text
  pub pair : Text
  pub candle_count : ℤ
  pub sha256 : List ℕ

-- Numbers are `none` where they are not finite.
pub record Command : Type 0 where
  pub name : Text
  pub dataset_snapshot : DatasetSnapshot
  pub worker_runtime_version : Text
  pub worker_runtime_sha256 : List ℕ
  pub evaluation_runtime_version : Text
  pub evaluation_runtime_sha256 : List ℕ
  pub initial_capital : Option ℤ
  pub fee_rate_percent : Option ℤ
  pub slippage_bps : Option ℤ
  pub score_formula_id : Text

pub record Scope : Type 0 where
  pub id : Text
  pub user_id : Text
  pub version : ℕ
  pub terms : Command
  pub created_at : Text

pub record Row : Type 0 where
  pub entry : Entry
  pub active : Bool

pub record Store : Type 0 where
  pub scopes : List Scope
  pub formulas : List ScoreFormula
  pub rows : List Row
  pub sequence : ℕ
  pub scope_cache : List Scope
  pub formula_cache : List ScoreFormula

abbrev pub row_key : Row → Text
row_key r = r.entry.experiment_result_id

unfoldable pub get_scope : Text → Text → Store → Option Scope
unfolding lookup_by
get_scope user_id id s = elim (lookup_by (λ (c : Scope). c.id) id s.scopes) [
  | none ↦ none
  | some scope ↦ if scope.user_id == user_id then some scope else none
]

unfoldable pub get_formula : Text → Store → Option ScoreFormula
get_formula id s = lookup_by (λ (f : ScoreFormula). f.id) id s.formulas

-- `record.active && record.entry.leaderboardScopeId === scopeId`
unfoldable pub is_active_in : Text → Row → Bool
is_active_in scope_id r = r.active && r.entry.leaderboard_scope_id == scope_id

unfoldable pub active_entries : Text → Store → List Entry
active_entries scope_id s = map (λ (r : Row). r.entry) (keep (is_active_in scope_id) s.rows)

unfoldable pub get_active_top_k : (ℕ → Text) → Text → ℕ → Store → List Entry
get_active_top_k id_text scope_id limit s =
    take limit (rank_entries id_text (active_entries scope_id s))

unfoldable pub get_by_experiment_result_id : Text → Store → Option Entry
get_by_experiment_result_id id s = elim (lookup_by row_key id s.rows) [
  | none ↦ none
  | some r ↦ some r.entry
]

unfoldable pub insert_entry : Text → Text → Text → ℤ → Text → Store → Entry × Store
insert_entry experiment_result_id scope_id formula_id score added_at s =
    let created : Entry = record {
      id = s.sequence + 1;
      rank = 0;
      experiment_result_id = experiment_result_id;
      leaderboard_scope_id = scope_id;
      score_formula_id = formula_id;
      score = score;
      added_at = added_at;
    } in
    (
      created,
      record s {
        sequence = s.sequence + 1;
        rows = set_by row_key (record { entry = created; active = true }) s.rows;
      },
    )

unfoldable pub retire : ℕ → Row → Row
retire entry_id r = if r.entry.id == entry_id then record r { active = false } else r

unfoldable pub deactivate : ℕ → Store → Store
unfolding retire
deactivate entry_id s = record s { rows = map (retire entry_id) s.rows }
