-- ===== src/Leaderboard/Service.antt =====
-- `createLeaderboardModule` of modules/leaderboard/application/service.ts over the in-memory
-- repositories. An operation returns the state with its result, since the caches that it filled
-- stay filled when it throws.
use cryptox.Base.{
  lookup_by, set_by, ℕ, ◌==◌, Bool, true, false, not, ◌&&◌, ◌||◌, if◌then◌else◌, Option, none, some,
  List, ℤ, leb_ℤ, Result, ok, err, Text, is_blank, is_empty, length, get_last, find_first,
}
use cryptox.Leaderboard.Ranking.{Entry, rank_entries}
use cryptox.Leaderboard.Store.{
  ScoreFormula, Scope, Store, get_scope, get_formula, get_active_top_k, get_by_experiment_result_id,
  insert_entry, deactivate,
}

pub data Error : Type 0 where
  invalid_auth_context scope_not_found score_formula_not_found invalid_score
        experiment_owner_required invalid_scope search_run_not_found :
      Error

pub record Experiment : Type 0 where
  pub id : Text
  pub candidate_id : Text
  pub owner_user_id : Option Text
  pub search_run_id : Option Text
  pub leaderboard_scope_id : Text
  pub score_formula_id : Text
  pub overall_score : Option ℤ
  pub rank_eligible : Bool

pub record Submission : Type 0 where
  pub admitted : Bool
  pub entry : Option Entry
  pub evicted_experiment_result_id : Option Text

abbrev pub top_k_limit : ℕ
top_k_limit = 10

abbrev pub not_admitted : Submission
not_admitted = record { admitted = false; entry = none; evicted_experiment_result_id = none }

unfoldable pub cache_scope : Scope → Store → Store
cache_scope scope s = record s { scope_cache = set_by (λ (c : Scope). c.id) scope s.scope_cache }

unfoldable pub cache_formula : ScoreFormula → Store → Store
cache_formula formula s = record s {
  formula_cache = set_by (λ (f : ScoreFormula). f.id) formula s.formula_cache;
}

unfoldable pub cache_scope_and_formula : Scope → Store → Store × Result Error ScoreFormula
unfolding cache_scope cache_formula
cache_scope_and_formula scope s =
    let s' = cache_scope scope s in
    elim (lookup_by (λ (f : ScoreFormula). f.id) scope.terms.score_formula_id s'.formula_cache) [
      | some cached ↦ (s', ok cached)
      | none ↦ elim (get_formula scope.terms.score_formula_id s') [
        | none ↦ (s', err score_formula_not_found)
        | some formula ↦ (cache_formula formula s', ok formula)
      ]
    ]

-- The scope of a user, with its formula cached.
unfoldable pub open_scope : Text → Text → Store → Store × Result Error Scope
unfolding cache_scope_and_formula
open_scope user_id id s = elim (get_scope user_id id s) [
  | none ↦ (s, err scope_not_found)
  | some scope ↦
      let (s', cached) = cache_scope_and_formula scope s in
      (s', elim cached [ ok formula ↦ ok scope | err e ↦ err e ])
]

module _ (id_text : ℕ → Text) (now : Text) where
  unfoldable pub is_full : List Entry → Bool
  is_full ranked = length ranked == top_k_limit

  -- Whether the board is full and its lowest entry scores at least as much.
  unfoldable pub is_outranked : List Entry → ℤ → Bool
  unfolding is_full
  is_outranked ranked score = elim (get_last ranked) [
    | none ↦ false
    | some lowest ↦ is_full ranked && leb_ℤ score lowest.score
  ]

  unfoldable pub make_room : List Entry → Store → Store
  unfolding is_full
  make_room ranked s = elim (get_last ranked) [
    | none ↦ s
    | some lowest ↦ if is_full ranked then deactivate lowest.id s else s
  ]

  -- The end of `submit`: the new entry is inserted and looked up with its rank.
  unfoldable pub enter_board : Experiment → ℤ → List Entry → Store → Store × Submission
  unfolding insert_entry
  enter_board x score ranked s =
      let (inserted, s') =
        insert_entry x.id x.leaderboard_scope_id x.score_formula_id score now
          (make_room ranked s) in
      let board =
        rank_entries id_text (get_active_top_k id_text x.leaderboard_scope_id top_k_limit s') in
      (
        s',
        record {
          admitted = true;
          entry = elim (find_first (λ (e : Entry). e.id == inserted.id) board) [
            | none ↦ some inserted
            | some e ↦ some e
          ];
          evicted_experiment_result_id = elim (get_last ranked) [
            | none ↦ none
            | some lowest ↦ some lowest.experiment_result_id
          ];
        },
      )

  unfoldable pub compete : Experiment → ℤ → Store → Store × Submission
  compete x score s =
      let ranked =
        rank_entries id_text (get_active_top_k id_text x.leaderboard_scope_id top_k_limit s) in
      if is_outranked ranked score then (s, not_admitted) else enter_board x score ranked s

  -- An experiment that is already on a board keeps its entry there.
  unfoldable pub resubmit : Experiment → Entry → Submission
  resubmit x existing =
      if existing.leaderboard_scope_id == x.leaderboard_scope_id
      then record { admitted = true; entry = some existing; evicted_experiment_result_id = none }
      else not_admitted

  unfoldable pub submit_scored : Experiment → ℤ → Text → Store → Store × Result Error Submission
  unfolding open_scope resubmit
  submit_scored x score owner s =
      let (s', opened) = open_scope owner x.leaderboard_scope_id s in
      elim opened [
        | err e ↦ (s', err e)
        | ok scope ↦ elim (get_by_experiment_result_id x.id s') [
          | some existing ↦ (s', ok (resubmit x existing))
          | none ↦ let (s'', submission) = compete x score s' in (s'', ok submission)
        ]
      ]

  unfoldable pub submit : Experiment → Store → Store × Result Error Submission
  unfolding submit_scored
  submit x s = elim x.search_run_id [
    | none ↦ (s, ok not_admitted)
    | some run ↦
        if is_empty run || not x.rank_eligible then (s, ok not_admitted) else elim x.overall_score [
          | none ↦ (s, err invalid_score)
          | some score ↦ elim x.owner_user_id [
            | none ↦ (s, err experiment_owner_required)
            | some owner ↦
                if is_blank owner
                then (s, err experiment_owner_required)
                else submit_scored x score owner s
          ]
        ]
  ]
