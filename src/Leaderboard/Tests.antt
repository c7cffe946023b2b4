-- ===== src/Leaderboard/Tests.antt =====
-- The theorems on modules/leaderboard/application/service.ts at boards with ten entries and with one.
use cryptox.Base.{
  lookup_by, set_by, ℕ, ◌+◌, ◌*◌, ◌<◌, ◌≤◌, ◌≡◌, refl, arith, true, false, none, some, List, [],
  ◌∷◌, ◌++◌, length, pos, Text, ok, IsSorted, get_last, sort_by, insert_by,
}
use cryptox.Leaderboard.Ranking.{Entry, ranks_before, rank_entries, number_from}
use cryptox.Leaderboard.Store.{
  Command, Row, Store, is_active_in, get_scope, get_formula, get_by_experiment_result_id,
  get_active_top_k, active_entries, insert_entry, retire, deactivate,
}
use cryptox.Leaderboard.Boards.{board}
use cryptox.Leaderboard.Service.{
  Experiment, compete, submit, submit_scored, open_scope, cache_scope, cache_formula,
  cache_scope_and_formula, resubmit, is_full, is_outranked, make_room, enter_board,
}
use cryptox.Leaderboard.Queries.{
  top_k, SearchRunRankingEntry, rank_search_run, number_experiments, scores_before, is_ranked,
  is_unknown_run,
}
use cryptox.Leaderboard.RunRanking.{IsRanking, rank_search_run-IsRanking}
use cryptox.Leaderboard.Admission.{Inv, Effect, new_entry}
use cryptox.Leaderboard.Submissions.{submit-Effect}
use cryptox.Leaderboard.Answers.{admits, top_k-board, compete-names_evicted}

abbrev terms : Command
terms = record {
  name = 9;
  dataset_snapshot = record { id = 8; pair = 7; candle_count = pos 500; sha256 = [] };
  worker_runtime_version = 4;
  worker_runtime_sha256 = [];
  evaluation_runtime_version = 4;
  evaluation_runtime_sha256 = [];
  initial_capital = some (pos 1000);
  fee_rate_percent = some (pos 1);
  slippage_bps = some (pos 5);
  score_formula_id = 3;
}

-- An entry of scope 2 with a score ten times its id.
abbrev row : ℕ → Row
row n = record {
  entry = record {
    id = n;
    rank = 0;
    experiment_result_id = 100 + n;
    leaderboard_scope_id = 2;
    score_formula_id = 3;
    score = pos (10 * n);
    added_at = 50 + n;
  };
  active = true;
}

abbrev store : List Row → ℕ → Store
store rows sequence = record {
  scopes = record { id = 2; user_id = 5; version = 1; terms = terms; created_at = 20 } ∷ [];
  formulas =
      record { id = 3; version = 1; name = 30; risk_score_method = 31; created_at = 20 } ∷ [];
  rows = rows;
  sequence = sequence;
  scope_cache = [];
  formula_cache = [];
}

abbrev full : Store
full =
    store (row 1 ∷ row 2 ∷ row 3 ∷ row 4 ∷ row 5 ∷ row 6 ∷ row 7 ∷ row 8 ∷ row 9 ∷ row 10 ∷ []) 10

abbrev single : Store
single = store (row 1 ∷ []) 1

abbrev experiment : ℕ → Experiment
experiment score = record {
  id = 200;
  candidate_id = 201;
  owner_user_id = some 5;
  search_run_id = some 202;
  leaderboard_scope_id = 2;
  score_formula_id = 3;
  overall_score = some (pos score);
  rank_eligible = true;
}

abbrev id_text : ℕ → Text
id_text n = n

length-board : (scope : Text) (rows : List Row) → length (board scope rows) ≤ length rows
length-board scope [] = omega arith
length-board scope (r ∷ rs) = ground (arith, length-board scope rs)

full-Inv : Inv full
full-Inv = record {
  ids = (
    omega arith,
    (
      omega arith,
      (
        omega arith,
        (
          omega arith,
          (
            omega arith,
            (omega arith, (omega arith, (omega arith, (omega arith, (omega arith, omega arith))))),
          ),
        ),
      ),
    ),
  );
  bounded = λ scope. length-board scope full.rows;
}

single-Inv : Inv single
single-Inv = record {
  ids = (omega arith, omega arith);
  bounded = λ scope. ground (arith, length-board scope single.rows);
}

-- All that a submission computes with.
abbrev running : Unit {0}
unfolding submit submit_scored open_scope cache_scope_and_formula cache_scope cache_formula resubmit
    compete is_full is_outranked make_room enter_board get_scope get_formula
    get_by_experiment_result_id get_active_top_k active_entries is_active_in lookup_by insert_entry
    retire deactivate set_by rank_entries number_from ranks_before sort_by insert_by top_k
running = tt

-- The lowest entry of the full board makes room.
replaces : length (board 2 (submit id_text 99 (experiment 25) full).0.rows) ≡ 10
unfolding running
replaces = refl

admitted : admits (submit id_text 99 (experiment 25) full).1 ≡ true
unfolding running
admitted = refl

submit-Effect_example :
    Effect id_text (experiment 25) full (submit id_text 99 (experiment 25) full).0
submit-Effect_example = submit-Effect id_text 99 (experiment 25) full full-Inv

outranked : admits (submit id_text 99 (experiment 10) full).1 ≡ false
unfolding running
outranked = refl

abbrev shown : List Entry
shown = record (row 1).entry { rank = 1 } ∷ []

answers : (top_k id_text 5 2 single).1 ≡ ok shown
unfolding running
answers = refl

top_k-board_example :
    (shown ≡ rank_entries id_text (board 2 single.rows))
    × IsSorted (ranks_before id_text) shown
    × length shown ≡ length (board 2 single.rows)
    × length shown ≤ 10
top_k-board_example = top_k-board id_text 5 2 single shown single-Inv answers

fresh : get_by_experiment_result_id 200 single ≡ none
unfolding running
fresh = refl

room : length (board 2 single.rows) < 10
room = ground (arith, length-board 2 single.rows)

lowest :
    get_last (rank_entries id_text (board 2 single.rows)) ≡ some (record (row 1).entry { rank = 1 })
unfolding running
lowest = refl

compete-names_evicted_example :
    ((compete id_text 99 (experiment 25) (pos 25) single).1.evicted_experiment_result_id ≡ some 101)
    × (board 2 (compete id_text 99 (experiment 25) (pos 25) single).0.rows
        ≡ board 2 single.rows ++ new_entry id_text (experiment 25) (pos 25) refl 99 1 ∷ [])
compete-names_evicted_example =
    compete-names_evicted id_text 99 (experiment 25) (pos 25) single
      (record (row 1).entry { rank = 1 }) refl single-Inv fresh room lowest

-- Two eligible experiments and one that is not.
abbrev finished : List Experiment
finished = experiment 20 ∷ record (experiment 90) { rank_eligible = false } ∷ experiment 30 ∷ []

abbrev run_row : ℕ → ℕ → SearchRunRankingEntry
run_row n score = record {
  rank = n;
  search_run_id = 202;
  leaderboard_scope_id = 2;
  candidate_id = 201;
  experiment_result_id = 200;
  score_formula_id = 3;
  score = pos score;
}

ranked_run : rank_search_run none 5 202 finished ≡ ok (run_row 1 30 ∷ run_row 2 20 ∷ [])
unfolding rank_search_run number_experiments scores_before is_ranked is_unknown_run sort_by
    insert_by
ranked_run = refl

rank_search_run-IsRanking_example : IsRanking 202 finished (run_row 1 30 ∷ run_row 2 20 ∷ [])
rank_search_run-IsRanking_example =
    rank_search_run-IsRanking none 5 202 finished (run_row 1 30 ∷ run_row 2 20 ∷ []) ranked_run
