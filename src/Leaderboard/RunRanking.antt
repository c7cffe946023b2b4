-- ===== src/Leaderboard/RunRanking.antt =====
-- What `rankSearchRun` of modules/leaderboard/application/service.ts answers.
use mathlib.Core.List.{Perm}
use cryptox.Base.{
  ℕ, ◌+◌, ltb_ℤ, leb_ℤ, leb, ◌||◌, ◌&&◌, pos, subst, [], ◌∷◌, sort_by-perm, some, none, ℤ, keep-All,
  ◌≡◌, refl, arith, Bool, true, false, Option, List, ok, Text, keep, is_blank, All, sort_by,
  IsSorted, sort_by-IsSorted, sort_by-All, Ensures, returned, thrown, Ensures-eq, if-Ensures,
}
use cryptox.Leaderboard.Service.{Experiment}
use cryptox.Leaderboard.Queries.{
  SearchRunRankingEntry, score_or_zero, is_ranked, scores_before, number_experiments,
  is_unknown_run, rank_search_run,
}

scores_before_total : (a b : Experiment) → scores_before a b ≡ false → scores_before b a ≡ true
unfolding scores_before
scores_before_total a b h = ground arith

scores_before_trans :
    (a b c : Experiment)
    → scores_before a b ≡ true
    → scores_before b c ≡ true
    → scores_before a c ≡ true
unfolding scores_before
scores_before_trans a b c h k = ground arith

-- Marked as eligible, with a finite score.
abbrev pub is_eligible : Experiment → Bool
is_eligible x = elim x.overall_score [ none ↦ false | some score ↦ x.rank_eligible ]

abbrev value : Option ℤ → ℤ
value none = pos 0
value (some score) = score

-- A higher score is ahead, and of equal ones the lower id.
abbrev pub is_ahead : Experiment → Experiment → Bool
is_ahead a b =
    ltb_ℤ (value b.overall_score) (value a.overall_score)
    || (leb_ℤ (value b.overall_score) (value a.overall_score) && leb a.id b.id)

is_ranked-is_eligible : (x : Experiment) → is_ranked x ≡ is_eligible x
unfolding is_ranked
is_ranked-is_eligible x = ground arith

scores_before-is_ahead : (a b : Experiment) → scores_before a b ≡ is_ahead a b
unfolding scores_before
scores_before-is_ahead a b = ground arith

-- The row of each experiment of the run, with ranks from `n`.
abbrev pub AreRows : Text → ℕ → List Experiment → List SearchRunRankingEntry → Type 0
AreRows run_id n [] [] = Unit
AreRows run_id n [] (r ∷ rows) = false ≡ true
AreRows run_id n (x ∷ xs) [] = false ≡ true
AreRows run_id n (x ∷ xs) (r ∷ rows) =
    ((r.rank ≡ n)
      × (r.search_run_id ≡ run_id)
      × (r.leaderboard_scope_id ≡ x.leaderboard_scope_id)
      × (r.candidate_id ≡ x.candidate_id)
      × (r.experiment_result_id ≡ x.id)
      × (r.score_formula_id ≡ x.score_formula_id)
      × (x.overall_score ≡ some r.score)
      × AreRows run_id (n + 1) xs rows)

scored : (x : Experiment) → is_ranked x ≡ true → x.overall_score ≡ some (score_or_zero x)
unfolding is_ranked
scored x h = ground arith

number_experiments-AreRows :
    (run_id : Text) (n : ℕ) (xs : List Experiment)
    → All (λ (x : Experiment). is_ranked x ≡ true) xs
    → AreRows run_id n xs (number_experiments run_id n xs)
unfolding number_experiments
number_experiments-AreRows run_id n [] v = tt
number_experiments-AreRows run_id n (x ∷ xs) (h, v) =
    (refl, refl, refl, refl, refl, refl, scored x h, number_experiments-AreRows run_id (n + 1) xs v)

-- The rows of the eligible experiments, best first, with ranks from 1.
pub record IsRanking (run_id : Text) (experiments : List Experiment)
    (rows : List SearchRunRankingEntry) : Type 0 where
  -- The same experiments as the eligible ones, each as often.
  pub ranked : List Experiment
  pub complete : Perm ranked (keep is_eligible experiments)
  pub sorted : IsSorted is_ahead ranked
  pub numbered : AreRows run_id 1 ranked rows

sort_by-IsRanking :
    (run_id : Text) (experiments : List Experiment)
    → IsRanking run_id experiments
        (number_experiments run_id 1 (sort_by scores_before (keep is_ranked experiments)))
sort_by-IsRanking run_id experiments =
    let found = keep is_ranked experiments in
    record {
      ranked = sort_by scores_before found;
      complete =
          subst (λ (t : Experiment → Bool). Perm (sort_by scores_before found) (keep t experiments))
            (λ i x. is_ranked-is_eligible x i) (sort_by-perm scores_before found);
      sorted =
          subst (λ (le : Experiment → Experiment → Bool). IsSorted le (sort_by scores_before found))
            (λ i a b. scores_before-is_ahead a b i)
            (sort_by-IsSorted scores_before scores_before_total scores_before_trans found);
      numbered = number_experiments-AreRows run_id 1 (sort_by scores_before found) (
          sort_by-All scores_before (λ x. is_ranked x ≡ true) found
            (keep-All is_ranked experiments));
    }

-- What `rankSearchRun` answers is one row for every eligible experiment with a finite score and for
-- no other, the highest score first and of equal ones the lowest id, with ranks from 1.
pub rank_search_run-IsRanking :
    (reader : Option (Text → Text → Bool)) (user_id run_id : Text) (experiments : List Experiment)
    (rows : List SearchRunRankingEntry)
    → rank_search_run reader user_id run_id experiments ≡ ok rows
    → IsRanking run_id experiments rows
unfolding rank_search_run
rank_search_run-IsRanking reader user_id run_id experiments rows h =
    Ensures-eq {P = IsRanking run_id experiments} ranks h
  where
    ranks :
        Ensures (IsRanking run_id experiments) (rank_search_run reader user_id run_id experiments)
    ranks =
        if-Ensures (is_blank user_id) _ _ (λ blank. thrown)
          (λ named.
            if-Ensures (is_unknown_run reader user_id run_id) _ _ (λ unknown. thrown)
              (λ known. returned (sort_by-IsRanking run_id experiments)))
