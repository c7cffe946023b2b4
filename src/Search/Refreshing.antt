-- ===== src/Search/Refreshing.antt =====
-- What `refresh` and the end of a run change of it (modules/search/application/service.ts).
use cryptox.Base.{
  ℕ, ◌+◌, ◌≡◌, inl, inr, refl, sym, ap, ◌∙◌, ◌==◌, Bool, true, false, if◌then◌else◌, Option, none,
  some, Result, ok, err, Text, Dates, Result-cases, subst, Ensures, returned, thrown, Ensures-eq, ℤ,
}
use cryptox.Leaderboard.Queries.{SearchRunRankingEntry}
use cryptox.Search.Types.{Error, SearchRun, Summary, StopReason, completed}
use cryptox.Search.Ports.{Ports}
use cryptox.Search.Loop.{
  note_best, refresh, finish_if, settle_run, stop_reason, in_flight, is_better, head,
}
use cryptox.Search.Accounting.{load}

-- The fields that only `submit` and the start of a run set.
pub record Kept (run run' : SearchRun) : Type 0 where
  pub id : run'.search_run_id ≡ run.search_run_id
  pub owner : run'.owner_user_id ≡ run.owner_user_id
  pub condition : run'.stop_condition ≡ run.stop_condition
  pub space : run'.search_space ≡ run.search_space
  pub generator : run'.generator_type ≡ run.generator_type
  pub limit : run'.max_in_flight ≡ run.max_in_flight
  pub iteration : run'.next_iteration ≡ run.next_iteration

pub Kept-refl : (run : SearchRun) → Kept run run
Kept-refl run = record {
  id = refl;
  owner = refl;
  condition = refl;
  space = refl;
  generator = refl;
  limit = refl;
  iteration = refl;
}

pub Kept-trans : (a b c : SearchRun) → Kept a b → Kept b c → Kept a c
Kept-trans a b c v u = record {
  id = u.id ∙ v.id;
  owner = u.owner ∙ v.owner;
  condition = u.condition ∙ v.condition;
  space = u.space ∙ v.space;
  generator = u.generator ∙ v.generator;
  limit = u.limit ∙ v.limit;
  iteration = u.iteration ∙ v.iteration;
}

-- The best score and the time of the last improvement.
abbrev with_best : Bool → ℤ → SearchRun → SearchRun
with_best b score run =
    if b
    then record run {
      best_score = some score;
      last_improvement_at_candidates = some run.summary.candidates_tested;
    }
    else run

-- Neither the state nor the summary changes, but the rest may.
abbrev pub Same : SearchRun → SearchRun → Type 0
Same run run' = Kept run run' × (run'.summary ≡ run.summary) × (run'.state ≡ run.state)

with_best-Same : (b : Bool) (score : ℤ) (run : SearchRun) → Same run (with_best b score run)
with_best-Same true score run = (
  record {
    id = refl;
    owner = refl;
    condition = refl;
    space = refl;
    generator = refl;
    limit = refl;
    iteration = refl;
  },
  refl,
  refl,
)
with_best-Same false score run = (Kept-refl run, refl, refl)

module _ {W : Type 0} (ports : Ports W) (dates : Dates) (clock : ℕ → Text) where
  note_best-Same : (run : SearchRun) → Same run (note_best ports dates clock run)
  unfolding note_best
  note_best-Same run = go run.current_top_entry
    where
      go :
          (top : Option SearchRunRankingEntry)
          → Same run (elim top [
            | none ↦ run
            | some top ↦ with_best (is_better top.score run.best_score) top.score run
          ])
      go none = (Kept-refl run, refl, refl)
      go (some top) = with_best-Same (is_better top.score run.best_score) top.score run

  -- After a refresh, what a run has in flight is what the backtests report.
  abbrev pub Refreshed : SearchRun → W → SearchRun → Type 0
  Refreshed run w run' =
      Kept run run'
      × (in_flight run' ≡ load ports run.owner_user_id run.search_run_id w)
      × (run'.state ≡ run.state)

  pub refresh-Ensures :
      (at : ℕ) (run : SearchRun) (w : W)
      → Ensures (Refreshed run w) (refresh ports dates clock at run w)
  unfolding refresh
  refresh-Ensures at run w =
      elim (Result-cases
        (ports.summarize_search_candidates run.owner_user_id run.search_run_id w)) [
          | inr (e, fails) ↦
              subst (Ensures (Refreshed run w)) (sym (rw (refresh, fails) refl)) (thrown {e = e})
          | inl (summary, reads) ↦
              elim (Result-cases (ports.rank_search_run run.owner_user_id run.search_run_id w)) [
                | inr (e, fails) ↦
                    subst (Ensures (Refreshed run w)) (sym (rw (refresh, reads, fails) refl))
                      (thrown {e = e})
                | inl (ranking, ranks) ↦
                    let noted : SearchRun = record run {
                      summary = summary;
                      current_top_entry = head ranking;
                      updated_at = clock at;
                    } in
                    let (v, same_summary, same_state) = note_best-Same noted in
                    let summed : Kept run noted = record {
                      id = refl;
                      owner = refl;
                      condition = refl;
                      space = refl;
                      generator = refl;
                      limit = refl;
                      iteration = refl;
                    } in
                    let reported : in_flight noted
                        ≡ load ports run.owner_user_id run.search_run_id w =
                      rw (load, reads) refl in
                    subst (Ensures (Refreshed run w)) (sym (rw (refresh, reads, ranks) refl)) (
                      returned (
                        Kept-trans run noted _ summed v,
                        ap (λ (s : Summary). s.queued_count + s.running_count) same_summary
                            ∙ reported,
                        same_state,
                      ))
              ]
        ]

  pub refresh-Refreshed :
      (at : ℕ) (run run' : SearchRun) (w : W)
      → refresh ports dates clock at run w ≡ ok run'
      → Refreshed run w run'
  refresh-Refreshed at run run' w h = Ensures-eq {P = Refreshed run w} (refresh-Ensures at run w) h

  pub finish_if-Kept :
      (met : Option StopReason) (at : ℕ) (run : SearchRun)
      → Kept run (finish_if ports dates clock met at run)
  unfolding finish_if
  finish_if-Kept none at run = Kept-refl run
  finish_if-Kept (some met) at run = go (in_flight run == 0)
    where
      go :
          (b : Bool)
          → Kept run (
              if b
              then record run {
                state = completed;
                stop_reason = some met;
                ended_at = some (clock at);
              }
              else run)
      go true = record {
        id = refl;
        owner = refl;
        condition = refl;
        space = refl;
        generator = refl;
        limit = refl;
        iteration = refl;
      }
      go false = Kept-refl run

  pub settle_run-Kept : (run : SearchRun) (w : W) → Kept run (settle_run ports dates clock run w).0
  unfolding settle_run
  settle_run-Kept run w = go (refresh ports dates clock 3 run w) (refresh-Ensures 3 run w)
    where
      go :
          (r : Result Error SearchRun)
          → Ensures (Refreshed run w) r
          → Kept run
              (elim r as (λ _. SearchRun × Result Error (Unit {0})) [
                | err e ↦ (run, err e)
                | ok run' ↦ (
                  record (finish_if ports dates clock
                      (stop_reason ports dates clock 4 run')
                      5
                      run') { updated_at = clock 6 },
                  ok tt,
                )
              ]).0
      go (err e) v = Kept-refl run
      go (ok run') v =
          let (kept, counts, same) = Ensures-eq {P = Refreshed run w} v refl in
          let ended =
            Kept-trans run run' _ kept
              (finish_if-Kept (stop_reason ports dates clock 4 run') 5 run') in
          record {
            id = ended.id;
            owner = ended.owner;
            condition = ended.condition;
            space = ended.space;
            generator = ended.generator;
            limit = ended.limit;
            iteration = ended.iteration;
          }
