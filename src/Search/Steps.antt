-- ===== src/Search/Steps.antt =====
-- The operations of modules/search/application/service.ts as steps between the states of the module,
-- in any order and with any changes of the other modules between them.
use cryptox.Base.{
  ℕ, ◌+◌, ◌≡◌, ◌⊎◌, inl, inr, refl, sym, arith, not, ◌||◌, Bool, true, false, if◌then◌else◌, List,
  [], ◌∷◌, Option, none, some, Result, ok, Text, Dates, Bool-cases, Option-cases, Result-cases,
  subst, is_blank, Ensures, returned, then-Ensures, bind-Ensures, Ensures-eq,
}
use cryptox.Search.Types.{
  Error, SearchRun, RunState, running, paused, completed, cancelled, failed, created,
  user_cancelled,
}
use cryptox.Search.Ports.{Ports}
use cryptox.Search.Loop.{is_running, active_duration}
use cryptox.Search.Service.{
  State, StartConfig, is_failed, is_paused, is_cancelled, owned_by, get_run, save_run, load_owned,
  fill, create_run, check_start, start, pause, reopen, resume, cancel, fill_each,
}
use cryptox.Search.Lifecycle.{
  Moves, pauses, resumes, cancels_created, cancels_running, cancels_paused, cancels_completed, here,
  after,
}
use cryptox.Search.Evolution.{
  Evolves, Evolves-refl, Evolves-trans, Evolves-same, Evolves-save, Evolves-insert, get_run-id,
  fill-Evolves,
}

-- The states that an operation moves on.
pause_cases : (a : RunState) → (is_running a ≡ false) ⊎ ((is_running a ≡ true) × Moves a paused)
pause_cases created = inl refl
pause_cases running = inr (refl, pauses)
pause_cases paused = inl refl
pause_cases completed = inl refl
pause_cases cancelled = inl refl
pause_cases failed = inl refl

resume_cases : (a : RunState) → (is_paused a ≡ false) ⊎ ((is_paused a ≡ true) × Moves a running)
resume_cases created = inl refl
resume_cases running = inl refl
resume_cases paused = inr (refl, resumes)
resume_cases completed = inl refl
resume_cases cancelled = inl refl
resume_cases failed = inl refl

cancel_cases :
    (a : RunState)
    → (not (is_cancelled a || is_failed a) ≡ false)
      ⊎ ((not (is_cancelled a || is_failed a) ≡ true) × Moves a cancelled)
cancel_cases created = inr (refl, cancels_created)
cancel_cases running = inr (refl, cancels_running)
cancel_cases paused = inr (refl, cancels_paused)
cancel_cases completed = inr (refl, cancels_completed)
cancel_cases cancelled = inl refl
cancel_cases failed = inl refl

over_of :
    (a : RunState)
    → not (is_cancelled a || is_failed a) ≡ false
    → (is_cancelled a || is_failed a) ≡ true
over_of a h = ground arith

open_of :
    (a : RunState)
    → not (is_cancelled a || is_failed a) ≡ true
    → (is_cancelled a || is_failed a) ≡ false
open_of a h = ground arith

owned_by-found :
    (user : Text) (o : Option SearchRun) (run : SearchRun)
    → owned_by user o ≡ some run
    → o ≡ some run
unfolding owned_by
owned_by-found user none run h = absurd (ground arith)
owned_by-found user (some r) run h = ground arith

module _ {W : Type 0} (ports : Ports W) (dates : Dates) (clock : ℕ → Text) where
  load_owned-found :
      (user id : Text) (s : State W) (run : SearchRun)
      → load_owned user id s ≡ ok run
      → get_run id s ≡ some run
  unfolding load_owned
  load_owned-found user id s run h = owned_by-found user (get_run id s) run (ground arith)

  pub pause-Evolves :
      (user id : Text) (s : State W) → Evolves s (pause ports dates clock user id s).0
  unfolding pause
  pause-Evolves user id s = elim (Result-cases (load_owned user id s)) [
    | inr (e, fails) ↦ rw (pause, fails) (Evolves-refl s)
    | inl (run, loads) ↦
        rw (pause, loads)
          (pausing run (load_owned-found user id s run loads) (pause_cases run.state))
  ]
    where
      paused_run : SearchRun → SearchRun
      paused_run run = record run {
        state = paused;
        active_duration_ms = active_duration dates (clock 0) run;
        active_since = none;
        updated_at = clock 0;
      }

      pausing :
          (run : SearchRun)
          → get_run id s ≡ some run
          → (is_running run.state ≡ false)
            ⊎ ((is_running run.state ≡ true) × Moves run.state paused)
          → Evolves s
              (if◌then◌else◌ {A = State W × Result Error (Unit {0})}
                (is_running run.state)
                (save_run (paused_run run) s, ok tt)
                (s, ok tt)).0
      pausing run found (inl idle) = rw idle (Evolves-refl s)
      pausing run found (inr (runs, moves)) = rw runs (
          Evolves-save id run (paused_run run) s found (get_run-id id run s found)
            (after here moves))

  reopen-Evolves :
      (id : Text) (run : SearchRun) (s : State W)
      → get_run id s ≡ some run
      → Evolves s (reopen ports dates clock run s)
  unfolding reopen
  reopen-Evolves id run s found = go (is_paused run.state) (resume_cases run.state) refl
    where
      reopened : SearchRun
      reopened = record run { state = running; active_since = some (clock 9); updated_at = clock 9 }

      go :
          (b : Bool)
          → (is_paused run.state ≡ false) ⊎ ((is_paused run.state ≡ true) × Moves run.state running)
          → is_paused run.state ≡ b
          → Evolves s (if b then save_run reopened s else s)
      go false v h = Evolves-refl s
      go true (inl no_pause) h = absurd (ground arith)
      go true (inr (yes_pause, moves)) h =
          Evolves-save id run reopened s found (get_run-id id run s found) (after here moves)

  pub resume-Evolves :
      (user id : Text) (s : State W) → Evolves s (resume ports dates clock user id s).0
  unfolding resume
  resume-Evolves user id s = elim (Result-cases (load_owned user id s)) [
    | inr (e, fails) ↦ rw (resume, fails) (Evolves-refl s)
    | inl (run, loads) ↦ elim (Bool-cases (is_failed run.state)) [
      | inl fails ↦ rw (resume, loads, fails) (Evolves-refl s)
      | inr going ↦
          let s' = reopen ports dates clock run s in
          rw (resume, loads, going)
            (Evolves-trans s s' (fill ports dates clock id s').0
              (reopen-Evolves id run s (load_owned-found user id s run loads))
              (fill-Evolves ports dates clock id s'))
    ]
  ]

  check_start-id :
      (id user : Text) (config : StartConfig) (s : State W)
      → Ensures
          (λ (run : SearchRun). run.search_run_id ≡ id)
          (check_start ports dates clock id user config s)
  unfolding check_start create_run
  check_start-id id user config s = then-Ensures _ _ (λ _ _. bind-Ensures _ _ (λ condition _.
      bind-Ensures _ _ (λ limit _. then-Ensures _ _ (λ _ _.
        then-Ensures _ _
          (λ _ _. then-Ensures _ _ (λ _ _. then-Ensures _ _ (λ _ _. returned refl)))))))

  pub start-Evolves :
      (run_text : ℕ → Text) (user : Text) (config : StartConfig) (s : State W)
      → get_run (run_text (s.sequence + 1)) s ≡ none
      → Evolves s (start ports dates clock run_text user config s).0
  unfolding start get_run
  start-Evolves run_text user config s fresh =
      elim (Result-cases
        (check_start ports dates clock (run_text (s.sequence + 1)) user config s)) [
          | inr (e, fails) ↦ rw (start, fails) (Evolves-refl s)
          | inl (run, checks) ↦
              let s₀ = record s { sequence = s.sequence + 1 } in
              let s' = save_run run s₀ in
              let named : run.search_run_id ≡ run_text (s.sequence + 1) =
                Ensures-eq {P = λ (r : SearchRun). r.search_run_id ≡ run_text (s.sequence + 1)}
                  (check_start-id (run_text (s.sequence + 1)) user config s) checks in
              rw (start, checks)
                (Evolves-trans s s' (fill ports dates clock run.search_run_id s').0
                  (Evolves-trans s s₀ s' (Evolves-same s s₀ refl)
                    (Evolves-insert run s₀ (subst (λ k. get_run k s₀ ≡ none) (sym named) fresh)))
                  (fill-Evolves ports dates clock run.search_run_id s'))
        ]

  pub fill_each-Evolves :
      (runs : List SearchRun) (s : State W) → Evolves s (fill_each ports dates clock runs s).0
  unfolding fill_each
  fill_each-Evolves [] s = Evolves-refl s
  fill_each-Evolves (run ∷ rest) s =
      let (s', result) = fill ports dates clock run.search_run_id s in
      let first = fill-Evolves ports dates clock run.search_run_id s in
      elim (Result-cases result) [
        | inr (e, fails) ↦ rw (fill_each, fails) first
        | inl (u, fills) ↦
            rw (fill_each, fills)
              (Evolves-trans s s' (fill_each ports dates clock rest s').0 first
                (fill_each-Evolves rest s'))
      ]

  pub cancel-Evolves :
      (user id : Text) (s : State W) → Evolves s (cancel ports dates clock user id s).0
  unfolding cancel get_run
  cancel-Evolves user id s = elim (Bool-cases (is_blank user)) [
    | inl blank ↦ rw (cancel, blank) (Evolves-refl s)
    | inr named ↦ elim (Option-cases (owned_by user (get_run id s))) [
      | inl missing ↦ rw (cancel, named, missing) (Evolves-refl s)
      | inr (run, owned) ↦ elim (cancel_cases run.state) [
        | inl over ↦ rw (cancel, named, owned, over_of run.state over) (Evolves-refl s)
        | inr (going, moves) ↦
            let found = owned_by-found user (get_run id s) run owned in
            let out = ports.cancel_search_candidates user id s.world in
            let s₀ = record s { world = out.0 } in
            let ended : SearchRun = record run {
              state = cancelled;
              stop_reason = some user_cancelled;
              ended_at = some (clock 0);
              active_since = none;
              updated_at = clock 0;
            } in
            let s' = save_run ended s₀ in
            let saved : Evolves s s' =
              Evolves-trans s s₀ s' (Evolves-same s s₀ refl) (
                Evolves-save id run ended s₀ found (get_run-id id run s found)
                  (after here moves)) in
            elim (Result-cases out.1) [
              | inr (e, fails) ↦
                  rw (cancel, named, owned, open_of run.state going, fails) (Evolves-same s s₀ refl)
              | inl (ids, cancels) ↦
                  let s'' = record s' { world = (ports.remove_pending_jobs ids out.0).0 } in
                  rw (cancel, named, owned, open_of run.state going, cancels)
                    (Evolves-trans s s' s'' saved (Evolves-same s' s'' refl))
            ]
      ]
    ]
  ]
