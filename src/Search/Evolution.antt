-- ===== src/Search/Evolution.antt =====
-- What the operations of modules/search/application/service.ts do to the states of the stored runs.
use cryptox.Base.{
  ℕ, ◌≡◌, ◌⊎◌, inl, inr, refl, sym, ap, ◌∙◌, arith, ◌==◌, true, false, if◌then◌else◌, Option, none,
  some, Text, Dates, Bool-cases, Option-cases, Result-cases, subst, lookup_by-set_by, lookup_by-key,
}
use mathlib.Core.Option.{some-injective}
use cryptox.Search.Types.{
  Error, search_run_not_found, SearchRun, RunState, running, paused, completed, cancelled, failed,
  created, stopped_by_error,
}
use cryptox.Search.Ports.{Ports}
use cryptox.Search.Loop.{fill_core}
use cryptox.Search.Service.{State, run_key, is_open, get_run, save_run, fail_run, fill}
use cryptox.Search.Lifecycle.{
  Moves, fails_running, fails_paused, Reaches, here, after, Reaches-trans, Carries-Reaches,
  fill_core-Carries,
}

-- A failure ends a run that is open.
open_cases : (a : RunState) → (is_open a ≡ false) ⊎ ((is_open a ≡ true) × Moves a failed)
open_cases created = inl refl
open_cases running = inr (refl, fails_running)
open_cases paused = inr (refl, fails_paused)
open_cases completed = inl refl
open_cases cancelled = inl refl
open_cases failed = inl refl

none-some : {A : Type 0} (a : A) (o : Option A) → o ≡ none → o ≡ some a → ⊥
none-some a o h e = cc

module _ {W : Type 0} where
  -- Every stored run stays, in a state that it can reach.
  abbrev pub Evolves : State W → State W → Type 0
  Evolves s s' =
      (id : Text) (run : SearchRun)
      → get_run id s ≡ some run
      → (run' : SearchRun) × (get_run id s' ≡ some run') × Reaches run.state run'.state

  pub Evolves-refl : (s : State W) → Evolves s s
  Evolves-refl s id run h = (run, h, here)

  pub Evolves-trans : (s t u : State W) → Evolves s t → Evolves t u → Evolves s u
  Evolves-trans s t u v v' id run h =
      let (run', h', p) = v id run h in
      let (run'', h'', q) = v' id run' h' in (run'', h'', Reaches-trans p q)

  -- A change of the world, or of the sequence, alone.
  pub Evolves-same : (s s' : State W) → s'.runs ≡ s.runs → Evolves s s'
  unfolding get_run
  Evolves-same s s' e id run h = (run, rw e h, here)

  get_run-save_run :
      (id : Text) (run : SearchRun) (s : State W)
      → get_run id (save_run run s) ≡ (if run.search_run_id == id then some run else get_run id s)
  unfolding get_run save_run
  get_run-save_run id run s = lookup_by-set_by run_key id run s.runs

  pub get_run-id :
      (id : Text) (run : SearchRun) (s : State W) → get_run id s ≡ some run → run.search_run_id ≡ id
  unfolding get_run
  get_run-id id run s h = lookup_by-key run_key id s.runs run h

  -- Saving a run over the stored one of its id.
  pub Evolves-save :
      (id : Text) (run run' : SearchRun) (s : State W)
      → get_run id s ≡ some run
      → run'.search_run_id ≡ id
      → Reaches run.state run'.state
      → Evolves s (save_run run' s)
  Evolves-save id run run' s found same reaches other old h =
      elim (Bool-cases (run'.search_run_id == other)) [
        | inl e ↦
            let hits : run'.search_run_id ≡ other = ground (arith, e) in
            let old_is : run ≡ old =
              some-injective run old (sym found ∙ ap (λ k. get_run k s) (sym same ∙ hits) ∙ h) in
            (
              run',
              get_run-save_run other run' s ∙ rw e refl,
              subst (λ (r : SearchRun). Reaches r.state run'.state) old_is reaches,
            )
        | inr e ↦ (old, get_run-save_run other run' s ∙ rw e h, here)
      ]

  -- Saving a run under a new id.
  pub Evolves-insert :
      (run : SearchRun) (s : State W)
      → get_run run.search_run_id s ≡ none
      → Evolves s (save_run run s)
  Evolves-insert run s fresh other old h = elim (Bool-cases (run.search_run_id == other)) [
    | inl e ↦
        let hits : run.search_run_id ≡ other = ground (arith, e) in
        let missing : get_run other s ≡ none = subst (λ k. get_run k s ≡ none) hits fresh in
        absurd (none-some old (get_run other s) missing h)
    | inr e ↦ (old, get_run-save_run other run s ∙ rw e h, here)
  ]

module _ {W : Type 0} (ports : Ports W) (dates : Dates) (clock : ℕ → Text) where
  fail_run-Evolves :
      (id : Text) (e : Error) (s : State W) → Evolves s (fail_run ports dates clock id e s)
  unfolding fail_run
  fail_run-Evolves id e s = elim (Option-cases (get_run id s)) [
    | inl missing ↦ rw (fail_run, missing) (Evolves-refl s)
    | inr (run, found) ↦ rw (fail_run, found) (fails run found)
  ]
    where
      failing : SearchRun → SearchRun
      failing run = record run {
        state = failed;
        stop_reason = some stopped_by_error;
        last_error = some e;
        ended_at = some (clock 7);
        updated_at = clock 8;
      }

      fails :
          (run : SearchRun)
          → get_run id s ≡ some run
          → Evolves s (if is_open run.state then save_run (failing run) s else s)
      fails run found = elim (open_cases run.state) [
        | inl shut ↦ rw shut (Evolves-refl s)
        | inr (open_state, moves) ↦ rw open_state (
            Evolves-save id run (failing run) s found (get_run-id id run s found)
              (after here moves))
      ]

  pub fill-Evolves : (id : Text) (s : State W) → Evolves s (fill ports dates clock id s).0
  unfolding fill get_run
  fill-Evolves id s = elim (Option-cases (get_run id s)) [
    | inl missing ↦ rw (fill, missing) (fail_run-Evolves id search_run_not_found s)
    | inr (run, found) ↦
        let out = fill_core ports dates clock run s.world in
        let s₀ = record s { world = out.0 } in
        let s' = save_run out.1 s₀ in
        let carries = fill_core-Carries ports dates clock run s.world in
        let saved : Evolves s s' = Evolves-trans s s₀ s' (Evolves-same s s₀ refl) (
          Evolves-save id run out.1 s₀ found (carries.0 ∙ get_run-id id run s found)
            (Carries-Reaches run out.1 carries)) in
        elim (Result-cases out.2) [
          | inl (u, fills) ↦ rw (fill, found, fills) saved
          | inr (e, fails) ↦
              rw (fill, found, fails)
                (Evolves-trans s s' (fail_run ports dates clock id e s') saved
                  (fail_run-Evolves id e s'))
        ]
  ]
