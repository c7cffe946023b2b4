-- ===== src/Search/Reachability.antt =====
-- Runs of the module of modules/search/application/service.ts: its operations in any order, with any
-- changes of the modules behind it between them.
use cryptox.Base.{ℕ, ◌+◌, ◌≡◌, refl, sym, none, some, Text, Dates, subst, keep}
use cryptox.Search.Types.{SearchRun}
use cryptox.Search.Ports.{Ports}
use cryptox.Search.Loop.{is_running}
use cryptox.Search.Service.{
  State, StartConfig, get_run, fill, start, pause, resume, cancel, reconcile_running_runs,
}
use cryptox.Search.Lifecycle.{Ended, Reaches, Reaches-Ended}
use cryptox.Search.Evolution.{Evolves, Evolves-refl, Evolves-trans, Evolves-same, fill-Evolves}
use cryptox.Search.Steps.{
  pause-Evolves, resume-Evolves, start-Evolves, cancel-Evolves, fill_each-Evolves,
}

module _ {W : Type 0} (ports : Ports W) (dates : Dates) where
  -- Each operation reads a clock of its own; a run is started under an id that no run has.
  pub data Step (s s' : State W) : Type 0 where
    starts :
        (clock : ℕ → Text) (run_text : ℕ → Text) (user : Text) (config : StartConfig)
        → get_run (run_text (s.sequence + 1)) s ≡ none
        → s' ≡ (start ports dates clock run_text user config s).0
        → Step s s'
    pauses :
        (clock : ℕ → Text) (user id : Text) → s' ≡ (pause ports dates clock user id s).0 → Step s s'
    resumes :
        (clock : ℕ → Text) (user id : Text)
        → s' ≡ (resume ports dates clock user id s).0
        → Step s s'
    cancels :
        (clock : ℕ → Text) (user id : Text)
        → s' ≡ (cancel ports dates clock user id s).0
        → Step s s'
    fills : (clock : ℕ → Text) (id : Text) → s' ≡ (fill ports dates clock id s).0 → Step s s'
    reconciles :
        (clock : ℕ → Text) → s' ≡ (reconcile_running_runs ports dates clock s).0 → Step s s'
    elsewhere : (w : W) → s' ≡ record s { world = w } → Step s s'

  pub data Steps (s : State W) : State W → Type 0 where
    stop : Steps s s
    next : {t u : State W} → Steps s t → Step t u → Steps s u

  Step-Evolves : (s s' : State W) → Step s s' → Evolves s s'
  unfolding reconcile_running_runs
  Step-Evolves s s' (starts clock run_text user config fresh e) =
      subst (Evolves s) (sym e) (start-Evolves ports dates clock run_text user config s fresh)
  Step-Evolves s s' (pauses clock user id e) =
      subst (Evolves s) (sym e) (pause-Evolves ports dates clock user id s)
  Step-Evolves s s' (resumes clock user id e) =
      subst (Evolves s) (sym e) (resume-Evolves ports dates clock user id s)
  Step-Evolves s s' (cancels clock user id e) =
      subst (Evolves s) (sym e) (cancel-Evolves ports dates clock user id s)
  Step-Evolves s s' (fills clock id e) =
      subst (Evolves s) (sym e) (fill-Evolves ports dates clock id s)
  Step-Evolves s s' (reconciles clock e) = subst (Evolves s) (sym e) (
      fill_each-Evolves ports dates clock (keep (λ (run : SearchRun). is_running run.state) s.runs)
        s)
  Step-Evolves s s' (elsewhere w e) =
      subst (Evolves s) (sym e) (Evolves-same s (record s { world = w }) refl)

  Steps-Evolves : (s s' : State W) → Steps s s' → Evolves s s'
  Steps-Evolves s s' stop = Evolves-refl s
  Steps-Evolves s s' (next {t} p m) =
      Evolves-trans s t s' (Steps-Evolves s t p) (Step-Evolves t s' m)

  -- However the operations follow one another, with any changes of the other modules between them
  -- and each run started under a new id, a run stays stored under its id in a state that its state
  -- leads to: a cancelled run stays cancelled and a failed one failed, and a completed one stays
  -- completed or is cancelled.
  pub Steps-Ended :
      (s s' : State W) (id : Text) (run : SearchRun)
      → Steps s s'
      → get_run id s ≡ some run
      → (run' : SearchRun) × (get_run id s' ≡ some run')
        × Reaches run.state run'.state
        × Ended run.state run'.state
  Steps-Ended s s' id run p h =
      let (run', h', reaches) = Steps-Evolves s s' p id run h in
      (run', h', reaches, Reaches-Ended reaches)
