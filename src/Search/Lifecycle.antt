-- ===== src/Search/Lifecycle.antt =====
-- The states that a search run moves through (`state` of modules/search/domain/contracts.ts), and
-- the moves of one filling.
use cryptox.Base.{
  ℕ, ◌+◌, ◌*◌, ◌≡◌, ◌⊎◌, inl, inr, refl, sym, ap, ◌∙◌, ◌==◌, Bool, true, false, if◌then◌else◌,
  Option, none, some, Result, ok, err, Text, Dates, subst, max, Ensures, Ensures-eq,
}
use cryptox.Search.Types.{
  Error, SearchRun, GeneratedCandidate, SearchSpace, StopReason, RunState, created, running, paused,
  completed, cancelled, failed,
}
use cryptox.Search.Ports.{Ports}
use cryptox.Search.Loop.{
  try_slots, fill_slots, fill_core, slots, settle_run, refresh, stop_reason, finish_if, in_flight,
  is_running,
}
use cryptox.Search.Accounting.{submit-advance}
use cryptox.Search.Limits.{attempt-cases}
use cryptox.Search.Refreshing.{Refreshed, refresh-Refreshed, refresh-Ensures}
use cryptox.Search.Filling.{tried, fill_slots-cases, fill_core-cases}
use cryptox.Search.Turns.{After, try_slots-Keeps}

pub data Moves : RunState → RunState → Type 0 where
  pauses : Moves running paused
  resumes : Moves paused running
  completes : Moves running completed
  fails_running : Moves running failed
  fails_paused : Moves paused failed
  cancels_created : Moves created cancelled
  cancels_running : Moves running cancelled
  cancels_paused : Moves paused cancelled
  cancels_completed : Moves completed cancelled

pub data Reaches (a : RunState) : RunState → Type 0 where
  here : Reaches a a
  after : {b c : RunState} → Reaches a b → Moves b c → Reaches a c

pub Reaches-trans : {a b c : RunState} → Reaches a b → Reaches b c → Reaches a c
Reaches-trans p here = p
Reaches-trans p (after q m) = after (Reaches-trans p q) m

-- A run that has ended stays as it is, but that a completed one may be cancelled.
abbrev pub Ended : RunState → RunState → Type 0
Ended completed b = (b ≡ completed) ⊎ (b ≡ cancelled)
Ended cancelled b = b ≡ cancelled
Ended failed b = b ≡ failed
Ended _ b = Unit

completed-Moves : {b c : RunState} → Moves b c → b ≡ completed → c ≡ cancelled
completed-Moves pauses e = cc
completed-Moves resumes e = cc
completed-Moves completes e = cc
completed-Moves fails_running e = cc
completed-Moves fails_paused e = cc
completed-Moves cancels_created e = cc
completed-Moves cancels_running e = cc
completed-Moves cancels_paused e = cc
completed-Moves cancels_completed e = refl

no_Moves : {b c : RunState} → Moves b c → (b ≡ cancelled) ⊎ (b ≡ failed) → ⊥
no_Moves pauses (inl e) = cc
no_Moves pauses (inr e) = cc
no_Moves resumes (inl e) = cc
no_Moves resumes (inr e) = cc
no_Moves completes (inl e) = cc
no_Moves completes (inr e) = cc
no_Moves fails_running (inl e) = cc
no_Moves fails_running (inr e) = cc
no_Moves fails_paused (inl e) = cc
no_Moves fails_paused (inr e) = cc
no_Moves cancels_created (inl e) = cc
no_Moves cancels_created (inr e) = cc
no_Moves cancels_running (inl e) = cc
no_Moves cancels_running (inr e) = cc
no_Moves cancels_paused (inl e) = cc
no_Moves cancels_paused (inr e) = cc
no_Moves cancels_completed (inl e) = cc
no_Moves cancels_completed (inr e) = cc

Moves-Ended : (a : RunState) {b c : RunState} → Ended a b → Moves b c → Ended a c
Moves-Ended created v m = tt
Moves-Ended running v m = tt
Moves-Ended paused v m = tt
Moves-Ended completed (inl e) m = inr (completed-Moves m e)
Moves-Ended completed (inr e) m = absurd (no_Moves m (inl e))
Moves-Ended cancelled e m = absurd (no_Moves m (inl e))
Moves-Ended failed e m = absurd (no_Moves m (inr e))

Ended-refl : (a : RunState) → Ended a a
Ended-refl created = tt
Ended-refl running = tt
Ended-refl paused = tt
Ended-refl completed = inl refl
Ended-refl cancelled = refl
Ended-refl failed = refl

pub Reaches-Ended : {a b : RunState} → Reaches a b → Ended a b
Reaches-Ended {a} here = Ended-refl a
Reaches-Ended {a} (after p m) = Moves-Ended a (Reaches-Ended p) m

-- A filling keeps the id of the run, and its state but that a running one may complete.
abbrev pub Carries : SearchRun → SearchRun → Type 0
Carries run run' =
    (run'.search_run_id ≡ run.search_run_id)
    × ((run'.state ≡ run.state) ⊎ ((run.state ≡ running) × (run'.state ≡ completed)))

pub Carries-Reaches : (run run' : SearchRun) → Carries run run' → Reaches run.state run'.state
Carries-Reaches run run' (e, inl same) = subst (Reaches run.state) (sym same) here
Carries-Reaches run run' (e, inr (was, is)) =
    subst (λ s. Reaches s run'.state) (sym was)
      (subst (Reaches running) (sym is) (after here completes))

running_of : (s : RunState) → is_running s ≡ true → s ≡ running
running_of running h = refl
running_of created h = cc
running_of paused h = cc
running_of completed h = cc
running_of cancelled h = cc
running_of failed h = cc

module _ {W : Type 0} (ports : Ports W) (dates : Dates) (clock : ℕ → Text) where
  finish_if-Carries :
      (met : Option StopReason) (at : ℕ) (run : SearchRun)
      → run.state ≡ running
      → Carries run (finish_if ports dates clock met at run)
  unfolding finish_if
  finish_if-Carries none at run h = (refl, inl refl)
  finish_if-Carries (some met) at run h = go (in_flight run == 0)
    where
      go :
          (b : Bool)
          → Carries run (
              if b
              then record run {
                state = completed;
                stop_reason = some met;
                ended_at = some (clock at);
              }
              else run)
      go true = (refl, inr (h, refl))
      go false = (refl, inl refl)

  Carries-after :
      (a b c : SearchRun)
      → b.search_run_id ≡ a.search_run_id
      → b.state ≡ a.state
      → Carries b c
      → Carries a c
  Carries-after a b c e f (g, inl same) = (g ∙ e, inl (same ∙ f))
  Carries-after a b c e f (g, inr (was, is)) = (g ∙ e, inr (sym f ∙ was, is))

  settle_run-Carries :
      (run : SearchRun) (w : W)
      → run.state ≡ running
      → Carries run (settle_run ports dates clock run w).0
  unfolding settle_run
  settle_run-Carries run w h =
      go (refresh ports dates clock 3 run w) (refresh-Ensures ports dates clock 3 run w)
    where
      go :
          (r : Result Error SearchRun)
          → Ensures (Refreshed ports dates clock run w) r
          → Carries run
              (elim r as (λ _. SearchRun × Result Error (Unit {0})) [
                | err e ↦ (run, err e)
                | ok run' ↦ (
                  record (finish_if ports dates clock
                      (stop_reason ports dates clock 4 run')
                      5
                      run') { updated_at = clock 6 },
                  ok tt,
                )
              ]).0
      go (err e) v = (refl, inl refl)
      go (ok run') v =
          let (kept, counts, same) = Ensures-eq {P = Refreshed ports dates clock run w} v refl in
          Carries-after run run'
            (finish_if ports dates clock (stop_reason ports dates clock 4 run') 5 run') kept.id same
            (finish_if-Carries (stop_reason ports dates clock 4 run') 5 run' (same ∙ h))

  -- The loop changes neither the id nor the state.
  abbrev Identical : SearchRun → SearchRun → W → Type 0
  Identical run run' w = (run'.search_run_id ≡ run.search_run_id) × (run'.state ≡ run.state)

  try_slots-Identical :
      (generate : SearchSpace → Text → ℕ → Result Error GeneratedCandidate) (left wanted : ℕ)
      (run : SearchRun) (w : W)
      → Identical run (try_slots ports dates clock generate left 0 0 wanted run w).1 w
  try_slots-Identical generate left wanted run w =
      try_slots-Keeps ports dates clock generate (Identical run)
        (λ n r v q.
          attempt-cases ports dates clock generate n r v
            (After ports dates clock generate (Identical run) r) (λ e. q) q
            (λ candidate e refused. q)
            (λ candidate r' fresh submits.
              let advanced = submit-advance ports r r' candidate v submits in
              (
                ap (λ (x : SearchRun). x.search_run_id) advanced ∙ q.0,
                ap (λ (x : SearchRun). x.state) advanced ∙ q.1,
              )))
        left 0 0 wanted run w (refl, refl)

  fill_slots-Carries :
      (run : SearchRun) (w : W)
      → run.state ≡ running
      → Carries run (fill_slots ports dates clock run w).1
  fill_slots-Carries run w h =
      fill_slots-cases ports dates clock run w (λ out. Carries run out.1) (λ e. (refl, inl refl))
        (λ generate e. let (same_id, same_state) = identical generate in (same_id, inl same_state))
        (λ generate.
          let (same_id, same_state) = identical generate in
          let out = tried ports dates clock generate run w in
          Carries-after run out.1 (settle_run ports dates clock out.1 out.0).0 same_id same_state
            (settle_run-Carries out.1 out.0 (same_state ∙ h)))
    where
      identical :
          (generate : SearchSpace → Text → ℕ → Result Error GeneratedCandidate)
          → Identical run (tried ports dates clock generate run w).1 w
      identical generate =
          let wanted = slots ports dates clock run in
          try_slots-Identical generate (max (wanted * 4) (wanted + 1)) wanted run w

  pub fill_core-Carries :
      (run : SearchRun) (w : W) → Carries run (fill_core ports dates clock run w).1
  fill_core-Carries run w =
      fill_core-cases ports dates clock run w (λ out. Carries run out.1) (λ idle. (refl, inl refl))
        (λ e. (refl, inl refl))
        (λ run' met runs reads.
          let (kept, counts, same) = refresh-Refreshed ports dates clock 0 run run' w reads in
          Carries-after run run' (finish_if ports dates clock (some met) 2 run') kept.id same
            (finish_if-Carries (some met) 2 run' (same ∙ running_of run.state runs)))
        (λ run' runs reads.
          let (kept, counts, same) = refresh-Refreshed ports dates clock 0 run run' w reads in
          Carries-after run run' (fill_slots ports dates clock run' w).1 kept.id same
            (fill_slots-Carries run' w (same ∙ running_of run.state runs)))
