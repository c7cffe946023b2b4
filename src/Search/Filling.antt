-- ===== src/Search/Filling.antt =====
-- The limits of one filling of a run's slots (`fillCore` of modules/search/application/service.ts).
use cryptox.Base.{
  ℕ, ◌+◌, ◌-◌, ◌*◌, ◌≤◌, max, ◌≡◌, inl, inr, refl, ap, ◌∙◌, arith, ◌==◌, ltb, not, ◌&&◌, Bool, true,
  false, if◌then◌else◌, none, some, Result, ok, err, Text, Dates, Bool-cases, Option-cases,
  Result-cases,
}
use cryptox.Search.Types.{
  Error, unsupported_generator, search_generation_exhausted, SearchRun, GeneratedCandidate,
  SearchSpace, StopReason, StopCondition,
}
use cryptox.Search.Ports.{Ports}
use cryptox.Search.Loop.{
  try_slots, fill_slots, fill_core, slots, settle_run, refresh, stop_reason, finish_if, in_flight,
  is_running,
}
use cryptox.Search.Accounting.{load, Accounting}
use cryptox.Search.Limits.{load_of, Grown, try_slots-Grown}
use cryptox.Search.Refreshing.{Kept, Refreshed, refresh-Refreshed, finish_if-Kept, settle_run-Kept}

module _ {W : Type 0} (ports : Ports W) (dates : Dates) (clock : ℕ → Text) where
  abbrev pub Filled : Type 0
  Filled = W × SearchRun × Result Error (Unit {0})

  -- The ways through `fillCore`.
  pub fill_core-cases :
      (run : SearchRun) (w : W) (P : Filled → Type 0)
      → (is_running run.state ≡ false → P (w, run, ok tt))
      → ((e : Error) → P (w, run, err e))
      → ((run' : SearchRun) (met : StopReason)
          → is_running run.state ≡ true
          → refresh ports dates clock 0 run w ≡ ok run'
          → P (w, finish_if ports dates clock (some met) 2 run', ok tt))
      → ((run' : SearchRun)
          → is_running run.state ≡ true
          → refresh ports dates clock 0 run w ≡ ok run'
          → P (fill_slots ports dates clock run' w))
      → P (fill_core ports dates clock run w)
  unfolding fill_core
  fill_core-cases run w P idle fails meets fills = go (is_running run.state) refl
    where
      go :
          (b : Bool)
          → is_running run.state ≡ b
          → P (
              if◌then◌else◌ {A = Filled}
                (not b)
                (w, run, ok tt)
                (elim (refresh ports dates clock 0 run w) as (λ _. Filled) [
                  | err e ↦ (w, run, err e)
                  | ok run' ↦ elim (stop_reason ports dates clock 1 run') as (λ _. Filled) [
                    | some met ↦ (w, finish_if ports dates clock (some met) 2 run', ok tt)
                    | none ↦ fill_slots ports dates clock run' w
                  ]
                ]))
      go false h = idle h
      go true h = elim (Result-cases (refresh ports dates clock 0 run w)) [
        | inr (e, errs) ↦ rw errs (fails e)
        | inl (run', reads) ↦ rw reads (elim (Option-cases (stop_reason ports dates clock 1 run')) [
          | inl going ↦ rw going (fills run' h reads)
          | inr (met, stops) ↦ rw stops (meets run' met h reads)
        ])
      ]

  abbrev pub tried :
      (SearchSpace → Text → ℕ → Result Error GeneratedCandidate)
      → SearchRun
      → W
      → W × SearchRun × Result Error ℕ
  tried generate run w =
      let wanted = slots ports dates clock run in
      try_slots ports dates clock generate (max (wanted * 4) (wanted + 1)) 0 0 wanted run w

  -- The ways through its loop and what follows it.
  pub fill_slots-cases :
      (run : SearchRun) (w : W) (P : Filled → Type 0)
      → ((e : Error) → P (w, run, err e))
      → ((generate : SearchSpace → Text → ℕ → Result Error GeneratedCandidate) (e : Error)
          → P ((tried generate run w).0, (tried generate run w).1, err e))
      → ((generate : SearchSpace → Text → ℕ → Result Error GeneratedCandidate)
          → P (
            (tried generate run w).0,
            (settle_run ports dates clock (tried generate run w).1 (tried generate run w).0).0,
            (settle_run ports dates clock (tried generate run w).1 (tried generate run w).0).1,
          ))
      → P (fill_slots ports dates clock run w)
  unfolding fill_slots
  fill_slots-cases run w P missing fails settles =
      elim (Option-cases (ports.generators run.generator_type)) [
        | inl unsupported ↦ rw (fill_slots, unsupported) (missing unsupported_generator)
        | inr (generate, found) ↦
            let wanted = slots ports dates clock run in
            elim (Result-cases (tried generate run w).2) [
              | inr (e, errs) ↦ rw (fill_slots, found, errs) (fails generate e)
              | inl (n, ends) ↦ elim (Bool-cases (ltb 0 wanted && n == 0)) [
                | inl exhausted ↦
                    rw (fill_slots, found, ends, exhausted)
                      (fails generate search_generation_exhausted)
                | inr some_found ↦ rw (fill_slots, found, ends, some_found) (settles generate)
              ]
            ]
      ]

  slots_limit : (run : SearchRun) → slots ports dates clock run ≤ run.max_in_flight - in_flight run
  unfolding slots
  slots_limit run = omega arith

  slots_budget :
      (run : SearchRun) (n : ℕ)
      → run.stop_condition.max_candidates ≡ some n
      → slots ports dates clock run ≤ n - (run.next_iteration - 1)
  unfolding slots
  slots_budget run n h = ground (arith, h)

  -- The same run in flight under the same name.
  load-Kept :
      (run run' : SearchRun) (w : W)
      → Kept run run'
      → load_of ports dates clock run' w ≡ load_of ports dates clock run w
  load-Kept run run' w v =
      ap (λ user. load ports user run'.search_run_id w) v.owner
      ∙ ap (λ id. load ports run.owner_user_id id w) v.id

  module _ (laws : Accounting ports) where
    fill_slots-Grown :
        (run : SearchRun) (w : W)
        → Grown ports dates clock
            (slots ports dates clock run)
            run
            w
            (fill_slots ports dates clock run w)
    fill_slots-Grown run w =
        fill_slots-cases run w (Grown ports dates clock (slots ports dates clock run) run w)
          (λ e. (omega arith, omega arith, omega arith))
          (λ generate e. let (a, b, c) = grows generate in (omega (arith, a), b, omega (arith, c)))
          (λ generate.
            let (a, b, c) = grows generate in
            let out = tried generate run w in
            let kept = (settle_run-Kept ports dates clock out.1 out.0).iteration in
            (omega (arith, a), omega (arith, b, kept), omega (arith, c, kept)))
      where
        grows :
            (generate : SearchSpace → Text → ℕ → Result Error GeneratedCandidate)
            → Grown ports dates clock (slots ports dates clock run - 0) run w (tried generate run w)
        grows generate =
            let wanted = slots ports dates clock run in
            try_slots-Grown ports dates clock generate laws (max (wanted * 4) (wanted + 1)) 0 0
              wanted run w

    -- The limits on what is in flight and on the iterations reserved.
    pub record WithinLimits (run : SearchRun) (w : W) (out : Filled) : Type 0 where
      pub in_flight_limit :
          load_of ports dates clock run out.0
          ≤ max (load_of ports dates clock run w) run.max_in_flight
      pub forward : run.next_iteration ≤ out.1.next_iteration
      pub candidate_limit :
          (n : ℕ)
          → run.stop_condition.max_candidates ≡ some n
          → out.1.next_iteration ≤ max run.next_iteration (n + 1)

    -- Over ports that keep the accounting, a filling leaves no more candidates in flight than the
    -- larger of those in flight before and the run's limit, never lowers the next iteration, and
    -- raises it to no more than the larger of the next iteration before and one past the candidates
    -- allowed.
    pub fill_core-WithinLimits :
        (run : SearchRun) (w : W) → WithinLimits run w (fill_core ports dates clock run w)
    fill_core-WithinLimits run w =
        fill_core-cases run w (WithinLimits run w)
          (λ idle. record {
            in_flight_limit = omega arith;
            forward = omega arith;
            candidate_limit = λ n h. omega arith;
          })
          (λ e. record {
            in_flight_limit = omega arith;
            forward = omega arith;
            candidate_limit = λ n h. omega arith;
          })
          (λ run' met runs reads.
            let (v, counts, same) = refresh-Refreshed ports dates clock 0 run run' w reads in
            let ended =
              (finish_if-Kept ports dates clock (some met) 2 run').iteration ∙ v.iteration in
            record {
              in_flight_limit = omega arith;
              forward = omega (arith, ended);
              candidate_limit = λ n h. omega (arith, ended);
            })
          (λ run' runs reads.
            filled run' (fill_slots ports dates clock run' w)
              (refresh-Refreshed ports dates clock 0 run run' w reads) (fill_slots-Grown run' w))
      where
        filled :
            (run' : SearchRun) (out : Filled)
            → Refreshed ports dates clock run w run'
            → Grown ports dates clock (slots ports dates clock run') run' w out
            → WithinLimits run w out
        filled run' out (v, counts, same) (a, b, c) = record {
          in_flight_limit = omega (
            arith,
            slots_limit run',
            a,
            counts,
            v.limit,
            load-Kept run run' w v,
            load-Kept run run' out.0 v,
          );
          forward = omega (arith, b, v.iteration);
          candidate_limit = λ n h.
              let allowed =
                slots_budget run' n
                  (ap (λ (k : StopCondition). k.max_candidates) v.condition ∙ h) in
              omega (arith, c, v.iteration, allowed);
        }
