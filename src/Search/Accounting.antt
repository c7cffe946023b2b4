-- ===== src/Search/Accounting.antt =====
-- What the slot filling of modules/search/application/service.ts relies on: how the candidates that
-- the backtests report in flight change with the calls of the other modules.
use cryptox.Base.{
  ℕ, ◌+◌, ◌≤◌, ◌≡◌, inl, inr, arith, ◌==◌, Bool, true, false, if◌then◌else◌, some, List, [], ◌∷◌,
  Result, ok, err, Text, Bool-cases, Option-cases, Result-cases, lookup_by, set_by, map,
}
use cryptox.Search.Types.{
  Error, StrategyDefinition, Composite, CandidateCommand, SearchRun, GeneratedCandidate,
}
use cryptox.Search.Ports.{StrategyPort, Ports}
use cryptox.Search.Submission.{
  Remapping, remap_strategy, remap_strategies, store_composite, sent_composite, by_id, stored_after,
  store_candidate, stored_ids, submit, advance, command_of,
}

abbrev pub accepted : {A : Type 0} → Result Error A → ℕ
accepted (ok a) = 1
accepted (err e) = 0

module _ {W : Type 0} (ports : Ports W) where
  -- The candidates in flight that the backtests report; none where they cannot.
  abbrev pub load : Text → Text → W → ℕ
  load user run_id w = elim (ports.summarize_search_candidates user run_id w) [
    | err e ↦ 0
    | ok s ↦ s.queued_count + s.running_count
  ]

  -- A submission puts at most the candidate that it accepts in flight, and storing strategies puts
  -- none.
  pub record Accounting : Type 0 where
    pub submits :
        (user : Text) (command : CandidateCommand) (w : W)
        → load user command.search_run_id (ports.submit_search_candidate user command w).0
          ≤ load user command.search_run_id w
            + accepted (ports.submit_search_candidate user command w).1
    pub defines :
        (port : StrategyPort W)
        (define : Text → Text → Text → W → W × Result Error StrategyDefinition)
        → ports.strategy_service ≡ some port
        → port.define_strategy ≡ some define
        → (owner name parameters user run_id : Text) (w : W)
        → load user run_id (define owner name parameters w).0 ≤ load user run_id w
    pub composes :
        (port : StrategyPort W)
        → ports.strategy_service ≡ some port
        → (owner : Text) (composite : Composite) (user run_id : Text) (w : W)
        → load user run_id (port.define_composite owner composite w).0 ≤ load user run_id w

  -- What an accepted submission makes of the run.
  pub submit-advance :
      (run run' : SearchRun) (candidate : GeneratedCandidate) (w : W)
      → (submit ports run candidate w).1 ≡ ok run'
      → run' ≡ advance ports run candidate
  unfolding submit
  submit-advance run run' candidate w h = ground arith

  module _ (laws : Accounting) (user run_id : Text) where
    module _ (port : StrategyPort W) (served : ports.strategy_service ≡ some port) where
      -- Either way of a test.
      if_world :
          {A : Type 0} {n : ℕ} (b : Bool) (p q : W × A)
          → load user run_id p.0 ≤ n
          → load user run_id q.0 ≤ n
          → load user run_id (if◌then◌else◌ {A = W × A} b p q).0 ≤ n
      if_world true p q h k = h
      if_world false p q h k = k

      load-remap_strategy :
          (owner : Text) (persisted : List StrategyDefinition) (g : StrategyDefinition) (w : W)
          → load user run_id (remap_strategy port owner persisted g w).0 ≤ load user run_id w
      unfolding remap_strategy
      load-remap_strategy owner persisted g w =
          elim (Option-cases (lookup_by (λ (d : StrategyDefinition). d.id) g.id persisted)) [
            | inl missing ↦ rw (remap_strategy, missing) (omega arith)
            | inr (d, found) ↦ elim (Bool-cases (d.strategy_name == g.strategy_name)) [
              | inr other ↦ rw (remap_strategy, found, other) (omega arith)
              | inl named ↦ elim (Bool-cases (d.parameters == g.parameters)) [
                | inl same ↦ rw (remap_strategy, found, named, same) (omega arith)
                | inr changed ↦ elim (Option-cases port.define_strategy) [
                  | inl missing ↦ rw (remap_strategy, found, named, changed, missing) (omega arith)
                  | inr (define, able) ↦
                      rw (remap_strategy, found, named, changed, able)
                        (laws.defines port define served able owner g.strategy_name g.parameters
                          user run_id w)
                ]
              ]
            ]
          ]

      load-remap_strategies :
          (owner : Text) (persisted gs : List StrategyDefinition) (remapped : List Remapping)
          (w : W)
          → load user run_id (remap_strategies port owner persisted gs remapped w).0
            ≤ load user run_id w
      unfolding remap_strategies
      load-remap_strategies owner persisted [] remapped w = omega arith
      load-remap_strategies owner persisted (g ∷ gs) remapped w =
          let (w', stored) = remap_strategy port owner persisted g w in
          let first = load-remap_strategy owner persisted g w in
          elim (Result-cases stored) [
            | inr (e, fails) ↦ rw (remap_strategies, fails) first
            | inl (id, stores) ↦
                rw (remap_strategies, stores)
                  (omega (
                    arith,
                    first,
                    load-remap_strategies owner persisted gs
                        (set_by (λ (r : Remapping). r.generated_id)
                          (record { generated_id = g.id; stored_id = id }) remapped)
                        w',
                  ))
          ]

      load-store_composite :
          (owner : Text) (candidate : GeneratedCandidate) (remapped : List Remapping) (w : W)
          → load user run_id (store_composite port owner candidate remapped w).0
            ≤ load user run_id w
      unfolding store_composite
      load-store_composite owner candidate remapped w =
          let sent = sent_composite candidate.composite_definition remapped in
          let w' = (port.define_composite owner sent w).0 in
          let first = laws.composes port served owner sent user run_id w in
          elim (Result-cases (port.define_composite owner sent w).1) [
            | inr (e, fails) ↦ rw (store_composite, fails) first
            | inl (persisted, defines) ↦
                elim (Result-cases (port.read_composite owner persisted.id w')) [
                  | inr (e, fails) ↦ rw (store_composite, defines, fails) first
                  | inl (verified, reads) ↦
                      rw (store_composite, defines, reads) (if_world _ _ _ first first)
                ]
          ]

      load-stored_after :
          (owner : Text) (candidate : GeneratedCandidate) (w : W)
          (mapped : Result Error (List Remapping))
          → load user run_id (stored_after port owner candidate w mapped).0 ≤ load user run_id w
      unfolding stored_after
      load-stored_after owner candidate w (err e) = omega arith
      load-stored_after owner candidate w (ok remapped) =
          let same : load user run_id w ≤ load user run_id w = omega arith in
          if_world _ _ _ same (load-store_composite owner candidate remapped w)

      load-store_candidate :
          (owner : Text) (candidate : GeneratedCandidate) (w : W)
          → load user run_id (store_candidate port owner candidate w).0 ≤ load user run_id w
      unfolding store_candidate
      load-store_candidate owner candidate w =
          let generated = candidate.strategy_definitions in
          let ids = map (λ (d : StrategyDefinition). d.id) generated in
          let same : load user run_id w ≤ load user run_id w = omega arith in
          elim (Result-cases (port.read_definitions owner ids w)) [
            | inr (e, fails) ↦ rw (store_candidate, fails) same
            | inl (definitions, reads) ↦
                let (w', mapped) =
                  remap_strategies port owner (by_id [] definitions) generated [] w in
                let stores : load user run_id (stored_after port owner candidate w' mapped).0
                    ≤ load user run_id w =
                  omega (
                    arith,
                    load-stored_after owner candidate w' mapped,
                    load-remap_strategies owner (by_id [] definitions) generated [] w,
                  ) in
                rw (store_candidate, reads) (if_world _ _ _ same stores)
          ]

    load-stored_ids :
        (owner : Text) (candidate : GeneratedCandidate) (w : W)
        → load user run_id (stored_ids ports owner candidate w).0 ≤ load user run_id w
    unfolding stored_ids
    load-stored_ids owner candidate w = elim (Option-cases ports.strategy_service) [
      | inl alone ↦ rw (stored_ids, alone) (omega arith)
      | inr (port, served) ↦
          rw (stored_ids, served) (load-store_candidate port served owner candidate w)
    ]

  module _ (laws : Accounting) where
    -- A submission of a run's candidate puts at most that candidate in flight, and none if it fails.
    pub load-submit :
        (run : SearchRun) (candidate : GeneratedCandidate) (w : W)
        → load run.owner_user_id run.search_run_id (submit ports run candidate w).0
          ≤ load run.owner_user_id run.search_run_id w + accepted (submit ports run candidate w).1
    unfolding submit
    load-submit run candidate w =
        let user = run.owner_user_id in
        let w' = (stored_ids ports user candidate w).0 in
        let first = load-stored_ids laws user run.search_run_id user candidate w in
        elim (Result-cases (stored_ids ports user candidate w).1) [
          | inr (e, fails) ↦ rw (submit, fails) (omega (arith, first))
          | inl (ids, stores) ↦
              let command = command_of ports run candidate ids.0 ids.1 in
              let second = laws.submits user command w' in
              elim (Result-cases (ports.submit_search_candidate user command w').1) [
                | inr (e, fails) ↦
                    rw (submit, stores, fails) (omega (arith, first, rw (fails) at second))
                | inl (u, accepts) ↦
                    rw (submit, stores, accepts) (omega (arith, first, rw (accepts) at second))
              ]
        ]
