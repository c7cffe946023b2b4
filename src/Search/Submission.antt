-- ===== src/Search/Submission.antt =====
-- `submit` of modules/search/application/service.ts: a generated candidate is stored with the
-- strategy module, where there is one, and submitted to the backtests.
use cryptox.Base.{
  ◌+◌, ◌==◌, Bool, true, false, not, ◌&&◌, ◌||◌, if◌then◌else◌, Option, none, some, List, [], ◌∷◌,
  leb_ℤ, map, Result, ok, err, Text, is_empty, length, any, lookup_by, set_by, distinct, ◌++◌,
}
use cryptox.Search.Types.{
  Error, invalid_search_config, StrategyDefinition, Component, Composite, GeneratedCandidate,
  SearchRun, CandidateCommand,
}
use cryptox.Search.Rules.{is_owned_by}
use cryptox.Search.Ports.{StrategyPort, Ports}

-- A map from the ids of generated definitions to those of the stored ones.
pub record Remapping : Type 0 where
  pub generated_id : Text
  pub stored_id : Text

abbrev pub remapped_id : Text → List Remapping → Option Text
remapped_id id remapped = elim (lookup_by (λ (r : Remapping). r.generated_id) id remapped) [
  | none ↦ none
  | some r ↦ some r.stored_id
]

abbrev pub or_same : Text → Option Text → Text
or_same id none = id
or_same id (some t) = t

abbrev pub present : List (Option Text) → List Text
present [] = []
present (none ∷ ts) = present ts
present (some t ∷ ts) = if is_empty t then present ts else t ∷ present ts

-- `new Map(definitions.map(...))`
abbrev pub by_id : List StrategyDefinition → List StrategyDefinition → List StrategyDefinition
by_id acc [] = acc
by_id acc (d ∷ ds) = by_id (set_by (λ (e : StrategyDefinition). e.id) d acc) ds

-- Whether a stored component is not the one that was sent.
abbrev pub differs : List Remapping → Component → Component → Bool
differs remapped stored sent =
    not (
      stored.strategy_definition_id
      == or_same sent.strategy_definition_id (remapped_id sent.strategy_definition_id remapped))
    || not (leb_ℤ stored.weight sent.weight && leb_ℤ sent.weight stored.weight)

abbrev pub some_differ : List Remapping → List Component → List Component → Bool
some_differ remapped [] sent = false
some_differ remapped (c ∷ cs) [] = true
some_differ remapped (c ∷ cs) (d ∷ ds) = differs remapped c d || some_differ remapped cs ds

-- The composite with the ids of the stored definitions.
abbrev pub sent_composite : Composite → List Remapping → Composite
sent_composite composite remapped = record composite {
  components =
      map
        (λ (c : Component). record c {
          strategy_definition_id =
              or_same c.strategy_definition_id (remapped_id c.strategy_definition_id remapped);
        })
        composite.components;
}

module _ {W : Type 0} (port : StrategyPort W) where
  -- The id that a generated definition is stored under: the persisted one with the same
  -- parameters, or that of a new definition.
  unfoldable pub remap_strategy :
      Text → List StrategyDefinition → StrategyDefinition → W → W × Result Error Text
  remap_strategy owner persisted generated w =
      elim (lookup_by (λ (d : StrategyDefinition). d.id) generated.id persisted) [
        | none ↦ (w, err invalid_search_config)
        | some d ↦
            if not (d.strategy_name == generated.strategy_name)
            then (w, err invalid_search_config)
            else if d.parameters == generated.parameters
            then (w, ok d.id)
            else elim port.define_strategy [
              | none ↦ (w, err invalid_search_config)
              | some define ↦
                  let (w', created) = define owner generated.strategy_name generated.parameters w in
                  (
                    w',
                    elim created [
                      | err e ↦ err e
                      | ok c ↦ if is_owned_by owner c then ok c.id else err invalid_search_config
                    ],
                  )
            ]
      ]

  unfoldable pub remap_strategies :
      Text
      → List StrategyDefinition
      → List StrategyDefinition
      → List Remapping
      → W
      → W × Result Error (List Remapping)
  unfolding remap_strategy
  remap_strategies owner persisted [] remapped w = (w, ok remapped)
  remap_strategies owner persisted (g ∷ gs) remapped w =
      let (w', stored) = remap_strategy owner persisted g w in
      elim stored [
        | err e ↦ (w', err e)
        | ok id ↦
            remap_strategies owner persisted gs
              (set_by (λ (r : Remapping). r.generated_id)
                (record { generated_id = g.id; stored_id = id }) remapped)
              w'
      ]

  -- Lines 174 to 181: the composite is defined and read back.
  unfoldable pub store_composite :
      Text → GeneratedCandidate → List Remapping → W → W × Result Error Text
  store_composite owner candidate remapped w =
      let composite = candidate.composite_definition in
      let (w', defined) = port.define_composite owner (sent_composite composite remapped) w in
      elim defined [
        | err e ↦ (w', err e)
        | ok persisted ↦ elim (port.read_composite owner persisted.id w') [
          | err e ↦ (w', err e)
          | ok verified ↦
              if not (verified.user_id == owner)
                || not (length verified.components == length composite.components)
                || some_differ remapped verified.components composite.components
              then (w', err invalid_search_config)
              else (w', ok verified.id)
        ]
      ]

  -- Lines 172 to 181, after the loop over the definitions.
  unfoldable pub stored_after :
      Text
      → GeneratedCandidate
      → W
      → Result Error (List Remapping)
      → W × Result Error (List Text × Text)
  unfolding store_composite
  stored_after owner candidate w (err e) = (w, err e)
  stored_after owner candidate w (ok remapped) =
      let stored = present (
        map (λ (d : StrategyDefinition). remapped_id d.id remapped)
          candidate.strategy_definitions) in
      if not (length stored == length candidate.strategy_definitions)
      then (w, err invalid_search_config)
      else let (w', composite) = store_composite owner candidate remapped w in
        (w', elim composite [ err e ↦ err e | ok id ↦ ok (stored, id) ])

  -- The ids of the stored definitions, and of the stored composite.
  unfoldable pub store_candidate :
      Text → GeneratedCandidate → W → W × Result Error (List Text × Text)
  unfolding remap_strategies stored_after
  store_candidate owner candidate w =
      let generated = candidate.strategy_definitions in
      let ids = map (λ (d : StrategyDefinition). d.id) generated in
      elim (port.read_definitions owner ids w) [
        | err e ↦ (w, err e)
        | ok definitions ↦
            if not (length definitions == length ids)
              || any (λ d. not (is_owned_by owner d)) definitions
            then (w, err invalid_search_config)
            else let (w', mapped) = remap_strategies owner (by_id [] definitions) generated [] w in
              stored_after owner candidate w' mapped
      ]

module _ {W : Type 0} (ports : Ports W) where
  -- Where there is no strategy service, the generated ids stay.
  unfoldable pub stored_ids : Text → GeneratedCandidate → W → W × Result Error (List Text × Text)
  unfolding store_candidate
  stored_ids owner candidate w = elim ports.strategy_service [
    | none ↦ (
      w,
      ok (
        map (λ (d : StrategyDefinition). d.id) candidate.strategy_definitions,
        candidate.composite_definition.id,
      ),
    )
    | some port ↦ store_candidate port owner candidate w
  ]

  abbrev pub command_of : SearchRun → GeneratedCandidate → List Text → Text → CandidateCommand
  command_of run candidate strategy_ids composite_id = record {
    leaderboard_scope_id = run.leaderboard_scope_id;
    strategy_definition_ids = strategy_ids;
    composite_definition_id = composite_id;
    execution_policy = candidate.execution_policy_intent;
    max_attempts = 1;
    search_run_id = run.search_run_id;
    iteration_number = run.next_iteration;
    generated_by = candidate.generated_by;
    fingerprint = candidate.fingerprint;
    lineage = candidate.lineage;
  }

  abbrev pub advance : SearchRun → GeneratedCandidate → SearchRun
  advance run candidate = record run {
    search_space = record run.search_space {
      generated_fingerprints =
          distinct (run.search_space.generated_fingerprints ++ candidate.fingerprint ∷ []);
    };
    next_iteration = run.next_iteration + 1;
  }

  -- The run changes only where the submission is accepted.
  unfoldable pub submit : SearchRun → GeneratedCandidate → W → W × Result Error SearchRun
  unfolding stored_ids distinct
  submit run candidate w =
      let (w', stored) = stored_ids run.owner_user_id candidate w in
      elim stored [
        | err e ↦ (w', err e)
        | ok ids ↦
            let (w'', accepted) =
              ports.submit_search_candidate run.owner_user_id (command_of run candidate ids.0 ids.1)
                w' in
            (w'', elim accepted [ err e ↦ err e | ok u ↦ ok (advance run candidate) ])
      ]
