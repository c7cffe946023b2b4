-- ===== src/Strategies/Generation.antt =====
-- `generateStrategy` of modules/strategy/application/service.ts, from the proposal of the model on, and
-- the commit of what it generated.
use cryptox.Base.{
  ℕ, length, Option, none, some, List, [], ◌∷◌, ◌++◌, if◌then◌else◌, ℤ, Result, ok, ◌>>=◌, Text,
  Codes, set_by, map,
}
use cryptox.Strategies.Records.{
  Parameter, Factory, Definition, CombinationMethod, Component, Thresholds, Composite, Store,
  StrategyFault,
}
use cryptox.Strategies.Service.{Prepared, prepare_strategy, insert_definition}
use cryptox.Strategies.CompositeStore.{insert_composite}
use cryptox.Strategies.Composites.{Content, prepare_composite}

pub record ProposedComponent : Type 0 where
  pub strategy_name : Codes
  pub parameters : List Parameter
  pub weight : Option ℤ

pub data Proposal : Type 0 where
  single : Codes → List Parameter → Proposal
  composed : List ProposedComponent → CombinationMethod → Thresholds → Proposal

-- What a generation commits.
pub record Generated : Type 0 where
  pub definitions : List Definition
  pub composite : Option Composite

abbrev pub new_ones : Prepared → List Definition → List Definition
new_ones p definitions = if p.is_new then definitions ++ p.definition ∷ [] else definitions

abbrev definition_ids : List Definition → List Text
definition_ids definitions = map (λ (d : Definition). d.id) definitions

-- The definitions that are new, and the components of the composite.
pub record Gathered : Type 0 where
  pub definitions : List Definition
  pub components : List Component

module _ (digest : Codes → Text → List Parameter → Text) (find : Codes → Option Factory) where
  -- The loop over the components. `id n` is the new identifier for the n-th.
  unfoldable pub prepare_components :
      (ℕ → Text)
      → Text
      → Text
      → Store
      → List ProposedComponent
      → Gathered
      → Result StrategyFault Gathered
  prepare_components id user now s [] gathered = ok gathered
  prepare_components id user now s (c ∷ components) gathered =
      prepare_strategy digest find user c.strategy_name (some c.parameters)
        (id (length gathered.components)) now s
      >>= λ p. prepare_components id user now s components (record {
        definitions = new_ones p gathered.definitions;
        components =
            gathered.components
            ++ record { strategy_definition_id = p.definition.id; weight = c.weight } ∷ [];
      })

  unfoldable pub generate :
      (Content → Text)
      → (Option ℤ → Option ℤ → Option ℤ)
      → (ℕ → Text)
      → Text
      → Text
      → Proposal
      → Text
      → Store
      → Result StrategyFault Generated
  generate digest_content plus id new_id user (single name parameters) now s =
      prepare_strategy digest find user name (some parameters) new_id now s >>= λ p.
      ok (record { definitions = new_ones p []; composite = none })
  generate digest_content plus id new_id user (composed components method thresholds) now s =
      prepare_components id user now s components (record { definitions = []; components = [] })
      >>= λ gathered.
          prepare_composite digest_content plus (definition_ids gathered.definitions) user
            (record {
              method = method;
              components = gathered.components;
              thresholds = some thresholds;
            })
            new_id now s
          >>= λ p. ok (record { definitions = gathered.definitions; composite = some p.definition })

unfoldable pub insert_definitions : Text → List Definition → Store → Store
insert_definitions user [] s = s
insert_definitions user (d ∷ definitions) s =
    insert_definitions user definitions (insert_definition user d s)

abbrev insert_some : Text → Option Composite → Store → Store
insert_some user none s = s
insert_some user (some c) s = insert_composite user c s

abbrev generation_id : Text → Text
generation_id id = id

-- Writing to the maps does not fail, so nothing is rolled back.
unfoldable pub commit : Text → Generated → Text → Store → Store
commit user g audit_id s =
    let s' = insert_some user g.composite (insert_definitions user g.definitions s) in
    record s' { generations = set_by generation_id audit_id s'.generations }
