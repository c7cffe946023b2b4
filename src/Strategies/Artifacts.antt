-- ===== src/Strategies/Artifacts.antt =====
-- The factories that modules/strategy/application/service.ts has resolved for stored definitions, and
-- retains: `exactFactory`, `resolveRetainedFactory` and `resolveRetainedFactorySync`.
use cryptox.Base.{
  ◌==◌, Bool, true, ◌&&◌, if◌then◌else◌, Option, none, some, List, [], ◌∷◌, ◌++◌, find_first,
  Result, ok, err, Text, Codes, same,
}
use cryptox.Strategies.Records.{Factory, Definition}
use cryptox.Strategies.Parameters.{same_artifact}

-- IMPLEMENTATION_ARTIFACT_UNAVAILABLE.
pub data Unavailable : Type 0 where
  implementation_artifact_unavailable : Unavailable

-- A factory under `<name>:<hash>`.
pub record Retained : Type 0 where
  pub strategy_name : Codes
  pub implementation_sha256 : Text
  pub factory : Factory

abbrev pub is_retained_for : Definition → Retained → Bool
is_retained_for d r =
    same r.strategy_name d.strategy_name && r.implementation_sha256 == d.implementation_sha256

unfoldable pub exact_factory : Definition → Option Factory → Result Unavailable Factory
exact_factory d none = err implementation_artifact_unavailable
exact_factory d (some factory) =
    if same_artifact d.strategy_name d.implementation_sha256 factory
    then ok factory
    else err implementation_artifact_unavailable

abbrev pub retain :
    Definition
    → Result Unavailable Factory
    → List Retained
    → Result Unavailable Factory × List Retained
retain d (err e) retained = (err e, retained)
retain d (ok factory) retained = (
  ok factory,
  retained
      ++ record {
        strategy_name = d.strategy_name;
        implementation_sha256 = d.implementation_sha256;
        factory = factory;
      }
        ∷ [],
)

-- `resolve` is the resolver of artifacts, with `none` where it finds none or throws.
unfoldable pub resolve_retained_factory :
    (Codes → Text → Option Factory)
    → Definition
    → List Retained
    → Result Unavailable Factory × List Retained
resolve_retained_factory resolve d retained = elim (find_first (is_retained_for d) retained) [
  | some r ↦ (ok r.factory, retained)
  | none ↦ retain d (exact_factory d (resolve d.strategy_name d.implementation_sha256)) retained
]

-- Every retained factory is that of its name and hash.
abbrev pub are_exact : List Retained → Bool
are_exact [] = true
are_exact (r ∷ retained) =
    same_artifact r.strategy_name r.implementation_sha256 r.factory && are_exact retained
