-- ===== src/Strategies/Tests.antt =====
-- Strategies that are defined, combined and generated, and the theorems at them.
use cryptox.Base.{
  Ensures, ℕ, ◌+◌, ◌^◌, ◌≡◌, refl, true, false, Option, none, some, List, [], ◌∷◌, ℤ, pos, ◌+ℤ◌,
  ◌-ℤ◌, neg_ℤ, one, whole, is_integer, tmod, Result, ok, err, ◌>>=◌, ◌>>◌, throw_if, Text, Codes,
  codes, lookup_by, set_by, all, no_clash, trim, sort_by, insert_by, nat_abs,
}
use cryptox.Strategies.Records.{
  buy, hold, number, Parameter, integer, Factory, Definition, majority_vote, weighted_score,
  Component, Composite, Store, StrategyFault, invalid_strategy_parameters, ownership_mismatch,
  three_tenths, tolerance, default_thresholds,
}
use cryptox.Strategies.Parameters.{
  checked_value, normalize, validate_parameters, lookup_factory, is_declared,
}
use cryptox.Strategies.Service.{
  insert_definition, find_definition, list_by_logical_family, new_definition, prepare_among,
  prepare_strategy, define_strategy, delete_definition,
}
use cryptox.Strategies.CompositeStore.{insert_composite, list_composite_family}
use cryptox.Strategies.Composites.{
  CompositeCommand, Content, require_owned_definition, require_all, content_of,
  prepare_composite_among, prepare_composite, define_composite,
}
use cryptox.Strategies.Signals.{select, weighted, score, by_score, combine_signals}
use cryptox.Strategies.Generation.{Proposal, composed, Generated, prepare_components, generate}
use cryptox.Strategies.Artifacts.{Retained, exact_factory, resolve_retained_factory, are_exact}
use cryptox.Strategies.Pinning.{IsPinned, resolve_retained_factory-IsPinned}
use cryptox.Strategies.Bounds.{AllFit, validate_parameters-AllFit}
use cryptox.Strategies.Families.{clash}
use cryptox.Strategies.Library.{define_strategy-IsLibrary}
use cryptox.Strategies.Versions.{generate-same_version}

abbrev rsi : Factory
rsi = record {
  descriptor = record {
    name = codes "RSI";
    display_name = 20;
    implementation_version = 21;
    implementation_sha256 = 22;
    parameters =
        record {
          key = 11;
          kind = integer;
          required = true;
          default_value = some (number (some (whole 14)));
          minimum = some (whole 2);
          maximum = some (whole 200);
          options = none;
        }
        ∷ [];
  };
  accepts = λ parameters. true;
}

abbrev period : ℕ → List Parameter
period n = record { key = 11; value = number (some (whole n)) } ∷ []

-- The first number in place of a hash.
abbrev digest : Codes → Text → List Parameter → Text
digest name sha [] = 0
digest name sha (p ∷ parameters) = elim p.value [ number (some v) ↦ nat_abs v | value ↦ 0 ]

abbrev digest_content : Content → Text
digest_content content = 0

abbrev plus : Option ℤ → Option ℤ → Option ℤ
plus none b = none
plus (some a) none = none
plus (some a) (some b) = some (a +ℤ b)

abbrev find : Codes → Option Factory
find = lookup_factory (λ s. s) (λ s. s) (rsi ∷ [])

abbrev empty_store : Store
empty_store = record { definitions = []; composites = []; generations = [] }

fourteen : validate_parameters rsi (some []) ≡ ok (period 14)
unfolding validate_parameters normalize checked_value is_integer tmod one lookup_by set_by ◌>>=◌
    ◌>>◌ throw_if
fourteen = refl

too_long : validate_parameters rsi (some (period 201)) ≡ err invalid_strategy_parameters
unfolding validate_parameters normalize checked_value is_integer tmod one lookup_by set_by ◌>>=◌
    ◌>>◌ throw_if
too_long = refl

abbrev definition : Text → ℕ → ℕ → Definition
definition id version n = record {
  id = id;
  user_id = 5;
  logical_family_key = codes "strategy:RSI";
  family_name = 20;
  strategy_name = codes "RSI";
  implementation_version = 21;
  implementation_sha256 = 22;
  version = version;
  parameters = period n;
  created_at = 9;
}

abbrev first_store : Store
first_store = record empty_store {
  definitions = record { owner_user_id = 5; value = definition 100 1 14 } ∷ [];
}

abbrev second_store : Store
second_store = record empty_store {
  definitions =
      record { owner_user_id = 5; value = definition 100 1 14 }
      ∷ record { owner_user_id = 5; value = definition 101 2 20 }
      ∷ [];
}

defines :
    define_strategy digest find 5 (codes "R-SI") (some (period 20)) 101 9 first_store
    ≡ ok (definition 101 2 20, second_store)
unfolding define_strategy prepare_strategy prepare_among new_definition list_by_logical_family
    insert_definition lookup_factory trim validate_parameters normalize checked_value is_integer
    tmod one lookup_by set_by ◌>>=◌ ◌>>◌ throw_if
defines = refl

deletes : delete_definition 6 100 first_store ≡ ok (false, first_store)
unfolding delete_definition
deletes = refl

abbrev half : Text → Component
half id = record { strategy_definition_id = id; weight = some (pos (2 ^ 1073)) }

abbrev command : CompositeCommand
command = record {
  method = weighted_score;
  components = half 100 ∷ half 101 ∷ [];
  thresholds = none;
}

abbrev composite : Composite
composite = record {
  id = 300;
  user_id = 5;
  logical_family_key = record { method = weighted_score; ids = 100 ∷ 101 ∷ [] };
  version = 1;
  method = weighted_score;
  components = half 100 ∷ half 101 ∷ [];
  thresholds = some default_thresholds;
  created_at = 9;
}

composes :
    define_composite digest_content plus 5 command 300 9 second_store
    ≡ ok (
      composite,
      record second_store { composites = record { owner_user_id = 5; value = composite } ∷ [] },
    )
unfolding define_composite prepare_composite prepare_composite_among content_of require_all
    require_owned_definition find_definition list_composite_family insert_composite sort_by
    insert_by tolerance three_tenths ◌+ℤ◌ ◌-ℤ◌ neg_ℤ one lookup_by set_by ◌>>=◌ ◌>>◌ throw_if
composes = refl

foreign : define_composite digest_content plus 6 command 300 9 second_store ≡ err ownership_mismatch
unfolding define_composite prepare_composite require_all require_owned_definition find_definition
    lookup_by ◌>>=◌ ◌>>◌ throw_if
foreign = refl

combines :
    combine_signals plus composite (
      record { strategy_definition_id = 101; signal = buy }
      ∷ record { strategy_definition_id = 100; signal = hold }
      ∷ [])
    ≡ buy
unfolding combine_signals score weighted select by_score three_tenths ◌+ℤ◌
combines = refl

abbrev proposal : Proposal
proposal =
    composed
      (record { strategy_name = codes "RSI"; parameters = period 30; weight = some (pos 0) }
        ∷ record { strategy_name = codes "RSI"; parameters = period 40; weight = some (pos 0) }
        ∷ [])
      majority_vote default_thresholds

abbrev generated : Result StrategyFault Generated
generated = generate digest find digest_content plus (λ n. 400 + n) 500 5 proposal 9 first_store

abbrev made : Generated
made = record {
  definitions = definition 400 2 30 ∷ definition 401 2 40 ∷ [];
  composite = some (record composite {
    id = 500;
    logical_family_key = record { method = majority_vote; ids = 400 ∷ 401 ∷ [] };
    method = majority_vote;
    components =
        record { strategy_definition_id = 400; weight = some (pos 0) }
        ∷ record { strategy_definition_id = 401; weight = some (pos 0) }
        ∷ [];
  });
}

generates : generated ≡ ok made
unfolding generate prepare_components prepare_strategy prepare_among new_definition
    list_by_logical_family lookup_factory trim validate_parameters normalize checked_value
    is_integer tmod one prepare_composite prepare_composite_among content_of require_all
    require_owned_definition find_definition list_composite_family sort_by insert_by three_tenths
    lookup_by set_by ◌>>=◌ ◌>>◌ throw_if
generates = refl

validate_parameters-AllFit_example :
    AllFit [] rsi.descriptor.parameters (period 14)
    × (rsi.accepts (period 14) ≡ true)
    × (all (is_declared rsi.descriptor.parameters) [] ≡ true)
validate_parameters-AllFit_example = validate_parameters-AllFit rsi [] (period 14) refl fourteen

define_strategy-IsLibrary_example :
    (no_clash (clash digest) second_store.definitions ≡ true)
    × (define_strategy digest find 5 (codes "R-SI") (some (period 20)) 102 19 second_store
        ≡ ok (definition 101 2 20, second_store))
unfolding lookup_by
define_strategy-IsLibrary_example =
    define_strategy-IsLibrary digest find 5 (codes "R-SI") (some (period 20)) 101 9 102 19
      first_store second_store (definition 101 2 20) refl refl defines

generate-same_version_example : (definition 400 2 30).version ≡ (definition 401 2 40).version
generate-same_version_example =
    generate-same_version digest find digest_content plus (λ n. 400 + n) 500 5 proposal 9
      first_store made 0 1 (definition 400 2 30) (definition 401 2 40) generates refl refl refl

-- Resolved once, and read again where the resolver has nothing.
abbrev rsi_retained : List Retained
rsi_retained =
    record { strategy_name = codes "RSI"; implementation_sha256 = 22; factory = rsi } ∷ []

resolves :
    resolve_retained_factory (λ name sha. some rsi) (definition 100 1 14) []
    ≡ (ok rsi, rsi_retained)
unfolding resolve_retained_factory exact_factory
resolves = refl

again :
    resolve_retained_factory (λ name sha. none) (definition 101 2 20) rsi_retained
    ≡ (ok rsi, rsi_retained)
unfolding resolve_retained_factory
again = refl

resolve_retained_factory-IsPinned_example :
    (are_exact (resolve_retained_factory (λ name sha. some rsi) (definition 100 1 14) []).1 ≡ true)
    × Ensures
        (IsPinned (definition 100 1 14))
        (resolve_retained_factory (λ name sha. some rsi) (definition 100 1 14) []).0
resolve_retained_factory-IsPinned_example =
    resolve_retained_factory-IsPinned (λ name sha. some rsi) (definition 100 1 14) [] refl
