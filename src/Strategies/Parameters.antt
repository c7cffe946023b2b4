-- ===== src/Strategies/Parameters.antt =====
-- `validateParameters` and `lookupFactory` of modules/strategy/application/service.ts, and the registry
-- of modules/strategy/domain/plugins.ts.
use cryptox.Base.{
  ◌==◌, Bool, true, false, not, ◌&&◌, ◌||◌, if◌then◌else◌, Option, none, some, List, [], ◌∷◌, ◌++◌,
  any, all, keep, find_first, lookup_by, set_by, ℤ, ltb_ℤ, is_integer, Result, ok, err, ◌>>=◌, ◌>>◌,
  throw_if, Text, Codes, codes, same, trim, is_space,
}
use cryptox.Strategies.Records.{
  Value, number, text, other, Parameter, ParameterType, integer, decimal, enum, ParameterDescriptor,
  Factory, StrategyFault, invalid_strategy_parameters,
}

abbrev pub is_plain : Value → Bool
is_plain (number none) = false
is_plain (number (some v)) = true
is_plain (text s) = true
is_plain other = false

abbrev pub key_of : Parameter → Text
key_of p = p.key

abbrev pub is_declared : List ParameterDescriptor → Parameter → Bool
is_declared descriptors p = any (λ (d : ParameterDescriptor). d.key == p.key) descriptors

abbrev pub or_default : Option Parameter → Option Value → Option Value
or_default none value = value
or_default (some p) value = some p.value

abbrev pub is_below : Option ℤ → ℤ → Bool
is_below none v = false
is_below (some minimum) v = ltb_ℤ v minimum

abbrev pub is_above : Option ℤ → ℤ → Bool
is_above none v = false
is_above (some maximum) v = ltb_ℤ maximum v

abbrev pub is_option : Option (List Codes) → Codes → Bool
is_option none s = false
is_option (some options) s = any (λ o. same o s) options

abbrev is_integer_type : ParameterType → Bool
is_integer_type integer = true
is_integer_type kind = false

-- A value against its descriptor; `none` is undefined.
unfoldable pub checked_value : ParameterDescriptor → Option Value → Result StrategyFault Value
checked_value d none = err invalid_strategy_parameters
checked_value d (some (text s)) = elim d.kind [
  | enum ↦ if is_option d.options s then ok (text s) else err invalid_strategy_parameters
  | integer ↦ err invalid_strategy_parameters
  | decimal ↦ err invalid_strategy_parameters
]
checked_value d (some (number (some v))) = elim d.kind [
  | enum ↦ err invalid_strategy_parameters
  | kind ↦
      if is_integer_type d.kind && not (is_integer v)
      then err invalid_strategy_parameters
      else if is_below d.minimum v || is_above d.maximum v
      then err invalid_strategy_parameters
      else ok (number (some v))
]
checked_value d (some (number none)) = err invalid_strategy_parameters
checked_value d (some other) = err invalid_strategy_parameters

-- The loop over the descriptors.
unfoldable pub normalize :
    List Parameter
    → List ParameterDescriptor
    → List Parameter
    → Result StrategyFault (List Parameter)
normalize values [] normalized = ok normalized
normalize values (d ∷ descriptors) normalized =
    checked_value d (or_default (lookup_by key_of d.key values) d.default_value) >>= λ value.
    normalize values descriptors (set_by key_of (record { key = d.key; value = value }) normalized)

-- `none` is no plain record.
unfoldable pub validate_parameters :
    Factory → Option (List Parameter) → Result StrategyFault (List Parameter)
validate_parameters factory none = err invalid_strategy_parameters
validate_parameters factory (some values) = do
  throw_if (not (all (λ (p : Parameter). is_plain p.value) values)) invalid_strategy_parameters
  throw_if (not (all (is_declared factory.descriptor.parameters) values))
      invalid_strategy_parameters
  normalized ← normalize values factory.descriptor.parameters []
  throw_if (not (factory.accepts normalized)) invalid_strategy_parameters
  ok normalized

abbrev pub same_artifact : Codes → Text → Factory → Bool
same_artifact name sha factory =
    same factory.descriptor.name name && factory.descriptor.implementation_sha256 == sha

-- An artifact under a key that is taken changes nothing.
unfoldable pub register : Factory → List Factory → List Factory
register factory factories =
    if any (same_artifact factory.descriptor.name factory.descriptor.implementation_sha256)
      factories
    then factories
    else factories ++ factory ∷ []

unfoldable pub get_factory : Codes → Text → List Factory → Option Factory
get_factory name sha factories = find_first (same_artifact name sha) factories

abbrev pub named : Codes → Factory → Bool
named name factory = same factory.descriptor.name name

-- White space, `_` and `-` are taken out.
abbrev pub clean : (Codes → Codes) → Codes → Codes
clean to_upper name = keep (λ c. not (is_space c || c == b'_' || c == b'-')) (to_upper name)

abbrev pub is_alias : Codes → Codes → Bool
is_alias k raw =
    same k raw
    || (same k (codes "BOLLINGER")
        && (same raw (codes "BOLLINGERBANDS") || same raw (codes "BOLLINGERBAND")))
    || (same k (codes "MA")
        && (same raw (codes "MOVINGAVERAGE")
            || same raw (codes "MOVINGAVERAGECROSS")
            || same raw (codes "MACROSS")))
    || (same k (codes "SUPPORTRESISTANCE")
        && (same raw (codes "SUPPORTANDRESISTANCE") || same raw (codes "SUPPRES")))

abbrev or_else : Option Factory → Option Factory → Option Factory
or_else none rest = rest
or_else (some factory) rest = some factory

-- `factories` has one factory for each name.
unfoldable pub lookup_factory :
    (Codes → Codes) → (Codes → Codes) → List Factory → Codes → Option Factory
lookup_factory to_upper to_lower factories name = or_else (find_first (named name) factories) (
    or_else (find_first (named (to_upper name)) factories) (
      or_else
        (find_first
          (λ (f : Factory).
            is_alias (clean to_upper f.descriptor.name) (clean to_upper (trim name)))
          factories)
        (find_first (λ (f : Factory). same (to_lower f.descriptor.name) (to_lower name))
          factories)))
