-- ===== src/Strategies/Service.antt =====
-- modules/strategy/application/service.ts: the repositories in memory, and the operations that define,
-- read and delete strategies and composites.
use cryptox.Base.{
  ℕ, suc, ◌==◌, leb, max, Bool, true, false, not, ◌&&◌, ◌||◌, if◌then◌else◌, Option, none, some,
  List, [], ◌∷◌, ◌++◌, map, any, keep, find_first, sort_by, lookup_by, set_by, Result, ok, err,
  ◌>>=◌, ◌>>◌, throw_if, Text, is_blank, Codes, codes, same,
}
use cryptox.Strategies.Records.{
  Parameter, Factory, Definition, Composite, OwnedDefinition, OwnedComposite, Store, StrategyFault,
  invalid_user, strategy_not_registered, strategy_definition_not_found, validation_error,
  definition_id,
}
use cryptox.Strategies.Parameters.{validate_parameters}

abbrev pub owns : Text → OwnedDefinition → Bool
owns user item = item.owner_user_id == user

abbrev pub owns_composite : Text → OwnedComposite → Bool
owns_composite user item = item.owner_user_id == user

abbrev pub value_of : OwnedDefinition → Definition
value_of item = item.value

abbrev composite_of : OwnedComposite → Composite
composite_of item = item.value

abbrev pub owned_by : Text → Definition → OwnedDefinition
owned_by user d = record { owner_user_id = user; value = record d { user_id = user } }

unfoldable pub insert_definition : Text → Definition → Store → Store
insert_definition user d s = record s {
  definitions = set_by definition_id (owned_by user d) s.definitions;
}

abbrev is_older : Definition → Definition → Bool
is_older a b =
    not (leb b.created_at a.created_at) || (a.created_at == b.created_at && leb a.id b.id)

unfoldable pub list_definitions : Text → Store → List Definition
list_definitions user s = sort_by is_older (map value_of (keep (owns user) s.definitions))

abbrev owned_value : Text → Option OwnedDefinition → Option Definition
owned_value user none = none
owned_value user (some item) = if owns user item then some item.value else none

-- `listByIds` for one id.
unfoldable pub find_definition : Text → Text → Store → Option Definition
find_definition user id s = owned_value user (lookup_by definition_id id s.definitions)

abbrev pub in_family : Text → Codes → OwnedDefinition → Bool
in_family user key item = owns user item && same item.value.logical_family_key key

unfoldable pub list_by_logical_family : Text → Codes → Store → List Definition
list_by_logical_family user key s = map value_of (keep (in_family user key) s.definitions)

unfoldable pub get_definition : Text → Text → Store → Result StrategyFault Definition
get_definition user id s = elim (find_definition user id s) [
  | none ↦ err strategy_definition_not_found
  | some d ↦ ok d
]

unfoldable pub read_definitions : Text → List Text → Store → Result StrategyFault (List Definition)
read_definitions user [] s = ok []
read_definitions user (id ∷ ids) s =
    get_definition user id s >>= λ d. read_definitions user ids s >>= λ ds. ok (d ∷ ds)

abbrev is_other_or_foreign : Text → Text → OwnedDefinition → Bool
is_other_or_foreign user id item = not (item.value.id == id && owns user item)

-- Whether anything was deleted. `id` has no white space around it.
unfoldable pub delete_definition : Text → Text → Store → Result StrategyFault (Bool × Store)
delete_definition user id s =
    if is_blank user || is_blank id
    then err validation_error
    else ok (
      any (λ item. not (is_other_or_foreign user id item)) s.definitions,
      record s { definitions = keep (is_other_or_foreign user id) s.definitions },
    )

abbrev pub latest_version : List ℕ → ℕ
latest_version [] = 0
latest_version (v ∷ versions) = max v (latest_version versions)

abbrev pub version_of : Definition → ℕ
version_of d = d.version

-- A definition that is there, or a new one that is not stored yet.
pub record Prepared : Type 0 where
  pub definition : Definition
  pub is_new : Bool

abbrev pub family_key : Codes → Codes
family_key name = codes "strategy:" ++ name

abbrev pub registered : Option Factory → Result StrategyFault Factory
registered none = err strategy_not_registered
registered (some factory) = ok factory

-- A hash of the strategy's name, the hash of its code and the parameters.
module _ (digest : Codes → Text → List Parameter → Text) where
  abbrev pub digest_of : Definition → Text
  digest_of d = digest d.strategy_name d.implementation_sha256 d.parameters

  abbrev pub has_digest : Text → Definition → Bool
  has_digest hash d = digest_of d == hash

  unfoldable pub new_definition :
      Text → Factory → List Parameter → List Definition → Text → Text → Definition
  new_definition user factory normalized prior id now = record {
    id = id;
    user_id = user;
    logical_family_key = family_key factory.descriptor.name;
    family_name = factory.descriptor.display_name;
    strategy_name = factory.descriptor.name;
    implementation_version = factory.descriptor.implementation_version;
    implementation_sha256 = factory.descriptor.implementation_sha256;
    version = suc (latest_version (map version_of prior));
    parameters = normalized;
    created_at = now;
  }

  unfoldable pub prepare_among :
      Text → Factory → List Parameter → List Definition → Text → Text → Prepared
  prepare_among user factory normalized prior id now =
      elim (find_first
        (has_digest
          (digest factory.descriptor.name factory.descriptor.implementation_sha256 normalized))
        prior) [
          | some existing ↦ record { definition = existing; is_new = false }
          | none ↦ record {
            definition = new_definition user factory normalized prior id now;
            is_new = true;
          }
        ]

  -- `find` is `lookupFactory`, `id` and `now` a new identifier and the time.
  unfoldable pub prepare_strategy :
      (Codes → Option Factory)
      → Text
      → Codes
      → Option (List Parameter)
      → Text
      → Text
      → Store
      → Result StrategyFault Prepared
  prepare_strategy find user name parameters id now s = do
    throw_if (is_blank user) invalid_user
    factory ← registered (find name)
    normalized ← validate_parameters factory parameters
    ok (
        prepare_among user factory normalized
          (list_by_logical_family user (family_key factory.descriptor.name) s) id now)

  abbrev pub store_prepared : Text → Store → Prepared → Definition × Store
  store_prepared user s p =
      if p.is_new
      then ((owned_by user p.definition).value, insert_definition user p.definition s)
      else (p.definition, s)

  unfoldable pub define_strategy :
      (Codes → Option Factory)
      → Text
      → Codes
      → Option (List Parameter)
      → Text
      → Text
      → Store
      → Result StrategyFault (Definition × Store)
  define_strategy find user name parameters id now s =
      prepare_strategy find user name parameters id now s >>= λ p. ok (store_prepared user s p)
