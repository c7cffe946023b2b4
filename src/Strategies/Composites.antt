-- ===== src/Strategies/Composites.antt =====
-- How composites are defined: `prepareComposite` and `defineComposite` of
-- modules/strategy/application/service.ts.
use cryptox.Base.{
  ℕ, suc, ◌==◌, leb, Bool, true, false, not, ◌&&◌, ◌||◌, if◌then◌else◌, Option, none, some, List,
  [], ◌∷◌, map, any, all, find_first, sort_by, lookup_by, ℤ, pos, ◌-ℤ◌, ltb_ℤ, leb_ℤ, neg_ℤ, one,
  whole, Result, ok, err, ◌>>=◌, ◌>>◌, throw_if, Text, is_blank,
}
use cryptox.Strategies.Records.{
  CombinationMethod, majority_vote, weighted_score, unknown, Component, Thresholds, CompositeKey,
  Composite, Store, StrategyFault, ownership_mismatch, unknown_strategy_definition,
  invalid_composite_strategy, definition_id, tolerance, default_thresholds,
}
use cryptox.Strategies.Service.{find_definition, latest_version}
use cryptox.Strategies.CompositeStore.{insert_composite, list_composite_family}

-- `known` are the ids of definitions that are about to be stored.
unfoldable pub require_owned_definition :
    List Text → Text → Store → Text → Result StrategyFault (Unit {0})
require_owned_definition known user s id =
    if any (λ k. k == id) known then ok tt else elim (find_definition user id s) [
      | some d ↦ ok tt
      | none ↦ elim (lookup_by definition_id id s.definitions) [
        | some item ↦ err ownership_mismatch
        | none ↦ err unknown_strategy_definition
      ]
    ]

unfoldable pub require_all :
    List Text → Text → Store → List Component → Result StrategyFault (Unit {0})
require_all known user s [] = ok tt
require_all known user s (c ∷ components) =
    require_owned_definition known user s c.strategy_definition_id
    >> require_all known user s components

abbrev pub is_weight : Option ℤ → Bool
is_weight none = false
is_weight (some w) = leb_ℤ (pos 0) w

abbrev pub is_component : Component → Bool
is_component c = not (is_blank c.strategy_definition_id) && is_weight c.weight

abbrev pub weightless : Component → Component
weightless c = record c { weight = some (pos 0) }

-- The total of the weights; `plus` is the sum of two numbers.
abbrev pub total_weight : (Option ℤ → Option ℤ → Option ℤ) → List Component → Option ℤ → Option ℤ
total_weight plus [] sum = sum
total_weight plus (c ∷ components) sum = total_weight plus components (plus sum c.weight)

-- `Math.abs(total - 1) <= 1e-4`: the difference of doubles is exact near 1.
abbrev pub is_about_one : Option ℤ → Bool
unfolding tolerance one
is_about_one none = false
is_about_one (some total) =
    leb_ℤ (total -ℤ whole 1) (pos tolerance) && leb_ℤ (neg_ℤ (pos tolerance)) (total -ℤ whole 1)

abbrev pub are_apart : Option ℤ → Option ℤ → Bool
unfolding one
are_apart none b = false
are_apart (some a) none = false
are_apart (some a) (some b) = ltb_ℤ b a && leb_ℤ a (whole 1) && leb_ℤ (neg_ℤ (whole 1)) b

-- The upper threshold is above the lower one, and both lie from -1 to 1.
abbrev pub are_thresholds : Thresholds → Bool
are_thresholds t = are_apart t.buy t.sell

abbrev pub or_thresholds : Option Thresholds → Thresholds
or_thresholds none = default_thresholds
or_thresholds (some t) = t

pub record CompositeCommand : Type 0 where
  pub method : CombinationMethod
  pub components : List Component
  pub thresholds : Option Thresholds

pub record Content : Type 0 where
  pub method : CombinationMethod
  pub components : List Component
  pub thresholds : Option Thresholds

-- The components and thresholds that are kept.
unfoldable pub content_of :
    (Option ℤ → Option ℤ → Option ℤ) → CompositeCommand → Result StrategyFault Content
content_of plus command = elim command.method [
  | majority_vote ↦ ok (record {
    method = majority_vote;
    components = map weightless command.components;
    thresholds = some default_thresholds;
  })
  | weighted_score ↦
      if not (is_about_one (total_weight plus command.components (some (pos 0))))
        || not (are_thresholds (or_thresholds command.thresholds))
      then err invalid_composite_strategy
      else ok (record {
        method = weighted_score;
        components = command.components;
        thresholds = some (or_thresholds command.thresholds);
      })
  | unknown ↦ err invalid_composite_strategy
]

abbrev pub ids_of : List Component → List Text
ids_of components = map (λ (c : Component). c.strategy_definition_id) components

abbrev pub family_of : Content → CompositeKey
family_of content = record {
  method = content.method;
  ids = sort_by leb (ids_of content.components);
}

abbrev pub content_in : Composite → Content
content_in c = record { method = c.method; components = c.components; thresholds = c.thresholds }

abbrev version_of : Composite → ℕ
version_of c = c.version

abbrev is_empty_list : List Component → Bool
is_empty_list [] = true
is_empty_list (c ∷ components) = false

abbrev is_known : CombinationMethod → Bool
is_known unknown = false
is_known method = true

pub record PreparedComposite : Type 0 where
  pub definition : Composite
  pub is_new : Bool

module _ (digest : Content → Text) where
  abbrev pub has_content : Text → Composite → Bool
  has_content hash c = digest (content_in c) == hash

  unfoldable pub prepare_composite_among :
      Text → Content → List Composite → Text → Text → PreparedComposite
  prepare_composite_among user content prior id now =
      elim (find_first (has_content (digest content)) prior) [
        | some existing ↦ record { definition = existing; is_new = false }
        | none ↦ record {
          definition = record {
            id = id;
            user_id = user;
            logical_family_key = family_of content;
            version = suc (latest_version (map version_of prior));
            method = content.method;
            components = content.components;
            thresholds = content.thresholds;
            created_at = now;
          };
          is_new = true;
        }
      ]

  unfoldable pub prepare_composite :
      (Option ℤ → Option ℤ → Option ℤ)
      → List Text
      → Text
      → CompositeCommand
      → Text
      → Text
      → Store
      → Result StrategyFault PreparedComposite
  prepare_composite plus known user command id now s = do
    throw_if (is_blank user || not (is_known command.method) || is_empty_list command.components)
        invalid_composite_strategy
    throw_if (not (all is_component command.components)) invalid_composite_strategy
    require_all known user s command.components
    content ← content_of plus command
    ok (
        prepare_composite_among user content (list_composite_family user (family_of content) s) id
          now)

  abbrev pub store_composite : Text → Store → PreparedComposite → Composite × Store
  store_composite user s p =
      if p.is_new
      then (record p.definition { user_id = user }, insert_composite user p.definition s)
      else (p.definition, s)

  unfoldable pub define_composite :
      (Option ℤ → Option ℤ → Option ℤ)
      → Text
      → CompositeCommand
      → Text
      → Text
      → Store
      → Result StrategyFault (Composite × Store)
  define_composite plus user command id now s =
      prepare_composite plus [] user command id now s >>= λ p. ok (store_composite user s p)
