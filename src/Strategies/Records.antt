-- ===== src/Strategies/Records.antt =====
-- The data of modules/strategy/domain/contracts.ts and of the repositories in
-- modules/strategy/application/service.ts. A number is a finite double or `none`.
use cryptox.Base.{
  ℕ, ◌*◌, ◌^◌, Bool, true, false, ◌&&◌, Option, some, List, ℤ, pos, negsuc, ◌-◌, Text, Codes, same,
}

pub data Signal : Type 0 where
  buy sell hold : Signal

-- What a parameter may hold: a number, a text, or any other value.
pub data Value : Type 0 where
  number : Option ℤ → Value
  text : Codes → Value
  other : Value

pub record Parameter : Type 0 where
  pub key : Text
  pub value : Value

pub data ParameterType : Type 0 where
  integer decimal enum : ParameterType

pub record ParameterDescriptor : Type 0 where
  pub key : Text
  pub kind : ParameterType
  pub required : Bool
  -- `none` is undefined, also below.
  pub default_value : Option Value
  pub minimum : Option ℤ
  pub maximum : Option ℤ
  pub options : Option (List Codes)

pub record PluginDescriptor : Type 0 where
  pub name : Codes
  pub display_name : Text
  pub implementation_version : Text
  pub implementation_sha256 : Text
  pub parameters : List ParameterDescriptor

-- A factory: its descriptor, and whether `validateParameters` takes the parameters without a throw.
pub record Factory : Type 0 where
  pub descriptor : PluginDescriptor
  pub accepts : List Parameter → Bool

pub record Definition : Type 0 where
  pub id : Text
  pub user_id : Text
  pub logical_family_key : Codes
  pub family_name : Text
  pub strategy_name : Codes
  pub implementation_version : Text
  pub implementation_sha256 : Text
  pub version : ℕ
  pub parameters : List Parameter
  pub created_at : Text

pub data CombinationMethod : Type 0 where
  majority_vote weighted_score : CombinationMethod
  -- Any other text.
  unknown : CombinationMethod

pub record Component : Type 0 where
  pub strategy_definition_id : Text
  pub weight : Option ℤ

pub record Thresholds : Type 0 where
  pub buy : Option ℤ
  pub sell : Option ℤ

-- `composite:<method>:<ids>`, by its parts.
pub record CompositeKey : Type 0 where
  pub method : CombinationMethod
  pub ids : List Text

pub record Composite : Type 0 where
  pub id : Text
  pub user_id : Text
  pub logical_family_key : CompositeKey
  pub version : ℕ
  pub method : CombinationMethod
  pub components : List Component
  pub thresholds : Option Thresholds
  pub created_at : Text

pub record OwnedDefinition : Type 0 where
  pub owner_user_id : Text
  pub value : Definition

pub record OwnedComposite : Type 0 where
  pub owner_user_id : Text
  pub value : Composite

-- The maps by id, and the ids of the generations.
pub record Store : Type 0 where
  pub definitions : List OwnedDefinition
  pub composites : List OwnedComposite
  pub generations : List Text

pub data StrategyFault : Type 0 where
  invalid_user strategy_not_registered invalid_strategy_parameters : StrategyFault
  ownership_mismatch unknown_strategy_definition invalid_composite_strategy : StrategyFault
  strategy_definition_not_found composite_strategy_not_found validation_error : StrategyFault

abbrev pub definition_id : OwnedDefinition → Text
definition_id item = item.value.id

abbrev pub composite_id : OwnedComposite → Text
composite_id item = item.value.id

abbrev pub same_method : CombinationMethod → CombinationMethod → Bool
same_method majority_vote majority_vote = true
same_method weighted_score weighted_score = true
same_method unknown unknown = true
same_method a b = false

abbrev pub same_key : CompositeKey → CompositeKey → Bool
same_key a b = same_method a.method b.method && same a.ids b.ids

-- 0.3 and 0.0001, the nearest doubles.
unfoldable pub three_tenths : ℕ
three_tenths = 5404319552844595 * 2 ^ 1020

unfoldable pub tolerance : ℕ
tolerance = 7378697629483821 * 2 ^ 1008

abbrev pub default_thresholds : Thresholds
unfolding three_tenths
default_thresholds = record {
  buy = some (pos three_tenths);
  sell = some (negsuc (three_tenths - 1));
}
