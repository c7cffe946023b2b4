-- ===== src/Search/Rules.antt =====
-- The checks of modules/search/application/service.ts on what a run is started with.
use cryptox.Base.{
  ℕ, ◌==◌, ltb, Bool, true, false, not, ◌&&◌, ◌||◌, if◌then◌else◌, Option, none, some, List, [],
  ◌∷◌, ℤ, pos, negsuc, Result, ok, err, ◌>>=◌, ◌>>◌, throw_if, Text, length, any, keep,
}
use cryptox.Search.Types.{
  GeneratorType, domain_guided, StrategyCategory, trend, momentum, volatility, structure,
  information, Error, invalid_stop_condition, invalid_search_config, domain_rule_unsatisfiable,
  StrategyDefinition, DomainRules, SearchSpace, StopCondition,
}

-- A number that may be no integer.
pub data Setting : Type 0 where
  integer : ℤ → Setting
  no_integer : Setting

pub record StopSettings : Type 0 where
  pub max_candidates : Option Setting
  pub max_duration_seconds : Option Setting
  pub no_improvement_after_iterations : Option Setting

-- A positive integer, or nothing where there is no setting.
unfoldable pub read_positive : Option Setting → Result Error (Option ℕ)
read_positive none = ok none
read_positive (some no_integer) = err invalid_stop_condition
read_positive (some (integer (negsuc n))) = err invalid_stop_condition
read_positive (some (integer (pos n))) = if n == 0 then err invalid_stop_condition else ok (some n)

abbrev pub is_none {ℓ} : {A : Type ℓ} → Option A → Bool
is_none none = true
is_none (some a) = false

-- `validateStopCondition`; the condition that it accepts is returned with its numbers as naturals.
unfoldable pub validate_stop_condition : StopSettings → Result Error StopCondition
unfolding read_positive
validate_stop_condition c = do
  throw_if
      (is_none c.max_candidates
        && is_none c.max_duration_seconds
        && is_none c.no_improvement_after_iterations)
      invalid_stop_condition
  max_candidates ← read_positive c.max_candidates
  max_duration_seconds ← read_positive c.max_duration_seconds
  no_improvement ← read_positive c.no_improvement_after_iterations
  ok (record {
    max_candidates = max_candidates;
    max_duration_seconds = max_duration_seconds;
    no_improvement_after_iterations = no_improvement;
  })

unfoldable pub same_category : StrategyCategory → StrategyCategory → Bool
same_category trend trend = true
same_category momentum momentum = true
same_category volatility volatility = true
same_category structure structure = true
same_category information information = true
same_category _ _ = false

unfoldable pub includes : List StrategyCategory → StrategyCategory → Bool
unfolding same_category
includes cs c = any (λ d. same_category d c) cs

unfoldable pub repeats : List StrategyCategory → Bool
unfolding includes
repeats [] = false
repeats (c ∷ cs) = includes cs c || repeats cs

-- `read` of `validateDomainRules`.
unfoldable pub read_categories :
    Option (Option (List StrategyCategory)) → Result Error (Option (List StrategyCategory))
unfolding repeats
read_categories none = ok none
read_categories (some none) = err invalid_search_config
read_categories (some (some cs)) = if repeats cs then err invalid_search_config else ok (some cs)

-- A test of categories that are given.
abbrev pub given : Option (List StrategyCategory) → (List StrategyCategory → Bool) → Bool
given none test = false
given (some cs) test = test cs

unfoldable pub is_eligible :
    Option (List StrategyCategory) → Option (List StrategyCategory) → StrategyDefinition → Bool
unfolding includes
is_eligible allowed forbidden d = elim d.category [
  | none ↦ is_none allowed
  | some c ↦
      (is_none allowed || given allowed (λ cs. includes cs c))
      && not (given forbidden (λ cs. includes cs c))
]

abbrev pub has_category : StrategyCategory → StrategyDefinition → Bool
has_category c d = elim d.category [ none ↦ false | some e ↦ same_category e c ]

unfoldable pub is_unsatisfiable :
    SearchSpace
    → Option (List StrategyCategory)
    → Option (List StrategyCategory)
    → Option (List StrategyCategory)
    → Bool
unfolding includes is_eligible
is_unsatisfiable space required allowed forbidden =
    let eligible = keep (is_eligible allowed forbidden) space.available_strategies in
    given required (λ rs. given forbidden (λ fs. any (includes fs) rs))
    || given required (λ rs. given allowed (λ as'. any (λ c. not (includes as' c)) rs))
    || given allowed (λ as'. given forbidden (λ fs. any (includes as') fs))
    || length eligible == 0
    || given required (λ rs. any (λ c. not (any (has_category c) eligible)) rs)
    || (elim space.max_components [
      | none ↦ false
      | some n ↦ given required (λ rs. ltb n (length rs))
    ])

abbrev pub is_domain_guided : GeneratorType → Bool
is_domain_guided domain_guided = true
is_domain_guided _ = false

unfoldable pub check_rules : SearchSpace → DomainRules → Result Error (Unit {0})
unfolding read_categories is_unsatisfiable
check_rules space rules = do
  required ← read_categories rules.required_categories
  allowed ← read_categories rules.allowed_categories
  forbidden ← read_categories rules.forbidden_categories
  throw_if (is_unsatisfiable space required allowed forbidden) domain_rule_unsatisfiable

unfoldable pub validate_domain_rules : GeneratorType → SearchSpace → Result Error (Unit {0})
unfolding check_rules
validate_domain_rules generator space = elim space.domain_rules [
  | none ↦ ok tt
  | some rules ↦
      if is_domain_guided generator then check_rules space rules else err invalid_search_config
]

abbrev pub is_owned_by : Text → StrategyDefinition → Bool
is_owned_by owner d = elim d.user_id [ none ↦ false | some user ↦ user == owner ]

unfoldable pub validate_search_space_owner : Text → SearchSpace → Result Error (Unit {0})
validate_search_space_owner owner space =
    throw_if (any (λ d. not (is_owned_by owner d)) space.available_strategies) invalid_search_config
