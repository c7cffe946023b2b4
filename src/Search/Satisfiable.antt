-- ===== src/Search/Satisfiable.antt =====
-- What the domain rules that `validateDomainRules` of modules/search/application/service.ts accepts
-- guarantee to a generator.
use cryptox.Base.{
  ℕ, ◌≤◌, ◌≡◌, refl, ap, ◌∙◌, arith, Bool, true, false, not, ◌&&◌, ◌||◌, if◌then◌else◌, Option,
  none, some, List, [], ◌∷◌, Result, ok, err, length, any, all, keep, >>=-eq-ok, throw_if-eq-ok,
  subst,
}
use mathlib.Core.Option.{some-injective}
use cryptox.Search.Types.{
  invalid_search_config, GeneratorType, StrategyCategory, Error, StrategyDefinition, DomainRules,
  SearchSpace,
}
use cryptox.Search.Rules.{
  is_none, given, includes, repeats, read_categories, is_eligible, has_category, is_unsatisfiable,
  is_domain_guided, check_rules, validate_domain_rules,
}

-- The categories that are given, where they are known ones.
abbrev pub known : Option (Option (List StrategyCategory)) → Option (List StrategyCategory)
known none = none
known (some cs) = cs

-- Whether a category is allowed, not forbidden, and that of an available strategy.
abbrev pub is_usable :
    Option (List StrategyCategory)
    → Option (List StrategyCategory)
    → List StrategyDefinition
    → StrategyCategory
    → Bool
is_usable allowed forbidden strategies c =
    (is_none allowed || given allowed (λ cs. includes cs c))
    && not (given forbidden (λ cs. includes cs c))
    && any (has_category c) strategies

read_categories-known :
    (cs : Option (Option (List StrategyCategory))) (read : Option (List StrategyCategory))
    → read_categories cs ≡ ok read
    → read ≡ known cs
unfolding read_categories
read_categories-known none read h = ground arith
read_categories-known (some none) read h = absurd (ground arith)
read_categories-known (some (some cs)) read h = ground arith

any-keep :
    {A : Type 0} (test kept : A → Bool) (xs : List A)
    → any test (keep kept xs) ≡ true
    → any test xs ≡ true
any-keep test kept [] h = h
any-keep test kept (x ∷ xs) h = ground (arith, any-keep test kept xs)

given_cons :
    {A : Type 0} (o : Option (List StrategyCategory)) (test : List StrategyCategory → A → Bool)
    (x : A) (xs : List A)
    → given o (λ cs. any (test cs) (x ∷ xs)) ≡ false
    → given o (λ cs. any (test cs) xs) ≡ false
given_cons none test x xs h = refl
given_cons (some cs) test x xs h = ground arith

-- Where the tests of `validateDomainRules` on the required categories find nothing.
all-is_usable :
    (allowed forbidden : Option (List StrategyCategory)) (strategies : List StrategyDefinition)
    (rs : List StrategyCategory)
    → given forbidden (λ fs. any (includes fs) rs) ≡ false
    → given allowed (λ as'. any (λ c. not (includes as' c)) rs) ≡ false
    → any (λ c. not (any (has_category c) (keep (is_eligible allowed forbidden) strategies))) rs
      ≡ false
    → all (is_usable allowed forbidden strategies) rs ≡ true
all-is_usable allowed forbidden strategies [] f a e = refl
all-is_usable allowed forbidden strategies (c ∷ rs) f a e =
    let found : any (has_category c) strategies ≡ true =
      any-keep (has_category c) (is_eligible allowed forbidden) strategies (ground arith) in
    all_cons allowed forbidden f a found (
      all-is_usable allowed forbidden strategies rs (given_cons forbidden includes c rs f)
        (given_cons allowed (λ as' d. not (includes as' d)) c rs a) (ground arith))
  where
    all_cons :
        (allowed forbidden : Option (List StrategyCategory))
        → given forbidden (λ fs. any (includes fs) (c ∷ rs)) ≡ false
        → given allowed (λ as'. any (λ d. not (includes as' d)) (c ∷ rs)) ≡ false
        → any (has_category c) strategies ≡ true
        → all (is_usable allowed forbidden strategies) rs ≡ true
        → all (is_usable allowed forbidden strategies) (c ∷ rs) ≡ true
    all_cons none none f a found h = ground arith
    all_cons none (some fs) f a found h = ground arith
    all_cons (some as') none f a found h = ground arith
    all_cons (some as') (some fs) f a found h = ground arith

read_categories-repeats :
    (cs : Option (Option (List StrategyCategory))) (rs : List StrategyCategory)
    (read : Option (List StrategyCategory))
    → cs ≡ some (some rs)
    → read_categories cs ≡ ok read
    → repeats rs ≡ false
unfolding read_categories
read_categories-repeats none rs read e h = cc
read_categories-repeats (some none) rs read e h = absurd (ground arith)
read_categories-repeats (some (some cs)) rs read e h =
    let same : cs ≡ rs = some-injective cs rs (some-injective (some cs) (some rs) e) in
    subst (λ l. repeats l ≡ false) same (ground arith)

checked :
    (generator : GeneratorType) (space : SearchSpace) (rules : DomainRules) (u : Unit {0})
    (o : Option DomainRules)
    → o ≡ some rules
    → (elim o as (λ _. Result Error (Unit {0})) [
      | none ↦ ok tt
      | some r ↦
          if is_domain_guided generator then check_rules space r else err invalid_search_config
    ])
      ≡ ok u
    → (is_domain_guided generator ≡ true) × (check_rules space rules ≡ ok u)
checked generator space rules u none e h = cc
checked generator space rules u (some r) e h =
    subst (λ r. (is_domain_guided generator ≡ true) × (check_rules space r ≡ ok u))
      (some-injective r rules e) (ground arith)

-- The tests that find nothing, one by one.
satisfied :
    (space : SearchSpace) (rs : List StrategyCategory)
    (allowed forbidden : Option (List StrategyCategory))
    → is_unsatisfiable space (some rs) allowed forbidden ≡ false
    → (all (is_usable allowed forbidden space.available_strategies) rs ≡ true)
      × ((n : ℕ) → space.max_components ≡ some n → length rs ≤ n)
unfolding is_unsatisfiable
satisfied space rs allowed forbidden h = (
  all-is_usable allowed forbidden space.available_strategies rs (ground arith) (ground arith)
      (ground arith),
  λ n e. ground arith,
)

-- Rules that are accepted with required categories can be met: each of these is allowed, not
-- forbidden, and that of an available strategy, none stands twice, and they are no more than the
-- components that a candidate may have.
pub validate_domain_rules-satisfiable :
    (generator : GeneratorType) (space : SearchSpace) (rules : DomainRules)
    (rs : List StrategyCategory) (u : Unit {0})
    → space.domain_rules ≡ some rules
    → rules.required_categories ≡ some (some rs)
    → validate_domain_rules generator space ≡ ok u
    → (is_domain_guided generator ≡ true)
      × (repeats rs ≡ false)
      × (all
            (is_usable
              (known rules.allowed_categories)
              (known rules.forbidden_categories)
              space.available_strategies)
            rs
          ≡ true)
      × ((n : ℕ) → space.max_components ≡ some n → length rs ≤ n)
unfolding validate_domain_rules check_rules
validate_domain_rules-satisfiable generator space rules rs u given_rules required h =
    let (guided, passes) = checked generator space rules u space.domain_rules given_rules h in
    let (read, reads, rest) = >>=-eq-ok (read_categories rules.required_categories) _ passes in
    let (allowed, reads_allowed, rest') =
      >>=-eq-ok (read_categories rules.allowed_categories) _ rest in
    let (forbidden, reads_forbidden, rest'') =
      >>=-eq-ok (read_categories rules.forbidden_categories) _ rest' in
    let unmet : is_unsatisfiable space read allowed forbidden ≡ false = throw_if-eq-ok _ _ rest'' in
    let is_read : read ≡ some rs =
      read_categories-known rules.required_categories read reads ∙ ap known required in
    let (usable, few) =
      satisfied space rs (known rules.allowed_categories) (known rules.forbidden_categories) (
        subst
          (λ r.
            is_unsatisfiable space r (known rules.allowed_categories)
              (known rules.forbidden_categories)
            ≡ false)
          is_read
          (subst (λ a. is_unsatisfiable space read a (known rules.forbidden_categories) ≡ false)
            (read_categories-known rules.allowed_categories allowed reads_allowed)
            (subst (λ f. is_unsatisfiable space read allowed f ≡ false)
              (read_categories-known rules.forbidden_categories forbidden reads_forbidden)
              unmet))) in
    (guided, read_categories-repeats rules.required_categories rs read required reads, usable, few)
