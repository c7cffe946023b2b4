-- ===== src/Strategies/Bounds.antt =====
-- What `validateParameters` of modules/strategy/application/service.ts lets through.
use cryptox.Base.{
  ◌≡◌, refl, sym, ◌∙◌, arith, ◌==◌, Bool, true, false, not, ◌&&◌, Option, none, some, List, [], ◌∷◌,
  ◌++◌, append_assoc, append-nil, any-snoc, subst, any, all, lookup_by, set_by, is_integer,
  no_clash, ok, >>=-eq-ok, >>-eq-ok, throw_if, throw_if-eq-ok,
}
use cryptox.Strategies.Records.{
  Value, number, text, other, Parameter, integer, decimal, enum, ParameterDescriptor, Factory,
  invalid_strategy_parameters,
}
use cryptox.Strategies.Parameters.{
  is_plain, is_declared, is_below, is_above, is_option, key_of, or_default, checked_value,
  normalize, validate_parameters,
}

-- A text is one of the options; a number is in the bounds, and an integer where it must be.
abbrev pub fits : ParameterDescriptor → Value → Bool
fits d (text s) = elim d.kind [ enum ↦ is_option d.options s | integer ↦ false | decimal ↦ false ]
fits d (number (some v)) = elim d.kind [
  | enum ↦ false
  | integer ↦ is_integer v && not (is_below d.minimum v) && not (is_above d.maximum v)
  | decimal ↦ not (is_below d.minimum v) && not (is_above d.maximum v)
]
fits d (number none) = false
fits d other = false

checked_value_lem :
    (d : ParameterDescriptor) (given : Option Value) (v : Value)
    → checked_value d given ≡ ok v
    → (given ≡ some v) × (fits d v ≡ true)
unfolding checked_value
checked_value_lem d none v h = absurd (ground arith)
checked_value_lem d (some (text s)) v h = (ground arith, ground arith)
checked_value_lem d (some (number (some w))) v h = (ground arith, ground arith)
checked_value_lem d (some (number none)) v h = absurd (ground arith)
checked_value_lem d (some other) v h = absurd (ground arith)

set_by-fresh :
    (p : Parameter) (acc : List Parameter)
    → any (λ (q : Parameter). q.key == p.key) acc ≡ false
    → set_by key_of p acc ≡ acc ++ p ∷ []
unfolding set_by
set_by-fresh p [] h = refl
set_by-fresh p (q ∷ acc) h = ground (arith, set_by-fresh p acc)

-- One parameter for each descriptor, in order: the given value, else the default, and it fits.
abbrev pub AllFit : List Parameter → List ParameterDescriptor → List Parameter → Type 0
AllFit values [] [] = Unit
AllFit values [] (p ∷ normalized) = ⊥
AllFit values (d ∷ descriptors) [] = ⊥
AllFit values (d ∷ descriptors) (p ∷ normalized) =
    (p.key ≡ d.key)
    × (or_default (lookup_by key_of d.key values) d.default_value ≡ some p.value)
    × (fits d p.value ≡ true)
    × AllFit values descriptors normalized

abbrev pub same_descriptor : ParameterDescriptor → ParameterDescriptor → Bool
same_descriptor a b = a.key == b.key

-- No descriptor has the key of a parameter.
abbrev are_fresh : List ParameterDescriptor → List Parameter → Bool
are_fresh [] acc = true
are_fresh (d ∷ descriptors) acc =
    not (any (λ (q : Parameter). q.key == d.key) acc) && are_fresh descriptors acc

are_fresh-snoc :
    (descriptors : List ParameterDescriptor) (d : ParameterDescriptor) (v : Value)
    (acc : List Parameter)
    → are_fresh descriptors acc ≡ true
    → any (same_descriptor d) descriptors ≡ false
    → are_fresh descriptors (acc ++ record { key = d.key; value = v } ∷ []) ≡ true
are_fresh-snoc [] d v acc h k = refl
are_fresh-snoc (e ∷ descriptors) d v acc h k = ground (
  arith,
  any-snoc (λ (q : Parameter). q.key == e.key) acc (record { key = d.key; value = v }),
  are_fresh-snoc descriptors d v acc,
)

are_fresh-nil : (descriptors : List ParameterDescriptor) → are_fresh descriptors [] ≡ true
are_fresh-nil [] = refl
are_fresh-nil (d ∷ descriptors) = are_fresh-nil descriptors

normalize_lem :
    (values : List Parameter) (descriptors : List ParameterDescriptor) (acc out : List Parameter)
    → no_clash same_descriptor descriptors ≡ true
    → are_fresh descriptors acc ≡ true
    → normalize values descriptors acc ≡ ok out
    → (rest : List Parameter) × (out ≡ acc ++ rest) × AllFit values descriptors rest
unfolding normalize
normalize_lem values [] acc out distinct fresh h = ([], ground (arith, append-nil acc), tt)
normalize_lem values (d ∷ descriptors) acc out distinct fresh h =
    let given = or_default (lookup_by key_of d.key values) d.default_value in
    let (v, checked, h') = >>=-eq-ok (checked_value d given) _ h in
    let (is_given, fit) = checked_value_lem d given v checked in
    let p : Parameter = record { key = d.key; value = v } in
    let put = set_by-fresh p acc (ground arith) in
    let (rest, splits, all_fit) =
      normalize_lem values descriptors (acc ++ p ∷ []) out (ground arith)
        (are_fresh-snoc descriptors d v acc (ground arith) (ground arith))
        (subst (λ l. normalize values descriptors l ≡ ok out) put h') in
    (p ∷ rest, splits ∙ append_assoc acc (p ∷ []) rest, (refl, is_given, fit, all_fit))

-- Let no two descriptors of a factory have one key. Then the parameters that are let through are one for
-- each descriptor, in order, each with the given value or else the default, which is an option, or a
-- number in the bounds and an integer where it must be. The factory itself takes them, and no key
-- was given that is not declared.
pub validate_parameters-AllFit :
    (factory : Factory) (values normalized : List Parameter)
    → no_clash same_descriptor factory.descriptor.parameters ≡ true
    → validate_parameters factory (some values) ≡ ok normalized
    → AllFit values factory.descriptor.parameters normalized
      × (factory.accepts normalized ≡ true)
      × (all (is_declared factory.descriptor.parameters) values ≡ true)
unfolding validate_parameters
validate_parameters-AllFit factory values normalized distinct h =
    let (u, plain, h1) =
      >>-eq-ok
        (throw_if (not (all (λ (p : Parameter). is_plain p.value) values))
          invalid_strategy_parameters)
        _ h in
    let (u', declared, h2) =
      >>-eq-ok
        (throw_if (not (all (is_declared factory.descriptor.parameters) values))
          invalid_strategy_parameters)
        _ h1 in
    let (out, normal, h3) = >>=-eq-ok (normalize values factory.descriptor.parameters []) _ h2 in
    let (u'', accepted, h4) =
      >>-eq-ok (throw_if (not (factory.accepts out)) invalid_strategy_parameters) _ h3 in
    let (rest, splits, all_fit) =
      normalize_lem values factory.descriptor.parameters [] out distinct
        (are_fresh-nil factory.descriptor.parameters) normal in
    let same_out : out ≡ normalized = ground arith in
    let fit : AllFit values factory.descriptor.parameters out =
      subst (AllFit values factory.descriptor.parameters) (sym splits) all_fit in
    (
      subst (AllFit values factory.descriptor.parameters) same_out fit,
      subst (λ l. factory.accepts l ≡ true) same_out
          (ground (
            arith,
            throw_if-eq-ok (not (factory.accepts out)) invalid_strategy_parameters accepted,
          )),
      ground (
        arith,
        throw_if-eq-ok (not (all (is_declared factory.descriptor.parameters) values))
            invalid_strategy_parameters declared,
      ),
    )
