-- ===== src/Strategies/Versions.antt =====
-- The versions that `generateStrategy` of modules/strategy/application/service.ts gives.
use mathlib.Core.Option.{some-injective}
use cryptox.Base.{
  ℕ, zero, suc, ◌≡◌, refl, sym, ◌∙◌, ap, subst, arith, Bool, true, false, if◌then◌else◌,
  Option-cases, inl, inr, Option, some, List, [], ◌∷◌, ◌++◌, map, find_first, get_elem?, All, ok,
  Ensures, returned, bind-Ensures, then-Ensures, Ensures-eq, Ensures-bind, Text, Codes, ℤ,
}
use cryptox.Strategies.Records.{Parameter, Factory, Definition, Store}
use cryptox.Strategies.Service.{
  list_by_logical_family, latest_version, version_of, Prepared, family_key, has_digest,
  new_definition, prepare_among, prepare_strategy,
}
use cryptox.Strategies.Composites.{Content}
use cryptox.Strategies.Generation.{
  ProposedComponent, Proposal, single, composed, Generated, new_ones, Gathered, prepare_components,
  generate,
}

-- A version after the latest one of the family in the store.
abbrev IsNumbered : Text → Store → Definition → Type 0
IsNumbered user s d =
    d.version
    ≡ suc (latest_version (map version_of (list_by_logical_family user d.logical_family_key s)))

abbrev AllNumbered : Text → Store → List Definition → Type 0
AllNumbered user s definitions = All (IsNumbered user s) definitions

All-snoc :
    (user : Text) (s : Store) (definitions : List Definition) (d : Definition)
    → AllNumbered user s definitions
    → IsNumbered user s d
    → AllNumbered user s (definitions ++ d ∷ [])
All-snoc user s [] d all_numbered h = (h, tt)
All-snoc user s (e ∷ definitions) d all_numbered h =
    (all_numbered.0, All-snoc user s definitions d all_numbered.1 h)

get_elem?-All :
    (user : Text) (s : Store) (definitions : List Definition) (i : ℕ) (d : Definition)
    → AllNumbered user s definitions
    → get_elem? definitions i ≡ some d
    → IsNumbered user s d
get_elem?-All user s [] i d all_numbered h = absurd (ground arith)
get_elem?-All user s (e ∷ definitions) zero d all_numbered h =
    subst (IsNumbered user s) (some-injective e d h) all_numbered.0
get_elem?-All user s (e ∷ definitions) (suc i) d all_numbered h =
    get_elem?-All user s definitions i d all_numbered.1 h

-- What is new is numbered.
abbrev IsNumberedNew : Text → Store → Prepared → Type 0
IsNumberedNew user s p = if p.is_new then IsNumbered user s p.definition else Unit

new_ones-AllNumbered :
    (user : Text) (s : Store) (d : Definition) (is_new : Bool) (definitions : List Definition)
    → IsNumberedNew user s (record { definition = d; is_new = is_new })
    → AllNumbered user s definitions
    → AllNumbered user s (new_ones (record { definition = d; is_new = is_new }) definitions)
new_ones-AllNumbered user s d true definitions h all_numbered =
    All-snoc user s definitions d all_numbered h
new_ones-AllNumbered user s d false definitions h all_numbered = all_numbered

module _ (digest : Codes → Text → List Parameter → Text) (find : Codes → Option Factory)
    (user : Text) (s : Store) (now : Text) where
  prepare_among-IsNumberedNew :
      (factory : Factory) (normalized : List Parameter) (id : Text)
      → IsNumberedNew user s (
          prepare_among digest user factory normalized
            (list_by_logical_family user (family_key factory.descriptor.name) s)
            id
            now)
  unfolding prepare_among new_definition
  prepare_among-IsNumberedNew factory normalized id =
      elim (Option-cases (
        find_first
          (has_digest digest
            (digest factory.descriptor.name factory.descriptor.implementation_sha256 normalized))
          (list_by_logical_family user (family_key factory.descriptor.name) s))) [
            | inl free ↦ rw (free, prepare_among, new_definition) refl
            | inr (d, found) ↦ rw (found, prepare_among) tt
          ]

  prepare_strategy-IsNumberedNew :
      (name : Codes) (parameters : Option (List Parameter)) (id : Text)
      → Ensures (IsNumberedNew user s) (prepare_strategy digest find user name parameters id now s)
  unfolding prepare_strategy
  prepare_strategy-IsNumberedNew name parameters id = then-Ensures _ _ λ u e.
      bind-Ensures _ _ λ factory e.
        bind-Ensures _ _
          λ normalized e. returned (prepare_among-IsNumberedNew factory normalized id)

  prepare_components-AllNumbered :
      (id : ℕ → Text) (components : List ProposedComponent) (gathered : Gathered)
      → AllNumbered user s gathered.definitions
      → Ensures
          (λ (g : Gathered). AllNumbered user s g.definitions)
          (prepare_components digest find id user now s components gathered)
  unfolding prepare_components
  prepare_components-AllNumbered id [] gathered h = returned h
  prepare_components-AllNumbered id (c ∷ components) gathered h =
      Ensures-bind _ (prepare_strategy-IsNumberedNew c.strategy_name (some c.parameters) _)
        λ p numbered.
          prepare_components-AllNumbered id components _
            (new_ones-AllNumbered user s p.definition p.is_new gathered.definitions numbered h)

  generate-AllNumbered :
      (digest_content : Content → Text) (plus : Option ℤ → Option ℤ → Option ℤ) (id : ℕ → Text)
      (new_id : Text) (proposal : Proposal)
      → Ensures
          (λ (g : Generated). AllNumbered user s g.definitions)
          (generate digest find digest_content plus id new_id user proposal now s)
  unfolding generate
  generate-AllNumbered digest_content plus id new_id (single name parameters) =
      Ensures-bind _ (prepare_strategy-IsNumberedNew name (some parameters) new_id)
        λ p numbered. returned (new_ones-AllNumbered user s p.definition p.is_new [] numbered tt)
  generate-AllNumbered digest_content plus id new_id (composed components method thresholds) =
      Ensures-bind _ (prepare_components-AllNumbered id components _ tt)
        λ gathered numbered. bind-Ensures _ _ λ p e. returned numbered

-- Two definitions that one generation makes in one family have the same version: each is numbered after
-- the store, which has neither.
pub generate-same_version :
    (digest : Codes → Text → List Parameter → Text) (find : Codes → Option Factory)
    (digest_content : Content → Text) (plus : Option ℤ → Option ℤ → Option ℤ) (id : ℕ → Text)
    (new_id user : Text) (proposal : Proposal) (now : Text) (s : Store) (g : Generated) (i j : ℕ)
    (d e : Definition)
    → generate digest find digest_content plus id new_id user proposal now s ≡ ok g
    → get_elem? g.definitions i ≡ some d
    → get_elem? g.definitions j ≡ some e
    → d.logical_family_key ≡ e.logical_family_key
    → d.version ≡ e.version
generate-same_version digest find digest_content plus id new_id user proposal now s g i j d e h at_i
      at_j family =
    let numbered =
      Ensures-eq
        (generate-AllNumbered digest find user s now digest_content plus id new_id proposal) h in
    get_elem?-All user s g.definitions i d numbered at_i
    ∙ ap
        (λ (key : Codes). suc (latest_version (map version_of (list_by_logical_family user key s))))
        family
    ∙ sym (get_elem?-All user s g.definitions j e numbered at_j)
