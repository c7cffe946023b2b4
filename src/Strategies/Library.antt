-- ===== src/Strategies/Library.antt =====
-- The definitions that `defineStrategy` of modules/strategy/application/service.ts stores.
use cryptox.Base.{
  ◌≡◌, refl, sym, ◌∙◌, ap, subst, arith, true, false, Option-cases, inl, inr, Option, none, some,
  List, [], ◌∷◌, ◌++◌, map, any, keep, find_first, lookup_by, no_clash, no_clash-snoc, Result, ok,
  ◌>>=◌, ◌>>◌, >>=-eq-ok, >>-eq-ok, Text, Codes, same_refl, is_blank, throw_if,
}
use cryptox.Strategies.Records.{
  Parameter, Factory, Definition, OwnedDefinition, Store, definition_id, invalid_user,
}
use cryptox.Strategies.Parameters.{validate_parameters}
use cryptox.Strategies.Service.{
  value_of, owned_by, insert_definition, in_family, list_by_logical_family, family_key, has_digest,
  new_definition, prepare_among, registered, prepare_strategy, store_prepared, define_strategy,
}
use cryptox.Strategies.Families.{clash, clash_comm, clash-free, find_first-snoc, set_by-fresh}

ok-injective : {E A : Type 0} {a b : A} → ◌≡◌ {A = Result E A} (ok a) (ok b) → a ≡ b
ok-injective h = cc

module _ (digest : Codes → Text → List Parameter → Text) where
  module _ (user : Text) (factory : Factory) (normalized : List Parameter) where
    abbrev key : Codes
    key = family_key factory.descriptor.name

    abbrev outcome : Text → Text → Store → Definition × Store
    outcome id now s =
        store_prepared digest user s
          (prepare_among digest user factory normalized (list_by_logical_family user key s) id now)

    abbrev hash : Text
    hash = digest factory.descriptor.name factory.descriptor.implementation_sha256 normalized

    Settled : Definition × Store → Type 0
    Settled out =
        (no_clash (clash digest) out.1.definitions ≡ true)
        × ((id : Text) (now : Text) → outcome id now out.1 ≡ out)

    abbrev created : Text → Text → Store → Definition
    created id now s =
        new_definition digest user factory normalized (list_by_logical_family user key s) id now

    abbrev stored : Text → Text → Store → OwnedDefinition
    stored id now s = owned_by user (created id now s)

    inserted_lem :
        (id now : Text) (s : Store)
        → lookup_by definition_id id s.definitions ≡ none
        → (insert_definition user (created id now s) s).definitions
          ≡ s.definitions ++ stored id now s ∷ []
    unfolding insert_definition new_definition
    inserted_lem id now s fresh = set_by-fresh (stored id now s) s.definitions fresh

    stored-member : (id now : Text) (s : Store) → in_family user key (stored id now s) ≡ true
    unfolding new_definition
    stored-member id now s = ground (arith, same_refl key)

    stored-has : (id now : Text) (s : Store) → has_digest digest hash (stored id now s).value ≡ true
    unfolding new_definition
    stored-has id now s = ground arith

    stored-free :
        (id now : Text) (s : Store)
        → find_first
            (has_digest digest hash)
            (map value_of (keep (in_family user key) s.definitions))
          ≡ none
        → any (clash digest (stored id now s)) s.definitions ≡ false
    unfolding new_definition list_by_logical_family
    stored-free id now s free =
        clash-free digest user key (stored id now s) s.definitions refl refl free (omega arith)

    new-Settled :
        (id now : Text) (s : Store)
        → lookup_by definition_id id s.definitions ≡ none
        → no_clash (clash digest) s.definitions ≡ true
        → find_first
            (has_digest digest hash)
            (map value_of (keep (in_family user key) s.definitions))
          ≡ none
        → Settled ((stored id now s).value, insert_definition user (created id now s) s)
    unfolding prepare_among list_by_logical_family Settled
    new-Settled id now s fresh distinct free =
        let s' = insert_definition user (created id now s) s in
        let put = inserted_lem id now s fresh in
        let found : find_first (has_digest digest hash)
              (map value_of (keep (in_family user key) s'.definitions))
            ≡ some (stored id now s).value =
          rw put (
            find_first-snoc digest user key hash (stored id now s) s.definitions
              (stored-member id now s) (stored-has id now s) free) in
        (
          rw put (
              no_clash-snoc (clash digest) s.definitions (stored id now s)
                (λ q. clash_comm digest q (stored id now s)) distinct (stored-free id now s free)),
          λ id' now'. rw (found, prepare_among) refl,
        )

    abbrev found_in : Store → Option Definition
    found_in s =
        find_first (has_digest digest hash) (map value_of (keep (in_family user key) s.definitions))

    outcome-new :
        (id now : Text) (s : Store)
        → found_in s ≡ none
        → outcome id now s ≡ ((stored id now s).value, insert_definition user (created id now s) s)
    unfolding prepare_among list_by_logical_family
    outcome-new id now s free = rw (free, prepare_among) refl

    outcome-old :
        (id now : Text) (s : Store) (d : Definition)
        → found_in s ≡ some d
        → outcome id now s ≡ (d, s)
    unfolding prepare_among list_by_logical_family
    outcome-old id now s d found = rw (found, prepare_among) refl

    old-Settled :
        (s : Store) (d : Definition)
        → no_clash (clash digest) s.definitions ≡ true
        → found_in s ≡ some d
        → Settled (d, s)
    unfolding Settled
    old-Settled s d distinct found = (distinct, λ id' now'. outcome-old id' now' s d found)

    outcome-Settled :
        (id now : Text) (s : Store)
        → lookup_by definition_id id s.definitions ≡ none
        → no_clash (clash digest) s.definitions ≡ true
        → Settled (outcome id now s)
    outcome-Settled id now s fresh distinct = elim (Option-cases (found_in s)) [
      | inr (d, found) ↦
          subst Settled (sym (outcome-old id now s d found)) (old-Settled s d distinct found)
      | inl free ↦
          subst Settled (sym (outcome-new id now s free)) (new-Settled id now s fresh distinct free)
    ]

  module _ (find : Codes → Option Factory) (user : Text) (name : Codes)
      (parameters : Option (List Parameter)) where
    define-run :
        (factory : Factory) (normalized : List Parameter) (id now : Text) (s : Store)
        → throw_if (is_blank user) invalid_user ≡ ok tt
        → registered (find name) ≡ ok factory
        → validate_parameters factory parameters ≡ ok normalized
        → define_strategy digest find user name parameters id now s
          ≡ ok (outcome user factory normalized id now s)
    unfolding define_strategy prepare_strategy ◌>>=◌ ◌>>◌
    define-run factory normalized id now s named registers valid =
        rw (named, registers, valid, define_strategy, prepare_strategy) refl

    define-checks :
        (id now : Text) (s : Store) (out : Definition × Store)
        → define_strategy digest find user name parameters id now s ≡ ok out
        → (factory : Factory) × (normalized : List Parameter) × (throw_if
              (is_blank user)
              invalid_user
            ≡ ok tt)
          × (registered (find name) ≡ ok factory)
          × (validate_parameters factory parameters ≡ ok normalized)
    unfolding define_strategy prepare_strategy
    define-checks id now s out h =
        let (p, prepared, h1) =
          >>=-eq-ok (prepare_strategy digest find user name parameters id now s) _ h in
        let (u, named, h2) = >>-eq-ok (throw_if (is_blank user) invalid_user) _ prepared in
        let (factory, registers, h3) = >>=-eq-ok (registered (find name)) _ h2 in
        let (normalized, valid, h4) = >>=-eq-ok (validate_parameters factory parameters) _ h3 in
        (factory, normalized, named, registers, valid)

  -- From definitions of which no two of one owner and family share a digest or a version, a definition
  -- under a new id leads to such definitions again; and defining the same once more answers with the
  -- same definition and changes nothing.
  pub define_strategy-IsLibrary :
      (find : Codes → Option Factory) (user : Text) (name : Codes)
      (parameters : Option (List Parameter)) (id now id' now' : Text) (s s' : Store)
      (d : Definition)
      → lookup_by definition_id id s.definitions ≡ none
      → no_clash (clash digest) s.definitions ≡ true
      → define_strategy digest find user name parameters id now s ≡ ok (d, s')
      → (no_clash (clash digest) s'.definitions ≡ true)
        × (define_strategy digest find user name parameters id' now' s' ≡ ok (d, s'))
  unfolding Settled
  define_strategy-IsLibrary find user name parameters id now id' now' s s' d fresh distinct h =
      let (factory, normalized, named, registers, valid) =
        define-checks find user name parameters id now s (d, s') h in
      let run : ok (d, s') ≡ ok (outcome user factory normalized id now s) =
        sym h
        ∙ define-run find user name parameters factory normalized id now s named registers valid in
      let same_out : outcome user factory normalized id now s ≡ (d, s') = sym (ok-injective run) in
      let settled : Settled user factory normalized (d, s') =
        subst (Settled user factory normalized) same_out
          (outcome-Settled user factory normalized id now s fresh distinct) in
      (
        settled.0,
        define-run find user name parameters factory normalized id' now' s' named registers valid
            ∙ ap ok (settled.1 id' now'),
      )
