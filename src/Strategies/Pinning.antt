-- ===== src/Strategies/Pinning.antt =====
-- The factory that modules/strategy/application/service.ts resolves for a definition.
use cryptox.Base.{
  ◌≡◌, refl, ◌∙◌, if-Ensures, Ensures-eq, arith, true, Option-cases, inl, inr, Option, none, some,
  List, [], ◌∷◌, ◌++◌, find_first, Result, ok, err, Ensures, returned, thrown, Text, Codes,
  eq_of_same, ==_iff,
}
use cryptox.Strategies.Records.{Factory, Definition}
use cryptox.Strategies.Parameters.{same_artifact}
use cryptox.Strategies.Artifacts.{
  Unavailable, implementation_artifact_unavailable, Retained, is_retained_for, exact_factory,
  retain, resolve_retained_factory, are_exact,
}

-- A factory of the name and the hash of a definition.
abbrev pub IsPinned : Definition → Factory → Type 0
IsPinned d factory =
    (factory.descriptor.name ≡ d.strategy_name)
    × (factory.descriptor.implementation_sha256 ≡ d.implementation_sha256)

same_artifact-IsPinned :
    (d : Definition) (factory : Factory)
    → same_artifact d.strategy_name d.implementation_sha256 factory ≡ true
    → IsPinned d factory
same_artifact-IsPinned d factory h = (eq_of_same _ _ (ground arith), (==_iff _ _).0 (ground arith))

are_exact-snoc :
    (retained : List Retained) (r : Retained)
    → are_exact retained ≡ true
    → same_artifact r.strategy_name r.implementation_sha256 r.factory ≡ true
    → are_exact (retained ++ r ∷ []) ≡ true
are_exact-snoc [] r h k = ground arith
are_exact-snoc (q ∷ retained) r h k = ground (arith, are_exact-snoc retained r)

-- What a retained factory that is found is.
found-exact :
    (d : Definition) (retained : List Retained) (r : Retained)
    → are_exact retained ≡ true
    → find_first (is_retained_for d) retained ≡ some r
    → (is_retained_for d r ≡ true)
      × (same_artifact r.strategy_name r.implementation_sha256 r.factory ≡ true)
found-exact d [] r h found = absurd (ground arith)
found-exact d (q ∷ retained) r h found =
    (ground (arith, found-exact d retained r), ground (arith, found-exact d retained r))

found-IsPinned :
    (d : Definition) (r : Retained)
    → is_retained_for d r ≡ true
    → same_artifact r.strategy_name r.implementation_sha256 r.factory ≡ true
    → IsPinned d r.factory
found-IsPinned d r h k =
    let name = eq_of_same r.strategy_name d.strategy_name (ground arith) in
    let own = eq_of_same r.factory.descriptor.name r.strategy_name (ground arith) in
    (own ∙ name, ground arith)

retain-IsPinned :
    (d : Definition) (resolved : Result Unavailable Factory) (retained : List Retained)
    → are_exact retained ≡ true
    → Ensures
        (λ (f : Factory). same_artifact d.strategy_name d.implementation_sha256 f ≡ true)
        resolved
    → (are_exact (retain d resolved retained).1 ≡ true)
      × Ensures (IsPinned d) (retain d resolved retained).0
retain-IsPinned d (err e) retained h k = (h, thrown)
retain-IsPinned d (ok factory) retained h k = (
  are_exact-snoc retained _ h (Ensures-eq k refl),
  returned (same_artifact-IsPinned d factory (Ensures-eq k refl)),
)

exact_factory-exact :
    (d : Definition) (found : Option Factory)
    → Ensures
        (λ (f : Factory). same_artifact d.strategy_name d.implementation_sha256 f ≡ true)
        (exact_factory d found)
unfolding exact_factory
exact_factory-exact d none = thrown
exact_factory-exact d (some factory) =
    if-Ensures (same_artifact d.strategy_name d.implementation_sha256 factory) (ok factory)
      (err implementation_artifact_unavailable) (λ h. returned h) (λ h. thrown)

-- Where every retained factory has the name and the hash that it is retained under, so it is after a
-- definition is resolved; and the factory that is answered has the name and the hash of the definition,
-- whatever the resolver gives.
pub resolve_retained_factory-IsPinned :
    (resolve : Codes → Text → Option Factory) (d : Definition) (retained : List Retained)
    → are_exact retained ≡ true
    → (are_exact (resolve_retained_factory resolve d retained).1 ≡ true)
      × Ensures (IsPinned d) (resolve_retained_factory resolve d retained).0
unfolding resolve_retained_factory
resolve_retained_factory-IsPinned resolve d retained h =
    elim (Option-cases (find_first (is_retained_for d) retained)) [
      | inl free ↦
          rw (free, resolve_retained_factory)
            (retain-IsPinned d (exact_factory d (resolve d.strategy_name d.implementation_sha256))
              retained h (exact_factory-exact d _))
      | inr (r, found) ↦
          rw (found, resolve_retained_factory)
            (
              h,
              returned (
                  found-IsPinned d r (found-exact d retained r h found).0
                    (found-exact d retained r h found).1),
            )
    ]
