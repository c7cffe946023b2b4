-- ===== src/Strategies/Families.antt =====
-- The families of definitions: when two definitions clash, and what is found among those of a family.
use cryptox.Base.{
  ◌+◌, ◌≤◌, max, ◌≡◌, refl, arith, ◌==◌, Bool, true, false, ◌&&◌, ◌||◌, if◌then◌else◌, Bool-cases,
  inl, inr, Option, none, some, List, [], ◌∷◌, ◌++◌, map, any, keep, find_first, lookup_by, set_by,
  Text, Codes, same, same_comm,
}
use cryptox.Strategies.Records.{Parameter, Definition, OwnedDefinition, definition_id}
use cryptox.Strategies.Service.{
  value_of, in_family, latest_version, version_of, digest_of, has_digest,
}

pub set_by-fresh :
    (d : OwnedDefinition) (items : List OwnedDefinition)
    → lookup_by definition_id d.value.id items ≡ none
    → set_by definition_id d items ≡ items ++ d ∷ []
unfolding set_by lookup_by
set_by-fresh d [] h = refl
set_by-fresh d (q ∷ items) h = ground (arith, set_by-fresh d items)

if-none :
    (b : Bool) (d : Definition) (rest : Option Definition)
    → (if b then some d else rest) ≡ none
    → (b ≡ false) × (rest ≡ none)
if-none true d rest h = cc
if-none false d rest h = (refl, h)

module _ (digest : Codes → Text → List Parameter → Text) where
  -- Of one owner and family, with one digest or one version.
  abbrev pub clash : OwnedDefinition → OwnedDefinition → Bool
  clash a b =
      a.owner_user_id == b.owner_user_id
      && same a.value.logical_family_key b.value.logical_family_key
      && (digest_of digest a.value == digest_of digest b.value
          || a.value.version == b.value.version)

  pub clash_comm : (a b : OwnedDefinition) → clash a b ≡ clash b a
  clash_comm a b = ground (arith, same_comm a.value.logical_family_key b.value.logical_family_key)

  -- A definition with a new digest and a later version than the family's clashes with none.
  pub clash-free :
      (user : Text) (key : Codes) (d : OwnedDefinition) (items : List OwnedDefinition)
      → d.owner_user_id ≡ user
      → d.value.logical_family_key ≡ key
      → find_first
          (has_digest digest (digest_of digest d.value))
          (map value_of (keep (in_family user key) items))
        ≡ none
      → latest_version (map version_of (map value_of (keep (in_family user key) items))) + 1
        ≤ d.value.version
      → any (clash d) items ≡ false
  clash-free user key d [] owner family free late = refl
  clash-free user key d (q ∷ items) owner family free late =
      elim (Bool-cases (in_family user key q)) [
        | inl member ↦
            let (differs, rest) =
              if-none (has_digest digest (digest_of digest d.value) q.value) q.value _
                (rw member at free) in
            let later : max q.value.version (
                    latest_version
                      (map version_of (map value_of (keep (in_family user key) items))))
                  + 1
                ≤ d.value.version =
              rw member at late in
            ground
              (arith, differs, later, clash-free user key d items owner family rest (omega arith))
        | inr out ↦ ground (
          arith,
          out,
          owner,
          family,
          same_comm d.value.logical_family_key q.value.logical_family_key,
          clash-free user key d items owner family (rw out at free) (rw out at late),
        )
      ]

  pub find_first-snoc :
      (user : Text) (key : Codes) (hash : Text) (d : OwnedDefinition) (items : List OwnedDefinition)
      → in_family user key d ≡ true
      → has_digest digest hash d.value ≡ true
      → find_first (has_digest digest hash) (map value_of (keep (in_family user key) items)) ≡ none
      → find_first
          (has_digest digest hash)
          (map value_of (keep (in_family user key) (items ++ d ∷ [])))
        ≡ some d.value
  find_first-snoc user key hash d [] member has free = rw (member) (rw has refl)
  find_first-snoc user key hash d (q ∷ items) member has free =
      elim (Bool-cases (in_family user key q)) [
        | inl within ↦
            let (differs, rest) =
              if-none (has_digest digest hash q.value) q.value _ (rw within at free) in
            rw within (rw differs (find_first-snoc user key hash d items member has rest))
        | inr out ↦ rw out (find_first-snoc user key hash d items member has (rw out at free))
      ]
