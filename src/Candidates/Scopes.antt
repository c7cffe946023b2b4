-- ===== src/Candidates/Scopes.antt =====
-- The benchmark scopes of InMemoryBacktestingRepository in modules/backtesting/application/service.ts.
use cryptox.Base.{
  ◌==◌, ◌≡◌, ◌⊎◌, refl, inl, inr, Bool-cases, Option-cases, Bool, true, false, not, ◌&&◌, ◌||◌, leb,
  Option, none, some, List, [], ◌∷◌, Text, keep, sort_by, find_first, lookup_by, set_by,
  if◌then◌else◌,
}
use cryptox.Candidates.Records.{Candidate, Scope, ScopeKey, Store, is_given, is_token}

abbrev scope_key : Scope → Text
scope_key b = b.id

abbrev same_scope_key : Text → Text → ScopeKey → Bool
same_scope_key owner text k = k.owner_user_id == owner && k.key == text

abbrev set_scope_key : ScopeKey → List ScopeKey → List ScopeKey
set_scope_key k [] = k ∷ []
set_scope_key k (l ∷ keys) =
    if same_scope_key k.owner_user_id k.key l then k ∷ keys else l ∷ set_scope_key k keys

unfoldable pub create_scope : Scope → Text → Store → Store
create_scope b text s = record s {
  scopes = set_by scope_key b s.scopes;
  scope_keys =
      set_scope_key (record { owner_user_id = b.owner_user_id; key = text; scope_id = b.id })
        s.scope_keys;
}

unfoldable pub find_scope_by_idempotency : Text → Text → Store → Option Scope
find_scope_by_idempotency owner text s =
    elim (find_first (same_scope_key owner text) s.scope_keys) [
      | none ↦ none
      | some k ↦
          if is_given (some k.scope_id) then lookup_by scope_key k.scope_id s.scopes else none
    ]

unfoldable pub read_scope : Text → Option Text → Store → Option Scope
read_scope id owner s = elim (lookup_by scope_key id s.scopes) [
  | none ↦ none
  | some b ↦ if not (is_given owner) || is_token owner b.owner_user_id then some b else none
]

-- The order of the texts of dates and ids is that of `localeCompare`.
abbrev created_before : Scope → Scope → Bool
created_before a b =
    if a.created_at == b.created_at then leb a.id b.id else leb a.created_at b.created_at

unfoldable pub list_scopes_by_owner : Text → Store → List Scope
list_scopes_by_owner owner s =
    sort_by created_before (keep (λ (b : Scope). b.owner_user_id == owner) s.scopes)

-- A candidate of another scope.
abbrev pub is_outside : Text → Candidate → Bool
is_outside scope c = not (c.leaderboard_scope_id == scope)

abbrev removed_scope : Text → Store → Store
removed_scope id s = record s {
  candidates = keep (is_outside id) s.candidates;
  scopes = keep (λ (b : Scope). not (b.id == id)) s.scopes;
  scope_keys = keep (λ (k : ScopeKey). not (k.scope_id == id)) s.scope_keys;
}

-- Whether the scope is deleted, and the store.
unfoldable pub delete_scope : Text → Text → Store → Bool × Store
delete_scope id owner s = elim (lookup_by scope_key id s.scopes) [
  | none ↦ (false, s)
  | some b ↦ if b.owner_user_id == owner then (true, removed_scope id s) else (false, s)
]

pub create_scope-candidates :
    (b : Scope) (key : Text) (s : Store) → (create_scope b key s).candidates ≡ s.candidates
unfolding create_scope
create_scope-candidates b key s = refl

pub delete_scope-candidates :
    (id owner : Text) (s : Store)
    → ((delete_scope id owner s).1.candidates ≡ s.candidates)
      ⊎ ((delete_scope id owner s).1.candidates ≡ keep (is_outside id) s.candidates)
unfolding delete_scope
delete_scope-candidates id owner s = elim (Option-cases (lookup_by scope_key id s.scopes)) [
  | inl missing ↦ inl (rw (delete_scope, missing) refl)
  | inr (b, found) ↦ elim (Bool-cases (b.owner_user_id == owner)) [
    | inl own ↦ inr (rw (delete_scope, found, own) refl)
    | inr foreign ↦ inl (rw (delete_scope, found, foreign) refl)
  ]
]
