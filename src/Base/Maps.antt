-- ===== src/Base/Maps.antt =====
-- JavaScript maps as lists of values with a key of their own, and sets as lists without repetition.
use mathlib.Core.Path.{◌≡◌, refl}
use native.Mathlib.Omega.{arith}
use mathlib.Core.Bool.{Bool, true}
use mathlib.Core.Option.{Option, none, some}
use mathlib.Core.List.{List, [], ◌∷◌, ◌++◌}
use cryptox.Base.Tests.{◌==◌, if◌then◌else◌}
use mathlib.Core.Logic.{inl, inr}
use cryptox.Base.Tests.{Bool-cases}
use cryptox.Base.Sort.{All}
use cryptox.Base.Texts.{keep, Text, any}

-- A value under an old key takes its place.
module _ {A : Type 0} (key : A → Text) where
  unfoldable pub lookup_by : Text → List A → Option A
  lookup_by k [] = none
  lookup_by k (a ∷ as') = if key a == k then some a else lookup_by k as'

  unfoldable pub set_by : A → List A → List A
  set_by a [] = a ∷ []
  set_by a (b ∷ bs) = if key b == key a then a ∷ bs else b ∷ set_by a bs

abbrev pub is_among : Text → List Text → Bool
is_among t ts = any (λ u. u == t) ts

-- `[...new Set([...set, t])]`, where the set has no repetition.
abbrev pub with_text : List Text → Text → List Text
with_text ts t = if is_among t ts then ts else ts ++ t ∷ []

-- `[...new Set(texts)]`, after the texts of a set.
unfoldable pub distinct_after : List Text → List Text → List Text
distinct_after seen [] = seen
distinct_after seen (t ∷ ts) = distinct_after (with_text seen t) ts

unfoldable pub distinct : List Text → List Text
distinct ts = distinct_after [] ts

pub lookup_by-set_by :
    {A : Type 0} (key : A → Text) (k : Text) (a : A) (as' : List A)
    → lookup_by key k (set_by key a as') ≡ (if key a == k then some a else lookup_by key k as')
unfolding lookup_by set_by
lookup_by-set_by key k a [] = refl
lookup_by-set_by key k a (b ∷ bs) = ground (arith, lookup_by-set_by key k a bs)

pub lookup_by-key :
    {A : Type 0} (key : A → Text) (k : Text) (as' : List A) (a : A)
    → lookup_by key k as' ≡ some a
    → key a ≡ k
unfolding lookup_by
lookup_by-key key k [] a h = absurd (ground arith)
lookup_by-key key k (b ∷ bs) a h = ground (arith, lookup_by-key key k bs a)

pub keep-All {ℓ} :
    {A : Type ℓ} (test : A → Bool) (xs : List A) → All (λ x. test x ≡ true) (keep test xs)
keep-All test [] = tt
keep-All test (x ∷ xs) = elim (Bool-cases (test x)) [
  | inl keeps ↦ rw keeps (keeps, keep-All test xs)
  | inr drops ↦ rw drops (keep-All test xs)
]
