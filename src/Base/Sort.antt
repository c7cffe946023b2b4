-- ===== src/Base/Sort.antt =====
-- `Array.prototype.sort` with a comparator, which is stable: `le a b` is `compare(a, b) <= 0`.
use Prim.Native.Nat.{suc}
use mathlib.Core.Path.{◌≡◌, refl, ap, subst, ◌∙◌}
use mathlib.Core.Bool.{Bool, true, false}
use mathlib.Core.Logic.{inl, inr}
use mathlib.Core.List.{List, [], ◌∷◌, Perm}
use mathlib.Core.List.Perm
use mathlib.Core.Option.{some, some-injective}
use cryptox.Base.Tests.{if◌then◌else◌, Bool-cases}
use cryptox.Base.Lists.{length, get_last}

-- A property of every item.
abbrev pub All {ℓ κ} : {A : Type ℓ} → (A → Type κ) → List A → Type κ
All P [] = Unit
All P (x ∷ xs) = P x × All P xs

pub All-map {ℓ κ μ} :
    {A : Type ℓ} {P : A → Type κ} {Q : A → Type μ} (xs : List A)
    → ((a : A) → P a → Q a)
    → All P xs
    → All Q xs
All-map [] h v = tt
All-map (x ∷ xs) h (p, v) = (h x p, All-map xs h v)

pub get_last-All {ℓ κ} :
    {A : Type ℓ} (P : A → Type κ) (xs : List A) (z : A) → All P xs → get_last xs ≡ some z → P z
get_last-All P [] z v e = cc
get_last-All P (x ∷ []) z (p, v) e = subst P (some-injective x z e) p
get_last-All P (x ∷ y ∷ ys) z (p, v) e = get_last-All P (y ∷ ys) z v e

module _ {ℓ} {A : Type ℓ} (le : A → A → Bool) where
  unfoldable pub insert_by : A → List A → List A
  insert_by x [] = x ∷ []
  insert_by x (y ∷ ys) = if le x y then x ∷ y ∷ ys else y ∷ insert_by x ys

  unfoldable pub sort_by : List A → List A
  sort_by [] = []
  sort_by (x ∷ xs) = insert_by x (sort_by xs)

  -- Each item is at most every later one.
  abbrev pub IsSorted : List A → Type 0
  IsSorted [] = Unit
  IsSorted (x ∷ xs) = All (λ y. le x y ≡ true) xs × IsSorted xs

  length-insert_by : (x : A) (xs : List A) → length (insert_by x xs) ≡ suc (length xs)
  unfolding insert_by
  length-insert_by x [] = refl
  length-insert_by x (y ∷ ys) = elim (Bool-cases (le x y)) [
    | inl e ↦ rw e refl
    | inr e ↦ rw e (ap suc (length-insert_by x ys))
  ]

  pub length-sort_by : (xs : List A) → length (sort_by xs) ≡ length xs
  unfolding sort_by
  length-sort_by [] = refl
  length-sort_by (x ∷ xs) = length-insert_by x (sort_by xs) ∙ ap suc (length-sort_by xs)

  insert_by-perm : (x : A) (xs : List A) → Perm (insert_by x xs) (x ∷ xs)
  unfolding insert_by
  insert_by-perm x [] = Perm.rfl
  insert_by-perm x (y ∷ ys) = elim (Bool-cases (le x y)) [
    | inl e ↦ rw e Perm.rfl
    | inr e ↦ rw e (Perm.trans (Perm.cons y (insert_by-perm x ys)) (Perm.swap x y ys))
  ]

  -- Sorting keeps every item, as often as it was there.
  pub sort_by-perm : (xs : List A) → Perm (sort_by xs) xs
  unfolding sort_by
  sort_by-perm [] = Perm.rfl
  sort_by-perm (x ∷ xs) = Perm.trans (insert_by-perm x (sort_by xs)) (Perm.cons x (sort_by-perm xs))

  -- Sorting keeps what holds of every item.
  module _ {κ} (P : A → Type κ) where
    insert_by-All : (x : A) (xs : List A) → P x → All P xs → All P (insert_by x xs)
    unfolding insert_by
    insert_by-All x [] p v = (p, tt)
    insert_by-All x (y ∷ ys) p (q, v) = elim (Bool-cases (le x y)) [
      | inl e ↦ rw e (p, (q, v))
      | inr e ↦ rw e (q, insert_by-All x ys p v)
    ]

    All-insert_by : (x : A) (xs : List A) → All P (insert_by x xs) → P x × All P xs
    unfolding insert_by
    All-insert_by x [] v = v
    All-insert_by x (y ∷ ys) v = elim (Bool-cases (le x y)) [
      | inl e ↦ rw e at v
      | inr e ↦ let (q, w) = rw e at v in let (p, u) = All-insert_by x ys w in (p, (q, u))
    ]

    pub sort_by-All : (xs : List A) → All P xs → All P (sort_by xs)
    unfolding sort_by
    sort_by-All [] v = tt
    sort_by-All (x ∷ xs) (p, v) = insert_by-All x (sort_by xs) p (sort_by-All xs v)

    pub All-sort_by : (xs : List A) → All P (sort_by xs) → All P xs
    unfolding sort_by
    All-sort_by [] v = tt
    All-sort_by (x ∷ xs) v = let (p, w) = All-insert_by x (sort_by xs) v in (p, All-sort_by xs w)

  module _ (total : (a b : A) → le a b ≡ false → le b a ≡ true)
      (trans : (a b c : A) → le a b ≡ true → le b c ≡ true → le a c ≡ true) where
    insert_by-IsSorted : (x : A) (xs : List A) → IsSorted xs → IsSorted (insert_by x xs)
    unfolding insert_by
    insert_by-IsSorted x [] v = (tt, tt)
    insert_by-IsSorted x (y ∷ ys) (least, v) = elim (Bool-cases (le x y)) [
      | inl e ↦ rw e ((e, All-map ys (λ z h. trans x y z e h) least), (least, v))
      | inr e ↦
          rw e
            (insert_by-All (λ z. le y z ≡ true) x ys (total x y e) least, insert_by-IsSorted x ys v)
    ]

    pub sort_by-IsSorted : (xs : List A) → IsSorted (sort_by xs)
    unfolding sort_by
    sort_by-IsSorted [] = tt
    sort_by-IsSorted (x ∷ xs) = insert_by-IsSorted x (sort_by xs) (sort_by-IsSorted xs)

  -- A sorted list stays as it is.
  insert_by_least : (x : A) (xs : List A) → All (λ y. le x y ≡ true) xs → insert_by x xs ≡ x ∷ xs
  unfolding insert_by
  insert_by_least x [] v = refl
  insert_by_least x (y ∷ ys) (e, v) = rw e refl

  pub sort_by_of_IsSorted : (xs : List A) → IsSorted xs → sort_by xs ≡ xs
  unfolding sort_by
  sort_by_of_IsSorted [] v = refl
  sort_by_of_IsSorted (x ∷ xs) (least, v) =
      rw (sort_by_of_IsSorted xs v) (insert_by_least x xs least)

  -- The last item is the greatest.
  pub get_last-greatest :
      (xs : List A) (z : A)
      → ((a : A) → le a a ≡ true)
      → IsSorted xs
      → get_last xs ≡ some z
      → All (λ a. le a z ≡ true) xs
  get_last-greatest [] z r v e = tt
  get_last-greatest (x ∷ []) z r v e = (subst (λ w. le x w ≡ true) (some-injective x z e) (r x), tt)
  get_last-greatest (x ∷ y ∷ ys) z r (h, v) e =
      (get_last-All (λ w. le x w ≡ true) (y ∷ ys) z h e, get_last-greatest (y ∷ ys) z r v e)
