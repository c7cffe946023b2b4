-- ===== src/Base/Pairs.antt =====
-- Lists of which no two members clash, for maps that are written as lists.
use mathlib.Core.Path.{◌≡◌, refl}
use mathlib.Core.Bool.{Bool, true, false, not, ◌&&◌, ◌||◌}
use mathlib.Core.List.{List, [], ◌∷◌, ◌++◌}
use native.Mathlib.Omega.{arith}
use cryptox.Base.Texts.{any}

module _ {A : Type 0} where
  abbrev pub no_clash : (A → A → Bool) → List A → Bool
  no_clash clash [] = true
  no_clash clash (x ∷ xs) = not (any (clash x) xs) && no_clash clash xs

  pub any-snoc :
      (test : A → Bool) (xs : List A) (y : A) → any test (xs ++ y ∷ []) ≡ any test xs || test y
  any-snoc test [] y = ground arith
  any-snoc test (x ∷ xs) y = ground (arith, any-snoc test xs y)

  pub no_clash-snoc :
      (clash : A → A → Bool) (xs : List A) (y : A)
      → ((x : A) → clash x y ≡ clash y x)
      → no_clash clash xs ≡ true
      → any (clash y) xs ≡ false
      → no_clash clash (xs ++ y ∷ []) ≡ true
  no_clash-snoc clash [] y comm h free = refl
  no_clash-snoc clash (x ∷ xs) y comm h free =
      ground (arith, any-snoc (clash x) xs y, comm x, no_clash-snoc clash xs y comm)
