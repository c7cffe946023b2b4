-- ===== src/Base/Outcome.antt =====
-- Code that may throw: a value or the error that is thrown.
use mathlib.Core.Logic.{◌⊎◌, inl, inr}
use mathlib.Core.Path.{◌≡◌, refl, subst}
use cryptox.Base.Tests.{if◌then◌else◌}
use mathlib.Core.Bool.{Bool, true, false}

pub data Result (E A : Type 0) : Type 0 where
  ok : A → Result E A
  err : E → Result E A

infixl 5 ◌>>=◌ ◌>>◌
unfoldable pub ◌>>=◌ : {E A B : Type 0} → Result E A → (A → Result E B) → Result E B
ok a >>= f = f a
err e >>= f = err e

unfoldable pub ◌>>◌ : {E B : Type 0} → Result E (Unit {0}) → Result E B → Result E B
unfolding ◌>>=◌
m >> k = m >>= λ _. k

-- `if (b) throw e`
unfoldable pub throw_if : {E : Type 0} → Bool → E → Result E (Unit {0})
throw_if true e = err e
throw_if false e = ok tt

pub >>=-eq-ok :
    {E A B : Type 0} (m : Result E A) (f : A → Result E B) {b : B}
    → (m >>= f) ≡ ok b
    → (a : A) × (m ≡ ok a) × (f a ≡ ok b)
unfolding ◌>>=◌
>>=-eq-ok (ok a) f h = (a, refl, h)
>>=-eq-ok (err e) f h = cc

pub >>-eq-ok :
    {E B : Type 0} (m : Result E (Unit {0})) (r : Result E B) {b : B}
    → (m >> r) ≡ ok b
    → (u : Unit {0}) × (m ≡ ok u) × (r ≡ ok b)
unfolding ◌>>◌
>>-eq-ok (ok a) r h = (a, refl, h)
>>-eq-ok (err e) r h = cc

pub throw_if-eq-ok :
    {E : Type 0} (b : Bool) (e : E) {u : Unit {0}} → throw_if b e ≡ ok u → b ≡ false
unfolding throw_if
throw_if-eq-ok true e h = cc
throw_if-eq-ok false e h = refl

-- Whatever is returned has `P`; it may be that an error is thrown.
pub data Ensures {E A : Type 0} (P : A → Type 0) : Result E A → Type 0 where
  returned : {a : A} → P a → Ensures P (ok a)
  thrown : {e : E} → Ensures P (err e)

pub bind-Ensures :
    {E A B : Type 0} {P : B → Type 0} (m : Result E A) (f : A → Result E B)
    → ((a : A) → m ≡ ok a → Ensures P (f a))
    → Ensures P (m >>= f)
unfolding ◌>>=◌
bind-Ensures (ok a) f h = h a refl
bind-Ensures (err e) f h = thrown

pub then-Ensures :
    {E B : Type 0} {P : B → Type 0} (m : Result E (Unit {0})) (r : Result E B)
    → ((u : Unit {0}) → m ≡ ok u → Ensures P r)
    → Ensures P (m >> r)
unfolding ◌>>◌
then-Ensures (ok a) f h = h a refl
then-Ensures (err e) f h = thrown

pub if-Ensures :
    {E A : Type 0} {P : A → Type 0} (b : Bool) (x y : Result E A)
    → (b ≡ true → Ensures P x)
    → (b ≡ false → Ensures P y)
    → Ensures P (if b then x else y)
if-Ensures true x y h k = h refl
if-Ensures false x y h k = k refl

abbrev ValueHas : {E A : Type 0} → (A → Type 0) → Result E A → Type 0
ValueHas P (ok a) = P a
ValueHas P (err e) = Unit

Ensures-value : {E A : Type 0} {P : A → Type 0} {r : Result E A} → Ensures P r → ValueHas P r
Ensures-value (returned p) = p
Ensures-value thrown = tt

-- What was ensured of a call, of the value that it returned.
pub Ensures-eq :
    {E A : Type 0} {P : A → Type 0} {r : Result E A} {a : A} → Ensures P r → r ≡ ok a → P a
Ensures-eq {P} h e = subst (ValueHas P) e (Ensures-value h)

-- A call of which something is ensured, and what follows it.
pub Ensures-bind :
    {E A B : Type 0} {Q : A → Type 0} {P : B → Type 0} {m : Result E A} (f : A → Result E B)
    → Ensures Q m
    → ((a : A) → Q a → Ensures P (f a))
    → Ensures P (m >>= f)
unfolding ◌>>=◌
Ensures-bind f (returned q) h = h _ q
Ensures-bind f thrown h = thrown

pub Ensures-map :
    {E A : Type 0} {Q P : A → Type 0} {r : Result E A}
    → Ensures Q r
    → ((a : A) → Q a → P a)
    → Ensures P r
Ensures-map (returned q) h = returned (h _ q)
Ensures-map thrown h = thrown

pub bind_assoc :
    {E A B C : Type 0} (m : Result E A) (f : A → Result E B) (g : B → Result E C)
    → ((m >>= f) >>= g) ≡ (m >>= λ a. f a >>= g)
unfolding ◌>>=◌
bind_assoc (ok a) f g = refl
bind_assoc (err e) f g = refl

pub Result-cases :
    {E A : Type 0} (r : Result E A) → ((a : A) × (r ≡ ok a)) ⊎ ((e : E) × (r ≡ err e))
Result-cases (ok a) = inl (a, refl)
Result-cases (err e) = inr (e, refl)
