-- ===== src/Leaderboard/Boards.antt =====
-- The boards that the rows of the in-memory entry repository hold
-- (modules/leaderboard/application/service.ts), and what inserting and retiring do to them.
use cryptox.Base.{
  lookup_by, set_by, ℕ, ◌+◌, ◌<◌, ◌≤◌, ◌≡◌, ◌≢◌, ◌⊎◌, inl, inr, refl, ap, arith, ◌==◌, not, true,
  false, none, List, [], ◌∷◌, ◌++◌, map, Text, length, keep, Bool-cases,
}
use cryptox.Leaderboard.Ranking.{Entry}
use cryptox.Leaderboard.Store.{Row, is_active_in, retire}

abbrev pub board : Text → List Row → List Entry
board scope rows = map (λ (r : Row). r.entry) (keep (is_active_in scope) rows)

-- The entries but those with an id.
abbrev pub without : ℕ → List Entry → List Entry
without k es = keep (λ (e : Entry). not (e.id == k)) es

abbrev pub HasId : ℕ → List Entry → Type 0
HasId k [] = ⊥
HasId k (e ∷ es) = (e.id ≡ k) ⊎ HasId k es

-- The ids of the rows ascend, above one number and up to another.
abbrev pub IdsBetween : ℕ → List Row → ℕ → Type 0
IdsBetween lo [] hi = lo ≤ hi
IdsBetween lo (r ∷ rs) hi = (lo < r.entry.id) × IdsBetween r.entry.id rs hi

pub board-retire :
    (scope : Text) (k : ℕ) (rows : List Row)
    → board scope (map (retire k) rows) ≡ without k (board scope rows)
unfolding retire is_active_in
board-retire scope k [] = refl
board-retire scope k (r ∷ rs) = ground (arith, board-retire scope k rs)

pub board-append :
    (scope : Text) (rows : List Row) (r : Row)
    → is_active_in scope r ≡ true
    → board scope (rows ++ r ∷ []) ≡ board scope rows ++ r.entry ∷ []
board-append scope [] r h = rw h refl
board-append scope (q ∷ qs) r h = elim (Bool-cases (is_active_in scope q)) [
  | inl e ↦ rw e (ap (◌∷◌ q.entry) (board-append scope qs r h))
  | inr e ↦ rw e (board-append scope qs r h)
]

pub board-append_other :
    (scope : Text) (rows : List Row) (r : Row)
    → is_active_in scope r ≡ false
    → board scope (rows ++ r ∷ []) ≡ board scope rows
board-append_other scope [] r h = rw h refl
board-append_other scope (q ∷ qs) r h = elim (Bool-cases (is_active_in scope q)) [
  | inl e ↦ rw e (ap (◌∷◌ q.entry) (board-append_other scope qs r h))
  | inr e ↦ rw e (board-append_other scope qs r h)
]

-- A new key goes to the end of a map.
pub set_by_new :
    {A : Type 0} (key : A → Text) (a : A) (as' : List A)
    → lookup_by key (key a) as' ≡ none
    → set_by key a as' ≡ as' ++ a ∷ []
unfolding lookup_by set_by
set_by_new key a [] h = refl
set_by_new key a (b ∷ bs) h = elim (Bool-cases (key b == key a)) [
  | inl e ↦ absurd (ground arith)
  | inr e ↦ rw e (ap (◌∷◌ b) (set_by_new key a bs (ground arith)))
]

length-without-le : (k : ℕ) (es : List Entry) → length (without k es) ≤ length es
length-without-le k [] = omega arith
length-without-le k (e ∷ es) = ground (arith, length-without-le k es)

pub length-without : (k : ℕ) (es : List Entry) → HasId k es → length (without k es) < length es
length-without k [] h = absurd h
length-without k (e ∷ es) (inl h) = ground (arith, length-without-le k es)
length-without k (e ∷ es) (inr h) = ground (arith, length-without k es h)

-- Ids above a number are not that number.
without_below :
    (scope : Text) (k lo hi : ℕ) (rows : List Row)
    → k ≤ lo
    → IdsBetween lo rows hi
    → without k (board scope rows) ≡ board scope rows
unfolding is_active_in
without_below scope k lo hi [] h v = refl
without_below scope k lo hi (r ∷ rs) h (l, v) =
    ground (arith, without_below scope k r.entry.id hi rs (omega arith) v)

HasId-above :
    (scope : Text) (k lo hi : ℕ) (rows : List Row)
    → IdsBetween lo rows hi
    → HasId k (board scope rows)
    → lo < k
unfolding is_active_in
HasId-above scope k lo hi [] v h = absurd h
HasId-above scope k lo hi (r ∷ rs) (l, v) h = elim (Bool-cases (is_active_in scope r)) [
  | inl e ↦ elim (rw (e) at h) [
    | inl i ↦ omega (arith, i)
    | inr t ↦ omega (arith, HasId-above scope k r.entry.id hi rs v t)
  ]
  | inr e ↦ omega (arith, HasId-above scope k r.entry.id hi rs v (rw (e) at h))
]

-- Removing an entry of one board by its id leaves the other boards alone.
pub without_other :
    (scope other : Text) (k lo hi : ℕ) (rows : List Row)
    → scope ≢ other
    → IdsBetween lo rows hi
    → HasId k (board scope rows)
    → without k (board other rows) ≡ board other rows
unfolding is_active_in
without_other scope other k lo hi [] ne v h = refl
without_other scope other k lo hi (r ∷ rs) ne (l, v) h = elim (Bool-cases (is_active_in scope r)) [
  | inl e ↦ elim (rw (e) at h) [
    | inl i ↦ not_both e (without_below other k r.entry.id hi rs (omega (arith, i)) v)
    | inr t ↦ not_both e (without_other scope other k r.entry.id hi rs ne v t)
  ]
  | inr e ↦
      let t : HasId k (board scope rs) = rw (e) at h in
      ground (
        arith,
        HasId-above scope k r.entry.id hi rs v t,
        without_other scope other k r.entry.id hi rs ne v t,
      )
]
  where
    not_both :
        is_active_in scope r ≡ true
        → without k (board other rs) ≡ board other rs
        → without k (board other (r ∷ rs)) ≡ board other (r ∷ rs)
    not_both e same = ground arith

pub IdsBetween-append :
    (lo hi : ℕ) (rows : List Row) (r : Row)
    → IdsBetween lo rows hi
    → r.entry.id ≡ hi + 1
    → IdsBetween lo (rows ++ r ∷ []) (hi + 1)
IdsBetween-append lo hi [] r v e = (omega arith, omega arith)
IdsBetween-append lo hi (q ∷ qs) r (l, v) e = (l, IdsBetween-append q.entry.id hi qs r v e)

pub IdsBetween-retire :
    (k lo hi : ℕ) (rows : List Row) → IdsBetween lo rows hi → IdsBetween lo (map (retire k) rows) hi
unfolding retire
IdsBetween-retire k lo hi [] v = v
IdsBetween-retire k lo hi (r ∷ rs) (l, v) = ground (arith, IdsBetween-retire k r.entry.id hi rs v)
