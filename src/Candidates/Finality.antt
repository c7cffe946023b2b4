-- ===== src/Candidates/Finality.antt =====
-- What the operations on the candidates keep: the seal of each, and a candidate that is final.
use cryptox.Base.{
  not, refl, ◌==◌, ◌≡◌, sym, subst, ◌∙◌, arith, Bool, true, false, Option, none, some, List, [],
  ◌∷◌, Text, keep, lookup_by, set_by, lookup_by-set_by, Bool-cases, Option-cases, lookup_by-key,
  if◌then◌else◌, ◌⊎◌, inl, inr, All, ==_iff,
}
use mathlib.Core.Option.{some-injective}
use cryptox.Candidates.Records.{
  Candidate, Store, candidate_key, get_candidate, put_candidate, is_pending_completion,
}
use cryptox.Candidates.Scopes.{is_outside, delete_scope, delete_scope-candidates}
use cryptox.Candidates.Recovery.{cancelled_candidate, cancel_candidate, roll_back_candidate}
use cryptox.Candidates.Effects.{is_final, IsSealed, Effect, same, moved, added, found_by_own}
use cryptox.Candidates.WorkerEffects.{cancel_candidate-written}

abbrev pub AllSealed : Store → Type 0
AllSealed s = All IsSealed s.candidates

pub set_by-All :
    (x : Candidate) (cs : List Candidate)
    → IsSealed x
    → All IsSealed cs
    → All IsSealed (set_by candidate_key x cs)
unfolding set_by
set_by-All x [] p v = (p, tt)
set_by-All x (c ∷ cs) p (q, v) = elim (Bool-cases (c.candidate_id == x.candidate_id)) [
  | inl e ↦ rw e (p, v)
  | inr e ↦ rw e (q, set_by-All x cs p v)
]

pub lookup_by-All :
    (id : Text) (cs : List Candidate) (c : Candidate)
    → All IsSealed cs
    → lookup_by candidate_key id cs ≡ some c
    → IsSealed c
unfolding lookup_by
lookup_by-All id [] c v h = absurd (ground arith)
lookup_by-All id (d ∷ cs) c (p, v) h = elim (Bool-cases (d.candidate_id == id)) [
  | inl e ↦ subst IsSealed (some-injective d c (rw e at h)) p
  | inr e ↦ lookup_by-All id cs c v (rw e at h)
]

pub Effect-AllSealed :
    (used : Option Text) (s s' : Store) → Effect used s s' → AllSealed s → AllSealed s'
Effect-AllSealed used s s' (same e) v = subst (All IsSealed) (sym e) v
Effect-AllSealed used s s' (moved c x found keeps moves stays e) v =
    subst (All IsSealed) (sym e)
      (set_by-All x s.candidates (moves (lookup_by-All c.candidate_id s.candidates c v found)).1 v)
Effect-AllSealed used s s' (added x new p e) v =
    subst (All IsSealed) (sym e) (set_by-All x s.candidates p v)

pub Effect-final :
    (used : Option Text) (s s' : Store) (id : Text) (c : Candidate)
    → Effect used s s'
    → AllSealed s
    → get_candidate id s ≡ some c
    → is_final c.status ≡ true
    → get_candidate id s' ≡ some c
Effect-final used s s' id c (same e) v h f = rw e h
Effect-final used s s' id c (moved d x found keeps moves stays e) v h f =
    elim (Bool-cases (x.candidate_id == id)) [
      | inl own ↦
          let same_id : d.candidate_id ≡ id = sym keeps ∙ (==_iff x.candidate_id id).0 own in
          let found' : get_candidate id s ≡ some d =
            subst (λ (k : Text). get_candidate k s ≡ some d) same_id found in
          let d_is_c : d ≡ c = some-injective d c (sym found' ∙ h) in
          let unfinal : is_final d.status ≡ false =
            (moves (lookup_by-All d.candidate_id s.candidates d v found)).0 in
          let unfinal' : is_final c.status ≡ false =
            subst (λ (y : Candidate). is_final y.status ≡ false) d_is_c unfinal in
          absurd (ground (arith, sym f ∙ unfinal'))
      | inr other ↦ rw e (lookup_by-set_by candidate_key id x s.candidates ∙ rw other h)
    ]
Effect-final used s s' id c (added x new p e) v h f = elim (Bool-cases (x.candidate_id == id)) [
  | inl own ↦
      let missing : get_candidate id s ≡ none =
        subst (λ (k : Text). get_candidate k s ≡ none) ((==_iff x.candidate_id id).0 own) new in
      absurd (ground (arith, sym missing ∙ h))
  | inr other ↦ rw e (lookup_by-set_by candidate_key id x s.candidates ∙ rw other h)
]

keep-AllSealed :
    (test : Candidate → Bool) (cs : List Candidate) → All IsSealed cs → All IsSealed (keep test cs)
keep-AllSealed test [] v = tt
keep-AllSealed test (c ∷ cs) (p, v) = elim (Bool-cases (test c)) [
  | inl kept ↦ rw kept (p, keep-AllSealed test cs v)
  | inr dropped ↦ rw dropped (keep-AllSealed test cs v)
]

lookup_by-keep :
    (test : Candidate → Bool) (id : Text) (c : Candidate) (cs : List Candidate)
    → lookup_by candidate_key id cs ≡ some c
    → test c ≡ true
    → lookup_by candidate_key id (keep test cs) ≡ some c
unfolding lookup_by
lookup_by-keep test id c [] h kept = absurd (ground (arith, h))
lookup_by-keep test id c (d ∷ cs) h kept = elim (Bool-cases (d.candidate_id == id)) [
  | inl own ↦
      let d_is_c : d ≡ c = some-injective d c (rw own at h) in
      let kept_d : test d ≡ true = subst (λ (x : Candidate). test x ≡ true) (sym d_is_c) kept in
      rw (kept_d, own) (rw own at h)
  | inr other ↦
      let rest = lookup_by-keep test id c cs (rw other at h) kept in
      elim (Bool-cases (test d)) [ inl stays ↦ rw (stays, other) rest | inr goes ↦ rw goes rest ]
]

pub delete_scope-AllSealed :
    (scope owner : Text) (s : Store) → AllSealed s → AllSealed (delete_scope scope owner s).1
delete_scope-AllSealed scope owner s v = elim (delete_scope-candidates scope owner s) [
  | inl e ↦ subst (All IsSealed) (sym e) v
  | inr e ↦ subst (All IsSealed) (sym e) (keep-AllSealed (is_outside scope) s.candidates v)
]

pub delete_scope-keeps :
    (scope owner id : Text) (c : Candidate) (s : Store)
    → get_candidate id s ≡ some c
    → is_outside scope c ≡ true
    → get_candidate id (delete_scope scope owner s).1 ≡ some c
delete_scope-keeps scope owner id c s h other = elim (delete_scope-candidates scope owner s) [
  | inl e ↦ rw e h
  | inr e ↦ rw e (lookup_by-keep (is_outside scope) id c s.candidates h other)
]

-- A copy read under an id, of the candidate with another id, is that of the other candidate where
-- its own id is that.
pub same_copy :
    (read_id id : Text) (s : Store) (d c : Candidate)
    → get_candidate read_id s ≡ some d
    → get_candidate id s ≡ some c
    → d.candidate_id ≡ id
    → d ≡ c
same_copy read_id id s d c read h own =
    some-injective d c (
      sym (subst (λ (k : Text). get_candidate k s ≡ some d) own (found_by_own read_id s d read))
      ∙ h)

-- A cancellation writes a copy that was read, and sealed, some time before.
pub cancel_candidate-AllSealed :
    (now : Text) (c : Candidate) (s : Store)
    → IsSealed c
    → AllSealed s
    → AllSealed (cancel_candidate now c s)
unfolding cancelled_candidate is_pending_completion
cancel_candidate-AllSealed now c s p v = elim (cancel_candidate-written now c s) [
  | inl e ↦ subst (All IsSealed) (sym e) v
  | inr (unfinal, e) ↦
      subst (All IsSealed) (sym e)
        (set_by-All (cancelled_candidate now c) s.candidates (ground (arith, p)) v)
]

pub cancel_candidate-keeps :
    (now id : Text) (c d : Candidate) (s : Store)
    → get_candidate id s ≡ some c
    → is_final c.status ≡ true
    → (d.candidate_id ≡ id → d ≡ c)
    → get_candidate id (cancel_candidate now d s) ≡ some c
unfolding cancelled_candidate
cancel_candidate-keeps now id c d s h f read = elim (cancel_candidate-written now d s) [
  | inl e ↦ rw e h
  | inr (unfinal, e) ↦ elim (Bool-cases (d.candidate_id == id)) [
    | inl own ↦
        let d_is_c : d ≡ c = read ((==_iff d.candidate_id id).0 own) in
        absurd (
          ground
            (arith, sym f ∙ subst (λ (y : Candidate). is_final y.status ≡ false) d_is_c unfinal))
    | inr other ↦
        rw e
          (lookup_by-set_by candidate_key id (cancelled_candidate now d) s.candidates ∙ rw other h)
  ]
]

-- A cancellation that is rolled back puts back what it found, in `t`, into the store of that moment.
pub roll_back_candidate-AllSealed :
    (id : Text) (t u : Store)
    → AllSealed t
    → AllSealed u
    → AllSealed (roll_back_candidate id (get_candidate id t) u)
unfolding roll_back_candidate
roll_back_candidate-AllSealed id t u v w = elim (Option-cases (get_candidate id t)) [
  | inl missing ↦
      rw missing (keep-AllSealed (λ (c : Candidate). not (c.candidate_id == id)) u.candidates w)
  | inr (c, found) ↦
      rw found (set_by-All c u.candidates (lookup_by-All id t.candidates c v found) w)
]

pub roll_back_candidate-found :
    (rolled id : Text) (c d : Candidate) (t u : Store)
    → get_candidate id t ≡ some c
    → get_candidate id u ≡ some d
    → (get_candidate id (roll_back_candidate rolled (get_candidate rolled t) u) ≡ some c)
      ⊎ (get_candidate id (roll_back_candidate rolled (get_candidate rolled t) u) ≡ some d)
unfolding roll_back_candidate
roll_back_candidate-found rolled id c d t u h k = elim (Option-cases (get_candidate rolled t)) [
  | inl missing ↦
      let own : d.candidate_id ≡ id = lookup_by-key candidate_key id u.candidates d k in
      elim (Bool-cases (d.candidate_id == rolled)) [
        | inl e ↦
            let same_id : rolled ≡ id = sym ((==_iff d.candidate_id rolled).0 e) ∙ own in
            let gone : get_candidate id t ≡ none =
              subst (λ (i : Text). get_candidate i t ≡ none) same_id missing in
            absurd (ground (arith, sym gone ∙ h))
        | inr e ↦ inr (
            rw missing (
              lookup_by-keep (λ (x : Candidate). not (x.candidate_id == rolled)) id d u.candidates k
                (ground (arith, e))))
      ]
  | inr (x, found) ↦
      let written : get_candidate id (put_candidate x u)
          ≡ (if x.candidate_id == id then some x else get_candidate id u) =
        lookup_by-set_by candidate_key id x u.candidates in
      elim (Bool-cases (x.candidate_id == id)) [
        | inl own ↦
            let x_is_c : x ≡ c =
              same_copy rolled id t x c found h ((==_iff x.candidate_id id).0 own) in
            inl (rw found (written ∙ rw (own, x_is_c) refl))
        | inr apart ↦ inr (rw found (written ∙ rw (apart, k) refl))
      ]
]
