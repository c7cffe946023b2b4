-- ===== src/Leaderboard/Admission.antt =====
-- What `submit` of modules/leaderboard/application/service.ts does to the boards.
use cryptox.Base.{
  lookup_by, ℕ, ◌+◌, ◌<◌, ◌≤◌, ◌≡◌, ◌≢◌, ◌⊎◌, inl, inr, refl, ap, ◌∙◌, arith, ◌==◌, true, none,
  some, List, [], ◌∷◌, ◌++◌, map, Text, length, length-append, Bool-cases, get_last, get_last-All,
  All, All-map, ℤ, ◌<ℤ◌, subst,
}
use cryptox.Leaderboard.Ranking.{Entry, ranks_before, rank_entries}
use cryptox.Leaderboard.Ranks.{rank_entries-take, rank_entries-All, rank_entries_last}
use cryptox.Leaderboard.Store.{
  Row, Store, row_key, is_active_in, active_entries, retire, get_active_top_k,
  get_by_experiment_result_id,
}
use cryptox.Leaderboard.Boards.{
  board, without, HasId, IdsBetween, board-retire, board-append, board-append_other, length-without,
  without_other, IdsBetween-append, IdsBetween-retire,
}
use cryptox.Leaderboard.Service.{Experiment, top_k_limit}

-- Entry ids ascend up to the sequence number, and no board is overfull.
pub record Inv (s : Store) : Type 0 where
  pub ids : IdsBetween 0 s.rows s.sequence
  pub bounded : (scope : Text) → length (board scope s.rows) ≤ 10

-- The entry that an experiment is given.
abbrev pub IsEntryOf : Experiment → Entry → Type 0
IsEntryOf x new =
    (x.overall_score ≡ some new.score)
    × (new.experiment_result_id ≡ x.id)
    × (new.leaderboard_scope_id ≡ x.leaderboard_scope_id)

-- What a submission does to the board of its scope: nothing; or it adds an entry, to a board with
-- room; or it adds an entry to a full board in place of the lowest one, which the new one outscores.
pub data BoardChange (id_text : ℕ → Text) (x : Experiment) (before after : List Entry)
    : Type 0 where
  kept : after ≡ before → BoardChange id_text x before after
  added :
      (new : Entry)
      → IsEntryOf x new
      → length before < 10
      → after ≡ before ++ new ∷ []
      → BoardChange id_text x before after
  replaced :
      (new lowest : Entry)
      → IsEntryOf x new
      → length before ≡ 10
      → HasId lowest.id before
      → All (λ e. ranks_before id_text e lowest ≡ true) before
      → lowest.score <ℤ new.score
      → after ≡ without lowest.id before ++ new ∷ []
      → BoardChange id_text x before after

All-HasId : (es : List Entry) → All (λ (e : Entry). HasId e.id es) es
All-HasId [] = tt
All-HasId (e ∷ es) = (inl refl, All-map es (λ x h. inr h) (All-HasId es))

module _ (id_text : ℕ → Text) where
  -- The ranking that `submit` sees is the whole board, ranked.
  pub ranked_board :
      (scope : Text) (s : Store)
      → Inv s
      → rank_entries id_text (get_active_top_k id_text scope top_k_limit s)
        ≡ rank_entries id_text (board scope s.rows)
  unfolding get_active_top_k active_entries
  ranked_board scope s v = rank_entries-take id_text 10 (board scope s.rows) (v.bounded scope)

  pub lowest-HasId :
      (es : List Entry) (lowest : Entry)
      → get_last (rank_entries id_text es) ≡ some lowest
      → HasId lowest.id es
  lowest-HasId es lowest h =
      get_last-All (λ (e : Entry). HasId e.id es) (rank_entries id_text es) lowest
        (rank_entries-All id_text (λ (e : Entry). HasId e.id es) (λ e n p. p) (λ e n p. p) es
          (All-HasId es))
        h

-- The effect of a submission on the store.
pub record Effect (id_text : ℕ → Text) (x : Experiment) (s s' : Store) : Type 0 where
  pub inv : Inv s'
  pub change :
      BoardChange id_text x
        (board x.leaderboard_scope_id s.rows)
        (board x.leaderboard_scope_id s'.rows)
  pub others :
      (other : Text) → x.leaderboard_scope_id ≢ other → board other s'.rows ≡ board other s.rows

pub Inv-same : (s s' : Store) → Inv s → s'.rows ≡ s.rows → s'.sequence ≡ s.sequence → Inv s'
Inv-same s s' v e f = record { ids = rw (e, f) v.ids; bounded = λ scope. rw e (v.bounded scope) }

-- A store with the same rows has seen no change.
pub Effect-same :
    (id_text : ℕ → Text) (x : Experiment) (s s' : Store)
    → Inv s
    → s'.rows ≡ s.rows
    → s'.sequence ≡ s.sequence
    → Effect id_text x s s'
Effect-same id_text x s s' v e f = record {
  inv = Inv-same s s' v e f;
  change = kept (rw e refl);
  others = λ other _. rw e refl;
}

pub lookup_by-retire :
    (k : Text) (j : ℕ) (rows : List Row)
    → lookup_by row_key k rows ≡ none
    → lookup_by row_key k (map (retire j) rows) ≡ none
unfolding lookup_by retire
lookup_by-retire k j [] h = refl
lookup_by-retire k j (r ∷ rs) h = ground (arith, lookup_by-retire k j rs)

pub lookup_none :
    (id : Text) (s : Store)
    → get_by_experiment_result_id id s ≡ none
    → lookup_by row_key id s.rows ≡ none
unfolding get_by_experiment_result_id
lookup_none id s h = ground arith

-- A new row at the end of the rows that are left.
module _ (id_text : ℕ → Text) (x : Experiment) (score : ℤ)
    (scored : x.overall_score ≡ some score) where
  abbrev pub new_entry : Text → ℕ → Entry
  new_entry now sequence = record {
    id = sequence + 1;
    rank = 0;
    experiment_result_id = x.id;
    leaderboard_scope_id = x.leaderboard_scope_id;
    score_formula_id = x.score_formula_id;
    score = score;
    added_at = now;
  }

  abbrev pub new_row : Text → ℕ → Row
  new_row now sequence = record { entry = new_entry now sequence; active = true }

  pub own_board :
      (now : Text) (n : ℕ) (rows : List Row)
      → board x.leaderboard_scope_id (rows ++ new_row now n ∷ [])
        ≡ board x.leaderboard_scope_id rows ++ new_entry now n ∷ []
  unfolding is_active_in
  own_board now n rows = board-append x.leaderboard_scope_id rows (new_row now n) (ground arith)

  other_board :
      (now : Text) (n : ℕ) (rows : List Row) (other : Text)
      → x.leaderboard_scope_id ≢ other
      → board other (rows ++ new_row now n ∷ []) ≡ board other rows
  unfolding is_active_in
  other_board now n rows other ne = board-append_other other rows (new_row now n) (ground arith)

  own_or_other :
      (scope : Text) → (x.leaderboard_scope_id ≡ scope) ⊎ (x.leaderboard_scope_id ≢ scope)
  own_or_other scope = elim (Bool-cases (x.leaderboard_scope_id == scope)) [
    | inl e ↦ inl (ground arith)
    | inr e ↦ inr (λ same. ground arith)
  ]

  fits_after :
      (now : Text) (n : ℕ) (rows : List Row)
      → length (board x.leaderboard_scope_id rows) < 10
      → ((other : Text) → x.leaderboard_scope_id ≢ other → length (board other rows) ≤ 10)
      → (scope : Text) → length (board scope (rows ++ new_row now n ∷ [])) ≤ 10
  fits_after now n rows room fits scope = elim (own_or_other scope) [
    | inl e ↦
        subst (λ c. length (board c (rows ++ new_row now n ∷ [])) ≤ 10) e
          (rw (own_board now n rows) (
            omega
              (arith, length-append (board x.leaderboard_scope_id rows) (new_entry now n ∷ []))))
    | inr ne ↦ rw (other_board now n rows scope ne) (fits scope ne)
  ]

  new_entry-IsEntryOf : (now : Text) (n : ℕ) → IsEntryOf x (new_entry now n)
  new_entry-IsEntryOf now n = (scored, refl, refl)

  -- A board with room.
  pub add-Effect :
      (now : Text) (s : Store)
      → Inv s
      → length (board x.leaderboard_scope_id s.rows) < 10
      → Effect id_text x s
          (record s { sequence = s.sequence + 1; rows = s.rows ++ new_row now s.sequence ∷ [] })
  add-Effect now s v room = record {
    inv = record {
      ids = IdsBetween-append 0 s.sequence s.rows (new_row now s.sequence) v.ids refl;
      bounded = fits_after now s.sequence s.rows room (λ other _. v.bounded other);
    };
    change =
        added (new_entry now s.sequence) (new_entry-IsEntryOf now s.sequence) room
          (own_board now s.sequence s.rows);
    others = other_board now s.sequence s.rows;
  }

  -- A full board, whose lowest entry has retired.
  pub replace-Effect :
      (now : Text) (s : Store) (lowest : Entry)
      → Inv s
      → length (board x.leaderboard_scope_id s.rows) ≡ 10
      → get_last (rank_entries id_text (board x.leaderboard_scope_id s.rows)) ≡ some lowest
      → lowest.score <ℤ score
      → Effect id_text x s (record s {
        sequence = s.sequence + 1;
        rows = map (retire lowest.id) s.rows ++ new_row now s.sequence ∷ [];
      })
  replace-Effect now s lowest v full last beaten =
      let own = x.leaderboard_scope_id in
      let left = map (retire lowest.id) s.rows in
      let there : HasId lowest.id (board own s.rows) =
        lowest-HasId id_text (board own s.rows) lowest last in
      let same : (other : Text) → own ≢ other → board other left ≡ board other s.rows = λ other ne.
        board-retire other lowest.id s.rows
        ∙ without_other own other lowest.id 0 s.sequence s.rows ne v.ids there in
      let room : length (board own left) < 10 =
        rw (board-retire own lowest.id s.rows)
          (omega (arith, full, length-without lowest.id (board own s.rows) there)) in
      record {
        inv = record {
          ids =
              IdsBetween-append 0 s.sequence left (new_row now s.sequence)
                (IdsBetween-retire lowest.id 0 s.sequence s.rows v.ids) refl;
          bounded =
              fits_after now s.sequence left room
                (λ other ne. rw (same other ne) (v.bounded other));
        };
        change =
            replaced (new_entry now s.sequence) lowest (new_entry-IsEntryOf now s.sequence) full
              there (rank_entries_last id_text (board own s.rows) lowest last) beaten
              (own_board now s.sequence left
                ∙ ap (λ b. b ++ new_entry now s.sequence ∷ []) (board-retire own lowest.id s.rows));
        others = λ other ne. other_board now s.sequence left other ne ∙ same other ne;
      }
