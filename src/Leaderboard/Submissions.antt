-- ===== src/Leaderboard/Submissions.antt =====
-- `submit` of modules/leaderboard/application/service.ts from its first check to the store it leaves.
use cryptox.Base.{
  lookup_by, ℕ, ◌+◌, ◌<◌, ◌≤◌, ◌≡◌, inl, inr, refl, ap, sym, ◌∙◌, arith, not, ◌||◌, true, false,
  if◌then◌else◌, none, some, List, [], ◌∷◌, ◌++◌, Text, length, Bool-cases, Option-cases,
  Result-cases, get_last, ℤ, ◌<ℤ◌, leb_ℤ, subst, is_blank, is_empty, Result, ok, err,
}
use cryptox.Leaderboard.Ranking.{Entry, rank_entries}
use cryptox.Leaderboard.Ranks.{length-rank_entries}
use cryptox.Leaderboard.Store.{
  Scope, Store, row_key, deactivate, insert_entry, get_by_experiment_result_id, get_scope,
}
use cryptox.Leaderboard.Boards.{board, set_by_new}
use cryptox.Leaderboard.Service.{
  Error, invalid_score, experiment_owner_required, Experiment, Submission, not_admitted,
  cache_scope, cache_formula, cache_scope_and_formula, open_scope, is_full, is_outranked, make_room,
  enter_board, compete, submit_scored, submit,
}
use cryptox.Leaderboard.Admission.{
  Inv, Effect, BoardChange, ranked_board, Effect-same, lookup_by-retire, lookup_none, new_row,
  add-Effect, replace-Effect,
}

length-get_last-none : (es : List Entry) → get_last es ≡ none → length es ≡ 0
length-get_last-none [] h = refl
length-get_last-none (e ∷ []) h = absurd (ground arith)
length-get_last-none (e ∷ f ∷ es) h = absurd (ground (arith, length-get_last-none (f ∷ es) h))

module _ (id_text : ℕ → Text) (x : Experiment) (score : ℤ)
    (scored : x.overall_score ≡ some score) where
  pub enter_board-rows :
      (now : Text) (s left : Store) (ranked : List Entry)
      → make_room id_text now ranked s ≡ left
      → lookup_by row_key x.id left.rows ≡ none
      → (enter_board id_text now x score ranked s).0 ≡ record left {
        sequence = left.sequence + 1;
        rows = left.rows ++ new_row id_text x score scored now left.sequence ∷ [];
      }
  unfolding enter_board insert_entry
  enter_board-rows now s left ranked e fresh = rw e (
      ap (λ rows. record left { sequence = left.sequence + 1; rows = rows })
        (set_by_new row_key (new_row id_text x score scored now left.sequence) left.rows fresh))

  pub make_room_open :
      (now : Text) (s : Store) (ranked : List Entry)
      → is_full id_text now ranked ≡ false
      → make_room id_text now ranked s ≡ s
  unfolding make_room
  make_room_open now s ranked room = elim (Option-cases (get_last ranked)) [
    | inl none_last ↦ rw (make_room, none_last) refl
    | inr (lowest, last) ↦ rw (make_room, last, room) refl
  ]

  enter_room-Effect :
      (now : Text) (s : Store) (ranked : List Entry)
      → Inv s
      → lookup_by row_key x.id s.rows ≡ none
      → length (board x.leaderboard_scope_id s.rows) < 10
      → is_full id_text now ranked ≡ false
      → Effect id_text x s (enter_board id_text now x score ranked s).0
  enter_room-Effect now s ranked v fresh room open_board =
      subst (Effect id_text x s)
        (sym (enter_board-rows now s s ranked (make_room_open now s ranked open_board) fresh))
        (add-Effect id_text x score scored now s v room)

  make_room_full :
      (now : Text) (s : Store) (lowest : Entry) (ranked : List Entry)
      → is_full id_text now ranked ≡ true
      → get_last ranked ≡ some lowest
      → make_room id_text now ranked s ≡ deactivate lowest.id s
  unfolding make_room
  make_room_full now s lowest ranked full last = rw (make_room, last, full) refl

  pub is_outranked_room :
      (now : Text) (ranked : List Entry)
      → is_full id_text now ranked ≡ false
      → is_outranked id_text now ranked score ≡ false
  unfolding is_outranked
  is_outranked_room now ranked room = elim (Option-cases (get_last ranked)) [
    | inl none_last ↦ rw (is_outranked, none_last) refl
    | inr (lowest, last) ↦ rw (is_outranked, last, room) refl
  ]

  is_outranked_full :
      (now : Text) (ranked : List Entry) (lowest : Entry)
      → is_full id_text now ranked ≡ true
      → get_last ranked ≡ some lowest
      → is_outranked id_text now ranked score ≡ leb_ℤ score lowest.score
  unfolding is_outranked
  is_outranked_full now ranked lowest full last = rw (is_outranked, last, full) refl

  full_has_last :
      (now : Text) (ranked : List Entry)
      → is_full id_text now ranked ≡ true
      → (lowest : Entry) × (get_last ranked ≡ some lowest)
  unfolding is_full
  full_has_last now ranked full = elim (Option-cases (get_last ranked)) [
    | inl none_last ↦ absurd (ground (arith, length-get_last-none ranked none_last))
    | inr found ↦ found
  ]

  enter_full-Effect :
      (now : Text) (s : Store) (lowest : Entry)
      → Inv s
      → lookup_by row_key x.id s.rows ≡ none
      → length (board x.leaderboard_scope_id s.rows) ≡ 10
      → is_full id_text now (rank_entries id_text (board x.leaderboard_scope_id s.rows)) ≡ true
      → get_last (rank_entries id_text (board x.leaderboard_scope_id s.rows)) ≡ some lowest
      → lowest.score <ℤ score
      → Effect id_text x s
          (enter_board id_text now x score
            (rank_entries id_text (board x.leaderboard_scope_id s.rows))
            s).0
  unfolding make_room deactivate
  enter_full-Effect now s lowest v fresh ten full last beaten =
      subst (Effect id_text x s)
        (sym (
          enter_board-rows now s (deactivate lowest.id s) _
            (make_room_full now s lowest
              (rank_entries id_text (board x.leaderboard_scope_id s.rows)) full last)
            (lookup_by-retire x.id lowest.id s.rows fresh)))
        (replace-Effect id_text x score scored now s lowest v ten last beaten)

  compete_ranked-Effect :
      (now : Text) (s : Store)
      → Inv s
      → lookup_by row_key x.id s.rows ≡ none
      → let ranked = rank_entries id_text (board x.leaderboard_scope_id s.rows) in
        Effect id_text x s
          (if is_outranked id_text now ranked score
            then (s, not_admitted)
            else enter_board id_text now x score ranked s).0
  unfolding is_full
  compete_ranked-Effect now s v fresh =
      let b = board x.leaderboard_scope_id s.rows in
      let ranked = rank_entries id_text b in
      let bound : length b ≤ 10 = v.bounded x.leaderboard_scope_id in
      elim (Bool-cases (is_full id_text now ranked)) [
        | inl full ↦
            let (lowest, last) = full_has_last now ranked full in
            let ten : length b ≡ 10 = ground (arith, length-rank_entries id_text b, full) in
            elim (Bool-cases (leb_ℤ score lowest.score)) [
              | inl beaten ↦
                  rw (is_outranked_full now ranked lowest full last, beaten)
                    (Effect-same id_text x s s v refl refl)
              | inr better ↦
                  rw (is_outranked_full now ranked lowest full last, better)
                    (enter_full-Effect now s lowest v fresh ten full last (ground arith))
            ]
        | inr room ↦ rw (is_outranked_room now ranked room) (
            enter_room-Effect now s ranked v fresh (ground (arith, length-rank_entries id_text b))
              room)
      ]

  compete-Effect :
      (now : Text) (s : Store)
      → Inv s
      → get_by_experiment_result_id x.id s ≡ none
      → Effect id_text x s (compete id_text now x score s).0
  unfolding compete
  compete-Effect now s v fresh =
      rw (ranked_board id_text x.leaderboard_scope_id s v)
        (compete_ranked-Effect now s v (lookup_none x.id s fresh))

cache_scope_and_formula-rows :
    (scope : Scope) (s : Store)
    → ((cache_scope_and_formula scope s).0.rows ≡ s.rows)
      × ((cache_scope_and_formula scope s).0.sequence ≡ s.sequence)
unfolding cache_scope_and_formula cache_scope cache_formula
cache_scope_and_formula-rows scope s = (ground arith, ground arith)

-- Opening a scope fills caches alone.
pub open_scope-rows :
    (user_id id : Text) (s : Store)
    → ((open_scope user_id id s).0.rows ≡ s.rows)
      × ((open_scope user_id id s).0.sequence ≡ s.sequence)
unfolding open_scope
open_scope-rows user_id id s = elim (Option-cases (get_scope user_id id s)) [
  | inl missing ↦ rw (open_scope, missing) (refl, refl)
  | inr (scope, found) ↦ rw (open_scope, found) (cache_scope_and_formula-rows scope s)
]

-- A submission after the opening of its scope.
Effect-after :
    (id_text : ℕ → Text) (x : Experiment) (s s' s'' : Store)
    → s'.rows ≡ s.rows
    → Effect id_text x s' s''
    → Effect id_text x s s''
Effect-after id_text x s s' s'' e v = record {
  inv = v.inv;
  change =
      subst
        (λ rows.
          BoardChange id_text x (board x.leaderboard_scope_id rows)
            (board x.leaderboard_scope_id s''.rows))
        e v.change;
  others = λ other ne. v.others other ne ∙ ap (board other) e;
}

module _ (id_text : ℕ → Text) (now : Text) (x : Experiment) where
  submit_scored-Effect :
      (score : ℤ) (owner : Text) (s : Store)
      → x.overall_score ≡ some score
      → Inv s
      → Effect id_text x s (submit_scored id_text now x score owner s).0
  unfolding submit_scored
  submit_scored-Effect score owner s scored v =
      let (s', opened) = open_scope owner x.leaderboard_scope_id s in
      let (e, f) = open_scope-rows owner x.leaderboard_scope_id s in
      let same = Effect-same id_text x s s' v e f in
      elim (Result-cases opened) [
        | inr (error, failed) ↦ rw (submit_scored, failed) same
        | inl (scope, opens) ↦ elim (Option-cases (get_by_experiment_result_id x.id s')) [
          | inr (existing, found) ↦ rw (submit_scored, opens, found) same
          | inl fresh ↦
              rw (submit_scored, opens, fresh)
                (Effect-after id_text x s s' _ e
                  (compete-Effect id_text x score scored now s' same.inv fresh))
        ]
      ]

  -- What holds of every refusal and of a scored submission holds of a submission.
  pub submit-cases :
      (s : Store) (P : Store × Result Error Submission → Type 0)
      → P (s, ok not_admitted)
      → ((e : Error) → P (s, err e))
      → ((score : ℤ) (owner : Text)
          → x.overall_score ≡ some score
          → P (submit_scored id_text now x score owner s))
      → P (submit id_text now x s)
  unfolding submit
  submit-cases s P refused failed scores = elim (Option-cases x.search_run_id) [
    | inl none_run ↦ rw (submit, none_run) refused
    | inr (run, some_run) ↦ elim (Bool-cases (is_empty run || not x.rank_eligible)) [
      | inl refuses ↦ rw (submit, some_run, refuses) refused
      | inr goes_on ↦ elim (Option-cases x.overall_score) [
        | inl unscored ↦ rw (submit, some_run, goes_on, unscored) (failed invalid_score)
        | inr (score, scored) ↦ elim (Option-cases x.owner_user_id) [
          | inl unowned ↦
              rw (submit, some_run, goes_on, scored, unowned) (failed experiment_owner_required)
          | inr (owner, owned) ↦ elim (Bool-cases (is_blank owner)) [
            | inl blank ↦
                rw (submit, some_run, goes_on, scored, owned, blank)
                  (failed experiment_owner_required)
            | inr named ↦
                rw (submit, some_run, goes_on, scored, owned, named) (scores score owner scored)
          ]
        ]
      ]
    ]
  ]

  -- A submission keeps the invariant (ascending entry ids, at most ten entries on each board),
  -- changes the board of its scope in one of the ways of `BoardChange`, and leaves the boards of
  -- the other scopes alone.
  pub submit-Effect : (s : Store) → Inv s → Effect id_text x s (submit id_text now x s).0
  submit-Effect s v =
      let same = Effect-same id_text x s s v refl refl in
      submit-cases s (λ out. Effect id_text x s out.0) same (λ e. same)
        (λ score owner scored. submit_scored-Effect score owner s scored v)
