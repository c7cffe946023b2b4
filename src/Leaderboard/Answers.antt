-- ===== src/Leaderboard/Answers.antt =====
-- What `submit` and `topK` of modules/leaderboard/application/service.ts answer.
use cryptox.Base.{
  ℕ, ◌<◌, ◌≤◌, ◌≡◌, inl, inr, refl, ap, sym, ◌∙◌, arith, Bool, false, none, some, List, [], ◌∷◌,
  ◌++◌, Text, length, Bool-cases, Option-cases, Result-cases, get_last, ℤ, is_blank, Result, ok,
  err, IsSorted,
}
use cryptox.Leaderboard.Ranking.{Entry, ranks_before, rank_entries}
use cryptox.Leaderboard.Ranks.{rank_entries-IsSorted, length-rank_entries}
use cryptox.Leaderboard.Store.{Store, get_by_experiment_result_id, get_active_top_k}
use cryptox.Leaderboard.Boards.{board}
use cryptox.Leaderboard.Service.{
  Error, Experiment, Submission, top_k_limit, open_scope, is_full, enter_board, compete,
  submit_scored, submit,
}
use cryptox.Leaderboard.Queries.{top_k}
use cryptox.Leaderboard.Admission.{Inv, Inv-same, ranked_board, lookup_none, new_entry, own_board}
use cryptox.Leaderboard.Submissions.{
  submit-cases, open_scope-rows, enter_board-rows, is_outranked_room, make_room_open,
}

-- Whether a call ends with an entry admitted.
abbrev pub admits : Result Error Submission → Bool
admits (ok submission) = submission.admitted
admits (err e) = false

module _ (id_text : ℕ → Text) (now : Text) (x : Experiment) where
  compete-keeps :
      (score : ℤ) (s : Store)
      → (compete id_text now x score s).1.admitted ≡ false
      → (compete id_text now x score s).0.rows ≡ s.rows
  unfolding compete enter_board
  compete-keeps score s = ground arith

  submit_scored-keeps :
      (score : ℤ) (owner : Text) (s : Store)
      → admits (submit_scored id_text now x score owner s).1 ≡ false
      → (submit_scored id_text now x score owner s).0.rows ≡ s.rows
  unfolding submit_scored
  submit_scored-keeps score owner s =
      let (s', opened) = open_scope owner x.leaderboard_scope_id s in
      let (e, f) = open_scope-rows owner x.leaderboard_scope_id s in
      elim (Result-cases opened) [
        | inr (error, failed) ↦ rw (submit_scored, failed) (λ h. e)
        | inl (scope, opens) ↦ elim (Option-cases (get_by_experiment_result_id x.id s')) [
          | inr (existing, found) ↦ rw (submit_scored, opens, found) (λ h. e)
          | inl fresh ↦ rw (submit_scored, opens, fresh) (λ h. compete-keeps score s' h ∙ e)
        ]
      ]

  -- A submission that is not admitted, or fails, leaves the rows of every board as they are.
  pub submit-keeps :
      (s : Store)
      → admits (submit id_text now x s).1 ≡ false
      → (submit id_text now x s).0.rows ≡ s.rows
  submit-keeps s =
      submit-cases id_text now x s (λ out. admits out.1 ≡ false → out.0.rows ≡ s.rows) (λ h. refl)
        (λ e h. refl) (λ score owner scored. submit_scored-keeps score owner s)

  evicted_last :
      (score : ℤ) (s : Store) (ranked : List Entry) (lowest : Entry)
      → get_last ranked ≡ some lowest
      → (enter_board id_text now x score ranked s).1.evicted_experiment_result_id
        ≡ some lowest.experiment_result_id
  unfolding enter_board
  evicted_last score s ranked lowest last = rw (enter_board, last) refl

  -- On a board with one to nine entries, a new experiment is admitted and no entry leaves the
  -- board, but the answer names the experiment of the lowest entry as evicted.
  pub compete-names_evicted :
      (score : ℤ) (s : Store) (lowest : Entry) (scored : x.overall_score ≡ some score)
      → Inv s
      → get_by_experiment_result_id x.id s ≡ none
      → length (board x.leaderboard_scope_id s.rows) < 10
      → get_last (rank_entries id_text (board x.leaderboard_scope_id s.rows)) ≡ some lowest
      → ((compete id_text now x score s).1.evicted_experiment_result_id
          ≡ some lowest.experiment_result_id)
        × (board x.leaderboard_scope_id (compete id_text now x score s).0.rows
            ≡ board x.leaderboard_scope_id s.rows
              ++ new_entry id_text x score scored now s.sequence ∷ [])
  unfolding compete is_full
  compete-names_evicted score s lowest scored v fresh room last =
      let own = x.leaderboard_scope_id in
      let ranked = rank_entries id_text (board own s.rows) in
      let not_full : is_full id_text now ranked ≡ false =
        ground (arith, length-rank_entries id_text (board own s.rows)) in
      let goes : compete id_text now x score s ≡ enter_board id_text now x score ranked s =
        rw
          (
            compete,
            ranked_board id_text own s v,
            is_outranked_room id_text x score scored now ranked not_full,
          )
          refl in
      let entered =
        enter_board-rows id_text x score scored now s s ranked
          (make_room_open id_text x score scored now s ranked not_full)
          (lookup_none x.id s fresh) in
      (
        ap (λ out. out.1.evicted_experiment_result_id) goes
            ∙ evicted_last score s ranked lowest last,
        ap (λ out. board own out.0.rows) goes
            ∙ ap (λ (st : Store). board own st.rows) entered
            ∙ own_board id_text x score scored now s.sequence s.rows,
      )

open_scope_ok :
    (user_id scope_id : Text) (s : Store) (es : List Entry) (id_text : ℕ → Text)
    → (top_k id_text user_id scope_id s).1 ≡ ok es
    → rank_entries id_text
        (get_active_top_k id_text scope_id top_k_limit (open_scope user_id scope_id s).0)
      ≡ es
unfolding top_k
open_scope_ok user_id scope_id s es id_text = elim (Bool-cases (is_blank user_id)) [
  | inl blank ↦ rw (top_k, blank) (λ h. absurd (ground arith))
  | inr named ↦ elim (Result-cases (open_scope user_id scope_id s).1) [
    | inr (error, failed) ↦ rw (top_k, named, failed) (λ h. absurd (ground arith))
    | inl (scope, opens) ↦ rw (top_k, named, opens) (λ h. ground arith)
  ]
]

-- What `topK` answers is the whole board of the scope, ranked, and at most ten entries.
pub top_k-board :
    (id_text : ℕ → Text) (user_id scope_id : Text) (s : Store) (es : List Entry)
    → Inv s
    → (top_k id_text user_id scope_id s).1 ≡ ok es
    → (es ≡ rank_entries id_text (board scope_id s.rows))
      × IsSorted (ranks_before id_text) es
      × length es ≡ length (board scope_id s.rows)
      × length es ≤ 10
top_k-board id_text user_id scope_id s es v h =
    let s' = (open_scope user_id scope_id s).0 in
    let (e, f) = open_scope-rows user_id scope_id s in
    let v' : Inv s' = Inv-same s s' v e f in
    let ranked : es ≡ rank_entries id_text (board scope_id s.rows) =
      sym (open_scope_ok user_id scope_id s es id_text h)
      ∙ ranked_board id_text scope_id s' v'
      ∙ ap (λ rows. rank_entries id_text (board scope_id rows)) e in
    let same_length = ap length ranked ∙ length-rank_entries id_text (board scope_id s.rows) in
    (
      ranked,
      rw ranked (rank_entries-IsSorted id_text (board scope_id s.rows)),
      same_length,
      rw same_length (v.bounded scope_id),
    )
