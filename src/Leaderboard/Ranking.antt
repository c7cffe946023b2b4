-- ===== src/Leaderboard/Ranking.antt =====
-- `rankEntries` of modules/leaderboard/application/service.ts. A finite score is a whole multiple of
-- 2^-1074, the least positive double, and that integer stands for it: the order of scores and the
-- sign of a difference are those of the integers.
use cryptox.Base.{
  ℕ, ◌+◌, ◌≡◌, arith, ltb, leb, Bool, true, false, if◌then◌else◌, List, [], ◌∷◌, ℤ, ltb_ℤ, Text,
  sort_by,
}

-- The id is `leaderboard-entry-${id}`.
pub record Entry : Type 0 where
  pub id : ℕ
  pub rank : ℕ
  pub experiment_result_id : Text
  pub leaderboard_scope_id : Text
  pub score_formula_id : Text
  pub score : ℤ
  pub added_at : Text

-- `.map((entry, index) => ({ ...entry, rank: index + 1 }))`
unfoldable pub number_from : ℕ → List Entry → List Entry
number_from n [] = []
number_from n (e ∷ es) = record e { rank = n } ∷ number_from (n + 1) es

module _ (id_text : ℕ → Text) where
  -- Whether the comparator puts `left` before `right` or ties them.
  unfoldable pub ranks_before : Entry → Entry → Bool
  ranks_before left right =
      if ltb_ℤ right.score left.score
      then true
      else if ltb_ℤ left.score right.score
      then false
      else if ltb left.added_at right.added_at
      then true
      else if ltb right.added_at left.added_at
      then false
      else leb (id_text left.id) (id_text right.id)

  unfoldable pub rank_entries : List Entry → List Entry
  unfolding number_from
  rank_entries entries = number_from 1 (sort_by ranks_before entries)

  pub ranks_before_total : (a b : Entry) → ranks_before a b ≡ false → ranks_before b a ≡ true
  unfolding ranks_before
  ranks_before_total a b h = ground arith

  pub ranks_before_trans :
      (a b c : Entry) → ranks_before a b ≡ true → ranks_before b c ≡ true → ranks_before a c ≡ true
  unfolding ranks_before
  ranks_before_trans a b c h k = ground arith

  pub ranks_before_refl : (a : Entry) → ranks_before a a ≡ true
  unfolding ranks_before
  ranks_before_refl a = ground arith
