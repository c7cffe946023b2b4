-- ===== src/Sentiment/Causality.antt =====
-- What a window of a snapshot gathers in `aggregateSnapshotPoints` of
-- modules/sentiment/application/service.ts, and when that was published.
use cryptox.Base.{
  ◌==◌, not, subst, ℕ, zero, suc, ◌+◌, ◌-◌, ◌*◌, ◌≤◌, ◌<◌, ◌≡◌, refl, ◌∙◌, arith, max, Bool, true,
  false, ◌&&◌, ◌||◌, if◌then◌else◌, Bool-cases, Option, none, some, List, [], ◌∷◌, ◌++◌,
  append_assoc, append-nil, map, all, keep, inl, inr, ℤ, pos, ◌+ℤ◌, ◌-ℤ◌, pos_part, eqb_ℤ, ltb_ℤ,
  leb_ℤ, ok, >>=-eq-ok, Text, Dates, eq_of_parts, -ℤ_parts, +ℤ_parts, neg_part,
}
use native.Mathlib.Nat.{div-add-mod, max-eq_right, mod-lt}
use cryptox.Sentiment.Rules.{SnapshotCommand, validate_sentiment_input, validate_sentiment_result}
use cryptox.Sentiment.Windows.{
  Row, Bucket, window_ms, ceil_div, window_end, put_score, end_within, window_of, put_at, collect,
  has_coin,
}

abbrev pub scores_at : ℤ → List Bucket → List (Option ℤ)
scores_at e [] = []
scores_at e (b ∷ buckets) = if eqb_ℤ b.end e then b.scores else scores_at e buckets

abbrev pub ends_at : ℤ → Option ℤ → Bool
ends_at e none = false
ends_at e (some end) = eqb_ℤ end e

abbrev pub score_of : Row → Option ℤ
score_of row = row.result.score

-- A time in the range, from the window that ends at `e`, where that lies in the range.
abbrev pub is_in_window : Option ℤ → Option ℤ → ℕ → ℤ → Option ℤ → Bool
is_in_window (some from) (some to) w e (some time) =
    leb_ℤ from time && ltb_ℤ time to && leb_ℤ (e -ℤ pos w) time && leb_ℤ time e && leb_ℤ e to
is_in_window (some from) (some to) w e none = false
is_in_window (some from) none w e time = false
is_in_window none to w e time = false

ceil_div_bounds : (n w : ℕ) → 0 < w → (n ≤ ceil_div n w * w) × (ceil_div n w * w < n + w)
unfolding ceil_div
ceil_div_bounds n w h = (
  grind (arith, div-add-mod (n + (w - 1)) w, mod-lt (n + (w - 1)) h),
  grind (arith, div-add-mod (n + (w - 1)) w, mod-lt (n + (w - 1)) h),
)

one_le : (c : ℕ) → 1 ≤ suc c
one_le c = omega arith

max_bounds : (n w c : ℕ) → n ≤ c * w → c * w < n + w → (n ≤ max 1 c * w) × (max 1 c * w ≤ n + w)
max_bounds n w zero h k = (grind arith, grind arith)
max_bounds n w (suc c) h k = rw (max-eq_right (one_le c)) (h, omega arith)

window_bounds :
    (n w : ℕ) → 0 < w → (n ≤ max 1 (ceil_div n w) * w) × (max 1 (ceil_div n w) * w ≤ n + w)
window_bounds n w h =
    max_bounds n w (ceil_div n w) (ceil_div_bounds n w h).0 (ceil_div_bounds n w h).1

gap_lem :
    (from time : ℤ)
    → ltb_ℤ time from ≡ false
    → pos_part (time -ℤ from) + pos_part from + neg_part time ≡ pos_part time + neg_part from
unfolding ◌-ℤ◌
gap_lem from time h = ground arith

-- A number of milliseconds from `from` on, a window at most over the time.
shift_bounds :
    (from time : ℤ) (w k : ℕ)
    → ltb_ℤ time from ≡ false
    → pos_part (time -ℤ from) ≤ k
    → k ≤ pos_part (time -ℤ from) + w
    → (leb_ℤ time (from +ℤ pos k) ≡ true) × (leb_ℤ (from +ℤ pos k -ℤ pos w) time ≡ true)
shift_bounds from time w k h low high = (
  ground (arith, gap_lem from time h, +ℤ_parts from (pos k)),
  ground (arith, gap_lem from time h, +ℤ_parts from (pos k), -ℤ_parts (from +ℤ pos k) (pos w)),
)

-- The end of the window of a time from `from` on.
window_end_bounds :
    (from time : ℤ) (w : ℕ)
    → 0 < w
    → ltb_ℤ time from ≡ false
    → (leb_ℤ time (window_end from w time) ≡ true)
      × (leb_ℤ (window_end from w time -ℤ pos w) time ≡ true)
unfolding window_end
window_end_bounds from time w positive_width h =
    shift_bounds from time w (max 1 (ceil_div (pos_part (time -ℤ from)) w) * w) h
      (window_bounds (pos_part (time -ℤ from)) w positive_width).0
      (window_bounds (pos_part (time -ℤ from)) w positive_width).1

scores_at-put_score :
    (e end : ℤ) (score : Option ℤ) (buckets : List Bucket)
    → scores_at e (put_score end score buckets)
      ≡ (if eqb_ℤ end e then scores_at e buckets ++ score ∷ [] else scores_at e buckets)
unfolding put_score
scores_at-put_score e end score [] = refl
scores_at-put_score e end score (b ∷ buckets) =
    ground (arith, scores_at-put_score e end score buckets)

if-some :
    (e : ℤ) (b : Bool) (end : Option ℤ)
    → ends_at e (if b then none else end) ≡ true
    → ends_at e end ≡ true
if-some e true end h = cc
if-some e false end h = h

rest_within :
    (from to time end e : ℤ) (w : ℕ)
    → ltb_ℤ time from ≡ false
    → leb_ℤ time end ≡ true
    → leb_ℤ (end -ℤ pos w) time ≡ true
    → ends_at e
        (if ltb_ℤ time from || leb_ℤ to time then none else if ltb_ℤ to end then none else some end)
      ≡ true
    → is_in_window (some from) (some to) w e (some time) ≡ true
rest_within from to time end e w due by from_width k =
    ground (arith, eq_of_parts end e, -ℤ_parts end (pos w), -ℤ_parts e (pos w))

falls_within :
    (from to time : Option ℤ) (w : ℕ) (e : ℤ)
    → 0 < w
    → ends_at e (end_within from to w time) ≡ true
    → is_in_window from to w e time ≡ true
falls_within (some from) (some to) (some time) w e h k = elim (Bool-cases (ltb_ℤ time from)) [
  | inl early ↦ absurd (ground (arith, early, k))
  | inr due ↦
      rest_within from to time (window_end from w time) e w due
        (window_end_bounds from time w h due).0 (window_end_bounds from time w h due).1 k
]
falls_within (some from) (some to) none w e h k = cc
falls_within (some from) none time w e h k = cc
falls_within none to time w e h k = cc

module _ (dates : Dates) (ends_in_z : Text → Bool) where
  -- The rows that the window ending at `e` counts.
  abbrev counted_in : SnapshotCommand → ℤ → Row → Bool
  counted_in command e row = ends_at e (window_of dates ends_in_z command row)

  scores_at-put_at :
      (e : ℤ) (end score : Option ℤ) (buckets : List Bucket)
      → scores_at e (put_at dates ends_in_z end score buckets)
        ≡ (if ends_at e end then scores_at e buckets ++ score ∷ [] else scores_at e buckets)
  scores_at-put_at e none score buckets = refl
  scores_at-put_at e (some end) score buckets = scores_at-put_score e end score buckets

  put_row :
      (e : ℤ) (end : Option ℤ) (row : Row) (buckets : List Bucket) (kept : List Row)
      → scores_at e (put_at dates ends_in_z end row.result.score buckets) ++ map score_of kept
        ≡ scores_at e buckets ++ map score_of (if ends_at e end then row ∷ kept else kept)
  put_row e end row buckets kept =
      rw (scores_at-put_at e end row.result.score buckets) (elim (Bool-cases (ends_at e end)) [
        | inl counts ↦
            rw counts
              (append_assoc (scores_at e buckets) (row.result.score ∷ []) (map score_of kept))
        | inr out ↦ rw out refl
      ])

  collect_lem :
      (command : SnapshotCommand) (e : ℤ) (rows : List Row) (buckets out : List Bucket)
      → collect dates ends_in_z command rows buckets ≡ ok out
      → scores_at e out ≡ scores_at e buckets ++ map score_of (keep (counted_in command e) rows)
  unfolding collect
  collect_lem command e [] buckets out h = ground (arith, append-nil (scores_at e buckets))
  collect_lem command e (row ∷ rows) buckets out h =
      let (input, valid, h') = >>=-eq-ok (validate_sentiment_input dates ends_in_z row.input) _ h in
      let (result, sound, h'') =
        >>=-eq-ok (validate_sentiment_result dates ends_in_z row.result (some row.input)) _ h' in
      collect_lem command e rows _ out h''
      ∙ put_row e (window_of dates ends_in_z command row) row buckets
          (keep (counted_in command e) rows)

  abbrev pub counts_within : SnapshotCommand → ℤ → Row → Bool
  counts_within command e row =
      is_in_window (dates.parse command.from) (dates.parse command.to)
        (window_ms command.aggregation_window_seconds) e (dates.parse row.input.published_at)

  counted_in-within :
      (command : SnapshotCommand) (e : ℤ) (row : Row)
      → 0 < window_ms command.aggregation_window_seconds
      → counted_in command e row ≡ true
      → counts_within command e row ≡ true
  unfolding window_of
  counted_in-within command e row h k =
      falls_within (dates.parse command.from) (dates.parse command.to)
        (dates.parse row.input.published_at) (window_ms command.aggregation_window_seconds) e h
        (if-some e _ _ k)

  keep-within :
      (command : SnapshotCommand) (e : ℤ) (rows : List Row)
      → 0 < window_ms command.aggregation_window_seconds
      → all (counts_within command e) (keep (counted_in command e) rows) ≡ true
  keep-within command e [] h = refl
  keep-within command e (row ∷ rows) h = elim (Bool-cases (counted_in command e row)) [
    | inl counts ↦
        rw counts
          (ground (arith, counted_in-within command e row h counts, keep-within command e rows h))
    | inr out ↦ rw out (keep-within command e rows h)
  ]

  -- The rows of the model and coin of the command whose window, by the time of their publication,
  -- ends at `e`.
  abbrev pub falls_in : SnapshotCommand → ℤ → Row → Bool
  falls_in command e row =
      row.result.model_name == command.model_name
      && row.result.model_version == command.model_version
      && has_coin command.related_coin row.input.related_coins
      && ends_at e (
          end_within (dates.parse command.from) (dates.parse command.to)
            (window_ms command.aggregation_window_seconds) (dates.parse row.input.published_at))

  counted_in-falls_in :
      (command : SnapshotCommand) (e : ℤ) (row : Row)
      → counted_in command e row ≡ falls_in command e row
  unfolding window_of
  counted_in-falls_in command e row =
      conjunction (row.result.model_name == command.model_name)
        (row.result.model_version == command.model_version)
        (has_coin command.related_coin row.input.related_coins) _
    where
      conjunction :
          (name version coin : Bool) (end : Option ℤ)
          → ends_at e (if not name || not version || not coin then none else end)
            ≡ (name && version && coin && ends_at e end)
      conjunction true true true end = refl
      conjunction true true false end = refl
      conjunction true false coin end = refl
      conjunction false version coin end = refl

  -- Where the window is of a second at least, what a successful pass over the rows has gathered
  -- under a window's end is the scores, in order, of the rows of the model and coin asked for that
  -- fall in the window, and each of these rows was published in the range, not after that end, and
  -- at most a window before it.
  pub collect-IsCausal :
      (command : SnapshotCommand) (rows : List Row) (buckets : List Bucket) (e : ℤ)
      → 0 < window_ms command.aggregation_window_seconds
      → collect dates ends_in_z command rows [] ≡ ok buckets
      → (scores_at e buckets ≡ map score_of (keep (falls_in command e) rows))
        × (all (counts_within command e) (keep (falls_in command e) rows) ≡ true)
  collect-IsCausal command rows buckets e positive_width h =
      subst
        (λ (t : Row → Bool).
          (scores_at e buckets ≡ map score_of (keep t rows))
          × (all (counts_within command e) (keep t rows) ≡ true))
        (λ i row. counted_in-falls_in command e row i)
        (collect_lem command e rows [] buckets h, keep-within command e rows positive_width)
