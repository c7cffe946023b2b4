-- ===== src/Frontend/Merging.antt =====
-- What `mergeCandle` does to the candles of a chart, and what the connection summary shows.
use cryptox.Base.{
  ℕ, ◌==◌, leb, ◌≡◌, refl, ◌∙◌, sym, subst, arith, Bool, true, false, if◌then◌else◌, Option, none,
  some, List, [], ◌∷◌, ◌++◌, All, sort_by, insert_by, IsSorted, sort_by-IsSorted, lookup_by, Text,
  Bool-cases, Option-cases, inl, inr,
}
use cryptox.Frontend.Candles.{
  UiCandle, by_time, not_later, replacement, replace_first, merge_candle,
}

lookup_by-insert_by :
    (t : Text) (x : UiCandle) (ys : List UiCandle)
    → lookup_by by_time t (insert_by not_later x ys)
      ≡ (if x.timestamp == t then some x else lookup_by by_time t ys)
unfolding lookup_by insert_by
lookup_by-insert_by t x [] = refl
lookup_by-insert_by t x (y ∷ ys) = ground (arith, lookup_by-insert_by t x ys)

-- Sorting by time does not change what is found first at a time.
lookup_by-sort_by :
    (t : Text) (xs : List UiCandle)
    → lookup_by by_time t (sort_by not_later xs) ≡ lookup_by by_time t xs
unfolding lookup_by sort_by
lookup_by-sort_by t [] = refl
lookup_by-sort_by t (x ∷ xs) =
    ground (arith, lookup_by-insert_by t x (sort_by not_later xs), lookup_by-sort_by t xs)

lookup_by-append_one :
    (t : Text) (xs : List UiCandle) (c : UiCandle)
    → lookup_by by_time c.timestamp xs ≡ none
    → lookup_by by_time t (xs ++ c ∷ [])
      ≡ (if c.timestamp == t then some c else lookup_by by_time t xs)
unfolding lookup_by
lookup_by-append_one t [] c h = refl
lookup_by-append_one t (x ∷ xs) c h = ground (arith, lookup_by-append_one t xs c)

-- Of two candles at one time, by whether the old and the new one are closed.
abbrev pub settled : (old_is_closed new_is_closed : Bool) → UiCandle → UiCandle → UiCandle
settled true false current incoming = current
settled true true current incoming = incoming
settled false new_is_closed current incoming = incoming

-- What a time has after a candle is merged at it.
abbrev pub merged : Option UiCandle → UiCandle → UiCandle
merged none incoming = incoming
merged (some current) incoming = settled current.is_closed incoming.is_closed current incoming

replacement-settled :
    (current incoming : UiCandle)
    → replacement current incoming ≡ settled current.is_closed incoming.is_closed current incoming
unfolding replacement
replacement-settled current incoming = ground arith

replacement-timestamp :
    (current incoming : UiCandle)
    → current.timestamp ≡ incoming.timestamp
    → (replacement current incoming).timestamp ≡ incoming.timestamp
unfolding replacement
replacement-timestamp current incoming e = ground arith

lookup_by-replace_first :
    (t : Text) (xs : List UiCandle) (c current : UiCandle)
    → lookup_by by_time c.timestamp xs ≡ some current
    → lookup_by by_time t (replace_first c xs)
      ≡ (if c.timestamp == t then some (replacement current c) else lookup_by by_time t xs)
unfolding lookup_by replace_first
lookup_by-replace_first t [] c current h = absurd (ground arith)
lookup_by-replace_first t (x ∷ xs) c current h =
    ground (arith, lookup_by-replace_first t xs c current, replacement-timestamp x c)

replace_first-All :
    (time : ℕ) (c : UiCandle) (xs : List UiCandle)
    → All (λ (y : UiCandle). leb time y.timestamp ≡ true) xs
    → All (λ (y : UiCandle). leb time y.timestamp ≡ true) (replace_first c xs)
unfolding replace_first
replace_first-All time c [] v = tt
replace_first-All time c (x ∷ xs) (h, v) = elim (Bool-cases (x.timestamp == c.timestamp)) [
  | inl e ↦ rw e (ground (arith, replacement-timestamp x c), v)
  | inr e ↦ rw e (h, replace_first-All time c xs v)
]

replace_first-IsSorted :
    (c : UiCandle) (xs : List UiCandle)
    → IsSorted not_later xs
    → IsSorted not_later (replace_first c xs)
unfolding replace_first
replace_first-IsSorted c [] v = tt
replace_first-IsSorted c (x ∷ xs) (least, v) = elim (Bool-cases (x.timestamp == c.timestamp)) [
  | inl e ↦
      let same_time : x.timestamp ≡ c.timestamp = ground arith in
      rw e (
        subst (λ (k : ℕ). All (λ (y : UiCandle). leb k y.timestamp ≡ true) xs)
            (same_time ∙ sym (replacement-timestamp x c same_time)) least,
        v,
      )
  | inr e ↦ rw e (replace_first-All x.timestamp c xs least, replace_first-IsSorted c xs v)
]

-- Into candles in the order of time a candle is merged so that they stay in that order. At its time
-- the merged candle is found (the old one, where that is closed and the new one is not), and at
-- every other time what was found before.
pub merge_candle-Effect :
    (history : List UiCandle) (incoming : UiCandle) (t : Text)
    → IsSorted not_later history
    → IsSorted not_later (merge_candle history incoming)
      × (lookup_by by_time t (merge_candle history incoming) ≡ (
          if incoming.timestamp == t
          then some (merged (lookup_by by_time t history) incoming)
          else lookup_by by_time t history))
unfolding merge_candle
merge_candle-Effect history incoming t v =
    elim (Option-cases (lookup_by by_time incoming.timestamp history)) [
      | inl fresh ↦
          rw (merge_candle, fresh)
            (
              sort_by-IsSorted not_later (λ a b h. ground arith) (λ a b c h k. ground arith)
                  (history ++ incoming ∷ []),
              ground (
                arith,
                lookup_by-sort_by t (history ++ incoming ∷ []),
                lookup_by-append_one t history incoming fresh,
              ),
            )
      | inr (current, found) ↦
          rw (merge_candle, found)
            (
              replace_first-IsSorted incoming history v,
              ground (
                arith,
                lookup_by-replace_first t history incoming current found,
                replacement-settled current incoming,
              ),
            )
    ]
