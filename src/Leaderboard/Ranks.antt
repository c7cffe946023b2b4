-- ===== src/Leaderboard/Ranks.antt =====
-- What `rankEntries` of modules/leaderboard/application/service.ts does to a list of entries.
use cryptox.Base.{
  ℕ, zero, suc, ◌+◌, ◌≤◌, ◌≡◌, refl, ap, ◌∙◌, arith, true, some, List, [], ◌∷◌, Text, length, take,
  get_last, sort_by, IsSorted, All, sort_by-IsSorted, length-sort_by, sort_by-All, All-sort_by,
  sort_by_of_IsSorted, get_last-greatest,
}
use cryptox.Leaderboard.Ranking.{
  Entry, ranks_before, number_from, rank_entries, ranks_before_total, ranks_before_trans,
  ranks_before_refl,
}

length-number_from : (n : ℕ) (es : List Entry) → length (number_from n es) ≡ length es
unfolding number_from
length-number_from n [] = refl
length-number_from n (e ∷ es) = ap suc (length-number_from (n + 1) es)

number_from_idem : (n : ℕ) (es : List Entry) → number_from n (number_from n es) ≡ number_from n es
unfolding number_from
number_from_idem n [] = refl
number_from_idem n (e ∷ es) = ap (λ l. record e { rank = n } ∷ l) (number_from_idem (n + 1) es)

-- Where a property says nothing of the rank.
module _ (P : Entry → Type 0) (there : (e : Entry) (n : ℕ) → P e → P (record e { rank = n }))
    (back : (e : Entry) (n : ℕ) → P (record e { rank = n }) → P e) where
  number_from-All : (n : ℕ) (es : List Entry) → All P es → All P (number_from n es)
  unfolding number_from
  number_from-All n [] v = tt
  number_from-All n (e ∷ es) (p, v) = (there e n p, number_from-All (n + 1) es v)

  All-number_from : (n : ℕ) (es : List Entry) → All P (number_from n es) → All P es
  unfolding number_from
  All-number_from n [] v = tt
  All-number_from n (e ∷ es) (p, v) = (back e n p, All-number_from (n + 1) es v)

take-all {ℓ} : {A : Type ℓ} (n : ℕ) (xs : List A) → length xs ≤ n → take n xs ≡ xs
take-all zero [] h = refl
take-all zero (x ∷ xs) h = absurd (omega arith)
take-all (suc n) [] h = refl
take-all (suc n) (x ∷ xs) h = ap (◌∷◌ x) (take-all n xs (omega arith))

module _ (id_text : ℕ → Text) where
  number_from-IsSorted :
      (n : ℕ) (es : List Entry)
      → IsSorted (ranks_before id_text) es
      → IsSorted (ranks_before id_text) (number_from n es)
  unfolding number_from ranks_before
  number_from-IsSorted n [] v = tt
  number_from-IsSorted n (e ∷ es) (least, v) = (
    number_from-All (λ x. ranks_before id_text e x ≡ true) (λ x k p. p) (λ x k p. p) (n + 1) es
        least,
    number_from-IsSorted (n + 1) es v,
  )

  pub rank_entries-IsSorted :
      (es : List Entry) → IsSorted (ranks_before id_text) (rank_entries id_text es)
  unfolding rank_entries
  rank_entries-IsSorted es = number_from-IsSorted 1 (sort_by (ranks_before id_text) es) (
      sort_by-IsSorted (ranks_before id_text) (ranks_before_total id_text)
        (ranks_before_trans id_text) es)

  pub length-rank_entries : (es : List Entry) → length (rank_entries id_text es) ≡ length es
  unfolding rank_entries
  length-rank_entries es =
      length-number_from 1 (sort_by (ranks_before id_text) es)
      ∙ length-sort_by (ranks_before id_text) es

  -- Ranking what is ranked changes nothing.
  pub rank_entries_idem :
      (es : List Entry) → rank_entries id_text (rank_entries id_text es) ≡ rank_entries id_text es
  unfolding rank_entries
  rank_entries_idem es =
      rw (sort_by_of_IsSorted (ranks_before id_text) _ (rank_entries-IsSorted es))
        (number_from_idem 1 (sort_by (ranks_before id_text) es))

  -- On a board that is not overfull, cutting at the limit and ranking again change nothing.
  pub rank_entries-take :
      (k : ℕ) (es : List Entry)
      → length es ≤ k
      → rank_entries id_text (take k (rank_entries id_text es)) ≡ rank_entries id_text es
  rank_entries-take k es h =
      let fits : length (rank_entries id_text es) ≤ k = omega (arith, length-rank_entries es) in
      rw (take-all k (rank_entries id_text es) fits) (rank_entries_idem es)

  module _ (P : Entry → Type 0) (there : (e : Entry) (n : ℕ) → P e → P (record e { rank = n }))
      (back : (e : Entry) (n : ℕ) → P (record e { rank = n }) → P e) where
    pub rank_entries-All : (es : List Entry) → All P es → All P (rank_entries id_text es)
    unfolding rank_entries
    rank_entries-All es v =
        number_from-All P there back 1 _ (sort_by-All (ranks_before id_text) P es v)

    pub All-rank_entries : (es : List Entry) → All P (rank_entries id_text es) → All P es
    unfolding rank_entries
    All-rank_entries es v =
        All-sort_by (ranks_before id_text) P es (All-number_from P there back 1 _ v)

  -- Every entry ranks before the last one.
  pub rank_entries_last :
      (es : List Entry) (lowest : Entry)
      → get_last (rank_entries id_text es) ≡ some lowest
      → All (λ e. ranks_before id_text e lowest ≡ true) es
  unfolding ranks_before
  rank_entries_last es lowest h =
      All-rank_entries (λ e. ranks_before id_text e lowest ≡ true) (λ e n p. p) (λ e n p. p) es
        (get_last-greatest (ranks_before id_text) (rank_entries id_text es) lowest
          (ranks_before_refl id_text) (rank_entries-IsSorted es) h)
