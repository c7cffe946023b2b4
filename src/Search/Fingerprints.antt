-- ===== src/Search/Fingerprints.antt =====
-- The fingerprints of the candidates that a run has submitted
-- (modules/search/application/service.ts).
use cryptox.Base.{
  ℕ, ◌+◌, ◌*◌, ◌≡◌, refl, sym, ap, ◌∙◌, arith, false, List, [], ◌∷◌, ◌++◌, some, Result, ok, Text,
  Dates, subst, max, length, length-append, is_among, with_text, distinct, distinct_after,
}
use cryptox.Search.Types.{Error, SearchRun, GeneratedCandidate, SearchSpace}
use cryptox.Search.Ports.{Ports}
use cryptox.Search.Submission.{advance}
use cryptox.Search.Loop.{try_slots, fill_slots, fill_core, slots, settle_run, refresh, finish_if}
use cryptox.Search.Accounting.{submit-advance}
use cryptox.Search.Limits.{attempt-cases}
use cryptox.Search.Refreshing.{Kept, refresh-Refreshed, finish_if-Kept, settle_run-Kept}
use cryptox.Search.Filling.{tried, fill_slots-cases, fill_core-cases}
use cryptox.Search.Turns.{After, try_slots-Keeps}

-- No fingerprint stands twice: `new Set` keeps the list.
abbrev pub IsDistinct : List Text → Type 0
IsDistinct ts = distinct ts ≡ ts

distinct_after-append :
    (seen ts : List Text) (t : Text)
    → distinct_after seen (ts ++ t ∷ []) ≡ with_text (distinct_after seen ts) t
unfolding distinct_after
distinct_after-append seen [] t = refl
distinct_after-append seen (u ∷ ts) t = distinct_after-append (with_text seen u) ts t

distinct-append :
    (ts : List Text) (t : Text)
    → IsDistinct ts
    → is_among t ts ≡ false
    → distinct (ts ++ t ∷ []) ≡ ts ++ t ∷ []
unfolding distinct
distinct-append ts t v fresh =
    distinct_after-append [] ts t ∙ ap (λ us. with_text us t) v ∙ rw fresh refl

abbrev pub fingerprints : SearchRun → List Text
fingerprints run = run.search_space.generated_fingerprints

-- As many fingerprints join, none of them twice, as iterations are reserved.
abbrev pub Numbers : SearchRun → SearchRun → Type 0
Numbers run run' =
    IsDistinct (fingerprints run')
    × (length (fingerprints run') + run.next_iteration
        ≡ length (fingerprints run) + run'.next_iteration)

module _ {W : Type 0} (ports : Ports W) (dates : Dates) (clock : ℕ → Text) where
  advance-Numbers :
      (run r : SearchRun) (candidate : GeneratedCandidate)
      → Numbers run r
      → is_among candidate.fingerprint (fingerprints r) ≡ false
      → Numbers run (advance ports r candidate)
  advance-Numbers run r candidate (v, e) fresh =
      let joined = distinct-append (fingerprints r) candidate.fingerprint v fresh in
      (
        ap distinct joined ∙ joined ∙ sym joined,
        rw joined (omega (arith, e, length-append (fingerprints r) (candidate.fingerprint ∷ []))),
      )

  Numbers-Kept : (run a b : SearchRun) → Kept a b → Numbers run a → Numbers run b
  Numbers-Kept run a b v (d, e) =
      let same = ap (λ (s : SearchSpace). s.generated_fingerprints) v.space in
      (subst IsDistinct (sym same) d, omega (arith, e, ap length same, v.iteration))

  try_slots-Numbers :
      (generate : SearchSpace → Text → ℕ → Result Error GeneratedCandidate) (left wanted : ℕ)
      (run a : SearchRun) (w : W)
      → Numbers run a
      → Numbers run (try_slots ports dates clock generate left 0 0 wanted a w).1
  try_slots-Numbers generate left wanted run a w v =
      try_slots-Keeps ports dates clock generate (λ r _. Numbers run r)
        (λ n r u q.
          attempt-cases ports dates clock generate n r u
            (After ports dates clock generate (λ x _. Numbers run x) r) (λ e. q) q
            (λ candidate e refused. q)
            (λ candidate r' fresh submits.
              subst (Numbers run) (sym (submit-advance ports r r' candidate u submits))
                (advance-Numbers run r candidate q fresh)))
        left 0 0 wanted a w v

  fill_slots-Numbers :
      (run a : SearchRun) (w : W) → Numbers run a → Numbers run (fill_slots ports dates clock a w).1
  fill_slots-Numbers run a w v =
      fill_slots-cases ports dates clock a w (λ out. Numbers run out.1) (λ e. v)
        (λ generate e. numbers generate)
        (λ generate.
          let out = tried ports dates clock generate a w in
          Numbers-Kept run out.1 (settle_run ports dates clock out.1 out.0).0
            (settle_run-Kept ports dates clock out.1 out.0) (numbers generate))
    where
      numbers :
          (generate : SearchSpace → Text → ℕ → Result Error GeneratedCandidate)
          → Numbers run (tried ports dates clock generate a w).1
      numbers generate =
          let wanted = slots ports dates clock a in
          try_slots-Numbers generate (max (wanted * 4) (wanted + 1)) wanted run a w v

  -- A filling of a run whose fingerprints are distinct leaves them distinct, and adds as many as it
  -- reserves iterations.
  pub fill_core-Numbers :
      (run : SearchRun) (w : W)
      → IsDistinct (fingerprints run)
      → Numbers run (fill_core ports dates clock run w).1
  fill_core-Numbers run w v =
      fill_core-cases ports dates clock run w (λ out. Numbers run out.1) (λ idle. (v, refl))
        (λ e. (v, refl))
        (λ run' met runs reads.
          let ended = finish_if ports dates clock (some met) 2 run' in
          Numbers-Kept run run' ended (finish_if-Kept ports dates clock (some met) 2 run')
            (refreshed run' reads))
        (λ run' runs reads. fill_slots-Numbers run run' w (refreshed run' reads))
    where
      refreshed :
          (run' : SearchRun) → refresh ports dates clock 0 run w ≡ ok run' → Numbers run run'
      refreshed run' reads =
          let (kept, counts, same) = refresh-Refreshed ports dates clock 0 run run' w reads in
          Numbers-Kept run run run' kept (v, refl)
