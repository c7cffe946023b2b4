-- ===== src/Search/Limits.antt =====
-- What one filling of a run's slots (`fillCore` of modules/search/application/service.ts) may submit.
use cryptox.Base.{
  ℕ, zero, suc, ◌+◌, ◌-◌, ◌≤◌, ◌≡◌, inl, inr, arith, ◌==◌, ltb, true, false, Result, ok, err, Text,
  Dates, Bool-cases, Result-cases, subst, is_among,
}
use cryptox.Search.Types.{Error, SearchRun, GeneratedCandidate, SearchSpace}
use cryptox.Search.Ports.{Ports}
use cryptox.Search.Submission.{submit, advance}
use cryptox.Search.Loop.{Attempt, failed, skipped, submitted, attempt, try_slots}
use cryptox.Search.Accounting.{load, Accounting, load-submit, submit-advance}

-- The submission of an attempt, counted.
abbrev gain : Attempt → ℕ
gain (submitted run) = 1
gain _ = 0

module _ {W : Type 0} (ports : Ports W) (dates : Dates) (clock : ℕ → Text) where
  abbrev pub load_of : SearchRun → W → ℕ
  load_of run w = load ports run.owner_user_id run.search_run_id w

  -- The run of a submission, in terms of the run before.
  abbrev Advanced : SearchRun → Attempt → Type 0
  Advanced run (submitted run') =
      (candidate : GeneratedCandidate) × (run' ≡ advance ports run candidate)
  Advanced run _ = Unit

  -- In flight, and reserved iterations, grow by at most the submissions that are wanted.
  abbrev pub Grown : {A : Type 0} → ℕ → SearchRun → W → W × SearchRun × Result Error A → Type 0
  Grown k run w out =
      (load_of run out.0 ≤ load_of run w + k)
      × (run.next_iteration ≤ out.1.next_iteration)
      × (out.1.next_iteration ≤ run.next_iteration + k)

  module _ (generate : SearchSpace → Text → ℕ → Result Error GeneratedCandidate) where
    -- An attempt submits nothing, or a candidate with a new fingerprint.
    pub attempt-cases :
        (n : ℕ) (run : SearchRun) (w : W) (P : W × Attempt → Type 0)
        → ((e : Error) → P (w, failed e))
        → P (w, skipped)
        → ((candidate : GeneratedCandidate) (e : Error)
            → (submit ports run candidate w).1 ≡ err e
            → P ((submit ports run candidate w).0, failed e))
        → ((candidate : GeneratedCandidate) (run' : SearchRun)
            → is_among candidate.fingerprint run.search_space.generated_fingerprints ≡ false
            → (submit ports run candidate w).1 ≡ ok run'
            → P ((submit ports run candidate w).0, submitted run'))
        → P (attempt ports dates clock generate n run w)
    unfolding attempt
    attempt-cases n run w P fails skips refused accepts =
        elim (Result-cases
          (generate run.search_space run.search_run_id (run.next_iteration + n - 1))) [
            | inr (e, no_candidate) ↦ rw (attempt, no_candidate) (fails e)
            | inl (candidate, generates) ↦
                elim (Bool-cases
                  (is_among candidate.fingerprint run.search_space.generated_fingerprints)) [
                    | inl known ↦ rw (attempt, generates, known) skips
                    | inr fresh ↦ elim (Result-cases (submit ports run candidate w).1) [
                      | inr (e, refuses) ↦
                          rw (attempt, generates, fresh, refuses) (refused candidate e refuses)
                      | inl (run', submits) ↦
                          rw (attempt, generates, fresh, submits)
                            (accepts candidate run' fresh submits)
                    ]
                  ]
          ]

    module _ (laws : Accounting ports) where
      abbrev Counted : SearchRun → W → W × Attempt → Type 0
      Counted run w out = (load_of run out.0 ≤ load_of run w + gain out.1) × Advanced run out.1

      attempt-Counted :
          (n : ℕ) (run : SearchRun) (w : W)
          → Counted run w (attempt ports dates clock generate n run w)
      attempt-Counted n run w =
          attempt-cases n run w (Counted run w) (λ e. (omega arith, tt)) (omega arith, tt)
            (λ candidate e refuses. (rw (refuses) at (load-submit ports laws run candidate w), tt))
            (λ candidate run' fresh submits. (
              rw (submits) at (load-submit ports laws run candidate w),
              (candidate, submit-advance ports run run' candidate w submits),
            ))

      Grown-after :
          (k : ℕ) (run run' : SearchRun) (w w' : W) (out : W × SearchRun × Result Error ℕ)
          → load_of run w' ≤ load_of run w + 1
          → (candidate : GeneratedCandidate) × (run' ≡ advance ports run candidate)
          → Grown k run' w' out
          → Grown (suc k) run w out
      Grown-after k run run' w w' out h (candidate, e) v =
          let (a, b, c) = subst (λ r. Grown k r w' out) e v in
          (omega (arith, a, h), omega (arith, b), omega (arith, c))

      pub try_slots-Grown :
          (left n count wanted : ℕ) (run : SearchRun) (w : W)
          → Grown
              (wanted - count)
              run
              w
              (try_slots ports dates clock generate left n count wanted run w)
      unfolding try_slots
      try_slots-Grown zero n count wanted run w = (omega arith, omega arith, omega arith)
      try_slots-Grown (suc left) n count wanted run w =
          let (h, v) = attempt-Counted (n + 1) run w in
          elim (Bool-cases (ltb count wanted)) [
            | inr enough ↦ rw (try_slots, enough) (omega arith, omega arith, omega arith)
            | inl more ↦
                rw (try_slots, more)
                  (go (λ c r v'. try_slots-Grown left (n + 1) c wanted r v') more
                    (attempt ports dates clock generate (n + 1) run w).1
                    (attempt ports dates clock generate (n + 1) run w).0 h v)
          ]
        where
          go :
              ((c : ℕ) (r : SearchRun) (v : W)
                → Grown
                    (wanted - c)
                    r
                    v
                    (try_slots ports dates clock generate left (n + 1) c wanted r v))
              → ltb count wanted ≡ true
              → (tried : Attempt) (w' : W) → load_of run w' ≤ load_of run w + gain tried
              → Advanced run tried
              → Grown (wanted - count) run w (elim tried as (λ _. W × SearchRun × Result Error ℕ) [
                | submitted run' ↦
                    try_slots ports dates clock generate left (n + 1) (count + 1) wanted run' w'
                | skipped ↦ try_slots ports dates clock generate left (n + 1) count wanted run w'
                | failed e ↦ elim (left == 0) as (λ _. W × SearchRun × Result Error ℕ) [
                  | true ↦ (w', run, err e)
                  | false ↦ try_slots ports dates clock generate left (n + 1) count wanted run w'
                ]
              ])
          go later more (submitted run') w' h v =
              let (a, b, c) =
                Grown-after (wanted - (count + 1)) run run' w w'
                  (try_slots ports dates clock generate left (n + 1) (count + 1) wanted run' w') h v
                  (later (count + 1) run' w') in
              (ground (arith, a), b, ground (arith, c))
          go later more skipped w' h v =
              let (a, b, c) = later count run w' in (omega (arith, a, h), b, c)
          go later more (failed e) w' h v = elim (Bool-cases (left == 0)) [
            | inl last ↦ rw last (omega (arith, h), omega arith, omega arith)
            | inr again ↦
                rw again (let (a, b, c) = later count run w' in (omega (arith, a, h), b, c))
          ]
