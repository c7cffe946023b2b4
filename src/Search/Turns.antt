-- ===== src/Search/Turns.antt =====
-- Invariants of the loop of `fillCore` (modules/search/application/service.ts).
use cryptox.Base.{
  ℕ, zero, suc, ◌+◌, inl, inr, ◌==◌, ltb, true, false, Result, err, Text, Dates, Bool-cases,
}
use cryptox.Search.Types.{Error, SearchRun, GeneratedCandidate, SearchSpace}
use cryptox.Search.Ports.{Ports}
use cryptox.Search.Loop.{Attempt, failed, skipped, submitted, attempt, try_slots}

module _ {W : Type 0} (ports : Ports W) (dates : Dates) (clock : ℕ → Text)
    (generate : SearchSpace → Text → ℕ → Result Error GeneratedCandidate)
    (Q : SearchRun → W → Type 0) where
  -- What an attempt leaves of a property of the run and the world.
  abbrev pub After : SearchRun → W × Attempt → Type 0
  After run (w, failed e) = Q run w
  After run (w, skipped) = Q run w
  After run (w, submitted run') = Q run' w

  pub try_slots-Keeps :
      ((n : ℕ) (run : SearchRun) (w : W)
        → Q run w
        → After run (attempt ports dates clock generate n run w))
      → (left n count wanted : ℕ) (run : SearchRun) (w : W) → Q run w
      → Q
          (try_slots ports dates clock generate left n count wanted run w).1
          (try_slots ports dates clock generate left n count wanted run w).0
  unfolding try_slots
  try_slots-Keeps turn zero n count wanted run w q = q
  try_slots-Keeps turn (suc left) n count wanted run w q = elim (Bool-cases (ltb count wanted)) [
    | inr enough ↦ rw (try_slots, enough) q
    | inl more ↦
        rw (try_slots, more)
          (go (λ c r v. try_slots-Keeps turn left (n + 1) c wanted r v)
            (attempt ports dates clock generate (n + 1) run w).1
            (attempt ports dates clock generate (n + 1) run w).0 (turn (n + 1) run w q))
  ]
    where
      go :
          ((c : ℕ) (r : SearchRun) (v : W)
            → Q r v
            → Q
                (try_slots ports dates clock generate left (n + 1) c wanted r v).1
                (try_slots ports dates clock generate left (n + 1) c wanted r v).0)
          → (tried : Attempt) (w' : W) → After run (w', tried)
          → (λ (out : W × SearchRun × Result Error ℕ). Q out.1 out.0)
              (elim tried as (λ _. W × SearchRun × Result Error ℕ) [
                | submitted run' ↦
                    try_slots ports dates clock generate left (n + 1) (count + 1) wanted run' w'
                | skipped ↦ try_slots ports dates clock generate left (n + 1) count wanted run w'
                | failed e ↦ elim (left == 0) as (λ _. W × SearchRun × Result Error ℕ) [
                  | true ↦ (w', run, err e)
                  | false ↦ try_slots ports dates clock generate left (n + 1) count wanted run w'
                ]
              ])
      go later (submitted run') w' q = later (count + 1) run' w' q
      go later skipped w' q = later count run w' q
      go later (failed e) w' q = elim (Bool-cases (left == 0)) [
        | inl last ↦ rw last q
        | inr again ↦ rw again (later count run w' q)
      ]
