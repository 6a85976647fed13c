-- ===== src/Portfolio/Arbitration/Rise.antt =====
-- The ladder, one asset at a time: the assets do not touch each other before their shares.
use ailee_finance_unified_ru.Prelude.{ℕ, ◌≡◌, List, [], ◌∷◌, refl, map}
use ailee_finance_unified_ru.Float.{Float}
use ailee_finance_unified_ru.Portfolio.Arbitration.{
  Candidate, ArbitrationTraceStep, advance, log_rate, run_stage, traverse,
}

module _ {D : Type 0} ⦃d : Float D⦄ where
  abbrev pub rise : List ℕ → Candidate D → Candidate D
  rise [] c = c
  rise (dimension ∷ ladder) c = rise ladder (advance dimension c)

  run_stage-map :
      (dimension : ℕ) (candidates : List (Candidate D)) (trace : List (ArbitrationTraceStep D))
      → (run_stage dimension candidates trace).0 ≡ map (advance dimension) candidates
  unfolding run_stage
  run_stage-map dimension [] trace = refl
  run_stage-map dimension (c ∷ candidates) trace =
      rw (run_stage-map dimension candidates (log_rate dimension c trace)) refl

  rise-map :
      (dimension : ℕ) (ladder : List ℕ) (candidates : List (Candidate D))
      → map (rise ladder) (map (advance dimension) candidates)
        ≡ map (rise (dimension ∷ ladder)) candidates
  rise-map dimension ladder [] = refl
  rise-map dimension ladder (c ∷ candidates) = rw (rise-map dimension ladder candidates) refl

  pub map_id : (candidates : List (Candidate D)) → candidates ≡ map (rise []) candidates
  map_id [] = refl
  map_id (c ∷ candidates) = rw (← map_id candidates) refl

  pub traverse-map :
      (ladder : List ℕ) (candidates : List (Candidate D)) (trace : List (ArbitrationTraceStep D))
      → (traverse ladder candidates trace).0 ≡ map (rise ladder) candidates
  unfolding traverse
  traverse-map [] candidates trace = map_id candidates
  traverse-map (dimension ∷ ladder) candidates trace =
      rw
        (
          traverse-map ladder (run_stage dimension candidates trace).0
              (run_stage dimension candidates trace).1,
          run_stage-map dimension candidates trace,
          rise-map dimension ladder candidates,
        )
        refl
