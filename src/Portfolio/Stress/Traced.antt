-- ===== src/Portfolio/Stress/Traced.antt =====
-- The override's loop against a description with no loop: every asset is adjusted, and every
-- adjustment is in the trace.
use mathlib.Core.List.{append_assoc, append-nil}
use ailee_finance_unified_ru.Prelude.{
  ◌+◌, ◌≤◌, ◌≡◌, Bool, true, some, List, [], ◌∷◌, ◌++◌, refl, arith, map, length,
}
use ailee_finance_unified_ru.Float.{Float}
use ailee_finance_unified_ru.Portfolio.Assets.{
  AssetAllocation, record_step-under, length-snoc, max_trace,
}
use ailee_finance_unified_ru.Portfolio.Stress.{
  StressOverrideRules, StressPortfolioState, SafeBaseline, StressTraceStep, step_of, adjusted,
  override_from, is_valid, apply_stress_regime_override,
}

module _ {D : Type 0} ⦃d : Float D⦄ (rules : StressOverrideRules D) (state : StressPortfolioState D)
    (prev : List (AssetAllocation D)) (baselines : List (SafeBaseline D)) (failed : Bool) where
  override_from-map :
      (trace : List (StressTraceStep D)) (allocations : List (AssetAllocation D))
      → length trace + length allocations ≤ max_trace
      → override_from rules state prev baselines failed trace allocations ≡ (
        map (adjusted rules state prev baselines failed) allocations,
        trace ++ map (step_of rules state prev baselines failed) allocations,
      )
  unfolding override_from
  override_from-map trace [] room = rw (append-nil trace) refl
  override_from-map trace (a ∷ allocations) room =
      let step = step_of rules state prev baselines failed a in
      rw
        (
          record_step-under max_trace step trace (omega arith),
          override_from-map (trace ++ (step ∷ [])) allocations
              (omega (arith, length-snoc trace step)),
          append_assoc trace (step ∷ [])
              (map (step_of rules state prev baselines failed) allocations),
        )
        refl

  pub override-is_valid :
      (allocations out : List (AssetAllocation D)) (trace : List (StressTraceStep D))
      → apply_stress_regime_override rules state prev baselines failed allocations
        ≡ some (out, trace)
      → is_valid rules state prev baselines failed allocations ≡ true
  unfolding apply_stress_regime_override
  override-is_valid allocations out trace h = ground arith

  is_valid-few :
      (allocations : List (AssetAllocation D))
      → is_valid rules state prev baselines failed allocations ≡ true
      → length allocations ≤ 16
  unfolding is_valid
  is_valid-few allocations h = ground arith

  -- When the override returns, its allocations and its trace are each the list of what is computed
  -- for every asset on its own.
  pub apply_stress_regime_override-map :
      (allocations out : List (AssetAllocation D)) (trace : List (StressTraceStep D))
      → apply_stress_regime_override rules state prev baselines failed allocations
        ≡ some (out, trace)
      → (out ≡ map (adjusted rules state prev baselines failed) allocations)
        × (trace ≡ map (step_of rules state prev baselines failed) allocations)
  unfolding apply_stress_regime_override
  apply_stress_regime_override-map allocations out trace h =
      let shape =
        override_from-map [] allocations
          (omega (arith, is_valid-few allocations (override-is_valid allocations out trace h))) in
      ground (arith, shape)
