-- ===== src/Portfolio/Stress.antt =====
-- `apply_stress_regime_override` of extensions/aille_stress_regime_override.cpp. `none` is the
-- exception, which leaves the allocations and the trace of the caller as they were.
pub mod Traced
pub mod Bounds
use ailee_finance_unified_ru.Prelude.{
  ℕ, ◌+◌, Bool, true, false, not, ◌&&◌, ◌||◌, Option, none, some, List, [], ◌∷◌, if◌then◌else◌, leb,
  ◌==◌,
}
use ailee_finance_unified_ru.Float.{Float, nought, one, of_nat}
use ailee_finance_unified_ru.Portfolio.Assets.{
  cash, max_assets, max_trace, AssetAllocation, record_step, fits, all_of, is_nonnegative, is_unit,
}

-- The modes: 0 normal, 1 stress, 2 crisis.
abbrev pub stress : ℕ
stress = 1

abbrev pub crisis : ℕ
crisis = 2

pub record StressOverrideRules (D : Type 0) : Type 0 where
  pub volatility_threshold : D
  pub drawdown_threshold : D
  pub correlation_threshold : D
  pub residual_threshold : D
  pub crash_dampening_factor : D
  pub fallback_lambda : D
  pub mode : ℕ

pub record StressPortfolioState (D : Type 0) : Type 0 where
  pub portfolio_risk : D
  pub stress_index : D
  pub volatility_index : D
  pub drawdown_index : D
  pub correlation_index : D
  pub temporal_residual_sum : D
  pub stress_level : ℕ

pub record SafeBaseline (D : Type 0) : Type 0 where
  pub asset_id : ℕ
  pub baseline_allocation : D

pub record StressTraceStep (D : Type 0) : Type 0 where
  pub asset_id : ℕ
  pub flags : ℕ
  pub original_allocation : D
  pub adjusted_allocation : D

module _ {D : Type 0} where
  -- The search for the asset's previous allocation: the first entry with its id.
  unfoldable pub previous_of : ℕ → List (AssetAllocation D) → Option D
  previous_of asset [] = none
  previous_of asset (a ∷ allocations) =
      let rest = previous_of asset allocations in
      if a.asset_id == asset then some a.allocation else rest

module _ {D : Type 0} ⦃d : Float D⦄ where
  -- The baseline is 0 for an asset that has none.
  unfoldable pub baseline_of : ℕ → List (SafeBaseline D) → D
  baseline_of asset [] = nought
  baseline_of asset (b ∷ baselines) =
      let rest = baseline_of asset baselines in
      if b.asset_id == asset then b.baseline_allocation else rest

  abbrev exceeds_crisis_thresholds : StressOverrideRules D → StressPortfolioState D → Bool
  exceeds_crisis_thresholds rules state =
      d.lt rules.volatility_threshold state.volatility_index
      || d.lt rules.drawdown_threshold state.drawdown_index
      || d.lt rules.correlation_threshold state.correlation_index
      || d.lt rules.residual_threshold state.temporal_residual_sum

  abbrev half : D → D
  half x = d.mul (d.ratio 1 2) x

  abbrev exceeds_stress_thresholds : StressOverrideRules D → StressPortfolioState D → Bool
  exceeds_stress_thresholds rules state =
      d.lt (half rules.volatility_threshold) state.volatility_index
      || d.lt (half rules.drawdown_threshold) state.drawdown_index
      || d.lt (half rules.correlation_threshold) state.correlation_index
      || d.lt (half rules.residual_threshold) state.temporal_residual_sum

  unfoldable pub effective_mode : StressOverrideRules D → StressPortfolioState D → ℕ
  effective_mode rules state =
      if state.stress_level == crisis || exceeds_crisis_thresholds rules state
      then crisis
      else if state.stress_level == stress || exceeds_stress_thresholds rules state
      then stress
      else rules.mode

  unfoldable pub exposure_freeze_active : StressOverrideRules D → StressPortfolioState D → Bool
  exposure_freeze_active rules state =
      d.lt (half rules.volatility_threshold) state.volatility_index
      || d.lt (half rules.drawdown_threshold) state.drawdown_index

  unfoldable pub is_risk_bearing : AssetAllocation D → Bool
  is_risk_bearing a = not (a.asset_id == cash) && d.lt (of_nat 40) a.risk_score

  -- Stages A, B and C on a value and its flags, the bits of which are set one at a time.
  unfoldable pub freeze : Bool → Option D → D × ℕ → D × ℕ
  freeze active none (x, flags) = (x, flags)
  freeze active (some previous) (x, flags) =
      if active && d.lt previous x then (previous, flags + 2) else (x, flags)

  unfoldable pub dampen : Bool → D → D × ℕ → D × ℕ
  dampen active factor (x, flags) = if active then (d.mul x factor, flags + 1) else (x, flags)

  unfoldable pub compress : Bool → D → D → D × ℕ → D × ℕ
  compress active fallback_lambda baseline (x, flags) =
      if active
      then (d.add (d.mul (d.sub one fallback_lambda) x) (d.mul fallback_lambda baseline), flags + 4)
      else (x, flags)

module _ {D : Type 0} ⦃d : Float D⦄ (rules : StressOverrideRules D) (state : StressPortfolioState D)
    (prev_allocations : List (AssetAllocation D)) (baselines : List (SafeBaseline D))
    (normal_safety_failed : Bool) where
  abbrev pub mode_now : ℕ
  mode_now = effective_mode rules state

  abbrev pub is_compressed : Bool
  is_compressed = normal_safety_failed || mode_now == crisis

  -- One turn of the loop over the assets.
  unfoldable pub adjust : AssetAllocation D → D × ℕ
  adjust a =
      let risky = is_risk_bearing a in
      compress is_compressed rules.fallback_lambda (baseline_of a.asset_id baselines) (
        dampen ((mode_now == stress || mode_now == crisis) && risky) rules.crash_dampening_factor (
          freeze (exposure_freeze_active rules state && risky)
            (previous_of a.asset_id prev_allocations) (a.allocation, 0)))

  abbrev pub step_of : AssetAllocation D → StressTraceStep D
  step_of a = record {
    asset_id = a.asset_id;
    flags = (adjust a).1;
    original_allocation = a.allocation;
    adjusted_allocation = (adjust a).0;
  }

  abbrev pub adjusted : AssetAllocation D → AssetAllocation D
  adjusted a = record a { allocation = (adjust a).0 }

  unfoldable pub override_from :
      List (StressTraceStep D)
      → List (AssetAllocation D)
      → List (AssetAllocation D) × List (StressTraceStep D)
  override_from trace [] = ([], trace)
  override_from trace (a ∷ allocations) =
      let (rest, trace') = override_from (record_step max_trace (step_of a) trace) allocations in
      (adjusted a ∷ rest, trace')

  abbrev is_finite_allocation : AssetAllocation D → Bool
  is_finite_allocation a = d.is_finite a.allocation && d.is_finite a.risk_score

  -- The checks before anything is computed.
  unfoldable pub is_valid : List (AssetAllocation D) → Bool
  is_valid allocations =
      fits max_assets prev_allocations
      && fits max_assets allocations
      && fits max_assets baselines
      && is_nonnegative rules.volatility_threshold
      && is_nonnegative rules.drawdown_threshold
      && is_nonnegative rules.correlation_threshold
      && is_nonnegative rules.residual_threshold
      && is_unit rules.crash_dampening_factor
      && is_unit rules.fallback_lambda
      && d.is_finite state.portfolio_risk
      && d.is_finite state.stress_index
      && d.is_finite state.volatility_index
      && d.is_finite state.drawdown_index
      && d.is_finite state.correlation_index
      && d.is_finite state.temporal_residual_sum
      && leb rules.mode 2
      && leb state.stress_level 2
      && all_of is_finite_allocation prev_allocations
      && all_of is_finite_allocation allocations
      && all_of (λ (b : SafeBaseline D). d.is_finite b.baseline_allocation) baselines

  unfoldable pub apply_stress_regime_override :
      List (AssetAllocation D) → Option (List (AssetAllocation D) × List (StressTraceStep D))
  apply_stress_regime_override allocations =
      let (staged, trace) = override_from [] allocations in
      if is_valid allocations && all_of (λ (a : AssetAllocation D). d.is_finite a.allocation) staged
      then some (staged, trace)
      else none
