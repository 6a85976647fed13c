-- ===== src/Portfolio/Tests/Bounded.antt =====
-- The override and the temporal check on two assets, and their theorems there.
use ailee_finance_unified_ru.Prelude.{ℕ, ◌≡◌, false, refl, some, List, [], ◌∷◌, get_elem?, arith}
use ailee_finance_unified_ru.Prelude.Int.{pos, ◌+ℤ◌, ◌-ℤ◌}
use ailee_finance_unified_ru.Float.{◌≼◌}
use ailee_finance_unified_ru.Float.Bounds.{All}
use ailee_finance_unified_ru.Float.Fixed.{Fixed, fixed_float, Fixed-IsIeee}
use ailee_finance_unified_ru.Portfolio.Assets.{AssetAllocation, record_step, all_of}
use ailee_finance_unified_ru.Portfolio.Stress.{
  StressOverrideRules, StressPortfolioState, SafeBaseline, StressTraceStep, previous_of,
  baseline_of, effective_mode, exposure_freeze_active, is_risk_bearing, freeze, dampen, compress,
  adjust, override_from, is_valid, apply_stress_regime_override,
}
use ailee_finance_unified_ru.Portfolio.Stress.Bounds.{
  IsHeld, apply_stress_regime_override-IsHeld, apply_stress_regime_override-IsFrozen,
}

abbrev held : ℕ → ℕ → ℕ → AssetAllocation Fixed
held asset share risk = record {
  asset_id = asset;
  allocation = some (pos share);
  risk_score = some (pos risk);
}

abbrev override_rules : StressOverrideRules Fixed
override_rules = record {
  volatility_threshold = some (pos 5_000);
  drawdown_threshold = some (pos 5_000);
  correlation_threshold = some (pos 9_000);
  residual_threshold = some (pos 9_000);
  crash_dampening_factor = some (pos 5_000);
  fallback_lambda = some (pos 8_000);
  mode = 0;
}

-- Above half of the first threshold: stress.
abbrev market : StressPortfolioState Fixed
market = record {
  portfolio_risk = some (pos 100_000);
  stress_index = some (pos 0);
  volatility_index = some (pos 3_000);
  drawdown_index = some (pos 1_000);
  correlation_index = some (pos 1_000);
  temporal_residual_sum = some (pos 0);
  stress_level = 0;
}

abbrev before : List (AssetAllocation Fixed)
before = held 0 8_000 0 ∷ held 1 2_000 800_000 ∷ []

abbrev proposed : List (AssetAllocation Fixed)
proposed = held 0 6_000 0 ∷ held 1 4_000 800_000 ∷ []

abbrev baselines : List (SafeBaseline Fixed)
baselines = record { asset_id = 0; baseline_allocation = some (pos 8_000) } ∷ []

abbrev overridden : List (AssetAllocation Fixed)
overridden = held 0 6_000 0 ∷ held 1 1_000 800_000 ∷ []

abbrev override_trace : List (StressTraceStep Fixed)
override_trace =
    record {
      asset_id = 0;
      flags = 0;
      original_allocation = some (pos 6_000);
      adjusted_allocation = some (pos 6_000);
    }
    ∷ record {
      asset_id = 1;
      flags = 3;
      original_allocation = some (pos 4_000);
      adjusted_allocation = some (pos 1_000);
    }
    ∷ []

override-run :
    apply_stress_regime_override override_rules market before baselines false proposed
    ≡ some (overridden, override_trace)
unfolding previous_of baseline_of effective_mode exposure_freeze_active is_risk_bearing freeze
    dampen compress adjust override_from is_valid apply_stress_regime_override record_step all_of
    ◌+ℤ◌ ◌-ℤ◌
override-run = refl

apply_stress_regime_override-IsHeld_example : All IsHeld overridden
apply_stress_regime_override-IsHeld_example =
    apply_stress_regime_override-IsHeld Fixed-IsIeee override_rules market before baselines false
      proposed overridden override_trace (ground arith) (ground arith) (ground arith) override-run

apply_stress_regime_override-IsFrozen_example :
    (b : AssetAllocation Fixed) × (get_elem? overridden 1 ≡ some b)
    × (b.asset_id ≡ 1)
    × (b.allocation ≼ some (pos 2_000))
unfolding effective_mode exposure_freeze_active is_risk_bearing previous_of
apply_stress_regime_override-IsFrozen_example =
    apply_stress_regime_override-IsFrozen Fixed-IsIeee override_rules market before baselines false
      proposed overridden override_trace 1 (held 1 4_000 800_000) (some (pos 2_000)) (ground arith)
      (ground arith) override-run refl refl refl refl refl

abbrev forced : StressOverrideRules Fixed
forced = record override_rules { mode = 2 }

abbrev calm : StressPortfolioState Fixed
calm = record market { volatility_index = some (pos 1_000) }

-- A crisis that the rules ask for holds in a calm market, and is lowered to stress in a worse one.
forced-calm : effective_mode forced calm ≡ 2
unfolding effective_mode
forced-calm = refl

forced-stressed : effective_mode forced market ≡ 1
unfolding effective_mode
forced-stressed = refl
