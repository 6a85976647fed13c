-- ===== src/Portfolio/Tests/Steady.antt =====
-- The temporal check on an asset that turns back and one that is new, and its theorems there.
use ailee_finance_unified_ru.Prelude.{ℕ, ◌≡◌, refl, some, List, [], ◌∷◌, get_elem?, map}
use ailee_finance_unified_ru.Prelude.Int.{pos, ◌+ℤ◌, ◌-ℤ◌}
use ailee_finance_unified_ru.Float.{nought, sum_from}
use ailee_finance_unified_ru.Float.Fixed.{Fixed, fixed_float, Fixed-IsIeee}
use ailee_finance_unified_ru.Portfolio.Assets.{record_step, all_of}
use ailee_finance_unified_ru.Portfolio.Temporal.{
  TemporalState, TemporalPortfolioState, Enforced, previous_of, baseline, oscillates, dampen,
  clamp_drift, resolve, resolved, residual, risk, residual_of, step_of, count_in, enforce_from,
  is_valid, enforce_temporal_consistency, expected,
}
use ailee_finance_unified_ru.Portfolio.Temporal.Traced.{enforce_temporal_consistency-map}
use ailee_finance_unified_ru.Portfolio.Temporal.Drift.{
  IsAimed, IsClamped, enforce_temporal_consistency-IsClamped,
}

abbrev state : ℕ → ℕ → ℕ → ℕ → TemporalState Fixed
state asset flags now last = record {
  asset_id = asset;
  flags = flags;
  prev_allocation = some (pos now);
  prev_risk_score = some (pos 100_000);
  prev_prev_allocation = some (pos last);
}

abbrev before : List (TemporalState Fixed)
before = state 1 0 4_000 3_000 ∷ []

abbrev proposed : List (TemporalState Fixed)
proposed = state 1 0 2_000 0 ∷ state 2 1 300 0 ∷ []

abbrev threshold : Fixed
threshold = some (pos 500)

abbrev portfolio : TemporalPortfolioState Fixed
portfolio = record { portfolio_risk = some (pos 0); residual_sum = some (pos 0) }

abbrev enforced : Enforced Fixed
enforced = record {
  states = state 1 1 3_500 4_000 ∷ state 2 0 300 0 ∷ [];
  portfolio = record { portfolio_risk = some (pos 38_000); residual_sum = some (pos 800) };
  residuals =
      record {
        asset_id = 1;
        expected_allocation = some (pos 4_000);
        actual_allocation = some (pos 3_500);
        residual = some (pos 500);
      }
      ∷ record {
        asset_id = 2;
        expected_allocation = some (pos 0);
        actual_allocation = some (pos 300);
        residual = some (pos 300);
      }
      ∷ [];
  trace =
      record {
        asset_id = 1;
        action_taken = 3;
        before_value = some (pos 2_000);
        after_value = some (pos 3_500);
        residual = some (pos 500);
      }
      ∷ record {
        asset_id = 2;
        action_taken = 0;
        before_value = some (pos 300);
        after_value = some (pos 300);
        residual = some (pos 300);
      }
      ∷ [];
}

enforce-run : enforce_temporal_consistency threshold before portfolio proposed ≡ some enforced
unfolding previous_of baseline oscillates dampen clamp_drift resolve count_in enforce_from is_valid
    enforce_temporal_consistency record_step all_of ◌+ℤ◌ ◌-ℤ◌
enforce-run = refl

enforce_temporal_consistency-map_example :
    (enforced.states ≡ map (resolved threshold before) proposed)
    × (enforced.residuals ≡ map (residual_of threshold before) proposed)
    × (enforced.trace ≡ map (step_of threshold before) proposed)
    × (enforced.portfolio.residual_sum ≡ sum_from nought (map (residual threshold before) proposed))
    × (enforced.portfolio.portfolio_risk ≡ sum_from nought (map (risk threshold before) proposed))
enforce_temporal_consistency-map_example =
    enforce_temporal_consistency-map threshold before portfolio proposed enforced enforce-run

enforce_temporal_consistency-IsClamped_example :
    (r : TemporalState Fixed) × (target : Fixed) × (get_elem? enforced.states 0 ≡ some r)
    × (r.asset_id ≡ 1)
    × IsAimed (previous_of 1 before) (some (pos 2_000)) r.flags target
    × IsClamped threshold (expected threshold before (state 1 0 2_000 0)) target r.prev_allocation
    × (r.prev_prev_allocation ≡ expected threshold before (state 1 0 2_000 0))
enforce_temporal_consistency-IsClamped_example =
    enforce_temporal_consistency-IsClamped Fixed-IsIeee threshold before portfolio proposed enforced
      0 (state 1 0 2_000 0) enforce-run refl
