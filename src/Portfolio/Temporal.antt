-- ===== src/Portfolio/Temporal.antt =====
-- `enforce_temporal_consistency` of extensions/aille_temporal_consistency.cpp. `none` is the
-- exception, which leaves what the caller passed as it was. Of a trace step everything but its
-- text is kept.
pub mod Traced
pub mod Drift
use ailee_finance_unified_ru.Prelude.{
  ℕ, ◌+◌, ◌-◌, ◌%◌, Bool, true, false, not, ◌&&◌, ◌||◌, Option, none, some, List, [], ◌∷◌,
  if◌then◌else◌, ◌==◌,
}
use ailee_finance_unified_ru.Float.{Float, nought}
use ailee_finance_unified_ru.Portfolio.Assets.{
  max_assets, max_trace, record_step, fits, all_of, is_nonnegative,
}

pub record TemporalState (D : Type 0) : Type 0 where
  pub asset_id : ℕ
  pub flags : ℕ
  pub prev_allocation : D
  pub prev_risk_score : D
  pub prev_prev_allocation : D

pub record TemporalResidual (D : Type 0) : Type 0 where
  pub asset_id : ℕ
  pub expected_allocation : D
  pub actual_allocation : D
  pub residual : D

pub record TemporalTraceStep (D : Type 0) : Type 0 where
  pub asset_id : ℕ
  pub action_taken : ℕ
  pub before_value : D
  pub after_value : D
  pub residual : D

pub record TemporalPortfolioState (D : Type 0) : Type 0 where
  pub portfolio_risk : D
  pub residual_sum : D

-- What the caller gets back, and what the loop carries.
pub record Enforced (D : Type 0) : Type 0 where
  pub states : List (TemporalState D)
  pub portfolio : TemporalPortfolioState D
  pub residuals : List (TemporalResidual D)
  pub trace : List (TemporalTraceStep D)

pub record Tally (D : Type 0) : Type 0 where
  pub total_residual : D
  pub portfolio_risk : D
  pub residuals : List (TemporalResidual D)
  pub trace : List (TemporalTraceStep D)

-- An asset's value on its way, with what was done to it.
pub record Resolution (D : Type 0) : Type 0 where
  pub current_val : D
  pub has_oscillation : Bool
  pub has_clamp : Bool

-- `flags |= 1` and `flags &= ~1`
abbrev pub mark : Bool → ℕ → ℕ
mark true flags = if flags % 2 == 1 then flags else flags + 1
mark false flags = flags - flags % 2

abbrev pub action_of : Bool → Bool → ℕ
action_of true true = 3
action_of true false = 2
action_of false true = 1
action_of false false = 0

module _ {D : Type 0} ⦃d : Float D⦄ where
  -- The first previous state of the asset.
  unfoldable pub previous_of : ℕ → List (TemporalState D) → Option (TemporalState D)
  previous_of asset [] = none
  previous_of asset (s ∷ states) =
      let rest = previous_of asset states in if s.asset_id == asset then some s else rest

  -- `w_i_t`, which is 0 for an asset with no history.
  unfoldable pub baseline : Option (TemporalState D) → D
  baseline none = nought
  baseline (some s) = s.prev_allocation

  abbrev tolerance : D
  tolerance = d.ratio 1 10_000

  -- The last step and the proposed one are in opposite directions.
  abbrev pub opposes : D → D → Bool
  opposes delta_t delta_t1 =
      d.lt tolerance delta_t && d.lt delta_t1 (d.neg tolerance)
      || d.lt delta_t (d.neg tolerance) && d.lt tolerance delta_t1

  unfoldable pub oscillates : Option (TemporalState D) → D → Bool
  oscillates none proposed = false
  oscillates (some s) proposed =
      opposes (d.sub s.prev_allocation s.prev_prev_allocation) (d.sub proposed s.prev_allocation)

  unfoldable pub dampen : Option (TemporalState D) → D → D
  dampen none proposed = proposed
  dampen (some s) proposed =
      if oscillates (some s) proposed
      then d.add s.prev_allocation (d.mul (d.ratio 1 2) (d.sub proposed s.prev_allocation))
      else proposed

  unfoldable pub clamp_drift : D → D → D → D × Bool
  clamp_drift threshold w x =
      if d.lt threshold (d.abs (d.sub x w))
      then (if d.lt w x then d.add w threshold else d.sub w threshold, true)
      else (x, false)

  module _ (threshold : D) (prev : List (TemporalState D)) where
    unfoldable pub resolve : TemporalState D → Resolution D
    resolve s =
        let history = previous_of s.asset_id prev in
        let (value, has_clamp) =
          clamp_drift threshold (baseline history) (dampen history s.prev_allocation) in
        record {
          current_val = value;
          has_oscillation = oscillates history s.prev_allocation;
          has_clamp = has_clamp;
        }

    abbrev pub expected : TemporalState D → D
    expected s = baseline (previous_of s.asset_id prev)

    abbrev pub resolved : TemporalState D → TemporalState D
    resolved s = record s {
      flags = mark (resolve s).has_oscillation s.flags;
      prev_allocation = (resolve s).current_val;
      prev_prev_allocation = expected s;
    }

    abbrev pub residual : TemporalState D → D
    residual s = d.abs (d.sub (resolve s).current_val (expected s))

    abbrev pub risk : TemporalState D → D
    risk s = d.mul (d.abs (resolve s).current_val) s.prev_risk_score

    abbrev pub residual_of : TemporalState D → TemporalResidual D
    residual_of s = record {
      asset_id = s.asset_id;
      expected_allocation = expected s;
      actual_allocation = (resolve s).current_val;
      residual = residual s;
    }

    abbrev pub step_of : TemporalState D → TemporalTraceStep D
    step_of s = record {
      asset_id = s.asset_id;
      action_taken = action_of (resolve s).has_oscillation (resolve s).has_clamp;
      before_value = s.prev_allocation;
      after_value = (resolve s).current_val;
      residual = residual s;
    }

    -- One turn of the loop, and the loop.
    unfoldable pub count_in : TemporalState D → Tally D → Tally D
    count_in s t = record {
      total_residual = d.add t.total_residual (residual s);
      portfolio_risk = d.add t.portfolio_risk (risk s);
      residuals = record_step max_assets (residual_of s) t.residuals;
      trace = record_step max_trace (step_of s) t.trace;
    }

    unfoldable pub enforce_from :
        Tally D → List (TemporalState D) → List (TemporalState D) × Tally D
    enforce_from t [] = ([], t)
    enforce_from t (s ∷ states) =
        let (rest, t') = enforce_from (count_in s t) states in (resolved s ∷ rest, t')

    abbrev pub is_previous : TemporalState D → Bool
    is_previous s =
        d.is_finite s.prev_allocation
        && d.is_finite s.prev_prev_allocation
        && d.is_finite s.prev_risk_score

    abbrev is_current : TemporalState D → Bool
    is_current s =
        d.is_finite s.prev_allocation
        && d.is_finite s.prev_prev_allocation
        && is_nonnegative s.prev_risk_score

    unfoldable pub is_valid : TemporalPortfolioState D → List (TemporalState D) → Bool
    is_valid prev_portfolio states =
        fits max_assets prev
        && fits max_assets states
        && is_nonnegative threshold
        && d.is_finite prev_portfolio.portfolio_risk
        && d.is_finite prev_portfolio.residual_sum
        && all_of is_previous prev
        && all_of is_current states

    abbrev pub no_tally : Tally D
    no_tally = record {
      total_residual = nought;
      portfolio_risk = nought;
      residuals = [];
      trace = [];
    }

    unfoldable pub enforce_temporal_consistency :
        TemporalPortfolioState D → List (TemporalState D) → Option (Enforced D)
    enforce_temporal_consistency prev_portfolio states =
        let (staged, t) = enforce_from no_tally states in
        if is_valid prev_portfolio states
          && d.is_finite t.portfolio_risk
          && d.is_finite t.total_residual
          && all_of (λ (s : TemporalState D). d.is_finite s.prev_allocation) staged
          && all_of (λ (r : TemporalResidual D). d.is_finite r.residual) t.residuals
        then some (record {
          states = staged;
          portfolio = record { portfolio_risk = t.portfolio_risk; residual_sum = t.total_residual };
          residuals = t.residuals;
          trace = t.trace;
        })
        else none
