-- ===== src/Governance/Meta.antt =====
-- `apply_meta_governance_lock` of extensions/aille_meta_governance.cpp. `none` is the exception.
pub mod Lock
use ailee_finance_unified_ru.Prelude.{
  ℕ, Bool, true, false, not, ◌&&◌, ◌||◌, Option, none, some, List, [], ◌∷◌, ◌++◌, if◌then◌else◌,
  ltb, leb, ◌==◌,
}
use ailee_finance_unified_ru.Float.{Float, nought}

-- The fields that are read of the other layers' results.
pub record MetaInput (D : Type 0) : Type 0 where
  pub total_residual : D
  pub remaining_violations : ℕ
  pub final_portfolio_risk : D
  pub max_risk_budget : D
  pub stress_level : ℕ
  pub stress_trace_count : ℕ
  pub residual_sum : D

pub data MetaReason : Type 0 where
  governor_conflict constraint_violation stress_override_missing temporal_inconsistent : MetaReason
  verified : MetaReason

pub record MetaGovernanceState (D : Type 0) : Type 0 where
  pub final_portfolio_risk : D
  pub final_residual_sum : D
  pub final_stress_level : ℕ
  pub execution_ready : ℕ

-- `StressTraceSteps::MAX_STEPS` and `MetaGovernanceTraceSteps::MAX_STEPS`.
abbrev max_stress_steps : ℕ
max_stress_steps = 64

abbrev pub step_when : Bool → MetaReason → List MetaReason
step_when b reason = if b then reason ∷ [] else []

module _ {D : Type 0} ⦃d : Float D⦄ where
  -- `validation::nonnegative`
  abbrev pub is_nonnegative : D → Bool
  is_nonnegative x = d.is_finite x && not (d.lt x nought)

  abbrev residual_threshold : D
  residual_threshold = d.ratio 1 20

  abbrev temporal_threshold : D
  temporal_threshold = d.ratio 1 10

  unfoldable pub is_valid : MetaInput D → Bool
  is_valid i =
      is_nonnegative i.total_residual
      && is_nonnegative i.final_portfolio_risk
      && is_nonnegative i.max_risk_budget
      && is_nonnegative i.residual_sum
      && leb i.stress_trace_count max_stress_steps
      && leb i.stress_level 2
      && d.is_finite (d.add i.total_residual i.residual_sum)

  abbrev pub has_conflict : MetaInput D → Bool
  has_conflict i = d.lt residual_threshold i.total_residual

  abbrev pub has_violation : MetaInput D → Bool
  has_violation i = ltb 0 i.remaining_violations || d.lt i.max_risk_budget i.final_portfolio_risk

  abbrev pub lacks_override : MetaInput D → Bool
  lacks_override i = leb 1 i.stress_level && i.stress_trace_count == 0

  abbrev pub is_inconsistent : MetaInput D → Bool
  is_inconsistent i = d.lt temporal_threshold i.residual_sum

  unfoldable pub is_ready : MetaInput D → Bool
  is_ready i =
      not (has_conflict i)
      && not (has_violation i)
      && not (lacks_override i)
      && not (is_inconsistent i)

  -- The steps are at most five, so the capacity of the trace is never reached.
  unfoldable pub trace_of : MetaInput D → List MetaReason
  trace_of i =
      step_when (has_conflict i) MetaReason.governor_conflict
      ++ step_when (has_violation i) MetaReason.constraint_violation
      ++ step_when (lacks_override i) MetaReason.stress_override_missing
      ++ step_when (is_inconsistent i) MetaReason.temporal_inconsistent
      ++ step_when (is_ready i) MetaReason.verified

  -- The state, and the trace that replaces what the caller's held.
  unfoldable pub apply_meta_governance_lock :
      MetaInput D → Option (MetaGovernanceState D × List MetaReason)
  apply_meta_governance_lock i =
      if is_valid i
      then some (
        record {
          final_portfolio_risk = i.final_portfolio_risk;
          final_residual_sum = d.add i.total_residual i.residual_sum;
          final_stress_level = i.stress_level;
          execution_ready = if is_ready i then 1 else 0;
        },
        trace_of i,
      )
      else none
