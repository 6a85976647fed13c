-- ===== src/Governance/Tests.antt =====
-- Runs of the governors over fixed-point numbers, and each theorem at an input.
use ailee_finance_unified_ru.Prelude.{ℕ, ◌%◌, ◌≤◌, ◌≡◌, ◌≢◌, ◌↔◌, refl, some, List, [], ◌∷◌, length}
use ailee_finance_unified_ru.Prelude.Int.{pos, ◌+ℤ◌, ◌-ℤ◌}
use ailee_finance_unified_ru.Float.Fixed.{Fixed, fixed_float, Fixed-IsIeee, fixed_widening}
use ailee_finance_unified_ru.Governance.Meta.{
  MetaInput, MetaReason, MetaGovernanceState, is_valid, is_ready, trace_of,
  apply_meta_governance_lock,
}
use ailee_finance_unified_ru.Governance.Meta.Lock.{IsQuiet, apply_meta_governance_lock-IsQuiet}
use ailee_finance_unified_ru.Governance.Proposals.{
  Proposal, Reconciled, Trigonometry, compliance, last_of, for_asset,
}
use ailee_finance_unified_ru.Governance.Reconcile.{
  propose, limit_liquidity, limit_risk, block, climb, axis, squared_diff, residual, max_abs, damp,
  are_valid, conclude, reconcile_governors,
}
use ailee_finance_unified_ru.Governance.Reconcile.Block.{IsZero, reconcile_governors-IsZero}

-- A conflict of the governors, with everything else in order.
abbrev conflict : MetaInput Fixed
conflict = record {
  total_residual = some (pos 600);
  remaining_violations = 0;
  final_portfolio_risk = some (pos 1_000);
  max_risk_budget = some (pos 2_000);
  stress_level = 0;
  stress_trace_count = 0;
  residual_sum = some (pos 100);
}

abbrev locked_state : MetaGovernanceState Fixed
locked_state = record {
  final_portfolio_risk = some (pos 1_000);
  final_residual_sum = some (pos 700);
  final_stress_level = 0;
  execution_ready = 0;
}

conflict-run :
    apply_meta_governance_lock conflict ≡ some (locked_state, MetaReason.governor_conflict ∷ [])
unfolding apply_meta_governance_lock is_valid is_ready trace_of ◌+ℤ◌
conflict-run = refl

apply_meta_governance_lock-IsQuiet_example :
    ((locked_state.execution_ready ≡ 1) ↔ IsQuiet conflict)
    × ((MetaReason.governor_conflict ∷ [] ≡ MetaReason.verified ∷ []) ↔ IsQuiet conflict)
    × (MetaReason.governor_conflict ∷ [] ≢ [])
    × (length (MetaReason.governor_conflict ∷ []) ≤ 4)
apply_meta_governance_lock-IsQuiet_example =
    apply_meta_governance_lock-IsQuiet Fixed-IsIeee conflict conflict-run

abbrev proposal : ℕ → ℕ → ℕ → Proposal Fixed Fixed
proposal type flags value = record {
  asset_id = 1;
  governor_type = type;
  flags = flags;
  risk_score = some (pos 800_000);
  proposed_value = some (pos value);
}

abbrev blocking : Proposal Fixed Fixed
blocking = proposal 0 1 10_000

-- A strategy, a severe risk, and a block.
abbrev proposals : List (Proposal Fixed Fixed)
proposals = proposal 4 0 50_000 ∷ proposal 1 0 20_000 ∷ blocking ∷ []

-- Phase angles of a square, and a root that is exact at nought.
abbrev square : Trigonometry Fixed
square = record {
  sqrt = λ x. x;
  cos_phase = λ type. some (pos 0);
  sin_phase = λ type. some (pos 0);
}

abbrev outcome : Reconciled Fixed
outcome = conclude square 1 proposals

proposals-run : reconcile_governors square proposals 1 ≡ some outcome
unfolding reconcile_governors are_valid climb last_of for_asset propose limit_liquidity limit_risk
    block axis squared_diff residual max_abs damp ◌+ℤ◌ ◌-ℤ◌
proposals-run = refl

blocking-last : last_of 1 compliance proposals ≡ some blocking
unfolding last_of
blocking-last = refl

reconcile_governors-IsZero_example :
    IsZero outcome.final_value
    × (outcome.resolved_type ≡ compliance)
    × (outcome.flags_applied % 2 ≡ 1)
reconcile_governors-IsZero_example =
    reconcile_governors-IsZero Fixed-IsIeee square proposals 1 blocking outcome blocking-last refl
      proposals-run
