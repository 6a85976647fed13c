-- ===== src/Governance/Meta/Lock.antt =====
-- The lock and its trace say the same, and say no more than the evidence.
use ailee_finance_unified_ru.Prelude.{
  ◌≤◌, ◌≡◌, ◌≢◌, ◌⊎◌, ◌↔◌, Bool, true, false, not, ◌&&◌, some, List, [], ◌∷◌, ◌++◌, arith,
  Bool-cases, inl, inr, length,
}
use ailee_finance_unified_ru.Float.{Float, IsIeee, ◌≼◌, IsFinite}
use ailee_finance_unified_ru.Governance.Meta.{
  MetaInput, MetaReason, MetaGovernanceState, step_when, is_valid, has_conflict, has_violation,
  lacks_override, is_inconsistent, is_ready, trace_of, apply_meta_governance_lock,
}

-- The trace of four findings, whatever they are.
bits :
    (a b c e : Bool)
    → let r = not a && not b && not c && not e in
      let t =
        step_when a MetaReason.governor_conflict
        ++ step_when b MetaReason.constraint_violation
        ++ step_when c MetaReason.stress_override_missing
        ++ step_when e MetaReason.temporal_inconsistent
        ++ step_when r MetaReason.verified in
      ((t ≡ MetaReason.verified ∷ []) ↔ (r ≡ true)) × (t ≢ []) × (length t ≤ 4)
bits a b c e = ground arith

module _ {D : Type 0} ⦃d : Float D⦄ where
  -- The evidence under which execution may go ahead.
  pub record IsQuiet (i : MetaInput D) : Type 0 where
    pub agreed : i.total_residual ≼ d.ratio 1 20
    pub satisfied : i.remaining_violations ≡ 0
    pub in_budget : i.final_portfolio_risk ≼ i.max_risk_budget
    pub overridden : (i.stress_level ≡ 0) ⊎ (i.stress_trace_count ≢ 0)
    pub consistent : i.residual_sum ≼ d.ratio 1 10

  module _ (laws : IsIeee D) where
    open laws use {num_of_finite, le_of_not_lt, not_lt_of_le, ratio_finite}

    -- `a > b` is false at a bound.
    above_iff : (b x : D) → IsFinite b → IsFinite x → (d.lt b x ≡ false) ↔ (x ≼ b)
    above_iff b x fin_b fin_x = (
      λ h. le_of_not_lt b x (num_of_finite b fin_b) (num_of_finite x fin_x) h,
      λ h. not_lt_of_le x b h,
    )

    ready_iff : (i : MetaInput D) → is_valid i ≡ true → (is_ready i ≡ true) ↔ IsQuiet i
    unfolding is_ready is_valid
    ready_iff i ok =
        let twentieth = ratio_finite 1 20 (omega arith) (omega arith) in
        let tenth = ratio_finite 1 10 (omega arith) (omega arith) in
        let conflict = above_iff (d.ratio 1 20) i.total_residual twentieth (ground arith) in
        let budget =
          above_iff i.max_risk_budget i.final_portfolio_risk (ground arith) (ground arith) in
        let drift = above_iff (d.ratio 1 10) i.residual_sum tenth (ground arith) in
        (
          λ h. record {
            agreed = conflict.0 (ground arith);
            satisfied = ground arith;
            in_budget = budget.0 (ground arith);
            overridden = ground arith;
            consistent = drift.0 (ground arith);
          },
          λ q. ground (
            arith,
            conflict.1 q.agreed,
            budget.1 q.in_budget,
            drift.1 q.consistent,
            q.satisfied,
            q.overridden,
          ),
        )

  trace_lem :
      (i : MetaInput D)
      → ((trace_of i ≡ MetaReason.verified ∷ []) ↔ (is_ready i ≡ true))
        × (trace_of i ≢ [])
        × (length (trace_of i) ≤ 4)
  unfolding trace_of is_ready
  trace_lem i = bits (has_conflict i) (has_violation i) (lacks_override i) (is_inconsistent i)

  module _ (laws : IsIeee D) where
    -- When the lock is evaluated, execution is ready exactly when the governors agree, no
    -- constraint is violated, the risk is in budget, a stress override is on record where
    -- there is stress and the temporal residual is low; the trace is the single step of a
    -- verified lock exactly then, is never empty and has at most four steps.
    pub apply_meta_governance_lock-IsQuiet :
        (i : MetaInput D) {state : MetaGovernanceState D} {trace : List MetaReason}
        → apply_meta_governance_lock i ≡ some (state, trace)
        → ((state.execution_ready ≡ 1) ↔ IsQuiet i)
          × ((trace ≡ MetaReason.verified ∷ []) ↔ IsQuiet i)
          × (trace ≢ [])
          × (length trace ≤ 4)
    unfolding apply_meta_governance_lock
    apply_meta_governance_lock-IsQuiet i h = elim (Bool-cases (is_valid i)) [
      | inl ok ↦
          let (verified, some_step, few) = trace_lem i in
          let (quiet, ready) = ready_iff laws i ok in
          ground (arith, verified, some_step, few, quiet, ready)
      | inr bad ↦ ground arith
    ]
