-- ===== src/Runtime/Unified/Closed.antt =====
-- The supervisor fails closed: what must hold before a cycle permits execution.
use ailee_finance_unified_ru.Prelude.{
  ℕ, ◌≡◌, ◌≢◌, ◌⊎◌, refl, true, false, none, some, arith, Bool-cases, inl, inr,
}
use ailee_finance_unified_ru.Float.{Float, IsIeee, nought}
use ailee_finance_unified_ru.Float.Bounds.{of_nat-IsFinite}
use ailee_finance_unified_ru.Engine.Decide.{is_locked}
use ailee_finance_unified_ru.Runtime.{
  is_set, SystemStatus, UnifiedState, UnifiedMetrics, UnifiedConfig, Evidence, Cycle,
}
use ailee_finance_unified_ru.Runtime.Intake.{invalid_evidence, sequence_violation, stamp}
use ailee_finance_unified_ru.Runtime.Unified.{
  locked_cycle, weigh_stream, weigh_anomaly, weigh_market, is_crisis, override_stress, apply_meta,
  conclude, weigh, is_refused, evaluate_unified_runtime, fresh_advisory, tick_flag,
}

module _ {F : Type 0} ⦃f : Float F⦄ where
  -- What a permission rests on. Readiness that no meta governance confirms is the state's own.
  pub record IsCleared (cfg : UnifiedConfig F) (ev : Evidence F) (s : UnifiedState F)
      (m : UnifiedMetrics F) (c : Cycle F) : Type 0 where
    pub unlocked : is_locked ev.safety ≡ false
    pub in_order : sequence_violation s m ev.sync_tick ≡ false
    pub well_formed : invalid_evidence cfg ev ≡ false
    pub synchronized : tick_flag (λ t. t.escalate_meta_lock) ev.sync_tick ≡ false
    pub calm : is_crisis cfg ev ≡ false
    pub governed : (ev.meta_ready ≡ some 1) ⊎ ((ev.meta_ready ≡ none) × (s.execution_ready ≢ 0))
    pub unlatched : c.advisory.system_status ≢ SystemStatus.meta_locked
    pub positive : f.lt nought c.advisory.recommended_execution_scale ≡ true

  -- Readiness after the stages before the meta governance is that of the state they started from.
  ready_before :
      (cfg : UnifiedConfig F) (ev : Evidence F) (c : Cycle F)
      → (override_stress cfg ev (
          weigh_market ev.msgam_adv
            (weigh_anomaly ev.anomaly_adv (weigh_stream ev.wnfs_adv c)))).state.execution_ready
        ≡ c.state.execution_ready
  unfolding override_stress weigh_market weigh_anomaly weigh_stream
  ready_before cfg ev c = ground arith

  ready_after :
      (cfg : UnifiedConfig F) (ev : Evidence F) (c : Cycle F)
      → is_set (apply_meta cfg ev c).state.execution_ready ≡ true
      → invalid_evidence cfg ev ≡ false
      → (tick_flag (λ t. t.escalate_meta_lock) ev.sync_tick ≡ false)
        × ((ev.meta_ready ≡ some 1) ⊎ ((ev.meta_ready ≡ none) × (c.state.execution_ready ≢ 0)))
  unfolding apply_meta invalid_evidence
  ready_after cfg ev c h ok = ground arith

  crisis-scale :
      (cfg : UnifiedConfig F) (ev : Evidence F) (c : Cycle F)
      → is_crisis cfg ev ≡ true
      → (apply_meta cfg ev (override_stress cfg ev c)).advisory.recommended_execution_scale ≡ nought
  unfolding apply_meta override_stress
  crisis-scale cfg ev c h = ground arith

  module _ (laws : IsIeee F) where
    -- A positive scale was not nought before it was halved.
    conclude-positive :
        (cfg : UnifiedConfig F) (c : Cycle F)
        → c.advisory.recommended_execution_scale ≡ nought
        → f.lt nought (conclude cfg c).advisory.recommended_execution_scale ≡ false
    unfolding conclude
    conclude-positive cfg c h =
        let zero_in =
          laws.le_refl nought (laws.num_of_finite _ (of_nat-IsFinite laws 0 (omega arith))) in
        let half =
          laws.mul_unit nought (f.ratio 1 2) zero_in (laws.le_of_lt _ _ laws.one_pos)
            (laws.ratio_le 0 1 1 2 (omega arith) (omega arith) (omega arith))
            (laws.ratio_le 1 2 1 1 (omega arith) (omega arith) (omega arith)) in
        ground (
          arith,
          laws.not_lt_of_le nought nought zero_in,
          laws.not_lt_of_le (f.mul nought (f.ratio 1 2)) nought half.1,
        )

    permitted :
        (cfg : UnifiedConfig F) (c : Cycle F)
        → let d = conclude cfg c in
          (d.advisory.execution_permitted ≡ 0)
          ⊎ ((is_set c.state.execution_ready ≡ true)
              × (d.advisory.system_status ≢ SystemStatus.meta_locked)
              × (f.lt nought d.advisory.recommended_execution_scale ≡ true))
    unfolding conclude
    permitted cfg c = ground arith

    weighed-IsCleared :
        (cfg : UnifiedConfig F) (ev : Evidence F) (s : UnifiedState F) (m : UnifiedMetrics F)
        (c : Cycle F)
        → is_refused cfg ev s m ≡ false
        → c.state.execution_ready ≡ s.execution_ready
        → let d = conclude cfg (weigh cfg ev c) in
          (d.advisory.execution_permitted ≡ 0) ⊎ IsCleared cfg ev s m d
    unfolding is_refused weigh
    weighed-IsCleared cfg ev s m c ok same =
        let before =
          weigh_market ev.msgam_adv (weigh_anomaly ev.anomaly_adv (weigh_stream ev.wnfs_adv c)) in
        let c' = override_stress cfg ev before in
        elim (permitted cfg (weigh cfg ev c)) [
          | inl shut ↦ inl shut
          | inr (ready, unlatched, positive) ↦
              let well : invalid_evidence cfg ev ≡ false = ground arith in
              let (sync, governed) = ready_after cfg ev c' ready well in
              inr (record {
                unlocked = ground arith;
                in_order = ground arith;
                well_formed = well;
                synchronized = sync;
                calm = elim (Bool-cases (is_crisis cfg ev)) [
                  | inl crisis ↦ absurd (
                      ground (
                        arith,
                        positive,
                        conclude-positive cfg (weigh cfg ev c) (crisis-scale cfg ev before crisis),
                      ))
                  | inr calm ↦ calm
                ];
                governed = rw (ready_before cfg ev c, same) at governed;
                unlatched = unlatched;
                positive = positive;
              })
        ]

    -- A cycle either denies execution, or no lock was set, the sequence and all evidence were
    -- in order, the clock asked for no lock, there was no crisis, the meta governance said
    -- that it is ready (or was not asked and the state was ready before), the status is not
    -- locked and the scale is positive.
    pub evaluate_unified_runtime-IsCleared :
        (cfg : UnifiedConfig F) (ev : Evidence F) (now : ℕ) (s : UnifiedState F)
        (m : UnifiedMetrics F)
        → let c = evaluate_unified_runtime cfg ev now s m in
          (c.advisory.execution_permitted ≡ 0) ⊎ IsCleared cfg ev s m c
    unfolding evaluate_unified_runtime locked_cycle stamp
    evaluate_unified_runtime-IsCleared cfg ev now s m = elim (Bool-cases (is_refused cfg ev s m)) [
      | inl bad ↦ rw (bad, evaluate_unified_runtime) (inl refl)
      | inr ok ↦
          let start : Cycle F = record {
            state = stamp s m ev.sync_tick now;
            metrics = m;
            advisory = fresh_advisory;
          } in
          rw (ok, evaluate_unified_runtime) (weighed-IsCleared cfg ev s m start ok refl)
    ]
