-- ===== src/Runtime/Unified/Order.antt =====
-- The supervisor's counters: a cycle that is not refused moves the sequence on, and no counter of
-- cycles wraps.
use ailee_finance_unified_ru.Prelude.{
  ℕ, ◌+◌, ◌≤◌, ◌<◌, ◌≡◌, ◌≢◌, ◌⊎◌, refl, ◌∙◌, false, Option, none, some, arith, Bool-cases, inl,
  inr,
}
use ailee_finance_unified_ru.Float.{Float}
use ailee_finance_unified_ru.Runtime.{
  StreamAdvisory, AnomalyAdvisory, MarketAdvisory, SyncTick, UnifiedState, UnifiedMetrics,
  UnifiedConfig, Evidence, Cycle,
}
use ailee_finance_unified_ru.Runtime.Intake.{max_sequence, sequence_violation, stamp}
use ailee_finance_unified_ru.Runtime.Unified.{
  locked_cycle, weigh_stream, weigh_anomaly, weigh_market, override_stress, apply_meta, conclude,
  weigh, is_refused, evaluate_unified_runtime, fresh_advisory,
}

module _ {F : Type 0} ⦃f : Float F⦄ where
  -- The numbers of the cycle, which the stages leave alone.
  abbrev IsKept : Cycle F → Cycle F → Type 0
  IsKept c c' =
      (c'.state.cycle_sequence_id ≡ c.state.cycle_sequence_id)
      × (c'.metrics.total_cycles_processed ≡ c.metrics.total_cycles_processed)

  weigh_stream-IsKept : (w : Option StreamAdvisory) (c : Cycle F) → IsKept c (weigh_stream w c)
  unfolding weigh_stream
  weigh_stream-IsKept none c = (refl, refl)
  weigh_stream-IsKept (some w) c = ground arith

  weigh_anomaly-IsKept :
      (o : Option (AnomalyAdvisory F)) (c : Cycle F) → IsKept c (weigh_anomaly o c)
  unfolding weigh_anomaly
  weigh_anomaly-IsKept o c = ground arith

  weigh_market-IsKept : (o : Option (MarketAdvisory F)) (c : Cycle F) → IsKept c (weigh_market o c)
  unfolding weigh_market
  weigh_market-IsKept o c = ground arith

  override_stress-IsKept :
      (cfg : UnifiedConfig F) (ev : Evidence F) (c : Cycle F) → IsKept c (override_stress cfg ev c)
  unfolding override_stress
  override_stress-IsKept cfg ev c = ground arith

  apply_meta-IsKept :
      (cfg : UnifiedConfig F) (ev : Evidence F) (c : Cycle F) → IsKept c (apply_meta cfg ev c)
  unfolding apply_meta
  apply_meta-IsKept cfg ev c = ground arith

  weigh-IsKept : (cfg : UnifiedConfig F) (ev : Evidence F) (c : Cycle F) → IsKept c (weigh cfg ev c)
  unfolding weigh
  weigh-IsKept cfg ev c =
      let c1 = weigh_stream ev.wnfs_adv c in
      let c2 = weigh_anomaly ev.anomaly_adv c1 in
      let c3 = weigh_market ev.msgam_adv c2 in
      let c4 = override_stress cfg ev c3 in
      let k1 = weigh_stream-IsKept ev.wnfs_adv c in
      let k2 = weigh_anomaly-IsKept ev.anomaly_adv c1 in
      let k3 = weigh_market-IsKept ev.msgam_adv c2 in
      let k4 = override_stress-IsKept cfg ev c3 in
      let k5 = apply_meta-IsKept cfg ev c4 in
      (k5.0 ∙ k4.0 ∙ k3.0 ∙ k2.0 ∙ k1.0, k5.1 ∙ k4.1 ∙ k3.1 ∙ k2.1 ∙ k1.1)

  -- The sequence that an orderly cycle is stamped with.
  stamp-later :
      (s : UnifiedState F) (m : UnifiedMetrics F) (tick : Option (SyncTick F)) (now : ℕ)
      → sequence_violation s m tick ≡ false
      → m.total_cycles_processed ≢ 0
      → s.cycle_sequence_id < (stamp s m tick now).cycle_sequence_id
  unfolding stamp sequence_violation
  stamp-later s m none now ok some_cycle = ground arith
  stamp-later s m (some t) now ok some_cycle = ground arith

  refused-orderly :
      (cfg : UnifiedConfig F) (ev : Evidence F) (s : UnifiedState F) (m : UnifiedMetrics F)
      → is_refused cfg ev s m ≡ false
      → (sequence_violation s m ev.sync_tick ≡ false) × (m.total_cycles_processed ≢ max_sequence)
  unfolding is_refused sequence_violation
  refused-orderly cfg ev s m ok = ground arith

  -- What a cycle that is not refused does to the counters.
  abbrev pub IsLater : UnifiedState F → UnifiedMetrics F → Cycle F → Type 0
  IsLater s m c =
      (s.cycle_sequence_id < c.state.cycle_sequence_id)
      × (c.metrics.total_cycles_processed ≡ m.total_cycles_processed + 1)
      × (c.metrics.total_cycles_processed ≤ max_sequence)

  -- Once a cycle has been processed, the next one either denies execution or carries a greater
  -- sequence number and counts one more cycle without a wrap of the 64-bit counter.
  pub evaluate_unified_runtime-IsLater :
      (cfg : UnifiedConfig F) (ev : Evidence F) (now : ℕ) (s : UnifiedState F)
      (m : UnifiedMetrics F)
      → m.total_cycles_processed ≢ 0
      → m.total_cycles_processed ≤ max_sequence
      → let c = evaluate_unified_runtime cfg ev now s m in
        (c.advisory.execution_permitted ≡ 0) ⊎ IsLater s m c
  unfolding evaluate_unified_runtime locked_cycle conclude
  evaluate_unified_runtime-IsLater cfg ev now s m some_cycle small =
      let start : Cycle F = record {
        state = stamp s m ev.sync_tick now;
        metrics = m;
        advisory = fresh_advisory;
      } in
      elim (Bool-cases (is_refused cfg ev s m)) [
        | inl bad ↦ rw (bad, evaluate_unified_runtime) (inl refl)
        | inr ok ↦
            let (sequence, total) = weigh-IsKept cfg ev start in
            let orderly = refused-orderly cfg ev s m ok in
            rw (ok, evaluate_unified_runtime)
              (inr (
                rw sequence (stamp-later s m ev.sync_tick now orderly.0 some_cycle),
                rw total (omega (arith, orderly)),
                rw total (omega (arith, orderly)),
              ))
      ]
