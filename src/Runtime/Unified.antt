-- ===== src/Runtime/Unified.antt =====
-- `evaluate_unified_runtime` of extensions/aille_unified_runtime.cpp, stage by stage. `now` is the
-- clock's reading.
pub mod Closed
pub mod Bounds
pub mod Order
use ailee_finance_unified_ru.Prelude.{
  ℕ, ◌+◌, ◌-◌, ◌%◌, ◌^◌, max, Bool, true, false, not, ◌&&◌, ◌||◌, Option, none, some, if◌then◌else◌,
  ltb, leb, ◌==◌,
}
use ailee_finance_unified_ru.Float.{Float, nought, one, of_nat, clamp, max_of, min_of}
use ailee_finance_unified_ru.Engine.Decide.{is_locked}
use ailee_finance_unified_ru.Runtime.Intake.{
  max_sequence, invalid_evidence, sequence_violation, stamp,
}
use ailee_finance_unified_ru.Runtime.{
  is_set, SystemStatus, ResiliencyMode, UnifiedState, UnifiedMetrics, UnifiedAdvisory,
  UnifiedConfig, StreamAdvisory, AnomalyAdvisory, MarketAdvisory, SyncTick, Evidence, Cycle,
}

-- `metrics.total_fault_escalations++`
abbrev escalated : ℕ → ℕ
escalated n = (n + 1) % 2 ^ 32

abbrev pub wnfs_fault : Option StreamAdvisory → Bool
wnfs_fault none = false
wnfs_fault (some w) = is_set w.trigger_stress_escalation || is_set w.hft_freeze_required

abbrev is_level : ℕ → Option ℕ → Bool
is_level k none = false
is_level k (some n) = n == k

abbrev is_meta_locked : SystemStatus → Bool
is_meta_locked SystemStatus.meta_locked = true
is_meta_locked _ = false

abbrev is_nominal : SystemStatus → Bool
is_nominal SystemStatus.nominal = true
is_nominal _ = false

module _ {F : Type 0} ⦃f : Float F⦄ where
  abbrev pub fresh_advisory : UnifiedAdvisory F
  fresh_advisory = record {
    system_confidence = one;
    recommended_execution_scale = one;
    resilience_factor = one;
    system_status = SystemStatus.nominal;
    execution_permitted = 1;
    hft_freeze_active = 0;
  }

  -- The cycle that is refused outright.
  unfoldable pub locked_cycle : UnifiedState F → UnifiedMetrics F → Cycle F
  locked_cycle s m = record {
    state = record s {
      system_status = SystemStatus.meta_locked;
      resiliency_mode = ResiliencyMode.fail_closed;
      execution_ready = 0;
      fault_escalated = 1;
      aggregate_risk_score = one;
      systemic_stability_index = nought;
    };
    metrics = record m {
      meta_lock_active = 1;
      max_observed_risk = one;
      min_observed_stability = nought;
      total_fault_escalations = escalated m.total_fault_escalations;
      total_cycles_processed =
          if m.total_cycles_processed == max_sequence
          then m.total_cycles_processed
          else m.total_cycles_processed + 1;
    };
    advisory = record {
      system_confidence = nought;
      recommended_execution_scale = nought;
      resilience_factor = nought;
      system_status = SystemStatus.meta_locked;
      execution_permitted = 0;
      hft_freeze_active = 1;
    };
  }

  abbrev frozen : UnifiedAdvisory F → UnifiedAdvisory F
  frozen a = record a { hft_freeze_active = 1 }

  abbrev scaled : F → UnifiedAdvisory F → UnifiedAdvisory F
  scaled k a = record a {
    system_confidence = f.mul a.system_confidence k;
    recommended_execution_scale = f.mul a.recommended_execution_scale k;
  }

  unfoldable pub weigh_stream : Option StreamAdvisory → Cycle F → Cycle F
  weigh_stream none c = c
  weigh_stream (some w) c =
      let c' =
        if is_set w.stream_degraded
        then record c {
          state = record c.state { system_status = SystemStatus.degraded };
          metrics = record c.metrics { stream_degraded = 1 };
          advisory = scaled (f.ratio 1 2) (frozen c.advisory);
        }
        else c in
      if wnfs_fault (some w) then record c' { advisory = frozen c'.advisory } else c'

  abbrev pub anomaly_fault : Option (AnomalyAdvisory F) → Bool
  anomaly_fault none = false
  anomaly_fault (some a) = is_set a.advisory_active && f.lt (of_nat 80) a.anomaly_severity

  abbrev pub anomaly_penalty : AnomalyAdvisory F → F
  anomaly_penalty a = clamp (f.div a.anomaly_severity (of_nat 100)) nought (f.ratio 4 5)

  unfoldable pub weigh_anomaly : Option (AnomalyAdvisory F) → Cycle F → Cycle F
  weigh_anomaly none c = c
  weigh_anomaly (some a) c =
      if is_set a.advisory_active
      then record c {
        state = record c.state { system_status = SystemStatus.degraded };
        advisory = scaled (f.sub one (anomaly_penalty a)) c.advisory;
      }
      else c

  unfoldable pub weigh_market : Option (MarketAdvisory F) → Cycle F → Cycle F
  weigh_market none c = c
  weigh_market (some m) c =
      if is_set m.risk_elevated || is_set m.governor_active
      then record c {
        advisory = record c.advisory {
          recommended_execution_scale =
              clamp (f.mul c.advisory.recommended_execution_scale m.stabilization_factor) nought
                m.dynamic_clamp_limit;
        };
      }
      else c

  abbrev tick_flag : (SyncTick F → ℕ) → Option (SyncTick F) → Bool
  tick_flag flag none = false
  tick_flag flag (some t) = is_set (flag t)

  unfoldable pub is_crisis : UnifiedConfig F → Evidence F → Bool
  is_crisis cfg ev =
      (is_set cfg.auto_escalate_faults
        && (wnfs_fault ev.wnfs_adv
            || anomaly_fault ev.anomaly_adv
            || tick_flag (λ t. t.escalate_stress) ev.sync_tick))
      || is_level 2 ev.stress_level

  unfoldable pub override_stress : UnifiedConfig F → Evidence F → Cycle F → Cycle F
  override_stress cfg ev c =
      if is_crisis cfg ev
      then record c {
        state = record c.state {
          system_status = SystemStatus.stress_override;
          resiliency_mode = ResiliencyMode.fail_closed;
          fault_escalated = 1;
        };
        metrics = record c.metrics {
          stress_override_active = 1;
          total_fault_escalations = escalated c.metrics.total_fault_escalations;
        };
        advisory = record c.advisory {
          recommended_execution_scale = nought;
          system_confidence = nought;
          hft_freeze_active = 1;
        };
      }
      else if is_level 1 ev.stress_level
      then record c {
        state = record c.state {
          system_status = SystemStatus.stress_override;
          resiliency_mode = ResiliencyMode.high_stress;
        };
        metrics = record c.metrics { stress_override_active = 1 };
        advisory = record c.advisory {
          recommended_execution_scale = f.mul c.advisory.recommended_execution_scale (f.ratio 3 10);
          hft_freeze_active = 1;
        };
      }
      else c

  abbrev meta_lock : Cycle F → Cycle F
  meta_lock c = record {
    state = record c.state { system_status = SystemStatus.meta_locked; execution_ready = 0 };
    metrics = record c.metrics { meta_lock_active = 1 };
    advisory = record c.advisory {
      execution_permitted = 0;
      recommended_execution_scale = nought;
      system_confidence = nought;
      hft_freeze_active = 1;
    };
  }

  abbrev defer_to_meta : UnifiedConfig F → Option ℕ → Cycle F → Cycle F
  defer_to_meta cfg none c = c
  defer_to_meta cfg (some ready) c =
      if not (is_set ready) && is_set cfg.enforce_strict_lock then meta_lock c else record c {
        state = record c.state { execution_ready = ready };
        metrics = record c.metrics { meta_lock_active = 0 };
      }

  unfoldable pub apply_meta : UnifiedConfig F → Evidence F → Cycle F → Cycle F
  apply_meta cfg ev c =
      if tick_flag (λ t. t.escalate_meta_lock) ev.sync_tick
      then meta_lock c
      else defer_to_meta cfg ev.meta_ready c

  -- The scores, the permission and the counters.
  unfoldable pub conclude : UnifiedConfig F → Cycle F → Cycle F
  conclude cfg c =
      let risk = f.sub one (clamp c.advisory.system_confidence nought one) in
      let stability = clamp c.advisory.recommended_execution_scale nought one in
      let scale =
        if f.lt cfg.max_allowed_risk risk
        then f.mul c.advisory.recommended_execution_scale (f.ratio 1 2)
        else c.advisory.recommended_execution_scale in
      record {
        state = record c.state {
          aggregate_risk_score = risk;
          systemic_stability_index = stability;
        };
        metrics = record c.metrics {
          total_cycles_processed = (c.metrics.total_cycles_processed + 1) % 2 ^ 64;
          max_observed_risk = max_of c.metrics.max_observed_risk risk;
          min_observed_stability = min_of c.metrics.min_observed_stability stability;
        };
        advisory = record c.advisory {
          recommended_execution_scale = scale;
          system_status = c.state.system_status;
          execution_permitted =
              if is_set c.state.execution_ready
                && not (is_meta_locked c.state.system_status)
                && f.lt nought scale
              then 1
              else 0;
          resilience_factor = if is_nominal c.state.system_status then one else f.ratio 1 2;
        };
      }

  -- The stages of a cycle that is not refused.
  unfoldable pub weigh : UnifiedConfig F → Evidence F → Cycle F → Cycle F
  weigh cfg ev c = apply_meta cfg ev (
      override_stress cfg ev
        (weigh_market ev.msgam_adv (weigh_anomaly ev.anomaly_adv (weigh_stream ev.wnfs_adv c))))

  unfoldable pub is_refused :
      UnifiedConfig F → Evidence F → UnifiedState F → UnifiedMetrics F → Bool
  is_refused cfg ev s m =
      is_locked ev.safety || sequence_violation s m ev.sync_tick || invalid_evidence cfg ev

  unfoldable pub evaluate_unified_runtime :
      UnifiedConfig F → Evidence F → ℕ → UnifiedState F → UnifiedMetrics F → Cycle F
  evaluate_unified_runtime cfg ev now s m =
      let s' = stamp s m ev.sync_tick now in
      if is_refused cfg ev s m
      then locked_cycle s' m
      else conclude cfg
          (weigh cfg ev (record { state = s'; metrics = m; advisory = fresh_advisory }))
