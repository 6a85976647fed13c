-- ===== src/Runtime/Tests.antt =====
-- Runs of the supervisor and of its clock over fixed-point numbers, and each theorem at an input.
use ailee_finance_unified_ru.Prelude.{ℕ, ◌≡◌, ◌⊎◌, refl, true, false, none, some, arith}
use ailee_finance_unified_ru.Prelude.Int.{pos, ◌+ℤ◌, ◌-ℤ◌}
use ailee_finance_unified_ru.Float.{one}
use ailee_finance_unified_ru.Float.Fixed.{Fixed, fixed_float, Fixed-IsIeee}
use ailee_finance_unified_ru.Runtime.{
  SystemStatus, ResiliencyMode, UnifiedState, UnifiedMetrics, UnifiedConfig, Evidence, Cycle,
  SyncTick, SyncAdapter, SyncConfig,
}
use ailee_finance_unified_ru.Runtime.Intake.{sequence_violation, invalid_evidence, stamp}
use ailee_finance_unified_ru.Runtime.Unified.{
  evaluate_unified_runtime, is_refused, locked_cycle, weigh, weigh_stream, weigh_anomaly,
  weigh_market, override_stress, is_crisis, apply_meta, conclude,
}
use ailee_finance_unified_ru.Runtime.Unified.Closed.{IsCleared, evaluate_unified_runtime-IsCleared}
use ailee_finance_unified_ru.Runtime.Unified.Bounds.{IsScored, evaluate_unified_runtime-IsScored}
use ailee_finance_unified_ru.Runtime.Sync.{
  reset, ingest_protocol_clock, is_rejected, accept, tick_of,
}
use ailee_finance_unified_ru.Runtime.Sync.Clock.{
  IsAlarm, IsBefore, IsSameTime, ingest_protocol_clock-IsBefore,
}

abbrev config : UnifiedConfig Fixed
config = record {
  max_allowed_risk = some (pos 7_500);
  min_stability_threshold = some (pos 5_000);
  enforce_strict_lock = 1;
  auto_escalate_faults = 1;
}

abbrev start : UnifiedState Fixed
start = record {
  cycle_sequence_id = 1_000;
  timestamp_ns = 5_000;
  aggregate_risk_score = some (pos 0);
  systemic_stability_index = some (pos 10_000);
  system_status = SystemStatus.nominal;
  resiliency_mode = ResiliencyMode.standard;
  execution_ready = 1;
  fault_escalated = 0;
}

abbrev metrics : UnifiedMetrics Fixed
metrics = record {
  total_cycles_processed = 10;
  max_observed_risk = some (pos 0);
  min_observed_stability = some (pos 10_000);
  total_fault_escalations = 0;
  stream_degraded = 0;
  stress_override_active = 0;
  meta_lock_active = 0;
}

abbrev tick_at : ℕ → ℕ → SyncTick Fixed
tick_at index time = record {
  tick_index = index;
  timestamp_ns = time;
  drift_ns = pos 0;
  tick_cadence_ns = 10;
  wave_phase = some (pos 0);
  confidence = some (pos 10_000);
  alignment_flags = 3;
  degraded = 0;
  escalate_stress = 0;
  escalate_meta_lock = 0;
}

abbrev evidence : SyncTick Fixed → Evidence Fixed
evidence tick = record {
  wnfs_adv = none;
  anomaly_adv = some (record { anomaly_severity = some (pos 300_000); advisory_active = 1 });
  msgam_adv = none;
  stress_level = none;
  meta_ready = some 1;
  safety = none;
  sync_tick = some tick;
}

abbrev cycle_at : ℕ → ℕ → UnifiedState Fixed → UnifiedMetrics Fixed → Cycle Fixed
cycle_at index time s m = evaluate_unified_runtime config (evidence (tick_at index time)) 0 s m

-- An orderly cycle under a mild anomaly is permitted at seven tenths of its scale. One whose tick
-- is stale is refused, but it takes the stale tick's number all the same: then a tick that lies
-- behind the last permitted one passes.
orderly-run :
    (cycle_at 1_100 6_000 start metrics).advisory.recommended_execution_scale ≡ some (pos 7_000)
unfolding evaluate_unified_runtime is_refused sequence_violation invalid_evidence stamp locked_cycle
    weigh weigh_stream weigh_anomaly weigh_market override_stress is_crisis apply_meta conclude ◌+ℤ◌
    ◌-ℤ◌
orderly-run = refl

stale-run :
    let first = cycle_at 500 3_000 start metrics in
    let second = cycle_at 501 3_001 first.state first.metrics in
    (first.advisory.execution_permitted ≡ 0) × (second.advisory.execution_permitted ≡ 1)
unfolding evaluate_unified_runtime is_refused sequence_violation invalid_evidence stamp locked_cycle
    weigh weigh_stream weigh_anomaly weigh_market override_stress is_crisis apply_meta conclude ◌+ℤ◌
    ◌-ℤ◌
stale-run = (refl, refl)

stale : sequence_violation start metrics (some (tick_at 500 3_000)) ≡ true
unfolding sequence_violation
stale = refl

evaluate_unified_runtime-IsCleared_example :
    let c = cycle_at 1_100 6_000 start metrics in
    (c.advisory.execution_permitted ≡ 0)
    ⊎ IsCleared config (evidence (tick_at 1_100 6_000)) start metrics c
evaluate_unified_runtime-IsCleared_example =
    evaluate_unified_runtime-IsCleared Fixed-IsIeee config (evidence (tick_at 1_100 6_000)) 0 start
      metrics

evaluate_unified_runtime-IsScored_example : IsScored (cycle_at 1_100 6_000 start metrics)
evaluate_unified_runtime-IsScored_example =
    evaluate_unified_runtime-IsScored Fixed-IsIeee config (evidence (tick_at 1_100 6_000)) 0 start
      metrics

abbrev sync_config : SyncConfig Fixed
sync_config = record {
  target_cadence_ns = 10;
  max_drift_threshold_ns = 5;
  min_confidence_threshold = some (pos 8_000);
  auto_escalate_stress = 1;
  auto_escalate_meta_lock = 1;
}

-- A clock after its first tick.
abbrev clock : SyncAdapter Fixed
clock = ingest_protocol_clock (reset sync_config) 7 100 (some (pos 0)) one

clock-ticked : clock.metrics.total_ticks_processed ≡ 1
unfolding ingest_protocol_clock is_rejected reset accept tick_of
clock-ticked = refl

clock-timed : clock.state.last_timestamp_ns ≡ 100
unfolding ingest_protocol_clock is_rejected reset accept tick_of
clock-timed = refl

gap-accepted : is_rejected clock 9 135 (some (pos 0)) one ≡ false
unfolding ingest_protocol_clock is_rejected reset accept tick_of
gap-accepted = refl

stale-rejected : is_rejected clock 7 120 (some (pos 0)) one ≡ true
unfolding ingest_protocol_clock is_rejected reset accept tick_of
stale-rejected = refl

ingest_protocol_clock-IsBefore_example :
    let a' = ingest_protocol_clock clock 9 135 (some (pos 0)) one in
    (IsSameTime clock.state a'.state × IsAlarm a'.current_tick)
    ⊎ (IsBefore clock.state a'.state
        × (a'.state.current_tick_index ≡ 9)
        × (a'.state.last_timestamp_ns ≡ 135))
ingest_protocol_clock-IsBefore_example =
    ingest_protocol_clock-IsBefore clock 9 135 (some (pos 0)) one (omega (arith, clock-ticked))

abbrev rejected_evidence : Evidence Fixed
rejected_evidence = evidence (ingest_protocol_clock clock 7 120 (some (pos 0)) one).current_tick
