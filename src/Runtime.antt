-- ===== src/Runtime.antt =====
-- The supervisor of a cycle, extensions/aille_unified_runtime.hpp, and the clock that it reads,
-- extensions/aille_sync_adapter.hpp: their data. A flag of one byte is a number.
pub mod Intake
pub mod Unified
pub mod Sync
pub mod Standalone
mod Tests
use ailee_finance_unified_ru.Prelude.{ℕ, Bool, Option, ltb}
use ailee_finance_unified_ru.Prelude.Int.{ℤ}
use ailee_finance_unified_ru.Engine.{SafetyState}

-- `if (flag)`
abbrev pub is_set : ℕ → Bool
is_set n = ltb 0 n

pub data SystemStatus : Type 0 where
  nominal degraded stress_override meta_locked : SystemStatus

pub data ResiliencyMode : Type 0 where
  standard high_stress fail_closed : ResiliencyMode

pub record UnifiedState (F : Type 0) : Type 0 where
  pub cycle_sequence_id : ℕ
  pub timestamp_ns : ℕ
  pub aggregate_risk_score : F
  pub systemic_stability_index : F
  pub system_status : SystemStatus
  pub resiliency_mode : ResiliencyMode
  pub execution_ready : ℕ
  pub fault_escalated : ℕ

pub record UnifiedMetrics (F : Type 0) : Type 0 where
  pub total_cycles_processed : ℕ
  pub max_observed_risk : F
  pub min_observed_stability : F
  pub total_fault_escalations : ℕ
  pub stream_degraded : ℕ
  pub stress_override_active : ℕ
  pub meta_lock_active : ℕ

pub record UnifiedAdvisory (F : Type 0) : Type 0 where
  pub system_confidence : F
  pub recommended_execution_scale : F
  pub resilience_factor : F
  pub system_status : SystemStatus
  pub execution_permitted : ℕ
  pub hft_freeze_active : ℕ

pub record UnifiedConfig (F : Type 0) : Type 0 where
  pub max_allowed_risk : F
  pub min_stability_threshold : F
  pub enforce_strict_lock : ℕ
  pub auto_escalate_faults : ℕ

-- What the supervisor reads of the other layers' results.
pub record StreamAdvisory : Type 0 where
  pub stream_degraded : ℕ
  pub trigger_stress_escalation : ℕ
  pub hft_freeze_required : ℕ

pub record AnomalyAdvisory (F : Type 0) : Type 0 where
  pub anomaly_severity : F
  pub advisory_active : ℕ

pub record MarketAdvisory (F : Type 0) : Type 0 where
  pub stabilization_factor : F
  pub dynamic_clamp_limit : F
  pub risk_elevated : ℕ
  pub governor_active : ℕ

pub record SyncTick (F : Type 0) : Type 0 where
  pub tick_index : ℕ
  pub timestamp_ns : ℕ
  pub drift_ns : ℤ
  pub tick_cadence_ns : ℕ
  pub wave_phase : F
  pub confidence : F
  pub alignment_flags : ℕ
  pub degraded : ℕ
  pub escalate_stress : ℕ
  pub escalate_meta_lock : ℕ

-- The pointers that a cycle is given, `none` for null: a stress level and whether the meta
-- governance is ready are the one field of their structs that is read.
pub record Evidence (F : Type 0) : Type 0 where
  pub wnfs_adv : Option StreamAdvisory
  pub anomaly_adv : Option (AnomalyAdvisory F)
  pub msgam_adv : Option (MarketAdvisory F)
  pub stress_level : Option ℕ
  pub meta_ready : Option ℕ
  pub safety : Option SafetyState
  pub sync_tick : Option (SyncTick F)

-- The three structs that a cycle works on.
pub record Cycle (F : Type 0) : Type 0 where
  pub state : UnifiedState F
  pub metrics : UnifiedMetrics F
  pub advisory : UnifiedAdvisory F

-- The structs of the sync adapter.
pub record SyncState (F : Type 0) : Type 0 where
  pub current_tick_index : ℕ
  pub last_timestamp_ns : ℕ
  pub expected_cadence_ns : ℕ
  pub max_observed_drift_ns : ℤ
  pub current_wave_phase : F
  pub clock_confidence : F
  pub external_clock_active : ℕ
  pub sync_degraded : ℕ

pub record SyncConfig (F : Type 0) : Type 0 where
  pub target_cadence_ns : ℕ
  pub max_drift_threshold_ns : ℕ
  pub min_confidence_threshold : F
  pub auto_escalate_stress : ℕ
  pub auto_escalate_meta_lock : ℕ

pub record SyncMetrics (F : Type 0) : Type 0 where
  pub total_ticks_processed : ℕ
  pub external_sync_ticks : ℕ
  pub fallback_ticks : ℕ
  pub last_drift_ns : ℤ
  pub current_confidence : F
  pub external_clock_active : ℕ
  pub sync_degraded : ℕ
  pub stress_escalations : ℕ
  pub meta_lock_escalations : ℕ

pub record SyncAdapter (F : Type 0) : Type 0 where
  pub state : SyncState F
  pub config : SyncConfig F
  pub metrics : SyncMetrics F
  pub current_tick : SyncTick F
