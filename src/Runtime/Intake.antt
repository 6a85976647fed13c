-- ===== src/Runtime/Intake.antt =====
-- What `evaluate_unified_runtime` of extensions/aille_unified_runtime.cpp checks first: the evidence
-- and the order of the cycles, and the number and time that it gives the cycle.
use ailee_finance_unified_ru.Prelude.{
  ℕ, ◌+◌, ◌-◌, ◌^◌, max, Bool, false, not, ◌&&◌, ◌||◌, Option, none, some, if◌then◌else◌, ltb, leb,
  ◌==◌,
}
use ailee_finance_unified_ru.Float.{Float, nought, one, of_nat}
use ailee_finance_unified_ru.Runtime.{
  is_set, UnifiedState, UnifiedMetrics, UnifiedConfig, AnomalyAdvisory, MarketAdvisory, SyncTick,
  Evidence,
}

abbrev pub max_sequence : ℕ
max_sequence = 2 ^ 64 - 1

-- `x > 0 ? x : other` of a tick that may be missing.
abbrev given_or : {F : Type 0} → (SyncTick F → ℕ) → Option (SyncTick F) → ℕ → ℕ
given_or field none other = other
given_or field (some t) other = if is_set (field t) then field t else other

abbrev exceeds : ℕ → Option ℕ → Bool
exceeds top none = false
exceeds top (some n) = ltb top n

module _ {F : Type 0} ⦃f : Float F⦄ where
  abbrev pub is_bounded : F → F → Bool
  is_bounded value maximum = f.is_finite value && f.le nought value && f.le value maximum

  abbrev pub bad_anomaly : Option (AnomalyAdvisory F) → Bool
  bad_anomaly none = false
  bad_anomaly (some a) = not (is_bounded a.anomaly_severity (of_nat 100)) || ltb 1 a.advisory_active

  abbrev pub bad_market : Option (MarketAdvisory F) → Bool
  bad_market none = false
  bad_market (some m) =
      not (is_bounded m.dynamic_clamp_limit one) || not (is_bounded m.stabilization_factor one)

  unfoldable pub invalid_evidence : UnifiedConfig F → Evidence F → Bool
  invalid_evidence cfg ev =
      not (is_bounded cfg.max_allowed_risk one)
      || not (is_bounded cfg.min_stability_threshold one)
      || ltb 1 cfg.enforce_strict_lock
      || ltb 1 cfg.auto_escalate_faults
      || bad_anomaly ev.anomaly_adv
      || bad_market ev.msgam_adv
      || exceeds 2 ev.stress_level
      || exceeds 1 ev.meta_ready

  abbrev stale_tick : UnifiedState F → Option (SyncTick F) → Bool
  stale_tick s none = false
  stale_tick s (some t) =
      (is_set t.tick_index && leb t.tick_index s.cycle_sequence_id)
      || (is_set t.timestamp_ns && leb t.timestamp_ns s.timestamp_ns)

  unfoldable pub sequence_violation : UnifiedState F → UnifiedMetrics F → Option (SyncTick F) → Bool
  sequence_violation s m tick =
      (s.cycle_sequence_id == max_sequence || m.total_cycles_processed == max_sequence)
      || (is_set m.total_cycles_processed && ltb s.cycle_sequence_id m.total_cycles_processed)
      || (is_set m.total_cycles_processed && stale_tick s tick)

  -- The cycle's number and time, from the tick where it has them.
  unfoldable pub stamp :
      UnifiedState F → UnifiedMetrics F → Option (SyncTick F) → ℕ → UnifiedState F
  stamp s m tick now =
      let next_sequence =
        if sequence_violation s m tick
        then s.cycle_sequence_id
        else max (s.cycle_sequence_id + 1) (m.total_cycles_processed + 1) in
      record s {
        cycle_sequence_id = given_or (λ t. t.tick_index) tick next_sequence;
        timestamp_ns = given_or (λ t. t.timestamp_ns) tick now;
      }
