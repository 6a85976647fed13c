-- ===== src/Runtime/Sync/Clock.antt =====
-- What `SyncAdapter` promises of its clock: it moves forward only, what it does not trust it says,
-- and a clock that is refused locks the supervisor.
use ailee_finance_unified_ru.Prelude.{
  ℕ, ◌+◌, ◌≤◌, ◌<◌, ◌≡◌, ◌≢◌, ◌⊎◌, ◌↔◌, Bool, true, false, some, arith, inl, inr,
}
use ailee_finance_unified_ru.Float.{Float, IsIeee, IsNum, nought, one, clamp}
use ailee_finance_unified_ru.Float.Bounds.{IsUnit, clamp_bounds}
use ailee_finance_unified_ru.Runtime.{
  SyncTick, UnifiedState, UnifiedMetrics, UnifiedConfig, Evidence, SyncAdapter, SyncState,
}
use ailee_finance_unified_ru.Runtime.Unified.{evaluate_unified_runtime}
use ailee_finance_unified_ru.Runtime.Unified.Closed.{evaluate_unified_runtime-IsCleared}
use ailee_finance_unified_ru.Runtime.Unified.Bounds.{
  nought-IsUnit, one-IsUnit, mul-IsUnit, ratio-IsUnit,
}
use ailee_finance_unified_ru.Runtime.Sync.{
  max_word, has_gap, drifts, weighed, is_rejected, reject, tick_of, accept, ingest_protocol_clock,
}
use ailee_finance_unified_ru.Runtime.Standalone.{is_stuck, advance, advance_tick}

module _ {F : Type 0} ⦃f : Float F⦄ where
  -- A tick that says that it is not to be trusted.
  abbrev pub IsAlarm : SyncTick F → Type 0
  IsAlarm t =
      (t.confidence ≡ nought)
      × (t.degraded ≡ 1)
      × (t.escalate_stress ≡ 1)
      × (t.escalate_meta_lock ≡ 1)

  abbrev pub IsBefore : SyncState F → SyncState F → Type 0
  IsBefore s s' =
      (s.current_tick_index < s'.current_tick_index) × (s.last_timestamp_ns < s'.last_timestamp_ns)

  abbrev pub IsSameTime : SyncState F → SyncState F → Type 0
  IsSameTime s s' =
      (s'.current_tick_index ≡ s.current_tick_index) × (s'.last_timestamp_ns ≡ s.last_timestamp_ns)

  -- Once a tick has been processed, the protocol's clock is either refused, with index and
  -- time unchanged and a tick that raises every alarm at confidence zero, or taken, and then
  -- index and time both grow, to the values given.
  pub ingest_protocol_clock-IsBefore :
      (a : SyncAdapter F) (tick_index timestamp_ns : ℕ) (wave_phase confidence : F)
      → a.metrics.total_ticks_processed ≢ 0
      → let a' = ingest_protocol_clock a tick_index timestamp_ns wave_phase confidence in
        (IsSameTime a.state a'.state × IsAlarm a'.current_tick)
        ⊎ (IsBefore a.state a'.state
            × (a'.state.current_tick_index ≡ tick_index)
            × (a'.state.last_timestamp_ns ≡ timestamp_ns))
  unfolding ingest_protocol_clock is_rejected reject accept tick_of
  ingest_protocol_clock-IsBefore a tick_index timestamp_ns wave_phase confidence some_tick =
      ground arith

  -- Once a time is known, the standalone clock is either stuck, with index and time unchanged
  -- and a tick that raises every alarm, or it moves on by one index and exactly one cadence,
  -- and the time does not wrap.
  pub advance_tick-IsBefore :
      (a : SyncAdapter F) (now : ℕ)
      → a.state.last_timestamp_ns ≢ 0
      → let a' = advance_tick a now in
        (IsSameTime a.state a'.state × IsAlarm a'.current_tick)
        ⊎ (IsBefore a.state a'.state
            × (a'.state.current_tick_index ≡ a.state.current_tick_index + 1)
            × (a'.state.last_timestamp_ns ≡ a.state.last_timestamp_ns + a.config.target_cadence_ns)
            × (a'.state.last_timestamp_ns ≤ max_word))
  unfolding advance_tick is_stuck advance
  advance_tick-IsBefore a now some_time = ground arith

  -- A tick that is taken is degraded exactly when indices were skipped, the drift passes its
  -- threshold or the weighed confidence is below its floor.
  pub ingest_protocol_clock-degraded :
      (a : SyncAdapter F) (tick_index timestamp_ns : ℕ) (wave_phase confidence : F)
      → is_rejected a tick_index timestamp_ns wave_phase confidence ≡ false
      → let t =
          (ingest_protocol_clock a tick_index timestamp_ns wave_phase confidence).current_tick in
        (t.degraded ≡ 1) ↔ (
          (has_gap a tick_index ≡ true)
          ⊎ (drifts a timestamp_ns ≡ true)
          ⊎ (f.lt t.confidence a.config.min_confidence_threshold ≡ true))
  unfolding ingest_protocol_clock accept tick_of
  ingest_protocol_clock-degraded a tick_index timestamp_ns wave_phase confidence ok =
      rw (ok, ingest_protocol_clock) (ground arith)

  module _ (laws : IsIeee F) where
    -- When the sync adapter refuses the protocol's clock, a cycle that is given the adapter's
    -- tick denies execution, whatever else it is given.
    pub rejected_clock-locks :
        (a : SyncAdapter F) (tick_index timestamp_ns : ℕ) (wave_phase confidence : F)
        (cfg : UnifiedConfig F) (ev : Evidence F) (now : ℕ) (s : UnifiedState F)
        (m : UnifiedMetrics F)
        → is_rejected a tick_index timestamp_ns wave_phase confidence ≡ true
        → ev.sync_tick
          ≡ some
              (ingest_protocol_clock a tick_index timestamp_ns wave_phase confidence).current_tick
        → (evaluate_unified_runtime cfg ev now s m).advisory.execution_permitted ≡ 0
    unfolding ingest_protocol_clock reject
    rejected_clock-locks a tick_index timestamp_ns wave_phase confidence cfg ev now s m bad given =
        elim (evaluate_unified_runtime-IsCleared laws cfg ev now s m) [
          | inl shut ↦ shut
          | inr cleared ↦ let unlocked = cleared.synchronized in ground (arith, unlocked)
        ]

    weighed-IsUnit : (gap late : Bool) (c : F) → IsNum c → IsUnit (weighed gap late c)
    weighed-IsUnit gap late c num =
        let start = clamp_bounds laws c nought one num (one-IsUnit laws).0 in
        let once =
          mul-IsUnit laws (clamp c nought one) (f.ratio 4 5) start
            (ratio-IsUnit laws 4 5 (omega arith) (omega arith)) in
        let late_unit = ratio-IsUnit laws 17 20 (omega arith) (omega arith) in
        ground (
          arith,
          mul-IsUnit laws (clamp c nought one) (f.ratio 17 20) start late_unit,
          mul-IsUnit laws (f.mul (clamp c nought one) (f.ratio 4 5)) (f.ratio 17 20) once late_unit,
        )

    -- After every call of `ingest_protocol_clock` the tick's confidence lies in [0, 1] and is
    -- the one that the state reports.
    pub ingest_protocol_clock-IsUnit :
        (a : SyncAdapter F) (tick_index timestamp_ns : ℕ) (wave_phase confidence : F)
        → let a' = ingest_protocol_clock a tick_index timestamp_ns wave_phase confidence in
          IsUnit a'.current_tick.confidence
          × (a'.state.clock_confidence ≡ a'.current_tick.confidence)
    unfolding ingest_protocol_clock reject accept tick_of is_rejected
    ingest_protocol_clock-IsUnit a tick_index timestamp_ns wave_phase confidence = ground (
      arith,
      nought-IsUnit laws,
      laws.num_of_finite confidence,
      weighed-IsUnit (has_gap a tick_index) (drifts a timestamp_ns) confidence,
    )
