-- ===== src/Runtime/Standalone.antt =====
-- `SyncAdapter::advance_tick` of extensions/aille_sync_adapter.cpp: the clock without a protocol.
use ailee_finance_unified_ru.Prelude.{ℕ, ◌+◌, ◌-◌, Bool, not, ◌||◌, if◌then◌else◌, ltb, ◌==◌}
use ailee_finance_unified_ru.Prelude.Int.{pos}
use ailee_finance_unified_ru.Float.{Float, nought, one}
use ailee_finance_unified_ru.Runtime.{SyncTick, SyncAdapter}
use ailee_finance_unified_ru.Runtime.Sync.{max_word, next_word, outside, two_pi, fresh_tick}

module _ {F : Type 0} ⦃f : Float F⦄ where
  unfoldable pub is_stuck : SyncAdapter F → Bool
  is_stuck a =
      a.config.target_cadence_ns == 0
      || a.state.current_tick_index == max_word
      || ltb (max_word - a.config.target_cadence_ns) a.state.last_timestamp_ns
      || not (f.is_finite a.state.current_wave_phase)
      || outside one a.config.min_confidence_threshold

  abbrev stuck_tick : SyncTick F
  stuck_tick = record fresh_tick {
    confidence = nought;
    degraded = 1;
    escalate_stress = 1;
    escalate_meta_lock = 1;
  }

  abbrev next_phase : F → F
  next_phase phase =
      let next = f.add phase (f.ratio 1 10) in if f.le two_pi next then f.sub next two_pi else next

  abbrev fallback_tick : SyncAdapter F → ℕ → SyncTick F
  fallback_tick a now = record fresh_tick {
    tick_index = a.state.current_tick_index + 1;
    timestamp_ns =
        if ltb 0 a.state.last_timestamp_ns
        then a.state.last_timestamp_ns + a.config.target_cadence_ns
        else now;
    tick_cadence_ns = a.config.target_cadence_ns;
    wave_phase = next_phase a.state.current_wave_phase;
    alignment_flags = 5;
  }

  unfoldable pub advance : SyncAdapter F → SyncTick F → SyncAdapter F
  advance a tick = record a {
    state = record a.state {
      current_tick_index = tick.tick_index;
      last_timestamp_ns = tick.timestamp_ns;
      current_wave_phase = tick.wave_phase;
      clock_confidence = one;
      external_clock_active = 0;
      sync_degraded = 0;
    };
    metrics = record a.metrics {
      total_ticks_processed = next_word a.metrics.total_ticks_processed;
      fallback_ticks = next_word a.metrics.fallback_ticks;
      last_drift_ns = pos 0;
      current_confidence = one;
      external_clock_active = 0;
      sync_degraded = 0;
    };
    current_tick = tick;
  }

  unfoldable pub advance_tick : SyncAdapter F → ℕ → SyncAdapter F
  advance_tick a now =
      if is_stuck a then record a { current_tick = stuck_tick } else advance a (fallback_tick a now)
