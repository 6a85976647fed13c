-- ===== src/Runtime/Sync.antt =====
-- `SyncAdapter` of extensions/aille_sync_adapter.cpp: the clock of the runtime. The bits of
-- `alignment_flags` are set one at a time, so `|=` is a sum here. `now` is the clock's reading.
pub mod Clock
use ailee_finance_unified_ru.Prelude.{
  ℕ, ◌+◌, ◌-◌, ◌*◌, ◌/◌, ◌%◌, ◌^◌, Bool, true, false, not, ◌&&◌, ◌||◌, Option, none, some,
  if◌then◌else◌, ltb, leb, ◌==◌,
}
use ailee_finance_unified_ru.Prelude.Int.{ℤ, pos, pos_part, neg_part, sub_ℕ}
use ailee_finance_unified_ru.Float.{Float, nought, one, clamp}
use ailee_finance_unified_ru.Engine.Fallback.{to_size}
use ailee_finance_unified_ru.Runtime.{
  is_set, SyncTick, SyncState, SyncConfig, SyncMetrics, SyncAdapter,
}

abbrev pub max_word : ℕ
max_word = 2 ^ 64 - 1

abbrev pub max_signed : ℕ
max_signed = 2 ^ 63 - 1

-- `n++` on 64 bits, and on the 8 bits of a count of escalations.
abbrev pub next_word : ℕ → ℕ
next_word n = (n + 1) % 2 ^ 64

abbrev next_byte : ℕ → ℕ
next_byte n = (n + 1) % 2 ^ 8

abbrev flag : Bool → ℕ
flag b = if b then 1 else 0

-- The magnitude of a drift.
abbrev pub magnitude : ℤ → ℕ
magnitude z = pos_part z + neg_part z

module _ {F : Type 0} ⦃f : Float F⦄ where
  abbrev pub two_pi : F
  two_pi = f.ratio 6_283_185_307_179_586 1_000_000_000_000_000

  abbrev pub fresh_tick : SyncTick F
  fresh_tick = record {
    tick_index = 0;
    timestamp_ns = 0;
    drift_ns = pos 0;
    tick_cadence_ns = 10_000_000;
    wave_phase = nought;
    confidence = one;
    alignment_flags = 1;
    degraded = 0;
    escalate_stress = 0;
    escalate_meta_lock = 0;
  }

  -- `SyncAdapter(config)` is this on a fresh adapter, and `reset` on any.
  unfoldable pub reset : SyncConfig F → SyncAdapter F
  reset cfg = record {
    state = record {
      current_tick_index = 0;
      last_timestamp_ns = 0;
      expected_cadence_ns = cfg.target_cadence_ns;
      max_observed_drift_ns = pos 0;
      current_wave_phase = nought;
      clock_confidence = one;
      external_clock_active = 0;
      sync_degraded = 0;
    };
    config = cfg;
    metrics = record {
      total_ticks_processed = 0;
      external_sync_ticks = 0;
      fallback_ticks = 0;
      last_drift_ns = pos 0;
      current_confidence = one;
      external_clock_active = 0;
      sync_degraded = 0;
      stress_escalations = 0;
      meta_lock_escalations = 0;
    };
    current_tick = fresh_tick;
  }

  abbrev pub outside : F → F → Bool
  outside top x = not (f.is_finite x) || f.lt x nought || f.lt top x

  -- The clock's output that `ingest_protocol_clock` does not take.
  unfoldable pub is_rejected : SyncAdapter F → ℕ → ℕ → F → F → Bool
  is_rejected a tick_index timestamp_ns wave_phase confidence =
      a.config.target_cadence_ns == 0
      || ltb (max_signed / 2) a.config.target_cadence_ns
      || ltb (max_signed / 2) a.config.max_drift_threshold_ns
      || outside one a.config.min_confidence_threshold
      || outside two_pi wave_phase
      || outside one confidence
      || tick_index == 0
      || timestamp_ns == 0
      || ltb max_signed timestamp_ns
      || (is_set a.metrics.total_ticks_processed
          && (leb tick_index a.state.current_tick_index
              || leb timestamp_ns a.state.last_timestamp_ns))

  abbrev rejected_tick : SyncState F → SyncTick F
  rejected_tick s = record fresh_tick {
    tick_index = s.current_tick_index;
    timestamp_ns = s.last_timestamp_ns;
    confidence = nought;
    degraded = 1;
    escalate_stress = 1;
    escalate_meta_lock = 1;
  }

  unfoldable pub reject : SyncAdapter F → SyncAdapter F
  reject a = record a {
    state = record a.state { sync_degraded = 1; clock_confidence = nought };
    metrics = record a.metrics { sync_degraded = 1; current_confidence = nought };
    current_tick = rejected_tick a.state;
  }

  -- The drift from the cadence, with the sign of the type `int64_t`.
  abbrev pub drift_of : SyncAdapter F → ℕ → ℤ
  drift_of a timestamp_ns =
      if ltb 0 a.state.last_timestamp_ns && ltb a.state.last_timestamp_ns timestamp_ns
      then sub_ℕ (timestamp_ns - a.state.last_timestamp_ns) a.config.target_cadence_ns
      else pos 0

  abbrev pub has_gap : SyncAdapter F → ℕ → Bool
  has_gap a tick_index =
      ltb 0 a.state.current_tick_index && ltb (a.state.current_tick_index + 1) tick_index

  abbrev pub drifts : SyncAdapter F → ℕ → Bool
  drifts a timestamp_ns = ltb a.config.max_drift_threshold_ns (magnitude (drift_of a timestamp_ns))

  -- The confidence after the penalties of a gap and of a drift.
  abbrev pub weighed : Bool → Bool → F → F
  weighed gap drift confidence =
      let c = clamp confidence nought one in
      let c' = if gap then f.mul c (f.ratio 4 5) else c in
      if drift then f.mul c' (f.ratio 17 20) else c'

  unfoldable pub tick_of : SyncAdapter F → ℕ → ℕ → F → F → SyncTick F
  tick_of a tick_index timestamp_ns wave_phase confidence =
      let drift = drift_of a timestamp_ns in
      let gap = has_gap a tick_index in
      let late = drifts a timestamp_ns in
      let conf = weighed gap late confidence in
      let low = f.lt conf a.config.min_confidence_threshold in
      let bad = gap || late || low in
      record {
        tick_index = tick_index;
        timestamp_ns = timestamp_ns;
        drift_ns = drift;
        tick_cadence_ns = a.config.target_cadence_ns;
        wave_phase = wave_phase;
        confidence = conf;
        alignment_flags = 3 + (if gap then 16 else 0) + (if late then 8 else 0);
        degraded = flag bad;
        escalate_stress = flag (bad && is_set a.config.auto_escalate_stress && (low || late));
        escalate_meta_lock = flag (
            bad
            && is_set a.config.auto_escalate_meta_lock
            && (f.lt conf (f.ratio 1 2)
                || ltb (a.config.max_drift_threshold_ns * 2) (magnitude drift)));
      }

  -- The state and the metrics after a tick that is taken.
  unfoldable pub accept : SyncAdapter F → SyncTick F → SyncAdapter F
  accept a tick =
      let m = a.metrics in
      record a {
        state = record a.state {
          current_tick_index = tick.tick_index;
          last_timestamp_ns = tick.timestamp_ns;
          max_observed_drift_ns =
              if ltb (to_size a.state.max_observed_drift_ns) (magnitude tick.drift_ns)
              then pos (magnitude tick.drift_ns)
              else a.state.max_observed_drift_ns;
          current_wave_phase = tick.wave_phase;
          clock_confidence = tick.confidence;
          external_clock_active = 1;
          sync_degraded = tick.degraded;
        };
        metrics = record {
          total_ticks_processed = next_word m.total_ticks_processed;
          external_sync_ticks = next_word m.external_sync_ticks;
          fallback_ticks = m.fallback_ticks;
          last_drift_ns = tick.drift_ns;
          current_confidence = tick.confidence;
          external_clock_active = 1;
          sync_degraded = tick.degraded;
          stress_escalations =
              if is_set tick.escalate_stress
              then next_byte m.stress_escalations
              else m.stress_escalations;
          meta_lock_escalations =
              if is_set tick.escalate_meta_lock
              then next_byte m.meta_lock_escalations
              else m.meta_lock_escalations;
        };
        current_tick = tick;
      }

  -- The tick that is returned is the adapter's current one.
  unfoldable pub ingest_protocol_clock : SyncAdapter F → ℕ → ℕ → F → F → SyncAdapter F
  ingest_protocol_clock a tick_index timestamp_ns wave_phase confidence =
      if is_rejected a tick_index timestamp_ns wave_phase confidence
      then reject a
      else accept a (tick_of a tick_index timestamp_ns wave_phase confidence)
