-- ===== src/Wnfs/Stream.antt =====
-- `evaluate_wnfs_advisory` of extensions/aille_wnfs.cpp: the health of a stream, frame by frame.
-- `fmod` is `std::fmod`, of the standard library.
pub mod Health
pub mod Gaps
mod Tests
use ailee_finance_unified_ru.Prelude.{
  ℕ, suc, ◌+◌, ◌-◌, ◌/◌, ◌%◌, ◌^◌, Bool, true, false, not, ◌&&◌, ◌||◌, Option, none, some, List, [],
  ◌∷◌, if◌then◌else◌, ltb, leb, ◌==◌,
}
use ailee_finance_unified_ru.Float.{Float, nought, one, of_nat}
use ailee_finance_unified_ru.Engine.{SafetyState}
use ailee_finance_unified_ru.Engine.Decide.{is_locked}

pub data ChannelStatus : Type 0 where
  healthy degraded corrupted locked : ChannelStatus

pub record Frame (F : Type 0) : Type 0 where
  pub sequence_id : ℕ
  pub bid_size : F
  pub ask_size : F
  pub last_size : F
  pub vwap_delta : F
  pub wave_channel_id : ℕ
  pub frame_flags : ℕ

pub record StreamState (F : Type 0) : Type 0 where
  pub expected_sequence : ℕ
  pub processed_frames : ℕ
  pub gap_count : ℕ
  pub wave_phase : F
  pub wave_amplitude : F
  pub clone_status_mask : ℕ
  pub degraded_clone_count : ℕ
  pub channel_status : ChannelStatus

pub record StreamHealth (F : Type 0) : Type 0 where
  pub ingestion_confidence : F
  pub wave_energy_factor : F
  pub tick_acceleration : F
  pub stream_degraded : ℕ
  pub trigger_stress_escalation : ℕ
  pub hft_freeze_required : ℕ
  pub channel_id : ℕ

-- `flags & 2 ^ k`
abbrev pub has_bit : ℕ → ℕ → Bool
has_bit flags k = flags / 2 ^ k % 2 == 1

-- The flags of a gap, of a frame out of order and of a corrupted frame.
abbrev pub is_flagged : ℕ → Bool
is_flagged flags = has_bit flags 0 || has_bit flags 2 || has_bit flags 1

abbrev pub is_corrupted : ℕ → Bool
is_corrupted flags = has_bit flags 2

abbrev is_healthy : ChannelStatus → Bool
is_healthy ChannelStatus.healthy = true
is_healthy _ = false

abbrev word : ℕ → ℕ
word n = n % 2 ^ 64

module _ {F : Type 0} ⦃f : Float F⦄ where
  abbrev fresh : ℕ → StreamHealth F
  fresh channel = record {
    ingestion_confidence = one;
    wave_energy_factor = one;
    tick_acceleration = nought;
    stream_degraded = 0;
    trigger_stress_escalation = 0;
    hft_freeze_required = 0;
    channel_id = channel;
  }

  abbrev dead : ℕ → StreamHealth F
  dead channel = record (fresh channel) {
    ingestion_confidence = nought;
    wave_energy_factor = nought;
    stream_degraded = 1;
    trigger_stress_escalation = 1;
    hft_freeze_required = 1;
  }

  abbrev pub has_sick_clone : StreamState F → Bool
  has_sick_clone s = not (s.clone_status_mask == 0) || ltb 0 s.degraded_clone_count

  abbrev pub is_out_of_order : StreamState F → ℕ → Bool
  is_out_of_order s seq = ltb 0 s.processed_frames && ltb seq s.expected_sequence

  abbrev pub skips : StreamState F → ℕ → Bool
  skips s seq = ltb 0 s.processed_frames && ltb s.expected_sequence seq

  -- The sequence, the counts and the status after a frame.
  unfoldable pub count_frame : StreamState F → ℕ → StreamState F
  count_frame s seq =
      let status =
        if skips s seq || is_out_of_order s seq then ChannelStatus.degraded else s.channel_status in
      let gaps =
        if skips s seq then word (s.gap_count + (seq - s.expected_sequence)) else s.gap_count in
      if is_out_of_order s seq then record s { channel_status = status } else record s {
        channel_status = status;
        gap_count = gaps;
        expected_sequence = word (seq + 1);
        processed_frames = word (s.processed_frames + 1);
      }

  unfoldable pub wave : (F → F → F) → StreamState F → Frame F → StreamState F
  wave fmod s frame =
      let depth_sum = f.add frame.bid_size frame.ask_size in
      record s {
        wave_phase =
            fmod (f.mul (of_nat frame.sequence_id) (f.ratio 1 10))
              (f.ratio 6_283_185_307_179_586 1_000_000_000_000_000);
        wave_amplitude = if f.lt nought depth_sum then f.div frame.last_size depth_sum else one;
      }

  -- The advisory and the status, from the state after the frame; `late` is a frame out of order.
  unfoldable pub judge : ℕ → StreamState F → Frame F → Bool → StreamHealth F × StreamState F
  judge max_sequence_gaps s frame late =
      let base = record (fresh frame.wave_channel_id) { tick_acceleration = frame.vwap_delta } in
      if late || is_flagged frame.frame_flags || not (is_healthy s.channel_status)
      then (if leb max_sequence_gaps s.gap_count || is_corrupted frame.frame_flags
          then (
            record base {
              stream_degraded = 1;
              hft_freeze_required = 1;
              trigger_stress_escalation = 1;
              ingestion_confidence = nought;
              wave_energy_factor = nought;
            },
            record s { channel_status = ChannelStatus.corrupted },
          )
          else (
            record base {
              stream_degraded = 1;
              hft_freeze_required = 1;
              ingestion_confidence = if late then nought else f.ratio 1 2;
              wave_energy_factor = if late then nought else s.wave_amplitude;
            },
            s,
          ))
      else (record base { wave_energy_factor = s.wave_amplitude }, s)

  unfoldable pub evaluate_wnfs_advisory :
      (F → F → F)
      → ℕ
      → Option SafetyState
      → Frame F
      → StreamState F
      → StreamHealth F × StreamState F
  evaluate_wnfs_advisory fmod max_sequence_gaps safety frame s =
      if is_locked safety
      then (dead frame.wave_channel_id, record s { channel_status = ChannelStatus.locked })
      else if has_sick_clone s
      then (dead frame.wave_channel_id, record s { channel_status = ChannelStatus.degraded })
      else judge max_sequence_gaps (wave fmod (count_frame s frame.sequence_id) frame) frame
          (is_out_of_order s frame.sequence_id)

  -- The state after the frames of a stream.
  unfoldable pub run_stream :
      (F → F → F) → ℕ → Option SafetyState → List (Frame F) → StreamState F → StreamState F
  run_stream fmod max_sequence_gaps safety [] s = s
  run_stream fmod max_sequence_gaps safety (frame ∷ frames) s =
      run_stream fmod max_sequence_gaps safety frames
        (evaluate_wnfs_advisory fmod max_sequence_gaps safety frame s).1
