-- ===== src/Wnfs/Stream/Tests.antt =====
-- Runs of a stream over fixed-point numbers, and each theorem at an input.
use ailee_finance_unified_ru.Prelude.{ℕ, ◌≡◌, refl, none, some, List, [], ◌∷◌, arith}
use ailee_finance_unified_ru.Prelude.Int.{pos, ◌+ℤ◌}
use ailee_finance_unified_ru.Float.Fixed.{Fixed, fixed_float}
use ailee_finance_unified_ru.Wnfs.Stream.{
  ChannelStatus, Frame, StreamState, count_frame, wave, judge, evaluate_wnfs_advisory, run_stream,
}
use ailee_finance_unified_ru.Wnfs.Stream.Gaps.{IsAccounted, run_stream-IsAccounted}

abbrev first_of : Fixed → Fixed → Fixed
first_of a b = a

abbrev frame_at : ℕ → Frame Fixed
frame_at seq = record {
  sequence_id = seq;
  bid_size = some (pos 20_000);
  ask_size = some (pos 20_000);
  last_size = some (pos 10_000);
  vwap_delta = some (pos 0);
  wave_channel_id = 3;
  frame_flags = 0;
}

-- After the frames 1 to 4.
abbrev flowing : StreamState Fixed
flowing = record {
  expected_sequence = 5;
  processed_frames = 4;
  gap_count = 0;
  wave_phase = some (pos 0);
  wave_amplitude = some (pos 0);
  clone_status_mask = 0;
  degraded_clone_count = 0;
  channel_status = ChannelStatus.healthy;
}

abbrev frames : List (Frame Fixed)
frames = frame_at 5 ∷ frame_at 8 ∷ frame_at 6 ∷ frame_at 9 ∷ []

gap-run :
    let s = run_stream first_of 5 none frames flowing in
    (s.expected_sequence ≡ 10) × (s.processed_frames ≡ 7) × (s.gap_count ≡ 2)
unfolding run_stream evaluate_wnfs_advisory judge wave count_frame ◌+ℤ◌
gap-run = (refl, refl, refl)

flowing-IsAccounted : IsAccounted 1 flowing
flowing-IsAccounted = record {
  some_frame = omega arith;
  accounted = refl;
  expected_in = omega arith;
}

run_stream-IsAccounted_example : IsAccounted 1 (run_stream first_of 5 none frames flowing)
run_stream-IsAccounted_example =
    run_stream-IsAccounted first_of 5 1 none frames flowing
      (omega arith, (omega arith, (omega arith, (omega arith, tt)))) flowing-IsAccounted
