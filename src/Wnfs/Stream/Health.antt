-- ===== src/Wnfs/Stream/Health.antt =====
-- When a stream counts as healthy.
use ailee_finance_unified_ru.Prelude.{ℕ, ◌≡◌, ◌↔◌, false, Option, arith}
use ailee_finance_unified_ru.Float.{Float}
use ailee_finance_unified_ru.Engine.{SafetyState}
use ailee_finance_unified_ru.Engine.Decide.{is_locked}
use ailee_finance_unified_ru.Wnfs.Stream.{
  ChannelStatus, Frame, StreamState, is_flagged, has_sick_clone, is_out_of_order, skips,
  count_frame, wave, judge, evaluate_wnfs_advisory,
}

module _ {F : Type 0} ⦃f : Float F⦄ where
  -- Everything that speaks for a frame and its stream.
  pub record IsHealthy (safety : Option SafetyState) (frame : Frame F) (s : StreamState F)
      : Type 0 where
    pub unlocked : is_locked safety ≡ false
    pub clones : has_sick_clone s ≡ false
    pub in_order : is_out_of_order s frame.sequence_id ≡ false
    pub complete : skips s frame.sequence_id ≡ false
    pub unflagged : is_flagged frame.frame_flags ≡ false
    pub status : s.channel_status ≡ ChannelStatus.healthy

  -- A frame's stream is not degraded exactly when no lock is set, no clone is degraded, the
  -- frame is neither late nor after a gap, carries no flag of a fault, and the channel was
  -- healthy before.
  pub evaluate_wnfs_advisory-IsHealthy :
      (fmod : F → F → F) (gaps : ℕ) (safety : Option SafetyState) (frame : Frame F)
      (s : StreamState F)
      → ((evaluate_wnfs_advisory fmod gaps safety frame s).0.stream_degraded ≡ 0)
        ↔ IsHealthy safety frame s
  unfolding evaluate_wnfs_advisory judge wave count_frame
  evaluate_wnfs_advisory-IsHealthy fmod gaps safety frame s =
      (λ h. ground arith, λ ok. ground arith)
