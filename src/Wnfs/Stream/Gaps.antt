-- ===== src/Wnfs/Stream/Gaps.antt =====
-- The counts of a stream: every sequence number is processed or counted as missing.
use ailee_finance_unified_ru.Prelude.{
  ℕ, ◌+◌, ◌^◌, ◌<◌, ◌≡◌, ◌≢◌, refl, Bool, Option, List, [], ◌∷◌, arith, Bool-cases, inl, inr,
}
use ailee_finance_unified_ru.Float.{Float}
use ailee_finance_unified_ru.Float.Bounds.{All}
use ailee_finance_unified_ru.Engine.{SafetyState}
use ailee_finance_unified_ru.Engine.Decide.{is_locked}
use ailee_finance_unified_ru.Wnfs.Stream.{
  Frame, StreamState, has_sick_clone, is_out_of_order, count_frame, wave, judge,
  evaluate_wnfs_advisory, run_stream,
}

module _ {F : Type 0} ⦃f : Float F⦄ where
  -- From the sequence number `base` on, each is processed or counted as missing.
  pub record IsAccounted (base : ℕ) (s : StreamState F) : Type 0 where
    pub some_frame : s.processed_frames ≢ 0
    pub accounted : s.expected_sequence ≡ base + s.processed_frames + s.gap_count
    pub expected_in : s.expected_sequence < 2 ^ 64

  -- A number that has a successor in 64 bits.
  abbrev pub IsCountable : Frame F → Type 0
  IsCountable frame = frame.sequence_id + 1 < 2 ^ 64

  count_frame-IsAccounted :
      (base : ℕ) (s : StreamState F) (seq : ℕ)
      → seq + 1 < 2 ^ 64
      → IsAccounted base s
      → IsAccounted base (count_frame s seq)
  unfolding count_frame
  count_frame-IsAccounted base s seq small a = ground arith

  abbrev IsSameCount : StreamState F → StreamState F → Type 0
  IsSameCount s s' =
      (s'.processed_frames ≡ s.processed_frames)
      × (s'.expected_sequence ≡ s.expected_sequence)
      × (s'.gap_count ≡ s.gap_count)

  judge-IsSameCount :
      (gaps : ℕ) (s : StreamState F) (frame : Frame F) (late : Bool)
      → IsSameCount s (judge gaps s frame late).1
  unfolding judge
  judge-IsSameCount gaps s frame late = ground arith

  same-IsAccounted :
      (base : ℕ) (s s' : StreamState F)
      → IsSameCount s s'
      → IsAccounted base s
      → IsAccounted base s'
  same-IsAccounted base s s' same a = ground arith

  evaluate-IsAccounted :
      (fmod : F → F → F) (gaps base : ℕ) (safety : Option SafetyState) (frame : Frame F)
      (s : StreamState F)
      → IsCountable frame
      → IsAccounted base s
      → IsAccounted base (evaluate_wnfs_advisory fmod gaps safety frame s).1
  unfolding evaluate_wnfs_advisory wave
  evaluate-IsAccounted fmod gaps base safety frame s small a =
      let counted = wave fmod (count_frame s frame.sequence_id) frame in
      let late = is_out_of_order s frame.sequence_id in
      let judged =
        same-IsAccounted base counted (judge gaps counted frame late).1
          (judge-IsSameCount gaps counted frame late)
          (same-IsAccounted base (count_frame s frame.sequence_id) counted (refl, refl, refl)
            (count_frame-IsAccounted base s frame.sequence_id small a)) in
      elim (Bool-cases (is_locked safety)) [
        | inl shut ↦
            rw (shut, evaluate_wnfs_advisory) (same-IsAccounted base s _ (refl, refl, refl) a)
        | inr open_ ↦ elim (Bool-cases (has_sick_clone s)) [
          | inl sick ↦
              rw (open_, sick, evaluate_wnfs_advisory)
                (same-IsAccounted base s _ (refl, refl, refl) a)
          | inr well ↦ rw (open_, well, evaluate_wnfs_advisory) judged
        ]
      ]

  -- Along any stream of frames whose numbers have a successor in 64 bits, once every sequence
  -- number since a base is processed or counted as a gap, it stays so: no missing number goes
  -- uncounted and no counter wraps.
  pub run_stream-IsAccounted :
      (fmod : F → F → F) (gaps base : ℕ) (safety : Option SafetyState) (frames : List (Frame F))
      (s : StreamState F)
      → All IsCountable frames
      → IsAccounted base s
      → IsAccounted base (run_stream fmod gaps safety frames s)
  unfolding run_stream
  run_stream-IsAccounted fmod gaps base safety [] s small a = a
  run_stream-IsAccounted fmod gaps base safety (frame ∷ frames) s (h, small) a =
      run_stream-IsAccounted fmod gaps base safety frames _ small
        (evaluate-IsAccounted fmod gaps base safety frame s h a)
