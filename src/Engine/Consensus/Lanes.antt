-- ===== src/Engine/Consensus/Lanes.antt =====
-- The lanes of a consensus: every sum and quotient over them is a number, and the position that
-- comes of it lies in the envelope.
use ailee_finance_unified_ru.Prelude.{
  ◌+◌, ◌≤◌, ◌≡◌, ◌≢◌, true, false, Option, none, some, List, [], ◌∷◌, map, arith, length,
  length-map,
}
use ailee_finance_unified_ru.Prelude.Int.{pos, ◌≤ℤ◌}
use ailee_finance_unified_ru.Float.{Float, IsIeee, ◌≼◌, IsNum, IsFinite, nought, of_nat}
use ailee_finance_unified_ru.Float.Bounds.{
  All, IsUnit, IsWithin, of_nat-IsFinite, clamp-IsWithin, sum_from-le, mean-IsUnit,
}
use ailee_finance_unified_ru.Engine.{AilleConfig, Signal, StabilizerAdvisory, Library, max_models}
use ailee_finance_unified_ru.Engine.Consensus.{
  Lane, apply_safety_layer, agreeing, sign_of, check_consensus, smooth_position, clamp_limit,
  total_weight, weighted_sum, median_of, confidence_of, has_bad_envelope,
}

-- What the C library documents of `tanh`.
pub record IsLibrary {F : Type 0} ⦃f : Float F⦄ (lib : Library F) : Type 0 where
  pub tanh_num : (x : F) → IsNum x → IsNum (lib.tanh x)

module _ {F : Type 0} ⦃f : Float F⦄ where
  -- A signal that passed the checks on numbers, and a lane that came of one.
  abbrev pub IsSound : Signal F → Type 0
  IsSound sig = IsFinite sig.value × IsUnit sig.confidence

  abbrev pub IsSoundLane : Lane F → Type 0
  IsSoundLane lane = IsFinite lane.value × IsUnit lane.confidence

  length-agreeing : (s : F) (lanes : List (Lane F)) → length (agreeing s lanes) ≤ length lanes
  unfolding agreeing
  length-agreeing s [] = omega arith
  length-agreeing s (lane ∷ lanes) = ground (arith, length-agreeing s lanes)

  module _ (laws : IsIeee F) where
    open laws use {
      num_of_finite, num_of_le, le_refl, le_trans, le_of_lt, le_of_not_lt, neg_le, mul_unit,
      mul_shrink, mul_pos_num, add_num, div_num, ratio_le, finite_between, nat_pos,
    }

    pub safety_layer-IsSound :
        (cfg : AilleConfig F) (signals : List (Signal F))
        → All IsSound signals
        → All IsSoundLane (apply_safety_layer cfg signals)
    unfolding apply_safety_layer
    safety_layer-IsSound cfg [] s = tt
    safety_layer-IsSound cfg (sig ∷ signals) ((fin, (lo, hi)), s) =
        let (damp_lo, damp_hi) =
          mul_unit sig.confidence (f.ratio 4 5) lo hi
            (ratio_le 0 1 4 5 (omega arith) (omega arith) (omega arith))
            (ratio_le 4 5 1 1 (omega arith) (omega arith) (omega arith)) in
        ground (arith, safety_layer-IsSound cfg signals s, le_trans _ _ _ damp_hi hi)

    pub length-safety_layer :
        (cfg : AilleConfig F) (signals : List (Signal F))
        → length (apply_safety_layer cfg signals) ≤ length signals
    unfolding apply_safety_layer
    length-safety_layer cfg [] = omega arith
    length-safety_layer cfg (sig ∷ signals) = ground (arith, length-safety_layer cfg signals)

    agreeing-IsSound :
        (s : F) (lanes : List (Lane F)) → All IsSoundLane lanes → All IsSoundLane (agreeing s lanes)
    unfolding agreeing
    agreeing-IsSound s [] h = tt
    agreeing-IsSound s (lane ∷ lanes) (h, hs) = ground (arith, agreeing-IsSound s lanes hs)

    weighted_sum-IsNum :
        (lanes : List (Lane F)) (acc : F)
        → All IsSoundLane lanes
        → IsNum acc
        → IsNum (weighted_sum acc lanes)
    unfolding weighted_sum
    weighted_sum-IsNum [] acc s num = num
    weighted_sum-IsNum (lane ∷ lanes) acc ((fin, (lo, hi)), s) num =
        weighted_sum-IsNum lanes _ s
          (add_num _ _ num (mul_shrink lane.value lane.confidence fin lo hi))

    confidences-IsUnit :
        (lanes : List (Lane F)) → All IsSoundLane lanes → All IsUnit (map confidence_of lanes)
    confidences-IsUnit [] s = tt
    confidences-IsUnit (lane ∷ lanes) (h, s) = (h.1, confidences-IsUnit lanes s)

    total_weight-IsFinite :
        (lanes : List (Lane F))
        → All IsSoundLane lanes
        → length lanes ≤ max_models
        → IsFinite (total_weight lanes)
    unfolding total_weight
    total_weight-IsFinite lanes s small =
        let zero_num = le_refl nought (num_of_finite _ (of_nat-IsFinite laws 0 (omega arith))) in
        let n : length (map confidence_of lanes) ≡ length lanes = length-map lanes confidence_of in
        let (lo, hi) =
          sum_from-le laws (map confidence_of lanes) nought 0 (confidences-IsUnit lanes s) zero_num
            zero_num (omega arith) in
        finite_between _ _ _ (of_nat-IsFinite laws 0 (omega arith))
          (of_nat-IsFinite laws (0 + length (map confidence_of lanes)) (omega arith)) lo hi

    mean-IsNum :
        (lanes : List (Lane F))
        → All IsSoundLane lanes
        → length lanes ≤ max_models
        → f.lt nought (total_weight lanes) ≡ true
        → IsNum (f.div (weighted_sum nought lanes) (total_weight lanes))
    mean-IsNum lanes s small heavy =
        div_num _ _
          (weighted_sum-IsNum lanes nought s
            (num_of_finite _ (of_nat-IsFinite laws 0 (omega arith))))
          (total_weight-IsFinite lanes s small) heavy

    -- The mean confidence of a decision lies in [0, 1].
    pub mean_confidence-IsUnit :
        (lanes : List (Lane F))
        → All IsSoundLane lanes
        → length lanes ≤ max_models
        → length lanes ≢ 0
        → IsUnit (f.div (total_weight lanes) (of_nat (length lanes)))
    unfolding total_weight
    mean_confidence-IsUnit lanes s small some_lane =
        mean-IsUnit laws (map confidence_of lanes) (length lanes) (length-map lanes confidence_of)
          some_lane (omega arith) (confidences-IsUnit lanes s)

    -- The consensus value is a number: never NaN, whatever the median is.
    pub check_consensus-IsNum :
        (lib : Library F) (cfg : AilleConfig F) (valid : List (Lane F)) {v : F}
        → All IsSoundLane valid
        → length valid ≤ max_models
        → (check_consensus lib cfg valid).0 ≡ some v
        → IsNum v
    unfolding check_consensus
    check_consensus-IsNum lib cfg valid s small h =
        let group = agreeing (sign_of (median_of lib valid)) valid in
        let sound = agreeing-IsSound (sign_of (median_of lib valid)) valid s in
        let fewer = length-agreeing (sign_of (median_of lib valid)) valid in
        ground (arith, mean-IsNum group sound (omega arith))

    clamp_limit_bounds :
        (cfg : AilleConfig F) (stabilizer : Option (StabilizerAdvisory F))
        → nought ≼ cfg.max_position_abs
        → has_bad_envelope stabilizer ≡ false
        → (nought ≼ clamp_limit cfg stabilizer)
          × (clamp_limit cfg stabilizer ≼ cfg.max_position_abs)
    clamp_limit_bounds cfg none pos_m ok = (pos_m, le_refl _ (num_of_le _ _ pos_m).1)
    clamp_limit_bounds cfg (some a) pos_m ok = ground (
      arith,
      num_of_le nought cfg.max_position_abs pos_m,
      num_of_finite a.dynamic_clamp_limit,
      num_of_finite nought (of_nat-IsFinite laws 0 (omega arith)),
      le_of_not_lt a.dynamic_clamp_limit nought,
      le_of_not_lt a.dynamic_clamp_limit cfg.max_position_abs,
      le_of_lt a.dynamic_clamp_limit cfg.max_position_abs,
      le_refl cfg.max_position_abs,
    )

    -- A position never leaves the narrower of the configured and the stabilizer's envelope.
    pub smooth_position-IsWithin :
        (lib : Library F) (cfg : AilleConfig F) (stabilizer : Option (StabilizerAdvisory F)) (v : F)
        → IsLibrary lib
        → nought ≼ cfg.max_position_abs
        → has_bad_envelope stabilizer ≡ false
        → IsNum v
        → IsWithin (clamp_limit cfg stabilizer) (smooth_position lib cfg stabilizer v)
          × IsWithin cfg.max_position_abs (smooth_position lib cfg stabilizer v)
    unfolding smooth_position
    smooth_position-IsWithin lib cfg stabilizer v ok pos_m sane num =
        let (lo, hi) = clamp_limit_bounds cfg stabilizer pos_m sane in
        let scaled =
          mul_pos_num v (of_nat 100) num (of_nat-IsFinite laws 100 (omega arith)) (nat_pos 99) in
        let (low, high) =
          clamp-IsWithin laws (lib.tanh (f.mul v (of_nat 100))) (clamp_limit cfg stabilizer)
            (ok.tanh_num _ scaled) lo in
        ((low, high), (le_trans _ _ _ (neg_le _ _ hi) low, le_trans _ _ _ high hi))

  -- A consensus has the required number of models behind it, and no more than there were.
  pub check_consensus-quorum :
      (lib : Library F) (cfg : AilleConfig F) (valid : List (Lane F)) {v : F}
      → (check_consensus lib cfg valid).0 ≡ some v
      → (cfg.min_models_required ≤ℤ pos (check_consensus lib cfg valid).1)
        × ((check_consensus lib cfg valid).1 ≤ length valid)
  unfolding check_consensus
  check_consensus-quorum lib cfg valid h =
      let fewer = length-agreeing (sign_of (median_of lib valid)) valid in ground arith
