-- ===== src/Engine/Consensus.antt =====
-- The safety layer, the consensus and the position limit of aille.hpp: `applySafetyLayerFast`,
-- `checkConsensusFast` and `smoothPosition`.
pub mod Lanes
use ailee_finance_unified_ru.Prelude.{
  ℕ, suc, ◌/◌, Bool, true, false, not, ◌||◌, ◌&&◌, Option, none, some, List, [], ◌∷◌, map,
  if◌then◌else◌, ltb, leb, length,
}
use ailee_finance_unified_ru.Prelude.Int.{ℤ, pos, ltb_ℤ}
use ailee_finance_unified_ru.Float.{Float, nought, one, of_nat, eq, clamp, min_of, sum_from}
use ailee_finance_unified_ru.Engine.{AilleConfig, Engine, Signal, StabilizerAdvisory, View, Library}
use ailee_finance_unified_ru.Engine.Fallback.{to_size}

-- One lane of `SignalSoA`, whose arrays hold `AILLE_MAX_MODELS` of them.
pub record Lane (F : Type 0) : Type 0 where
  pub value : F
  pub confidence : F
  pub timestamp_ns : ℕ
  pub model_id : ℤ

module _ {F : Type 0} ⦃f : Float F⦄ where
  abbrev pub lane_of : Signal F → F → Lane F
  lane_of sig confidence = record {
    value = sig.value;
    confidence = confidence;
    timestamp_ns = sig.timestamp_ns;
    model_id = sig.model_id;
  }

  -- A signal in the grace band counts with four fifths of its confidence.
  unfoldable pub apply_safety_layer : AilleConfig F → List (Signal F) → List (Lane F)
  apply_safety_layer cfg [] = []
  apply_safety_layer cfg (sig ∷ signals) =
      let rest = apply_safety_layer cfg signals in
      if f.le cfg.min_confidence_threshold sig.confidence
      then lane_of sig sig.confidence ∷ rest
      else if f.le cfg.grace_confidence_threshold sig.confidence
      then lane_of sig (f.mul sig.confidence (f.ratio 4 5)) ∷ rest
      else rest

  abbrev pub sign_of : F → F
  sign_of v = if f.le nought v then one else f.neg one

  -- The lanes whose sign is that of the median.
  unfoldable pub agreeing : F → List (Lane F) → List (Lane F)
  agreeing median_sign [] = []
  agreeing median_sign (lane ∷ lanes) =
      let rest = agreeing median_sign lanes in
      if eq (sign_of lane.value) median_sign then lane ∷ rest else rest

  unfoldable pub weighted_sum : F → List (Lane F) → F
  weighted_sum acc [] = acc
  weighted_sum acc (lane ∷ lanes) =
      weighted_sum (f.add acc (f.mul lane.value lane.confidence)) lanes

  abbrev pub confidence_of : Lane F → F
  confidence_of lane = lane.confidence

  unfoldable pub total_weight : List (Lane F) → F
  total_weight lanes = sum_from nought (map confidence_of lanes)

  abbrev pub value_of : Lane F → F
  value_of lane = lane.value

  unfoldable pub median_of : Library F → List (Lane F) → F
  median_of lib valid = lib.nth_element (map value_of valid) (length valid / 2)

  -- The consensus value, `none` for `false`, with the number of models that agreed.
  unfoldable pub check_consensus : Library F → AilleConfig F → List (Lane F) → Option F × ℕ
  check_consensus lib cfg valid =
      if ltb (length valid) (to_size cfg.min_models_required)
      then (none, 0)
      else (let group = agreeing (sign_of (median_of lib valid)) valid in
          let agreement_count = length group in
          let agreement_ratio = f.div (of_nat agreement_count) (of_nat (length valid)) in
          let weight = total_weight group in
          if f.le cfg.sign_agreement_threshold agreement_ratio
            && leb_count cfg.min_models_required agreement_count
            && f.lt nought weight
          then (some (f.div (weighted_sum nought group) weight), agreement_count)
          else (none, agreement_count))
    where
      leb_count : ℤ → ℕ → Bool
      leb_count required n = if ltb_ℤ (pos n) required then false else true

  -- The check on the stabilizer's advisory in `makeDecision`.
  abbrev pub has_bad_envelope : Option (StabilizerAdvisory F) → Bool
  has_bad_envelope none = false
  has_bad_envelope (some a) =
      not (f.is_finite a.stabilization_risk_score)
      || not (f.is_finite a.dynamic_clamp_limit)
      || f.lt a.dynamic_clamp_limit nought
      || f.lt one a.dynamic_clamp_limit

  -- The stabilizer narrows the envelope when its risk score passes 75.
  abbrev pub clamp_limit : AilleConfig F → Option (StabilizerAdvisory F) → F
  clamp_limit cfg none = cfg.max_position_abs
  clamp_limit cfg (some a) =
      if f.lt (of_nat 75) a.stabilization_risk_score
      then min_of cfg.max_position_abs a.dynamic_clamp_limit
      else cfg.max_position_abs

  unfoldable pub smooth_position : Library F → AilleConfig F → Option (StabilizerAdvisory F) → F → F
  smooth_position lib cfg stabilizer signal =
      let bounded = lib.tanh (f.mul signal (of_nat 100)) in
      let limit = clamp_limit cfg stabilizer in clamp bounded (f.neg limit) limit
