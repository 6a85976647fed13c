-- ===== src/Runtime/Unified/Bounds.antt =====
-- The scale and the confidence that the supervisor recommends never leave [0, 1].
use ailee_finance_unified_ru.Prelude.{
  ℕ, ◌≤◌, ◌<◌, ◌≡◌, false, Option, none, some, arith, Bool-cases, inl, inr,
}
use ailee_finance_unified_ru.Float.{Float, IsIeee, IsFinite, nought, one, of_nat}
use ailee_finance_unified_ru.Float.Bounds.{IsUnit, unit-IsFinite, of_nat-IsFinite, clamp_bounds}
use ailee_finance_unified_ru.Runtime.{
  StreamAdvisory, AnomalyAdvisory, MarketAdvisory, UnifiedState, UnifiedMetrics, UnifiedAdvisory,
  UnifiedConfig, Evidence, Cycle,
}
use ailee_finance_unified_ru.Runtime.Intake.{invalid_evidence, stamp, bad_anomaly, bad_market}
use ailee_finance_unified_ru.Runtime.Unified.{
  locked_cycle, weigh_stream, weigh_anomaly, weigh_market, anomaly_penalty, scaled, override_stress,
  apply_meta, conclude, weigh, is_refused, evaluate_unified_runtime, fresh_advisory,
}

module _ {F : Type 0} ⦃f : Float F⦄ where
  abbrev pub IsScaled : UnifiedAdvisory F → Type 0
  IsScaled a = IsUnit a.system_confidence × IsUnit a.recommended_execution_scale

  -- Both scores of the state, and both of the advisory.
  abbrev pub IsScored : Cycle F → Type 0
  IsScored c =
      IsScaled c.advisory
      × IsUnit c.state.aggregate_risk_score
      × IsUnit c.state.systemic_stability_index

  module _ (laws : IsIeee F) where
    open laws use {
      num_of_finite, le_refl, le_trans, le_of_lt, ratio_le, mul_unit, div_num, sub_unit,
    }

    pub nought-IsUnit : IsUnit (nought {F = F})
    nought-IsUnit = (
      le_refl _ (num_of_finite _ (of_nat-IsFinite laws 0 (omega arith))),
      le_of_lt _ _ laws.one_pos,
    )

    pub one-IsUnit : IsUnit (one {F = F})
    one-IsUnit = (
      le_of_lt _ _ laws.one_pos,
      le_refl _ (num_of_finite _ (of_nat-IsFinite laws 1 (omega arith))),
    )

    pub mul-IsUnit : (a b : F) → IsUnit a → IsUnit b → IsUnit (f.mul a b)
    mul-IsUnit a b (a_lo, a_hi) (b_lo, b_hi) =
        let (lo, hi) = mul_unit a b a_lo a_hi b_lo b_hi in (lo, le_trans _ _ _ hi a_hi)

    pub ratio-IsUnit : (n d : ℕ) → 0 < d → n ≤ d → IsUnit (f.ratio n d)
    ratio-IsUnit n d hd h = (
      ratio_le 0 1 n d (omega arith) hd (omega arith),
      ratio_le n d 1 1 hd (omega arith) (omega arith),
    )

    scaled-IsScaled :
        (k : F) (a : UnifiedAdvisory F) → IsUnit k → IsScaled a → IsScaled (scaled k a)
    scaled-IsScaled k a u (conf, scale) = (mul-IsUnit _ k conf u, mul-IsUnit _ k scale u)

    weigh_stream-IsScaled :
        (w : Option StreamAdvisory) (c : Cycle F)
        → IsScaled c.advisory
        → IsScaled (weigh_stream w c).advisory
    unfolding weigh_stream
    weigh_stream-IsScaled none c h = h
    weigh_stream-IsScaled (some w) c h = ground (
      arith,
      scaled-IsScaled (f.ratio 1 2) c.advisory (ratio-IsUnit 1 2 (omega arith) (omega arith)) h,
    )

    penalty-IsUnit :
        (a : AnomalyAdvisory F) → bad_anomaly (some a) ≡ false → IsUnit (anomaly_penalty a)
    penalty-IsUnit a ok =
        let finite : IsFinite a.anomaly_severity = ground arith in
        let num =
          div_num a.anomaly_severity (of_nat 100) (num_of_finite _ finite)
            (of_nat-IsFinite laws 100 (omega arith)) (laws.nat_pos 99) in
        let (top_lo, top_hi) = ratio-IsUnit 4 5 (omega arith) (omega arith) in
        let (lo, hi) = clamp_bounds laws _ nought (f.ratio 4 5) num top_lo in
        (lo, le_trans _ _ _ hi top_hi)

    weigh_anomaly-IsScaled :
        (o : Option (AnomalyAdvisory F)) (c : Cycle F)
        → bad_anomaly o ≡ false
        → IsScaled c.advisory
        → IsScaled (weigh_anomaly o c).advisory
    unfolding weigh_anomaly
    weigh_anomaly-IsScaled none c ok h = h
    weigh_anomaly-IsScaled (some a) c ok h =
        let (lo, hi) = penalty-IsUnit a ok in
        ground
          (arith, scaled-IsScaled (f.sub one (anomaly_penalty a)) c.advisory (sub_unit _ lo hi) h)

    weigh_market-IsScaled :
        (o : Option (MarketAdvisory F)) (c : Cycle F)
        → bad_market o ≡ false
        → IsScaled c.advisory
        → IsScaled (weigh_market o c).advisory
    unfolding weigh_market
    weigh_market-IsScaled none c ok h = h
    weigh_market-IsScaled (some m) c ok (conf, scale) =
        let factor : IsUnit m.stabilization_factor = ground arith in
        let limit : IsUnit m.dynamic_clamp_limit = ground arith in
        let product =
          mul-IsUnit c.advisory.recommended_execution_scale m.stabilization_factor scale factor in
        let (lo, hi) =
          clamp_bounds laws _ nought m.dynamic_clamp_limit
            (num_of_finite _ (unit-IsFinite laws _ product)) limit.0 in
        ground (arith, le_trans _ _ _ hi limit.1)

    override_stress-IsScaled :
        (cfg : UnifiedConfig F) (ev : Evidence F) (c : Cycle F)
        → IsScaled c.advisory
        → IsScaled (override_stress cfg ev c).advisory
    unfolding override_stress
    override_stress-IsScaled cfg ev c (conf, scale) = ground (
      arith,
      nought-IsUnit,
      mul-IsUnit c.advisory.recommended_execution_scale (f.ratio 3 10) scale
          (ratio-IsUnit 3 10 (omega arith) (omega arith)),
    )

    apply_meta-IsScaled :
        (cfg : UnifiedConfig F) (ev : Evidence F) (c : Cycle F)
        → IsScaled c.advisory
        → IsScaled (apply_meta cfg ev c).advisory
    unfolding apply_meta
    apply_meta-IsScaled cfg ev c h = ground (arith, nought-IsUnit)

    weigh-IsScaled :
        (cfg : UnifiedConfig F) (ev : Evidence F) (c : Cycle F)
        → invalid_evidence cfg ev ≡ false
        → IsScaled c.advisory
        → IsScaled (weigh cfg ev c).advisory
    unfolding weigh invalid_evidence
    weigh-IsScaled cfg ev c ok h = apply_meta-IsScaled cfg ev _ (
        override_stress-IsScaled cfg ev _ (
          weigh_market-IsScaled ev.msgam_adv _ (ground arith) (
            weigh_anomaly-IsScaled ev.anomaly_adv _ (ground arith)
              (weigh_stream-IsScaled ev.wnfs_adv c h))))

    conclude-IsScored :
        (cfg : UnifiedConfig F) (c : Cycle F) → IsScaled c.advisory → IsScored (conclude cfg c)
    unfolding conclude
    conclude-IsScored cfg c (conf, scale) =
        let zero_one = one-IsUnit.0 in
        let conf_num = num_of_finite _ (unit-IsFinite laws _ conf) in
        let scale_num = num_of_finite _ (unit-IsFinite laws _ scale) in
        let (lo, hi) =
          clamp_bounds laws c.advisory.system_confidence nought one conf_num zero_one in
        ground (
          arith,
          mul-IsUnit c.advisory.recommended_execution_scale (f.ratio 1 2) scale
              (ratio-IsUnit 1 2 (omega arith) (omega arith)),
          sub_unit _ lo hi,
          clamp_bounds laws c.advisory.recommended_execution_scale nought one scale_num zero_one,
        )

    -- Whatever the evidence and the state, the confidence and the scale that a cycle
    -- recommends and the risk and the stability that it stores lie in [0, 1].
    pub evaluate_unified_runtime-IsScored :
        (cfg : UnifiedConfig F) (ev : Evidence F) (now : ℕ) (s : UnifiedState F)
        (m : UnifiedMetrics F)
        → IsScored (evaluate_unified_runtime cfg ev now s m)
    unfolding evaluate_unified_runtime locked_cycle is_refused
    evaluate_unified_runtime-IsScored cfg ev now s m =
        let start : Cycle F = record {
          state = stamp s m ev.sync_tick now;
          metrics = m;
          advisory = fresh_advisory;
        } in
        elim (Bool-cases (is_refused cfg ev s m)) [
          | inl bad ↦
              rw (bad, evaluate_unified_runtime)
                ((nought-IsUnit, nought-IsUnit), one-IsUnit, nought-IsUnit)
          | inr ok ↦
              rw (ok, evaluate_unified_runtime)
                (conclude-IsScored cfg (weigh cfg ev start)
                  (weigh-IsScaled cfg ev start (ground arith) (one-IsUnit, one-IsUnit)))
        ]
