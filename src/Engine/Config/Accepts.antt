-- ===== src/Engine/Config/Accepts.antt =====
-- `validateConfig` of aille.hpp: the configurations that it accepts.
use ailee_finance_unified_ru.Prelude.{◌≡◌, ◌↔◌, true, false, none, arith}
use ailee_finance_unified_ru.Prelude.Int.{ℤ, pos, ltb_ℤ, ◌≤ℤ◌}
use ailee_finance_unified_ru.Float.{Float, IsIeee, ◌≼◌, IsFinite, nought, one}
use ailee_finance_unified_ru.Engine.{AilleConfig, max_models}
use ailee_finance_unified_ru.Engine.Config.{
  config_fault, IsSane, outside_open_unit, negative_or_not_finite, outside_models, outside_position,
}

module _ {F : Type 0} ⦃f : Float F⦄ where
  module _ (laws : IsIeee F) where
    open laws use {
      num_of_finite, num_of_le, le_of_lt, le_of_not_lt, not_lt_of_le, lt_of_not_le, not_le_of_lt,
      finite_between, ratio_finite,
    }

    nought-IsFinite : IsFinite (nought {F = F})
    nought-IsFinite = ratio_finite 0 1 (omega arith) (omega arith)

    one-IsFinite : IsFinite (one {F = F})
    one-IsFinite = ratio_finite 1 1 (omega arith) (omega arith)

    open_unit_iff : (x : F) → (outside_open_unit x ≡ false) ↔ ((f.lt nought x ≡ true) × (x ≼ one))
    open_unit_iff x = (
      λ h. ground (
        arith,
        nought-IsFinite,
        one-IsFinite,
        num_of_finite x,
        num_of_finite nought,
        num_of_finite one,
        lt_of_not_le x nought,
        le_of_not_lt one x,
      ),
      λ (pos_x, le_x). ground (
        arith,
        nought-IsFinite,
        one-IsFinite,
        finite_between nought x one,
        le_of_lt nought x pos_x,
        not_le_of_lt nought x pos_x,
        not_lt_of_le x one le_x,
      ),
    )

    unit-IsFinite : (x : F) → f.lt nought x ≡ true → x ≼ one → IsFinite x
    unit-IsFinite x pos_x le_x =
        finite_between nought x one nought-IsFinite one-IsFinite (le_of_lt nought x pos_x) le_x

    nonneg_iff : (x : F) → (negative_or_not_finite x ≡ false) ↔ (IsFinite x × (nought ≼ x))
    nonneg_iff x = (
      λ h.
          ground
            (arith, nought-IsFinite, num_of_finite x, num_of_finite nought, le_of_not_lt x nought),
      λ (fin_x, le_x). ground (arith, not_lt_of_le nought x le_x),
    )

    -- `a > b` is false at a bound.
    not_gt_iff : (b x : F) → IsFinite b → IsFinite x → (f.lt b x ≡ false) ↔ (x ≼ b)
    not_gt_iff b x fin_b fin_x = (
      λ h. ground (arith, num_of_finite x, num_of_finite b, le_of_not_lt b x),
      λ h. not_lt_of_le x b h,
    )

    position_iff : (x : F) → (outside_position x ≡ false) ↔ ((f.lt nought x ≡ true) × (x ≼ one))
    position_iff x = (
      λ h. (open_unit_iff x).0 (ground arith),
      λ (pos_x, le_x). ground (arith, (open_unit_iff x).1 (pos_x, le_x), num_of_le x one le_x),
    )

    models_iff :
        (cfg : AilleConfig F)
        → (outside_models cfg ≡ false) ↔ (
            (pos 1 ≤ℤ cfg.min_models_required)
            × (cfg.min_models_required ≤ℤ cfg.max_model_count)
            × (cfg.min_models_required ≤ℤ pos max_models))
    models_iff cfg = ground arith

    at_least_one_iff : (z : ℤ) → (ltb_ℤ z (pos 1) ≡ false) ↔ (pos 1 ≤ℤ z)
    at_least_one_iff z = ground arith

    record AllTests (cfg : AilleConfig F) : Type 0 where
      min_confidence : outside_open_unit cfg.min_confidence_threshold ≡ false
      grace : negative_or_not_finite cfg.grace_confidence_threshold ≡ false
      grace_below : f.lt cfg.min_confidence_threshold cfg.grace_confidence_threshold ≡ false
      models : outside_models cfg ≡ false
      window : ltb_ℤ cfg.fallback_window_size (pos 1) ≡ false
      agreement : outside_open_unit cfg.sign_agreement_threshold ≡ false
      max_count : ltb_ℤ cfg.max_model_count (pos 1) ≡ false
      position : outside_position cfg.max_position_abs ≡ false
      scale : negative_or_not_finite cfg.fallback_position_scale ≡ false
      scale_below : f.lt one cfg.fallback_position_scale ≡ false
      alpha : negative_or_not_finite cfg.fallback_alpha ≡ false
      beta : negative_or_not_finite cfg.fallback_beta ≡ false
      aggressiveness : negative_or_not_finite cfg.contrarian_oversold_aggressiveness ≡ false

    config_fault-AllTests : (cfg : AilleConfig F) → config_fault cfg ≡ none → AllTests cfg
    unfolding config_fault
    config_fault-AllTests cfg h = ground arith

    AllTests-config_fault : (cfg : AilleConfig F) → AllTests cfg → config_fault cfg ≡ none
    unfolding config_fault
    AllTests-config_fault cfg t = ground arith

    AllTests-IsSane : (cfg : AilleConfig F) → AllTests cfg → IsSane cfg
    AllTests-IsSane cfg t =
        let (min_pos, min_le) = (open_unit_iff cfg.min_confidence_threshold).0 t.min_confidence in
        let min_fin = unit-IsFinite cfg.min_confidence_threshold min_pos min_le in
        let (grace_fin, grace_ge) = (nonneg_iff cfg.grace_confidence_threshold).0 t.grace in
        let (models_ge, models_max, models_le) = (models_iff cfg).0 t.models in
        let (agree_pos, agree_le) = (open_unit_iff cfg.sign_agreement_threshold).0 t.agreement in
        let (pos_pos, pos_le) = (position_iff cfg.max_position_abs).0 t.position in
        let (scale_fin, scale_ge) = (nonneg_iff cfg.fallback_position_scale).0 t.scale in
        let (alpha_fin, alpha_ge) = (nonneg_iff cfg.fallback_alpha).0 t.alpha in
        let (beta_fin, beta_ge) = (nonneg_iff cfg.fallback_beta).0 t.beta in
        let (aggr_fin, aggr_ge) =
          (nonneg_iff cfg.contrarian_oversold_aggressiveness).0 t.aggressiveness in
        record {
          min_confidence_pos = min_pos;
          min_confidence_le = min_le;
          grace_nonneg = grace_ge;
          grace_le =
              (not_gt_iff _ cfg.grace_confidence_threshold min_fin grace_fin).0 t.grace_below;
          min_models_pos = models_ge;
          min_models_reachable = models_max;
          min_models_le = models_le;
          window_pos = (at_least_one_iff cfg.fallback_window_size).0 t.window;
          agreement_pos = agree_pos;
          agreement_le = agree_le;
          max_models_pos = (at_least_one_iff cfg.max_model_count).0 t.max_count;
          position_pos = pos_pos;
          position_le = pos_le;
          scale_nonneg = scale_ge;
          scale_le =
              (not_gt_iff one cfg.fallback_position_scale one-IsFinite scale_fin).0 t.scale_below;
          alpha_finite = alpha_fin;
          alpha_nonneg = alpha_ge;
          beta_finite = beta_fin;
          beta_nonneg = beta_ge;
          aggressiveness_finite = aggr_fin;
          aggressiveness_nonneg = aggr_ge;
        }

    IsSane-AllTests : (cfg : AilleConfig F) → IsSane cfg → AllTests cfg
    IsSane-AllTests cfg s =
        let min_fin =
          unit-IsFinite cfg.min_confidence_threshold s.min_confidence_pos s.min_confidence_le in
        let grace_fin =
          finite_between nought cfg.grace_confidence_threshold cfg.min_confidence_threshold
            nought-IsFinite min_fin s.grace_nonneg s.grace_le in
        let scale_fin =
          finite_between nought cfg.fallback_position_scale one nought-IsFinite one-IsFinite
            s.scale_nonneg s.scale_le in
        record {
          min_confidence = (open_unit_iff _).1 (s.min_confidence_pos, s.min_confidence_le);
          grace = (nonneg_iff _).1 (grace_fin, s.grace_nonneg);
          grace_below = not_lt_of_le _ _ s.grace_le;
          models = (models_iff cfg).1 (s.min_models_pos, s.min_models_reachable, s.min_models_le);
          window = (at_least_one_iff _).1 s.window_pos;
          agreement = (open_unit_iff _).1 (s.agreement_pos, s.agreement_le);
          max_count = (at_least_one_iff _).1 s.max_models_pos;
          position = (position_iff _).1 (s.position_pos, s.position_le);
          scale = (nonneg_iff _).1 (scale_fin, s.scale_nonneg);
          scale_below = not_lt_of_le _ _ s.scale_le;
          alpha = (nonneg_iff _).1 (s.alpha_finite, s.alpha_nonneg);
          beta = (nonneg_iff _).1 (s.beta_finite, s.beta_nonneg);
          aggressiveness = (nonneg_iff _).1 (s.aggressiveness_finite, s.aggressiveness_nonneg);
        }

    -- `validateConfig` accepts exactly the configurations whose every number lies in its
    -- range: no NaN, no infinity and no quorum out of reach passes, and nothing in range is
    -- refused.
    pub config_fault_iff : (cfg : AilleConfig F) → (config_fault cfg ≡ none) ↔ IsSane cfg
    config_fault_iff cfg = (
      λ h. AllTests-IsSane cfg (config_fault-AllTests cfg h),
      λ s. AllTests-config_fault cfg (IsSane-AllTests cfg s),
    )
