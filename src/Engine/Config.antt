-- ===== src/Engine/Config.antt =====
-- `AILLEEngine::validateConfig` of aille.hpp, and the ranges that it is there to enforce.
pub mod Accepts
use ailee_finance_unified_ru.Prelude.{
  ℕ, ◌≡◌, ◌↔◌, refl, Bool, true, false, not, ◌&&◌, ◌||◌, Option, none, some, List, [], arith,
  if◌then◌else◌, Bool-cases, inl, inr,
}
use ailee_finance_unified_ru.Prelude.Int.{ℤ, pos, ltb_ℤ, ◌≤ℤ◌}
use ailee_finance_unified_ru.Float.{Float, IsIeee, ◌≼◌, ◌≺◌, IsNum, IsFinite, nought, one, is_inf}
use ailee_finance_unified_ru.Engine.{AilleConfig, Decision, Status, Reason, max_models}

abbrev pub min_ℤ : ℤ → ℤ → ℤ
min_ℤ a b = if ltb_ℤ b a then b else a

module _ {F : Type 0} ⦃f : Float F⦄ where
  -- The tests in the code's order, each with what it says of a value in range.
  abbrev pub outside_open_unit : F → Bool
  outside_open_unit x = not (f.is_finite x) || f.le x nought || f.lt one x

  abbrev pub negative_or_not_finite : F → Bool
  negative_or_not_finite x = not (f.is_finite x) || f.lt x nought

  abbrev pub outside_models : AilleConfig F → Bool
  outside_models cfg =
      ltb_ℤ cfg.min_models_required (pos 1)
      || ltb_ℤ (min_ℤ cfg.max_model_count (pos max_models)) cfg.min_models_required

  abbrev pub outside_position : F → Bool
  outside_position x = f.le x nought || f.lt one x || f.is_nan x || is_inf x

  abbrev pub outside_coefficients : AilleConfig F → Bool
  outside_coefficients cfg =
      (negative_or_not_finite cfg.fallback_position_scale || f.lt one cfg.fallback_position_scale)
      || negative_or_not_finite cfg.fallback_alpha
      || negative_or_not_finite cfg.fallback_beta
      || negative_or_not_finite cfg.contrarian_oversold_aggressiveness

  -- `AILLEConfig()`
  unfoldable pub default_config : AilleConfig F
  default_config = record {
    min_confidence_threshold = f.ratio 1 5;
    grace_confidence_threshold = f.ratio 1 10;
    min_models_required = pos 2;
    sign_agreement_threshold = f.ratio 33 50;
    fallback_window_size = pos 50;
    fallback_position_scale = f.ratio 1 10;
    max_model_count = pos 10;
    max_signal_age_ns = 1_000_000_000;
    max_position_abs = one;
    enable_dynamic_fallback = false;
    fallback_alpha = f.ratio 1 20;
    fallback_beta = f.ratio 1 20;
    enable_contrarian_oversold = false;
    contrarian_oversold_aggressiveness = one;
    config_version = "4.1.0";
  }

  -- The first complaint, if there is one.
  unfoldable pub config_fault : AilleConfig F → Option Reason
  config_fault cfg =
      if outside_open_unit cfg.min_confidence_threshold
      then some Reason.bad_min_confidence
      else if negative_or_not_finite cfg.grace_confidence_threshold
          || f.lt cfg.min_confidence_threshold cfg.grace_confidence_threshold
      then some Reason.bad_grace
      else if outside_models cfg
      then some Reason.bad_min_models
      else if ltb_ℤ cfg.fallback_window_size (pos 1)
      then some Reason.bad_window
      else if outside_open_unit cfg.sign_agreement_threshold
      then some Reason.bad_agreement
      else if ltb_ℤ cfg.max_model_count (pos 1)
      then some Reason.bad_max_models
      else if outside_position cfg.max_position_abs
      then some Reason.bad_max_position
      else if outside_coefficients cfg
      then some Reason.bad_coefficients
      else none

  -- `false` with the complaint in the decision, or `true` with the decision untouched.
  unfoldable pub validate_config : AilleConfig F → Decision F → Bool × Decision F
  validate_config cfg decision = elim (config_fault cfg) [
    | none ↦ (true, decision)
    | some reason ↦ (
      false,
      record decision {
        status = Status.error_no_models;
        contributing_models = [];
        reasoning = reason;
      },
    )
  ]

  -- The ranges that the engine's arithmetic relies on.
  pub record IsSane (cfg : AilleConfig F) : Type 0 where
    pub min_confidence_pos : f.lt nought cfg.min_confidence_threshold ≡ true
    pub min_confidence_le : cfg.min_confidence_threshold ≼ one
    pub grace_nonneg : nought ≼ cfg.grace_confidence_threshold
    pub grace_le : cfg.grace_confidence_threshold ≼ cfg.min_confidence_threshold
    pub min_models_pos : pos 1 ≤ℤ cfg.min_models_required
    pub min_models_reachable : cfg.min_models_required ≤ℤ cfg.max_model_count
    pub min_models_le : cfg.min_models_required ≤ℤ pos max_models
    pub window_pos : pos 1 ≤ℤ cfg.fallback_window_size
    pub agreement_pos : f.lt nought cfg.sign_agreement_threshold ≡ true
    pub agreement_le : cfg.sign_agreement_threshold ≼ one
    pub max_models_pos : pos 1 ≤ℤ cfg.max_model_count
    pub position_pos : f.lt nought cfg.max_position_abs ≡ true
    pub position_le : cfg.max_position_abs ≼ one
    pub scale_nonneg : nought ≼ cfg.fallback_position_scale
    pub scale_le : cfg.fallback_position_scale ≼ one
    pub alpha_finite : IsFinite cfg.fallback_alpha
    pub alpha_nonneg : nought ≼ cfg.fallback_alpha
    pub beta_finite : IsFinite cfg.fallback_beta
    pub beta_nonneg : nought ≼ cfg.fallback_beta
    pub aggressiveness_finite : IsFinite cfg.contrarian_oversold_aggressiveness
    pub aggressiveness_nonneg : nought ≼ cfg.contrarian_oversold_aggressiveness
