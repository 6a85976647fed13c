-- ===== src/Engine.antt =====
-- The decision engine of aille.hpp: its data, shared by the modules below.
pub mod Config
pub mod Fallback
pub mod Consensus
pub mod Decide
pub mod Reach
mod Tests
use Prim.Native.String.{String}
use ailee_finance_unified_ru.Prelude.{ℕ, ◌+◌, ◌-◌, ◌^◌, ◌≤◌, ◌≡◌, Bool, Option, List, length}
use ailee_finance_unified_ru.Prelude.Int.{ℤ, pos, negsuc}

-- `AILLE_MAX_MODELS` and `AILLE_MAX_FALLBACK_WINDOW`.
abbrev pub max_models : ℕ
max_models = 64

abbrev pub max_fallback_window : ℕ
max_fallback_window = 256

pub data Status : Type 0 where
  decision_valid rejected_low_confidence rejected_no_consensus : Status
  fallback_activated error_no_models : Status

-- The texts that `setReasoning` is given.
pub data Reason : Type 0 where
  none_given no_model_inputs nan_input confidence_range future_timestamp stale_timestamp : Reason
  duplicate_model value_bounds all_failed_confidence no_consensus : Reason
  hardware_fault_detected kill_switch_engaged unified_denied invalid_stabilizer : Reason
  bad_min_confidence bad_grace bad_min_models bad_window bad_agreement : Reason
  bad_max_models bad_max_position bad_coefficients : Reason
  consensus_of : ℕ → Reason

pub record Signal (F : Type 0) : Type 0 where
  pub value : F
  pub confidence : F
  pub timestamp_ns : ℕ
  pub model_id : ℤ

pub record AilleConfig (F : Type 0) : Type 0 where
  pub min_confidence_threshold : F
  pub grace_confidence_threshold : F
  pub min_models_required : ℤ
  pub sign_agreement_threshold : F
  pub fallback_window_size : ℤ
  pub fallback_position_scale : F
  pub max_model_count : ℤ
  pub max_signal_age_ns : ℕ
  pub max_position_abs : F
  pub enable_dynamic_fallback : Bool
  pub fallback_alpha : F
  pub fallback_beta : F
  pub enable_contrarian_oversold : Bool
  pub contrarian_oversold_aggressiveness : F
  pub config_version : String

-- `contributing_models` holds the entries below `num_contributing_models`.
pub record Decision (F : Type 0) : Type 0 where
  pub final_value : F
  pub status : Status
  pub confidence : F
  pub models_agreed : ℕ
  pub fallback_used : Bool
  pub timestamp_ns : ℕ
  pub contributing_models : List ℤ
  pub reasoning : Reason

-- The engine's own state: its configuration and the ring of accepted decisions.
pub record Engine (F : Type 0) : Type 0 where
  pub config : AilleConfig F
  pub fallback_buffer : List F
  pub confidence_buffer : List F
  pub fallback_head : ℕ
  pub fallback_count : ℕ

pub record SafetyState : Type 0 where
  pub hardware_fault : Bool
  pub kill_switch : Bool

pub record StabilizerAdvisory (F : Type 0) : Type 0 where
  pub stabilization_risk_score : F
  pub dynamic_clamp_limit : F

-- What a decision reads through the engine's pointers, once the advisories are evaluated; `none`
-- is a null pointer.
pub record View (F : Type 0) : Type 0 where
  pub safety_state : Option SafetyState
  pub execution_permitted : Option ℕ
  pub stabilizer_advisory : Option (StabilizerAdvisory F)

-- `std::tanh` and `std::nth_element`, of the standard library.
pub record Library (F : Type 0) : Type 0 where
  pub tanh : F → F
  pub nth_element : List F → ℕ → F
