-- ===== src/Engine/Decide.antt =====
-- `AILLEEngine::makeDecision` of aille.hpp, from the advisories as `evaluate_unified_advisories`
-- leaves them. A null pointer of signals is an empty list: both end in the same refusal.
pub mod Screen
pub mod Envelope
pub mod Warrant
use ailee_finance_unified_ru.Prelude.{
  ℕ, ◌-◌, Bool, true, false, not, ◌&&◌, ◌||◌, Option, none, some, List, [], ◌∷◌, map, if◌then◌else◌,
  ltb, ◌==◌, length, take, min,
}
use ailee_finance_unified_ru.Prelude.Int.{ℤ, pos, negsuc}
use ailee_finance_unified_ru.Float.{Float, Widening, nought, one, of_nat, is_inf, sum_from}
use ailee_finance_unified_ru.Engine.{
  AilleConfig, Engine, Signal, Decision, Status, Reason, SafetyState, StabilizerAdvisory, View,
  Library, max_models,
}
use ailee_finance_unified_ru.Engine.Config.{validate_config}
use ailee_finance_unified_ru.Engine.Fallback.{to_size, get_fallback_value, update_fallback_buffer}
use ailee_finance_unified_ru.Engine.Consensus.{
  Lane, apply_safety_layer, check_consensus, smooth_position, total_weight, has_bad_envelope,
}

abbrev pub eq_ℤ : ℤ → ℤ → Bool
eq_ℤ (pos a) (pos b) = a == b
eq_ℤ (negsuc a) (negsuc b) = a == b
eq_ℤ _ _ = false

-- `model_id` among those of the signals before it.
unfoldable pub is_duplicate : ℤ → List ℤ → Bool
is_duplicate id [] = false
is_duplicate id (other ∷ seen) = eq_ℤ other id || is_duplicate id seen

abbrev pub is_locked : Option SafetyState → Bool
is_locked none = false
is_locked (some s) = s.kill_switch || s.hardware_fault

abbrev pub lock_reason : Option SafetyState → Reason
lock_reason none = Reason.kill_switch_engaged
lock_reason (some s) =
    if s.hardware_fault then Reason.hardware_fault_detected else Reason.kill_switch_engaged

-- `unifiedExecutionPermitted`
abbrev pub is_permitted : Option ℕ → Bool
is_permitted none = true
is_permitted (some permitted) = permitted == 1

module _ {F : Type 0} ⦃f : Float F⦄ where
  -- `MAX_SIGNAL_VALUE`
  abbrev pub max_signal_value : F
  max_signal_value = of_nat 1_000_000

  abbrev pub not_a_quantity : F → Bool
  not_a_quantity x = f.is_nan x || is_inf x

  -- The checks on one signal, in the code's order; `none` lets it pass.
  unfoldable pub screen_signal : AilleConfig F → ℕ → List ℤ → Signal F → Option (Status × Reason)
  screen_signal cfg now seen sig =
      if not_a_quantity sig.value || not_a_quantity sig.confidence
      then some (Status.rejected_low_confidence, Reason.nan_input)
      else if f.lt sig.confidence nought || f.lt one sig.confidence
      then some (Status.rejected_low_confidence, Reason.confidence_range)
      else if ltb now sig.timestamp_ns
      then some (Status.rejected_low_confidence, Reason.future_timestamp)
      else if ltb 0 cfg.max_signal_age_ns && ltb cfg.max_signal_age_ns (now - sig.timestamp_ns)
      then some (Status.rejected_low_confidence, Reason.stale_timestamp)
      else if is_duplicate sig.model_id seen
      then some (Status.rejected_no_consensus, Reason.duplicate_model)
      else if f.lt sig.value (f.neg max_signal_value) || f.lt max_signal_value sig.value
      then some (Status.rejected_low_confidence, Reason.value_bounds)
      else none

  -- The loop over the signals to process, up to the first that is refused.
  unfoldable pub screen : AilleConfig F → ℕ → List ℤ → List (Signal F) → Option (Status × Reason)
  screen cfg now seen [] = none
  screen cfg now seen (sig ∷ signals) =
      let rest = screen cfg now (sig.model_id ∷ seen) signals in
      elim (screen_signal cfg now seen sig) [ none ↦ rest | some r ↦ some r ]

  abbrev pub process_count : AilleConfig F → ℕ → ℕ
  process_count cfg count = min (min count (to_size cfg.max_model_count)) max_models

  abbrev pub fresh_decision : ℕ → Decision F
  fresh_decision now = record {
    final_value = nought;
    status = Status.error_no_models;
    confidence = nought;
    models_agreed = 0;
    fallback_used = false;
    timestamp_ns = now;
    contributing_models = [];
    reasoning = Reason.none_given;
  }

  -- A round that ends at zero.
  abbrev pub halted : ℕ → Reason → Decision F
  halted now why = record (fresh_decision now) {
    status = Status.fallback_activated;
    fallback_used = true;
    reasoning = why;
  }

  abbrev pub model_id_of : Lane F → ℤ
  model_id_of lane = lane.model_id

module _ {F : Type 0} (D : Type 0) ⦃f : Float F⦄ ⦃d : Float D⦄ ⦃w : Widening F D⦄ where
  -- A round that falls back on the history.
  abbrev pub rejected : Engine F → ℕ → Status → Reason → F → ℕ → Decision F
  rejected e now status why confidence agreed = record (fresh_decision now) {
    status = status;
    final_value = get_fallback_value D e;
    confidence = confidence;
    models_agreed = agreed;
    fallback_used = true;
    reasoning = why;
  }

  abbrev pub accepted : Library F → Engine F → View F → ℕ → List (Lane F) → F → ℕ → Decision F
  accepted lib e view now valid consensus agreed = record (fresh_decision now) {
    status = Status.decision_valid;
    final_value = smooth_position lib e.config view.stabilizer_advisory consensus;
    confidence = f.div (total_weight valid) (of_nat (length valid));
    models_agreed = agreed;
    contributing_models = map model_id_of valid;
    reasoning = Reason.consensus_of agreed;
  }

  -- From the lanes that passed the safety layer on.
  unfoldable pub decide_on :
      Library F → Engine F → View F → ℕ → List (Lane F) → Decision F × Engine F
  decide_on lib e view now [] = (
    rejected e now Status.rejected_low_confidence Reason.all_failed_confidence (f.ratio 1 10) 0,
    e,
  )
  decide_on lib e view now (lane ∷ lanes) =
      let valid : List (Lane F) = lane ∷ lanes in
      let (found, agreed) = check_consensus lib e.config valid in
      elim found [
        | none ↦ (
          rejected e now Status.rejected_no_consensus Reason.no_consensus (f.ratio 1 5) agreed,
          e,
        )
        | some consensus ↦
            let decision = accepted lib e view now valid consensus agreed in
            (decision, update_fallback_buffer e decision.final_value decision.confidence)
      ]

  -- The checks on the signals, then the decision.
  unfoldable pub decide_signals :
      Library F → Engine F → View F → ℕ → List (Signal F) → Decision F × Engine F
  decide_signals lib e view now signals =
      let processed = take (process_count e.config (length signals)) signals in
      elim (screen e.config now [] processed) [
        | some (status, why) ↦ (rejected e now status why nought 0, e)
        | none ↦ decide_on lib e view now (apply_safety_layer e.config processed)
      ]

  -- `now` is the clock's reading; the result is the decision and the engine after it.
  unfoldable pub make_decision :
      Library F → Engine F → View F → ℕ → List (Signal F) → Decision F × Engine F
  make_decision lib e view now signals =
      let (config_ok, complaint) = validate_config e.config (fresh_decision now) in
      if is_locked view.safety_state
      then (halted now (lock_reason view.safety_state), e)
      else if not (is_permitted view.execution_permitted)
      then (halted now Reason.unified_denied, e)
      else if not config_ok
      then (complaint, e)
      else if has_bad_envelope view.stabilizer_advisory
      then (halted now Reason.invalid_stabilizer, e)
      else if length signals == 0
      then (record (fresh_decision now) { reasoning = Reason.no_model_inputs }, e)
      else decide_signals lib e view now signals
