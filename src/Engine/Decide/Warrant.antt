-- ===== src/Engine/Decide/Warrant.antt =====
-- `makeDecision` of aille.hpp when it says `DECISION_VALID`: everything that must hold first.
use ailee_finance_unified_ru.Prelude.{
  ℕ, ◌≤◌, ◌≡◌, ◌≢◌, ◌⊎◌, refl, true, false, none, some, List, [], ◌∷◌, map, arith, Option-cases,
  length, length-map, take, inl, inr,
}
use ailee_finance_unified_ru.Prelude.Int.{pos, ◌≤ℤ◌}
use ailee_finance_unified_ru.Float.{Float, IsIeee, Widening, nought}
use ailee_finance_unified_ru.Float.Bounds.{All, IsUnit, IsWithin}
use ailee_finance_unified_ru.Engine.{Engine, Signal, Decision, Status, View, Library, max_models}
use ailee_finance_unified_ru.Engine.Config.{config_fault, validate_config, IsSane}
use ailee_finance_unified_ru.Engine.Config.Accepts.{config_fault_iff}
use ailee_finance_unified_ru.Engine.Fallback.{update_fallback_buffer}
use ailee_finance_unified_ru.Engine.Consensus.{
  Lane, apply_safety_layer, check_consensus, has_bad_envelope, clamp_limit,
}
use ailee_finance_unified_ru.Engine.Consensus.Lanes.{
  IsLibrary, check_consensus-IsNum, check_consensus-quorum, smooth_position-IsWithin,
  mean_confidence-IsUnit,
}
use ailee_finance_unified_ru.Engine.Decide.Screen.{
  IsAdmissible, IsDistinct, id_of, screen_iff, screen-refused,
}
use ailee_finance_unified_ru.Engine.Decide.Envelope.{lanes-IsSound}
use ailee_finance_unified_ru.Engine.Decide.{
  screen, process_count, accepted, model_id_of, decide_on, decide_signals, make_decision, is_locked,
  is_permitted,
}

-- A round that was refused: no decision of its own, and the engine as it was.
abbrev pub IsRefused : {F : Type 0} → Engine F → Decision F × Engine F → Type 0
IsRefused e (dec, e') = (dec.status ≢ Status.decision_valid) × (e' ≡ e)

module _ {F : Type 0} (D : Type 0) ⦃f : Float F⦄ ⦃d : Float D⦄ ⦃w : Widening F D⦄ where
  module _ (lib : Library F) (e : Engine F) (view : View F) (now : ℕ) where
    -- What a round that found a consensus returns.
    abbrev IsAcceptedOn : List (Lane F) → Decision F × Engine F → Type 0
    IsAcceptedOn valid (dec, e') =
        (v : F) × ((check_consensus lib e.config valid).0 ≡ some v)
        × (dec ≡ accepted D lib e view now valid v (check_consensus lib e.config valid).1)
        × (e' ≡ update_fallback_buffer e dec.final_value dec.confidence)
        × (length valid ≢ 0)

    decide_on-cases :
        (valid : List (Lane F))
        → let out = decide_on D lib e view now valid in IsRefused e out ⊎ IsAcceptedOn valid out
    unfolding decide_on
    decide_on-cases [] = inl ((λ h. ground arith), refl)
    decide_on-cases (lane ∷ lanes) =
        elim (Option-cases (check_consensus lib e.config (lane ∷ lanes)).0) [
          | inl missed ↦ rw (missed, decide_on) (inl ((λ h. ground arith), refl))
          | inr (v, found) ↦ rw (found, decide_on) (inr (v, refl, refl, refl, λ h. ground arith))
        ]

    abbrev processed : List (Signal F) → List (Signal F)
    processed signals = take (process_count e.config (length signals)) signals

    abbrev lanes_of : List (Signal F) → List (Lane F)
    lanes_of signals = apply_safety_layer e.config (processed signals)

    decide_signals-cases :
        (signals : List (Signal F))
        → let out = decide_signals D lib e view now signals in
          IsRefused e out
          ⊎ ((screen e.config now [] (processed signals) ≡ none)
              × IsAcceptedOn (lanes_of signals) out)
    unfolding decide_signals
    decide_signals-cases signals =
        elim (Option-cases (screen e.config now [] (processed signals))) [
          | inl clean ↦ elim (decide_on-cases (lanes_of signals)) [
            | inl refused ↦ rw (clean, decide_signals) (inl refused)
            | inr found ↦ rw (clean, decide_signals) (inr (refl, found))
          ]
          | inr ((status, why), bad) ↦
              rw (bad, decide_signals)
                (inl (screen-refused e.config now [] (processed signals) status why bad, refl))
        ]

    -- The code's conditions for a decision of its own.
    record AllGates (signals : List (Signal F)) (out : Decision F × Engine F) : Type 0 where
      unlocked : is_locked view.safety_state ≡ false
      permitted : is_permitted view.execution_permitted ≡ true
      clean : config_fault e.config ≡ none
      calm : has_bad_envelope view.stabilizer_advisory ≡ false
      screened : screen e.config now [] (processed signals) ≡ none
      found : IsAcceptedOn (lanes_of signals) out

    make_decision-cases :
        (signals : List (Signal F))
        → let out = make_decision D lib e view now signals in IsRefused e out ⊎ AllGates signals out
    unfolding make_decision validate_config
    make_decision-cases signals = ground (arith, decide_signals-cases signals)

  -- With a kill switch or hardware fault, without permission to execute, with a configuration
  -- that `validateConfig` refuses or with an envelope out of range, the position and the
  -- confidence are zero, no model is named, the decision is not valid and the engine is
  -- unchanged.
  pub make_decision-shut :
      (lib : Library F) (e : Engine F) (view : View F) (now : ℕ) (signals : List (Signal F))
      → (is_locked view.safety_state ≡ true)
        ⊎ (is_permitted view.execution_permitted ≡ false)
        ⊎ (config_fault e.config ≢ none)
        ⊎ (has_bad_envelope view.stabilizer_advisory ≡ true)
      → let (dec, e') = make_decision D lib e view now signals in
        (dec.final_value ≡ nought)
        × (dec.confidence ≡ nought)
        × (dec.status ≢ Status.decision_valid)
        × (dec.contributing_models ≡ [])
        × (e' ≡ e)
  unfolding make_decision validate_config
  make_decision-shut lib e view now signals shut = ground arith

  -- What a decision of the engine's own rests on, and what it leaves behind.
  pub record IsWarranted (e : Engine F) (view : View F) (now : ℕ) (signals : List (Signal F))
      (dec : Decision F) (e' : Engine F) : Type 0 where
    pub valid : dec.status ≡ Status.decision_valid
    pub unlocked : is_locked view.safety_state ≡ false
    pub permitted : is_permitted view.execution_permitted ≡ true
    pub configured : IsSane e.config
    pub calm : has_bad_envelope view.stabilizer_advisory ≡ false
    pub admissible :
        All (IsAdmissible e.config now) (take (process_count e.config (length signals)) signals)
    pub distinct : IsDistinct (map id_of (take (process_count e.config (length signals)) signals))
    pub quorum : e.config.min_models_required ≤ℤ pos dec.models_agreed
    pub agreed : dec.models_agreed ≤ length dec.contributing_models
    pub stored : length dec.contributing_models ≤ max_models
    pub confidence : IsUnit dec.confidence
    pub position : IsWithin (clamp_limit e.config view.stabilizer_advisory) dec.final_value
    pub its_own : dec.fallback_used ≡ false
    pub recorded : e' ≡ update_fallback_buffer e dec.final_value dec.confidence

  module _ (laws : IsIeee F) where
    gates-IsWarranted :
        (lib : Library F) (e : Engine F) (view : View F) (now : ℕ) (signals : List (Signal F))
        (dec : Decision F) (e' : Engine F)
        → IsLibrary lib
        → AllGates lib e view now signals (dec, e')
        → IsWarranted e view now signals dec e'
    gates-IsWarranted lib e view now signals dec e' ok g =
        let valid =
          apply_safety_layer e.config (take (process_count e.config (length signals)) signals) in
        let sane = (config_fault_iff laws e.config).0 g.clean in
        let (adm, distinct) = (screen_iff laws e.config now _).0 g.screened in
        let (sound, small) = lanes-IsSound laws e.config now signals g.screened in
        let (v, found, same, after, some_lane) = g.found in
        let (enough, fewer) = check_consensus-quorum lib e.config valid found in
        let ids = length-map valid model_id_of in
        record {
          valid = rw same refl;
          unlocked = g.unlocked;
          permitted = g.permitted;
          configured = sane;
          calm = g.calm;
          admissible = adm;
          distinct = distinct;
          quorum = rw same enough;
          agreed = rw (same, ids) fewer;
          stored = rw (same, ids) small;
          confidence = rw same (mean_confidence-IsUnit laws valid sound small some_lane);
          position =
              rw same
                (smooth_position-IsWithin laws lib e.config view.stabilizer_advisory v ok
                  (laws.le_of_lt _ _ sane.position_pos) g.calm
                  (check_consensus-IsNum laws lib e.config valid sound small found)).0;
          its_own = rw same refl;
          recorded = after;
        }

    -- A round either is refused, and then leaves the engine as it was, or is `DECISION_VALID`,
    -- and then no lock was set, execution was permitted, the configuration and the
    -- stabilizer's envelope were in range, every signal used was admissible and of a model of
    -- its own, the quorum was met within the 64 lanes, the confidence lies in [0, 1], the
    -- position in the narrowed envelope, and exactly that position and confidence are
    -- recorded.
    pub make_decision-IsWarranted :
        (lib : Library F) (e : Engine F) (view : View F) (now : ℕ) (signals : List (Signal F))
        → IsLibrary lib
        → let (dec, e') = make_decision D lib e view now signals in
          IsRefused e (dec, e') ⊎ IsWarranted e view now signals dec e'
    make_decision-IsWarranted lib e view now signals ok =
        elim (make_decision-cases lib e view now signals) [
          | inl refused ↦ inl refused
          | inr gates ↦ inr (gates-IsWarranted lib e view now signals _ _ ok gates)
        ]
