-- ===== src/Engine/Decide/Envelope.antt =====
-- What `makeDecision` of aille.hpp may return: a position inside the envelope.
use ailee_finance_unified_ru.Prelude.{
  ℕ, ◌≤◌, ◌≡◌, false, none, List, [], ◌∷◌, arith, Option-cases, length, take, inl, inr, length-take,
}
use ailee_finance_unified_ru.Float.{Float, IsIeee, Widening, IsWidening}
use ailee_finance_unified_ru.Float.Bounds.{All, IsWithin, nought-IsWithin}
use ailee_finance_unified_ru.Engine.{
  AilleConfig, Engine, Signal, Decision, View, Library, max_models,
}
use ailee_finance_unified_ru.Engine.Config.{config_fault, validate_config, IsSane}
use ailee_finance_unified_ru.Engine.Config.Accepts.{config_fault_iff}
use ailee_finance_unified_ru.Engine.Fallback.History.{IsRing}
use ailee_finance_unified_ru.Engine.Fallback.Bound.{HasUnits, get_fallback_value-IsWithin}
use ailee_finance_unified_ru.Engine.Consensus.{
  Lane, apply_safety_layer, check_consensus, has_bad_envelope,
}
use ailee_finance_unified_ru.Engine.Consensus.Lanes.{
  IsLibrary, IsSound, IsSoundLane, safety_layer-IsSound, length-safety_layer, check_consensus-IsNum,
  smooth_position-IsWithin,
}
use ailee_finance_unified_ru.Engine.Decide.Screen.{IsAdmissible, screen_iff}
use ailee_finance_unified_ru.Engine.Decide.{
  screen, process_count, decide_on, decide_signals, make_decision,
}

module _ {F : Type 0} ⦃f : Float F⦄ where
  admissible-IsSound :
      (cfg : AilleConfig F) (now : ℕ) (signals : List (Signal F))
      → All (IsAdmissible cfg now) signals
      → All IsSound signals
  admissible-IsSound cfg now [] a = tt
  admissible-IsSound cfg now (sig ∷ signals) (a, rest) =
      ((a.value_finite, a.confidence_unit), admissible-IsSound cfg now signals rest)

  module _ (laws : IsIeee F) where
    -- The lanes of a round whose signals passed the checks.
    pub lanes-IsSound :
        (cfg : AilleConfig F) (now : ℕ) (signals : List (Signal F))
        → screen cfg now [] (take (process_count cfg (length signals)) signals) ≡ none
        → let lanes = apply_safety_layer cfg (take (process_count cfg (length signals)) signals) in
          All IsSoundLane lanes × (length lanes ≤ max_models)
    lanes-IsSound cfg now signals clean =
        let processed = take (process_count cfg (length signals)) signals in
        let (adm, distinct) = (screen_iff laws cfg now processed).0 clean in
        (
          safety_layer-IsSound laws cfg processed (admissible-IsSound cfg now processed adm),
          omega (
            arith,
            length-safety_layer laws cfg processed,
            length-take (process_count cfg (length signals)) signals,
          ),
        )

module _ {F : Type 0} (D : Type 0) ⦃f : Float F⦄ ⦃d : Float D⦄ ⦃w : Widening F D⦄ where
  -- The position of a decision, against both envelopes.
  abbrev IsBounded : Engine F → View F → Decision F → Type 0
  IsBounded e view dec = IsWithin e.config.max_position_abs dec.final_value

  module _ (laws : IsIeee F) (double_laws : IsIeee D) (widening : IsWidening F D) where
    decide_on-IsBounded :
        (lib : Library F) (e : Engine F) (view : View F) (now : ℕ) (valid : List (Lane F))
        → IsLibrary lib
        → IsSane e.config
        → IsRing e
        → HasUnits e
        → has_bad_envelope view.stabilizer_advisory ≡ false
        → All IsSoundLane valid
        → length valid ≤ max_models
        → IsBounded e view (decide_on D lib e view now valid).0
    unfolding decide_on
    decide_on-IsBounded lib e view now [] ok sane r u calm s small =
        get_fallback_value-IsWithin D laws double_laws widening e sane r u
    decide_on-IsBounded lib e view now (lane ∷ lanes) ok sane r u calm s small =
        elim (Option-cases (check_consensus lib e.config (lane ∷ lanes)).0) [
          | inl missed ↦
              rw (missed, decide_on)
                (get_fallback_value-IsWithin D laws double_laws widening e sane r u)
          | inr (v, found) ↦
              rw (found, decide_on)
                (smooth_position-IsWithin laws lib e.config view.stabilizer_advisory v ok
                  (laws.le_of_lt _ _ sane.position_pos) calm
                  (check_consensus-IsNum laws lib e.config (lane ∷ lanes) s small found)).1
        ]

    decide_signals-IsBounded :
        (lib : Library F) (e : Engine F) (view : View F) (now : ℕ) (signals : List (Signal F))
        → IsLibrary lib
        → IsSane e.config
        → IsRing e
        → HasUnits e
        → has_bad_envelope view.stabilizer_advisory ≡ false
        → IsBounded e view (decide_signals D lib e view now signals).0
    unfolding decide_signals
    decide_signals-IsBounded lib e view now signals ok sane r u calm =
        let processed = take (process_count e.config (length signals)) signals in
        elim (Option-cases (screen e.config now [] processed)) [
          | inl clean ↦
              let (sound, small) = lanes-IsSound laws e.config now signals clean in
              rw (clean, decide_signals)
                (decide_on-IsBounded lib e view now (apply_safety_layer e.config processed) ok sane
                  r u calm sound small)
          | inr (why, refused) ↦
              rw (refused, decide_signals)
                (get_fallback_value-IsWithin D laws double_laws widening e sane r u)
        ]

    -- With a configuration that `validateConfig` accepts, a well-formed ring and its
    -- confidences in [0, 1], the decision of every round, accepted or refused, lies in
    -- [-max_position_abs, max_position_abs].
    pub make_decision-IsWithin :
        (lib : Library F) (e : Engine F) (view : View F) (now : ℕ) (signals : List (Signal F))
        → IsLibrary lib
        → IsRing e
        → HasUnits e
        → config_fault e.config ≡ none
        → IsWithin e.config.max_position_abs (make_decision D lib e view now signals).0.final_value
    unfolding make_decision validate_config
    make_decision-IsWithin lib e view now signals ok r u clean =
        let sane = (config_fault_iff laws e.config).0 clean in
        let zero_in =
          nought-IsWithin laws e.config.max_position_abs (laws.le_of_lt _ _ sane.position_pos) in
        ground (arith, decide_signals-IsBounded lib e view now signals ok sane r u)
