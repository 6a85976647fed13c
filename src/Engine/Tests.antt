-- ===== src/Engine/Tests.antt =====
-- Runs of the engine over fixed-point numbers, and each theorem at an input.
use ailee_finance_unified_ru.Prelude.{
  ℕ, ◌≡◌, ◌⊎◌, ◌≢◌, ◌↔◌, ◌++◌, refl, true, false, none, some, List, [], ◌∷◌, map, arith,
  if◌then◌else◌, get_or, inl,
}
use ailee_finance_unified_ru.Prelude.Int.{ℤ, pos, ◌+ℤ◌}
use ailee_finance_unified_ru.Float.{nought, one, clamp, sum_from}
use ailee_finance_unified_ru.Float.Fixed.{
  Fixed, fixed_float, Fixed-IsIeee, fixed_widening, Fixed-IsWidening,
}
use ailee_finance_unified_ru.Float.Bounds.{All, IsWithin}
use ailee_finance_unified_ru.Engine.{AilleConfig, Engine, Signal, Decision, Status, View, Library}
use ailee_finance_unified_ru.Engine.Config.{config_fault, validate_config, default_config, IsSane}
use ailee_finance_unified_ru.Engine.Config.Accepts.{config_fault_iff}
use ailee_finance_unified_ru.Engine.Fallback.{create, window_of, update_fallback_buffer, set_config}
use ailee_finance_unified_ru.Engine.Fallback.Fresh.{create-IsRing, create-samples}
use ailee_finance_unified_ru.Engine.Fallback.History.{IsRing, keep, samples, update-samples}
use ailee_finance_unified_ru.Engine.Fallback.Resize.{Outcome, set_config-IsReconfigured}
use ailee_finance_unified_ru.Engine.Fallback.Bound.{HasUnits}
use ailee_finance_unified_ru.Engine.Consensus.Lanes.{IsLibrary}
use ailee_finance_unified_ru.Engine.Decide.{
  make_decision, decide_signals, decide_on, screen, screen_signal, is_duplicate, fresh_decision,
}
use ailee_finance_unified_ru.Engine.Decide.Screen.{IsAdmissible, IsDistinct, id_of, screen_iff}
use ailee_finance_unified_ru.Engine.Decide.Warrant.{
  IsRefused, IsWarranted, make_decision-IsWarranted, make_decision-shut,
}
use ailee_finance_unified_ru.Engine.Reach.{Reach, created, decided, Reach-IsRing, Reach-IsWithin}
use ailee_finance_unified_ru.Engine.Consensus.{
  apply_safety_layer, check_consensus, agreeing, weighted_sum, total_weight, median_of,
  smooth_position,
}

-- A decimal with four places.
abbrev dec : ℤ → Fixed
dec n = some n

abbrev insert : Fixed → List Fixed → List Fixed
insert x [] = x ∷ []
insert x (y ∷ ys) = let rest = insert x ys in if fixed_float.lt x y then x ∷ y ∷ ys else y ∷ rest

abbrev sort : List Fixed → List Fixed
sort [] = []
sort (x ∷ xs) = insert x (sort xs)

-- A hyperbolic tangent by its first-order bounds, and the selection by sorting.
abbrev library : Library Fixed
library = record {
  tanh = λ x. clamp x (fixed_float.neg one) one;
  nth_element = λ xs n. get_or (sort xs) n none;
}

library-IsLibrary : IsLibrary library
library-IsLibrary = record { tanh_num = ground arith }

abbrev open_view : View Fixed
open_view = record { safety_state = none; execution_permitted = none; stabilizer_advisory = none }

abbrev signal : ℤ → ℕ → ℤ → Signal Fixed
signal value confidence id = record {
  value = some value;
  confidence = some (pos confidence);
  timestamp_ns = 1_000;
  model_id = id;
}

abbrev two_signals : List (Signal Fixed)
two_signals = signal (pos 40) 8_000 (pos 1) ∷ signal (pos 60) 6_000 (pos 2) ∷ []

abbrev started : Engine Fixed
started = create default_config

abbrev first_round : Decision Fixed
first_round = (make_decision Fixed library started open_view 2_000 two_signals).0

-- Two models agree: the mean of 0.0040 and 0.0060 by confidence, a hundredfold.
first_round_run :
    (first_round.status ≡ Status.decision_valid)
    × (first_round.final_value ≡ some (pos 4_800))
    × (first_round.confidence ≡ some (pos 7_000))
    × (first_round.models_agreed ≡ 2)
unfolding make_decision decide_signals decide_on screen screen_signal is_duplicate
    apply_safety_layer check_consensus agreeing weighted_sum total_weight median_of smooth_position
    create default_config sum_from ◌+ℤ◌ config_fault validate_config
first_round_run = (refl, refl, refl, refl)

started-IsRing : IsRing started
started-IsRing = create-IsRing default_config

started-HasUnits : HasUnits started
started-HasUnits = rw (create-samples default_config) tt

default_accepted : config_fault started.config ≡ none
unfolding create default_config config_fault
default_accepted = refl

abbrev second_engine : Engine Fixed
second_engine = (make_decision Fixed library started open_view 2_000 two_signals).1

second-Reach : Reach Fixed library second_engine
second-Reach = decided started open_view 2_000 two_signals (created default_config)

abbrev killed_view : View Fixed
killed_view = record open_view {
  safety_state = some (record { hardware_fault = false; kill_switch = true });
}

Reach-IsWithin_example :
    let value =
      (make_decision Fixed library second_engine open_view 3_000 two_signals).0.final_value in
    (value ≡ nought)
    ⊎ ((config_fault second_engine.config ≡ none)
        × IsWithin second_engine.config.max_position_abs value)
Reach-IsWithin_example =
    Reach-IsWithin Fixed library second_engine open_view 3_000 two_signals Fixed-IsIeee Fixed-IsIeee
      Fixed-IsWidening library-IsLibrary second-Reach

make_decision-IsWarranted_example :
    let (dec, e') = make_decision Fixed library started open_view 2_000 two_signals in
    IsRefused started (dec, e') ⊎ IsWarranted Fixed started open_view 2_000 two_signals dec e'
make_decision-IsWarranted_example =
    make_decision-IsWarranted Fixed Fixed-IsIeee library started open_view 2_000 two_signals
      library-IsLibrary

make_decision-shut_example :
    let (dec, e') = make_decision Fixed library started killed_view 2_000 two_signals in
    (dec.final_value ≡ nought)
    × (dec.confidence ≡ nought)
    × (dec.status ≢ Status.decision_valid)
    × (dec.contributing_models ≡ [])
    × (e' ≡ started)
make_decision-shut_example =
    make_decision-shut Fixed library started killed_view 2_000 two_signals (inl refl)

screen_iff_example :
    (screen {F = Fixed} default_config 2_000 [] two_signals ≡ none)
    ↔ (All (IsAdmissible default_config 2_000) two_signals × IsDistinct (map id_of two_signals))
screen_iff_example = screen_iff Fixed-IsIeee default_config 2_000 two_signals

config_fault_iff_example :
    (config_fault {F = Fixed} default_config ≡ none) ↔ IsSane {F = Fixed} default_config
config_fault_iff_example = config_fault_iff Fixed-IsIeee default_config

-- A shorter window, and a configuration that cannot reach its quorum.
abbrev shorter_window : AilleConfig Fixed
shorter_window = record default_config { fallback_window_size = pos 3 }

set_config-IsReconfigured_example :
    Outcome second_engine shorter_window
      (set_config second_engine shorter_window (fresh_decision 2_000))
set_config-IsReconfigured_example =
    set_config-IsReconfigured second_engine shorter_window (fresh_decision 2_000)
      (Reach-IsRing Fixed library second_engine Fixed-IsIeee library-IsLibrary second-Reach).0

update-samples_example :
    let e' = update_fallback_buffer started (some (pos 4_800)) (some (pos 7_000)) in
    (samples e' e'.fallback_buffer
      ≡ keep
          (window_of started.config)
          (samples started started.fallback_buffer ++ (some (pos 4_800) ∷ [])))
    × (samples e' e'.confidence_buffer
        ≡ keep
            (window_of started.config)
            (samples started started.confidence_buffer ++ (some (pos 7_000) ∷ [])))
update-samples_example = update-samples started (some (pos 4_800)) (some (pos 7_000)) started-IsRing
