-- ===== src/Engine/Fallback.antt =====
-- The ring of accepted decisions in aille.hpp: `calculateFallbackValue`, `updateFallbackBuffer`,
-- `getFallbackValue`, `reset`, and the repacking of the ring in `setConfig`.
pub mod History
pub mod Fresh
pub mod Resize
pub mod Bound
use ailee_finance_unified_ru.Prelude.{
  ℕ, zero, suc, ◌+◌, ◌-◌, ◌%◌, ◌^◌, min, Bool, true, false, ◌≡◌, Option, none, some, List, [], ◌∷◌,
  if◌then◌else◌, ltb, ◌==◌, get_or, set, take, replicate, length,
}
use ailee_finance_unified_ru.Prelude.Int.{ℤ, pos, negsuc, ltb_ℤ}
use ailee_finance_unified_ru.Float.{Float, Widening, nought, one, of_nat, clamp, sum_from}
use ailee_finance_unified_ru.Engine.{AilleConfig, Engine, Decision, Reason, max_fallback_window}
use ailee_finance_unified_ru.Engine.Config.{validate_config}

-- `static_cast<size_t>` of an `int`.
abbrev pub to_size : ℤ → ℕ
to_size (pos n) = n
to_size (negsuc n) = 2 ^ 64 - suc n

abbrev pub max_ℤ : ℤ → ℤ → ℤ
max_ℤ a b = if ltb_ℤ a b then b else a

module _ {F : Type 0} where
  -- The modulus of the ring.
  unfoldable pub window_of : AilleConfig F → ℕ
  window_of cfg = min (to_size (max_ℤ (pos 1) cfg.fallback_window_size)) max_fallback_window

  unfoldable pub update_fallback_buffer : Engine F → F → F → Engine F
  update_fallback_buffer e value confidence =
      let window = window_of e.config in
      let count = if ltb window e.fallback_count then window else e.fallback_count in
      record e {
        fallback_buffer = set e.fallback_buffer e.fallback_head value;
        confidence_buffer = set e.confidence_buffer e.fallback_head confidence;
        fallback_head = (e.fallback_head + 1) % window;
        fallback_count = if ltb count window then count + 1 else count;
      }

module _ {F : Type 0} ⦃f : Float F⦄ where
  unfoldable pub calculate_fallback_value : Engine F → F
  calculate_fallback_value e =
      if e.fallback_count == 0
      then nought
      else f.div (sum_from nought (take e.fallback_count e.fallback_buffer))
          (of_nat e.fallback_count)

  -- `AILLEEngine(cfg)`: no check is made of the configuration here.
  unfoldable pub create : AilleConfig F → Engine F
  create cfg = record {
    config = cfg;
    fallback_buffer = replicate max_fallback_window nought;
    confidence_buffer = replicate max_fallback_window nought;
    fallback_head = 0;
    fallback_count = 0;
  }

  pub reset : Engine F → Engine F
  reset e = record e {
    fallback_head = 0;
    fallback_count = 0;
    fallback_buffer = replicate max_fallback_window nought;
    confidence_buffer = replicate max_fallback_window nought;
  }

  -- The loop of `setConfig` over `i < retained`: the value copied to index `i`, zero above.
  pub repack : List F → ℕ → ℕ → ℕ → ℕ → ℕ → List F
  repack buffer head old_window retained zero i = []
  repack buffer head old_window retained (suc left) i =
      (if ltb i retained
        then get_or buffer ((head + old_window - retained + i) % old_window) nought
        else nought)
      ∷ repack buffer head old_window retained left (i + 1)

  pub repacked : Engine F → ℕ → List F → List F
  repacked e new_window buffer =
      repack buffer e.fallback_head (window_of e.config) (min e.fallback_count new_window)
        max_fallback_window 0

  -- The ring under a new modulus.
  pub resize : Engine F → ℕ → Engine F
  resize e new_window =
      let retained = min e.fallback_count new_window in
      record e {
        fallback_buffer = repacked e new_window e.fallback_buffer;
        confidence_buffer = repacked e new_window e.confidence_buffer;
        fallback_count = retained;
        fallback_head = retained % new_window;
      }

  -- `none` is the exception: the engine is as it was. `blank` is the freshly made decision that
  -- takes the complaint.
  pub set_config : Engine F → AilleConfig F → Decision F → Option (Engine F)
  set_config e cfg blank =
      let new_window = min (to_size cfg.fallback_window_size) max_fallback_window in
      if (validate_config cfg blank).0
      then some (record (if new_window == window_of e.config then e else resize e new_window) {
        config = cfg;
      })
      else none

module _ {F : Type 0} (D : Type 0) ⦃f : Float F⦄ ⦃d : Float D⦄ ⦃w : Widening F D⦄ where
  -- The literals 0.1 and 0.5 are doubles.
  unfoldable pub fallback_scale : Engine F → F
  fallback_scale e =
      if e.config.enable_dynamic_fallback
      then (let sum_conf = sum_from nought (take e.fallback_count e.confidence_buffer) in
          let ma_conf = f.div sum_conf (of_nat e.fallback_count) in
          let candidate =
            d.add (d.mul (w.widen e.config.fallback_alpha) (w.widen ma_conf))
              (w.widen e.config.fallback_beta) in
          w.narrow (clamp candidate (d.ratio 1 10) (d.ratio 1 2)))
      else e.config.fallback_position_scale

  unfoldable pub get_fallback_value : Engine F → F
  get_fallback_value e =
      if e.fallback_count == 0
      then nought
      else (let sign = if f.le nought (calculate_fallback_value e) then one else f.neg one in
          clamp (f.mul sign (fallback_scale e)) (f.neg e.config.max_position_abs)
            e.config.max_position_abs)
