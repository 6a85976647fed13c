-- ===== src/Engine/Fallback/Fresh.antt =====
-- The ring of aille.hpp when nothing has been accepted: a new engine, and one after `reset`.
use ailee_finance_unified_ru.Prelude.{◌≡◌, refl, [], arith, length-replicate}
use ailee_finance_unified_ru.Float.{Float, nought}
use ailee_finance_unified_ru.Engine.{AilleConfig, Engine, max_fallback_window}
use ailee_finance_unified_ru.Engine.Fallback.{create, reset}
use ailee_finance_unified_ru.Engine.Fallback.History.{IsRing, window_of_pos, samples}

module _ {F : Type 0} ⦃f : Float F⦄ where
  pub create-IsRing : (cfg : AilleConfig F) → IsRing (create cfg)
  unfolding create
  create-IsRing cfg =
      let (pos_w, le_w) = window_of_pos cfg in
      record {
        values = length-replicate {A = F} max_fallback_window nought;
        confidences = length-replicate {A = F} max_fallback_window nought;
        head_in = pos_w;
        count_in = omega arith;
        start = λ _. refl;
      }

  pub create-samples :
      (cfg : AilleConfig F) → samples (create cfg) (create cfg).confidence_buffer ≡ []
  unfolding create
  create-samples cfg = refl

  -- `reset` leaves the engine that the configuration makes anew.
  pub reset-create : (e : Engine F) → reset e ≡ create e.config
  unfolding reset create
  reset-create e = refl
