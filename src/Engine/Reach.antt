-- ===== src/Engine/Reach.antt =====
-- The engine of aille.hpp over its life: what a sequence of decisions, resets and new
-- configurations can make of it.
use ailee_finance_unified_ru.Prelude.{
  ℕ, zero, suc, ◌≡◌, ◌⊎◌, none, some, List, [], ◌∷◌, ◌++◌, drop, inl, inr, Option-cases,
}
use ailee_finance_unified_ru.Float.{Float, IsIeee, Widening, IsWidening, nought}
use ailee_finance_unified_ru.Float.Bounds.{All, IsUnit, IsWithin}
use ailee_finance_unified_ru.Engine.{AilleConfig, Engine, Signal, Decision, View, Library}
use ailee_finance_unified_ru.Engine.Config.{config_fault}
use ailee_finance_unified_ru.Engine.Fallback.{create, reset, set_config, update_fallback_buffer}
use ailee_finance_unified_ru.Engine.Fallback.Fresh.{create-IsRing, create-samples, reset-create}
use ailee_finance_unified_ru.Engine.Fallback.History.{
  IsRing, keep, samples, update-IsRing, update-samples,
}
use ailee_finance_unified_ru.Engine.Fallback.Bound.{HasUnits}
use ailee_finance_unified_ru.Engine.Fallback.Resize.{set_config-IsReconfigured}
use ailee_finance_unified_ru.Engine.Consensus.Lanes.{IsLibrary}
use ailee_finance_unified_ru.Engine.Decide.{make_decision}
use ailee_finance_unified_ru.Engine.Decide.Envelope.{make_decision-IsWithin}
use ailee_finance_unified_ru.Engine.Decide.Warrant.{make_decision-IsWarranted, make_decision-shut}

module _ {ℓ} {A : Type ℓ} (P : A → Type 0) where
  All-append : (xs : List A) (x : A) → All P xs → P x → All P (xs ++ (x ∷ []))
  All-append [] x h hx = (hx, tt)
  All-append (y ∷ xs) x (hy, h) hx = (hy, All-append xs x h hx)

  All-drop : (n : ℕ) (xs : List A) → All P xs → All P (drop n xs)
  All-drop zero xs h = h
  All-drop (suc n) [] h = tt
  All-drop (suc n) (x ∷ xs) (hx, h) = All-drop n xs h

module _ {F : Type 0} (D : Type 0) ⦃f : Float F⦄ ⦃d : Float D⦄ ⦃w : Widening F D⦄ where
  -- The engines that the public operations can lead to, from any configuration at all.
  pub data Reach (lib : Library F) : Engine F → Type 0 where
    created : (cfg : AilleConfig F) → Reach lib (create cfg)
    decided :
        (e : Engine F) (view : View F) (now : ℕ) (signals : List (Signal F))
        → Reach lib e
        → Reach lib (make_decision D lib e view now signals).1
    cleared : (e : Engine F) → Reach lib e → Reach lib (reset e)
    configured :
        (e : Engine F) (cfg : AilleConfig F) (blank : Decision F) (e' : Engine F)
        → Reach lib e
        → set_config e cfg blank ≡ some e'
        → Reach lib e'

  module _ (laws : IsIeee F) where
    abbrev IsWellFormed : Engine F → Type 0
    IsWellFormed e = IsRing e × HasUnits e

    create-IsWellFormed : (cfg : AilleConfig F) → IsWellFormed (create cfg)
    create-IsWellFormed cfg = (create-IsRing cfg, rw (create-samples cfg) tt)

    keep-HasUnits :
        (e e' : Engine F) (n : ℕ)
        → samples e' e'.confidence_buffer ≡ keep n (samples e e.confidence_buffer)
        → HasUnits e
        → HasUnits e'
    keep-HasUnits e e' n same h = rw same (All-drop IsUnit _ _ h)

    update-IsWellFormed :
        (e : Engine F) (v c : F)
        → IsUnit c
        → IsWellFormed e
        → IsWellFormed (update_fallback_buffer e v c)
    update-IsWellFormed e v c unit (ring, units) =
        let (values, confidences) = update-samples e v c ring in
        (
          update-IsRing e v c ring,
          rw confidences (All-drop IsUnit _ _ (All-append IsUnit _ c units unit)),
        )

    decided-IsWellFormed :
        (lib : Library F) (e : Engine F) (view : View F) (now : ℕ) (signals : List (Signal F))
        → IsLibrary lib
        → IsWellFormed e
        → IsWellFormed (make_decision D lib e view now signals).1
    decided-IsWellFormed lib e view now signals ok h =
        elim (make_decision-IsWarranted D laws lib e view now signals ok) [
          | inl (refused, same) ↦ rw same h
          | inr accepted ↦ rw accepted.recorded (update-IsWellFormed e _ _ accepted.confidence h)
        ]

    configured-IsWellFormed :
        (e : Engine F) (cfg : AilleConfig F) (blank : Decision F) (e' : Engine F)
        → set_config e cfg blank ≡ some e'
        → IsWellFormed e
        → IsWellFormed e'
    configured-IsWellFormed e cfg blank e' done (ring, units) =
        let (clean, after) = rw done at (set_config-IsReconfigured e cfg blank ring) in
        (after.ring, keep-HasUnits e e' _ after.confidences units)

    Reach-IsWellFormed :
        {lib : Library F} (e : Engine F) → IsLibrary lib → Reach lib e → IsWellFormed e
    Reach-IsWellFormed _ ok (created cfg) = create-IsWellFormed cfg
    Reach-IsWellFormed {lib = lib} _ ok (decided e view now signals r) =
        decided-IsWellFormed lib e view now signals ok (Reach-IsWellFormed e ok r)
    Reach-IsWellFormed _ ok (cleared e r) = rw (reset-create e) (create-IsWellFormed e.config)
    Reach-IsWellFormed _ ok (configured e cfg blank e' r done) =
        configured-IsWellFormed e cfg blank e' done (Reach-IsWellFormed e ok r)

  -- For every engine that the public operations can lead to, the ring's head lies inside its
  -- window, its count does not pass the window, both buffers keep their 256 entries, and every
  -- confidence held lies in [0, 1].
  pub Reach-IsRing :
      (lib : Library F) (e : Engine F)
      → IsIeee F
      → IsLibrary lib
      → Reach lib e
      → IsRing e × HasUnits e
  Reach-IsRing lib e laws ok r = Reach-IsWellFormed laws e ok r

  -- For every engine that construction, decisions, `reset` and `setConfig` can lead to, the
  -- next `makeDecision` returns either the position zero, or, under a configuration that
  -- `validateConfig` accepts, a position in [-max_position_abs, max_position_abs], whatever
  -- the signals, the safety state and the advisories are.
  pub Reach-IsWithin :
      (lib : Library F) (e : Engine F) (view : View F) (now : ℕ) (signals : List (Signal F))
      → IsIeee F
      → IsIeee D
      → IsWidening F D
      → IsLibrary lib
      → Reach lib e
      → let value = (make_decision D lib e view now signals).0.final_value in
        (value ≡ nought)
        ⊎ ((config_fault e.config ≡ none) × IsWithin e.config.max_position_abs value)
  Reach-IsWithin lib e view now signals laws double_laws widening ok r =
      let (ring, units) = Reach-IsWellFormed laws e ok r in
      elim (Option-cases (config_fault e.config)) [
        | inl clean ↦ inr (
          clean,
          make_decision-IsWithin D laws double_laws widening lib e view now signals ok ring units
              clean,
        )
        | inr (why, fault) ↦
            inl (make_decision-shut D lib e view now signals (inr (inr (inl (λ clean. cc))))).0
      ]
