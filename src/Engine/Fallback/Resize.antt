-- ===== src/Engine/Fallback/Resize.antt =====
-- `setConfig` of aille.hpp repacks the ring: what is kept of it, and when nothing changes.
use native.Mathlib.Nat.{add-sub_cancel, mod-eq_of_lt, mod-lt, mod_self, zero-mod}
use native.Mathlib.Decide.{dec_lt}
use mathlib.Core.Path.{ap₂}
use ailee_finance_unified_ru.Prelude.{
  ℕ, zero, suc, ◌+◌, ◌-◌, ◌%◌, ◌≤◌, ◌<◌, ◌≡◌, refl, ap, ◌∙◌, min, true, false, List, ◌∷◌, arith,
  length, get_or, ltb, ◌==◌, if◌then◌else◌, Option, some, none, Bool-cases, Option-cases, inl, inr,
  ==_iff, sym, ◌≢◌,
}
use ailee_finance_unified_ru.Prelude.Ring.{round, length-round, round_congr, drop-round}
use ailee_finance_unified_ru.Prelude.Int.{ℤ, pos, ltb_ℤ}
use ailee_finance_unified_ru.Float.{Float, nought}
use ailee_finance_unified_ru.Engine.{AilleConfig, Engine, Decision, Reason, max_fallback_window}
use ailee_finance_unified_ru.Engine.Config.{config_fault, validate_config}
use ailee_finance_unified_ru.Engine.Fallback.{
  window_of, repack, repacked, resize, set_config, to_size, max_ℤ,
}
use ailee_finance_unified_ru.Engine.Fallback.History.{keep, IsRing, samples, window_of_pos}

window_accepted :
    (z : ℤ)
    → ltb_ℤ z (pos 1) ≡ false
    → min (to_size z) max_fallback_window ≡ min (to_size (max_ℤ (pos 1) z)) max_fallback_window
window_accepted z h = ground arith

module _ {F : Type 0} ⦃f : Float F⦄ where
  module _ (buf : List F) (h w ret : ℕ) where
    length-repack : (left i : ℕ) → length (repack buf h w ret left i) ≡ left
    unfolding repack
    length-repack zero i = refl
    length-repack (suc left) i = ap suc (length-repack left (i + 1))

    get_or-repack :
        (left i j : ℕ)
        → j < left
        → i + j < ret
        → get_or (repack buf h w ret left i) j nought
          ≡ get_or buf ((h + w - ret + (i + j)) % w) nought
    unfolding repack
    get_or-repack zero i j lt inside = absurd (omega arith)
    get_or-repack (suc left) i zero lt inside =
        let here : ltb i ret ≡ true = ground arith in
        rw here (ap (λ k. get_or buf ((h + w - ret + k) % w) nought) (omega arith))
    get_or-repack (suc left) i (suc j) lt inside =
        get_or-repack left (i + 1) j (omega arith) (omega arith)
        ∙ ap (λ k. get_or buf ((h + w - ret + k) % w) nought) (omega arith)

    -- The repacked ring read from its start is the old one read from the first value retained.
    round-repack :
        (w' j k : ℕ)
        → j + k ≤ ret
        → ret ≤ w'
        → w' ≤ max_fallback_window
        → round nought w' (repack buf h w ret max_fallback_window 0) j k
          ≡ round nought w buf (h + w - ret + j) k
    round-repack w' j zero inside fits small = refl
    round-repack w' j (suc k) inside fits small =
        let place : j % w' ≡ j = mod-eq_of_lt (omega arith) in
        ap₂ ◌∷◌
          (rw place (
            get_or-repack max_fallback_window 0 j (omega arith) (omega arith)
            ∙ ap (λ i. get_or buf ((h + w - ret + i) % w) nought) (omega arith)))
          (round-repack w' (j + 1) k (omega arith) fits small
            ∙ ap (λ t. round nought w buf t k) (omega arith))

  -- The same read from where the engine starts.
  round-resized :
      (buf : List F) (h w c w' : ℕ)
      → c ≤ w
      → h < w
      → 0 < w'
      → w' ≤ max_fallback_window
      → let ret = min c w' in
        round nought w' (repack buf h w ret max_fallback_window 0) (ret % w' + w' - ret) ret
        ≡ keep w' (round nought w buf (h + w - c) c)
  round-resized buf h w c w' fits low some_room small =
      let ret = min c w' in
      let new : List F = repack buf h w ret max_fallback_window 0 in
      round_congr nought w' new _ 0 ret (from_start ret (omega arith))
      ∙ round-repack buf h w ret w' 0 ret (omega arith) (omega arith) small
      ∙ rw (length-round nought w buf (h + w - c) c, drop-round nought w buf)
          (ap₂ (round nought w buf) (omega arith) (omega arith))
    where
      from_start : (ret : ℕ) → ret ≤ w' → (ret % w' + w' - ret) % w' ≡ 0 % w'
      from_start ret le = elim (dec_lt ret w') [
        | yes more ↦
            let shift : ret + w' - ret ≡ w' = omega arith in
            rw (mod-eq_of_lt more, shift, mod_self, zero-mod)
        | no end ↦ let last : ret ≡ w' = omega arith in rw (last, mod_self, add-sub_cancel)
      ]

  -- `keep` of what already fits.
  keep-round :
      (buf : List F) (w t c : ℕ) → c ≤ w → keep w (round nought w buf t c) ≡ round nought w buf t c
  keep-round buf w t c fits =
      let none_over : c - w ≡ 0 = omega arith in rw (length-round nought w buf t c, none_over)

  set_config-refused :
      (e : Engine F) (cfg : AilleConfig F) (blank : Decision F) {why : Reason}
      → config_fault cfg ≡ some why
      → set_config e cfg blank ≡ none
  unfolding set_config validate_config
  set_config-refused e cfg blank h = ground arith

  window_tested :
      (cfg : AilleConfig F)
      → config_fault cfg ≡ none
      → ltb_ℤ cfg.fallback_window_size (pos 1) ≡ false
  unfolding config_fault
  window_tested cfg h = ground arith

  new_window :
      (cfg : AilleConfig F)
      → config_fault cfg ≡ none
      → min (to_size cfg.fallback_window_size) max_fallback_window ≡ window_of cfg
  unfolding window_of
  new_window cfg h = window_accepted cfg.fallback_window_size (window_tested cfg h)

  -- What an accepted configuration makes of the engine.
  abbrev applied : Engine F → AilleConfig F → Engine F
  applied e cfg =
      record (if window_of cfg == window_of e.config then e else resize e (window_of cfg)) {
        config = cfg;
      }

  set_config-applied :
      (e : Engine F) (cfg : AilleConfig F) (blank : Decision F)
      → config_fault cfg ≡ none
      → set_config e cfg blank ≡ some (applied e cfg)
  unfolding set_config validate_config
  set_config-applied e cfg blank h = rw (h, validate_config, set_config) (rw (new_window cfg h))

  -- The engine after `setConfig`, against the one before.
  pub record IsReconfigured (e : Engine F) (cfg : AilleConfig F) (e' : Engine F) : Type 0 where
    pub config : e'.config ≡ cfg
    pub ring : IsRing e'
    pub values : samples e' e'.fallback_buffer ≡ keep (window_of cfg) (samples e e.fallback_buffer)
    pub confidences :
        samples e' e'.confidence_buffer ≡ keep (window_of cfg) (samples e e.confidence_buffer)

  resize-IsReconfigured :
      (e : Engine F) (cfg : AilleConfig F)
      → IsRing e
      → IsReconfigured e cfg (record (resize e (window_of cfg)) { config = cfg })
  unfolding resize repacked
  resize-IsReconfigured e cfg r =
      let w = window_of e.config in
      let w' = window_of cfg in
      let h = e.fallback_head in
      let c = e.fallback_count in
      let (pos_w, le_w) = window_of_pos cfg in
      record {
        config = refl;
        ring = record {
          values = length-repack e.fallback_buffer h w (min c w') max_fallback_window 0;
          confidences = length-repack e.confidence_buffer h w (min c w') max_fallback_window 0;
          head_in = mod-lt (min c w') pos_w;
          count_in = omega arith;
          start = λ less. mod-eq_of_lt less;
        };
        values = round-resized e.fallback_buffer h w c w' r.count_in r.head_in pos_w le_w;
        confidences = round-resized e.confidence_buffer h w c w' r.count_in r.head_in pos_w le_w;
      }

  same-IsReconfigured :
      (e : Engine F) (cfg : AilleConfig F)
      → IsRing e
      → window_of cfg ≡ window_of e.config
      → IsReconfigured e cfg (record e { config = cfg })
  same-IsReconfigured e cfg r same =
      let w = window_of e.config in
      record {
        config = refl;
        ring = record {
          values = r.values;
          confidences = r.confidences;
          head_in = rw same r.head_in;
          count_in = rw same r.count_in;
          start = rw same r.start;
        };
        values = rw same (sym (keep-round e.fallback_buffer w _ e.fallback_count r.count_in));
        confidences =
            rw same (sym (keep-round e.confidence_buffer w _ e.fallback_count r.count_in));
      }

  applied-IsReconfigured :
      (e : Engine F) (cfg : AilleConfig F) → IsRing e → IsReconfigured e cfg (applied e cfg)
  applied-IsReconfigured e cfg r = elim (Bool-cases (window_of cfg == window_of e.config)) [
    | inl same ↦ rw same (same-IsReconfigured e cfg r ((==_iff _ _).0 same))
    | inr other ↦ rw other (resize-IsReconfigured e cfg r)
  ]

  abbrev pub Outcome : Engine F → AilleConfig F → Option (Engine F) → Type 0
  Outcome e cfg none = config_fault cfg ≢ none
  Outcome e cfg (some e') = (config_fault cfg ≡ none) × IsReconfigured e cfg e'

  -- On a well-formed ring, `setConfig` throws exactly when `validateConfig` refuses; otherwise
  -- it installs the configuration, keeps the ring well formed, and keeps of the accepted
  -- values and confidences exactly the newest that fit the new window, in order.
  pub set_config-IsReconfigured :
      (e : Engine F) (cfg : AilleConfig F) (blank : Decision F)
      → IsRing e
      → Outcome e cfg (set_config e cfg blank)
  set_config-IsReconfigured e cfg blank r = elim (Option-cases (config_fault cfg)) [
    | inl clean ↦ rw (set_config-applied e cfg blank clean) (clean, applied-IsReconfigured e cfg r)
    | inr (why, fault) ↦ rw (set_config-refused e cfg blank fault) (λ clean. cc)
  ]
