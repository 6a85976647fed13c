-- ===== src/Engine/Fallback/Bound.antt =====
-- `getFallbackValue` of aille.hpp never leaves the position envelope.
use native.Mathlib.Nat.{add-mod_left, mod-eq_of_lt, add-zero}
use native.Mathlib.Decide.{dec_lt}
use ailee_finance_unified_ru.Prelude.Ring.{round}
use ailee_finance_unified_ru.Prelude.{
  ℕ, zero, suc, ◌+◌, ◌-◌, ◌%◌, ◌≤◌, ◌<◌, [], ◌∷◌, get_or, ◌≡◌, ◌≢◌, Bool, true, false, List, arith,
  length, take, length-take, ◌==◌, Bool-cases, if◌then◌else◌, inl, inr, ◌∙◌,
}
use ailee_finance_unified_ru.Float.{
  Float, IsIeee, Widening, IsWidening, IsFinite, nought, one, of_nat, clamp, sum_from,
}
use ailee_finance_unified_ru.Float.Bounds.{
  All, IsUnit, IsWithin, unit-IsFinite, of_nat-IsFinite, clamp_bounds, clamp-IsWithin,
  nought-IsWithin, mean-IsUnit,
}
use ailee_finance_unified_ru.Engine.{Engine}
use ailee_finance_unified_ru.Engine.Config.{IsSane}
use ailee_finance_unified_ru.Engine.Fallback.{
  window_of, fallback_scale, get_fallback_value, calculate_fallback_value,
}
use ailee_finance_unified_ru.Engine.Fallback.History.{IsRing, window_of_pos, samples}

-- Index `j` of the buffer is among the `c` indices that are read, where `h` is the head.
place :
    (h c w j : ℕ)
    → h < w
    → c ≤ w
    → (c < w → h ≡ c)
    → j < c
    → (i : ℕ) × (i < c) × ((h + w - c + i) % w ≡ j)
place h c w j low fits start inside = elim (dec_lt c w) [
  | yes room ↦
      let shift : h + w - c + j ≡ w + j = omega (arith, start room) in
      (j, inside, rw shift (add-mod_left w j ∙ mod-eq_of_lt (omega arith)))
  | no full ↦ elim (dec_lt j h) [
    | yes before ↦
        let shift : h + w - c + (j + w - h) ≡ w + j = omega arith in
        (j + w - h, omega arith, rw shift (add-mod_left w j ∙ mod-eq_of_lt (omega arith)))
    | no after ↦
        let shift : h + w - c + (j - h) ≡ j = omega arith in
        (j - h, omega arith, rw shift (mod-eq_of_lt (omega arith)))
  ]
]

module _ {F : Type 0} ⦃f : Float F⦄ where
  -- Every confidence that the ring holds lies in [0, 1].
  abbrev pub HasUnits : Engine F → Type 0
  HasUnits e = All IsUnit (samples e e.confidence_buffer)

  module _ (P : F → Type 0) (buf : List F) where
    All-round :
        (w t n i : ℕ) → All P (round nought w buf t n) → i < n → P (get_or buf ((t + i) % w) nought)
    All-round w t zero i h lt = absurd (omega arith)
    All-round w t (suc n) zero (h, hs) lt = rw (add-zero t) h
    All-round w t (suc n) (suc i) (h, hs) lt =
        let here : t + 1 + i ≡ t + suc i = omega arith in
        rw (← here) (All-round w (t + 1) n i hs (omega arith))

  All-take :
      (P : F → Type 0) (buf : List F) (n : ℕ)
      → n ≤ length buf
      → ((j : ℕ) → j < n → P (get_or buf j nought))
      → All P (take n buf)
  All-take P buf zero le h = tt
  All-take P [] (suc n) le h = absurd (omega arith)
  All-take P (x ∷ buf) (suc n) le h =
      (h 0 (omega arith), All-take P buf n (omega arith) (λ j lt. h (suc j) (omega arith)))

  -- What the sum of the moving average reads is what the ring holds.
  held :
      (P : F → Type 0) (e : Engine F)
      → IsRing e
      → All P (samples e e.confidence_buffer)
      → All P (take e.fallback_count e.confidence_buffer)
  held P e r h =
      let w = window_of e.config in
      let (pos_w, le_w) = window_of_pos e.config in
      All-take P e.confidence_buffer e.fallback_count (omega (arith, r.confidences, r.count_in))
        (λ j inside.
          let (i, below, here) =
            place e.fallback_head e.fallback_count w j r.head_in r.count_in r.start inside in
          rw here at (
            All-round P e.confidence_buffer w (e.fallback_head + w - e.fallback_count)
              e.fallback_count i h below))

module _ {F : Type 0} (D : Type 0) ⦃f : Float F⦄ ⦃d : Float D⦄ ⦃w : Widening F D⦄ where
  module _ (laws : IsIeee F) (double_laws : IsIeee D) (widening : IsWidening F D) where
    open laws use {num_of_finite, le_of_lt, mul_shrink, ratio_le, le_trans, neg_nought}

    -- The moving average that a dynamic scale starts from.
    abbrev mean_confidence : Engine F → F
    mean_confidence e =
        f.div (sum_from nought (take e.fallback_count e.confidence_buffer))
          (of_nat e.fallback_count)

    mean_confidence-IsUnit :
        (e : Engine F) → IsRing e → HasUnits e → e.fallback_count ≢ 0 → IsUnit (mean_confidence e)
    mean_confidence-IsUnit e r u some_count =
        let (_, small) = window_of_pos e.config in
        let len : length (take e.fallback_count e.confidence_buffer) ≡ e.fallback_count =
          omega
            (arith, length-take e.fallback_count e.confidence_buffer, r.confidences, r.count_in) in
        mean-IsUnit laws _ e.fallback_count len some_count (omega arith) (held IsUnit e r u)

    dynamic-IsUnit :
        (alpha beta ma : F)
        → IsFinite alpha
        → IsFinite beta
        → IsFinite ma
        → let candidate = d.add (d.mul (w.widen alpha) (w.widen ma)) (w.widen beta) in
          IsUnit (w.narrow (clamp candidate (d.ratio 1 10) (d.ratio 1 2)))
    dynamic-IsUnit alpha beta ma fin_a fin_b fin_ma =
        let num =
          double_laws.add_num _ _
            (double_laws.mul_num _ _ (widening.widen_finite alpha fin_a)
              (widening.widen_finite ma fin_ma))
            (widening.widen_finite beta fin_b) in
        let candidate = d.add (d.mul (w.widen alpha) (w.widen ma)) (w.widen beta) in
        let (lo, hi) =
          clamp_bounds double_laws candidate (d.ratio 1 10) (d.ratio 1 2) num
            (double_laws.ratio_le 1 10 1 2 (omega arith) (omega arith) (omega arith)) in
        widening.narrow_unit _
          (double_laws.le_trans _ _ _
            (double_laws.ratio_le 0 1 1 10 (omega arith) (omega arith) (omega arith)) lo)
          (double_laws.le_trans _ _ _ hi
            (double_laws.ratio_le 1 2 1 1 (omega arith) (omega arith) (omega arith)))

    fallback_scale-IsUnit :
        (e : Engine F)
        → IsSane e.config
        → IsFinite (mean_confidence e)
        → IsUnit (fallback_scale D e)
    unfolding fallback_scale
    fallback_scale-IsUnit e s fin_ma = elim (Bool-cases e.config.enable_dynamic_fallback) [
      | inl dynamic ↦ rw dynamic (
          dynamic-IsUnit e.config.fallback_alpha e.config.fallback_beta (mean_confidence e)
            s.alpha_finite s.beta_finite fin_ma)
      | inr fixed ↦ rw fixed (s.scale_nonneg, s.scale_le)
    ]

    -- `sign` is 1 or -1.
    sign-IsFinite : (b : Bool) → IsFinite (if b then one else f.neg one)
    sign-IsFinite true = of_nat-IsFinite laws 1 (omega arith)
    sign-IsFinite false = laws.neg_finite _ (of_nat-IsFinite laws 1 (omega arith))

    -- With a configuration in range, a well-formed ring and its confidences in [0, 1], what a
    -- refused round falls back to lies in [-max_position_abs, max_position_abs], with the
    -- dynamic scale or without it.
    pub get_fallback_value-IsWithin :
        (e : Engine F)
        → IsSane e.config
        → IsRing e
        → HasUnits e
        → IsWithin e.config.max_position_abs (get_fallback_value D e)
    unfolding get_fallback_value
    get_fallback_value-IsWithin e s r u =
        let m_nonneg = le_of_lt _ _ s.position_pos in
        elim (Bool-cases (e.fallback_count == 0)) [
          | inl empty ↦ rw empty (nought-IsWithin laws e.config.max_position_abs m_nonneg)
          | inr held ↦
              let some_count : e.fallback_count ≢ 0 = ground arith in
              let ma = unit-IsFinite laws _ (mean_confidence-IsUnit e r u some_count) in
              let (scale_lo, scale_hi) = fallback_scale-IsUnit e s ma in
              let sign = sign-IsFinite (f.le nought (calculate_fallback_value e)) in
              rw held (
                clamp-IsWithin laws _ e.config.max_position_abs
                  (num_of_finite _ (mul_shrink _ _ sign scale_lo scale_hi)) m_nonneg)
        ]
