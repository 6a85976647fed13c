-- ===== src/Sell/Capped.antt =====
-- How much the governor lets go: never less than nothing, never more than its level's share.
use ailee_finance_unified_ru.Prelude.{ℕ, Bool, not, ◌&&◌, ◌||◌, arith, Bool-cases, inl, inr, ◌==◌}
use ailee_finance_unified_ru.Float.{
  Float, IsIeee, Widening, IsWidening, ◌≼◌, ◌≺◌, IsFinite, nought, max_of,
}
use ailee_finance_unified_ru.Float.Bounds.{IsUnit, of_nat-IsFinite}
use ailee_finance_unified_ru.Runtime.Unified.Bounds.{ratio-IsUnit}
use ailee_finance_unified_ru.Prelude.Bytes.{same}
use ailee_finance_unified_ru.Sell.{
  RawSellSignals, ceiling_ratio, manipulation_of, raw_allowed_of, ceiling_factor, default_config,
  evaluate_sell, decide, is_bullish,
}
use ailee_finance_unified_ru.Sell.Grace.{
  positive_part, positive-nonneg, adjust_volatility-le, adjust_manipulation-le, manipulation_of-le,
  ceiling_ratio-IsUnit,
}

module _ {F D L : Type 0} ⦃f : Float F⦄ ⦃d : Float D⦄ ⦃l : Float L⦄ ⦃w : Widening F D⦄
    ⦃v : Widening D L⦄ (narrow_laws : IsIeee F) (laws : IsIeee D) (widening : IsWidening F D)
    (sqrt : L → L) where
  ceiling_factor-IsUnit : IsUnit (ceiling_factor (default_config {F = F}))
  unfolding ceiling_factor same
  ceiling_factor-IsUnit = ratio-IsUnit narrow_laws 80 100 (omega arith) (omega arith)

  raw_allowed_of-le :
      (bullish : Bool) (level : ℕ) (position : D)
      → IsFinite position
      → nought ≼ position
      → (nought ≼ raw_allowed_of F bullish level position)
        × (raw_allowed_of F bullish level position ≼ d.mul position (ceiling_ratio level))
  unfolding raw_allowed_of
  raw_allowed_of-le bullish level position fin lo =
      let c = ceiling_ratio-IsUnit laws level in
      let (low, less) = laws.mul_le position (ceiling_ratio level) fin lo c.0 c.1 in
      let raw_fin =
        laws.finite_between nought _ position (of_nat-IsFinite laws 0 (omega arith)) fin low less in
      let u = widening.widen_unit _ ceiling_factor-IsUnit.0 ceiling_factor-IsUnit.1 in
      elim (Bool-cases (bullish && not (level == 3))) [
        | inr plain ↦ rw (plain) (low, laws.le_refl _ (laws.num_of_le _ _ low).1)
        | inl scaled ↦
            rw (scaled) (laws.mul_le (d.mul position (ceiling_ratio level)) _ raw_fin low u.0 u.1)
      ]

  decide-le :
      (s : RawSellSignals D)
      → IsFinite s.position_size
      → nought ≺ s.position_size
      → (decide F sqrt s).allowed_sell_amount
        ≼ max_of nought (d.mul s.position_size (ceiling_ratio (decide F sqrt s).level))
  decide-le s fin pos =
      let lo = laws.le_of_lt _ _ pos in
      let level = (decide F sqrt s).level in
      let c = ceiling_ratio-IsUnit laws level in
      let base = d.mul s.position_size (ceiling_ratio level) in
      let b = max_of nought base in
      let (low, less) = laws.mul_le s.position_size (ceiling_ratio level) fin lo c.0 c.1 in
      let base_fin =
        laws.finite_between nought _ _ (of_nat-IsFinite laws 0 (omega arith)) fin low less in
      let base_le : base ≼ b = ground (
        arith,
        laws.le_refl base,
        low,
        laws.num_of_finite base base_fin,
        laws.le_of_not_lt nought base,
        laws.num_of_le nought base low,
      ) in
      let (raw_lo, raw_hi) = raw_allowed_of-le (is_bullish F s) level s.position_size fin lo in
      let raw_fin =
        laws.finite_between nought _ _ (of_nat-IsFinite laws 0 (omega arith)) base_fin raw_lo
          raw_hi in
      let (vol_lo, vol_hi) = adjust_volatility-le laws s.volatility _ _ raw_fin raw_lo raw_hi low in
      let vol_fin =
        laws.finite_between nought _ _ (of_nat-IsFinite laws 0 (omega arith)) base_fin vol_lo
          vol_hi in
      let last =
        adjust_manipulation-le laws s.position_size (manipulation_of s)
          (decide F sqrt s).consensus_score _ base (manipulation_of-le laws s) vol_fin vol_lo
          vol_hi in
      positive_part laws _ b (positive-nonneg laws base) (λ h. laws.le_trans _ _ _ last base_le)

  -- For a finite position, whatever the other signals are, the amount that may be sold is not
  -- negative and at most the position times the ceiling of the decision's level, or 0 where
  -- that is negative.
  pub evaluate_sell-IsCapped :
      (s : RawSellSignals D)
      → IsFinite s.position_size
      → (nought ≼ (evaluate_sell F sqrt s).allowed_sell_amount)
        × ((evaluate_sell F sqrt s).allowed_sell_amount
            ≼ max_of nought (d.mul s.position_size (ceiling_ratio (evaluate_sell F sqrt s).level)))
  unfolding evaluate_sell
  evaluate_sell-IsCapped s fin =
      let num = laws.num_of_finite _ fin in
      let zero_num = laws.num_of_finite _ (of_nat-IsFinite laws 0 (omega arith)) in
      elim (Bool-cases (not s.intent_flag || d.le s.position_size nought)) [
        | inl refused ↦
            rw (refused) (
              positive-nonneg laws _,
              laws.le_refl _ (laws.num_of_le _ _ (positive-nonneg laws _)).1,
            )
        | inr taken ↦ rw (taken) (
          positive-nonneg laws _,
          decide-le s fin (laws.lt_of_not_le _ _ num zero_num (ground arith)),
        )
      ]
