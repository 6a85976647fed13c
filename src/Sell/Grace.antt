-- ===== src/Sell/Grace.antt =====
-- What the grace layer and the sensitivity to manipulation do to an amount: they only lower it.
use ailee_finance_unified_ru.Prelude.{
  ℕ, ◌≤◌, ◌≡◌, Bool, true, false, ◌&&◌, refl, arith, Bool-cases, inl, inr,
}
use ailee_finance_unified_ru.Float.{
  Float, IsIeee, ◌≼◌, ◌≺◌, IsNum, IsFinite, nought, one, max_of, min_of,
}
use ailee_finance_unified_ru.Float.Bounds.{IsUnit, of_nat-IsFinite, clamp_bounds}
use ailee_finance_unified_ru.Runtime.Unified.Bounds.{
  nought-IsUnit, one-IsUnit, mul-IsUnit, ratio-IsUnit,
}
use ailee_finance_unified_ru.Sell.{
  RawSellSignals, ceiling_ratio, adjust_volatility, adjust_manipulation, manipulation_of, add_if,
  manipulation, valid_manipulation,
}

module _ {D : Type 0} ⦃d : Float D⦄ (laws : IsIeee D) where
  -- The larger of 0 and `x`, whether `x` is a number or not.
  pub positive_part : (x b : D) → nought ≼ b → (nought ≺ x → x ≼ b) → max_of nought x ≼ b
  positive_part x b lo h = ground (arith, h)

  pub positive-nonneg : (x : D) → nought ≼ max_of nought x
  positive-nonneg x = ground (arith, laws.le_of_lt nought x, (nought-IsUnit laws).0)

  -- A part of an amount that is not negative.
  part-le : (x s b : D) → IsFinite x → nought ≼ x → IsUnit s → x ≼ b → d.mul x s ≼ b
  part-le x s b fin lo (lo', hi') h = laws.le_trans _ _ _ (laws.mul_le x s fin lo lo' hi').1 h

  -- A part of an amount, or nothing.
  positive_part-le :
      (raw s b : D)
      → IsFinite raw
      → nought ≼ raw
      → IsUnit s
      → raw ≼ b
      → nought ≼ b
      → (nought ≼ max_of nought (d.mul raw s)) × (max_of nought (d.mul raw s) ≼ b)
  positive_part-le raw s b fin lo u hi pos =
      (positive-nonneg _, positive_part _ b pos (λ h. part-le raw s b fin lo u hi))

  mild-IsUnit :
      (vol : D)
      → d.ratio 20 100 ≼ vol
      → vol ≼ d.ratio 50 100
      → IsUnit (d.sub one (d.mul (d.ratio 1 2) (d.sub vol (d.ratio 20 100))))
  mild-IsUnit vol lo hi =
      let fin = laws.ratio_finite 20 100 (omega arith) (omega arith) in
      let low = (ratio-IsUnit laws 20 100 (omega arith) (omega arith)).0 in
      let (pos, less) = laws.sub_bounds vol (d.ratio 20 100) low lo fin in
      let high = laws.le_trans _ _ _ hi (ratio-IsUnit laws 50 100 (omega arith) (omega arith)).1 in
      let (pos', less') =
        mul-IsUnit laws _ _ (ratio-IsUnit laws 1 2 (omega arith) (omega arith))
          (pos, laws.le_trans _ _ _ less high) in
      laws.sub_unit _ pos' less'

  wild-IsUnit :
      (vol : D)
      → d.ratio 50 100 ≼ vol
      → IsUnit (
          max_of
            (d.ratio 20 100)
            (d.sub (d.ratio 85 100) (d.mul (d.ratio 8 10) (d.sub vol (d.ratio 50 100)))))
  wild-IsUnit vol lo =
      let low = ratio-IsUnit laws 20 100 (omega arith) (omega arith) in
      let (pos, less) =
        laws.sub_bounds vol (d.ratio 50 100)
          (ratio-IsUnit laws 50 100 (omega arith) (omega arith)).0 lo
          (laws.ratio_finite 50 100 (omega arith) (omega arith)) in
      let taken =
        laws.mul_nonneg (d.ratio 8 10) _ (laws.ratio_pos 8 10 (omega arith) (omega arith))
          (laws.ratio_finite 8 10 (omega arith) (omega arith)) pos in
      let rest =
        laws.sub_le (d.ratio 85 100) _ (laws.ratio_finite 85 100 (omega arith) (omega arith))
          taken in
      let high =
        laws.le_trans _ _ _ rest (ratio-IsUnit laws 85 100 (omega arith) (omega arith)).1 in
      let y = d.sub (d.ratio 85 100) (d.mul (d.ratio 8 10) (d.sub vol (d.ratio 50 100))) in
      elim (Bool-cases (d.lt (d.ratio 20 100) y)) [
        | inl above ↦ rw (above) (laws.le_trans _ _ _ low.0 (laws.le_of_lt _ _ above), high)
        | inr below ↦ rw (below) low
      ]

  -- The grace layer takes away only.
  pub adjust_volatility-le :
      (volatility raw b : D)
      → IsFinite raw
      → nought ≼ raw
      → raw ≼ b
      → nought ≼ b
      → (nought ≼ adjust_volatility volatility raw) × (adjust_volatility volatility raw ≼ b)
  unfolding adjust_volatility
  adjust_volatility-le volatility raw b fin lo hi pos =
      let vol = max_of nought volatility in
      let num = (laws.num_of_le _ _ (positive-nonneg volatility)).1 in
      let num_of = λ (n : ℕ). λ (small : n ≤ 100).
        laws.num_of_finite (d.ratio n 100) (laws.ratio_finite n 100 (omega arith) (omega arith)) in
      elim (Bool-cases (d.le vol (d.ratio 20 100))) [
        | inl calm ↦ rw (calm) (lo, hi)
        | inr stirred ↦ elim (Bool-cases (d.le vol (d.ratio 50 100))) [
          | inl mild ↦
              rw (stirred, mild)
                (positive_part-le raw _ b fin lo
                  (mild-IsUnit vol
                    (laws.le_of_lt _ _
                      (laws.lt_of_not_le _ _ num (num_of 20 (omega arith)) stirred))
                    mild)
                  hi pos)
          | inr wild ↦
              rw (stirred, wild)
                (positive_part-le raw _ b fin lo
                  (wild-IsUnit vol
                    (laws.le_of_lt _ _ (laws.lt_of_not_le _ _ num (num_of 50 (omega arith)) wild)))
                  hi pos)
        ]
      ]

  less-IsUnit :
      (manip : D)
      → nought ≺ manip
      → manip ≼ one
      → IsUnit (max_of nought (d.sub one (d.mul (d.ratio 1 2) manip)))
  less-IsUnit manip pos hi =
      let (lo', hi') =
        mul-IsUnit laws _ manip (ratio-IsUnit laws 1 2 (omega arith) (omega arith))
          (laws.le_of_lt _ _ pos, hi) in
      let (lo'', hi'') = laws.sub_unit _ lo' hi' in
      (positive-nonneg _, positive_part _ one (one-IsUnit laws).0 (λ h. hi''))

  trusted-IsUnit :
      (consensus : D)
      → d.lt consensus (d.ratio 70 100) ≡ true
      → IsUnit (max_of (d.ratio 1 10) consensus)
  trusted-IsUnit consensus less =
      let low = ratio-IsUnit laws 1 10 (omega arith) (omega arith) in
      let high =
        laws.le_trans _ _ _ (laws.le_of_lt _ _ less)
          (ratio-IsUnit laws 70 100 (omega arith) (omega arith)).1 in
      elim (Bool-cases (d.lt (d.ratio 1 10) consensus)) [
        | inl above ↦ rw (above) (laws.le_trans _ _ _ low.0 (laws.le_of_lt _ _ above), high)
        | inr below ↦ rw (below) low
      ]

  -- So does the sensitivity to manipulation.
  pub adjust_manipulation-le :
      (position manip consensus allowed b : D)
      → manip ≼ one
      → IsFinite allowed
      → nought ≼ allowed
      → allowed ≼ b
      → adjust_manipulation position manip consensus allowed ≼ b
  unfolding adjust_manipulation
  adjust_manipulation-le position manip consensus allowed b small fin lo hi =
      elim (Bool-cases (d.lt nought manip)) [
        | inr clean ↦ rw (clean) hi
        | inl pos ↦
            let s = max_of nought (d.sub one (d.mul (d.ratio 1 2) manip)) in
            let u = less-IsUnit manip pos small in
            let (low, less) = laws.mul_le allowed s fin lo u.0 u.1 in
            let part = laws.le_trans _ _ _ less hi in
            elim (Bool-cases (
              d.lt (d.mul position (d.ratio 3 10)) (d.mul allowed s)
              && d.lt consensus (d.ratio 70 100))) [
                | inr kept ↦ rw (pos, kept) part
                | inl cut ↦
                    let doubted : d.lt consensus (d.ratio 70 100) ≡ true = ground arith in
                    let part_fin =
                      laws.finite_between nought _ allowed (of_nat-IsFinite laws 0 (omega arith))
                        fin low less in
                    rw (pos, cut)
                      (part-le (d.mul allowed s) (max_of (d.ratio 1 10) consensus) b part_fin low
                        (trusted-IsUnit consensus doubted) part)
              ]
      ]

  -- The score of the manipulation is a number, so its clamp is at most 1.
  add_if-IsNum :
      (b : Bool) (x sum : D) → IsNum sum → (b ≡ true → IsFinite x) → IsNum (add_if b x sum)
  add_if-IsNum true x sum num fin = laws.add_num sum x num (fin refl)
  add_if-IsNum false x sum num fin = num

  bounded_by-IsFinite :
      (limit x r : D)
      → IsFinite x
      → IsUnit r
      → IsFinite limit
      → nought ≼ limit
      → nought ≺ x
      → IsFinite (min_of limit (d.mul x r))
  bounded_by-IsFinite limit x r fin (lo, hi) fin_limit lo_limit pos =
      let low = laws.mul_nonneg x r pos fin lo in
      ground (
        arith,
        fin_limit,
        laws.finite_between nought (d.mul x r) limit (of_nat-IsFinite laws 0 (omega arith))
            fin_limit low,
        laws.le_of_lt (d.mul x r) limit,
      )

  manipulation-IsNum : (s : RawSellSignals D) → valid_manipulation s ≡ true → IsNum (manipulation s)
  manipulation-IsNum s h =
      let part =
        λ (n : ℕ). λ (small : n ≤ 100). laws.ratio_finite n 100 (omega arith) (omega arith) in
      let zero_num = laws.num_of_finite _ (of_nat-IsFinite laws 0 (omega arith)) in
      add_if-IsNum _ _ _
        (add_if-IsNum _ _ _
          (add_if-IsNum _ _ _ (add_if-IsNum _ _ _ zero_num (λ e. part 35 (omega arith))) (λ e.
            bounded_by-IsFinite _ s.bid_liquidity_drop _ (ground arith)
              (ratio-IsUnit laws 1 2 (omega arith) (omega arith)) (part 35 (omega arith))
              (ratio-IsUnit laws 35 100 (omega arith) (omega arith)).0 e))
          (λ e. part 25 (omega arith)))
        (λ e.
          bounded_by-IsFinite _ s.spread_widening _ (ground arith)
            (ratio-IsUnit laws 4 10 (omega arith) (omega arith)) (part 20 (omega arith))
            (ratio-IsUnit laws 20 100 (omega arith) (omega arith)).0 e)

  pub manipulation_of-le : (s : RawSellSignals D) → manipulation_of s ≼ one
  unfolding manipulation_of
  manipulation_of-le s = elim (Bool-cases (valid_manipulation s)) [
    | inr bad ↦ rw (bad) (one-IsUnit laws).1
    | inl good ↦
        rw (good) (clamp_bounds laws _ nought one (manipulation-IsNum s good) (one-IsUnit laws).0).1
  ]

  pub ceiling_ratio-IsUnit : (level : ℕ) → IsUnit (ceiling_ratio {D = D} level)
  ceiling_ratio-IsUnit level = ground (
    arith,
    one-IsUnit laws,
    ratio-IsUnit laws 6 10 (omega arith) (omega arith),
    ratio-IsUnit laws 3 10 (omega arith) (omega arith),
    ratio-IsUnit laws 1 10 (omega arith) (omega arith),
  )
