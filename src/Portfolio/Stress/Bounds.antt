-- ===== src/Portfolio/Stress/Bounds.antt =====
-- What the override keeps of the allocations: the unit interval, and the freeze.
use ailee_finance_unified_ru.Prelude.{
  ℕ, ◌≡◌, Bool, true, false, Option, none, some, List, [], ◌∷◌, refl, arith, get_elem?,
}
use ailee_finance_unified_ru.Float.{Float, IsIeee, ◌≼◌, IsNum, nought, one}
use ailee_finance_unified_ru.Float.Bounds.{All, IsUnit, unit-IsFinite}
use ailee_finance_unified_ru.Portfolio.Assets.{
  AssetAllocation, is_unit-IsUnit, All-map, All-get, get_elem?-map,
}
use ailee_finance_unified_ru.Portfolio.Stress.{
  StressOverrideRules, StressPortfolioState, SafeBaseline, StressTraceStep, previous_of,
  baseline_of, is_risk_bearing, exposure_freeze_active, freeze, dampen, compress, is_compressed,
  adjust, adjusted, is_valid, apply_stress_regime_override,
}
use ailee_finance_unified_ru.Portfolio.Stress.Traced.{
  override-is_valid, apply_stress_regime_override-map,
}

module _ {D : Type 0} ⦃d : Float D⦄ where
  abbrev pub IsHeld : AssetAllocation D → Type 0
  IsHeld a = IsUnit a.allocation

  abbrev pub IsBaseline : SafeBaseline D → Type 0
  IsBaseline b = IsUnit b.baseline_allocation

  module _ (laws : IsIeee D) where
    scaled-IsUnit : (x s : D) → IsUnit x → IsUnit s → IsUnit (d.mul x s)
    scaled-IsUnit x s (lo, hi) (lo', hi') =
        let (low, high) = laws.mul_unit x s lo hi lo' hi' in (low, laws.le_trans _ _ _ high hi)

    -- `(1 - s) * x + s * y` in floating point.
    pub blend-IsUnit :
        (s x y : D)
        → IsUnit s
        → IsUnit x
        → IsUnit y
        → IsUnit (d.add (d.mul (d.sub one s) x) (d.mul s y))
    blend-IsUnit s x y us ux uy =
        let rest = laws.sub_unit s us.0 us.1 in
        let left = laws.mul_unit (d.sub one s) x rest.0 rest.1 ux.0 ux.1 in
        let right = laws.mul_unit s y us.0 us.1 uy.0 uy.1 in
        let right_fin = unit-IsFinite laws _ (scaled-IsUnit s y us uy) in
        let zero_fin = laws.ratio_finite 0 1 (omega arith) (omega arith) in
        let zero_num = laws.num_of_finite _ zero_fin in
        (
          laws.le_trans _ _ _ (laws.add_nought nought zero_num).0
              (laws.add_mono nought _ nought _ left.0 right.0 zero_fin right_fin),
          laws.le_trans _ _ _
              (laws.add_mono _ _ _ _ left.1 right.1 right_fin (unit-IsFinite laws s us))
              (laws.sub_add s us.0 us.1),
        )

    previous_of-IsUnit :
        (asset : ℕ) (allocations : List (AssetAllocation D)) (p : D)
        → All IsHeld allocations
        → previous_of asset allocations ≡ some p
        → IsUnit p
    unfolding previous_of
    previous_of-IsUnit asset [] p held e = ground arith
    previous_of-IsUnit asset (a ∷ allocations) p (h, held) e =
        let later = previous_of-IsUnit asset allocations p held in ground (arith, later)

    baseline_of-IsUnit :
        (asset : ℕ) (baselines : List (SafeBaseline D))
        → All IsBaseline baselines
        → IsUnit (baseline_of asset baselines)
    unfolding baseline_of
    baseline_of-IsUnit asset [] safe = (
      laws.le_refl _ (laws.num_of_finite _ (laws.ratio_finite 0 1 (omega arith) (omega arith))),
      laws.le_of_lt _ _ laws.one_pos,
    )
    baseline_of-IsUnit asset (b ∷ baselines) (h, safe) =
        let later = baseline_of-IsUnit asset baselines safe in ground (arith, later)

    freeze-IsUnit :
        (active : Bool) (previous : Option D) (x : D) (n : ℕ)
        → ((p : D) → previous ≡ some p → IsUnit p)
        → IsUnit x
        → IsUnit (freeze active previous (x, n)).0
    unfolding freeze
    freeze-IsUnit active none x n held u = u
    freeze-IsUnit active (some p) x n held u = let h = held p refl in ground arith

    dampen-IsUnit :
        (active : Bool) (s x : D) (n : ℕ) → IsUnit s → IsUnit x → IsUnit (dampen active s (x, n)).0
    unfolding dampen
    dampen-IsUnit active s x n us u = ground (arith, scaled-IsUnit x s u us)

    compress-IsUnit :
        (active : Bool) (s y x : D) (n : ℕ)
        → IsUnit s
        → IsUnit y
        → IsUnit x
        → IsUnit (compress active s y (x, n)).0
    unfolding compress
    compress-IsUnit active s y x n us uy u = ground (arith, blend-IsUnit s x y us u uy)

    -- The freeze leaves at most the previous allocation.
    freeze-le : (p x : D) (n : ℕ) → IsNum p → IsNum x → (freeze true (some p) (x, n)).0 ≼ p
    unfolding freeze
    freeze-le p x n np nx = ground (arith, laws.le_refl p, laws.le_of_not_lt p x)

    dampen-le :
        (active : Bool) (s x p : D) (n : ℕ)
        → IsUnit s
        → IsUnit x
        → x ≼ p
        → (dampen active s (x, n)).0 ≼ p
    unfolding dampen
    dampen-le active s x p n us u h =
        ground (arith, laws.le_trans (d.mul x s) x p (laws.mul_unit x s u.0 u.1 us.0 us.1).1 h)

module _ {D : Type 0} ⦃d : Float D⦄ (laws : IsIeee D) (rules : StressOverrideRules D)
    (state : StressPortfolioState D) (prev : List (AssetAllocation D))
    (baselines : List (SafeBaseline D)) (failed : Bool) where
  abbrev IsRules : Type 0
  IsRules = IsUnit rules.crash_dampening_factor × IsUnit rules.fallback_lambda

  is_valid-IsRules :
      (allocations : List (AssetAllocation D))
      → is_valid rules state prev baselines failed allocations ≡ true
      → IsRules
  unfolding is_valid
  is_valid-IsRules allocations h = (
    (is_unit-IsUnit laws rules.crash_dampening_factor (ground arith)).1,
    (is_unit-IsUnit laws rules.fallback_lambda (ground arith)).1,
  )

  adjusted-IsHeld :
      IsRules
      → All IsHeld prev
      → All IsBaseline baselines
      → (a : AssetAllocation D) → IsHeld a
      → IsHeld (adjusted rules state prev baselines failed a)
  unfolding adjust
  adjusted-IsHeld units held safe a h =
      compress-IsUnit laws _ _ _ _ _ units.1 (baseline_of-IsUnit laws a.asset_id baselines safe) (
        dampen-IsUnit laws _ _ _ _ units.0 (
          freeze-IsUnit laws _ (previous_of a.asset_id prev) a.allocation 0
            (λ p. previous_of-IsUnit laws a.asset_id prev p held) h))

  -- When the previous, the proposed and the baseline allocations are in [0, 1] and the
  -- override returns, every allocation that it returns is in [0, 1].
  pub apply_stress_regime_override-IsHeld :
      (allocations out : List (AssetAllocation D)) (trace : List (StressTraceStep D))
      → All IsHeld prev
      → All IsBaseline baselines
      → All IsHeld allocations
      → apply_stress_regime_override rules state prev baselines failed allocations
        ≡ some (out, trace)
      → All IsHeld out
  apply_stress_regime_override-IsHeld allocations out trace held safe proposed h =
      let shape =
        (apply_stress_regime_override-map rules state prev baselines failed allocations out trace
          h).0 in
      let units =
        is_valid-IsRules allocations
          (override-is_valid rules state prev baselines failed allocations out trace h) in
      rw (shape) (
        All-map IsHeld IsHeld (adjusted rules state prev baselines failed)
          (adjusted-IsHeld units held safe) allocations proposed)

  adjust-frozen :
      (a : AssetAllocation D) (p : D)
      → IsRules
      → All IsHeld prev
      → IsHeld a
      → is_compressed rules state prev baselines failed ≡ false
      → exposure_freeze_active rules state ≡ true
      → is_risk_bearing a ≡ true
      → previous_of a.asset_id prev ≡ some p
      → (adjust rules state prev baselines failed a).0 ≼ p
  unfolding adjust compress
  adjust-frozen a p units held h open_market active risky found =
      let previous_unit = previous_of-IsUnit laws a.asset_id prev p held found in
      let frozen = freeze true (some p) (a.allocation, 0) in
      rw (open_market, active, risky, found)
        (dampen-le laws _ rules.crash_dampening_factor frozen.0 p frozen.1 units.0
          (freeze-IsUnit laws true (some p) a.allocation 0 (λ q e. ground (arith, e, previous_unit))
            h)
          (freeze-le laws p a.allocation 0
            (laws.num_of_finite _ (unit-IsFinite laws p previous_unit))
            (laws.num_of_finite _ (unit-IsFinite laws a.allocation h))))

  -- When the override returns, the freeze is active, and there is neither a crisis nor a
  -- failed safety check, a risk-bearing asset with a previous allocation keeps its place and
  -- its id and gets at most that allocation, all being in [0, 1] before.
  pub apply_stress_regime_override-IsFrozen :
      (allocations out : List (AssetAllocation D)) (trace : List (StressTraceStep D)) (i : ℕ)
      (a : AssetAllocation D) (p : D)
      → All IsHeld prev
      → All IsHeld allocations
      → apply_stress_regime_override rules state prev baselines failed allocations
        ≡ some (out, trace)
      → is_compressed rules state prev baselines failed ≡ false
      → exposure_freeze_active rules state ≡ true
      → get_elem? allocations i ≡ some a
      → is_risk_bearing a ≡ true
      → previous_of a.asset_id prev ≡ some p
      → (b : AssetAllocation D) × (get_elem? out i ≡ some b)
        × (b.asset_id ≡ a.asset_id)
        × (b.allocation ≼ p)
  apply_stress_regime_override-IsFrozen allocations out trace i a p held proposed h open_market
        active at_i risky found =
      let shape =
        (apply_stress_regime_override-map rules state prev baselines failed allocations out trace
          h).0 in
      let units =
        is_valid-IsRules allocations
          (override-is_valid rules state prev baselines failed allocations out trace h) in
      (
        adjusted rules state prev baselines failed a,
        rw (shape)
            (get_elem?-map (adjusted rules state prev baselines failed) allocations i a at_i),
        refl,
        adjust-frozen a p units held (All-get IsHeld allocations i a proposed at_i) open_market
            active risky found,
      )
