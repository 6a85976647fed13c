-- ===== src/Portfolio/Arbitration/Weights.antt =====
-- The weights on the ladder: none is negative, none passes 32, and none passes their sum.
use mathlib.Core.Option.{some-injective}
use ailee_finance_unified_ru.Prelude.{
  ℕ, zero, suc, ◌+◌, ◌*◌, ◌≤◌, ◌<◌, ◌≡◌, true, some, List, [], ◌∷◌, refl, arith, map, take, length,
  get_elem?,
}
use ailee_finance_unified_ru.Float.{
  Float, IsIeee, ◌≼◌, IsNum, IsFinite, nought, one, of_nat, sum_from,
}
use ailee_finance_unified_ru.Float.Bounds.{
  All, IsUnit, of_nat-IsFinite, unit-IsFinite, clamp_bounds,
}
use ailee_finance_unified_ru.Portfolio.Assets.{all_of}
use ailee_finance_unified_ru.Portfolio.Arbitration.{
  Advisory, Candidate, scale_in, rate, weigh, advance, is_evidence, normalize_risk, unit_clamp,
}
use ailee_finance_unified_ru.Portfolio.Arbitration.Rise.{rise}

-- The bound on a weight after `k` stages, each of which at most doubles it.
abbrev doubled : ℕ → ℕ
doubled zero = 1
doubled (suc k) = doubled k * 2

doubled-le : (k : ℕ) → k ≤ 5 → doubled k ≤ 32
doubled-le zero h = omega arith
doubled-le (suc zero) h = omega arith
doubled-le (suc (suc zero)) h = omega arith
doubled-le (suc (suc (suc zero))) h = omega arith
doubled-le (suc (suc (suc (suc zero)))) h = omega arith
doubled-le (suc (suc (suc (suc (suc zero))))) h = omega arith
doubled-le (suc (suc (suc (suc (suc (suc k)))))) h = omega (arith, h)

module _ {D : Type 0} ⦃d : Float D⦄ where
  -- A candidate whose levels are in the unit interval, with its weight in [0, 2 ^ k].
  abbrev IsLevelled : Candidate D → Type 0
  IsLevelled c =
      IsUnit c.safety_hurdle
      × IsUnit c.liquidity_factor
      × IsUnit c.reg_cap
      × IsUnit c.risk_score
      × IsUnit c.return_score

  abbrev pub IsUpTo : ℕ → D → Type 0
  IsUpTo n x = (nought ≼ x) × (x ≼ of_nat n)

  module _ (laws : IsIeee D) where
    ratio-IsUpTo : (n m : ℕ) → 0 < m → n ≤ m * 2 → IsUpTo 2 (d.ratio n m)
    ratio-IsUpTo n m pos h = (
      laws.ratio_le 0 1 n m (omega arith) pos (omega arith),
      laws.ratio_le n m 2 1 pos (omega arith) (omega (arith, h)),
    )

    unit-IsUpTo : (x : D) → IsUnit x → IsUpTo 2 x
    unit-IsUpTo x (lo, hi) = (
      lo,
      laws.le_trans _ _ _ hi (laws.ratio_le 1 1 2 1 (omega arith) (omega arith) (omega arith)),
    )

    sum-IsUpTo : (x y : D) → IsUnit x → IsUnit y → IsUpTo 2 (d.add x y)
    sum-IsUpTo x y (lo, hi) (lo', hi') =
        let fin = unit-IsFinite laws y (lo', hi') in
        let zero_fin = of_nat-IsFinite laws 0 (omega arith) in
        (
          laws.le_trans _ _ _ (laws.add_nought nought (laws.num_of_finite _ zero_fin)).0
              (laws.add_mono nought x nought y lo lo' zero_fin fin),
          rw (laws.add_nat 1 1 (omega arith)) at
              (laws.add_mono x one y one hi hi' fin (of_nat-IsFinite laws 1 (omega arith))),
        )

    half_return-IsUpTo : (x : D) → IsUnit x → IsUpTo 2 (d.add (d.ratio 1 2) (d.mul (d.ratio 1 2) x))
    half_return-IsUpTo x u =
        let half : IsUnit (d.ratio 1 2) = (
          laws.ratio_le 0 1 1 2 (omega arith) (omega arith) (omega arith),
          laws.ratio_le 1 2 1 1 (omega arith) (omega arith) (omega arith),
        ) in
        let (lo, hi) = laws.mul_unit (d.ratio 1 2) x half.0 half.1 u.0 u.1 in
        sum-IsUpTo _ _ half (lo, laws.le_trans _ _ _ hi half.1)

    -- A weight times a factor.
    times-IsUpTo :
        (k : ℕ) (w x : D)
        → k ≤ 5
        → IsUpTo (doubled k) w
        → IsUpTo 2 x
        → IsUpTo (doubled (suc k)) (d.mul w x)
    times-IsUpTo k w x small (lo, hi) (lo', hi') =
        laws.mul_nat w x (doubled k) 2 (omega (arith, doubled-le k small)) lo hi lo' hi'

    stays-IsUpTo : (k : ℕ) (w : D) → k ≤ 5 → IsUpTo (doubled k) w → IsUpTo (doubled (suc k)) w
    stays-IsUpTo k w small (lo, hi) = (
      lo,
      laws.le_trans _ _ _ hi (
          laws.ratio_le (doubled k) 1 (doubled (suc k)) 1 (omega arith) (omega arith)
            (omega arith)),
    )

    pub nought-IsUpTo : (n : ℕ) → IsUpTo n nought
    nought-IsUpTo n = (
      laws.le_refl _ (laws.num_of_finite _ (of_nat-IsFinite laws 0 (omega arith))),
      laws.ratio_le 0 1 n 1 (omega arith) (omega arith) (omega arith),
    )

    weigh-IsUpTo :
        (k dimension : ℕ) (c : Candidate D)
        → k ≤ 5
        → IsLevelled c
        → IsUpTo (doubled k) c.weight
        → IsUpTo (doubled (suc k)) (weigh dimension c)
    unfolding weigh rate
    weigh-IsUpTo k dimension c small (u₁, u₂, u₃, u₄, u₅) h =
        let by = λ (x : D). λ (u : IsUpTo 2 x). times-IsUpTo k c.weight x small h u in
        ground (
          arith,
          stays-IsUpTo k c.weight small h,
          nought-IsUpTo (doubled (suc k)),
          by _ (ratio-IsUpTo 1 2 (omega arith) (omega arith)),
          by _ (ratio-IsUpTo 2 10 (omega arith) (omega arith)),
          by _ (ratio-IsUpTo 12 10 (omega arith) (omega arith)),
          by _ (unit-IsUpTo c.liquidity_factor u₂),
          by _ (unit-IsUpTo (d.sub one c.risk_score) (laws.sub_unit c.risk_score u₄.0 u₄.1)),
          by _ (half_return-IsUpTo c.return_score u₅),
        )

    rise-IsUpTo :
        (k : ℕ) (ladder : List ℕ) (c : Candidate D)
        → k + length ladder ≤ 5
        → IsLevelled c
        → IsUpTo (doubled k) c.weight
        → IsUpTo 32 (rise ladder c).weight
    rise-IsUpTo k [] c room levelled (lo, hi) = (
      lo,
      laws.le_trans _ _ _ hi (
          laws.ratio_le (doubled k) 1 32 1 (omega arith) (omega arith)
            (omega (arith, doubled-le k (omega arith)))),
    )
    rise-IsUpTo k (dimension ∷ ladder) c room levelled h =
        rise-IsUpTo (suc k) ladder (advance dimension c) (omega arith) levelled
          (weigh-IsUpTo k dimension c (omega arith) levelled h)

    unit_clamp-IsUnit : (x : D) → IsNum x → IsUnit (unit_clamp x)
    unit_clamp-IsUnit x num = clamp_bounds laws x nought one num (laws.le_of_lt _ _ laws.one_pos)

    normalize_risk-IsUnit : (x : D) → IsFinite x → IsUnit (normalize_risk x)
    normalize_risk-IsUnit x fin =
        let hundred = of_nat-IsFinite laws 100 (omega arith) in
        rw (laws.sub_nought x fin, laws.sub_nought (of_nat 100) hundred)
          (unit_clamp-IsUnit _
            (laws.div_num x (of_nat 100) (laws.num_of_finite x fin) hundred (laws.nat_pos 99)))

    scale_in-IsLevelled : (a : Advisory D) → is_evidence a ≡ true → IsLevelled (scale_in a)
    unfolding scale_in
    scale_in-IsLevelled a h =
        let clamped =
          λ (x : D). λ (fin : IsFinite x). unit_clamp-IsUnit x (laws.num_of_finite x fin) in
        (
          clamped a.safety_level (ground arith),
          clamped a.liquidity_level (ground arith),
          clamped a.regulatory_level (ground arith),
          normalize_risk-IsUnit a.risk_score (ground arith),
          clamped a.return_score (ground arith),
        )

    -- The candidates after the ladder.
    pub risen-All :
        (ladder : List ℕ) (n : ℕ) (advisories : List (Advisory D))
        → length ladder ≤ 5
        → all_of is_evidence advisories ≡ true
        → All
            (λ (c : Candidate D). IsUpTo 32 c.weight)
            (map (rise ladder) (map scale_in (take n advisories)))
    unfolding all_of scale_in
    risen-All ladder zero advisories short h = tt
    risen-All ladder (suc n) [] short h = tt
    risen-All ladder (suc n) (a ∷ advisories) short h =
        let one_num = laws.num_of_finite _ (of_nat-IsFinite laws 1 (omega arith)) in
        (
          rise-IsUpTo 0 ladder (scale_in a) (omega arith) (scale_in-IsLevelled a (ground arith))
              (laws.le_of_lt _ _ laws.one_pos, laws.le_refl _ one_num),
          risen-All ladder n advisories short (ground arith),
        )

    pub rise-asset_id : (ladder : List ℕ) (c : Candidate D) → (rise ladder c).asset_id ≡ c.asset_id
    rise-asset_id [] c = refl
    rise-asset_id (dimension ∷ ladder) c = rise-asset_id ladder (advance dimension c)

    pub upto-IsFinite : (x : D) → IsUpTo 32 x → IsFinite x
    upto-IsFinite x (lo, hi) =
        laws.finite_between nought x (of_nat 32) (of_nat-IsFinite laws 0 (omega arith))
          (of_nat-IsFinite laws 32 (omega arith)) lo hi

    -- A sum of values that are not negative is at least where it starts, and at least each value.
    sum_from-ge :
        (acc : D) (candidates : List (Candidate D))
        → nought ≼ acc
        → All (λ (c : Candidate D). IsUpTo 32 c.weight) candidates
        → acc ≼ sum_from acc (map (λ (c : Candidate D). c.weight) candidates)
    unfolding sum_from
    sum_from-ge acc [] lo h = laws.le_refl acc (laws.num_of_le _ _ lo).1
    sum_from-ge acc (c ∷ candidates) lo (hc, h) =
        let num = (laws.num_of_le _ _ lo).1 in
        let fin = upto-IsFinite c.weight hc in
        let grows = laws.le_trans _ _ _ (laws.add_nought acc num).1 (
          laws.add_mono acc acc nought c.weight (laws.le_refl acc num) hc.0
            (of_nat-IsFinite laws 0 (omega arith)) fin) in
        laws.le_trans _ _ _ grows
          (sum_from-ge (d.add acc c.weight) candidates (laws.le_trans _ _ _ lo grows) h)

    weight-le-add : (acc w : D) → nought ≼ acc → IsUpTo 32 w → w ≼ d.add acc w
    weight-le-add acc w lo h =
        let fin = upto-IsFinite w h in
        let num = laws.num_of_finite w fin in
        laws.le_trans _ _ _ (laws.add_nought w num).0
          (laws.add_mono nought acc w w lo (laws.le_refl _ num) fin fin)

    pub weight-le-sum :
        (acc : D) (candidates : List (Candidate D)) (i : ℕ) (c : Candidate D)
        → nought ≼ acc
        → All (λ (c : Candidate D). IsUpTo 32 c.weight) candidates
        → get_elem? candidates i ≡ some c
        → c.weight ≼ sum_from acc (map (λ (c : Candidate D). c.weight) candidates)
    unfolding sum_from
    weight-le-sum acc [] i c lo h e = ground arith
    weight-le-sum acc (b ∷ candidates) zero c lo (hb, h) e =
        let own = weight-le-add acc b.weight lo hb in
        let grows = sum_from-ge (d.add acc b.weight) candidates (laws.le_trans _ _ _ hb.0 own) h in
        rw (← some-injective b c e) (laws.le_trans _ _ _ own grows)
    weight-le-sum acc (b ∷ candidates) (suc i) c lo (hb, h) e =
        weight-le-sum (d.add acc b.weight) candidates i c
          (laws.le_trans _ _ _ hb.0 (weight-le-add acc b.weight lo hb)) h e
