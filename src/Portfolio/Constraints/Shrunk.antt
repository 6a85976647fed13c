-- ===== src/Portfolio/Constraints/Shrunk.antt =====
-- The stages only ever shrink an exposure: no allocation grows, and none changes its direction.
use ailee_finance_unified_ru.Prelude.{
  ℕ, ◌≡◌, ◌⊎◌, inl, inr, true, ◌&&◌, Option, none, some, List, [], ◌∷◌, refl, arith, Bool-cases,
}
use ailee_finance_unified_ru.Float.{Float, IsIeee, ◌≼◌, IsFinite, nought}
use ailee_finance_unified_ru.Float.Bounds.{All, IsUnit, of_nat-IsFinite}
use ailee_finance_unified_ru.Portfolio.Assets.{AssetAllocation, is_nonnegative, is_nonnegative-le}
use ailee_finance_unified_ru.Portfolio.Constraints.{
  ConstraintRule, rule_of, clamp_exposure, scale_down,
}

module _ {D : Type 0} ⦃d : Float D⦄ where
  -- `y` is `x` brought nearer to 0, from either side, or `x` itself.
  abbrev pub IsShrunk : D → D → Type 0
  IsShrunk x y = ((nought ≼ y) × (y ≼ x)) ⊎ ((x ≼ y) × (y ≼ nought))

  module _ (laws : IsIeee D) where
    nought-IsFinite : IsFinite {F = D} nought
    nought-IsFinite = of_nat-IsFinite laws 0 (omega arith)

    pub IsShrunk-refl : (x : D) → IsFinite x → IsShrunk x x
    IsShrunk-refl x fin =
        let num = laws.num_of_finite x fin in
        elim (Bool-cases (d.lt x nought)) [
          | inl below ↦ inr (laws.le_refl x num, laws.le_of_lt x nought below)
          | inr above ↦ inl (
            laws.le_of_not_lt x nought num (laws.num_of_finite _ nought-IsFinite) above,
            laws.le_refl x num,
          )
        ]

    pub IsShrunk-trans : (x y z : D) → IsShrunk x y → IsShrunk y z → IsShrunk x z
    IsShrunk-trans x y z (inl (a, b)) (inl (c, e)) = inl (c, laws.le_trans z y x e b)
    IsShrunk-trans x y z (inl (a, b)) (inr (c, e)) =
        inl (laws.le_trans _ _ _ a c, laws.le_trans z nought x e (laws.le_trans nought y x a b))
    IsShrunk-trans x y z (inr (a, b)) (inl (c, e)) =
        inr
          (laws.le_trans x nought z (laws.le_trans x y nought a b) c, laws.le_trans z y nought e b)
    IsShrunk-trans x y z (inr (a, b)) (inr (c, e)) = inr (laws.le_trans x y z a c, e)

    pub shrunk-IsFinite : (x y : D) → IsFinite x → IsShrunk x y → IsFinite y
    shrunk-IsFinite x y fin (inl (a, b)) = laws.finite_between nought y x nought-IsFinite fin a b
    shrunk-IsFinite x y fin (inr (a, b)) = laws.finite_between x y nought fin nought-IsFinite a b

    pub mul-IsShrunk : (x s : D) → IsFinite x → IsUnit s → IsShrunk x (d.mul x s)
    mul-IsShrunk x s fin (lo, hi) = elim (IsShrunk-refl x fin) [
      | inl (up, _) ↦ inl (laws.mul_le x s fin up lo hi)
      | inr (_, down) ↦ inr (laws.mul_le_neg x s fin down lo hi)
    ]

    pub scale_down-IsShrunk :
        (limit sum : D) (action : ℕ) (x : D)
        → IsFinite x
        → IsFinite limit
        → nought ≼ limit
        → IsShrunk x (scale_down limit sum action x).0
    unfolding scale_down
    scale_down-IsShrunk limit sum action x fin fin_limit low =
        elim (Bool-cases (d.lt limit sum && d.lt nought sum)) [
          | inl breach ↦ rw (breach) (
              mul-IsShrunk x (d.div limit sum) fin (
                laws.div_share limit sum low (laws.le_of_lt _ _ (ground arith)) (ground arith)
                  fin_limit))
          | inr within ↦ rw (within) (IsShrunk-refl x fin)
        ]

  -- Within the asset's exposure rule, if it has an active one.
  abbrev pub IsCapped : Option (ConstraintRule D) → D → Type 0
  IsCapped none y = Unit
  IsCapped (some r) y = (d.neg r.max_short_exposure ≼ y) × (y ≼ r.max_long_exposure)

  abbrev pub IsRule : ConstraintRule D → Type 0
  IsRule r = (is_nonnegative r.max_long_exposure && is_nonnegative r.max_short_exposure) ≡ true

  -- The same asset, its exposure shrunk or left.
  abbrev pub IsKept : AssetAllocation D → AssetAllocation D → Type 0
  IsKept a b =
      (b.asset_id ≡ a.asset_id) × (b.risk_score ≡ a.risk_score) × IsShrunk a.allocation b.allocation

  abbrev pub IsSized : AssetAllocation D → Type 0
  IsSized a = IsFinite a.allocation

  module _ (laws : IsIeee D) where
    pub rule_of-IsRule :
        (asset : ℕ) (rules : List (ConstraintRule D)) (r : ConstraintRule D)
        → All IsRule rules
        → rule_of asset rules ≡ some r
        → IsRule r
    unfolding rule_of
    rule_of-IsRule asset [] r all e = ground arith
    rule_of-IsRule asset (q ∷ rules) r (h, all) e =
        let later = rule_of-IsRule asset rules r all in ground (arith, later)

    pub clamp_exposure-IsShrunk :
        (rule : Option (ConstraintRule D)) (x : D)
        → IsFinite x
        → ((r : ConstraintRule D) → rule ≡ some r → IsRule r)
        → IsShrunk x (clamp_exposure rule x).0 × IsCapped rule (clamp_exposure rule x).0
    unfolding clamp_exposure
    clamp_exposure-IsShrunk none x fin valid = (IsShrunk-refl laws x fin, tt)
    clamp_exposure-IsShrunk (some r) x fin valid =
        let nonneg = valid r refl in
        let (long_fin, long) = is_nonnegative-le laws r.max_long_exposure (ground arith) in
        let (short_fin, short) = is_nonnegative-le laws r.max_short_exposure (ground arith) in
        let num = laws.num_of_finite x fin in
        let num_abs = (laws.num_of_le _ _ (laws.abs_nonneg x num)).1 in
        let below = laws.le_trans _ _ _ (laws.neg_le _ _ short) laws.neg_nought.0 in
        elim (Bool-cases (d.le nought x)) [
          | inl up ↦ elim (Bool-cases (d.lt r.max_long_exposure x)) [
            | inl over ↦
                rw (up, over)
                  (
                    inl (long, laws.le_of_lt _ _ over),
                    (
                      laws.le_trans _ _ _ below long,
                      laws.le_refl _ (laws.num_of_finite _ long_fin),
                    ),
                  )
            | inr within ↦
                rw (up, within)
                  (
                    inl (up, laws.le_refl x num),
                    (
                      laws.le_trans _ _ _ below up,
                      laws.le_of_not_lt _ _ (laws.num_of_finite _ long_fin) num within,
                    ),
                  )
          ]
          | inr down ↦
              let down' = laws.le_of_lt _ _ (
                laws.lt_of_not_le nought x (laws.num_of_finite _ (nought-IsFinite laws)) num
                  down) in
              elim (Bool-cases (d.lt r.max_short_exposure (d.abs x))) [
                | inl over ↦
                    rw (down, over)
                      (
                        inr (laws.abs_below x _ down' (laws.le_of_lt _ _ over), below),
                        (
                          laws.le_refl _ (laws.num_of_le _ _ below).0,
                          laws.le_trans _ _ _ below long,
                        ),
                      )
                | inr within ↦
                    rw (down, within)
                      (
                        inr (laws.le_refl x num, down'),
                        (
                          laws.abs_bound x _ (
                              laws.le_of_not_lt _ _ (laws.num_of_finite _ short_fin) num_abs
                                within),
                          laws.le_trans _ _ _ down' long,
                        ),
                      )
              ]
        ]
