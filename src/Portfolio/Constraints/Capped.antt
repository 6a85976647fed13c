-- ===== src/Portfolio/Constraints/Capped.antt =====
-- The four stages together: what they keep of each asset, and the exposure rules that hold after.
use ailee_finance_unified_ru.Prelude.{ℕ, ◌≡◌, true, ◌&&◌, some, List, [], ◌∷◌, arith, get_elem?}
use ailee_finance_unified_ru.Float.{Float, IsIeee, nought}
use ailee_finance_unified_ru.Float.Bounds.{All}
use ailee_finance_unified_ru.Portfolio.Assets.{
  AssetAllocation, all_of, all_of-All, is_nonnegative, Pairs, Pairs-trans, Pairs-get, Pairs-All,
}
use ailee_finance_unified_ru.Portfolio.Constraints.{
  ConstraintRule, SectorDefinition, RiskBudget, PortfolioConstraintResult, each, clamp_exposures,
  cap_sectors, dampen_cluster, scale_risk, portfolio_risk, constrain, is_valid,
  apply_portfolio_constraints,
}
use ailee_finance_unified_ru.Portfolio.Constraints.Clusters.{CorrelationProfile, labels_of}
use ailee_finance_unified_ru.Portfolio.Constraints.Shrunk.{IsRule, IsKept, IsSized}
use ailee_finance_unified_ru.Portfolio.Constraints.Stages.{
  IsRuled, IsSector, IsKept-IsSized, clamp_exposures-Pairs, scale-Pairs, cap_sectors-Pairs,
  dampen_cluster-IsShrunk, scale_risk-IsShrunk, IsRuled-trans,
}

module _ {D : Type 0} ⦃d : Float D⦄ where
  IsSized-All :
      (proposed : List (AssetAllocation D))
      → all_of
          (λ (a : AssetAllocation D). d.is_finite a.allocation && is_nonnegative a.risk_score)
          proposed
        ≡ true
      → All IsSized proposed
  unfolding all_of
  IsSized-All [] h = tt
  IsSized-All (a ∷ proposed) h = (ground arith, IsSized-All proposed (ground arith))

  module _ (laws : IsIeee D) (rules : List (ConstraintRule D)) (sectors : List (SectorDefinition D))
      (correlations : List (CorrelationProfile D)) (budget : RiskBudget D) where
    constrain-Pairs :
        (proposed : List (AssetAllocation D))
        → is_nonnegative budget.max_portfolio_risk ≡ true
        → All IsRule rules
        → All IsSector sectors
        → All IsSized proposed
        → Pairs
            (IsRuled rules)
            proposed
            (constrain rules sectors correlations budget proposed).allocations
    unfolding constrain
    constrain-Pairs proposed budgeted valid valid' sized =
        let clamped = each 1 (clamp_exposures rules) 0 proposed [] in
        let capped = cap_sectors sectors clamped in
        let labels = labels_of capped.allocations correlations in
        let dampened =
          each 3 (dampen_cluster labels capped.allocations) 0 capped.allocations capped.trace in
        let first_stage = clamp_exposures-Pairs laws rules proposed valid sized in
        let sized₁ =
          Pairs-All (IsRuled rules) IsSized (λ a b h k. IsKept-IsSized laws a b h k.0) _ _
            first_stage sized in
        let two = cap_sectors-Pairs laws sectors clamped valid' sized₁ in
        let sized₂ = Pairs-All IsKept IsSized (IsKept-IsSized laws) _ _ two sized₁ in
        let three =
          scale-Pairs laws 3 (dampen_cluster labels capped.allocations) capped.allocations
            capped.trace (dampen_cluster-IsShrunk laws labels capped.allocations) sized₂ in
        let sized₃ = Pairs-All IsKept IsSized (IsKept-IsSized laws) _ _ three sized₂ in
        let four =
          scale-Pairs laws 4 (scale_risk budget (portfolio_risk nought dampened.allocations))
            dampened.allocations dampened.trace
            (λ i a x action. scale_risk-IsShrunk laws budget _ i a x action budgeted) sized₃ in
        let join =
          Pairs-trans (IsRuled rules) IsKept (IsRuled rules) (IsRuled-trans laws rules valid) in
        join _ _ _ (join _ _ _ (join _ _ _ first_stage two) three) four

    is_valid-rules :
        (proposed : List (AssetAllocation D))
        → is_valid rules sectors correlations budget proposed ≡ true
        → (is_nonnegative budget.max_portfolio_risk ≡ true)
          × All IsRule rules
          × All IsSector sectors
          × All IsSized proposed
    unfolding is_valid
    is_valid-rules proposed h = (
      ground arith,
      all_of-All
          (λ (r : ConstraintRule D).
            is_nonnegative r.max_long_exposure && is_nonnegative r.max_short_exposure)
          rules (ground arith),
      all_of-All (λ (s : SectorDefinition D). is_nonnegative s.max_sector_exposure) sectors
          (ground arith),
      IsSized-All proposed (ground arith),
    )

    -- When the constraints return, every asset keeps its place, id and risk score, its
    -- allocation lies between 0 and the proposed one, and it is within the long and short
    -- limits of the first active rule of the asset.
    pub apply_portfolio_constraints-IsRuled :
        (proposed : List (AssetAllocation D)) (r : PortfolioConstraintResult D) (i : ℕ)
        (a : AssetAllocation D)
        → apply_portfolio_constraints rules sectors correlations budget proposed ≡ some r
        → get_elem? proposed i ≡ some a
        → (b : AssetAllocation D) × (get_elem? r.allocations i ≡ some b) × IsRuled rules a b
    unfolding apply_portfolio_constraints
    apply_portfolio_constraints-IsRuled proposed r i a h at_i =
        let (budgeted, valid, valid', sized) = is_valid-rules proposed (ground arith) in
        let here : r.allocations
            ≡ (constrain rules sectors correlations budget proposed).allocations =
          ground arith in
        rw (here) (
          Pairs-get (IsRuled rules) proposed _ i a
            (constrain-Pairs proposed budgeted valid valid' sized) at_i)
