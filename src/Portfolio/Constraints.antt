-- ===== src/Portfolio/Constraints.antt =====
-- `apply_portfolio_constraints` of extensions/aille_portfolio_constraints.cpp. `none` is the
-- exception. Of a trace step everything but its text is kept.
pub mod Clusters
pub mod Shrunk
pub mod Stages
pub mod Capped
use ailee_finance_unified_ru.Prelude.{
  ℕ, suc, ◌+◌, Bool, true, false, not, ◌&&◌, Option, none, some, List, [], ◌∷◌, if◌then◌else◌, ltb,
  ◌==◌, length,
}
use ailee_finance_unified_ru.Float.{Float, nought, one, of_nat, sum_from}
use ailee_finance_unified_ru.Portfolio.Assets.{
  max_assets, max_trace, AssetAllocation, record_step, fits, all_of, is_nonnegative,
}
use Clusters.{CorrelationProfile, labels_of, label_at}

pub record ConstraintRule (D : Type 0) : Type 0 where
  pub asset_id : ℕ
  pub is_active : Bool
  pub max_long_exposure : D
  pub max_short_exposure : D

pub record SectorDefinition (D : Type 0) : Type 0 where
  pub sector_id : ℕ
  pub is_active : Bool
  pub max_sector_exposure : D

pub record RiskBudget (D : Type 0) : Type 0 where
  pub max_portfolio_risk : D
  pub is_active : Bool

-- The stages are 1 to 4; the actions: 0 none, 1 clamped, 2 dampened, 3 scaled.
pub record ConstraintTraceStep (D : Type 0) : Type 0 where
  pub asset_id : ℕ
  pub stage : ℕ
  pub action_taken : ℕ
  pub before_value : D
  pub after_value : D

pub record ConstraintResultSummary (D : Type 0) : Type 0 where
  pub initial_portfolio_risk : D
  pub final_portfolio_risk : D
  pub trace_count : ℕ
  pub remaining_violations : ℕ
  pub max_risk_budget : D

-- The allocations and the trace, as each stage hands them to the next.
pub record Course (D : Type 0) : Type 0 where
  pub allocations : List (AssetAllocation D)
  pub trace : List (ConstraintTraceStep D)

pub record PortfolioConstraintResult (D : Type 0) : Type 0 where
  pub allocations : List (AssetAllocation D)
  pub summary : ConstraintResultSummary D
  pub trace : List (ConstraintTraceStep D)

-- The sectors: 0 fiat, 1 crypto, 2 precious metals, 3 energy, 4 other.
unfoldable pub map_asset_to_sector : ℕ → ℕ
map_asset_to_sector asset =
    if asset == 0
    then 0
    else if asset == 1
    then 1
    else if asset == 2
    then 1
    else if asset == 3
    then 2
    else if asset == 4
    then 3
    else 4

module _ {D : Type 0} where
  -- The first active rule of the asset.
  unfoldable pub rule_of : ℕ → List (ConstraintRule D) → Option (ConstraintRule D)
  rule_of asset [] = none
  rule_of asset (r ∷ rules) =
      let rest = rule_of asset rules in if r.asset_id == asset && r.is_active then some r else rest

module _ {D : Type 0} ⦃d : Float D⦄ where
  unfoldable pub portfolio_risk : D → List (AssetAllocation D) → D
  portfolio_risk acc [] = acc
  portfolio_risk acc (a ∷ allocations) =
      portfolio_risk (d.add acc (d.mul (d.abs a.allocation) a.risk_score)) allocations

  -- An asset's value after a stage, with the action taken.
  unfoldable pub clamp_exposure : Option (ConstraintRule D) → D → D × ℕ
  clamp_exposure none x = (x, 0)
  clamp_exposure (some rule) x =
      if d.le nought x
      then (if d.lt rule.max_long_exposure x then (rule.max_long_exposure, 1) else (x, 0))
      else if d.lt rule.max_short_exposure (d.abs x)
      then (d.neg rule.max_short_exposure, 1)
      else (x, 0)

  abbrev pub step_of : ℕ → AssetAllocation D → D × ℕ → ConstraintTraceStep D
  step_of stage a (x, action) = record {
    asset_id = a.asset_id;
    stage = stage;
    action_taken = action;
    before_value = a.allocation;
    after_value = x;
  }

  -- A loop over the assets from index `i`, with the trace so far: where `visit` has a value, the
  -- asset takes it and the trace gets a step.
  unfoldable pub each :
      ℕ
      → (ℕ → AssetAllocation D → Option (D × ℕ))
      → ℕ
      → List (AssetAllocation D)
      → List (ConstraintTraceStep D)
      → Course D
  each stage visit i [] trace = record { allocations = []; trace = trace }
  each stage visit i (a ∷ allocations) trace = elim (visit i a) [
    | none ↦
        (let rest = each stage visit (suc i) allocations trace in
          record rest { allocations = a ∷ rest.allocations })
    | some (x, action) ↦
        (let rest =
            each stage visit (suc i) allocations
              (record_step max_trace (step_of stage a (x, action)) trace) in
          record rest { allocations = record a { allocation = x } ∷ rest.allocations })
  ]

  abbrev pub clamp_exposures : List (ConstraintRule D) → ℕ → AssetAllocation D → Option (D × ℕ)
  clamp_exposures rules i a = some (clamp_exposure (rule_of a.asset_id rules) a.allocation)

  abbrev pub is_in : ℕ → AssetAllocation D → Bool
  is_in sector a = map_asset_to_sector a.asset_id == sector

  unfoldable pub sector_sum : ℕ → D → List (AssetAllocation D) → D
  sector_sum sector acc [] = acc
  sector_sum sector acc (a ∷ allocations) =
      sector_sum sector (if is_in sector a then d.add acc (d.abs a.allocation) else acc) allocations

  -- `x *= scale` with `scale = limit / sum`, where the sum is above the limit and above 0.
  unfoldable pub scale_down : D → D → ℕ → D → D × ℕ
  scale_down limit sum action x =
      if d.lt limit sum && d.lt nought sum then (d.mul x (d.div limit sum), action) else (x, 0)

  unfoldable pub cap_sector : SectorDefinition D → D → ℕ → AssetAllocation D → Option (D × ℕ)
  cap_sector sector sum i a =
      if is_in sector.sector_id a
      then some (scale_down sector.max_sector_exposure sum 1 a.allocation)
      else none

  unfoldable pub cap_sectors : List (SectorDefinition D) → Course D → Course D
  cap_sectors [] c = c
  cap_sectors (s ∷ sectors) c = cap_sectors sectors (
      if s.is_active
      then each 2 (cap_sector s (sector_sum s.sector_id nought c.allocations)) 0 c.allocations
          c.trace
      else c)

  -- The size and the sum of a cluster, from index `i`.
  unfoldable pub cluster_size : List ℕ → ℕ → ℕ → ℕ → List (AssetAllocation D) → ℕ
  cluster_size labels label acc i [] = acc
  cluster_size labels label acc i (a ∷ allocations) =
      cluster_size labels label (if label_at labels i == label then acc + 1 else acc) (suc i)
        allocations

  unfoldable pub cluster_sum : List ℕ → ℕ → D → ℕ → List (AssetAllocation D) → D
  cluster_sum labels label acc i [] = acc
  cluster_sum labels label acc i (a ∷ allocations) =
      cluster_sum labels label
        (if label_at labels i == label then d.add acc (d.abs a.allocation) else acc) (suc i)
        allocations

  -- The sum of a cluster of several assets is positive where it is above 3/10.
  unfoldable pub dampen_cluster :
      List ℕ → List (AssetAllocation D) → ℕ → AssetAllocation D → Option (D × ℕ)
  dampen_cluster labels allocations i a =
      let label = label_at labels i in
      let sum = cluster_sum labels label nought 0 allocations in
      if ltb 1 (cluster_size labels label 0 0 allocations) && d.lt (d.ratio 3 10) sum
      then some (d.mul a.allocation (d.div (d.ratio 3 10) sum), 2)
      else some (a.allocation, 0)

  unfoldable pub scale_risk : RiskBudget D → D → ℕ → AssetAllocation D → Option (D × ℕ)
  scale_risk budget risk i a =
      if budget.is_active && d.lt nought a.risk_score
      then some (scale_down budget.max_portfolio_risk risk 3 a.allocation)
      else some (a.allocation, 0)

  module _ (rules : List (ConstraintRule D)) (sectors : List (SectorDefinition D))
      (correlations : List (CorrelationProfile D)) (budget : RiskBudget D) where
    -- The four stages.
    unfoldable pub constrain : List (AssetAllocation D) → Course D
    constrain proposed =
        let clamped = each 1 (clamp_exposures rules) 0 proposed [] in
        let capped = cap_sectors sectors clamped in
        let labels = labels_of capped.allocations correlations in
        let dampened =
          each 3 (dampen_cluster labels capped.allocations) 0 capped.allocations capped.trace in
        each 4 (scale_risk budget (portfolio_risk nought dampened.allocations)) 0
          dampened.allocations dampened.trace

    unfoldable pub summarize : List (AssetAllocation D) → Course D → ConstraintResultSummary D
    summarize proposed c =
        let final_risk = portfolio_risk nought c.allocations in
        record {
          initial_portfolio_risk = portfolio_risk nought proposed;
          final_portfolio_risk = final_risk;
          trace_count = length c.trace;
          remaining_violations =
              if budget.is_active && d.lt budget.max_portfolio_risk final_risk then 1 else 0;
          max_risk_budget = if budget.is_active then budget.max_portfolio_risk else of_nat 999_999;
        }

    unfoldable pub is_valid : List (AssetAllocation D) → Bool
    is_valid proposed =
        fits max_assets proposed
        && fits 32 rules
        && fits 8 sectors
        && fits 32 correlations
        && is_nonnegative budget.max_portfolio_risk
        && all_of
            (λ (a : AssetAllocation D). d.is_finite a.allocation && is_nonnegative a.risk_score)
            proposed
        && all_of
            (λ (r : ConstraintRule D).
              is_nonnegative r.max_long_exposure && is_nonnegative r.max_short_exposure)
            rules
        && all_of (λ (s : SectorDefinition D). is_nonnegative s.max_sector_exposure) sectors
        && all_of
            (λ (p : CorrelationProfile D).
              d.is_finite p.correlation_score && not (d.lt one (d.abs p.correlation_score)))
            correlations
        && d.is_finite (portfolio_risk nought proposed)

    unfoldable pub apply_portfolio_constraints :
        List (AssetAllocation D) → Option (PortfolioConstraintResult D)
    apply_portfolio_constraints proposed =
        let c = constrain proposed in
        let summary = summarize proposed c in
        if is_valid proposed
          && d.is_finite summary.initial_portfolio_risk
          && d.is_finite summary.final_portfolio_risk
          && all_of (λ (a : AssetAllocation D). d.is_finite a.allocation) c.allocations
        then some (record { allocations = c.allocations; summary = summary; trace = c.trace })
        else none
