-- ===== src/Portfolio/Tests/Capped.antt =====
-- The constraints on four assets, two of them correlated, and their theorems there.
use ailee_finance_unified_ru.Prelude.{
  ℕ, ◌≡◌, ◌↔◌, true, refl, some, List, [], ◌∷◌, get_elem?, arith,
}
use ailee_finance_unified_ru.Prelude.Int.{pos, ◌+ℤ◌, ◌-ℤ◌}
use ailee_finance_unified_ru.Float.Fixed.{Fixed, fixed_float, Fixed-IsIeee}
use ailee_finance_unified_ru.Portfolio.Assets.{AssetAllocation, record_step, all_of}
use ailee_finance_unified_ru.Portfolio.Constraints.{
  ConstraintRule, SectorDefinition, RiskBudget, PortfolioConstraintResult, map_asset_to_sector,
  rule_of, portfolio_risk, clamp_exposure, each, sector_sum, scale_down, cap_sector, cap_sectors,
  cluster_size, cluster_sum, dampen_cluster, scale_risk, constrain, summarize, is_valid,
  apply_portfolio_constraints,
}
use ailee_finance_unified_ru.Portfolio.Constraints.Clusters.{
  CorrelationProfile, IsLinked, label_at, labels_of, label_from, own_labels, unite, join_clusters,
  index_of, edge_of,
}
use ailee_finance_unified_ru.Portfolio.Constraints.Clusters.Components.{labels_of-IsLinked}
use ailee_finance_unified_ru.Portfolio.Constraints.Capped.{apply_portfolio_constraints-IsRuled}
use ailee_finance_unified_ru.Portfolio.Constraints.Stages.{IsRuled}

abbrev held : ℕ → ℕ → ℕ → AssetAllocation Fixed
held asset share risk = record {
  asset_id = asset;
  allocation = some (pos share);
  risk_score = some (pos risk);
}

abbrev proposed : List (AssetAllocation Fixed)
proposed = held 0 2_000 0 ∷ held 1 5_000 10_000 ∷ held 2 1_000 10_000 ∷ held 3 2_000 10_000 ∷ []

abbrev rules : List (ConstraintRule Fixed)
rules =
    record {
      asset_id = 1;
      is_active = true;
      max_long_exposure = some (pos 4_000);
      max_short_exposure = some (pos 1_000);
    }
    ∷ []

abbrev sectors : List (SectorDefinition Fixed)
sectors = record { sector_id = 1; is_active = true; max_sector_exposure = some (pos 2_500) } ∷ []

-- Ether with gold, and bitcoin with ether.
abbrev correlations : List (CorrelationProfile Fixed)
correlations =
    record { asset_a = 2; asset_b = 3; is_active = true; correlation_score = some (pos 8_000) }
    ∷ record { asset_a = 1; asset_b = 2; is_active = true; correlation_score = some (pos 9_000) }
    ∷ []

abbrev budget : RiskBudget Fixed
budget = record { max_portfolio_risk = some (pos 10_000); is_active = true }

abbrev bounded : PortfolioConstraintResult Fixed
bounded = record {
  allocations =
      record { asset_id = 0; allocation = some (pos 2_000); risk_score = some (pos 0) }
      ∷ record { asset_id = 1; allocation = some (pos 1_333); risk_score = some (pos 10_000) }
      ∷ record { asset_id = 2; allocation = some (pos 333); risk_score = some (pos 10_000) }
      ∷ record { asset_id = 3; allocation = some (pos 1_333); risk_score = some (pos 10_000) }
      ∷ [];
  summary = record {
    initial_portfolio_risk = some (pos 8_000);
    final_portfolio_risk = some (pos 2_999);
    trace_count = 14;
    remaining_violations = 0;
    max_risk_budget = some (pos 10_000);
  };
  trace =
      record {
        asset_id = 0;
        stage = 1;
        action_taken = 0;
        before_value = some (pos 2_000);
        after_value = some (pos 2_000);
      }
      ∷ record {
        asset_id = 1;
        stage = 1;
        action_taken = 1;
        before_value = some (pos 5_000);
        after_value = some (pos 4_000);
      }
      ∷ record {
        asset_id = 2;
        stage = 1;
        action_taken = 0;
        before_value = some (pos 1_000);
        after_value = some (pos 1_000);
      }
      ∷ record {
        asset_id = 3;
        stage = 1;
        action_taken = 0;
        before_value = some (pos 2_000);
        after_value = some (pos 2_000);
      }
      ∷ record {
        asset_id = 1;
        stage = 2;
        action_taken = 1;
        before_value = some (pos 4_000);
        after_value = some (pos 2_000);
      }
      ∷ record {
        asset_id = 2;
        stage = 2;
        action_taken = 1;
        before_value = some (pos 1_000);
        after_value = some (pos 500);
      }
      ∷ record {
        asset_id = 0;
        stage = 3;
        action_taken = 0;
        before_value = some (pos 2_000);
        after_value = some (pos 2_000);
      }
      ∷ record {
        asset_id = 1;
        stage = 3;
        action_taken = 2;
        before_value = some (pos 2_000);
        after_value = some (pos 1_333);
      }
      ∷ record {
        asset_id = 2;
        stage = 3;
        action_taken = 2;
        before_value = some (pos 500);
        after_value = some (pos 333);
      }
      ∷ record {
        asset_id = 3;
        stage = 3;
        action_taken = 2;
        before_value = some (pos 2_000);
        after_value = some (pos 1_333);
      }
      ∷ record {
        asset_id = 0;
        stage = 4;
        action_taken = 0;
        before_value = some (pos 2_000);
        after_value = some (pos 2_000);
      }
      ∷ record {
        asset_id = 1;
        stage = 4;
        action_taken = 0;
        before_value = some (pos 1_333);
        after_value = some (pos 1_333);
      }
      ∷ record {
        asset_id = 2;
        stage = 4;
        action_taken = 0;
        before_value = some (pos 333);
        after_value = some (pos 333);
      }
      ∷ record {
        asset_id = 3;
        stage = 4;
        action_taken = 0;
        before_value = some (pos 1_333);
        after_value = some (pos 1_333);
      }
      ∷ [];
}

constraints-run :
    apply_portfolio_constraints rules sectors correlations budget proposed ≡ some bounded
unfolding map_asset_to_sector rule_of portfolio_risk clamp_exposure each sector_sum scale_down
    cap_sector cap_sectors cluster_size cluster_sum dampen_cluster scale_risk constrain summarize
    is_valid apply_portfolio_constraints label_from labels_of own_labels unite join_clusters
    index_of edge_of record_step all_of ◌+ℤ◌ ◌-ℤ◌
constraints-run = refl

apply_portfolio_constraints-IsRuled_example :
    (b : AssetAllocation Fixed) × (get_elem? bounded.allocations 1 ≡ some b)
    × IsRuled rules (held 1 5_000 10_000) b
apply_portfolio_constraints-IsRuled_example =
    apply_portfolio_constraints-IsRuled Fixed-IsIeee rules sectors correlations budget proposed
      bounded 1 (held 1 5_000 10_000) constraints-run refl

-- Bitcoin and gold are in one cluster through ether.
labels_of-IsLinked_example :
    (label_at (labels_of proposed correlations) 1 ≡ label_at (labels_of proposed correlations) 3)
    ↔ IsLinked proposed correlations 1 3
labels_of-IsLinked_example =
    labels_of-IsLinked proposed correlations 1 3 (omega arith) (omega arith)

labels-run : labels_of proposed correlations ≡ 0 ∷ 1 ∷ 1 ∷ 1 ∷ []
unfolding labels_of label_from own_labels unite join_clusters index_of edge_of
labels-run = refl
