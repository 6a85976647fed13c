-- ===== src/Portfolio/Constraints/Clusters.antt =====
-- The clusters of correlated assets in `apply_portfolio_constraints`: the labels that the loop over
-- the profiles leaves, against the connected components of the graph of the profiles.
pub mod Unite
pub mod Components
use ailee_finance_unified_ru.Prelude.{
  ℕ, zero, suc, ◌+◌, ◌<◌, ◌≡◌, Bool, true, false, not, ◌&&◌, ◌||◌, Option, none, some, List, [],
  ◌∷◌, if◌then◌else◌, ◌==◌, length, get_or, get_elem?, map,
}
use ailee_finance_unified_ru.Float.{Float}
use ailee_finance_unified_ru.Portfolio.Assets.{AssetAllocation}

pub record CorrelationProfile (D : Type 0) : Type 0 where
  pub asset_a : ℕ
  pub asset_b : ℕ
  pub is_active : Bool
  pub correlation_score : D

-- `cluster_labels[i] = i`
unfoldable pub own_labels : ℕ → ℕ → List ℕ
own_labels from zero = []
own_labels from (suc n) = from ∷ own_labels (suc from) n

abbrev relabel : ℕ → ℕ → ℕ → ℕ
relabel old new label = if label == old then new else label

abbrev pub label_at : List ℕ → ℕ → ℕ
label_at labels i = get_or labels i 0

-- The clusters of the two indices become one, with the label of the first.
unfoldable pub unite : ℕ → ℕ → List ℕ → List ℕ
unite a b labels =
    let old_label = label_at labels b in
    let new_label = label_at labels a in
    if old_label == new_label then labels else map (relabel old_label new_label) labels

unfoldable pub join_clusters : Option (ℕ × ℕ) → List ℕ → List ℕ
join_clusters none labels = labels
join_clusters (some (a, b)) labels = unite a b labels

module _ {D : Type 0} where
  -- The index of the last allocation of the asset; `i` is the index of the first of the list.
  unfoldable pub index_of : ℕ → ℕ → List (AssetAllocation D) → Option ℕ
  index_of asset i [] = none
  index_of asset i (a ∷ allocations) = elim (index_of asset (suc i) allocations) [
    | some later ↦ some later
    | none ↦ if a.asset_id == asset then some i else none
  ]

module _ {D : Type 0} ⦃d : Float D⦄ where
  -- The edge that a profile stands for, if it counts and both its assets are held.
  unfoldable pub edge_of : List (AssetAllocation D) → CorrelationProfile D → Option (ℕ × ℕ)
  edge_of allocations profile =
      if not profile.is_active || d.le profile.correlation_score (d.ratio 7 10)
      then none
      else elim (index_of profile.asset_a 0 allocations) [
        | none ↦ none
        | some idx_a ↦ elim (index_of profile.asset_b 0 allocations) [
          | none ↦ none
          | some idx_b ↦ some (idx_a, idx_b)
        ]
      ]

  unfoldable pub label_from :
      List (AssetAllocation D) → List (CorrelationProfile D) → List ℕ → List ℕ
  label_from allocations [] labels = labels
  label_from allocations (p ∷ profiles) labels =
      label_from allocations profiles (join_clusters (edge_of allocations p) labels)

  unfoldable pub labels_of : List (AssetAllocation D) → List (CorrelationProfile D) → List ℕ
  labels_of allocations profiles =
      label_from allocations profiles (own_labels 0 (length allocations))

  -- The clusters meant: held assets are linked by the profiles that count, however far apart.
  pub data IsLinked (allocations : List (AssetAllocation D))
      (profiles : List (CorrelationProfile D)) : ℕ → ℕ → Type 0 where
    same : (i : ℕ) → i < length allocations → IsLinked allocations profiles i i
    correlated :
        (k : ℕ) (p : CorrelationProfile D) (i j : ℕ)
        → get_elem? profiles k ≡ some p
        → edge_of allocations p ≡ some (i, j)
        → IsLinked allocations profiles i j
    backwards : (i j : ℕ) → IsLinked allocations profiles i j → IsLinked allocations profiles j i
    through :
        (i j k : ℕ)
        → IsLinked allocations profiles i j
        → IsLinked allocations profiles j k
        → IsLinked allocations profiles i k
