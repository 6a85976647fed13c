-- ===== src/Portfolio/Constraints/Clusters/Components.antt =====
-- The labels are right: two assets have one label where, and only where, they are linked.
use ailee_finance_unified_ru.Prelude.{
  ℕ, zero, suc, ◌+◌, ◌<◌, ◌≡◌, ◌↔◌, inl, inr, some, List, [], ◌∷◌, ◌∙◌, sym, refl, arith, length,
  get_elem?, Option-cases,
}
use ailee_finance_unified_ru.Float.{Float}
use ailee_finance_unified_ru.Portfolio.Assets.{AssetAllocation}
use ailee_finance_unified_ru.Portfolio.Constraints.Clusters.{
  CorrelationProfile, own_labels, label_at, join_clusters, index_of, edge_of, label_from, labels_of,
  IsLinked, same, correlated, backwards, through,
}
use ailee_finance_unified_ru.Portfolio.Constraints.Clusters.Unite.{
  length-unite, own_labels-get, length-own_labels, IsSound, unite-IsSound, unite-joins, unite-keeps,
}

module _ {D : Type 0} where
  index_of-lt :
      (asset from i : ℕ) (allocations : List (AssetAllocation D))
      → index_of asset from allocations ≡ some i
      → i < from + length allocations
  unfolding index_of
  index_of-lt asset from i [] h = ground arith
  index_of-lt asset from i (a ∷ allocations) h =
      elim (Option-cases (index_of asset (suc from) allocations)) [
        | inl e ↦ ground arith
        | inr (k, e) ↦
            let later = index_of-lt asset (suc from) k allocations e in ground (arith, later)
      ]

module _ {D : Type 0} ⦃d : Float D⦄ (allocations : List (AssetAllocation D)) where
  edge_of-lt :
      (p : CorrelationProfile D) (i j : ℕ)
      → edge_of allocations p ≡ some (i, j)
      → (i < length allocations) × (j < length allocations)
  unfolding edge_of
  edge_of-lt p i j h =
      ground (arith, index_of-lt p.asset_a 0 i allocations, index_of-lt p.asset_b 0 j allocations)

  length-join_clusters :
      (p : CorrelationProfile D) (labels : List ℕ)
      → length (join_clusters (edge_of allocations p) labels) ≡ length labels
  unfolding join_clusters
  length-join_clusters p labels = elim (Option-cases (edge_of allocations p)) [
    | inl e ↦ rw (e) refl
    | inr ((a, b), e) ↦ rw (e) (length-unite a b labels)
  ]

  -- What every edge preserves, the loop over the profiles preserves.
  label_from-keeps :
      (profiles : List (CorrelationProfile D)) (labels : List ℕ) (i j : ℕ)
      → length labels ≡ length allocations
      → i < length allocations
      → j < length allocations
      → label_at labels i ≡ label_at labels j
      → label_at (label_from allocations profiles labels) i
        ≡ label_at (label_from allocations profiles labels) j
  unfolding label_from join_clusters
  label_from-keeps [] labels i j len hi hj e = e
  label_from-keeps (p ∷ profiles) labels i j len hi hj e =
      label_from-keeps profiles (join_clusters (edge_of allocations p) labels) i j
        (length-join_clusters p labels ∙ len) hi hj
        (elim (Option-cases (edge_of allocations p)) [
          | inl none_here ↦ rw (none_here) e
          | inr ((a, b), here) ↦
              rw (here) (unite-keeps a b labels i j (omega arith) (omega arith) e)
        ])

  label_from-joins :
      (profiles : List (CorrelationProfile D)) (labels : List ℕ) (k : ℕ) (p : CorrelationProfile D)
      (i j : ℕ)
      → length labels ≡ length allocations
      → get_elem? profiles k ≡ some p
      → edge_of allocations p ≡ some (i, j)
      → label_at (label_from allocations profiles labels) i
        ≡ label_at (label_from allocations profiles labels) j
  unfolding label_from join_clusters
  label_from-joins [] labels k p i j len at_k e = ground arith
  label_from-joins (q ∷ profiles) labels zero p i j len at_k e =
      let (hi, hj) = edge_of-lt p i j e in
      let e' : edge_of allocations q ≡ some (i, j) = ground arith in
      label_from-keeps profiles (join_clusters (edge_of allocations q) labels) i j
        (length-join_clusters q labels ∙ len) hi hj
        (rw (e') (unite-joins i j labels (omega arith) (omega arith)))
  label_from-joins (q ∷ profiles) labels (suc k) p i j len at_k e =
      label_from-joins profiles (join_clusters (edge_of allocations q) labels) k p i j
        (length-join_clusters q labels ∙ len) at_k e

  label_from-IsSound :
      (R : ℕ → ℕ → Type 0)
      → ((i j : ℕ) → R i j → R j i)
      → ((i j k : ℕ) → R i j → R j k → R i k)
      → (profiles : List (CorrelationProfile D)) (labels : List ℕ)
      → length labels ≡ length allocations
      → ((k : ℕ) (p : CorrelationProfile D) (i j : ℕ)
          → get_elem? profiles k ≡ some p
          → edge_of allocations p ≡ some (i, j)
          → R i j)
      → IsSound R labels
      → (i j : ℕ) → i < length allocations
      → j < length allocations
      → label_at (label_from allocations profiles labels) i
        ≡ label_at (label_from allocations profiles labels) j
      → R i j
  unfolding label_from join_clusters
  label_from-IsSound R R_sym R_trans [] labels len edges sound i j hi hj e =
      sound i j (omega arith) (omega arith) e
  label_from-IsSound R R_sym R_trans (p ∷ profiles) labels len edges sound i j hi hj e =
      label_from-IsSound R R_sym R_trans profiles (join_clusters (edge_of allocations p) labels)
        (length-join_clusters p labels ∙ len) (λ k. edges (suc k))
        (elim (Option-cases (edge_of allocations p)) [
          | inl none_here ↦ rw (none_here) sound
          | inr ((a, b), here) ↦
              let (ha, hb) = edge_of-lt p a b here in
              rw (here) (
                unite-IsSound R R_sym R_trans a b labels (omega arith) (omega arith)
                  (edges 0 p a b refl here) sound)
        ])
        i j hi hj e

  IsLinked-lt :
      (profiles : List (CorrelationProfile D)) (i j : ℕ)
      → IsLinked allocations profiles i j
      → (i < length allocations) × (j < length allocations)
  IsLinked-lt profiles i j (same _ h) = (h, h)
  IsLinked-lt profiles i j (correlated k p _ _ at_k e) = edge_of-lt p i j e
  IsLinked-lt profiles i j (backwards _ _ l) = let (hj, hi) = IsLinked-lt profiles j i l in (hi, hj)
  IsLinked-lt profiles i j (through _ k _ l m) =
      ((IsLinked-lt profiles i k l).0, (IsLinked-lt profiles k j m).1)

  IsLinked-labels :
      (profiles : List (CorrelationProfile D)) (i j : ℕ)
      → IsLinked allocations profiles i j
      → label_at (labels_of allocations profiles) i ≡ label_at (labels_of allocations profiles) j
  unfolding labels_of
  IsLinked-labels profiles i j (same _ h) = refl
  IsLinked-labels profiles i j (correlated k p _ _ at_k e) =
      label_from-joins profiles (own_labels 0 (length allocations)) k p i j
        (length-own_labels 0 (length allocations)) at_k e
  IsLinked-labels profiles i j (backwards _ _ l) = sym (IsLinked-labels profiles j i l)
  IsLinked-labels profiles i j (through _ k _ l m) =
      IsLinked-labels profiles i k l ∙ IsLinked-labels profiles k j m

  own_IsLinked :
      (profiles : List (CorrelationProfile D)) (a b : ℕ)
      → a < length allocations
      → a ≡ b
      → IsLinked allocations profiles a b
  own_IsLinked profiles a b h e = rw (sym e) (same a h)

  -- Two held assets get the same cluster label where and only where they are linked by active
  -- profiles with a score above 7/10, directly or through other held assets.
  pub labels_of-IsLinked :
      (profiles : List (CorrelationProfile D)) (i j : ℕ)
      → i < length allocations
      → j < length allocations
      → (label_at (labels_of allocations profiles) i ≡ label_at (labels_of allocations profiles) j)
        ↔ IsLinked allocations profiles i j
  unfolding labels_of
  labels_of-IsLinked profiles i j hi hj = (
    label_from-IsSound (IsLinked allocations profiles) backwards through profiles
        (own_labels 0 (length allocations)) (length-own_labels 0 (length allocations)) correlated
        (λ a b ha hb e.
          let ha' : a < length allocations =
            omega (arith, ha, length-own_labels 0 (length allocations)) in
          let hb' : b < length allocations =
            omega (arith, hb, length-own_labels 0 (length allocations)) in
          own_IsLinked profiles a b ha' (
            omega (
              arith,
              e,
              own_labels-get 0 (length allocations) a ha',
              own_labels-get 0 (length allocations) b hb',
            )))
        i j hi hj,
    IsLinked-labels profiles i j,
  )
