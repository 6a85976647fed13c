-- ===== src/Portfolio/Constraints/Stages.antt =====
-- Stage by stage: what each loop over the assets keeps of them.
use ailee_finance_unified_ru.Prelude.{
  ℕ, suc, ◌≡◌, true, ◌&&◌, Option, none, some, List, [], ◌∷◌, refl, arith, sym, Bool-cases, inl,
  inr, Option-cases, ◌∙◌, ltb,
}
use ailee_finance_unified_ru.Float.{Float, IsIeee, ◌≼◌, ◌≺◌, nought}
use ailee_finance_unified_ru.Float.Bounds.{All}
use ailee_finance_unified_ru.Portfolio.Assets.{
  AssetAllocation, is_nonnegative, is_nonnegative-le, Pairs, Pairs-trans, Pairs-All, max_trace,
  record_step,
}
use ailee_finance_unified_ru.Portfolio.Constraints.{
  ConstraintRule, SectorDefinition, RiskBudget, Course, ConstraintTraceStep, rule_of,
  clamp_exposure, step_of, each, clamp_exposures, sector_sum, scale_down, cap_sector, cap_sectors,
  cluster_size, cluster_sum, dampen_cluster, scale_risk,
}
use ailee_finance_unified_ru.Portfolio.Constraints.Clusters.{label_at}
use ailee_finance_unified_ru.Portfolio.Constraints.Shrunk.{
  IsShrunk, IsCapped, IsRule, IsKept, IsSized, IsShrunk-refl, IsShrunk-trans, shrunk-IsFinite,
  mul-IsShrunk, scale_down-IsShrunk, rule_of-IsRule, clamp_exposure-IsShrunk,
}

module _ {D : Type 0} ⦃d : Float D⦄ where
  abbrev pub IsSector : SectorDefinition D → Type 0
  IsSector s = is_nonnegative s.max_sector_exposure ≡ true

  -- Kept, and within the rule of the asset.
  abbrev pub IsRuled : List (ConstraintRule D) → AssetAllocation D → AssetAllocation D → Type 0
  IsRuled rules a b = IsKept a b × IsCapped (rule_of a.asset_id rules) b.allocation

  -- What each visit keeps, the loop keeps.
  each-Pairs :
      (R : AssetAllocation D → AssetAllocation D → Type 0) (stage : ℕ)
      (visit : ℕ → AssetAllocation D → Option (D × ℕ))
      → ((i : ℕ) (a : AssetAllocation D) → IsSized a → visit i a ≡ none → R a a)
      → ((i : ℕ) (a : AssetAllocation D) (x : D) (action : ℕ)
          → IsSized a
          → visit i a ≡ some (x, action)
          → R a (record a { allocation = x }))
      → (i : ℕ) (allocations : List (AssetAllocation D)) (trace : List (ConstraintTraceStep D))
      → All IsSized allocations
      → Pairs R allocations (each stage visit i allocations trace).allocations
  unfolding each
  each-Pairs R stage visit skip take i [] trace sized = tt
  each-Pairs R stage visit skip take i (a ∷ allocations) trace (h, sized) =
      elim (Option-cases (visit i a)) [
        | inl e ↦
            rw (e, Pairs)
              (skip i a h e, each-Pairs R stage visit skip take (suc i) allocations trace sized)
        | inr ((x, action), e) ↦
            rw (e, Pairs)
              (
                take i a x action h e,
                each-Pairs R stage visit skip take (suc i) allocations
                    (record_step max_trace (step_of stage a (x, action)) trace) sized,
              )
      ]

  module _ (laws : IsIeee D) where
    IsKept-refl : (a : AssetAllocation D) → IsSized a → IsKept a a
    IsKept-refl a h = (refl, refl, IsShrunk-refl laws a.allocation h)

    IsKept-trans : (a b c : AssetAllocation D) → IsKept a b → IsKept b c → IsKept a c
    IsKept-trans a b c (e, f, s) (e', f', s') =
        (e' ∙ e, f' ∙ f, IsShrunk-trans laws a.allocation b.allocation c.allocation s s')

    pub IsKept-IsSized : (a b : AssetAllocation D) → IsSized a → IsKept a b → IsSized b
    IsKept-IsSized a b h k = shrunk-IsFinite laws a.allocation b.allocation h k.2

    shrunk-IsCapped :
        (rule : Option (ConstraintRule D)) (y z : D)
        → ((r : ConstraintRule D) → rule ≡ some r → IsRule r)
        → IsCapped rule y
        → IsShrunk y z
        → IsCapped rule z
    shrunk-IsCapped none y z valid capped small = tt
    shrunk-IsCapped (some r) y z valid (lo, hi) small =
        let nonneg = valid r refl in
        let (_, long) = is_nonnegative-le laws r.max_long_exposure (ground arith) in
        let (_, short) = is_nonnegative-le laws r.max_short_exposure (ground arith) in
        let below = laws.le_trans _ _ _ (laws.neg_le _ _ short) laws.neg_nought.0 in
        elim small [
          | inl (up, under) ↦ (laws.le_trans _ _ _ below up, laws.le_trans z y _ under hi)
          | inr (over, down) ↦ (laws.le_trans _ y z lo over, laws.le_trans _ _ _ down long)
        ]

    pub IsRuled-trans :
        (rules : List (ConstraintRule D))
        → All IsRule rules
        → (a b c : AssetAllocation D) → IsRuled rules a b
        → IsKept b c
        → IsRuled rules a c
    IsRuled-trans rules valid a b c (kept, capped) k = (
      IsKept-trans a b c kept k,
      shrunk-IsCapped (rule_of a.asset_id rules) b.allocation c.allocation
          (λ r. rule_of-IsRule laws a.asset_id rules r valid) capped k.2,
    )

    pub clamp_exposures-Pairs :
        (rules : List (ConstraintRule D)) (allocations : List (AssetAllocation D))
        → All IsRule rules
        → All IsSized allocations
        → Pairs
            (IsRuled rules)
            allocations
            (each 1 (clamp_exposures rules) 0 allocations []).allocations
    clamp_exposures-Pairs rules allocations valid sized =
        each-Pairs (IsRuled rules) 1 (clamp_exposures rules) (λ i a h e. ground arith)
          (λ i a x action h e.
            let (small, capped) =
              clamp_exposure-IsShrunk laws (rule_of a.asset_id rules) a.allocation h
                (λ r. rule_of-IsRule laws a.asset_id rules r valid) in
            let here : (clamp_exposure (rule_of a.asset_id rules) a.allocation).0 ≡ x =
              ground arith in
            ((refl, refl, rw (sym here) small), rw (sym here) capped))
          0 allocations [] sized

    -- A stage that only scales.
    pub scale-Pairs :
        (stage : ℕ) (visit : ℕ → AssetAllocation D → Option (D × ℕ))
        (allocations : List (AssetAllocation D)) (trace : List (ConstraintTraceStep D))
        → ((i : ℕ) (a : AssetAllocation D) (x : D) (action : ℕ)
            → IsSized a
            → visit i a ≡ some (x, action)
            → IsShrunk a.allocation x)
        → All IsSized allocations
        → Pairs IsKept allocations (each stage visit 0 allocations trace).allocations
    scale-Pairs stage visit allocations trace shrinks sized =
        each-Pairs IsKept stage visit (λ i a h e. IsKept-refl a h)
          (λ i a x action h e. (refl, refl, shrinks i a x action h e)) 0 allocations trace sized

    Pairs-refl :
        (allocations : List (AssetAllocation D))
        → All IsSized allocations
        → Pairs IsKept allocations allocations
    Pairs-refl [] sized = tt
    Pairs-refl (a ∷ allocations) (h, sized) = (IsKept-refl a h, Pairs-refl allocations sized)

    cap_sector-IsShrunk :
        (s : SectorDefinition D) (sum : D) (i : ℕ) (a : AssetAllocation D) (x : D) (action : ℕ)
        → IsSector s
        → IsSized a
        → cap_sector s sum i a ≡ some (x, action)
        → IsShrunk a.allocation x
    unfolding cap_sector
    cap_sector-IsShrunk s sum i a x action valid h e =
        let (fin, low) = is_nonnegative-le laws s.max_sector_exposure valid in
        let here : (scale_down s.max_sector_exposure sum 1 a.allocation).0 ≡ x = ground arith in
        rw (sym here) (scale_down-IsShrunk laws s.max_sector_exposure sum 1 a.allocation h fin low)

    pub cap_sectors-Pairs :
        (sectors : List (SectorDefinition D)) (c : Course D)
        → All IsSector sectors
        → All IsSized c.allocations
        → Pairs IsKept c.allocations (cap_sectors sectors c).allocations
    unfolding cap_sectors cap_sector
    cap_sectors-Pairs [] c valid sized = Pairs-refl c.allocations sized
    cap_sectors-Pairs (s ∷ sectors) c (hs, valid) sized = elim (Bool-cases s.is_active) [
      | inr idle ↦ rw (idle) (cap_sectors-Pairs sectors c valid sized)
      | inl active ↦
          let next =
            each 2 (cap_sector s (sector_sum s.sector_id nought c.allocations)) 0 c.allocations
              c.trace in
          let first =
            scale-Pairs 2 (cap_sector s (sector_sum s.sector_id nought c.allocations)) c.allocations
              c.trace (λ i a x action. cap_sector-IsShrunk s _ i a x action hs) sized in
          rw (active) (
            Pairs-trans IsKept IsKept IsKept IsKept-trans c.allocations next.allocations _ first (
              cap_sectors-Pairs sectors next valid
                (Pairs-All IsKept IsSized IsKept-IsSized _ _ first sized)))
    ]

    positive : (limit sum : D) → nought ≼ limit → limit ≺ sum → nought ≺ sum
    positive limit sum low above =
        let (_, num) = laws.num_of_le _ _ (laws.le_of_lt _ _ above) in
        ground (
          arith,
          laws.lt_of_not_le sum nought num (laws.num_of_le _ _ low).0,
          λ (h : sum ≼ nought). laws.not_lt_of_le sum limit (laws.le_trans _ _ _ h low),
        )

    pub dampen_cluster-IsShrunk :
        (labels : List ℕ) (allocations : List (AssetAllocation D)) (i : ℕ) (a : AssetAllocation D)
        (x : D) (action : ℕ)
        → IsSized a
        → dampen_cluster labels allocations i a ≡ some (x, action)
        → IsShrunk a.allocation x
    unfolding dampen_cluster
    dampen_cluster-IsShrunk labels allocations i a x action h e =
        let limit = d.ratio 3 10 in
        let sum = cluster_sum labels (label_at labels i) nought 0 allocations in
        let breach =
          ltb 1 (cluster_size labels (label_at labels i) 0 0 allocations) && d.lt limit sum in
        let fin = laws.ratio_finite 3 10 (omega arith) (omega arith) in
        let low : nought ≼ limit =
          laws.ratio_le 0 1 3 10 (omega arith) (omega arith) (omega arith) in
        elim (Bool-cases breach) [
          | inl on ↦
              (let here : d.mul a.allocation (d.div limit sum) ≡ x = ground arith in
                let above : limit ≺ sum = ground arith in
                rw (sym here) (
                  mul-IsShrunk laws a.allocation (d.div limit sum) h (
                    laws.div_share limit sum low (laws.le_of_lt _ _ above)
                      (positive limit sum low above) fin)))
          | inr off ↦
              (let here : a.allocation ≡ x = ground arith in
                rw (sym here) (IsShrunk-refl laws a.allocation h))
        ]

    pub scale_risk-IsShrunk :
        (budget : RiskBudget D) (risk : D) (i : ℕ) (a : AssetAllocation D) (x : D) (action : ℕ)
        → is_nonnegative budget.max_portfolio_risk ≡ true
        → IsSized a
        → scale_risk budget risk i a ≡ some (x, action)
        → IsShrunk a.allocation x
    unfolding scale_risk
    scale_risk-IsShrunk budget risk i a x action valid h e =
        let (fin, low) = is_nonnegative-le laws budget.max_portfolio_risk valid in
        let scaled =
          scale_down-IsShrunk laws budget.max_portfolio_risk risk 3 a.allocation h fin low in
        elim (Bool-cases (budget.is_active && d.lt nought a.risk_score)) [
          | inl on ↦
              (let here : (scale_down budget.max_portfolio_risk risk 3 a.allocation).0 ≡ x =
                  ground arith in
                rw (sym here) scaled)
          | inr off ↦
              (let here : a.allocation ≡ x = ground arith in
                rw (sym here) (IsShrunk-refl laws a.allocation h))
        ]
