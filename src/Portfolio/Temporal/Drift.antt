-- ===== src/Portfolio/Temporal/Drift.antt =====
-- The allocation that is resolved: the dampening of a turn, and the clamp of the drift.
use ailee_finance_unified_ru.Prelude.{
  ℕ, ◌%◌, ◌≡◌, ◌⊎◌, inl, inr, true, false, Option, none, some, List, [], ◌∷◌, refl, arith,
  get_elem?, Bool-cases,
}
use ailee_finance_unified_ru.Float.{Float, IsIeee, ◌≼◌, ◌≺◌, IsFinite}
use ailee_finance_unified_ru.Portfolio.Assets.{all_of, all_of-All, All-get, get_elem?-map}
use ailee_finance_unified_ru.Portfolio.Temporal.{
  TemporalState, TemporalPortfolioState, Enforced, previous_of, baseline, expected, oscillates,
  opposes, dampen, mark, clamp_drift, resolve, resolved, is_previous, is_valid,
  enforce_temporal_consistency,
}
use ailee_finance_unified_ru.Portfolio.Temporal.Traced.{
  enforce-is_valid, enforce_temporal_consistency-map,
}

module _ {D : Type 0} ⦃d : Float D⦄ where
  -- Both steps are larger than 1/10000, and they go opposite ways.
  abbrev pub IsTurned : D → D → Type 0
  IsTurned last next =
      ((d.ratio 1 10_000 ≺ last) × (next ≺ d.neg (d.ratio 1 10_000)))
      ⊎ ((last ≺ d.neg (d.ratio 1 10_000)) × (d.ratio 1 10_000 ≺ next))

  -- The allocation aimed at, with the flags: what was proposed, or half the way to it and the
  -- lowest bit set where the steps turn.
  abbrev pub IsAimed : Option (TemporalState D) → D → ℕ → D → Type 0
  IsAimed none proposed flags target = (target ≡ proposed) × (flags % 2 ≡ 0)
  IsAimed (some p) proposed flags target =
      let last = d.sub p.prev_allocation p.prev_prev_allocation in
      let next = d.sub proposed p.prev_allocation in
      (IsTurned last next
        × (target ≡ d.add p.prev_allocation (d.mul (d.ratio 1 2) next))
        × (flags % 2 ≡ 1))
      ⊎ ((¬ IsTurned last next) × (target ≡ proposed) × (flags % 2 ≡ 0))

  -- The allocation aimed at where it is at most the threshold away from `w`, and otherwise
  -- `w` moved by the threshold towards it.
  abbrev pub IsClamped : D → D → D → D → Type 0
  IsClamped threshold w target x =
      ((d.abs (d.sub target w) ≼ threshold) × (x ≡ target))
      ⊎ ((threshold ≺ d.abs (d.sub target w)) × (w ≺ target) × (x ≡ d.add w threshold))
      ⊎ ((threshold ≺ d.abs (d.sub target w)) × (d.lt w target ≡ false) × (x ≡ d.sub w threshold))

  dampen-IsAimed :
      (history : Option (TemporalState D)) (proposed : D) (flags : ℕ)
      → IsAimed history proposed
          (mark (oscillates history proposed) flags)
          (dampen history proposed)
  unfolding oscillates dampen
  dampen-IsAimed none proposed flags = ground arith
  dampen-IsAimed (some p) proposed flags =
      let last = d.sub p.prev_allocation p.prev_prev_allocation in
      let next = d.sub proposed p.prev_allocation in
      elim (Bool-cases (opposes last next)) [
        | inl turned ↦ rw (turned) (inl (ground arith, refl, ground arith))
        | inr steady ↦ rw (steady) (inr ((λ h. ground arith), refl, ground arith))
      ]

  module _ (laws : IsIeee D) where
    clamp_drift-IsClamped :
        (threshold w x : D)
        → IsFinite w
        → IsFinite threshold
        → IsFinite (clamp_drift threshold w x).0
        → IsClamped threshold w x (clamp_drift threshold w x).0
    unfolding clamp_drift
    clamp_drift-IsClamped threshold w x fw ft fx =
        elim (Bool-cases (d.lt threshold (d.abs (d.sub x w)))) [
          | inl far ↦ elim (Bool-cases (d.lt w x)) [
            | inl over ↦ inr (inl (far, over, ground arith))
            | inr under ↦ inr (inr (far, under, ground arith))
          ]
          | inr near ↦
              let fx' : IsFinite x = ground arith in
              let drift = laws.sub_num x w fx' fw in
              rw (near) (
                inl (
                  laws.le_of_not_lt threshold (d.abs (d.sub x w)) (laws.num_of_finite threshold ft)
                      (laws.num_of_le _ _ (laws.abs_nonneg _ drift)).1 near,
                  refl,
                ))
        ]

module _ {D : Type 0} ⦃d : Float D⦄ (laws : IsIeee D) (threshold : D)
    (prev : List (TemporalState D)) where
  baseline-IsFinite :
      (asset : ℕ) (states : List (TemporalState D))
      → all_of (is_previous threshold prev) states ≡ true
      → IsFinite (baseline (previous_of asset states))
  unfolding baseline previous_of all_of
  baseline-IsFinite asset [] h = laws.ratio_finite 0 1 (omega arith) (omega arith)
  baseline-IsFinite asset (s ∷ states) h =
      let later = baseline-IsFinite asset states in ground (arith, later)

  is_valid-IsFinite :
      (prev_portfolio : TemporalPortfolioState D) (states : List (TemporalState D))
      → is_valid threshold prev prev_portfolio states ≡ true
      → IsFinite threshold × (all_of (is_previous threshold prev) prev ≡ true)
  unfolding is_valid
  is_valid-IsFinite prev_portfolio states h = (ground arith, ground arith)

  -- When the enforcement returns, each asset keeps its id and its previous allocation is
  -- recorded; where the last step and the proposed one are both larger than 1/10000 and go
  -- opposite ways, the flag for an oscillation is set and the allocation aimed at is half the
  -- way to the proposed one, and elsewhere, or with no history, the flag is clear and it is
  -- the proposed one; the new allocation is the one aimed at where that is at most the
  -- threshold away from the previous one, and otherwise the previous one moved by the
  -- threshold, up where the aim is above it and down where it is not.
  pub enforce_temporal_consistency-IsClamped :
      (prev_portfolio : TemporalPortfolioState D) (states : List (TemporalState D)) (e : Enforced D)
      (i : ℕ) (s : TemporalState D)
      → enforce_temporal_consistency threshold prev prev_portfolio states ≡ some e
      → get_elem? states i ≡ some s
      → (r : TemporalState D) × (target : D) × (get_elem? e.states i ≡ some r)
        × (r.asset_id ≡ s.asset_id)
        × IsAimed (previous_of s.asset_id prev) s.prev_allocation r.flags target
        × IsClamped threshold (expected threshold prev s) target r.prev_allocation
        × (r.prev_prev_allocation ≡ expected threshold prev s)
  unfolding resolve
  enforce_temporal_consistency-IsClamped prev_portfolio states e i s h at_i =
      let (valid, finite) = enforce-is_valid threshold prev prev_portfolio states e h in
      let (fin_threshold, fin_prev) = is_valid-IsFinite prev_portfolio states valid in
      let shape = (enforce_temporal_consistency-map threshold prev prev_portfolio states e h).0 in
      let found : get_elem? e.states i ≡ some (resolved threshold prev s) =
        rw (shape) (get_elem?-map (resolved threshold prev) states i s at_i) in
      let fin =
        All-get (λ (r : TemporalState D). IsFinite r.prev_allocation) e.states i
          (resolved threshold prev s) (all_of-All _ e.states finite) found in
      let history = previous_of s.asset_id prev in
      (
        resolved threshold prev s,
        dampen history s.prev_allocation,
        found,
        refl,
        dampen-IsAimed history s.prev_allocation s.flags,
        clamp_drift-IsClamped laws threshold _ _ (baseline-IsFinite s.asset_id prev fin_prev)
            fin_threshold fin,
        refl,
      )
