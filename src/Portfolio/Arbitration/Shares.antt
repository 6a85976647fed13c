-- ===== src/Portfolio/Arbitration/Shares.antt =====
-- The shares that the arbitration gives: each is in the unit interval, and an asset that a
-- dimension bars has none.
use ailee_finance_unified_ru.Prelude.{
  ℕ, zero, suc, ◌≤◌, ◌<◌, ◌≡◌, Bool, true, ◌&&◌, ◌||◌, some, List, [], ◌∷◌, arith, map, take,
  length, get_elem?, ◌==◌, Bool-cases, inl, inr,
}
use ailee_finance_unified_ru.Float.{Float, IsIeee, ◌≼◌, nought}
use ailee_finance_unified_ru.Float.Bounds.{IsUnit}
use ailee_finance_unified_ru.Portfolio.Assets.{max_assets, all_of, get_elem?-map, All-get}
use ailee_finance_unified_ru.Portfolio.Arbitration.{
  Advisory, AllocationDecision, ArbitrationResult, Candidate, safety, regulatory, is_hard_block,
  scale_in, rate, weigh, advance, total_weight, share_of, arbitrate, is_evidence,
}
use ailee_finance_unified_ru.Portfolio.Arbitration.Rise.{rise, traverse-map}
use ailee_finance_unified_ru.Portfolio.Arbitration.Weights.{
  IsUpTo, nought-IsUpTo, rise-asset_id, risen-All, upto-IsFinite, weight-le-sum,
}

module _ {D : Type 0} ⦃d : Float D⦄ where
  -- Zero, of either sign.
  abbrev pub IsNought : D → Type 0
  IsNought x = (x ≼ nought) × (nought ≼ x)

  -- The dimension that takes all weight from an asset, whatever it had.
  abbrev pub is_barred : ℕ → Candidate D → Bool
  is_barred dimension c =
      dimension == regulatory && is_hard_block c.raw_flags
      || dimension == safety && d.lt c.safety_hurdle (d.ratio 35 100)

  module _ (laws : IsIeee D) where
    share-IsUnit :
        (total : D) (c : Candidate D)
        → IsUpTo 32 c.weight
        → c.weight ≼ total
        → IsUnit (share_of total c).recommended_allocation
    share-IsUnit total c (lo, hi) h = elim (Bool-cases (d.lt nought total)) [
      | inl some_weight ↦
          rw (some_weight)
            (laws.div_share c.weight total lo h some_weight (upto-IsFinite laws c.weight (lo, hi)))
      | inr no_weight ↦ rw (no_weight) (nought-IsUpTo laws 1)
    ]

    weigh-IsNought :
        (dimension : ℕ) (c : Candidate D) → IsNought c.weight → IsNought (weigh dimension c)
    unfolding weigh
    weigh-IsNought dimension c h = ground arith

    weigh-barred :
        (dimension : ℕ) (c : Candidate D)
        → is_barred dimension c ≡ true
        → IsNought (weigh dimension c)
    unfolding weigh rate
    weigh-barred dimension c h = let zero_le = (nought-IsUpTo laws 0).0 in ground (arith, zero_le)

    rise-IsNought :
        (ladder : List ℕ) (c : Candidate D) → IsNought c.weight → IsNought (rise ladder c).weight
    rise-IsNought [] c h = h
    rise-IsNought (dimension ∷ ladder) c h =
        rise-IsNought ladder (advance dimension c) (weigh-IsNought dimension c h)

    rise-barred :
        (ladder : List ℕ) (s dimension : ℕ) (c : Candidate D)
        → get_elem? ladder s ≡ some dimension
        → is_barred dimension c ≡ true
        → IsNought (rise ladder c).weight
    rise-barred [] s dimension c e h = ground arith
    rise-barred (first ∷ ladder) zero dimension c e h =
        rise-IsNought ladder (advance first c) (weigh-barred first c (ground arith))
    rise-barred (first ∷ ladder) (suc s) dimension c e h =
        rise-barred ladder s dimension (advance first c) e h

    share-IsNought :
        (total : D) (c : Candidate D)
        → IsNought c.weight
        → IsNought (share_of total c).recommended_allocation
    share-IsNought total c (hi, lo) = elim (Bool-cases (d.lt nought total)) [
      | inl some_weight ↦ rw (some_weight) (laws.div_nought c.weight total hi lo some_weight)
      | inr no_weight ↦ rw (no_weight) ((nought-IsUpTo laws 0).0, (nought-IsUpTo laws 0).0)
    ]

    get_elem?-take :
        (n i : ℕ) (advisories : List (Advisory D)) (a : Advisory D)
        → i < n
        → get_elem? advisories i ≡ some a
        → get_elem? (take n advisories) i ≡ some a
    get_elem?-take zero i advisories a h e = ground arith
    get_elem?-take (suc n) i [] a h e = ground arith
    get_elem?-take (suc n) zero (b ∷ advisories) a h e = e
    get_elem?-take (suc n) (suc i) (b ∷ advisories) a h e =
        get_elem?-take n i advisories a (omega arith) e

    arbitrate-shape :
        (advisories : List (Advisory D)) (ladder : List ℕ) (r : ArbitrationResult D)
        → arbitrate advisories ladder ≡ some r
        → let risen = map (rise ladder) (map scale_in (take max_assets advisories)) in
          (r.decisions ≡ map (share_of (total_weight risen)) risen)
          × (all_of is_evidence advisories ≡ true)
    unfolding arbitrate
    arbitrate-shape advisories ladder r h =
        ground (arith, traverse-map ladder (map scale_in (take max_assets advisories)) [])

    -- When the arbitration returns, for a ladder of at most five stages, each of the first 16
    -- assets has a decision in its place, with its id and an allocation in [0, 1].
    pub arbitrate-IsUnit :
        (advisories : List (Advisory D)) (ladder : List ℕ) (r : ArbitrationResult D) (i : ℕ)
        (a : Advisory D)
        → length ladder ≤ 5
        → arbitrate advisories ladder ≡ some r
        → i < max_assets
        → get_elem? advisories i ≡ some a
        → (s : AllocationDecision D) × (get_elem? r.decisions i ≡ some s)
          × (s.asset_id ≡ a.asset_id)
          × IsUnit s.recommended_allocation
    unfolding scale_in
    arbitrate-IsUnit advisories ladder r i a short h small at_i =
        let (shape, valid) = arbitrate-shape advisories ladder r h in
        let risen = map (rise ladder) (map scale_in (take max_assets advisories)) in
        let c = rise ladder (scale_in a) in
        let here =
          get_elem?-map (rise ladder) _ i (scale_in a)
            (get_elem?-map scale_in _ i a (get_elem?-take max_assets i advisories a small at_i)) in
        let bounded = risen-All laws ladder max_assets advisories short valid in
        let total = total_weight risen in
        (
          share_of total c,
          rw (shape) (get_elem?-map (share_of total) risen i c here),
          rise-asset_id laws ladder (scale_in a),
          share-IsUnit total c (All-get _ risen i c bounded here)
              (weight-le-sum laws nought risen i c (nought-IsUpTo laws 0).0 bounded here),
        )

    -- When the arbitration returns and the ladder has the regulatory dimension, an asset among
    -- the first 16 that is hard-blocked gets the allocation 0; so does one with a safety level
    -- below 35/100 if the ladder has the safety dimension.
    pub arbitrate-IsNought :
        (advisories : List (Advisory D)) (ladder : List ℕ) (r : ArbitrationResult D)
        (i j dimension : ℕ) (a : Advisory D)
        → arbitrate advisories ladder ≡ some r
        → i < max_assets
        → get_elem? advisories i ≡ some a
        → get_elem? ladder j ≡ some dimension
        → is_barred dimension (scale_in a) ≡ true
        → (s : AllocationDecision D) × (get_elem? r.decisions i ≡ some s)
          × (s.asset_id ≡ a.asset_id)
          × IsNought s.recommended_allocation
    unfolding scale_in
    arbitrate-IsNought advisories ladder r i j dimension a h small at_i at_j barred =
        let (shape, valid) = arbitrate-shape advisories ladder r h in
        let risen = map (rise ladder) (map scale_in (take max_assets advisories)) in
        let c = rise ladder (scale_in a) in
        let here =
          get_elem?-map (rise ladder) _ i (scale_in a)
            (get_elem?-map scale_in _ i a (get_elem?-take max_assets i advisories a small at_i)) in
        let total = total_weight risen in
        (
          share_of total c,
          rw (shape) (get_elem?-map (share_of total) risen i c here),
          rise-asset_id laws ladder (scale_in a),
          share-IsNought total c (rise-barred ladder j dimension (scale_in a) at_j barred),
        )
