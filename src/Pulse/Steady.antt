-- ===== src/Pulse/Steady.antt =====
-- The factor of the harmonic sync, however many deltas have been timed.
use ailee_finance_unified_ru.Prelude.{
  ℕ, zero, suc, List, [], ◌∷◌, arith, set, replicate, Bool-cases, inl, inr,
}
use ailee_finance_unified_ru.Float.{Float, IsIeee, ◌≼◌, IsFinite, nought, one, of_nat, sum_from}
use ailee_finance_unified_ru.Float.Bounds.{All, IsUnit, of_nat-IsFinite}
use ailee_finance_unified_ru.Pulse.{HarmonicSync, window, silent, time_in, compute_sync}

module _ {D : Type 0} ⦃d : Float D⦄ (laws : IsIeee D) where
  abbrev IsTimed : D → Type 0
  IsTimed x = (nought ≼ x) × IsFinite x

  nought-IsTimed : IsTimed (nought {F = D})
  nought-IsTimed =
      let fin = of_nat-IsFinite laws 0 (omega arith) in
      (laws.le_refl _ (laws.num_of_finite _ fin), fin)

  replicate-All : (n : ℕ) → All IsTimed (replicate n (nought {F = D}))
  replicate-All zero = tt
  replicate-All (suc n) = (nought-IsTimed, replicate-All n)

  set-All : (xs : List D) (i : ℕ) (x : D) → IsTimed x → All IsTimed xs → All IsTimed (set xs i x)
  set-All [] i x h all = tt
  set-All (y ∷ xs) zero x h (_, all) = (h, all)
  set-All (y ∷ xs) (suc i) x h (hy, all) = (hy, set-All xs i x h all)

  sum_from-nonneg :
      (acc : D) (xs : List D) → nought ≼ acc → All IsTimed xs → nought ≼ sum_from acc xs
  unfolding sum_from
  sum_from-nonneg acc [] lo all = lo
  sum_from-nonneg acc (x ∷ xs) lo ((pos, fin), all) =
      let num = (laws.num_of_le _ _ lo).1 in
      let grows =
        laws.le_trans _ _ _ (laws.add_nought acc num).1
          (laws.add_mono acc acc nought x (laws.le_refl acc num) pos nought-IsTimed.1 fin) in
      sum_from-nonneg (d.add acc x) xs (laws.le_trans _ _ _ lo grows) all

  abbrev timed : List D → HarmonicSync D
  timed [] = silent
  timed (x ∷ deltas) = time_in x (timed deltas)

  timed-All :
      (deltas : List D)
      → All (λ (x : D). IsFinite x) deltas
      → All IsTimed (timed deltas).timing_window
  unfolding time_in
  timed-All [] all = replicate-All window
  timed-All (x ∷ deltas) (fin, all) =
      set-All _ _ (d.abs x) (laws.abs_nonneg x (laws.num_of_finite x fin), laws.abs_finite x fin)
        (timed-All deltas all)

  -- Whatever finite deltas have been timed since the start, the sync factor is in [0, 1].
  pub compute_sync-IsUnit :
      (deltas : List D)
      → All (λ (x : D). IsFinite x) deltas
      → IsUnit (compute_sync (timed deltas)).sync_factor
  unfolding compute_sync
  compute_sync-IsUnit deltas all =
      let mean = d.div (sum_from nought (timed deltas).timing_window) (of_nat window) in
      let lo =
        laws.div_nonneg _ (of_nat window)
          (sum_from-nonneg nought (timed deltas).timing_window nought-IsTimed.0
            (timed-All deltas all))
          (laws.nat_pos 15) (of_nat-IsFinite laws 16 (omega arith)) in
      let one_num = laws.num_of_finite _ (of_nat-IsFinite laws 1 (omega arith)) in
      elim (Bool-cases (d.lt mean one)) [
        | inl below ↦ rw (below) (lo, laws.le_of_lt _ _ below)
        | inr above ↦ rw (above) (laws.le_of_lt _ _ laws.one_pos, laws.le_refl _ one_num)
      ]
