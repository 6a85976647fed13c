-- ===== src/Float/Bounds.antt =====
-- Bounds that the modules share: clamping, sums and means of values in [0, 1].
use native.Mathlib.Nat.{add-suc, add-zero, suc-add, zero-add}
use native.Mathlib.Numerals.{add-one}
use ailee_finance_unified_ru.Prelude.{
  ℕ, zero, suc, ◌+◌, ◌^◌, ◌≤◌, ◌≡◌, List, [], ◌∷◌, ◌≢◌, refl, arith, length,
}
use ailee_finance_unified_ru.Float.{
  Float, IsIeee, ◌≼◌, IsNum, IsFinite, nought, one, of_nat, clamp, sum_from,
}

abbrev pub All {ℓ κ} : {A : Type ℓ} → (A → Type κ) → List A → Type κ
All P [] = Unit
All P (x ∷ xs) = P x × All P xs

module _ {F : Type 0} ⦃f : Float F⦄ where
  -- A value of [0, 1].
  abbrev pub IsUnit : F → Type 0
  IsUnit x = (nought ≼ x) × (x ≼ one)

  -- A value of [-m, m].
  abbrev pub IsWithin : F → F → Type 0
  IsWithin m x = (f.neg m ≼ x) × (x ≼ m)

  module _ (laws : IsIeee F) where
    open laws use {
      num_of_finite, num_of_le, le_refl, le_trans, le_of_lt, le_of_not_lt, finite_between, neg_le,
      neg_nought, ratio_finite, ratio_le, nat_pos, add_mono, add_nat, div_unit,
    }

    pub of_nat-IsFinite : (n : ℕ) → n ≤ 2 ^ 24 → IsFinite (of_nat {F = F} n)
    of_nat-IsFinite n h = ratio_finite n 1 h (omega arith)

    pub unit-IsFinite : (x : F) → IsUnit x → IsFinite x
    unit-IsFinite x u =
        finite_between nought x one (of_nat-IsFinite 0 (omega arith))
          (of_nat-IsFinite 1 (omega arith)) u.0 u.1

    pub clamp_bounds :
        (v lo hi : F) → IsNum v → lo ≼ hi → (lo ≼ clamp v lo hi) × (clamp v lo hi ≼ hi)
    clamp_bounds v lo hi num h =
        ground
          (arith, num_of_le lo hi h, le_refl lo, le_refl hi, le_of_not_lt v lo, le_of_not_lt hi v)

    pub neg-le_self : (m : F) → nought ≼ m → f.neg m ≼ m
    neg-le_self m h = le_trans _ _ _ (neg_le nought m h) (le_trans _ _ _ neg_nought.0 h)

    pub clamp-IsWithin : (v m : F) → IsNum v → nought ≼ m → IsWithin m (clamp v (f.neg m) m)
    clamp-IsWithin v m num h = clamp_bounds v (f.neg m) m num (neg-le_self m h)

    pub nought-IsWithin : (m : F) → nought ≼ m → IsWithin m nought
    nought-IsWithin m h = (le_trans _ _ _ (neg_le nought m h) neg_nought.0, h)

    -- A sum of `n` values of [0, 1] started in [0, k] lies in [0, k + n].
    pub sum_from-le :
        (xs : List F) (acc : F) (k : ℕ)
        → All IsUnit xs
        → nought ≼ acc
        → acc ≼ of_nat k
        → k + length xs ≤ 2 ^ 24
        → (nought ≼ sum_from acc xs) × (sum_from acc xs ≼ of_nat (k + length xs))
    unfolding sum_from
    sum_from-le [] acc k u lo hi small = (lo, rw (add-zero) hi)
    sum_from-le (x ∷ xs) acc k (ux, u) lo hi small =
        let next = f.add acc x in
        let small' : suc k + length xs ≤ 2 ^ 24 = omega arith in
        let fin = unit-IsFinite x ux in
        let lo' : nought ≼ next =
          rw (add_nat 0 0 (omega arith)) at
            (add_mono nought acc nought x lo ux.0 (of_nat-IsFinite 0 (omega arith)) fin) in
        let hi' : next ≼ of_nat (suc k) =
          rw (add_nat k 1 (omega arith), add-one) at
            (add_mono acc (of_nat k) x one hi ux.1 fin (of_nat-IsFinite 1 (omega arith))) in
        let (low, high) = sum_from-le xs next (suc k) u lo' hi' small' in
        (low, rw (add-suc, ← suc-add) high)

    -- The mean of values of [0, 1] lies in [0, 1].
    pub mean-IsUnit :
        (xs : List F) (n : ℕ)
        → length xs ≡ n
        → n ≢ 0
        → n ≤ 2 ^ 24
        → All IsUnit xs
        → IsUnit (f.div (sum_from nought xs) (of_nat n))
    mean-IsUnit xs zero e some_count small u = absurd (some_count refl)
    mean-IsUnit xs (suc n) e some_count small u =
        let (low, high) =
          sum_from-le xs nought 0 u (le_refl _ (num_of_finite _ (of_nat-IsFinite 0 (omega arith))))
            (le_refl _ (num_of_finite _ (of_nat-IsFinite 0 (omega arith)))) (omega arith) in
        div_unit _ (of_nat (suc n)) low (rw (zero-add, e) at high) (nat_pos n)
          (of_nat-IsFinite (suc n) small)
