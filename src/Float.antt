-- ===== src/Float.antt =====
-- The floating-point numbers of the program: an interface to IEEE 754 arithmetic, which the
-- compiler and the processor provide, and the documented facts that the proofs rely on.
pub mod Fixed
pub mod Bounds
use ailee_finance_unified_ru.Prelude.{
  ℕ, suc, ◌+◌, ◌*◌, ◌^◌, ◌≤◌, ◌<◌, ◌≡◌, Bool, true, false, not, ◌&&◌, if◌then◌else◌, List, [], ◌∷◌,
}

-- `float` or `double`: comparisons are false at NaN, `ratio n d` is the literal n/d, rounded.
pub record Float (F : Type 0) : Type 0 where
  pub lt : F → F → Bool
  pub le : F → F → Bool
  pub is_nan : F → Bool
  pub is_finite : F → Bool
  pub neg : F → F
  pub abs : F → F
  pub add : F → F → F
  pub sub : F → F → F
  pub mul : F → F → F
  pub div : F → F → F
  pub ratio : ℕ → ℕ → F

module _ {F : Type 0} ⦃f : Float F⦄ where
  infix 4 ◌≼◌ ◌≺◌
  abbrev pub ◌≼◌ : F → F → Type 0
  a ≼ b = f.le a b ≡ true

  abbrev pub ◌≺◌ : F → F → Type 0
  a ≺ b = f.lt a b ≡ true

  abbrev pub IsNum : F → Type 0
  IsNum a = f.is_nan a ≡ false

  abbrev pub IsFinite : F → Type 0
  IsFinite a = f.is_finite a ≡ true

  abbrev pub of_nat : ℕ → F
  of_nat n = f.ratio n 1

  abbrev pub nought : F
  nought = f.ratio 0 1

  abbrev pub one : F
  one = f.ratio 1 1

  -- `std::isinf`
  abbrev pub is_inf : F → Bool
  is_inf a = not (f.is_nan a) && not (f.is_finite a)

  -- `a == b` and `a != b` on floats.
  abbrev pub eq : F → F → Bool
  eq a b = f.le a b && f.le b a

  -- `std::clamp(v, lo, hi)`
  abbrev pub clamp : F → F → F → F
  clamp v lo hi = if f.lt v lo then lo else if f.lt hi v then hi else v

  -- `std::max(a, b)` and `std::min(a, b)`
  abbrev pub max_of : F → F → F
  max_of a b = if f.lt a b then b else a

  abbrev pub min_of : F → F → F
  min_of a b = if f.lt b a then b else a

  -- `for (...) sum += xs[i]`, from `acc`.
  unfoldable pub sum_from : F → List F → F
  sum_from acc [] = acc
  sum_from acc (x ∷ xs) = sum_from (f.add acc x) xs

-- What IEEE 754 with rounding to nearest says of these operations, as far as it is used.
-- Naturals up to 2 ^ 24 are exact in both formats, and rounding is monotone.
pub record IsIeee (F : Type 0) ⦃f : Float F⦄ : Type 0 where
  pub num_of_finite : (a : F) → IsFinite a → IsNum a
  pub num_of_le : (a b : F) → a ≼ b → IsNum a × IsNum b
  pub le_refl : (a : F) → IsNum a → a ≼ a
  pub le_trans : (a b c : F) → a ≼ b → b ≼ c → a ≼ c
  pub le_of_lt : (a b : F) → a ≺ b → a ≼ b
  pub le_of_not_lt : (a b : F) → IsNum a → IsNum b → f.lt a b ≡ false → b ≼ a
  pub not_lt_of_le : (a b : F) → a ≼ b → f.lt b a ≡ false
  pub lt_of_not_le : (a b : F) → IsNum a → IsNum b → f.le a b ≡ false → b ≺ a
  pub not_le_of_lt : (a b : F) → a ≺ b → f.le b a ≡ false
  pub lt_trans_le : (a b c : F) → a ≺ b → b ≼ c → a ≺ c
  pub finite_between : (a x b : F) → IsFinite a → IsFinite b → a ≼ x → x ≼ b → IsFinite x
  pub neg_le : (a b : F) → a ≼ b → f.neg b ≼ f.neg a
  pub neg_finite : (a : F) → IsFinite a → IsFinite (f.neg a)
  pub neg_nought : (f.neg nought ≼ nought) × (nought ≼ f.neg nought)
  pub abs_le : (a b : F) → f.neg b ≼ a → a ≼ b → f.abs a ≼ b
  pub abs_finite : (a : F) → IsFinite a → IsFinite (f.abs a)
  pub abs_nonneg : (a : F) → IsNum a → nought ≼ f.abs a
  pub abs_below : (a m : F) → a ≼ nought → m ≼ f.abs a → a ≼ f.neg m
  pub abs_bound : (a m : F) → f.abs a ≼ m → f.neg m ≼ a
  pub ratio_finite : (n d : ℕ) → n ≤ 2 ^ 24 → 0 < d → IsFinite (f.ratio n d)
  pub ratio_le : (n d m e : ℕ) → 0 < d → 0 < e → n * e ≤ m * d → f.ratio n d ≼ f.ratio m e
  pub ratio_lt :
      (n d m e : ℕ)
      → 0 < d
      → 0 < e
      → d * e ≤ 10_000
      → m ≤ e
      → n * e < m * d
      → f.ratio n d ≺ f.ratio m e
  pub ratio_pos : (n d : ℕ) → 0 < d → d ≤ 1_000 * n → f.lt nought (f.ratio n d) ≡ true
  pub one_pos : f.lt nought one ≡ true
  pub nat_pos : (n : ℕ) → f.lt nought (of_nat (suc n)) ≡ true
  pub add_num : (a b : F) → IsNum a → IsFinite b → IsNum (f.add a b)
  pub add_mono : (a b c d : F) → a ≼ b → c ≼ d → IsFinite c → IsFinite d → f.add a c ≼ f.add b d
  pub add_nat : (j k : ℕ) → j + k ≤ 2 ^ 24 → f.add (of_nat j) (of_nat k) ≡ of_nat (j + k)
  pub sub_num : (a b : F) → IsFinite a → IsFinite b → IsNum (f.sub a b)
  pub sub_nought : (a : F) → IsFinite a → f.sub a nought ≡ a
  pub sub_unit : (a : F) → nought ≼ a → a ≼ one → (nought ≼ f.sub one a) × (f.sub one a ≼ one)
  pub mul_num : (a b : F) → IsFinite a → IsFinite b → IsNum (f.mul a b)
  pub mul_pos_num : (a b : F) → IsNum a → IsFinite b → nought ≺ b → IsNum (f.mul a b)
  pub mul_shrink : (a b : F) → IsFinite a → nought ≼ b → b ≼ one → IsFinite (f.mul a b)
  pub mul_le :
      (a b : F)
      → IsFinite a
      → nought ≼ a
      → nought ≼ b
      → b ≼ one
      → (nought ≼ f.mul a b) × (f.mul a b ≼ a)
  pub mul_unit :
      (a b : F)
      → nought ≼ a
      → a ≼ one
      → nought ≼ b
      → b ≼ one
      → (nought ≼ f.mul a b) × (f.mul a b ≼ a)
  pub mul_le_neg :
      (a b : F)
      → IsFinite a
      → a ≼ nought
      → nought ≼ b
      → b ≼ one
      → (a ≼ f.mul a b) × (f.mul a b ≼ nought)
  pub mul_nat :
      (a b : F) (j k : ℕ)
      → j * k ≤ 2 ^ 24
      → nought ≼ a
      → a ≼ of_nat j
      → nought ≼ b
      → b ≼ of_nat k
      → (nought ≼ f.mul a b) × (f.mul a b ≼ of_nat (j * k))
  pub add_nought : (a : F) → IsNum a → (a ≼ f.add nought a) × (a ≼ f.add a nought)
  pub sub_add : (a : F) → nought ≼ a → a ≼ one → f.add (f.sub one a) a ≼ one
  pub mul_nonneg : (a b : F) → nought ≺ a → IsFinite a → nought ≼ b → nought ≼ f.mul a b
  pub sub_le : (a b : F) → IsFinite a → nought ≼ b → f.sub a b ≼ a
  pub sub_bounds :
      (a b : F) → nought ≼ b → b ≼ a → IsFinite b → (nought ≼ f.sub a b) × (f.sub a b ≼ a)
  pub div_nought :
      (a b : F) → a ≼ nought → nought ≼ a → nought ≺ b → (f.div a b ≼ nought) × (nought ≼ f.div a b)
  pub div_share :
      (a b : F)
      → nought ≼ a
      → a ≼ b
      → nought ≺ b
      → IsFinite a
      → (nought ≼ f.div a b) × (f.div a b ≼ one)
  pub div_nonneg : (a b : F) → nought ≼ a → nought ≺ b → IsFinite b → nought ≼ f.div a b
  pub div_num : (a b : F) → IsNum a → IsFinite b → nought ≺ b → IsNum (f.div a b)
  pub div_unit :
      (a b : F)
      → nought ≼ a
      → a ≼ b
      → nought ≺ b
      → IsFinite b
      → (nought ≼ f.div a b) × (f.div a b ≼ one)

-- The two formats together: `float` is F and `double` is D. `narrow` rounds, and may overflow.
pub record Widening (F D : Type 0) : Type 0 where
  pub widen : F → D
  pub narrow : D → F

pub record IsWidening (F D : Type 0) ⦃f : Float F⦄ ⦃d : Float D⦄ ⦃w : Widening F D⦄ : Type 0 where
  pub widen_finite : (a : F) → IsFinite a → IsFinite (w.widen a)
  pub widen_unit : (a : F) → nought ≼ a → a ≼ one → (nought ≼ w.widen a) × (w.widen a ≼ one)
  pub narrow_num : (x : D) → IsNum x → IsNum (w.narrow x)
  pub narrow_le : (x y : D) → x ≼ y → w.narrow x ≼ w.narrow y
  pub narrow_unit : (x : D) → nought ≼ x → x ≼ one → (nought ≼ w.narrow x) × (w.narrow x ≼ one)
