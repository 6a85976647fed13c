-- ===== src/Float/Fixed.antt =====
-- Fixed-point numbers with four decimal places, and `none` for NaN: a value of the interface at
-- which the program's definitions can be run.
use native.Mathlib.Nat.{div-le_of_le-mul, div-mul-le_self, le-div_iff_mul-le, le_refl, mul-le-mul}
use native.Mathlib.Decide.{dec_lt}
use ailee_finance_unified_ru.Prelude.{
  ℕ, zero, suc, ◌*◌, ◌/◌, ◌^◌, ◌≤◌, ◌<◌, ◌≡◌, Bool, true, false, Option, none, some, arith,
  if◌then◌else◌,
}
use ailee_finance_unified_ru.Prelude.Int.{ℤ, pos, negsuc, ◌+ℤ◌, ◌-ℤ◌, ltb_ℤ}
use ailee_finance_unified_ru.Float.{Float, IsIeee, Widening, IsWidening}

abbrev pub Fixed : Type 0
Fixed = Option ℤ

abbrev scale : ℕ
scale = 10_000

-- The integer -n.
abbrev minus : ℕ → ℤ
minus zero = pos 0
minus (suc n) = negsuc n

abbrev neg_ℤ : ℤ → ℤ
neg_ℤ (pos n) = minus n
neg_ℤ (negsuc n) = pos (suc n)

abbrev abs_ℤ : ℤ → ℕ
abs_ℤ (pos n) = n
abs_ℤ (negsuc n) = suc n

abbrev mul_ℤ : ℤ → ℤ → ℤ
mul_ℤ (pos a) (pos b) = pos (a * b / scale)
mul_ℤ (pos a) (negsuc b) = minus (a * suc b / scale)
mul_ℤ (negsuc a) (pos b) = minus (suc a * b / scale)
mul_ℤ (negsuc a) (negsuc b) = pos (suc a * suc b / scale)

abbrev div_ℤ : ℤ → ℤ → ℤ
div_ℤ (pos a) (pos b) = pos (a * scale / b)
div_ℤ (pos a) (negsuc b) = minus (a * scale / suc b)
div_ℤ (negsuc a) (pos b) = minus (suc a * scale / b)
div_ℤ (negsuc a) (negsuc b) = pos (suc a * scale / suc b)

abbrev le_ℤ : ℤ → ℤ → Bool
le_ℤ a b = if ltb_ℤ b a then false else true

abbrev test : (ℤ → ℤ → Bool) → Fixed → Fixed → Bool
test p (some a) (some b) = p a b
test p _ _ = false

abbrev lift : (ℤ → ℤ → ℤ) → Fixed → Fixed → Fixed
lift g (some a) (some b) = some (g a b)
lift g _ _ = none

abbrev lift₁ : (ℤ → ℤ) → Fixed → Fixed
lift₁ g (some a) = some (g a)
lift₁ g none = none

abbrev is_number : Fixed → Bool
is_number none = false
is_number (some a) = true

abbrev is_none : Fixed → Bool
is_none none = true
is_none (some a) = false

instance abbrev pub fixed_float : Float Fixed
fixed_float = record {
  lt = test ltb_ℤ;
  le = test le_ℤ;
  is_nan = is_none;
  is_finite = is_number;
  neg = lift₁ neg_ℤ;
  abs = lift₁ (λ a. pos (abs_ℤ a));
  add = lift ◌+ℤ◌;
  sub = lift ◌-ℤ◌;
  mul = lift mul_ℤ;
  div = lift div_ℤ;
  ratio = λ n d. some (pos (n * scale / d));
}

div_mono : (n d m e : ℕ) → 0 < d → 0 < e → n * e ≤ m * d → n * scale / d ≤ m * scale / e
div_mono n d m e hd he h =
    let q = n * scale / d in
    (le-div_iff_mul-le he).1 (elim (dec_lt (m * scale) (q * e)) [
      | yes more ↦ absurd (
          omega (
            arith,
            mul-le-mul (div-mul-le_self (n * scale) d) (le_refl e),
            mul-le-mul h (le_refl scale),
            mul-le-mul more (le_refl d),
          ))
      | no enough ↦ omega arith
    ])

div_lt :
    (n d m e : ℕ) → 0 < d → 0 < e → d * e ≤ scale → n * e < m * d → n * scale / d < m * scale / e
div_lt n d m e hd he small h =
    let q = n * scale / d in
    (le-div_iff_mul-le he).1 (elim (dec_lt (m * scale) (suc q * e)) [
      | yes more ↦ absurd (
          omega (
            arith,
            mul-le-mul (div-mul-le_self (n * scale) d) (le_refl e),
            mul-le-mul h (le_refl scale),
            mul-le-mul more (le_refl d),
          ))
      | no enough ↦ omega arith
    ])

div_pos : (n d : ℕ) → 0 < d → d ≤ 1_000 * n → 1 ≤ n * scale / d
div_pos n d hd h = (le-div_iff_mul-le hd).1 (omega arith)

minus_le :
    (n a : ℕ) → n ≤ suc a → (le_ℤ (negsuc a) (minus n) ≡ true) × (le_ℤ (minus n) (pos 0) ≡ true)
minus_le n a h = ground arith

mul_ℤ_le :
    (a b : Fixed)
    → is_number a ≡ true
    → test le_ℤ (some (pos 0)) a ≡ true
    → test le_ℤ (some (pos 0)) b ≡ true
    → test le_ℤ b (some (pos scale)) ≡ true
    → (test le_ℤ (some (pos 0)) (lift mul_ℤ a b) ≡ true) × (test le_ℤ (lift mul_ℤ a b) a ≡ true)
mul_ℤ_le (some (pos a)) (some (pos b)) fin ha hb hb' =
    let small : b ≤ scale = ground arith in
    ground (
      arith,
      div-le_of_le-mul scale {m = a * b} {n = a} (grind (arith, mul-le-mul small (le_refl a))),
    )
mul_ℤ_le a b fin ha hb hb' = ground arith

is_number-le : (a b : Fixed) → test le_ℤ a b ≡ true → is_number a ≡ true
is_number-le a b h = ground arith

is_number-le' : (a b : Fixed) → test le_ℤ a b ≡ true → is_number b ≡ true
is_number-le' a b h = ground arith

div_ℤ_unit :
    (a b : Fixed)
    → test le_ℤ (some (pos 0)) a ≡ true
    → test le_ℤ a b ≡ true
    → test ltb_ℤ (some (pos 0)) b ≡ true
    → is_number b ≡ true
    → (test le_ℤ (some (pos 0)) (lift div_ℤ a b) ≡ true)
      × (test le_ℤ (lift div_ℤ a b) (some (pos scale)) ≡ true)
div_ℤ_unit (some (pos a)) (some (pos b)) ha h hb _ =
    let small : a ≤ b = ground arith in
    ground
      (arith, div-le_of_le-mul b {m = a * scale} {n = scale} (mul-le-mul small (le_refl scale)))
div_ℤ_unit a b ha h hb _ = ground arith

mul_ℤ_le_neg :
    (a b : Fixed)
    → is_number a ≡ true
    → test le_ℤ a (some (pos 0)) ≡ true
    → test le_ℤ (some (pos 0)) b ≡ true
    → test le_ℤ b (some (pos scale)) ≡ true
    → (test le_ℤ a (lift mul_ℤ a b) ≡ true) × (test le_ℤ (lift mul_ℤ a b) (some (pos 0)) ≡ true)
mul_ℤ_le_neg (some (negsuc a)) (some (pos b)) fin ha hb hb' =
    let small : b ≤ scale = ground arith in
    let less : suc a * b / scale ≤ suc a =
      div-le_of_le-mul scale {m = suc a * b} {n = suc a}
        (grind (arith, mul-le-mul (le_refl (suc a)) small)) in
    minus_le (suc a * b / scale) a less
mul_ℤ_le_neg a b fin ha hb hb' = ground arith

mul_ℤ_nat :
    (a b : Fixed) (j k : ℕ)
    → j * k ≤ 2 ^ 24
    → test le_ℤ (some (pos 0)) a ≡ true
    → test le_ℤ a (some (pos (j * scale / 1))) ≡ true
    → test le_ℤ (some (pos 0)) b ≡ true
    → test le_ℤ b (some (pos (k * scale / 1))) ≡ true
    → (test le_ℤ (some (pos 0)) (lift mul_ℤ a b) ≡ true)
      × (test le_ℤ (lift mul_ℤ a b) (some (pos (j * k * scale / 1))) ≡ true)
mul_ℤ_nat (some (pos a)) (some (pos b)) j k small ha ha' hb hb' =
    let left : a ≤ j * scale = ground arith in
    let right : b ≤ k * scale = ground arith in
    ground (
      arith,
      div-le_of_le-mul scale {m = a * b} {n = j * k * scale} (omega (arith, mul-le-mul left right)),
    )
mul_ℤ_nat a b j k small ha ha' hb hb' = ground arith

pub Fixed-IsIeee : IsIeee Fixed
unfolding ◌+ℤ◌ ◌-ℤ◌
Fixed-IsIeee = record {
  num_of_finite = ground arith;
  num_of_le = ground arith;
  le_refl = ground arith;
  le_trans = ground arith;
  le_of_lt = ground arith;
  le_of_not_lt = ground arith;
  not_lt_of_le = ground arith;
  lt_of_not_le = ground arith;
  not_le_of_lt = ground arith;
  lt_trans_le = ground arith;
  finite_between = ground arith;
  neg_le = ground arith;
  neg_finite = ground arith;
  neg_nought = ground arith;
  abs_le = ground arith;
  abs_finite = ground arith;
  abs_nonneg = ground arith;
  abs_below = ground arith;
  abs_bound = ground arith;
  ratio_finite = ground arith;
  ratio_le = λ n d m e hd he h. ground (arith, div_mono n d m e hd he h);
  ratio_lt = λ n d m e hd he small _ h. ground (arith, div_lt n d m e hd he small h);
  ratio_pos = λ n d hd h. ground (arith, div_pos n d hd h);
  one_pos = ground arith;
  nat_pos = ground arith;
  add_num = ground arith;
  add_mono = ground arith;
  add_nat = ground arith;
  sub_num = ground arith;
  sub_nought = ground arith;
  sub_unit = ground arith;
  mul_num = ground arith;
  mul_pos_num = ground arith;
  mul_shrink = ground arith;
  mul_le = mul_ℤ_le;
  mul_unit = λ a b ha ha' hb hb'. mul_ℤ_le a b (is_number-le a _ ha') ha hb hb';
  mul_le_neg = mul_ℤ_le_neg;
  mul_nat = mul_ℤ_nat;
  add_nought = ground arith;
  sub_add = ground arith;
  mul_nonneg = ground arith;
  sub_le = ground arith;
  sub_bounds = ground arith;
  div_nought = ground arith;
  div_share = λ a b ha h hb fin. div_ℤ_unit a b ha h hb (is_number-le' a b h);
  div_nonneg = ground arith;
  div_num = ground arith;
  div_unit = div_ℤ_unit;
}

instance abbrev pub fixed_widening : Widening Fixed Fixed
fixed_widening = record { widen = λ a. a; narrow = λ a. a }

pub Fixed-IsWidening : IsWidening Fixed Fixed
Fixed-IsWidening = ground arith
