-- ===== src/Portfolio/Assets.antt =====
-- What the portfolio's stages share: the assets, their allocations, the checks of
-- extensions/aille_validation.hpp and the traces, which drop what passes their capacity.
use mathlib.Core.Option.{some-injective}
use ailee_finance_unified_ru.Prelude.{
  ℕ, suc, ◌≤◌, ◌≡◌, Bool, true, not, ◌&&◌, some, List, [], ◌∷◌, ◌++◌, refl, arith, if◌then◌else◌,
  ltb, leb, length, get_elem?, map, zero, sym,
}
use ailee_finance_unified_ru.Float.{Float, IsIeee, ◌≼◌, IsFinite, nought, one}
use ailee_finance_unified_ru.Float.Bounds.{All, IsUnit, of_nat-IsFinite}

-- An `AssetId` is its number: 0 cash, 1 bitcoin, 2 ether, 3 gold, 4 oil, 5 risky shares.
abbrev pub cash : ℕ
cash = 0

abbrev pub max_assets : ℕ
max_assets = 16

abbrev pub max_trace : ℕ
max_trace = 64

pub record AssetAllocation (D : Type 0) : Type 0 where
  pub asset_id : ℕ
  pub allocation : D
  pub risk_score : D

module _ {A : Type 0} where
  -- `if (trace.count < MAX_STEPS) trace.steps[trace.count++] = step`
  unfoldable pub record_step : ℕ → A → List A → List A
  record_step capacity step trace =
      if ltb (length trace) capacity then trace ++ (step ∷ []) else trace

  -- `validation::count`
  abbrev pub fits : ℕ → List A → Bool
  fits capacity xs = leb (length xs) capacity

  unfoldable pub all_of : (A → Bool) → List A → Bool
  all_of p [] = true
  all_of p (x ∷ xs) = let rest = all_of p xs in p x && rest

module _ {D : Type 0} ⦃d : Float D⦄ where
  -- `validation::nonnegative` and `validation::unit`
  abbrev pub is_nonnegative : D → Bool
  is_nonnegative x = d.is_finite x && not (d.lt x nought)

  abbrev pub is_unit : D → Bool
  is_unit x = is_nonnegative x && not (d.lt one x)

module _ {A : Type 0} where
  -- A trace with room takes the step at its end.
  pub record_step-under :
      (capacity : ℕ) (step : A) (trace : List A)
      → suc (length trace) ≤ capacity
      → record_step capacity step trace ≡ trace ++ (step ∷ [])
  unfolding record_step
  record_step-under capacity step trace room = ground arith

  pub length-snoc : (trace : List A) (step : A) → length (trace ++ (step ∷ [])) ≡ suc (length trace)
  length-snoc [] step = refl
  length-snoc (x ∷ trace) step = rw (length-snoc trace step) refl

module _ {A : Type 0} where
  pub all_of-All : (p : A → Bool) (xs : List A) → all_of p xs ≡ true → All (λ x. p x ≡ true) xs
  unfolding all_of
  all_of-All p [] h = tt
  all_of-All p (x ∷ xs) h = (ground arith, all_of-All p xs (ground arith))

  pub All-get :
      (P : A → Type 0) (xs : List A) (i : ℕ) (x : A) → All P xs → get_elem? xs i ≡ some x → P x
  All-get P [] i x h e = ground arith
  All-get P (y ∷ xs) zero x (hy, h) e = ground arith
  All-get P (y ∷ xs) (suc i) x (hy, h) e = All-get P xs i x h e

module _ {A B : Type 0} where
  pub All-map :
      (P : A → Type 0) (Q : B → Type 0) (f : A → B)
      → ((a : A) → P a → Q (f a))
      → (xs : List A) → All P xs
      → All Q (map f xs)
  All-map P Q f step [] h = h
  All-map P Q f step (x ∷ xs) (hx, h) = (step x hx, All-map P Q f step xs h)

  pub get_elem?-map :
      (f : A → B) (xs : List A) (i : ℕ) (x : A)
      → get_elem? xs i ≡ some x
      → get_elem? (map f xs) i ≡ some (f x)
  get_elem?-map f [] i x h = ground arith
  get_elem?-map f (y ∷ xs) zero x h = ground arith
  get_elem?-map f (y ∷ xs) (suc i) x h = get_elem?-map f xs i x h

module _ {D : Type 0} ⦃d : Float D⦄ (laws : IsIeee D) where
  pub is_nonnegative-le : (x : D) → is_nonnegative x ≡ true → IsFinite x × (nought ≼ x)
  is_nonnegative-le x h = ground (
    arith,
    laws.num_of_finite x,
    laws.le_of_not_lt x nought,
    laws.num_of_finite nought,
    of_nat-IsFinite laws 0,
  )

  pub is_unit-IsUnit : (x : D) → is_unit x ≡ true → IsFinite x × IsUnit x
  is_unit-IsUnit x h =
      let (fin, low) = is_nonnegative-le x (ground arith) in
      (
        fin,
        (
          low,
          laws.le_of_not_lt one x (laws.num_of_finite _ (of_nat-IsFinite laws 1 (omega arith)))
              (laws.num_of_finite x fin) (ground arith),
        ),
      )

-- Two lists of one length, related entry by entry.
abbrev pub Pairs : {A : Type 0} → (A → A → Type 0) → List A → List A → Type 0
Pairs R [] [] = Unit
Pairs R (x ∷ xs) (y ∷ ys) = R x y × Pairs R xs ys
Pairs R _ _ = ⊥

module _ {A : Type 0} where
  pub Pairs-trans :
      (P Q R : A → A → Type 0)
      → ((x y z : A) → P x y → Q y z → R x z)
      → (xs ys zs : List A) → Pairs P xs ys
      → Pairs Q ys zs
      → Pairs R xs zs
  Pairs-trans P Q R step [] [] [] p q = tt
  Pairs-trans P Q R step (x ∷ xs) (y ∷ ys) (z ∷ zs) (hp, p) (hq, q) =
      (step x y z hp hq, Pairs-trans P Q R step xs ys zs p q)
  Pairs-trans P Q R step [] [] (z ∷ zs) p q = elim q [ ]
  Pairs-trans P Q R step [] (y ∷ ys) zs p q = elim p [ ]
  Pairs-trans P Q R step (x ∷ xs) [] zs p q = elim p [ ]
  Pairs-trans P Q R step (x ∷ xs) (y ∷ ys) [] p q = elim q [ ]

  pub Pairs-get :
      (P : A → A → Type 0) (xs ys : List A) (i : ℕ) (x : A)
      → Pairs P xs ys
      → get_elem? xs i ≡ some x
      → (y : A) × (get_elem? ys i ≡ some y) × P x y
  Pairs-get P [] ys i x p e = ground arith
  Pairs-get P (x' ∷ xs) [] i x p e = elim p [ ]
  Pairs-get P (x' ∷ xs) (y ∷ ys) zero x (h, p) e = (y, refl, rw (sym (some-injective x' x e)) h)
  Pairs-get P (x' ∷ xs) (y ∷ ys) (suc i) x (h, p) e = Pairs-get P xs ys i x p e

  pub Pairs-All :
      (P : A → A → Type 0) (Q : A → Type 0)
      → ((x y : A) → Q x → P x y → Q y)
      → (xs ys : List A) → Pairs P xs ys
      → All Q xs
      → All Q ys
  Pairs-All P Q step [] [] p q = tt
  Pairs-All P Q step (x ∷ xs) (y ∷ ys) (hp, p) (hq, q) =
      (step x y hq hp, Pairs-All P Q step xs ys p q)
  Pairs-All P Q step [] (y ∷ ys) p q = elim p [ ]
  Pairs-All P Q step (x ∷ xs) [] p q = elim p [ ]
