-- ===== src/Prelude/Ring.antt =====
-- Arrays read round a modulus: what a ring buffer holds from a start index on.
use mathlib.Core.Path.{ap₂}
use native.Mathlib.Nat.{add-zero, mod-add-mod, mod-eq_of_lt, mod-eq-sub-mod, mod-lt}
use native.Mathlib.Decide.{dec_lt}
use ailee_finance_unified_ru.Prelude.{
  ℕ, zero, suc, ◌+◌, ◌-◌, ◌%◌, ◌≤◌, ◌<◌, ◌≡◌, ◌≢◌, refl, sym, ap, ◌∙◌, List, [], ◌∷◌, ◌++◌, arith,
  length, get_or, set, drop,
}

module _ {ℓ} {A : Type ℓ} where
  pub get_or-set_self :
      (xs : List A) (i : ℕ) (v d : A) → i < length xs → get_or (set xs i v) i d ≡ v
  get_or-set_self [] i v d h = absurd (omega arith)
  get_or-set_self (x ∷ xs) zero v d h = refl
  get_or-set_self (x ∷ xs) (suc i) v d h = get_or-set_self xs i v d (omega arith)

  pub get_or-set_ne :
      (xs : List A) (i j : ℕ) (v d : A) → i ≢ j → get_or (set xs i v) j d ≡ get_or xs j d
  get_or-set_ne [] i j v d h = refl
  get_or-set_ne (x ∷ xs) zero zero v d h = absurd (h refl)
  get_or-set_ne (x ∷ xs) zero (suc j) v d h = refl
  get_or-set_ne (x ∷ xs) (suc i) zero v d h = refl
  get_or-set_ne (x ∷ xs) (suc i) (suc j) v d h = get_or-set_ne xs i j v d (λ e. h (ap suc e))

-- Fewer than `w` steps round the ring do not come back to the start.
add-mod-ne : (w t k : ℕ) → suc k < w → (t + suc k) % w ≢ t % w
add-mod-ne w t k hk =
    let h = t % w in
    let low : h < w = mod-lt t (omega arith) in
    elim (dec_lt (h + suc k) w) [
      | yes p ↦ omega (arith, mod-add-mod t w (suc k), mod-eq_of_lt p)
      | no p ↦ omega (
        arith,
        mod-add-mod t w (suc k),
        mod-eq-sub-mod {n = h + suc k} {m = w} (omega arith),
        mod-eq_of_lt {n = h + suc k - w} {m = w} (omega arith),
      )
    ]

module _ {ℓ} {A : Type ℓ} (blank : A) (w : ℕ) where
  -- The `n` values from index `t` on, going round at `w`.
  abbrev pub round : List A → ℕ → ℕ → List A
  round buf t zero = []
  round buf t (suc n) = get_or buf (t % w) blank ∷ round buf (t + 1) n

  pub length-round : (buf : List A) (t n : ℕ) → length (round buf t n) ≡ n
  length-round buf t zero = refl
  length-round buf t (suc n) = ap suc (length-round buf (t + 1) n)

  pub round_congr : (buf : List A) (t u n : ℕ) → t % w ≡ u % w → round buf t n ≡ round buf u n
  round_congr buf t u zero e = refl
  round_congr buf t u (suc n) e =
      ap₂ (λ i r. get_or buf i blank ∷ r) e (round_congr buf (t + 1) (u + 1) n next)
    where
      next : (t + 1) % w ≡ (u + 1) % w
      next = sym (mod-add-mod t w 1) ∙ ap (λ k. (k + 1) % w) e ∙ mod-add-mod u w 1

  pub round-set :
      (buf : List A) (t n i : ℕ) (x : A)
      → w ≤ length buf
      → n < w
      → i ≡ (t + n) % w
      → round (set buf i x) t (suc n) ≡ round buf t n ++ (x ∷ [])
  round-set buf t zero i x full h e =
      let here : i ≡ t % w = rw (add-zero) at e in
      let inside : t % w < length buf = omega (arith, mod-lt t {m = w} (omega arith)) in
      rw here (ap (λ v. v ∷ []) (get_or-set_self buf (t % w) x blank inside))
  round-set buf t (suc n) i x full h e =
      let apart : i ≢ t % w = rw e (add-mod-ne w t n h) in
      let shift : i ≡ (t + 1 + n) % w = e ∙ ap (λ k. k % w) (omega arith) in
      ap₂ ◌∷◌ (get_or-set_ne buf i (t % w) x blank apart)
        (round-set buf (t + 1) n i x full (omega arith) shift)

  pub drop-round : (buf : List A) (k t n : ℕ) → drop k (round buf t n) ≡ round buf (t + k) (n - k)
  drop-round buf zero t n = ap₂ (round buf) (omega arith) (omega arith)
  drop-round buf (suc k) t zero = ap (round buf (t + suc k)) {x = 0} (omega arith)
  drop-round buf (suc k) t (suc n) =
      drop-round buf k (t + 1) n ∙ ap₂ (round buf) (omega arith) (omega arith)
