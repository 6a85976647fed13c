-- ===== src/Portfolio/Constraints/Clusters/Unite.antt =====
-- `unite` on the labels: which labels it joins, which it keeps, and what it never goes beyond.
use ailee_finance_unified_ru.Prelude.{
  ℕ, zero, suc, ◌+◌, ◌<◌, ◌≡◌, inl, inr, List, [], ◌∷◌, ◌==◌, ◌∙◌, sym, refl, arith, length,
  length-map, map, Bool-cases, ap,
}
use ailee_finance_unified_ru.Portfolio.Constraints.Clusters.{own_labels, relabel, label_at, unite}

label_at-map :
    (f : ℕ → ℕ) (labels : List ℕ) (i : ℕ)
    → i < length labels
    → label_at (map f labels) i ≡ f (label_at labels i)
label_at-map f [] i h = ground arith
label_at-map f (l ∷ labels) zero h = refl
label_at-map f (l ∷ labels) (suc i) h = label_at-map f labels i (omega arith)

pub length-unite : (a b : ℕ) (labels : List ℕ) → length (unite a b labels) ≡ length labels
unfolding unite
length-unite a b labels =
    ground (arith, length-map labels (relabel (label_at labels b) (label_at labels a)))

-- `unite` is a renaming of the labels, also where it leaves them.
label_at-unite :
    (a b : ℕ) (labels : List ℕ) (i : ℕ)
    → i < length labels
    → label_at (unite a b labels) i
      ≡ relabel (label_at labels b) (label_at labels a) (label_at labels i)
unfolding unite
label_at-unite a b labels i h =
    ground (arith, label_at-map (relabel (label_at labels b) (label_at labels a)) labels i h)

pub own_labels-get : (from n i : ℕ) → i < n → label_at (own_labels from n) i ≡ from + i
unfolding own_labels
own_labels-get from (suc n) zero h = omega arith
own_labels-get from (suc n) (suc i) h = omega (arith, own_labels-get (suc from) n i (omega arith))
own_labels-get from zero i h = ground arith

pub length-own_labels : (from n : ℕ) → length (own_labels from n) ≡ n
unfolding own_labels
length-own_labels from zero = refl
length-own_labels from (suc n) = ap suc (length-own_labels (suc from) n)

-- A relation that the labels may not go beyond.
abbrev pub IsSound : (ℕ → ℕ → Type 0) → List ℕ → Type 0
IsSound R labels =
    (i j : ℕ)
    → i < length labels
    → j < length labels
    → label_at labels i ≡ label_at labels j
    → R i j

module _ (R : ℕ → ℕ → Type 0) (R_sym : (i j : ℕ) → R i j → R j i)
    (R_trans : (i j k : ℕ) → R i j → R j k → R i k) where
  pub unite-IsSound :
      (a b : ℕ) (labels : List ℕ)
      → a < length labels
      → b < length labels
      → R a b
      → IsSound R labels
      → IsSound R (unite a b labels)
  unite-IsSound a b labels ha hb ab sound i j hi hj e =
      let hi' : i < length labels = omega (arith, hi, length-unite a b labels) in
      let hj' : j < length labels = omega (arith, hj, length-unite a b labels) in
      let e' = sym (label_at-unite a b labels i hi') ∙ e ∙ label_at-unite a b labels j hj' in
      let old = label_at labels b in
      elim (Bool-cases (label_at labels i == old)) [
        | inl i_old ↦ elim (Bool-cases (label_at labels j == old)) [
          | inl j_old ↦ sound i j hi' hj' (ground arith)
          | inr j_kept ↦
              R_trans i b j (sound i b hi' hb (ground arith))
                (R_trans b a j (R_sym a b ab) (sound a j ha hj' (ground (arith, e'))))
        ]
        | inr i_kept ↦ elim (Bool-cases (label_at labels j == old)) [
          | inl j_old ↦
              R_trans i a j (sound i a hi' ha (ground (arith, e')))
                (R_trans a b j ab (sound b j hb hj' (ground arith)))
          | inr j_kept ↦ sound i j hi' hj' (ground (arith, e'))
        ]
      ]

pub unite-joins :
    (a b : ℕ) (labels : List ℕ)
    → a < length labels
    → b < length labels
    → label_at (unite a b labels) a ≡ label_at (unite a b labels) b
unite-joins a b labels ha hb =
    ground (arith, label_at-unite a b labels a ha, label_at-unite a b labels b hb)

pub unite-keeps :
    (a b : ℕ) (labels : List ℕ) (i j : ℕ)
    → i < length labels
    → j < length labels
    → label_at labels i ≡ label_at labels j
    → label_at (unite a b labels) i ≡ label_at (unite a b labels) j
unite-keeps a b labels i j hi hj e =
    rw (label_at-unite a b labels i hi, label_at-unite a b labels j hj, e) refl
