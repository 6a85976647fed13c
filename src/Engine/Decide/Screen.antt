-- ===== src/Engine/Decide/Screen.antt =====
-- The checks of `makeDecision` of aille.hpp on the signals, against the signals that they are
-- there to let through.
use ailee_finance_unified_ru.Prelude.{
  ℕ, ◌+◌, ◌-◌, ◌≤◌, ◌≡◌, ◌≢◌, ◌↔◌, refl, true, false, ◌||◌, ◌&&◌, none, some, List, [], ◌∷◌, arith,
  ltb, map, Option-cases, inl, inr,
}
use ailee_finance_unified_ru.Prelude.Int.{ℤ}
use ailee_finance_unified_ru.Float.{Float, IsIeee, ◌≼◌, IsFinite, nought, one}
use ailee_finance_unified_ru.Float.Bounds.{All, IsUnit, IsWithin, of_nat-IsFinite, unit-IsFinite}
use ailee_finance_unified_ru.Engine.{AilleConfig, Signal, Status, Reason}
use ailee_finance_unified_ru.Engine.Decide.{
  not_a_quantity, eq_ℤ, is_duplicate, max_signal_value, screen, screen_signal,
}

eq_ℤ_iff : (a b : ℤ) → (eq_ℤ a b ≡ true) ↔ (a ≡ b)
eq_ℤ_iff a b = ground arith

-- `id` is none of the given ones.
abbrev IsNew : List ℤ → ℤ → Type 0
IsNew seen id = All (λ other. other ≢ id) seen

IsNew-iff : (id : ℤ) (seen : List ℤ) → (is_duplicate id seen ≡ false) ↔ IsNew seen id
unfolding is_duplicate
IsNew-iff id [] = ground arith
IsNew-iff id (other ∷ seen) = ground (arith, IsNew-iff id seen, eq_ℤ_iff other id)

-- No two of them are the same.
abbrev pub IsDistinct : List ℤ → Type 0
IsDistinct [] = Unit
IsDistinct (id ∷ ids) = All (λ other. id ≢ other) ids × IsDistinct ids

All-IsNew :
    (id : ℤ) (seen ids : List ℤ)
    → All (IsNew (id ∷ seen)) ids ↔ (All (λ other. id ≢ other) ids × All (IsNew seen) ids)
All-IsNew id seen [] = ground arith
All-IsNew id seen (other ∷ ids) = ground (arith, All-IsNew id seen ids)

All-IsNew_nil : (ids : List ℤ) → All (IsNew []) ids
All-IsNew_nil [] = tt
All-IsNew_nil (id ∷ ids) = (tt, All-IsNew_nil ids)

module _ {F : Type 0} ⦃f : Float F⦄ where
  abbrev pub id_of : Signal F → ℤ
  id_of sig = sig.model_id

  -- A signal that a decision may use at the time `now`.
  pub record IsAdmissible (cfg : AilleConfig F) (now : ℕ) (sig : Signal F) : Type 0 where
    pub value_finite : IsFinite sig.value
    pub confidence_unit : IsUnit sig.confidence
    pub past : sig.timestamp_ns ≤ now
    pub recent : cfg.max_signal_age_ns ≢ 0 → now ≤ sig.timestamp_ns + cfg.max_signal_age_ns
    pub bounded : IsWithin max_signal_value sig.value

  module _ (laws : IsIeee F) where
    open laws use {num_of_finite, num_of_le, le_of_not_lt, not_lt_of_le, neg_finite, finite_between}

    quantity_iff : (x : F) → (not_a_quantity x ≡ false) ↔ IsFinite x
    quantity_iff x = (λ h. ground arith, λ h. ground (arith, num_of_finite x))

    range_iff :
        (lo hi x : F)
        → IsFinite lo
        → IsFinite hi
        → IsFinite x
        → (f.lt x lo || f.lt hi x ≡ false) ↔ ((lo ≼ x) × (x ≼ hi))
    range_iff lo hi x fin_lo fin_hi fin_x = (
      λ h. ground (
        arith,
        num_of_finite lo,
        num_of_finite hi,
        num_of_finite x,
        le_of_not_lt x lo,
        le_of_not_lt hi x,
      ),
      λ (low, high). ground (arith, not_lt_of_le lo x low, not_lt_of_le x hi high),
    )

    -- The tests of one signal, one at a time.
    record AllTests (cfg : AilleConfig F) (now : ℕ) (seen : List ℤ) (sig : Signal F) : Type 0 where
      quantities : not_a_quantity sig.value || not_a_quantity sig.confidence ≡ false
      confidence : f.lt sig.confidence nought || f.lt one sig.confidence ≡ false
      past : ltb now sig.timestamp_ns ≡ false
      recent :
          ltb 0 cfg.max_signal_age_ns && ltb cfg.max_signal_age_ns (now - sig.timestamp_ns) ≡ false
      new : is_duplicate sig.model_id seen ≡ false
      bounded : f.lt sig.value (f.neg max_signal_value) || f.lt max_signal_value sig.value ≡ false

    screen_signal-AllTests :
        (cfg : AilleConfig F) (now : ℕ) (seen : List ℤ) (sig : Signal F)
        → (screen_signal cfg now seen sig ≡ none) ↔ AllTests cfg now seen sig
    unfolding screen_signal
    screen_signal-AllTests cfg now seen sig = (λ h. ground arith, λ t. ground arith)

    AllTests-iff :
        (cfg : AilleConfig F) (now : ℕ) (seen : List ℤ) (sig : Signal F)
        → AllTests cfg now seen sig ↔ (IsAdmissible cfg now sig × IsNew seen sig.model_id)
    AllTests-iff cfg now seen sig =
        let top = of_nat-IsFinite laws 1_000_000 (omega arith) in
        let in_unit =
          range_iff nought one sig.confidence (of_nat-IsFinite laws 0 (omega arith))
            (of_nat-IsFinite laws 1 (omega arith)) in
        let in_bounds =
          range_iff (f.neg max_signal_value) max_signal_value sig.value (neg_finite _ top) top in
        (
          λ t.
              let value : IsFinite sig.value = (quantity_iff sig.value).0 (ground arith) in
              let conf : IsFinite sig.confidence = (quantity_iff sig.confidence).0 (ground arith) in
              (
                record {
                  value_finite = value;
                  confidence_unit = (in_unit conf).0 t.confidence;
                  past = ground arith;
                  recent = ground arith;
                  bounded = (in_bounds value).0 t.bounded;
                },
                (IsNew-iff sig.model_id seen).0 t.new,
              ),
          λ (a, new).
              let conf = unit-IsFinite laws sig.confidence a.confidence_unit in
              record {
                quantities = ground (arith, quantity_iff sig.value, quantity_iff sig.confidence);
                confidence = (in_unit conf).1 a.confidence_unit;
                past = ground arith;
                recent = ground arith;
                new = (IsNew-iff sig.model_id seen).1 new;
                bounded = (in_bounds a.value_finite).1 a.bounded;
              },
        )

    screen_signal_iff :
        (cfg : AilleConfig F) (now : ℕ) (seen : List ℤ) (sig : Signal F)
        → (screen_signal cfg now seen sig ≡ none)
          ↔ (IsAdmissible cfg now sig × IsNew seen sig.model_id)
    screen_signal_iff cfg now seen sig =
        ground (arith, screen_signal-AllTests cfg now seen sig, AllTests-iff cfg now seen sig)

    screen-seen_iff :
        (cfg : AilleConfig F) (now : ℕ) (seen : List ℤ) (signals : List (Signal F))
        → (screen cfg now seen signals ≡ none) ↔ (
            All (IsAdmissible cfg now) signals
            × All (IsNew seen) (map id_of signals)
            × IsDistinct (map id_of signals))
    unfolding screen
    screen-seen_iff cfg now seen [] = (λ h. (tt, tt, tt), λ h. refl)
    screen-seen_iff cfg now seen (sig ∷ signals) =
        let id = sig.model_id in
        let first = screen_signal_iff cfg now seen sig in
        let others = screen-seen_iff cfg now (id ∷ seen) signals in
        let split = All-IsNew id seen (map id_of signals) in
        (
          λ h. elim (Option-cases (screen_signal cfg now seen sig)) [
            | inl ok ↦
                let (adm, new, distinct) = others.0 (rw (ok, screen) at h) in
                let (apart, new') = split.0 new in
                let (a, n) = first.0 ok in ((a, adm), (n, new'), (apart, distinct))
            | inr (r, bad) ↦ ground arith
          ],
          λ ((a, adm), (n, new), (apart, distinct)).
              rw (first.1 (a, n), screen) (others.1 (adm, split.1 (apart, new), distinct)),
        )

    -- The checks on the signals pass exactly when every signal is admissible (finite value
    -- inside the bounds, confidence in [0, 1], timestamp neither ahead of the clock nor too
    -- old) and no two signals are of one model.
    pub screen_iff :
        (cfg : AilleConfig F) (now : ℕ) (signals : List (Signal F))
        → (screen cfg now [] signals ≡ none)
          ↔ (All (IsAdmissible cfg now) signals × IsDistinct (map id_of signals))
    screen_iff cfg now signals =
        let (there, back) = screen-seen_iff cfg now [] signals in
        (
          λ h. let (adm, new, distinct) = there h in (adm, distinct),
          λ (adm, distinct). back (adm, All-IsNew_nil (map id_of signals), distinct),
        )

  screen_signal-refused :
      (cfg : AilleConfig F) (now : ℕ) (seen : List ℤ) (sig : Signal F) (s : Status) (why : Reason)
      → screen_signal cfg now seen sig ≡ some (s, why)
      → s ≢ Status.decision_valid
  unfolding screen_signal
  screen_signal-refused cfg now seen sig s why h = ground arith

  -- A refusal is never `DECISION_VALID`.
  pub screen-refused :
      (cfg : AilleConfig F) (now : ℕ) (seen : List ℤ) (signals : List (Signal F)) (s : Status)
      (why : Reason)
      → screen cfg now seen signals ≡ some (s, why)
      → s ≢ Status.decision_valid
  unfolding screen
  screen-refused cfg now seen [] s why h = ground arith
  screen-refused cfg now seen (sig ∷ signals) s why h = ground (
    arith,
    screen_signal-refused cfg now seen sig s why,
    screen-refused cfg now (sig.model_id ∷ seen) signals s why,
  )
