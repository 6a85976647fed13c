-- ===== src/Portfolio/Temporal/Traced.antt =====
-- The enforcement's loop against a description with no loop: every asset is resolved, traced and
-- measured, and the sums are the sums of what is returned.
use mathlib.Core.List.{append_assoc, append-nil}
use ailee_finance_unified_ru.Prelude.{
  ◌+◌, ◌≤◌, ◌≡◌, true, some, List, [], ◌∷◌, ◌++◌, refl, arith, map, length,
}
use ailee_finance_unified_ru.Float.{Float, nought, sum_from}
use ailee_finance_unified_ru.Portfolio.Assets.{
  max_assets, max_trace, record_step-under, length-snoc, all_of,
}
use ailee_finance_unified_ru.Portfolio.Temporal.{
  TemporalState, TemporalPortfolioState, Enforced, Tally, resolved, residual, risk, residual_of,
  step_of, no_tally, count_in, enforce_from, is_valid, enforce_temporal_consistency,
}

module _ {D : Type 0} ⦃d : Float D⦄ (threshold : D) (prev : List (TemporalState D)) where
  -- The tally of all assets after `t`.
  abbrev tally : List (TemporalState D) → Tally D → Tally D
  tally states t = record {
    total_residual = sum_from t.total_residual (map (residual threshold prev) states);
    portfolio_risk = sum_from t.portfolio_risk (map (risk threshold prev) states);
    residuals = t.residuals ++ map (residual_of threshold prev) states;
    trace = t.trace ++ map (step_of threshold prev) states;
  }

  enforce_from-tally :
      (t : Tally D) (states : List (TemporalState D))
      → length t.residuals + length states ≤ max_assets
      → length t.trace + length states ≤ max_trace
      → enforce_from threshold prev t states
        ≡ (map (resolved threshold prev) states, tally states t)
  unfolding enforce_from sum_from count_in
  enforce_from-tally t [] room room' = rw (append-nil t.residuals, append-nil t.trace) refl
  enforce_from-tally t (s ∷ states) room room' =
      let r = residual_of threshold prev s in
      let step = step_of threshold prev s in
      rw
        (
          enforce_from-tally (count_in threshold prev s t) states
              (rw (record_step-under max_assets r t.residuals (omega arith))
                (omega (arith, length-snoc t.residuals r)))
              (rw (record_step-under max_trace step t.trace (omega arith))
                (omega (arith, length-snoc t.trace step))),
          record_step-under max_assets r t.residuals (omega arith),
          record_step-under max_trace step t.trace (omega arith),
          append_assoc t.residuals (r ∷ []) (map (residual_of threshold prev) states),
          append_assoc t.trace (step ∷ []) (map (step_of threshold prev) states),
        )
        refl

  pub enforce-is_valid :
      (prev_portfolio : TemporalPortfolioState D) (states : List (TemporalState D)) (e : Enforced D)
      → enforce_temporal_consistency threshold prev prev_portfolio states ≡ some e
      → (is_valid threshold prev prev_portfolio states ≡ true)
        × (all_of (λ (s : TemporalState D). d.is_finite s.prev_allocation) e.states ≡ true)
  unfolding enforce_temporal_consistency
  enforce-is_valid prev_portfolio states e h = ground arith

  is_valid-few :
      (prev_portfolio : TemporalPortfolioState D) (states : List (TemporalState D))
      → is_valid threshold prev prev_portfolio states ≡ true
      → length states ≤ 16
  unfolding is_valid
  is_valid-few prev_portfolio states h = ground arith

  -- When the enforcement returns, its states, residuals and trace are each the list of what is
  -- computed for every asset on its own, none cut off, and the two sums of the portfolio are
  -- the sums over those, from the first to the last.
  pub enforce_temporal_consistency-map :
      (prev_portfolio : TemporalPortfolioState D) (states : List (TemporalState D)) (e : Enforced D)
      → enforce_temporal_consistency threshold prev prev_portfolio states ≡ some e
      → (e.states ≡ map (resolved threshold prev) states)
        × (e.residuals ≡ map (residual_of threshold prev) states)
        × (e.trace ≡ map (step_of threshold prev) states)
        × (e.portfolio.residual_sum ≡ sum_from nought (map (residual threshold prev) states))
        × (e.portfolio.portfolio_risk ≡ sum_from nought (map (risk threshold prev) states))
  unfolding enforce_temporal_consistency
  enforce_temporal_consistency-map prev_portfolio states e h =
      let few = is_valid-few prev_portfolio states (enforce-is_valid prev_portfolio states e h).0 in
      let shape =
        enforce_from-tally (no_tally threshold prev) states (omega (arith, few))
          (omega (arith, few)) in
      ground (arith, shape)
