-- ===== src/Sell/Guarded.antt =====
-- Evidence that is not in order never raises what may be sold: the level is the strictest one.
use ailee_finance_unified_ru.Prelude.{
  ℕ, ◌≤◌, ◌<◌, ◌≡◌, ◌*◌, Bool, false, not, ◌&&◌, arith, Bool-cases, inl, inr,
}
use ailee_finance_unified_ru.Prelude.Bytes.{is_empty}
use ailee_finance_unified_ru.Float.{Float, IsIeee, Widening, nought, one}
use ailee_finance_unified_ru.Sell.Consensus.{are_valid, consensus_of}
use ailee_finance_unified_ru.Sell.{
  RawSellSignals, valid_manipulation, manipulation_of, trust_of, level_of, evaluate_sell,
}

module _ {D : Type 0} ⦃d : Float D⦄ where
  -- A sale that is meant, with evidence that is finite and at least one feed.
  abbrev pub is_evidenced : RawSellSignals D → Bool
  is_evidenced s =
      s.intent_flag
      && d.is_finite s.trust_score
      && valid_manipulation s
      && not (is_empty s.feeds)
      && are_valid s.feeds

  module _ (laws : IsIeee D) where
    above_nought : (n : ℕ) → 100 ≤ 1_000 * n → d.le (d.ratio n 100) nought ≡ false
    above_nought n h = laws.not_le_of_lt nought _ (laws.ratio_pos n 100 (omega arith) h)

    below_one : (n : ℕ) → n < 100 → d.le one (d.ratio n 100) ≡ false
    below_one n h = laws.not_le_of_lt _ one (
        laws.ratio_lt n 100 1 1 (omega arith) (omega arith) (omega arith) (omega arith)
          (omega arith))

    level_of-untrusted : (manip consensus : D) → level_of nought manip consensus ≡ 3
    unfolding level_of
    level_of-untrusted manip consensus = ground (
      arith,
      above_nought 85 (omega arith),
      above_nought 70 (omega arith),
      above_nought 50 (omega arith),
    )

    level_of-manipulated : (trust consensus : D) → level_of trust one consensus ≡ 3
    unfolding level_of
    level_of-manipulated trust consensus =
        ground (
          arith,
          below_one 20 (omega arith),
          below_one 40 (omega arith),
          below_one 60 (omega arith),
        )

    level_of-contested : (trust manip : D) → level_of trust manip nought ≡ 3
    unfolding level_of
    level_of-contested trust manip = ground (
      arith,
      above_nought 80 (omega arith),
      above_nought 60 (omega arith),
      above_nought 40 (omega arith),
    )

module _ (F : Type 0) {D L : Type 0} ⦃f : Float F⦄ ⦃d : Float D⦄ ⦃l : Float L⦄ ⦃w : Widening F D⦄
    ⦃v : Widening D L⦄ (laws : IsIeee D) (sqrt : L → L) where
  -- A sale without intent, or with a trust score, a liquidity drop, a spread, a price or a
  -- confidence that is not finite, or with no feed at all, gets the strictest level, 3.
  pub evaluate_sell-guarded :
      (s : RawSellSignals D) → is_evidenced s ≡ false → (evaluate_sell F sqrt s).level ≡ 3
  unfolding evaluate_sell trust_of manipulation_of consensus_of
  evaluate_sell-guarded s h = elim (Bool-cases (d.is_finite s.trust_score)) [
    | inr bad ↦
        ground (arith, level_of-untrusted laws (manipulation_of s) (consensus_of sqrt s.feeds))
    | inl trusted ↦ elim (Bool-cases (valid_manipulation s)) [
      | inr bad ↦ ground (arith, level_of-manipulated laws (trust_of s) (consensus_of sqrt s.feeds))
      | inl calm ↦ ground (arith, level_of-contested laws (trust_of s) (manipulation_of s))
    ]
  ]
