-- ===== src/Sell/Tests.antt =====
-- Sales over fixed-point numbers, and each theorem at an input.
use ailee_finance_unified_ru.Prelude.{◌≡◌, true, false, refl, some, [], ◌∷◌}
use ailee_finance_unified_ru.Prelude.Int.{pos, ◌+ℤ◌, ◌-ℤ◌}
use ailee_finance_unified_ru.Prelude.Bytes.{same}
use ailee_finance_unified_ru.Float.{◌≼◌, nought, max_of}
use ailee_finance_unified_ru.Float.Fixed.{
  Fixed, fixed_float, Fixed-IsIeee, fixed_widening, Fixed-IsWidening,
}
use ailee_finance_unified_ru.Sell.Consensus.{
  Feed, are_valid, largest_abs, sum_scaled, variance, mean_scaled, widened, agreement, consensus_of,
}
use ailee_finance_unified_ru.Sell.{
  RawSellSignals, SellGovernanceDecision, is_bullish_mode_allowed, ceiling_factor, manipulation_of,
  trust_of, level_of, ceiling_ratio, adjust_volatility, adjust_manipulation, raw_allowed_of,
  is_bullish, evaluate_sell,
}
use ailee_finance_unified_ru.Sell.Capped.{evaluate_sell-IsCapped}
use ailee_finance_unified_ru.Sell.Guarded.{evaluate_sell-guarded}

abbrev feed : Feed Fixed
feed = record { price = some (pos 1_000_000); confidence = some (pos 9_000) }

-- Two feeds that agree, trust 0.9, no manipulation, some volatility.
abbrev signals : RawSellSignals Fixed
signals = record {
  position_size = some (pos 100_000);
  volatility = some (pos 3_000);
  trust_score = some (pos 9_000);
  spoofed_bids = false;
  bid_liquidity_drop = some (pos 0);
  mev_detected = false;
  spread_widening = some (pos 1_000);
  feeds = feed ∷ feed ∷ [];
  intent_flag = true;
  intent_reason = [];
}

-- All feeds agree, so the root is not reached with anything but 0.
abbrev root : Fixed → Fixed
root x = x

abbrev sold : SellGovernanceDecision Fixed
sold = evaluate_sell Fixed root signals

level-run : sold.level ≡ 0
unfolding is_bullish_mode_allowed ceiling_factor manipulation_of trust_of level_of adjust_volatility
    adjust_manipulation raw_allowed_of is_bullish evaluate_sell are_valid largest_abs sum_scaled
    variance mean_scaled widened agreement consensus_of same ◌+ℤ◌ ◌-ℤ◌
level-run = refl

-- 0.8 for the bullish mode, 0.95 for the volatility, 0.98 for the manipulation.
amount-run : sold.allowed_sell_amount ≡ some (pos 74_480)
unfolding is_bullish_mode_allowed ceiling_factor manipulation_of trust_of level_of adjust_volatility
    adjust_manipulation raw_allowed_of is_bullish evaluate_sell are_valid largest_abs sum_scaled
    variance mean_scaled widened agreement consensus_of same ◌+ℤ◌ ◌-ℤ◌
amount-run = refl

evaluate_sell-IsCapped_example :
    (nought ≼ sold.allowed_sell_amount)
    × (sold.allowed_sell_amount
        ≼ max_of nought (fixed_float.mul (some (pos 100_000)) (ceiling_ratio sold.level)))
evaluate_sell-IsCapped_example =
    evaluate_sell-IsCapped Fixed-IsIeee Fixed-IsIeee Fixed-IsWidening root signals refl

abbrev unfed : RawSellSignals Fixed
unfed = record signals { feeds = [] }

evaluate_sell-guarded_example : (evaluate_sell Fixed root unfed).level ≡ 3
evaluate_sell-guarded_example = evaluate_sell-guarded Fixed Fixed-IsIeee root unfed refl
