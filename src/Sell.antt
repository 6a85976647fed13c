-- ===== src/Sell.antt =====
-- `AileeFinanceGovernor::evaluateSell` of src/ailee_finance_governor.cpp, as it is built without
-- Python: `float` is F, `double` is D and `long double` is L.
pub mod Consensus
pub mod Grace
pub mod Capped
pub mod Guarded
mod Tests
use ailee_finance_unified_ru.Prelude.{
  ℕ, Bool, true, false, not, ◌&&◌, ◌||◌, List, if◌then◌else◌, ◌==◌,
}
use ailee_finance_unified_ru.Prelude.Bytes.{Bytes, codes, is_empty, same}
use ailee_finance_unified_ru.Float.{Float, Widening, nought, one, of_nat, clamp, max_of, min_of}
use Consensus.{Feed, consensus_of, are_valid}

pub record RawSellSignals (D : Type 0) : Type 0 where
  pub position_size : D
  pub volatility : D
  pub trust_score : D
  pub spoofed_bids : Bool
  pub bid_liquidity_drop : D
  pub mev_detected : Bool
  pub spread_widening : D
  pub feeds : List (Feed D)
  pub intent_flag : Bool
  pub intent_reason : Bytes

pub record HftBiasConfig (F : Type 0) : Type 0 where
  pub enabled : Bool
  pub bullishness_mode : Bytes
  pub bullish_multiplier_price : F
  pub bullish_multiplier_volume : F
  pub bullish_execution_scale : F
  pub bullish_sell_ceiling_factor : F
  pub trust_threshold_bullish : F
  pub manipulation_threshold : F
  pub contrarian_sell_ceiling_factor : F

pub record SellGovernanceDecision (D : Type 0) : Type 0 where
  pub level : ℕ
  pub allowed_sell_amount : D
  pub trust_score : D
  pub manipulation_score : D
  pub consensus_score : D
  pub reason : Bytes
  pub bullish_mode_active : Bool
  pub bullish_multiplier_price : D
  pub bullish_multiplier_volume : D
  pub bullish_execution_scale : D
  pub bullish_sell_ceiling_factor : D

module _ {F : Type 0} ⦃f : Float F⦄ where
  -- `HFTBiasConfig{}`
  abbrev pub default_config : HftBiasConfig F
  default_config = record {
    enabled = true;
    bullishness_mode = codes "STANDARD";
    bullish_multiplier_price = f.ratio 105 100;
    bullish_multiplier_volume = f.ratio 105 100;
    bullish_execution_scale = f.ratio 110 100;
    bullish_sell_ceiling_factor = f.ratio 80 100;
    trust_threshold_bullish = f.ratio 70 100;
    manipulation_threshold = f.ratio 30 100;
    contrarian_sell_ceiling_factor = f.ratio 85 100;
  }

  abbrev pub is_bounded : F → F → F → Bool
  is_bounded value minimum maximum = f.is_finite value && f.le minimum value && f.le value maximum

  unfoldable pub is_bullish_mode_allowed : F → F → Bool → HftBiasConfig F → Bool
  is_bullish_mode_allowed trust_score manipulation_score drawdown_near_breach cfg =
      cfg.enabled
      && f.is_finite trust_score
      && f.is_finite manipulation_score
      && is_bounded cfg.trust_threshold_bullish nought one
      && is_bounded cfg.manipulation_threshold nought one
      && is_bounded cfg.bullish_multiplier_price one (f.ratio 3 2)
      && is_bounded cfg.bullish_multiplier_volume one (f.ratio 3 2)
      && is_bounded cfg.bullish_execution_scale one (f.ratio 3 2)
      && is_bounded cfg.bullish_sell_ceiling_factor (f.ratio 1 10) one
      && not (f.lt trust_score cfg.trust_threshold_bullish)
      && not (f.lt cfg.manipulation_threshold manipulation_score)
      && not drawdown_near_breach

  -- The factor of the ceiling in bullish mode.
  unfoldable pub ceiling_factor : HftBiasConfig F → F
  ceiling_factor cfg =
      if same cfg.bullishness_mode (codes "CONTRARIAN") || same cfg.bullishness_mode (codes "HYPER")
      then cfg.contrarian_sell_ceiling_factor
      else cfg.bullish_sell_ceiling_factor

module _ {D : Type 0} ⦃d : Float D⦄ where
  abbrev pub add_if : Bool → D → D → D
  add_if true x sum = d.add sum x
  add_if false x sum = sum

  -- The heuristics, each of which adds to the score.
  abbrev pub manipulation : RawSellSignals D → D
  manipulation s =
      add_if (d.lt nought s.spread_widening)
        (min_of (d.ratio 20 100) (d.mul s.spread_widening (d.ratio 4 10)))
        (add_if s.mev_detected (d.ratio 25 100) (
          add_if (d.lt nought s.bid_liquidity_drop)
            (min_of (d.ratio 35 100) (d.mul s.bid_liquidity_drop (d.ratio 1 2)))
            (add_if s.spoofed_bids (d.ratio 35 100) nought)))

  abbrev pub valid_manipulation : RawSellSignals D → Bool
  valid_manipulation s = d.is_finite s.bid_liquidity_drop && d.is_finite s.spread_widening

  unfoldable pub manipulation_of : RawSellSignals D → D
  manipulation_of s = if valid_manipulation s then clamp (manipulation s) nought one else one

  unfoldable pub trust_of : RawSellSignals D → D
  trust_of s = if d.is_finite s.trust_score then clamp s.trust_score nought one else nought

  unfoldable pub level_of : D → D → D → ℕ
  level_of trust manip consensus =
      if d.le (d.ratio 85 100) trust
        && d.le manip (d.ratio 20 100)
        && d.le (d.ratio 80 100) consensus
      then 0
      else if d.le (d.ratio 70 100) trust
          && d.le manip (d.ratio 40 100)
          && d.le (d.ratio 60 100) consensus
      then 1
      else if d.le (d.ratio 50 100) trust
          && d.le manip (d.ratio 60 100)
          && d.le (d.ratio 40 100) consensus
      then 2
      else 3

  abbrev pub ceiling_ratio : ℕ → D
  ceiling_ratio level =
      if level == 0
      then one
      else if level == 1
      then d.ratio 6 10
      else if level == 2
      then d.ratio 3 10
      else d.ratio 1 10

  -- The grace layer: the more volatile, the less.
  unfoldable pub adjust_volatility : D → D → D
  adjust_volatility volatility raw_allowed =
      let vol = max_of nought volatility in
      if d.le vol (d.ratio 20 100)
      then raw_allowed
      else if d.le vol (d.ratio 50 100)
      then max_of nought
          (d.mul raw_allowed (d.sub one (d.mul (d.ratio 1 2) (d.sub vol (d.ratio 20 100)))))
      else max_of nought (
          d.mul raw_allowed (
            max_of (d.ratio 20 100)
              (d.sub (d.ratio 85 100) (d.mul (d.ratio 8 10) (d.sub vol (d.ratio 50 100))))))

  unfoldable pub adjust_manipulation : D → D → D → D → D
  adjust_manipulation position manip consensus allowed =
      if d.lt nought manip
      then (let less = d.mul allowed (max_of nought (d.sub one (d.mul (d.ratio 1 2) manip))) in
          if d.lt (d.mul position (d.ratio 3 10)) less && d.lt consensus (d.ratio 70 100)
          then d.mul less (max_of (d.ratio 1 10) consensus)
          else less)
      else allowed

  -- The early answer to a sale without intent or without a position.
  abbrev pub refuse : RawSellSignals D → SellGovernanceDecision D
  refuse s = record {
    level = 3;
    allowed_sell_amount = max_of nought (d.mul s.position_size (d.ratio 1 10));
    trust_score = if d.is_finite s.trust_score then s.trust_score else nought;
    manipulation_score = one;
    consensus_score = nought;
    reason =
        if s.intent_flag
        then codes "Non-positive position size"
        else if is_empty s.intent_reason
        then codes "Invalid sell intent"
        else s.intent_reason;
    bullish_mode_active = false;
    bullish_multiplier_price = d.ratio 105 100;
    bullish_multiplier_volume = d.ratio 105 100;
    bullish_execution_scale = d.ratio 110 100;
    bullish_sell_ceiling_factor = d.ratio 80 100;
  }

module _ (F : Type 0) {D : Type 0} ⦃f : Float F⦄ ⦃d : Float D⦄ ⦃w : Widening F D⦄ where
  -- The trust and the manipulation are narrowed for the bullish test, the factor is widened.
  unfoldable pub raw_allowed_of : Bool → ℕ → D → D
  raw_allowed_of bullish level position =
      let raw_allowed = d.mul position (ceiling_ratio level) in
      if bullish && not (level == 3)
      then d.mul raw_allowed (w.widen (ceiling_factor (default_config {F = F})))
      else raw_allowed

  unfoldable pub is_bullish : RawSellSignals D → Bool
  is_bullish s =
      d.is_finite s.trust_score
      && valid_manipulation s
      && is_bullish_mode_allowed (w.narrow (trust_of s)) (w.narrow (manipulation_of s)) false
          (default_config {F = F})

module _ (F : Type 0) {D L : Type 0} ⦃f : Float F⦄ ⦃d : Float D⦄ ⦃l : Float L⦄ ⦃w : Widening F D⦄
    ⦃v : Widening D L⦄ (sqrt : L → L) where
  abbrev pub decide : RawSellSignals D → SellGovernanceDecision D
  decide s =
      let trust = trust_of s in
      let manip = manipulation_of s in
      let consensus = consensus_of sqrt s.feeds in
      let level = level_of trust manip consensus in
      let cfg = default_config {F = F} in
      record {
        level = level;
        allowed_sell_amount = max_of nought (
            adjust_manipulation s.position_size manip consensus (
              adjust_volatility s.volatility
                (raw_allowed_of F (is_bullish F s) level s.position_size)));
        trust_score = trust;
        manipulation_score = manip;
        consensus_score = consensus;
        reason = codes "SELL intent evaluated successfully via C++ governor";
        bullish_mode_active = is_bullish F s;
        bullish_multiplier_price = w.widen cfg.bullish_multiplier_price;
        bullish_multiplier_volume = w.widen cfg.bullish_multiplier_volume;
        bullish_execution_scale = w.widen cfg.bullish_execution_scale;
        bullish_sell_ceiling_factor = w.widen cfg.bullish_sell_ceiling_factor;
      }

  unfoldable pub evaluate_sell : RawSellSignals D → SellGovernanceDecision D
  evaluate_sell s = if not s.intent_flag || d.le s.position_size nought then refuse s else decide s
