-- ===== src/Pulse.antt =====
-- The measuring structs of extensions/v7_2_pipeline.cpp and extensions/v7_3_pipeline.cpp, each a
-- record with its calls. The two demonstrations that run them on fixed data are not modelled.
pub mod Steady
use ailee_finance_unified_ru.Prelude.{
  ℕ, suc, ◌+◌, ◌-◌, ◌/◌, ◌%◌, ◌^◌, Bool, true, false, ◌&&◌, ◌||◌, List, [], ◌∷◌, if◌then◌else◌, ltb,
  get_or, set, replicate,
}
use ailee_finance_unified_ru.Float.{Float, nought, one, of_nat, min_of, sum_from}

abbrev pub window : ℕ
window = 16

abbrev pub shield_window : ℕ
shield_window = 32

-- The next index of a ring of `n` entries.
abbrev pub next : ℕ → ℕ → ℕ
next n index = (index + 1) % n

pub record GlobalResonanceBeacon (D : Type 0) : Type 0 where
  pub consensus_stability : D
  pub volatility_stability : D
  pub microstructure_stability : D
  pub spoof_integrity : D
  pub cache_mode_factor : D
  pub resonance_index : D

pub record HarmonicSync (D : Type 0) : Type 0 where
  pub timing_window : List D
  pub index : ℕ
  pub sync_factor : D

pub record EchoDampener (D : Type 0) : Type 0 where
  pub last_vol : D
  pub last_spread : D
  pub last_liquidity : D
  pub dampening_factor : D

pub record MicrostructurePreCorrector (D : Type 0) : Type 0 where
  pub spread_window : List D
  pub midprice_window : List D
  pub microvol_window : List D
  pub index : ℕ
  pub instability_threshold : D
  pub base_confidence_threshold : D
  pub tightened_confidence_threshold : D

pub record OrderEvent (D : Type 0) : Type 0 where
  pub size : D
  pub lifetime_ms : D
  pub is_bid : Bool

pub record AntiSpoofingShield (D : Type 0) : Type 0 where
  pub events : List (OrderEvent D)
  pub index : ℕ
  pub spoof_sensitivity : D

pub record CacheAdaptiveExecution : Type 0 where
  pub branch_count : ℕ
  pub cycle_estimate : ℕ
  pub load_level : ℕ
  pub load_threshold : ℕ

-- The counters wrap at 64 bits.
unfoldable pub record_branch : CacheAdaptiveExecution → CacheAdaptiveExecution
record_branch c = record c { branch_count = (c.branch_count + 1) % 2 ^ 64 }

unfoldable pub record_cycles : ℕ → CacheAdaptiveExecution → CacheAdaptiveExecution
record_cycles cycles c = record c { cycle_estimate = (c.cycle_estimate + cycles) % 2 ^ 64 }

unfoldable pub set_load_level : ℕ → CacheAdaptiveExecution → CacheAdaptiveExecution
set_load_level level c = record c { load_level = level }

unfoldable pub clear : CacheAdaptiveExecution → CacheAdaptiveExecution
clear c = record c { branch_count = 0; cycle_estimate = 0; load_level = 0 }

unfoldable pub tight_mode : CacheAdaptiveExecution → Bool
tight_mode c = ltb c.load_threshold c.cycle_estimate || ltb (c.load_threshold / 10) c.branch_count

module _ {D : Type 0} ⦃d : Float D⦄ where
  unfoldable pub tune : D → D → D → D → D → GlobalResonanceBeacon D → GlobalResonanceBeacon D
  tune c v m s cache b = record b {
    consensus_stability = c;
    volatility_stability = v;
    microstructure_stability = m;
    spoof_integrity = s;
    cache_mode_factor = cache;
  }

  unfoldable pub compute_resonance : GlobalResonanceBeacon D → GlobalResonanceBeacon D
  compute_resonance b = record b {
    resonance_index = d.mul (d.ratio 1 5) (
        d.add
          (d.add
            (d.add (d.add b.consensus_stability b.volatility_stability) b.microstructure_stability)
            b.spoof_integrity)
          b.cache_mode_factor);
  }

  abbrev pub silent : HarmonicSync D
  silent = record { timing_window = replicate window nought; index = 0; sync_factor = nought }

  unfoldable pub time_in : D → HarmonicSync D → HarmonicSync D
  time_in timing_delta h = record h {
    timing_window = set h.timing_window h.index (d.abs timing_delta);
    index = next window h.index;
  }

  unfoldable pub compute_sync : HarmonicSync D → HarmonicSync D
  compute_sync h = record h {
    sync_factor = min_of one (d.div (sum_from nought h.timing_window) (of_nat window));
  }

  unfoldable pub dampen_echo : D → D → D → EchoDampener D → EchoDampener D
  dampen_echo vol spread liq e = record {
    last_vol = vol;
    last_spread = spread;
    last_liquidity = liq;
    dampening_factor =
        if d.lt (d.ratio 1 2) (d.abs (d.sub vol e.last_vol))
          || d.lt (d.ratio 2 10) (d.abs (d.sub spread e.last_spread))
          || d.lt (d.ratio 3 10) (d.abs (d.sub liq e.last_liquidity))
        then d.ratio 7 10
        else one;
  }

  unfoldable pub dampened : EchoDampener D → D
  dampened e =
      d.mul e.dampening_factor
        (d.div (d.add (d.add e.last_vol e.last_spread) e.last_liquidity) (of_nat 3))

  unfoldable pub measure : D → D → D → MicrostructurePreCorrector D → MicrostructurePreCorrector D
  measure spread midprice microvol p = record p {
    spread_window = set p.spread_window p.index spread;
    midprice_window = set p.midprice_window p.index midprice;
    microvol_window = set p.microvol_window p.index microvol;
    index = next window p.index;
  }

  -- The sum of the steps between neighbours, the first and the last not yet joined.
  unfoldable pub steps_from : D → D → List D → D
  steps_from acc last [] = acc
  steps_from acc last (x ∷ xs) = steps_from (d.add acc (d.abs (d.sub x last))) x xs

  unfoldable pub roughness : List D → D
  roughness [] = nought
  roughness (x ∷ xs) =
      d.add (steps_from nought x xs) (d.abs (d.sub x (get_or (x ∷ xs) (window - 1) nought)))

  unfoldable pub compute_instability : MicrostructurePreCorrector D → D
  compute_instability p =
      d.add (d.add (roughness p.spread_window) (roughness p.midprice_window))
        (roughness p.microvol_window)

  unfoldable pub current_confidence_threshold : MicrostructurePreCorrector D → D
  current_confidence_threshold p =
      if d.lt p.instability_threshold (compute_instability p)
      then p.tightened_confidence_threshold
      else p.base_confidence_threshold

  unfoldable pub record_event : OrderEvent D → AntiSpoofingShield D → AntiSpoofingShield D
  record_event event s = record s {
    events = set s.events s.index event;
    index = next shield_window s.index;
  }

  abbrev pub is_suspicious : OrderEvent D → Bool
  is_suspicious e = d.lt (of_nat 1_000) e.size && d.lt e.lifetime_ms (of_nat 50)

  unfoldable pub suspicious_count : List (OrderEvent D) → ℕ
  suspicious_count [] = 0
  suspicious_count (e ∷ events) =
      let rest = suspicious_count events in if is_suspicious e then suc rest else rest

  unfoldable pub is_spoofing_suspected : AntiSpoofingShield D → Bool
  is_spoofing_suspected s = d.le s.spoof_sensitivity (of_nat (suspicious_count s.events))
