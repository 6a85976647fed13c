-- ===== src/Portfolio/Arbitration.antt =====
-- `arbitrate` of extensions/aille_arbitration.cpp. `none` is the exception. Of a trace step
-- everything but its text is kept.
pub mod Rise
pub mod Weights
pub mod Shares
use ailee_finance_unified_ru.Prelude.{
  ℕ, ◌/◌, ◌%◌, Bool, true, false, ◌&&◌, Option, none, some, List, [], ◌∷◌, if◌then◌else◌, ◌==◌, map,
  take,
}
use ailee_finance_unified_ru.Float.{Float, nought, one, of_nat, eq, clamp, sum_from}
use ailee_finance_unified_ru.Portfolio.Assets.{max_assets, max_trace, record_step, all_of}

pub record Advisory (D : Type 0) : Type 0 where
  pub asset_id : ℕ
  pub raw_flags : ℕ
  pub risk_score : D
  pub safety_level : D
  pub liquidity_level : D
  pub regulatory_level : D
  pub return_score : D
  pub confidence : D

pub record AllocationDecision (D : Type 0) : Type 0 where
  pub asset_id : ℕ
  pub recommended_allocation : D

pub record ArbitrationTraceStep (D : Type 0) : Type 0 where
  pub asset_id : ℕ
  pub dimension : ℕ
  pub input_value : D
  pub result_weight : D

pub record ArbitrationResult (D : Type 0) : Type 0 where
  pub decisions : List (AllocationDecision D)
  pub trace : List (ArbitrationTraceStep D)

-- The dimensions of a ladder: 0 safety, 1 liquidity, 2 regulatory, 3 risk, 4 return.
abbrev pub safety : ℕ
safety = 0

abbrev pub liquidity : ℕ
liquidity = 1

abbrev pub regulatory : ℕ
regulatory = 2

abbrev pub risk : ℕ
risk = 3

abbrev pub returns : ℕ
returns = 4

-- LADDER_V1
abbrev pub ladder_v1 : List ℕ
ladder_v1 = safety ∷ liquidity ∷ regulatory ∷ risk ∷ returns ∷ []

abbrev pub is_hard_block : ℕ → Bool
is_hard_block flags = flags % 2 == 1

abbrev pub is_preferred : ℕ → Bool
is_preferred flags = flags / 4 % 2 == 1

-- An asset on the ladder: the entries of the arrays at its index.
pub record Candidate (D : Type 0) : Type 0 where
  pub asset_id : ℕ
  pub raw_flags : ℕ
  pub safety_hurdle : D
  pub liquidity_factor : D
  pub reg_cap : D
  pub risk_score : D
  pub return_score : D
  pub weight : D

module _ {D : Type 0} ⦃d : Float D⦄ where
  abbrev pub unit_clamp : D → D
  unit_clamp x = clamp x nought one

  abbrev pub normalize_risk : D → D
  normalize_risk raw_risk = unit_clamp (d.div (d.sub raw_risk nought) (d.sub (of_nat 100) nought))

  unfoldable pub scale_in : Advisory D → Candidate D
  scale_in a = record {
    asset_id = a.asset_id;
    raw_flags = a.raw_flags;
    safety_hurdle = unit_clamp a.safety_level;
    liquidity_factor = unit_clamp a.liquidity_level;
    reg_cap = unit_clamp a.regulatory_level;
    risk_score = normalize_risk a.risk_score;
    return_score = unit_clamp a.return_score;
    weight = one;
  }

  -- What a dimension looks at, and the weight it leaves; a number that is no dimension does nothing.
  unfoldable pub rate : ℕ → Candidate D → Option (D × D)
  rate dimension c =
      if dimension == safety
      then some (
        c.safety_hurdle,
        if d.lt c.safety_hurdle (d.ratio 35 100)
            then nought
            else if d.lt c.safety_hurdle (d.ratio 6 10)
            then d.mul c.weight (d.ratio 1 2)
            else c.weight,
      )
      else if dimension == liquidity
      then some (c.liquidity_factor, d.mul c.weight c.liquidity_factor)
      else if dimension == regulatory
      then some (
        if is_hard_block c.raw_flags then nought else c.reg_cap,
        if is_hard_block c.raw_flags
            then nought
            else if d.lt c.reg_cap (d.ratio 3 10)
            then d.mul c.weight (d.ratio 2 10)
            else if is_preferred c.raw_flags
            then d.mul c.weight (d.ratio 12 10)
            else c.weight,
      )
      else if dimension == risk
      then some (c.risk_score, d.mul c.weight (d.sub one c.risk_score))
      else if dimension == returns
      then some (
        c.return_score,
        d.mul c.weight (d.add (d.ratio 1 2) (d.mul (d.ratio 1 2) c.return_score)),
      )
      else none

  -- The weight after a dimension: an asset with no weight left is passed over.
  unfoldable pub weigh : ℕ → Candidate D → D
  weigh dimension c =
      if eq c.weight nought
      then c.weight
      else elim (rate dimension c) [ none ↦ c.weight | some (_, weight) ↦ weight ]

  abbrev pub advance : ℕ → Candidate D → Candidate D
  advance dimension c = record c { weight = weigh dimension c }

  unfoldable pub log_rate :
      ℕ → Candidate D → List (ArbitrationTraceStep D) → List (ArbitrationTraceStep D)
  log_rate dimension c trace = if eq c.weight nought then trace else elim (rate dimension c) [
    | none ↦ trace
    | some (input, weight) ↦
        record_step max_trace
          (record {
            asset_id = c.asset_id;
            dimension = dimension;
            input_value = input;
            result_weight = weight;
          })
          trace
  ]

  -- One stage over all assets, and the stages of a ladder.
  unfoldable pub run_stage :
      ℕ
      → List (Candidate D)
      → List (ArbitrationTraceStep D)
      → List (Candidate D) × List (ArbitrationTraceStep D)
  run_stage dimension [] trace = ([], trace)
  run_stage dimension (c ∷ candidates) trace =
      let (rest, trace') = run_stage dimension candidates (log_rate dimension c trace) in
      (advance dimension c ∷ rest, trace')

  unfoldable pub traverse :
      List ℕ
      → List (Candidate D)
      → List (ArbitrationTraceStep D)
      → List (Candidate D) × List (ArbitrationTraceStep D)
  traverse [] candidates trace = (candidates, trace)
  traverse (dimension ∷ ladder) candidates trace =
      let (candidates', trace') = run_stage dimension candidates trace in
      traverse ladder candidates' trace'

  abbrev pub total_weight : List (Candidate D) → D
  total_weight candidates = sum_from nought (map (λ (c : Candidate D). c.weight) candidates)

  abbrev pub share_of : D → Candidate D → AllocationDecision D
  share_of total c = record {
    asset_id = c.asset_id;
    recommended_allocation = if d.lt nought total then d.div c.weight total else nought;
  }

  abbrev pub is_evidence : Advisory D → Bool
  is_evidence a =
      d.is_finite a.risk_score
      && d.is_finite a.safety_level
      && d.is_finite a.liquidity_level
      && d.is_finite a.regulatory_level
      && d.is_finite a.return_score
      && d.is_finite a.confidence

  unfoldable pub arbitrate : List (Advisory D) → List ℕ → Option (ArbitrationResult D)
  arbitrate advisories ladder =
      let (candidates, trace) = traverse ladder (map scale_in (take max_assets advisories)) [] in
      if all_of is_evidence advisories
      then some (record {
        decisions = map (share_of (total_weight candidates)) candidates;
        trace = trace;
      })
      else none
