-- ===== src/Governance/Reconcile.antt =====
-- `reconcile_governors` of extensions/aille_governor_reconciliation.cpp. `none` is the exception.
-- The bits of `flags_applied` are set one at a time, so `|=` is a sum here.
pub mod Ladder
pub mod Block
use ailee_finance_unified_ru.Prelude.{
  ℕ, ◌+◌, ◌*◌, ◌/◌, ◌%◌, ◌^◌, Bool, true, false, not, ◌&&◌, ◌||◌, Option, none, some, List, [], ◌∷◌,
  ◌++◌, if◌then◌else◌, ltb, leb, ◌==◌, length,
}
use ailee_finance_unified_ru.Governance.Proposals.{
  compliance, risk, liquidity, returns, strategy, Proposal, TraceStep, Course, Reconciled,
  Trigonometry, max_steps, is_hard_block, is_risk_limit, last_of, for_asset,
}
use ailee_finance_unified_ru.Float.{Float, Widening, nought, one, of_nat, max_of}

module _ {D : Type 0} where
  -- `log_step`
  abbrev pub log_step : ℕ → ℕ → D → Course D → Course D
  log_step type action proposed c =
      if ltb (length c.trace) max_steps
      then record c {
        trace =
            c.trace
            ++ (record {
              governor_type = type;
              action_taken = action;
              proposed_value = proposed;
              interim_value = c.current_val;
            }
                ∷ []);
      }
      else c

  abbrev adopt : ℕ → D → Course D → Course D
  adopt type value c = record c {
    current_val = value;
    has_active_base = true;
    resolved_type = type;
  }

module _ {D : Type 0} ⦃d : Float D⦄ where
  abbrev start : Course D
  start = record {
    current_val = nought;
    has_active_base = false;
    resolved_type = strategy;
    flags_applied = 0;
    trace = [];
  }

  -- `std::abs(current_val) > std::abs(proposed_risk_val)`
  abbrev pub exceeds : Course D → D → Bool
  exceeds c value = d.lt (d.abs value) (d.abs c.current_val)

  abbrev weight_of : ℕ → D
  weight_of type =
      if type == compliance
      then one
      else if type == risk
      then d.ratio 4 5
      else if type == liquidity
      then d.ratio 3 5
      else if type == returns || type == strategy
      then d.ratio 1 2
      else nought

  -- The value damped where the energy passes its threshold.
  unfoldable pub damp : D → D → Course D → Course D
  damp threshold energy c =
      if d.lt threshold energy
      then (let multiplier = d.div threshold energy in
          let damped = d.mul c.current_val multiplier in
          log_step compliance 4 (d.div damped multiplier) (record c { current_val = damped }))
      else c

module _ {F D : Type 0} ⦃f : Float F⦄ ⦃d : Float D⦄ where
  -- Strategy, and then return, set the value that the others bound.
  unfoldable pub propose : ℕ → Option (Proposal F D) → Course D → Course D
  propose type none c = c
  propose type (some p) c = log_step type 0 p.proposed_value (adopt type p.proposed_value c)

  unfoldable pub limit_liquidity : Option (Proposal F D) → Course D → Course D
  limit_liquidity none c = c
  limit_liquidity (some p) c =
      let limit = p.proposed_value in
      if c.has_active_base
      then (if d.lt limit (d.abs c.current_val)
          then log_step liquidity 2 limit (record c {
            current_val = d.mul (if d.le nought c.current_val then one else d.neg one) limit;
            flags_applied = c.flags_applied + 4;
          })
          else log_step liquidity 0 limit c)
      else log_step liquidity 0 limit (adopt liquidity limit c)

  abbrev pub is_severe : Proposal F D → Bool
  is_severe p = f.lt (of_nat 75) p.risk_score

  unfoldable pub limit_risk : Option (Proposal F D) → Course D → Course D
  limit_risk none c = c
  limit_risk (some p) c =
      let value = p.proposed_value in
      if is_severe p
      then (if c.has_active_base
          then (if exceeds c value
              then log_step risk 1 value (record c {
                current_val = value;
                resolved_type = risk;
                flags_applied = c.flags_applied + 2;
              })
              else log_step risk 0 value c)
          else log_step risk 0 value (adopt risk value c))
      else if is_risk_limit p.flags && exceeds c value
      then log_step risk 2 value
          (record c { current_val = value; flags_applied = c.flags_applied + 2 })
      else log_step risk 0 value c

  unfoldable pub block : Option (Proposal F D) → Course D → Course D
  block none c = c
  block (some p) c =
      if is_hard_block p.flags
      then log_step compliance 3 p.proposed_value (record c {
        current_val = nought;
        resolved_type = compliance;
        flags_applied = c.flags_applied + 1;
      })
      else log_step compliance 0 p.proposed_value c

  -- The ladder, from the base up to the last word.
  unfoldable pub climb : ℕ → List (Proposal F D) → Course D
  climb asset proposals = block (last_of asset compliance proposals) (
      limit_risk (last_of asset risk proposals) (
        limit_liquidity (last_of asset liquidity proposals) (
          propose returns (last_of asset returns proposals)
            (propose strategy (last_of asset strategy proposals) start))))

  abbrev pull : (ℕ → D) → ℕ → Option (Proposal F D) → D → D
  pull phase type none acc = acc
  pull phase type (some p) acc = d.add acc (d.mul p.proposed_value (phase type))

  -- One axis of the tension, in the code's order of the governors.
  unfoldable pub axis : (ℕ → D) → ℕ → List (Proposal F D) → D
  axis phase asset proposals = pull phase strategy (last_of asset strategy proposals) (
      pull phase returns (last_of asset returns proposals) (
        pull phase liquidity (last_of asset liquidity proposals) (
          pull phase risk (last_of asset risk proposals)
            (pull phase compliance (last_of asset compliance proposals) nought))))

  unfoldable pub squared_diff : D → D → List (Proposal F D) → D
  squared_diff value acc [] = acc
  squared_diff value acc (p ∷ proposals) =
      let diff = d.sub p.proposed_value value in
      squared_diff value (d.add acc (d.mul (weight_of p.governor_type) (d.mul diff diff))) proposals

  unfoldable pub residual : D → D → List (Proposal F D) → D
  residual value acc [] = acc
  residual value acc (p ∷ proposals) =
      residual value
        (d.add acc (d.mul (weight_of p.governor_type) (d.abs (d.sub p.proposed_value value))))
        proposals

  unfoldable pub max_abs : D → List (Proposal F D) → D
  max_abs acc [] = acc
  max_abs acc (p ∷ proposals) =
      let size = d.abs p.proposed_value in max_abs (if d.lt acc size then size else acc) proposals

  -- The threshold grows with the square of the largest proposal.
  abbrev pub threshold_of : ℕ → List (Proposal F D) → D
  threshold_of asset proposals =
      let top = max_abs nought (for_asset asset proposals) in
      max_of (of_nat 100) (d.mul (d.mul (of_nat 10) top) top)

module _ {F D : Type 0} ⦃f : Float F⦄ ⦃d : Float D⦄ ⦃w : Widening F D⦄ where
  unfoldable pub are_valid : List (Proposal F D) → Bool
  are_valid [] = true
  are_valid (p ∷ proposals) =
      let rest = are_valid proposals in
      d.is_finite p.proposed_value
      && d.is_finite (w.widen p.risk_score)
      && leb p.governor_type 4
      && rest

  abbrev pub conclude : Trigonometry D → ℕ → List (Proposal F D) → Reconciled D
  conclude trig asset proposals =
      let course = climb asset proposals in
      let mine = for_asset asset proposals in
      let tx = axis trig.cos_phase asset proposals in
      let ty = axis trig.sin_phase asset proposals in
      let tension = trig.sqrt (d.add (d.mul tx tx) (d.mul ty ty)) in
      let energy =
        d.add (d.mul tension tension)
          (d.mul (d.ratio 1 2) (squared_diff course.current_val nought mine)) in
      let final = damp (threshold_of asset proposals) energy course in
      record {
        final_value = final.current_val;
        resolved_type = final.resolved_type;
        flags_applied = final.flags_applied;
        total_residual = residual final.current_val nought mine;
        lyapunov_energy = energy;
        tension = tension;
        trace = final.trace;
      }

  -- The final check throws on a result that is not finite.
  unfoldable pub reconcile_governors :
      Trigonometry D → List (Proposal F D) → ℕ → Option (Reconciled D)
  reconcile_governors trig [] asset = some (record {
    final_value = nought;
    resolved_type = strategy;
    flags_applied = 0;
    total_residual = nought;
    lyapunov_energy = nought;
    tension = nought;
    trace = [];
  })
  reconcile_governors trig (p ∷ proposals) asset =
      let r = conclude trig asset (p ∷ proposals) in
      if are_valid (p ∷ proposals)
        && d.is_finite r.final_value
        && d.is_finite r.total_residual
        && d.is_finite r.lyapunov_energy
        && d.is_finite r.tension
      then some r
      else none
