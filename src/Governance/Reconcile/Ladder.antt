-- ===== src/Governance/Reconcile/Ladder.antt =====
-- The precedence of the governors: a compliance block is final, a severe risk bounds the exposure,
-- and the trace never outgrows its array.
use ailee_finance_unified_ru.Prelude.{
  ℕ, ◌+◌, ◌%◌, ◌≤◌, ◌≡◌, refl, Bool, true, false, ◌&&◌, Option, none, some, List, [], ◌∷◌, arith,
  length, length-append, if◌then◌else◌, ◌∙◌,
}
use ailee_finance_unified_ru.Float.{Float, nought}
use ailee_finance_unified_ru.Governance.Proposals.{
  Proposal, Course, compliance, risk, liquidity, returns, strategy, is_risk_limit, last_of,
}
use ailee_finance_unified_ru.Governance.Reconcile.{
  is_severe, exceeds, log_step, propose, limit_liquidity, limit_risk, block, start,
}

module _ {D : Type 0} where
  -- A stage adds at most one step, and no flag of compliance.
  abbrev IsStep : Course D → Course D → Type 0
  IsStep c c' =
      (length c'.trace ≤ length c.trace + 1) × (c'.flags_applied % 2 ≡ c.flags_applied % 2)

  pub log_step-IsStep :
      (type action : ℕ) (value : D) (c : Course D) → IsStep c (log_step type action value c)
  log_step-IsStep type action value c = ground (
    arith,
    length-append c.trace (
        record {
          governor_type = type;
          action_taken = action;
          proposed_value = value;
          interim_value = c.current_val;
        }
        ∷ []),
  )

  -- The same from a course that an update of other fields gave.
  log_after-IsStep :
      (type action : ℕ) (value : D) (c c' : Course D)
      → length c'.trace ≡ length c.trace
      → c'.flags_applied % 2 ≡ c.flags_applied % 2
      → IsStep c (log_step type action value c')
  log_after-IsStep type action value c c' same even =
      let (less, kept) = log_step-IsStep type action value c' in (omega arith, kept ∙ even)

  if-IsStep :
      (b : Bool) (c x y : Course D) → IsStep c x → IsStep c y → IsStep c (if b then x else y)
  if-IsStep true c x y hx hy = hx
  if-IsStep false c x y hx hy = hy

module _ {F D : Type 0} ⦃f : Float F⦄ ⦃d : Float D⦄ where
  propose-IsStep :
      (type : ℕ) (o : Option (Proposal F D)) (c : Course D) → IsStep c (propose type o c)
  unfolding propose
  propose-IsStep type none c = omega arith
  propose-IsStep type (some p) c = log_step-IsStep type 0 p.proposed_value _

  limit_liquidity-IsStep :
      (o : Option (Proposal F D)) (c : Course D) → IsStep c (limit_liquidity o c)
  unfolding limit_liquidity
  limit_liquidity-IsStep none c = omega arith
  limit_liquidity-IsStep (some p) c =
      if-IsStep c.has_active_base c _ _
        (if-IsStep (d.lt p.proposed_value (d.abs c.current_val)) c _ _
          (log_after-IsStep liquidity 2 p.proposed_value c _ refl (omega arith))
          (log_after-IsStep liquidity 0 p.proposed_value c c refl refl))
        (log_after-IsStep liquidity 0 p.proposed_value c _ refl refl)

  limit_risk-IsStep : (o : Option (Proposal F D)) (c : Course D) → IsStep c (limit_risk o c)
  unfolding limit_risk
  limit_risk-IsStep none c = omega arith
  limit_risk-IsStep (some p) c =
      let value = p.proposed_value in
      if-IsStep (is_severe p) c _ _
        (if-IsStep c.has_active_base c _ _
          (if-IsStep (exceeds c value) c _ _ (log_after-IsStep risk 1 value c _ refl (omega arith))
            (log_after-IsStep risk 0 value c c refl refl))
          (log_after-IsStep risk 0 value c _ refl refl))
        (if-IsStep (is_risk_limit p.flags && exceeds c value) c _ _
          (log_after-IsStep risk 2 value c _ refl (omega arith))
          (log_after-IsStep risk 0 value c c refl refl))

  -- The course before compliance has its say.
  abbrev pub before_block : ℕ → List (Proposal F D) → Course D
  before_block asset proposals = limit_risk (last_of asset risk proposals) (
      limit_liquidity (last_of asset liquidity proposals) (
        propose returns (last_of asset returns proposals)
          (propose strategy (last_of asset strategy proposals) start)))

  pub before_block-few :
      (asset : ℕ) (proposals : List (Proposal F D))
      → let c = before_block asset proposals in (length c.trace ≤ 4) × (c.flags_applied % 2 ≡ 0)
  before_block-few asset proposals =
      let c1 = propose strategy (last_of asset strategy proposals) start in
      let c2 = propose returns (last_of asset returns proposals) c1 in
      let c3 = limit_liquidity (last_of asset liquidity proposals) c2 in
      let s1 = propose-IsStep strategy (last_of asset strategy proposals) start in
      let s2 = propose-IsStep returns (last_of asset returns proposals) c1 in
      let s3 = limit_liquidity-IsStep (last_of asset liquidity proposals) c2 in
      let s4 = limit_risk-IsStep (last_of asset risk proposals) c3 in omega (arith, s1, s2, s3, s4)

  pub block-few :
      (o : Option (Proposal F D)) (c : Course D) → length (block o c).trace ≤ length c.trace + 1
  unfolding block
  block-few none c = omega arith
  block-few (some p) c = ground (
    arith,
    (log_step-IsStep compliance 0 p.proposed_value c).0,
    (log_step-IsStep compliance 3 p.proposed_value (record c {
      current_val = nought;
      resolved_type = compliance;
      flags_applied = c.flags_applied + 1;
    })).0,
  )
