-- ===== src/Governance/Proposals.antt =====
-- The proposals of the governors and the structs of extensions/aille_governor_reconciliation.hpp.
-- Of a trace step everything but its text is kept.
use ailee_finance_unified_ru.Prelude.{
  ℕ, ◌/◌, ◌%◌, Bool, ◌&&◌, Option, none, some, List, [], ◌∷◌, if◌then◌else◌, ◌==◌,
}

-- A governor's type is a byte: 0 compliance, 1 risk, 2 liquidity, 3 return, 4 strategy.
abbrev pub compliance : ℕ
compliance = 0

abbrev pub risk : ℕ
risk = 1

abbrev pub liquidity : ℕ
liquidity = 2

abbrev pub returns : ℕ
returns = 3

abbrev pub strategy : ℕ
strategy = 4

pub record Proposal (F D : Type 0) : Type 0 where
  pub asset_id : ℕ
  pub governor_type : ℕ
  pub flags : ℕ
  pub risk_score : F
  pub proposed_value : D

pub record TraceStep (D : Type 0) : Type 0 where
  pub governor_type : ℕ
  pub action_taken : ℕ
  pub proposed_value : D
  pub interim_value : D

-- The variables of the traversal.
pub record Course (D : Type 0) : Type 0 where
  pub current_val : D
  pub has_active_base : Bool
  pub resolved_type : ℕ
  pub flags_applied : ℕ
  pub trace : List (TraceStep D)

pub record Reconciled (D : Type 0) : Type 0 where
  pub final_value : D
  pub resolved_type : ℕ
  pub flags_applied : ℕ
  pub total_residual : D
  pub lyapunov_energy : D
  pub tension : D
  pub trace : List (TraceStep D)

-- `std::sqrt`, and the cosine and sine of each governor's phase angle.
pub record Trigonometry (D : Type 0) : Type 0 where
  pub sqrt : D → D
  pub cos_phase : ℕ → D
  pub sin_phase : ℕ → D

abbrev pub max_steps : ℕ
max_steps = 64

-- The flags HARD_BLOCK and RISK_LIMIT of a proposal.
abbrev pub is_hard_block : ℕ → Bool
is_hard_block flags = flags % 2 == 1

abbrev pub is_risk_limit : ℕ → Bool
is_risk_limit flags = flags / 2 % 2 == 1

module _ {F D : Type 0} where
  -- The last proposal of a governor for the asset.
  unfoldable pub last_of : ℕ → ℕ → List (Proposal F D) → Option (Proposal F D)
  last_of asset type [] = none
  last_of asset type (p ∷ proposals) = elim (last_of asset type proposals) [
    | some later ↦ some later
    | none ↦ if p.asset_id == asset && p.governor_type == type then some p else none
  ]

  unfoldable pub for_asset : ℕ → List (Proposal F D) → List (Proposal F D)
  for_asset asset [] = []
  for_asset asset (p ∷ proposals) =
      let rest = for_asset asset proposals in if p.asset_id == asset then p ∷ rest else rest
