-- ===== src/Execution/Route.antt =====
-- What an order that is submitted rests on.
use Prim.Native.String.{String}
use ailee_finance_unified_ru.Prelude.{ℕ, ◌≡◌, ◌⊎◌, refl, false, some, arith}
use ailee_finance_unified_ru.Float.{Float, IsIeee, ◌≼◌, ◌≺◌, IsNum, IsFinite, nought, one, eq}
use ailee_finance_unified_ru.Float.Bounds.{of_nat-IsFinite}
use ailee_finance_unified_ru.Engine.{Decision, Status}
use ailee_finance_unified_ru.Execution.{
  OrderSide, OrderRequest, build_request, is_unauthorized, route_decision,
}

module _ {F : Type 0} ⦃f : Float F⦄ where
  -- An order against the decision and the quantity that it comes of.
  pub record IsAuthorized (decision : Decision F) (base_qty : F) (request : OrderRequest F)
      : Type 0 where
    pub valid : decision.status ≡ Status.decision_valid
    pub value_in : f.abs decision.final_value ≼ one
    pub direction :
        ((request.side ≡ OrderSide.buy) × (nought ≺ decision.final_value))
        ⊎ ((request.side ≡ OrderSide.sell) × (decision.final_value ≺ nought))
    pub positive : nought ≺ request.quantity
    pub covered : request.quantity ≼ base_qty
    pub at_market : request.limit_price ≡ nought

  -- What the guards let through.
  record IsGuarded (decision : Decision F) (base_qty : F) : Type 0 where
    valid : decision.status ≡ Status.decision_valid
    value_finite : IsFinite decision.final_value
    value_nonzero : eq decision.final_value nought ≡ false
    value_in : f.lt one (f.abs decision.final_value) ≡ false
    confidence_finite : IsFinite decision.confidence
    confidence_pos : f.le decision.confidence nought ≡ false
    confidence_in : f.lt one decision.confidence ≡ false
    base_finite : IsFinite base_qty
    base_pos : f.le base_qty nought ≡ false

  authorized-IsGuarded :
      (decision : Decision F) (base_qty : F)
      → is_unauthorized decision base_qty ≡ false
      → IsGuarded decision base_qty
  unfolding is_unauthorized
  authorized-IsGuarded decision base_qty h = ground arith

  routed :
      (decision : Decision F) (symbol : String) (base_qty : F) (now : ℕ) (request : OrderRequest F)
      → route_decision decision symbol base_qty now ≡ some request
      → (build_request decision symbol base_qty one now ≡ request)
        × (is_unauthorized decision base_qty ≡ false)
        × (f.le (build_request decision symbol base_qty one now).quantity nought ≡ false)
        × IsFinite (build_request decision symbol base_qty one now).quantity
  unfolding route_decision
  routed decision symbol base_qty now request h = ground arith

  module _ (laws : IsIeee F) where
    open laws use {
      num_of_finite, le_trans, le_of_lt, le_of_not_lt, lt_of_not_le, abs_finite, mul_le, mul_shrink,
    }

    zero-IsNum : IsNum (nought {F = F})
    zero-IsNum = num_of_finite _ (of_nat-IsFinite laws 0 (omega arith))

    above_zero : (x : F) → IsFinite x → f.le x nought ≡ false → nought ≺ x
    above_zero x fin h = lt_of_not_le x nought (num_of_finite x fin) zero-IsNum h

    quantity-le :
        (base confidence : F)
        → IsFinite base
        → nought ≼ base
        → nought ≼ confidence
        → confidence ≼ one
        → f.mul (f.mul base confidence) one ≼ base
    quantity-le base confidence fin base_lo lo hi =
        let (q_lo, q_le) = mul_le base confidence fin base_lo lo hi in
        let one_le = laws.le_refl one (num_of_finite _ (of_nat-IsFinite laws 1 (omega arith))) in
        let scaled =
          mul_le (f.mul base confidence) one (mul_shrink base confidence fin lo hi) q_lo
            (le_of_lt _ _ laws.one_pos) one_le in
        le_trans _ _ _ scaled.1 q_le

    build_request-IsAuthorized :
        (decision : Decision F) (symbol : String) (base_qty : F) (now : ℕ)
        → IsGuarded decision base_qty
        → nought ≺ (build_request decision symbol base_qty one now).quantity
        → IsAuthorized decision base_qty (build_request decision symbol base_qty one now)
    unfolding build_request
    build_request-IsAuthorized decision symbol base_qty now g quantity_pos =
        let value = decision.final_value in
        let num = num_of_finite value g.value_finite in
        let conf_pos = above_zero decision.confidence g.confidence_finite g.confidence_pos in
        let base_pos = above_zero base_qty g.base_finite g.base_pos in
        let one_num = num_of_finite _ (of_nat-IsFinite laws 1 (omega arith)) in
        record {
          valid = g.valid;
          value_in =
              le_of_not_lt one _ one_num (num_of_finite _ (abs_finite value g.value_finite))
                g.value_in;
          direction = ground (
            arith,
            g.value_nonzero,
            le_of_not_lt nought value zero-IsNum num,
            lt_of_not_le nought value zero-IsNum num,
          );
          positive = quantity_pos;
          covered =
              quantity-le base_qty decision.confidence g.base_finite (le_of_lt _ _ base_pos)
                (le_of_lt _ _ conf_pos)
                (le_of_not_lt one _ one_num (num_of_finite _ g.confidence_finite) g.confidence_in);
          at_market = refl;
        }

    -- An order is submitted only for a valid decision of magnitude at most one, in the
    -- direction of its sign, at the market, for a quantity that is positive and at most the
    -- base quantity.
    pub route_decision-IsAuthorized :
        (decision : Decision F) (symbol : String) (base_qty : F) (now : ℕ)
        (request : OrderRequest F)
        → route_decision decision symbol base_qty now ≡ some request
        → IsAuthorized decision base_qty request
    route_decision-IsAuthorized decision symbol base_qty now request h =
        let (same, ok, nonzero, fin) = routed decision symbol base_qty now request h in
        rw (← same) (
          build_request-IsAuthorized decision symbol base_qty now
            (authorized-IsGuarded decision base_qty ok)
            (above_zero (build_request decision symbol base_qty one now).quantity fin nonzero))
