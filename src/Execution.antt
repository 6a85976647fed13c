-- ===== src/Execution.antt =====
-- The routing of decisions to a broker, ailee_plugins/IExecutionProvider.hpp. `submitOrder` is a
-- plugin's own: what is routed is the request that it is given, `none` where it is not called.
pub mod Route
mod Tests
use Prim.Native.String.{String}
use ailee_finance_unified_ru.Prelude.{
  ℕ, Bool, true, false, not, ◌||◌, Option, none, some, if◌then◌else◌,
}
use ailee_finance_unified_ru.Float.{Float, nought, one, eq}
use ailee_finance_unified_ru.Engine.{Decision, Status}

pub data OrderSide : Type 0 where
  buy sell flat : OrderSide

pub record OrderRequest (F : Type 0) : Type 0 where
  pub symbol : String
  pub side : OrderSide
  pub quantity : F
  pub limit_price : F
  pub client_ref : String
  pub timestamp_ns : ℕ

abbrev pub is_valid : Status → Bool
is_valid Status.decision_valid = true
is_valid _ = false

module _ {F : Type 0} ⦃f : Float F⦄ where
  abbrev side_of : F → OrderSide
  side_of value =
      if f.lt nought value
      then OrderSide.buy
      else if f.lt value nought
      then OrderSide.sell
      else OrderSide.flat

  unfoldable pub build_request : Decision F → String → F → F → ℕ → OrderRequest F
  build_request decision symbol base_qty confidence_scale now = record {
    symbol = symbol;
    side = side_of decision.final_value;
    quantity = f.mul (f.mul base_qty decision.confidence) confidence_scale;
    limit_price = nought;
    client_ref = "";
    timestamp_ns = now;
  }

  unfoldable pub is_unauthorized : Decision F → F → Bool
  is_unauthorized decision base_qty =
      not (is_valid decision.status)
      || not (f.is_finite decision.final_value)
      || eq decision.final_value nought
      || f.lt one (f.abs decision.final_value)
      || not (f.is_finite decision.confidence)
      || f.le decision.confidence nought
      || f.lt one decision.confidence
      || not (f.is_finite base_qty)
      || f.le base_qty nought

  unfoldable pub route_decision : Decision F → String → F → ℕ → Option (OrderRequest F)
  route_decision decision symbol base_qty now =
      let request = build_request decision symbol base_qty one now in
      if is_unauthorized decision base_qty
      then none
      else if not (f.is_finite request.quantity) || f.le request.quantity nought
      then none
      else some request
