-- ===== src/Execution/Tests.antt =====
-- A run of the routing over fixed-point numbers, and its theorem at an input.
use ailee_finance_unified_ru.Prelude.{◌≡◌, refl, false, some, [], ◌∷◌}
use ailee_finance_unified_ru.Prelude.Int.{pos, negsuc}
use ailee_finance_unified_ru.Float.Fixed.{Fixed, fixed_float, Fixed-IsIeee}
use ailee_finance_unified_ru.Engine.{Decision, Status, Reason}
use ailee_finance_unified_ru.Execution.{
  OrderSide, OrderRequest, build_request, is_unauthorized, route_decision,
}
use ailee_finance_unified_ru.Execution.Route.{IsAuthorized, route_decision-IsAuthorized}

abbrev short : Decision Fixed
short = record {
  final_value = some (negsuc 4_999);
  status = Status.decision_valid;
  confidence = some (pos 8_000);
  models_agreed = 2;
  fallback_used = false;
  timestamp_ns = 1_000;
  contributing_models = pos 1 ∷ pos 2 ∷ [];
  reasoning = Reason.consensus_of 2;
}

abbrev order : OrderRequest Fixed
order = record {
  symbol = "BTC";
  side = OrderSide.sell;
  quantity = some (pos 80_000);
  limit_price = some (pos 0);
  client_ref = "";
  timestamp_ns = 2_000;
}

short-run : route_decision short "BTC" (some (pos 100_000)) 2_000 ≡ some order
unfolding route_decision is_unauthorized build_request
short-run = refl

route_decision-IsAuthorized_example : IsAuthorized short (some (pos 100_000)) order
route_decision-IsAuthorized_example =
    route_decision-IsAuthorized Fixed-IsIeee short "BTC" (some (pos 100_000)) 2_000 order short-run
