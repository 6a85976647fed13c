-- ===== src/Portfolio/Tests/Shares.antt =====
-- The arbitration of two assets, one of them blocked, and its theorems there.
use ailee_finance_unified_ru.Prelude.{ℕ, ◌≡◌, refl, some, List, [], ◌∷◌, get_elem?, arith}
use ailee_finance_unified_ru.Prelude.Int.{pos, ◌+ℤ◌, ◌-ℤ◌}
use ailee_finance_unified_ru.Float.{sum_from}
use ailee_finance_unified_ru.Float.Bounds.{IsUnit}
use ailee_finance_unified_ru.Float.Fixed.{Fixed, fixed_float, Fixed-IsIeee}
use ailee_finance_unified_ru.Portfolio.Assets.{record_step, all_of}
use ailee_finance_unified_ru.Portfolio.Arbitration.{
  Advisory, AllocationDecision, ArbitrationResult, ladder_v1, scale_in, rate, weigh, log_rate,
  run_stage, traverse, arbitrate,
}
use ailee_finance_unified_ru.Portfolio.Arbitration.Shares.{
  IsNought, arbitrate-IsUnit, arbitrate-IsNought,
}

abbrev advisory : ℕ → ℕ → Advisory Fixed
advisory asset flags = record {
  asset_id = asset;
  raw_flags = flags;
  risk_score = some (pos 500_000);
  safety_level = some (pos 5_000);
  liquidity_level = some (pos 10_000);
  regulatory_level = some (pos 9_000);
  return_score = some (pos 10_000);
  confidence = some (pos 10_000);
}

abbrev advisories : List (Advisory Fixed)
advisories = advisory 1 4 ∷ advisory 2 1 ∷ []

abbrev outcome : ArbitrationResult Fixed
outcome = record {
  decisions =
      record { asset_id = 1; recommended_allocation = some (pos 10_000) }
      ∷ record { asset_id = 2; recommended_allocation = some (pos 0) }
      ∷ [];
  trace =
      record {
        asset_id = 1;
        dimension = 0;
        input_value = some (pos 5_000);
        result_weight = some (pos 5_000);
      }
      ∷ record {
        asset_id = 2;
        dimension = 0;
        input_value = some (pos 5_000);
        result_weight = some (pos 5_000);
      }
      ∷ record {
        asset_id = 1;
        dimension = 1;
        input_value = some (pos 10_000);
        result_weight = some (pos 5_000);
      }
      ∷ record {
        asset_id = 2;
        dimension = 1;
        input_value = some (pos 10_000);
        result_weight = some (pos 5_000);
      }
      ∷ record {
        asset_id = 1;
        dimension = 2;
        input_value = some (pos 9_000);
        result_weight = some (pos 6_000);
      }
      ∷ record {
        asset_id = 2;
        dimension = 2;
        input_value = some (pos 0);
        result_weight = some (pos 0);
      }
      ∷ record {
        asset_id = 1;
        dimension = 3;
        input_value = some (pos 5_000);
        result_weight = some (pos 3_000);
      }
      ∷ record {
        asset_id = 1;
        dimension = 4;
        input_value = some (pos 10_000);
        result_weight = some (pos 3_000);
      }
      ∷ [];
}

arbitrate-run : arbitrate advisories ladder_v1 ≡ some outcome
unfolding scale_in rate weigh log_rate run_stage traverse arbitrate record_step all_of sum_from ◌+ℤ◌
    ◌-ℤ◌
arbitrate-run = refl

arbitrate-IsUnit_example :
    (s : AllocationDecision Fixed) × (get_elem? outcome.decisions 0 ≡ some s)
    × (s.asset_id ≡ 1)
    × IsUnit s.recommended_allocation
arbitrate-IsUnit_example =
    arbitrate-IsUnit Fixed-IsIeee advisories ladder_v1 outcome 0 (advisory 1 4) (omega arith)
      arbitrate-run (omega arith) refl

arbitrate-IsNought_example :
    (s : AllocationDecision Fixed) × (get_elem? outcome.decisions 1 ≡ some s)
    × (s.asset_id ≡ 2)
    × IsNought s.recommended_allocation
unfolding scale_in
arbitrate-IsNought_example =
    arbitrate-IsNought Fixed-IsIeee advisories ladder_v1 outcome 1 2 2 (advisory 2 1) arbitrate-run
      (omega arith) refl refl refl
