-- ===== src/Execution/Reconciliation/Examples.antt =====
-- The theorems on reconciliation at work on one position and one order.
use agente_tradin_ia_v2_mult.Common.{false, none, some, Option, [], ◌∷◌, ◌≡◌, ◌↔◌, All}
use agente_tradin_ia_v2_mult.Common.Int.{pos}
use agente_tradin_ia_v2_mult.Float.{Fixed, fixed_float}
use agente_tradin_ia_v2_mult.Persistence.Models.{buy}
use agente_tradin_ia_v2_mult.Execution.Reconciliation.{
  PositionView, OrderView, Dict, get, by_symbol, is_none, reconcile_positions,
}
use agente_tradin_ia_v2_mult.Execution.Reconciliation.Agreement.{
  IsReported, reconcile_positions_iff,
}

abbrev seen_position : PositionView Fixed
seen_position = record {
  symbol = "BTCUSDT";
  side = buy;
  qty = pos 1_000_000;
  avg_entry_price = none;
}

abbrev reported : Dict (Option (PositionView Fixed))
reported = ("BTCUSDT", some seen_position) ∷ []

reconcile_positions_iff_example :
    let here = by_symbol [] (seen_position ∷ []) in
    (reconcile_positions (seen_position ∷ []) reported ≡ []) ↔ (
      All (λ item. IsReported item.1 (get item.0 reported)) here
      × All (λ item. (is_none item.1 ≡ false) → is_none (get item.0 here) ≡ false) reported)
reconcile_positions_iff_example = reconcile_positions_iff (seen_position ∷ []) reported

abbrev seen_order : OrderView Fixed
seen_order = record { exchange_order_id = some "x1"; side = buy; qty = pos 1_000_000 }
