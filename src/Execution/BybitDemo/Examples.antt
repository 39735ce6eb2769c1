-- ===== src/Execution/BybitDemo/Examples.antt =====
-- The theorems on the exchange's answers at work on two pages of executions, and a page of orders.
use agente_tradin_ia_v2_mult.Common.{
  ℕ, zero, suc, String, true, false, Option, none, some, List, [], ◌∷◌, map, ◌≡◌, refl, arith,
}
use agente_tradin_ia_v2_mult.Common.Int.{pos, ◌+ℤ◌}
use agente_tradin_ia_v2_mult.Float.{Fixed, fixed_float}
use agente_tradin_ia_v2_mult.OrderState.{filled, validate_transition}
use agente_tradin_ia_v2_mult.Persistence.Models.{other}
use agente_tradin_ia_v2_mult.Execution.Base.{FillEvent, OrderStatusSnapshot}
use agente_tradin_ia_v2_mult.Execution.FillLedger.Dedup.{IsRecorded}
use agente_tradin_ia_v2_mult.Execution.Reconciliation.{OrderView}
use agente_tradin_ia_v2_mult.Execution.Paging.{Reply, page, malformed}
use agente_tradin_ia_v2_mult.Execution.Paging.Ends.{Pages}
use agente_tradin_ia_v2_mult.Execution.FillService.{apply_order_snapshot}
use agente_tradin_ia_v2_mult.Execution.Samples.{books_of, applied, frozen}
use agente_tradin_ia_v2_mult.Execution.BybitDemo.{
  statuses, ExecutionRow, OrderRow, read_fill, poll_order, read_orders, list_open_orders, side_text,
  fetch_all_executions,
}
use agente_tradin_ia_v2_mult.Execution.BybitDemo.Listings.{list_open_orders_complete}
use agente_tradin_ia_v2_mult.Execution.BybitDemo.Finality.{polled_final}

abbrev execution : String → ExecutionRow Fixed
execution id = record {
  exec_id = some id;
  exec_qty = some (pos 1_000_000);
  exec_price = some (pos 100_000_000);
  exec_fee = some (some (pos 60_000));
}

abbrev two_pages : ℕ → Option String → Reply (ExecutionRow Fixed)
two_pages zero _ = page (execution "f1" ∷ []) (some "c1")
two_pages (suc zero) _ = page (execution "f2" ∷ []) (some "")
two_pages (suc (suc _)) _ = malformed

abbrev fill : String → FillEvent Fixed
fill id = record {
  exchange_fill_id = id;
  fill_qty = pos 1_000_000;
  fill_price = pos 100_000_000;
  fee = pos 60_000;
}

abbrev polled : OrderStatusSnapshot Fixed
polled = record {
  exchange_order_id = "x1";
  status = filled;
  fills = fill "f1" ∷ fill "f2" ∷ [];
  fills_complete = true;
}

polled_final_example :
    let r = applied false polled (books_of false none []) in
    (rows : List (ExecutionRow Fixed)) × (fills : List (FillEvent Fixed)) × Pages two_pages 0 none
      rows
    × (map read_fill rows ≡ map some fills)
    × IsRecorded r.0.order.id r.0.executions fills
unfolding poll_order apply_order_snapshot validate_transition ◌+ℤ◌
polled_final_example =
    polled_final 10 5 frozen false (books_of false none []) "x1" (statuses (some "Filled" ∷ []))
      two_pages polled refl refl (λ e. ground (arith, e)) refl (λ e. ground (arith, e))

-- A cursor that comes again leaves the listing incomplete, with what was read so far.
abbrev circle : ℕ → Option String → Reply (ExecutionRow Fixed)
circle k _ = page (execution "f1" ∷ []) (some "c")

circle_stops : fetch_all_executions circle ≡ some (fill "f1" ∷ fill "f1" ∷ [], false)
unfolding fetch_all_executions
circle_stops = refl

abbrev order_row : OrderRow Fixed
order_row = record {
  order_status = some "New";
  order_id = some "x1";
  side = "Buy";
  qty = some (some (pos 1_000_000));
}

abbrev one_page : ℕ → Option String → Reply (OrderRow Fixed)
one_page k _ = page (order_row ∷ []) none

abbrev open_there : OrderView Fixed
open_there = record { exchange_order_id = some "x1"; side = other "Buy"; qty = pos 1_000_000 }

list_open_orders_complete_example :
    (rows : List (OrderRow Fixed)) × Pages one_page 0 none rows
    × (read_orders rows ≡ some (open_there ∷ []))
unfolding list_open_orders side_text
list_open_orders_complete_example = list_open_orders_complete one_page (open_there ∷ []) refl
