-- ===== src/Execution/Samples.antt =====
-- An order, its position, fills and reports for the examples.
use agente_tradin_ia_v2_mult.Common.{Bool, true, false, Option, none, some, List, [], ◌∷◌}
use agente_tradin_ia_v2_mult.Common.Int.{pos}
use agente_tradin_ia_v2_mult.Float.{Fixed, fixed_float}
use agente_tradin_ia_v2_mult.OrderState.{OrderStatus, submitted}
use agente_tradin_ia_v2_mult.Persistence.Models.{
  Side, buy, complete, Order, Execution, Position, opened, ativo, SystemState,
}
use agente_tradin_ia_v2_mult.Execution.Base.{FillEvent, OrderStatusSnapshot}
use agente_tradin_ia_v2_mult.Execution.Books.{
  Outcome, done, illegal_transition, zero_division, Books, Decision, FillApplicationResult,
}
use agente_tradin_ia_v2_mult.Execution.FillService.{apply_order_snapshot}

abbrev pub first_fill : FillEvent Fixed
first_fill = record {
  exchange_fill_id = "f1";
  fill_qty = pos 1_000_000;
  fill_price = pos 100_000_000;
  fee = pos 60_000;
}

abbrev pub order_of : Bool → Order Fixed
order_of is_close = record {
  id = 7;
  risk_evaluation_id = 3;
  symbol = "BTCUSDT";
  side = buy;
  qty = pos 2_000_000;
  stop_loss = some (pos 90_000_000);
  take_profit = some (pos 120_000_000);
  is_close = is_close;
  status = submitted;
  exchange_order_id = some "x1";
  mode = "PAPER_LIVE";
  filled_qty = pos 0;
  avg_fill_price = pos 0;
  fees_total = pos 0;
  pending_exchange_status = none;
  fills_sync_status = complete;
}

abbrev pub position_of : Side → Position Fixed
position_of side = record {
  symbol = "BTCUSDT";
  side = side;
  qty = pos 3_000_000;
  avg_entry_price = pos 110_000_000;
  stop_loss = none;
  take_profit = none;
  status = opened;
  realized_pnl = pos 0;
  fees_paid = pos 0;
  closed_at = none;
}

abbrev pub calm : SystemState
calm = record {
  trading_blocked = false;
  block_reason = none;
  kill_switch_engaged = false;
  consecutive_losses = 0;
  cooldown_until = none;
  api_failure_count = 0;
  state_ambiguous = false;
  clock_out_of_sync = false;
  reconciliation_diverged = false;
  reconciliation_stale = false;
  order_state_unknown = false;
  initialization_not_reconciled = false;
  operational_state = ativo;
  active_session_id = none;
}

abbrev pub books_of : Bool → Option (Position Fixed) → List (Execution Fixed) → Books Fixed
books_of is_close position executions = record {
  state = calm;
  fills_count = some 0;
  order = order_of is_close;
  other_orders = [];
  events = [];
  executions = executions;
  before = [];
  position = position;
  behind = [];
  security_events = [];
}

abbrev pub on_file : Execution Fixed
on_file = record {
  order_id = 7;
  exchange_fill_id = some "f1";
  fill_qty = pos 1_000_000;
  fill_price = pos 100_000_000;
  fee = pos 60_000;
  is_partial = true;
  executed_at = 5;
}

abbrev pub report : OrderStatus → Bool → OrderStatusSnapshot Fixed
report status fills_complete = record {
  exchange_order_id = "x1";
  status = status;
  fills = first_fill ∷ [];
  fills_complete = fills_complete;
}

abbrev pub frozen : Option (Decision Fixed)
frozen = some (record {
  stop_distance_per_unit = some (pos 2_000_000);
  target_distance_per_unit = some (pos 3_000_000);
})

abbrev pub Result : Type 0
Result = Books Fixed × FillApplicationResult Fixed

-- The value of a call that returns.
abbrev pub value : Books Fixed → Outcome Result → Result
value b (done r) = r
value b illegal_transition = (
  b,
  record {
    status = submitted;
    new_fill_count = 0;
    realized_pnl_delta_total = pos 0;
    closed_fully = none;
  },
)
value b zero_division = (
  b,
  record {
    status = submitted;
    new_fill_count = 0;
    realized_pnl_delta_total = pos 0;
    closed_fully = none;
  },
)

abbrev pub applied : Bool → OrderStatusSnapshot Fixed → Books Fixed → Result
applied is_close snap b = value b (apply_order_snapshot 10 5 frozen is_close snap b)
