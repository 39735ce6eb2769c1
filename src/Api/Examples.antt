-- ===== src/Api/Examples.antt =====
-- The theorems on the operator's controls at work on concrete requests.
use agente_tradin_ia_v2_mult.Common.{
  ℕ, true, false, none, some, List, [], ◌∷◌, ◌≡◌, ◌≢◌, ◌↔◌, refl, All,
}
use agente_tradin_ia_v2_mult.Common.Int.{pos}
use agente_tradin_ia_v2_mult.Float.{Fixed, fixed_float}
use agente_tradin_ia_v2_mult.OrderState.{
  OrderStatus, cancelled, cancel_pending, validate_transition,
}
use agente_tradin_ia_v2_mult.Persistence.Models.{
  buy, complete, Order, ativo, observando, SystemState,
}
use agente_tradin_ia_v2_mult.Execution.Books.{Outcome, done, illegal_transition, zero_division}
use agente_tradin_ia_v2_mult.Persistence.Repo.{transition_order_status}
use agente_tradin_ia_v2_mult.Api.Control.{
  Store, Surroundings, is_cancelled_remotely, engage_kill_switch,
}
use agente_tradin_ia_v2_mult.Api.Control.KillSwitch.{
  IsCancellable, engage_kill_switch-IsCancellable,
}
use agente_tradin_ia_v2_mult.Api.Operation.{
  Request, carried_out, Readiness, activate_operational_state,
}
use agente_tradin_ia_v2_mult.Api.Operation.Activation.{MayActivate, activate_iff}

abbrev pub idle : SystemState
idle = record {
  trading_blocked = false;
  block_reason = none;
  kill_switch_engaged = false;
  consecutive_losses = 0;
  cooldown_until = none;
  api_failure_count = 0;
  state_ambiguous = false;
  clock_out_of_sync = false;
  reconciliation_diverged = false;
  reconciliation_stale = false;
  order_state_unknown = false;
  initialization_not_reconciled = false;
  operational_state = observando;
  active_session_id = none;
}

abbrev pub order_in : OrderStatus → Order Fixed
order_in status = record {
  id = 7;
  risk_evaluation_id = 3;
  symbol = "BTCUSDT";
  side = buy;
  qty = pos 2_000_000;
  stop_loss = none;
  take_profit = none;
  is_close = false;
  status = status;
  exchange_order_id = some "x1";
  mode = "PAPER_LIVE";
  filled_qty = pos 0;
  avg_fill_price = pos 0;
  fees_total = pos 0;
  pending_exchange_status = none;
  fills_sync_status = complete;
}

abbrev pub store : List (Order Fixed) → Store Fixed
store orders = record {
  state = idle;
  fills_count = none;
  orders = orders;
  events = [];
  executions = [];
  positions = [];
  security_events = [];
}

abbrev surroundings : Surroundings Fixed
surroundings = record {
  mode = "PAPER_LIVE";
  now = 10;
  max_api_failures = 5;
  decision_of = λ _. none;
  poll_order = λ _. record {
    exchange_order_id = "x1";
    status = cancelled;
    fills = [];
    fills_complete = true;
  };
}

abbrev value : Store Fixed → Outcome (Store Fixed × List ℕ) → Store Fixed × List ℕ
value st (done r) = r
value st illegal_transition = (st, [])
value st zero_division = (st, [])

engage_kill_switch-IsCancellable_example :
    let st = store (order_in cancel_pending ∷ []) in
    (All (λ o. is_cancelled_remotely "PAPER_LIVE" o ≡ true → IsCancellable o.status) st.orders
      → engage_kill_switch surroundings st ≢ illegal_transition)
    × ((r : Store Fixed × List ℕ)
        → engage_kill_switch surroundings st ≡ done r
        → All (λ o. is_cancelled_remotely "PAPER_LIVE" o ≡ true → IsCancellable o.status) st.orders)
engage_kill_switch-IsCancellable_example =
    engage_kill_switch-IsCancellable surroundings (store (order_in cancel_pending ∷ []))

-- A kill switch that is engaged again over an order whose cancellation is pending.
engage_refused :
    engage_kill_switch surroundings (store (order_in cancel_pending ∷ [])) ≡ illegal_transition
unfolding engage_kill_switch validate_transition transition_order_status
engage_refused = refl

abbrev panel : Request
panel = record { client_host = some "127.0.0.1"; control_token = "" }

abbrev sound : Readiness
sound = record { engine_unhealthy = false; applicable = true; symbols = [] }

activate_iff_example :
    (activate_operational_state "" panel sound idle
      ≡ carried_out (record idle { operational_state = ativo }))
    ↔ (MayActivate "" panel sound idle
        × (record idle { operational_state = ativo } ≡ record idle { operational_state = ativo }))
activate_iff_example = activate_iff "" panel sound idle (record idle { operational_state = ativo })
