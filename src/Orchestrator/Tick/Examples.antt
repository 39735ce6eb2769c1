-- ===== src/Orchestrator/Tick/Examples.antt =====
-- The theorems on a tick at work on one symbol: an entry that is filled at once, and a position that
-- is stopped.
use agente_tradin_ia_v2_mult.Common.{
  ℕ, Option, ◌+◌, String, true, false, none, some, [], ◌∷◌, ◌≡◌, ◌↔◌, refl, arith,
}
use agente_tradin_ia_v2_mult.Common.Int.{pos, ◌+ℤ◌, ◌-ℤ◌, ◌/ℤ◌, ◌*ℤ◌}
use agente_tradin_ia_v2_mult.Float.{Fixed, fixed_float, Fixed-IsOrdered}
use agente_tradin_ia_v2_mult.MarketData.{CandleTick, new_candle}
use agente_tradin_ia_v2_mult.OrderState.{submitted, filled, validate_transition, is_terminal}
use agente_tradin_ia_v2_mult.Persistence.Models.{buy, sell, opened, Position}
use agente_tradin_ia_v2_mult.Persistence.Repo.{open_positions}
use agente_tradin_ia_v2_mult.Risk.Engine.{ApprovedOrder}
use agente_tradin_ia_v2_mult.Risk.Examples.{engine, signal, context}
use agente_tradin_ia_v2_mult.Strategy.Aggregator.{push}
use agente_tradin_ia_v2_mult.Strategy.Examples.{engine as strategy, aggregator}
use agente_tradin_ia_v2_mult.Api.Examples.{store}
use agente_tradin_ia_v2_mult.Orchestrator.Results.{
  TickStatus, TickResult, order_filled, position_closed,
}
use agente_tradin_ia_v2_mult.Orchestrator.Desk.{Attempt, returned, raised, Desk, Exchange, Setting}
use agente_tradin_ia_v2_mult.Orchestrator.Orders.{enter_via_risk}
use agente_tradin_ia_v2_mult.Orchestrator.Orders.Authority.{IsCautious}
use agente_tradin_ia_v2_mult.Orchestrator.Triggers.{stop_loss, take_profit, touched}
use agente_tradin_ia_v2_mult.Orchestrator.Triggers.Levels.{at_stop, at_target, Trades, touched_iff}
use agente_tradin_ia_v2_mult.Orchestrator.Polling.{wait}
use agente_tradin_ia_v2_mult.Orchestrator.Tick.{
  Inputs, Trader, result, conditions, take_over_candle, process_candle, tick,
}
use agente_tradin_ia_v2_mult.Orchestrator.Orders.Closing.{IsIdle, CloseEnd}
use agente_tradin_ia_v2_mult.Risk.Engine.Closing.{IsClosable, close_order}
use agente_tradin_ia_v2_mult.Orchestrator.Tick.Closes.{judged_close}
use agente_tradin_ia_v2_mult.Orchestrator.Tick.Submissions.{IsReady, IsApprovedOn, tick-IsCautious}
use agente_tradin_ia_v2_mult.Orchestrator.Tick.Steps.{
  Steps, stay, onward, ticks, IsOnce, Steps-IsOnce,
}
use agente_tradin_ia_v2_mult.Orchestrator.Tick.Series.{IsFed, process_candle-IsFed}
use agente_tradin_ia_v2_mult.Orchestrator.Tick.Priority.{process_candle-exit}

abbrev pub desk : Desk Fixed
desk = record {
  store = store [];
  keys = [];
  candles = [];
  next_signal_id = 1;
  next_order_id = 1;
  next_evaluation_id = 1;
  orders_count = some 0;
  approvals_count = some 0;
  rejections_count = some 0;
  failures_count = some 0;
  reconciliations_count = some 0;
  last_reconciliation_at = none;
  journal = [];
  submissions = [];
}

-- An exchange that fills an order at once.
abbrev pub exchange : Exchange Fixed
exchange = record {
  submit = λ o key price. some (record { exchange_order_id = "x1"; status = submitted });
  poll_order = λ o. some (record {
    exchange_order_id = "x1";
    status = filled;
    fills =
        (record {
          exchange_fill_id = "f1";
          fill_qty = pos 400_000;
          fill_price = pos 100_000_000;
          fee = pos 24_000;
        })
        ∷ [];
    fills_complete = true;
  });
  list_open_orders = λ symbol. some [];
  get_position = λ symbol. some none;
}

abbrev pub setting : Setting Fixed
setting = record {
  symbol = "BTCUSDT";
  mode = "BYBIT_DEMO";
  now = 100;
  max_api_failures = 5;
  cooldown_after_losses = 3;
  cooldown = 1_800_000_000;
  decision_of = λ _. none;
}

abbrev key_of : ApprovedOrder Fixed → String
key_of o = o.symbol

abbrev pub entry : Attempt (Desk Fixed × TickStatus)
entry = enter_via_risk setting exchange engine context key_of 7 signal (pos 100_000_000) desk

abbrev pub left_by : Attempt (Desk Fixed × TickStatus) → Desk Fixed
left_by (returned r) = r.0
left_by raised = desk

entered : entry ≡ returned (left_by entry, order_filled)
unfolding enter_via_risk validate_transition is_terminal ◌+ℤ◌ ◌-ℤ◌ ◌/ℤ◌ ◌*ℤ◌
entered = refl

-- A long position, and a candle that falls through its stop.
abbrev held : Position Fixed
held = record {
  symbol = "BTCUSDT";
  side = buy;
  qty = pos 400_000;
  avg_entry_price = pos 100_000_000;
  stop_loss = some (pos 98_000_000);
  take_profit = some (pos 103_000_000);
  status = opened;
  realized_pnl = pos 0;
  fees_paid = pos 24_000;
  closed_at = none;
}

abbrev falling : CandleTick Fixed
falling = record {
  symbol = "BTCUSDT";
  timeframe = "1m";
  open_time = 300_000_000;
  «open» = pos 99_000_000;
  high = pos 104_000_000;
  low = pos 97_000_000;
  close = pos 98_000_000;
  volume = pos 1_000_000;
}

abbrev pub trader : Trader Fixed
trader = record {
  desk = record desk { store = record (store []) { positions = held ∷ [] } };
  aggregator = aggregator;
  strategy_engine = strategy;
  strategy_gap_degraded = false;
  engine_degraded = false;
  last_open_order_poll_at = some 90;
}

abbrev pub inputs : Inputs Fixed
inputs = record {
  env = setting;
  exchange = exchange;
  polling = record {
    open_order_poll_interval = 30;
    partial_fill_policy = wait;
    partial_fill_timeout = 60;
    stalled_for = λ _. 0;
  };
  risk_engine = engine;
  reconciliation_interval = 300;
  reconciliation_max_delay = 900;
  fetched = new_candle falling;
  data_is_stale = false;
  clock_ok = true;
  clock_drift_seconds = some (pos 1_000_000);
  today_start = 0;
  trigger_key = λ c g o. o.symbol;
  opposing_key = λ s o. o.symbol;
  entry_key = λ bucket o. o.symbol;
}

abbrev left_after : Attempt (Trader Fixed × TickResult) → Trader Fixed
left_after (returned r) = r.0
left_after raised = trader

ticked :
    tick inputs trader ≡ returned (left_after (tick inputs trader), result position_closed false)
unfolding tick validate_transition is_terminal ◌+ℤ◌ ◌-ℤ◌ ◌/ℤ◌ ◌*ℤ◌
ticked = refl

tick-Steps : Steps trader.desk (left_after (tick inputs trader)).desk
tick-Steps =
    onward stay
      (ticks inputs trader (left_after (tick inputs trader)) (result position_closed false) ticked)

tick-IsCautious_example :
    (reconciled : Desk Fixed) × (polled : Desk Fixed × Option ℕ) × IsReady inputs trader reconciled
      polled
    × IsCautious
        (IsApprovedOn inputs inputs.fetched
          (record trader { desk = polled.0; last_open_order_poll_at = polled.1 }))
        trader.desk
        (left_after (tick inputs trader)).desk
tick-IsCautious_example =
    tick-IsCautious inputs trader (left_after (tick inputs trader)) (result position_closed false)
      ticked

pub desk-IsOnce : IsOnce trader.desk
unfolding IsOnce
desk-IsOnce key = omega arith

Steps-IsOnce_example : IsOnce (left_after (tick inputs trader)).desk
Steps-IsOnce_example =
    Steps-IsOnce trader.desk (left_after (tick inputs trader)).desk tick-Steps desk-IsOnce

touched_iff_example :
    ((touched held falling ≡ some (stop_loss (pos 98_000_000)))
      ↔ ((held.stop_loss ≡ some (pos 98_000_000)) × Trades falling (at_stop held (pos 98_000_000))))
    × ((touched held falling ≡ some (take_profit (pos 98_000_000))) ↔ (
        (held.take_profit ≡ some (pos 98_000_000))
        × Trades falling (at_target held (pos 98_000_000))
        × ((s : Fixed) → held.stop_loss ≡ some s → ¬ Trades falling (at_stop held s))))
touched_iff_example = touched_iff Fixed-IsOrdered falling refl held (pos 98_000_000)

abbrev result_or : Attempt (Trader Fixed × TickResult) → Trader Fixed × TickResult
result_or (returned r) = r
result_or raised = (trader, result position_closed false)

process_candle-IsFed_example :
    let r = result_or (process_candle inputs falling trader) in
    (r.0.aggregator ≡ (push trader.aggregator falling).0)
    × IsFed (push trader.aggregator falling).1 trader.strategy_engine r.0
unfolding process_candle validate_transition is_terminal ◌+ℤ◌ ◌-ℤ◌ ◌/ℤ◌ ◌*ℤ◌
process_candle-IsFed_example =
    process_candle-IsFed inputs falling trader (result_or (process_candle inputs falling trader))
      refl

process_candle-exit_example :
    let r = result_or (process_candle inputs falling trader) in
    let taken = take_over_candle inputs falling trader.desk in
    (e : Desk Fixed × TickStatus) × CloseEnd
      (IsClosable engine.limits
        (judged_close (conditions inputs false) taken.store.state)
        sell
        (pos 400_000)
        true
        (pos 400_000)
        buy)
      setting
      exchange
      (λ o. o.symbol)
      (pos 98_000_000)
      (close_order taken.next_signal_id "BTCUSDT" sell (pos 400_000))
      (record taken { next_signal_id = taken.next_signal_id + 1 })
      e.0
      e.1
    × (r.1.status ≡ e.1)
    × IsIdle e.0 r.0.desk
unfolding process_candle open_positions touched validate_transition is_terminal ◌+ℤ◌ ◌-ℤ◌ ◌/ℤ◌ ◌*ℤ◌
process_candle-exit_example =
    process_candle-exit inputs falling trader (result_or (process_candle inputs falling trader))
      held [] (stop_loss (pos 98_000_000)) refl refl refl
