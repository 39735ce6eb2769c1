-- ===== src/Lib.antt =====
-- A model of the trading agent (app/): how orders are approved, filled, cancelled and reconciled, and
-- how candles become signals.
--
-- A one-minute candle goes to the aggregator, which hands complete strategic candles to the strategy
-- engine; the engine's signal goes to the risk engine, which alone approves orders. What the
-- exchange reports of an order is applied to the order, the position and the system state by the
-- fill service. The system state blocks trading while a cause is there, and the operator can engage
-- the kill switch, release it, and authorise new entries.
--
--   OrderState       app/execution/order_state.py: OrderStatus, validate_transition, is_terminal
--   Persistence      app/persistence/models.py, the rows; app/persistence/repo.py, the helpers that
--                    change them (recompute_trading_blocked, transition_order_status, add_to_position,
--                    close_position and the others; open_position is `new_position`)
--   Execution        app/execution/fill_ledger.py (record_new_fills), fill_service.py
--                    (apply_order_snapshot), reconciliation.py (reconcile_positions,
--                    reconcile_orders), paper_local.py (_apply_to_position, submit, poll_order), bybit_demo.py
--                    (BybitDemo: submit, poll_order, list_open_orders, get_position), funding.py with
--                    Orchestrator._maybe_collect_funding, and the reports of base.py; Paging is the loop
--                    over pages that bybit_demo.py and funding.py share
--   Core             app/core/freshness.py
--   Risk             app/risk/engine.py (evaluate, evaluate_close), config.py, cost_model.py
--   MarketData       the candle of app/market_data/base.py; Bybit is app/market_data/bybit_provider.py
--                    (sync_cursor, _fetch_window, _refill_queue, next_candle), Bybit/Ticks what the ticks
--                    of a symbol are given by it
--   Strategy         app/strategy/engine.py (on_candle, hydrate), aggregator.py (push, hydrate), schemas.py
--   Api              app/api/routes_control.py: Control is engage_kill_switch, Operation the others;
--                    app/api/poll_engine.py: PollEngine, the worker and its supervisor as events
--   Orchestrator     app/orchestrator.py: Tick is Orchestrator.tick; Triggers, Polling, Placing,
--                    Orders and Reconcile are its parts (stop, target and opposing closes; the polling of
--                    open orders; an order that is submitted and tracked; what follows a decision of the
--                    risk engine; reconcile), all on the Desk of one
--                    tick; Health is SymbolHealth, Scheduler MultiSymbolOrchestrator, over any
--                    orchestrators (Ticker), and Portfolio the two together
--
-- Floats are a type with the operations that the code uses (Float), whatever they round to; a
-- theorem that needs an order takes its laws (IsOrdered). The fixed-point numbers of Float compute in
-- the Examples modules, where each theorem is applied to concrete data. The net quantity of the
-- simulated book is stated over exact integers of any unit. Instants are microseconds.
-- Tables are lists of rows in the order of their keys; a transaction is a function that gives the new
-- rows or the exception it raises (Outcome). The risk engine's record of checks is threaded through
-- its checks (Decide). Loops run over lists or count down;
-- the one that collects funding takes fuel, a round for each window of seven days, and is proved to return.
--
-- What is not modelled: the recovery of a symbol after a start; the transport to the exchange, whose
-- answers are inputs of Execution/BybitDemo and MarketData/Bybit, while a tick takes any answers of the
-- execution engine and of the provider (Exchange, Fetch), theirs among them; the replay of files;
-- sessions, metrics, the shadow ledger and the panel. The changes of a tick that an exception leaves
-- are rolled back, and such a tick is no step. The texts of reasons and details are left out, as are
-- columns that no modelled code reads.
pub mod Common
pub mod Float
pub mod MarketData
pub mod OrderState
pub mod Persistence
pub mod Execution
pub mod Core
pub mod Risk
pub mod Strategy
pub mod Api
pub mod Orchestrator
