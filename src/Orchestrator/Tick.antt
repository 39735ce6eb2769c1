-- ===== src/Orchestrator/Tick.antt =====
-- app/orchestrator.py: `Orchestrator.tick`. What only feeds the panel, the AI advisor and the shadow
-- ledger, which run in transactions of their own, and the collection of funding, which has its own
-- tables, are left out.
pub mod Closes
pub mod Decisions
pub mod Submissions
pub mod Steps
pub mod Series
pub mod Priority
pub mod Examples
use agente_tradin_ia_v2_mult.Common.{
  ℕ, ◌+◌, ◌-◌, String, Bool, true, false, not, ◌&&◌, ◌||◌, ◌==◌, Option, none, some, List, [], ◌∷◌,
  ◌++◌, str_eq, ltb, leb, if◌then◌else◌,
}
use agente_tradin_ia_v2_mult.Float.{Float}
use agente_tradin_ia_v2_mult.MarketData.{
  CandleTick, Fetch, replay_finished, nothing_new, retryable, fatal, gap, new_candle,
}
use agente_tradin_ia_v2_mult.Persistence.Models.{Side, other, same_side}
use agente_tradin_ia_v2_mult.Persistence.Repo.{recompute_trading_blocked}
use agente_tradin_ia_v2_mult.Strategy.Schemas.{Signal}
use agente_tradin_ia_v2_mult.Strategy.Slots.{AggregatedCandle, CandleAggregator}
use agente_tradin_ia_v2_mult.Strategy.Aggregator.{push, to_candle_tick}
use agente_tradin_ia_v2_mult.Strategy.Engine.{StrategyEngine, on_candle}
use agente_tradin_ia_v2_mult.Risk.Engine.{ApprovedOrder, RiskEngine}
use agente_tradin_ia_v2_mult.Orchestrator.Results.{
  TickStatus, TickResult, no_data, no_new_candle, retryable_error, fatal_error, gap_detected,
  duplicate_candle, aggregating, incomplete_bucket, hold,
}
use agente_tradin_ia_v2_mult.Orchestrator.Desk.{
  Attempt, returned, raised, ◌>>=◌, of_option, Entry, market_data_failed, market_data_fatal,
  market_data_gap, clock_drift_blocked, api_failure_limit_reached, Desk, Exchange, Setting,
}
use agente_tradin_ia_v2_mult.Orchestrator.Reconcile.{reconcile}
use agente_tradin_ia_v2_mult.Orchestrator.Placing.{map_state}
use agente_tradin_ia_v2_mult.Orchestrator.Orders.{enter_via_risk}
use agente_tradin_ia_v2_mult.Orchestrator.Triggers.{
  Trigger, Conditions, check_stop_take, maybe_close_opposing_position, entry_context,
}
use agente_tradin_ia_v2_mult.Orchestrator.Polling.{Polling, maybe_poll_open_orders}

-- What a tick is given: the engines and settings, what the market data and the clock say, and how an
-- idempotency key is made of an order (app/execution/idempotency.py) for each kind of decision.
pub record Inputs (F : Type 0) : Type 0 where
  pub env : Setting F
  pub exchange : Exchange F
  pub polling : Polling F
  pub risk_engine : RiskEngine F
  pub reconciliation_interval : ℕ
  pub reconciliation_max_delay : ℕ
  pub fetched : Fetch F
  pub data_is_stale : Bool
  pub clock_ok : Bool
  pub clock_drift_seconds : Option F
  pub today_start : ℕ
  pub trigger_key : CandleTick F → Trigger F → ApprovedOrder F → String
  pub opposing_key : Signal F → ApprovedOrder F → String
  pub entry_key : ℕ → ApprovedOrder F → String

-- The memory of `Orchestrator`, and the tables.
pub record Trader (F : Type 0) : Type 0 where
  pub desk : Desk F
  pub aggregator : CandleAggregator F
  pub strategy_engine : StrategyEngine F
  pub strategy_gap_degraded : Bool
  pub engine_degraded : Bool
  pub last_open_order_poll_at : Option ℕ

-- `signal.direction == "HOLD"`
abbrev pub is_hold : Side → Bool
is_hold side = same_side side (other "HOLD")

abbrev pub result : TickStatus → Bool → TickResult
result status complete = record { status = status; strategy_bucket_complete = complete }

abbrev pub is_overdue : ℕ → ℕ → Option ℕ → Bool
is_overdue now max_delay none = false
is_overdue now max_delay (some at) = ltb max_delay (now - at)

abbrev pub status_or : TickStatus → Option TickStatus → TickStatus
status_or status none = status
status_or status (some s) = s

module _ {F : Type 0} where
  -- `save_candle` finds the row; the timeframe of a candle is taken to be in its canonical form.
  abbrev pub has_candle : CandleTick F → List (String × String × ℕ) → Bool
  has_candle c [] = false
  has_candle c (k ∷ ks) =
      (str_eq c.symbol k.0 && str_eq c.timeframe k.1 && (c.open_time == k.2)) || has_candle c ks

  abbrev pub with_desk : Trader F → Desk F → Trader F
  with_desk t d = record t { desk = d }

module _ {F : Type 0} ⦃f : Float F⦄ where
  -- The reconciliation that is due, and whether the last one is too old.
  unfoldable pub maybe_reconcile : Inputs F → Option ℕ → Desk F → Attempt (Desk F)
  unfolding reconcile
  maybe_reconcile i none d = returned d
  maybe_reconcile i (some at) d =
      if leb i.reconciliation_interval (i.env.now - at)
      then reconcile i.env i.exchange d
      else returned d

  unfoldable pub judge_reconciliation : Inputs F → Desk F → Desk F
  unfolding recompute_trading_blocked
  judge_reconciliation i d =
      map_state
        (λ s.
          recompute_trading_blocked
            (record s {
              reconciliation_stale =
                  is_overdue i.env.now i.reconciliation_max_delay d.last_reconciliation_at;
            })
            i.env.max_api_failures)
        d

  -- A tick whose market data fail.
  unfoldable pub count_api_failure : Inputs F → Desk F → Desk F
  unfolding recompute_trading_blocked
  count_api_failure i d =
      map_state
        (λ s.
          recompute_trading_blocked (record s { api_failure_count = s.api_failure_count + 1 })
            i.env.max_api_failures)
        d

  abbrev pub log_entry : Entry → Desk F → Desk F
  log_entry entry d = record d { journal = d.journal ++ (entry ∷ []) }

  unfoldable pub fail_retryable : Inputs F → Desk F → Desk F
  unfolding count_api_failure
  fail_retryable i d =
      let failed = log_entry market_data_failed (count_api_failure i d) in
      if failed.store.state.trading_blocked
      then log_entry (api_failure_limit_reached failed.store.state.api_failure_count) failed
      else failed

  unfoldable pub mark_gap : Inputs F → Desk F → Desk F
  unfolding recompute_trading_blocked
  mark_gap i d = log_entry market_data_gap (
      map_state
        (λ s.
          recompute_trading_blocked (record s { state_ambiguous = true }) i.env.max_api_failures)
        d)

  -- A new candle is saved, the API is healthy, and the clock is judged.
  unfoldable pub take_over_candle : Inputs F → CandleTick F → Desk F → Desk F
  unfolding recompute_trading_blocked
  take_over_candle i c d =
      let saved =
        map_state
          (λ s.
            recompute_trading_blocked (record s { api_failure_count = 0 }) i.env.max_api_failures)
          (record d { candles = d.candles ++ ((c.symbol, c.timeframe, c.open_time) ∷ []) }) in
      let noted =
        if not i.clock_ok && not saved.store.state.clock_out_of_sync
        then log_entry clock_drift_blocked saved
        else saved in
      map_state
        (λ s.
          recompute_trading_blocked (record s { clock_out_of_sync = not i.clock_ok })
            i.env.max_api_failures)
        noted

  abbrev pub conditions : Inputs F → Bool → Conditions F
  conditions i degraded = record {
    data_is_stale = i.data_is_stale;
    clock_drift_seconds = i.clock_drift_seconds;
    now = i.env.now;
    engine_degraded = degraded;
  }

  -- An entry, unless the signal is to hold.
  unfoldable pub consider_entry :
      Inputs F → ℕ → ℕ → Signal F → F → Trader F → Attempt (Trader F × TickResult)
  unfolding enter_via_risk entry_context
  consider_entry i bucket signal_id s close t =
      if is_hold s.direction
      then returned (t, result hold true)
      else (enter_via_risk i.env i.exchange i.risk_engine
            (entry_context (conditions i t.engine_degraded) i.today_start s.symbol t.desk)
            (i.entry_key bucket) signal_id s close t.desk
          >>= λ r. returned (with_desk t r.0, result r.1 true))

  -- What follows an opposing position.
  unfoldable pub unless_closed :
      Inputs F
      → ℕ
      → ℕ
      → Signal F
      → F
      → Trader F
      → Option TickStatus
      → Attempt (Trader F × TickResult)
  unfolding consider_entry
  unless_closed i bucket signal_id s close t (some status) = returned (t, result status true)
  unless_closed i bucket signal_id s close t none = consider_entry i bucket signal_id s close t

  -- The decision on a complete bucket; an exit by stop or target leaves no room for another.
  unfoldable pub decide :
      Inputs F
      → ℕ
      → ℕ
      → Signal F
      → F
      → Option TickStatus
      → Trader F
      → Attempt (Trader F × TickResult)
  unfolding maybe_close_opposing_position unless_closed
  decide i bucket signal_id s close (some status) t = returned (t, result status true)
  decide i bucket signal_id s close none t =
      maybe_close_opposing_position i.env i.exchange i.risk_engine (conditions i t.engine_degraded)
        (i.opposing_key s) signal_id s t.desk
      >>= λ r. unless_closed i bucket signal_id s close (with_desk t r.0) r.1

  -- A complete bucket goes to the strategy, and its signal is saved.
  unfoldable pub consult_strategy :
      Inputs F → AggregatedCandle F → Option TickStatus → Trader F → Attempt (Trader F × TickResult)
  unfolding on_candle decide to_candle_tick
  consult_strategy i a exit t = of_option (on_candle t.strategy_engine (to_candle_tick a)) >>= λ r.
      decide i a.open_time t.desk.next_signal_id r.1 a.close exit (record t {
        strategy_gap_degraded = false;
        strategy_engine = r.0;
        desk = record t.desk { next_signal_id = t.desk.next_signal_id + 1 };
      })

  -- A bucket that is not complete decides nothing; without an exit it is a gap.
  unfoldable pub skip_bucket : Option TickStatus → Trader F → Trader F × TickResult
  skip_bucket (some status) t = (t, result status false)
  skip_bucket none t = (record t { strategy_gap_degraded = true }, result incomplete_bucket false)

  unfoldable pub after_push :
      Inputs F
      → Option TickStatus
      → Option (AggregatedCandle F)
      → Trader F
      → Attempt (Trader F × TickResult)
  unfolding consult_strategy skip_bucket
  after_push i exit none t = returned (t, result (status_or aggregating exit) false)
  after_push i exit (some a) t =
      if a.complete then consult_strategy i a exit t else returned (skip_bucket exit t)

  -- A candle that is new in the table.
  unfoldable pub process_candle :
      Inputs F → CandleTick F → Trader F → Attempt (Trader F × TickResult)
  unfolding take_over_candle check_stop_take push after_push
  process_candle i c t =
      check_stop_take i.env i.exchange i.risk_engine
        (conditions i (t.engine_degraded || t.strategy_gap_degraded)) (i.trigger_key c) c
        (take_over_candle i c t.desk)
      >>= λ r.
          let pushed = push t.aggregator c in
          after_push i r.1 pushed.1 (record t { desk = r.0; aggregator = pushed.0 })

  -- What the market data lead to.
  unfoldable pub receive : Inputs F → Fetch F → Trader F → Attempt (Trader F × TickResult)
  unfolding fail_retryable mark_gap count_api_failure process_candle
  receive i replay_finished t = returned (t, result no_data false)
  receive i nothing_new t = returned (t, result no_new_candle false)
  receive i retryable t =
      returned (with_desk t (fail_retryable i t.desk), result retryable_error false)
  receive i fatal t = returned (
    with_desk t (log_entry market_data_fatal (count_api_failure i t.desk)),
    result fatal_error false,
  )
  receive i gap t = returned (with_desk t (mark_gap i t.desk), result gap_detected false)
  receive i (new_candle c) t =
      if has_candle c t.desk.candles
      then returned (t, result duplicate_candle false)
      else process_candle i c t

  -- `tick`
  unfoldable pub tick : Inputs F → Trader F → Attempt (Trader F × TickResult)
  unfolding maybe_reconcile judge_reconciliation maybe_poll_open_orders receive
  tick i t = maybe_reconcile i t.desk.last_reconciliation_at t.desk >>= λ d.
      maybe_poll_open_orders i.env i.exchange i.polling t.last_open_order_poll_at
        (judge_reconciliation i d)
      >>= λ r. receive i i.fetched (record t { desk = r.0; last_open_order_poll_at = r.1 })
