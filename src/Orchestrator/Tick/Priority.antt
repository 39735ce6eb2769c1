-- ===== src/Orchestrator/Tick/Priority.antt =====
-- An exit by stop or target comes before any other decision of a tick.
use agente_tradin_ia_v2_mult.Common.{
  ℕ, ◌+◌, Bool, true, false, not, ◌&&◌, ◌||◌, List, [], ◌∷◌, ◌++◌, Option, none, some, ◌≡◌, refl,
  sym, ap, ◌∙◌, subst, if◌then◌else◌,
}
use agente_tradin_ia_v2_mult.Float.{Float}
use agente_tradin_ia_v2_mult.MarketData.{CandleTick}
use agente_tradin_ia_v2_mult.Strategy.Slots.{AggregatedCandle}
use agente_tradin_ia_v2_mult.Strategy.Aggregator.{push, to_candle_tick}
use agente_tradin_ia_v2_mult.Strategy.Engine.{on_candle}
use agente_tradin_ia_v2_mult.Orchestrator.Results.{TickStatus, TickResult}
use agente_tradin_ia_v2_mult.Orchestrator.Desk.{returned, of_option, Desk, clock_drift_blocked}
use agente_tradin_ia_v2_mult.Persistence.Models.{Position}
use agente_tradin_ia_v2_mult.Persistence.Repo.{open_positions, recompute_trading_blocked}
use agente_tradin_ia_v2_mult.Orchestrator.Reconcile.Clearing.{>>=-eq-returned, returned-injective}
use agente_tradin_ia_v2_mult.Orchestrator.Placing.{map_state}
use agente_tradin_ia_v2_mult.Orchestrator.Orders.{close_position_via_risk}
use agente_tradin_ia_v2_mult.Orchestrator.Orders.Quiet.{either_branch}
use agente_tradin_ia_v2_mult.Orchestrator.Orders.Closing.{
  IsIdle, CloseEnd, close_position_via_risk-CloseEnd,
}
use agente_tradin_ia_v2_mult.Risk.Engine.Closing.{IsClosable, close_order}
use agente_tradin_ia_v2_mult.Orchestrator.Tick.Closes.{judged_close}
use agente_tradin_ia_v2_mult.Orchestrator.Triggers.{
  Trigger, trigger_price, opposite, touched, common_risk_fields, close_by, check_position,
  check_positions, check_stop_take,
}
use agente_tradin_ia_v2_mult.Orchestrator.Tick.{
  Inputs, Trader, log_entry, conditions, take_over_candle, decide, consult_strategy, skip_bucket,
  after_push, process_candle,
}

either_same :
    {A B : Type 0} (b : Bool) (g : A → B) (m n : A) {a : B}
    → g m ≡ a
    → g n ≡ a
    → g (if b then m else n) ≡ a
either_same true g m n p q = p
either_same false g m n p q = q

module _ {F : Type 0} ⦃f : Float F⦄ where
  same_end :
      (d : Desk F) (a b : Trader F × TickResult)
      → IsIdle d a.0.desk
      → returned a ≡ returned b
      → (b.1.status ≡ a.1.status) × IsIdle d b.0.desk
  same_end d a b q h =
      let g = returned-injective h in
      (
        ap (λ (z : Trader F × TickResult). z.1.status) (sym g),
        subst (λ (z : Trader F × TickResult). IsIdle d z.0.desk) g q,
      )

  idle : {d : Desk F} {n : ℕ} → IsIdle d (record d { next_signal_id = n })
  idle = record { quiet = record { same_submissions = refl; same_keys = refl }; same_store = refl }

  after_push-exit :
      (i : Inputs F) (status : TickStatus) (o : Option (AggregatedCandle F)) (t : Trader F)
      (r : Trader F × TickResult)
      → after_push i (some status) o t ≡ returned r
      → (r.1.status ≡ status) × IsIdle t.desk r.0.desk
  unfolding after_push consult_strategy skip_bucket decide
  after_push-exit i status none t r h = same_end t.desk _ r idle h
  after_push-exit i status (some a) t r h =
      either_branch a.complete _ _ r
        (λ k.
          let q =
            >>=-eq-returned (of_option (on_candle t.strategy_engine (to_candle_tick a))) _ k in
          same_end t.desk _ r idle q.2)
        (same_end t.desk _ r idle) h

  take_over_candle-positions :
      (i : Inputs F) (c : CandleTick F) (d : Desk F)
      → (take_over_candle i c d).store.positions ≡ d.store.positions
  unfolding take_over_candle
  take_over_candle-positions i c d =
      let saved : Desk F =
        map_state
          (λ s.
            recompute_trading_blocked (record s { api_failure_count = 0 }) i.env.max_api_failures)
          (record d { candles = d.candles ++ ((c.symbol, c.timeframe, c.open_time) ∷ []) }) in
      either_same (not i.clock_ok && not saved.store.state.clock_out_of_sync)
        (λ (z : Desk F). z.store.positions) (log_entry clock_drift_blocked saved) saved refl refl

  -- If a new candle reaches the stop or the target of the first open position of its symbol, the
  -- risk engine is asked for an order on the opposite side and of the whole quantity, on the state
  -- that the candle leaves. If it may not close, the result is CLOSE_REJECTED; if the key of that
  -- order is on file, DUPLICATE_SUPPRESSED; in both cases the position stays, and no table and no
  -- submission changes. Otherwise exactly that order is submitted, with the level that was reached as
  -- its reference price, is acknowledged, and is tracked as a row that closes, and the result is that
  -- of its tracking. After the close nothing more is submitted, no key is saved, and the state, the
  -- orders and the positions are left as they are.
  pub process_candle-exit :
      (i : Inputs F) (c : CandleTick F) (t : Trader F) (r : Trader F × TickResult) (p : Position F)
      (ps : List (Position F)) (g : Trigger F)
      → open_positions c.symbol t.desk.store.positions ≡ p ∷ ps
      → touched p c ≡ some g
      → process_candle i c t ≡ returned r
      → let taken = take_over_candle i c t.desk in
        let at = conditions i (t.engine_degraded || t.strategy_gap_degraded) in
        (e : Desk F × TickStatus) × CloseEnd
          (IsClosable i.risk_engine.limits
            (judged_close at taken.store.state)
            (opposite p.side)
            p.qty
            true
            p.qty
            p.side)
          i.env
          i.exchange
          (i.trigger_key c g)
          (trigger_price g)
          (close_order taken.next_signal_id p.symbol (opposite p.side) p.qty)
          (record taken { next_signal_id = taken.next_signal_id + 1 })
          e.0
          e.1
        × (r.1.status ≡ e.1)
        × IsIdle e.0 r.0.desk
  unfolding process_candle check_stop_take check_positions check_position close_by
      common_risk_fields
  process_candle-exit i c t r p ps g hp hg h =
      let taken = take_over_candle i c t.desk in
      let at = conditions i (t.engine_degraded || t.strategy_gap_degraded) in
      let found = ap (open_positions c.symbol) (take_over_candle-positions i c t.desk) ∙ hp in
      let q =
        >>=-eq-returned
          (check_stop_take i.env i.exchange i.risk_engine at (i.trigger_key c) c taken) _ h in
      let closed =
        subst
          (λ (l : List (Position F)).
            check_positions i.env i.exchange i.risk_engine at (i.trigger_key c) c l taken
            ≡ returned q.0)
          found q.1 in
      let triggered =
        subst
          (λ (o : Option (Trigger F)).
            check_position i.env i.exchange i.risk_engine at (i.trigger_key c) p o taken
            ≡ returned q.0)
          hg closed in
      let w =
        >>=-eq-returned
          (close_position_via_risk i.env i.exchange i.risk_engine
            (common_risk_fields at taken.store.state) (i.trigger_key c g) taken.next_signal_id p
            (opposite p.side) p.qty (trigger_price g)
            (record taken { next_signal_id = taken.next_signal_id + 1 }))
          _ triggered in
      let pushed = push t.aggregator c in
      let same = returned-injective w.2 in
      let ended =
        subst
          (λ (z : Desk F × Option TickStatus).
            after_push i z.1 pushed.1 (record t { desk = z.0; aggregator = pushed.0 }) ≡ returned r)
          (sym same) q.2 in
      let x =
        after_push-exit i w.0.1 pushed.1 (record t { desk = w.0.0; aggregator = pushed.0 }) r
          ended in
      (
        w.0,
        close_position_via_risk-CloseEnd i.env i.exchange i.risk_engine
            (common_risk_fields at taken.store.state) (i.trigger_key c g) taken.next_signal_id p
            (opposite p.side) (trigger_price g)
            (record taken { next_signal_id = taken.next_signal_id + 1 }) w.0.0 w.0.1 w.1,
        x.0,
        x.1,
      )
