-- ===== src/Orchestrator/Tick/Submissions.antt =====
-- A tick submits one order at most, which the risk engine approved, under a key that no order has.
use agente_tradin_ia_v2_mult.Common.{
  ℕ, ◌-◌, not, ◌&&◌, ◌||◌, true, Option, none, some, List, [], ◌∷◌, ◌++◌, leb, ◌≡◌, inl, inr, refl,
}
use agente_tradin_ia_v2_mult.Float.{Float}
use agente_tradin_ia_v2_mult.MarketData.{
  CandleTick, Fetch, replay_finished, nothing_new, retryable, fatal, gap, new_candle,
}
use agente_tradin_ia_v2_mult.Persistence.Models.{Position}
use agente_tradin_ia_v2_mult.Strategy.Schemas.{Signal}
use agente_tradin_ia_v2_mult.Risk.Checks.{decided}
use agente_tradin_ia_v2_mult.Risk.Engine.{ApprovedOrder, evaluate, evaluate_close}
use agente_tradin_ia_v2_mult.Api.Control.{Store}
use agente_tradin_ia_v2_mult.Persistence.Repo.{open_positions, recompute_trading_blocked}
use agente_tradin_ia_v2_mult.Strategy.Aggregator.{push}
use agente_tradin_ia_v2_mult.Orchestrator.Results.{TickResult}
use agente_tradin_ia_v2_mult.Orchestrator.Desk.{
  returned, Desk, clock_drift_blocked, market_data_failed, api_failure_limit_reached,
}
use agente_tradin_ia_v2_mult.Orchestrator.Reconcile.Clearing.{>>=-eq-returned}
use agente_tradin_ia_v2_mult.Orchestrator.Placing.{map_state}
use agente_tradin_ia_v2_mult.Orchestrator.Orders.Quiet.{
  IsQuiet, either_branch, either-IsQuiet, same-IsQuiet, reconcile-IsQuiet,
}
use agente_tradin_ia_v2_mult.Orchestrator.Orders.Authority.{IsCautious}
use agente_tradin_ia_v2_mult.Orchestrator.Triggers.{
  Trigger, opposite, opposing, touched, check_positions, check_stop_take,
}
use agente_tradin_ia_v2_mult.Orchestrator.Polling.{maybe_poll_open_orders}
use agente_tradin_ia_v2_mult.Orchestrator.Tick.{
  Inputs, Trader, has_candle, conditions, maybe_reconcile, judge_reconciliation, count_api_failure,
  fail_retryable, log_entry, mark_gap, take_over_candle, process_candle, receive, tick,
}
use agente_tradin_ia_v2_mult.Orchestrator.Tick.Closes.{
  judged_close, judged_entry, quiet-then-IsCautious, check_positions-IsExit,
  maybe_poll_open_orders-IsQuiet,
}
use agente_tradin_ia_v2_mult.Orchestrator.Tick.Decisions.{
  Answers, same-IsCautious, unchanged-IsQuiet, after_push-IsCautious,
}

module _ {F : Type 0} ⦃f : Float F⦄ where
  take_over_candle-IsQuiet :
      (i : Inputs F) (c : CandleTick F) (d : Desk F) → IsQuiet d (take_over_candle i c d)
  unfolding take_over_candle
  take_over_candle-IsQuiet i c d =
      let saved : Desk F =
        map_state
          (λ s.
            recompute_trading_blocked (record s { api_failure_count = 0 }) i.env.max_api_failures)
          (record d { candles = d.candles ++ ((c.symbol, c.timeframe, c.open_time) ∷ []) }) in
      let q =
        either-IsQuiet (not i.clock_ok && not saved.store.state.clock_out_of_sync) d
          (log_entry clock_drift_blocked saved) saved
          (record { same_submissions = refl; same_keys = refl })
          (record { same_submissions = refl; same_keys = refl }) in
      record { same_submissions = q.same_submissions; same_keys = q.same_keys }

  fail_retryable-IsQuiet : (i : Inputs F) (d : Desk F) → IsQuiet d (fail_retryable i d)
  unfolding fail_retryable count_api_failure
  fail_retryable-IsQuiet i d =
      let failed = log_entry market_data_failed (count_api_failure i d) in
      either-IsQuiet failed.store.state.trading_blocked d
        (log_entry (api_failure_limit_reached failed.store.state.api_failure_count) failed) failed
        (record { same_submissions = refl; same_keys = refl })
        (record { same_submissions = refl; same_keys = refl })

  -- What a tick's own risk engine has approved, on the tables as they are when it decides: the close
  -- of the first open position of the candle's symbol, whose stop or target the candle reaches; the
  -- close of the first open position against the strategy's signal; or an entry on that signal. The
  -- strategy has answered the complete bucket that the candle finalizes.
  pub data IsApproved (i : Inputs F) (t : Trader F) (c : CandleTick F) (st : Store F)
      (o : ApprovedOrder F) : Type 0 where
    by_trigger :
        (p : Position F) (behind : List (Position F)) (g : Trigger F) (signal_id : ℕ)
        → open_positions c.symbol st.positions ≡ p ∷ behind
        → touched p c ≡ some g
        → decided (
            evaluate_close i.risk_engine signal_id p.symbol
              (opposite p.side)
              p.qty
              true
              p.qty
              p.side
              (judged_close (conditions i (t.engine_degraded || t.strategy_gap_degraded)) st.state)
              [])
          ≡ some o
        → IsApproved i t c st o
    by_opposing :
        (s : Signal F) (p : Position F) (behind : List (Position F)) (signal_id : ℕ)
        → Answers t (push t.aggregator c).1 s
        → opposing s.direction (open_positions s.symbol st.positions) ≡ p ∷ behind
        → decided (
            evaluate_close i.risk_engine signal_id p.symbol s.direction p.qty true p.qty p.side
              (judged_close (conditions i t.engine_degraded) st.state)
              [])
          ≡ some o
        → IsApproved i t c st o
    by_signal :
        (s : Signal F) (signal_id : ℕ)
        → Answers t (push t.aggregator c).1 s
        → decided (
            evaluate i.risk_engine s signal_id
              (judged_entry (conditions i t.engine_degraded) i.today_start s.symbol st)
              [])
          ≡ some o
        → IsApproved i t c st o

  -- What the market data lead to submits only what is approved on a new candle, once that is taken
  -- over.
  abbrev pub IsApprovedOn : Inputs F → Fetch F → Trader F → ApprovedOrder F → Type 0
  IsApprovedOn i x t o =
      (c : CandleTick F) × (x ≡ new_candle c)
      × IsApproved i t c (take_over_candle i c t.desk).store o

  process_candle-IsCautious :
      (i : Inputs F) (c : CandleTick F) (t : Trader F) (r : Trader F × TickResult)
      → process_candle i c t ≡ returned r
      → IsCautious (IsApproved i t c (take_over_candle i c t.desk).store) t.desk r.0.desk
  unfolding process_candle check_stop_take
  process_candle-IsCautious i c t r h =
      let d = take_over_candle i c t.desk in
      let P : ApprovedOrder F → Type 0 = IsApproved i t c d.store in
      let at = conditions i (t.engine_degraded || t.strategy_gap_degraded) in
      let ps = open_positions c.symbol d.store.positions in
      let q =
        >>=-eq-returned (check_positions i.env i.exchange i.risk_engine at (i.trigger_key c) c ps d)
          _ h in
      let pushed = push t.aggregator c in
      quiet-then-IsCautious P t.desk d r.0.desk (take_over_candle-IsQuiet i c t.desk) (
        after_push-IsCautious P i d q.0.1 pushed.1
          (record t { desk = q.0.0; aggregator = pushed.0 }) r
          (λ s answer. (
            λ id o e. by_signal s id answer e,
            λ p behind against id o e. by_opposing s p behind id answer against e,
          ))
          (check_positions-IsExit P i.env i.exchange i.risk_engine at (i.trigger_key c) c ps d q.0.0
            q.0.1 (λ p behind g first reached id o e. by_trigger p behind g id first reached e) q.1)
          q.2)

  receive-IsCautious :
      (i : Inputs F) (x : Fetch F) (t : Trader F) (r : Trader F × TickResult)
      → receive i x t ≡ returned r
      → IsCautious (IsApprovedOn i x t) t.desk r.0.desk
  unfolding receive mark_gap count_api_failure
  receive-IsCautious i replay_finished t r h =
      same-IsCautious _ t.desk _ r (inl (unchanged-IsQuiet t.desk)) h
  receive-IsCautious i nothing_new t r h =
      same-IsCautious _ t.desk _ r (inl (unchanged-IsQuiet t.desk)) h
  receive-IsCautious i retryable t r h =
      same-IsCautious _ t.desk _ r (inl (fail_retryable-IsQuiet i t.desk)) h
  receive-IsCautious i fatal t r h =
      same-IsCautious _ t.desk _ r (inl (record { same_submissions = refl; same_keys = refl })) h
  receive-IsCautious i gap t r h =
      same-IsCautious _ t.desk _ r (inl (record { same_submissions = refl; same_keys = refl })) h
  receive-IsCautious i (new_candle c) t r h =
      either_branch (has_candle c t.desk.candles) _ _ r
        (same-IsCautious _ t.desk _ r (inl (unchanged-IsQuiet t.desk)))
        (λ k. elim (process_candle-IsCautious i c t r k) [
          | inl q ↦ inl q
          | inr p ↦ inr (p.0, p.1, (c, refl, p.2), p.3, p.4)
        ])
        h

  maybe_reconcile-IsQuiet :
      (i : Inputs F) (last : Option ℕ) (d d' : Desk F)
      → maybe_reconcile i last d ≡ returned d'
      → IsQuiet d d'
  unfolding maybe_reconcile
  maybe_reconcile-IsQuiet i none d d' h =
      same-IsQuiet (λ (z : Desk F). z) d d d' (unchanged-IsQuiet d) h
  maybe_reconcile-IsQuiet i (some at) d d' h =
      either_branch (leb i.reconciliation_interval (i.env.now - at)) _ _ d'
        (reconcile-IsQuiet i.env i.exchange d d')
        (same-IsQuiet (λ (z : Desk F). z) d d d' (unchanged-IsQuiet d)) h

  -- What a tick does before it asks for market data.
  pub record IsReady (i : Inputs F) (t : Trader F) (reconciled : Desk F)
      (polled : Desk F × Option ℕ) : Type 0 where
    pub reconciles : maybe_reconcile i t.desk.last_reconciliation_at t.desk ≡ returned reconciled
    pub polls :
        maybe_poll_open_orders i.env i.exchange i.polling t.last_open_order_poll_at
          (judge_reconciliation i reconciled)
        ≡ returned polled

  -- A tick that is committed submits nothing and saves no order, or it submits one order, under a key
  -- that no order had before it, and saves it with that key. Its own risk engine has approved that
  -- order, on the tables as the reconciliation, the polls and the new candle have left them, and with
  -- its own view of the data, the clock and the engine: the kill switch, the block and every other
  -- field of the state are those of these tables. The order closes the first open position of the
  -- candle's symbol, whose stop or target the candle reaches, or the first one against the signal
  -- that the strategy answers to the bucket that the candle completes, or it enters on that signal.
  pub tick-IsCautious :
      (i : Inputs F) (t t' : Trader F) (r : TickResult)
      → tick i t ≡ returned (t', r)
      → (reconciled : Desk F) × (polled : Desk F × Option ℕ) × IsReady i t reconciled polled
        × IsCautious
            (IsApprovedOn i i.fetched
              (record t { desk = polled.0; last_open_order_poll_at = polled.1 }))
            t.desk
            t'.desk
  unfolding tick judge_reconciliation
  tick-IsCautious i t t' r h =
      let a = >>=-eq-returned (maybe_reconcile i t.desk.last_reconciliation_at t.desk) _ h in
      let judged = judge_reconciliation i a.0 in
      let b =
        >>=-eq-returned
          (maybe_poll_open_orders i.env i.exchange i.polling t.last_open_order_poll_at judged) _
          a.2 in
      let p =
        maybe_poll_open_orders-IsQuiet i.env i.exchange i.polling t.last_open_order_poll_at judged
          b.0 b.1 in
      let asking : Trader F = record t { desk = b.0.0; last_open_order_poll_at = b.0.1 } in
      let P : ApprovedOrder F → Type 0 = IsApprovedOn i i.fetched asking in
      (
        a.0,
        b.0,
        record { reconciles = a.1; polls = b.1 },
        quiet-then-IsCautious P t.desk a.0 t'.desk
            (maybe_reconcile-IsQuiet i t.desk.last_reconciliation_at t.desk a.0 a.1)
            (quiet-then-IsCautious P a.0 b.0.0 t'.desk
              (record { same_submissions = p.same_submissions; same_keys = p.same_keys })
              (receive-IsCautious i i.fetched asking (t', r) b.2)),
      )
