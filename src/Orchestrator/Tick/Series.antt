-- ===== src/Orchestrator/Tick/Series.antt =====
-- Every new candle reaches the series, and every complete bucket the strategy.
use agente_tradin_ia_v2_mult.Common.{
  ℕ, ◌+◌, Bool, true, false, ◌||◌, Bool-cases, Option, none, some, ◌≡◌, ◌⊎◌, inl, inr, refl, sym,
  ap, ◌∙◌, subst, arith, if◌then◌else◌,
}
use agente_tradin_ia_v2_mult.Float.{Float}
use agente_tradin_ia_v2_mult.MarketData.{CandleTick}
use agente_tradin_ia_v2_mult.Strategy.Schemas.{Signal}
use agente_tradin_ia_v2_mult.Strategy.Slots.{AggregatedCandle}
use agente_tradin_ia_v2_mult.Strategy.Aggregator.{push, to_candle_tick}
use agente_tradin_ia_v2_mult.Strategy.Engine.{StrategyEngine, on_candle}
use agente_tradin_ia_v2_mult.Orchestrator.Results.{TickStatus, TickResult}
use agente_tradin_ia_v2_mult.Orchestrator.Desk.{Attempt, returned, of_option}
use agente_tradin_ia_v2_mult.Orchestrator.Reconcile.Clearing.{>>=-eq-returned, returned-injective}
use agente_tradin_ia_v2_mult.Orchestrator.Orders.{enter_via_risk}
use agente_tradin_ia_v2_mult.Orchestrator.Orders.Quiet.{either_branch}
use agente_tradin_ia_v2_mult.Orchestrator.Triggers.{
  check_stop_take, maybe_close_opposing_position, entry_context,
}
use agente_tradin_ia_v2_mult.Orchestrator.Tick.{
  Inputs, Trader, result, is_hold, with_desk, conditions, take_over_candle, consider_entry,
  unless_closed, decide, consult_strategy, skip_bucket, after_push, process_candle,
}

-- The memory of the series is the same.
abbrev pub SameSeries : {F : Type 0} → Trader F → Trader F → Type 0
SameSeries t t' =
    (t'.aggregator ≡ t.aggregator)
    × (t'.strategy_engine ≡ t.strategy_engine)
    × (t'.strategy_gap_degraded ≡ t.strategy_gap_degraded)

only_branch :
    {A : Type 0} (b b' : Bool) (m n : Attempt A) (a : A)
    → b' ≡ b
    → (if b' then m else n) ≡ returned a
    → (if b then m else n) ≡ returned a
only_branch b b' m n a e h = subst (λ z. (if z then m else n) ≡ returned a) e h

module _ {F : Type 0} ⦃f : Float F⦄ where
  -- What becomes of a bucket that the aggregator hands out, with this engine.
  pub IsFed : Option (AggregatedCandle F) → StrategyEngine F → Trader F → Type 0
  IsFed none e t' = t'.strategy_engine ≡ e
  IsFed (some a) e t' =
      ((a.complete ≡ true)
        × ((s : Signal F) × (on_candle e (to_candle_tick a) ≡ some (t'.strategy_engine, s)))
        × (t'.strategy_gap_degraded ≡ false))
      ⊎ ((a.complete ≡ false) × (t'.strategy_engine ≡ e))

  transport_series :
      (t : Trader F) (a b : Trader F × TickResult)
      → SameSeries t a.0
      → returned a ≡ returned b
      → SameSeries t b.0
  transport_series t a b q h =
      subst (λ (z : Trader F × TickResult). SameSeries t z.0) (returned-injective h) q

  consider_entry-SameSeries :
      (i : Inputs F) (bucket signal_id : ℕ) (s : Signal F) (close : F) (t : Trader F)
      (r : Trader F × TickResult)
      → consider_entry i bucket signal_id s close t ≡ returned r
      → SameSeries t r.0
  unfolding consider_entry
  consider_entry-SameSeries i bucket signal_id s close t r h =
      either_branch (is_hold s.direction) _ _ r (transport_series t _ r (refl, refl, refl))
        (λ k.
          let q =
            >>=-eq-returned
              (enter_via_risk i.env i.exchange i.risk_engine
                (entry_context (conditions i t.engine_degraded) i.today_start s.symbol t.desk)
                (i.entry_key bucket) signal_id s close t.desk)
              _ k in
          transport_series t (with_desk t q.0.0, result q.0.1 true) r (refl, refl, refl) q.2)
        h

  unless_closed-SameSeries :
      (i : Inputs F) (bucket signal_id : ℕ) (s : Signal F) (close : F) (t : Trader F)
      (exit : Option TickStatus) (r : Trader F × TickResult)
      → unless_closed i bucket signal_id s close t exit ≡ returned r
      → SameSeries t r.0
  unfolding unless_closed
  unless_closed-SameSeries i bucket signal_id s close t none r h =
      consider_entry-SameSeries i bucket signal_id s close t r h
  unless_closed-SameSeries i bucket signal_id s close t (some status) r h =
      transport_series t _ r (refl, refl, refl) h

  decide-SameSeries :
      (i : Inputs F) (bucket signal_id : ℕ) (s : Signal F) (close : F) (exit : Option TickStatus)
      (t : Trader F) (r : Trader F × TickResult)
      → decide i bucket signal_id s close exit t ≡ returned r
      → SameSeries t r.0
  unfolding decide
  decide-SameSeries i bucket signal_id s close none t r h =
      let q =
        >>=-eq-returned
          (maybe_close_opposing_position i.env i.exchange i.risk_engine
            (conditions i t.engine_degraded) (i.opposing_key s) signal_id s t.desk)
          _ h in
      unless_closed-SameSeries i bucket signal_id s close (with_desk t q.0.0) q.0.1 r q.2
  decide-SameSeries i bucket signal_id s close (some status) t r h =
      transport_series t _ r (refl, refl, refl) h

  skip_bucket-IsFed :
      (a : AggregatedCandle F) (exit : Option TickStatus) (t : Trader F) (r : Trader F × TickResult)
      → a.complete ≡ false
      → returned (skip_bucket exit t) ≡ returned r
      → (r.0.aggregator ≡ t.aggregator) × IsFed (some a) t.strategy_engine r.0
  unfolding skip_bucket IsFed
  skip_bucket-IsFed a none t r e h =
      let g = returned-injective h in
      (
        ap (λ (z : Trader F × TickResult). z.0.aggregator) (sym g),
        inr (e, ap (λ (z : Trader F × TickResult). z.0.strategy_engine) (sym g)),
      )
  skip_bucket-IsFed a (some status) t r e h =
      let g = returned-injective h in
      (
        ap (λ (z : Trader F × TickResult). z.0.aggregator) (sym g),
        inr (e, ap (λ (z : Trader F × TickResult). z.0.strategy_engine) (sym g)),
      )

  consult_strategy-IsFed :
      (i : Inputs F) (a : AggregatedCandle F) (exit : Option TickStatus) (t : Trader F)
      (r : Trader F × TickResult)
      → a.complete ≡ true
      → consult_strategy i a exit t ≡ returned r
      → (r.0.aggregator ≡ t.aggregator) × IsFed (some a) t.strategy_engine r.0
  unfolding consult_strategy IsFed
  consult_strategy-IsFed i a exit t r e h =
      let q = >>=-eq-returned (of_option (on_candle t.strategy_engine (to_candle_tick a))) _ h in
      let same =
        decide-SameSeries i a.open_time t.desk.next_signal_id q.0.1 a.close exit
          (record t {
            strategy_gap_degraded = false;
            strategy_engine = q.0.0;
            desk = record t.desk { next_signal_id = t.desk.next_signal_id + 1 };
          })
          r q.2 in
      let asked = of_option-returned (on_candle t.strategy_engine (to_candle_tick a)) q.0 q.1 in
      (same.0, inl (e, (q.0.1, asked ∙ ap (λ e'. some (e', q.0.1)) (sym same.1)), same.2))
    where
      of_option-returned :
          {A : Type 0} (o : Option A) (b : A) → of_option o ≡ returned b → o ≡ some b
      of_option-returned none b h = absurd (ground (arith, h))
      of_option-returned (some b') b h = ap some (returned-injective h)

  after_push-IsFed :
      (i : Inputs F) (exit : Option TickStatus) (o : Option (AggregatedCandle F)) (t : Trader F)
      (r : Trader F × TickResult)
      → after_push i exit o t ≡ returned r
      → (r.0.aggregator ≡ t.aggregator) × IsFed o t.strategy_engine r.0
  unfolding after_push IsFed
  after_push-IsFed i exit none t r h =
      let same = transport_series t _ r (refl, refl, refl) h in (same.0, same.1)
  after_push-IsFed i exit (some a) t r h = elim (Bool-cases a.complete) [
    | inl e ↦ consult_strategy-IsFed i a exit t r e (only_branch true a.complete _ _ r e h)
    | inr e ↦ skip_bucket-IsFed a exit t r e (only_branch false a.complete _ _ r e h)
  ]

  -- A new candle always goes through the aggregator, whether a stop or a target is hit or not, and a
  -- bucket that it completes goes to the strategy engine, which closes the gap of the symbol; one
  -- that is not complete leaves the engine as it was.
  pub process_candle-IsFed :
      (i : Inputs F) (c : CandleTick F) (t : Trader F) (r : Trader F × TickResult)
      → process_candle i c t ≡ returned r
      → (r.0.aggregator ≡ (push t.aggregator c).0)
        × IsFed (push t.aggregator c).1 t.strategy_engine r.0
  unfolding process_candle IsFed
  process_candle-IsFed i c t r h =
      let q =
        >>=-eq-returned
          (check_stop_take i.env i.exchange i.risk_engine
            (conditions i (t.engine_degraded || t.strategy_gap_degraded)) (i.trigger_key c) c
            (take_over_candle i c t.desk))
          _ h in
      after_push-IsFed i q.0.1 (push t.aggregator c).1
        (record t { desk = q.0.0; aggregator = (push t.aggregator c).0 }) r q.2
