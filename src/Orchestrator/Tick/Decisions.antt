-- ===== src/Orchestrator/Tick/Decisions.antt =====
-- What a bucket leads to submits one order at most.
use agente_tradin_ia_v2_mult.Common.{
  ℕ, ◌+◌, Bool, true, false, Option, none, some, List, [], ◌∷◌, ◌≡◌, inl, refl, sym, ap, ◌∙◌, subst,
  arith, if◌then◌else◌,
}
use agente_tradin_ia_v2_mult.Float.{Float}
use agente_tradin_ia_v2_mult.Strategy.Schemas.{Signal}
use agente_tradin_ia_v2_mult.Strategy.Slots.{AggregatedCandle}
use agente_tradin_ia_v2_mult.Strategy.Aggregator.{to_candle_tick}
use agente_tradin_ia_v2_mult.Strategy.Engine.{StrategyEngine, on_candle}
use agente_tradin_ia_v2_mult.Persistence.Models.{Position}
use agente_tradin_ia_v2_mult.Persistence.Repo.{open_positions}
use agente_tradin_ia_v2_mult.Risk.Checks.{decided}
use agente_tradin_ia_v2_mult.Risk.Engine.{ApprovedOrder, evaluate}
use agente_tradin_ia_v2_mult.Api.Control.{Store}
use agente_tradin_ia_v2_mult.Orchestrator.Results.{TickStatus, TickResult}
use agente_tradin_ia_v2_mult.Orchestrator.Desk.{Attempt, returned, of_option, Desk}
use agente_tradin_ia_v2_mult.Orchestrator.Reconcile.Clearing.{>>=-eq-returned, returned-injective}
use agente_tradin_ia_v2_mult.Orchestrator.Orders.{enter_via_risk}
use agente_tradin_ia_v2_mult.Orchestrator.Orders.Quiet.{IsQuiet, IsQuiet-trans, either_branch}
use agente_tradin_ia_v2_mult.Orchestrator.Orders.Authority.{IsCautious, enter_via_risk-IsCautious}
use agente_tradin_ia_v2_mult.Orchestrator.Triggers.{
  opposing, common_risk_fields, maybe_close_opposing_position, entry_context,
}
use agente_tradin_ia_v2_mult.Orchestrator.Tick.{
  Inputs, Trader, result, is_hold, with_desk, conditions, consider_entry, unless_closed, decide,
  consult_strategy, skip_bucket, after_push,
}
use agente_tradin_ia_v2_mult.Orchestrator.Tick.Closes.{
  judged_entry, Approves, IsExit, quiet-then-IsCautious, then-quiet-IsCautious,
  maybe_close_opposing_position-IsExit,
}

either_known :
    {A : Type 0} {P : Type 0} (b : Bool) (m n : Attempt A) (a : A)
    → (b ≡ true → m ≡ returned a → P)
    → (n ≡ returned a → P)
    → (if b then m else n) ≡ returned a
    → P
either_known true m n a p q h = p refl h
either_known false m n a p q h = q h

of_option-eq-returned : {A : Type 0} (o : Option A) {a : A} → of_option o ≡ returned a → o ≡ some a
of_option-eq-returned none h = absurd (ground (arith, h))
of_option-eq-returned (some x) h = ap some (returned-injective h)

module _ {F : Type 0} ⦃f : Float F⦄ where
  -- What approvals give, of an entry on a signal and of the close of a position against it.
  abbrev pub Enters : (ApprovedOrder F → Type 0) → Inputs F → Bool → Store F → Signal F → Type 0
  Enters P i degraded st s =
      (signal_id : ℕ) (o : ApprovedOrder F)
      → decided (
          evaluate i.risk_engine s signal_id
            (judged_entry (conditions i degraded) i.today_start s.symbol st) [])
        ≡ some o
      → P o

  abbrev pub Opposes : (ApprovedOrder F → Type 0) → Inputs F → Bool → Store F → Signal F → Type 0
  Opposes P i degraded st s =
      (p : Position F) (behind : List (Position F))
      → opposing s.direction (open_positions s.symbol st.positions) ≡ p ∷ behind
      → Approves P i.risk_engine (conditions i degraded) st p s.direction

  pub same-IsCautious :
      (P : ApprovedOrder F → Type 0) (d : Desk F) (a b : Trader F × TickResult)
      → IsCautious P d a.0.desk
      → returned a ≡ returned b
      → IsCautious P d b.0.desk
  same-IsCautious P d a b q h =
      subst (λ (z : Trader F × TickResult). IsCautious P d z.0.desk) (returned-injective h) q

  pub unchanged-IsQuiet : (d : Desk F) → IsQuiet d d
  unchanged-IsQuiet d = record { same_submissions = refl; same_keys = refl }

  consider_entry-IsCautious :
      (P : ApprovedOrder F → Type 0) (i : Inputs F) (bucket signal_id : ℕ) (s : Signal F)
      (close : F) (t : Trader F) (r : Trader F × TickResult)
      → Enters P i t.engine_degraded t.desk.store s
      → consider_entry i bucket signal_id s close t ≡ returned r
      → IsCautious P t.desk r.0.desk
  unfolding consider_entry entry_context common_risk_fields
  consider_entry-IsCautious P i bucket signal_id s close t r approve h =
      either_branch (is_hold s.direction) _ _ r
        (same-IsCautious P t.desk _ r (inl (unchanged-IsQuiet t.desk)))
        (λ k.
          let context =
            entry_context (conditions i t.engine_degraded) i.today_start s.symbol t.desk in
          let q =
            >>=-eq-returned
              (enter_via_risk i.env i.exchange i.risk_engine context (i.entry_key bucket) signal_id
                s close t.desk)
              _ k in
          same-IsCautious P t.desk (with_desk t q.0.0, result q.0.1 true) r
            (enter_via_risk-IsCautious P i.env i.exchange i.risk_engine context (i.entry_key bucket)
              signal_id s close t.desk q.0.0 q.0.1 (approve signal_id) q.1)
            q.2)
        h

  unless_closed-IsCautious :
      (P : ApprovedOrder F → Type 0) (i : Inputs F) (bucket signal_id : ℕ) (s : Signal F)
      (close : F) (d : Desk F) (t : Trader F) (exit : Option TickStatus) (r : Trader F × TickResult)
      → Enters P i t.engine_degraded d.store s
      → IsExit P d t.desk exit
      → unless_closed i bucket signal_id s close t exit ≡ returned r
      → IsCautious P d r.0.desk
  unfolding unless_closed
  unless_closed-IsCautious P i bucket signal_id s close d t (some status) r approve e h =
      same-IsCautious P d (t, result status true) r e h
  unless_closed-IsCautious P i bucket signal_id s close d t none r approve e h =
      quiet-then-IsCautious P d t.desk r.0.desk e.0 (
        consider_entry-IsCautious P i bucket signal_id s close t r
          (subst (λ st. Enters P i t.engine_degraded st s) (sym e.1) approve) h)

  decide-IsCautious :
      (P : ApprovedOrder F → Type 0) (i : Inputs F) (bucket signal_id : ℕ) (s : Signal F)
      (close : F) (d : Desk F) (t : Trader F) (exit : Option TickStatus) (r : Trader F × TickResult)
      → Enters P i t.engine_degraded d.store s × Opposes P i t.engine_degraded d.store s
      → IsExit P d t.desk exit
      → decide i bucket signal_id s close exit t ≡ returned r
      → IsCautious P d r.0.desk
  unfolding decide
  decide-IsCautious P i bucket signal_id s close d t (some status) r approve e h =
      same-IsCautious P d (t, result status true) r e h
  decide-IsCautious P i bucket signal_id s close d t none r approve e h =
      let at = conditions i t.engine_degraded in
      let here : Enters P i t.engine_degraded t.desk.store s
          × Opposes P i t.engine_degraded t.desk.store s =
        subst (λ st. Enters P i t.engine_degraded st s × Opposes P i t.engine_degraded st s)
          (sym e.1) approve in
      let q =
        >>=-eq-returned
          (maybe_close_opposing_position i.env i.exchange i.risk_engine at (i.opposing_key s)
            signal_id s t.desk)
          _ h in
      quiet-then-IsCautious P d t.desk r.0.desk e.0 (
        unless_closed-IsCautious P i bucket signal_id s close t.desk (with_desk t q.0.0) q.0.1 r
          here.0
          (maybe_close_opposing_position-IsExit P i.env i.exchange i.risk_engine at
            (i.opposing_key s) signal_id s t.desk q.0.0 q.0.1 here.1 q.1)
          q.2)

  IsExit-onward :
      (P : ApprovedOrder F → Type 0) (d a b : Desk F) (exit : Option TickStatus)
      → IsExit P d a exit
      → IsQuiet a b
      → b.store ≡ a.store
      → IsExit P d b exit
  IsExit-onward P d a b none e q same = (IsQuiet-trans d a b e.0 q, same ∙ e.1)
  IsExit-onward P d a b (some status) e q same = then-quiet-IsCautious P d a b e q

  exit-IsCautious :
      (P : ApprovedOrder F → Type 0) (d a : Desk F) (exit : Option TickStatus)
      → IsExit P d a exit
      → IsCautious P d a
  exit-IsCautious P d a none e = inl e.0
  exit-IsCautious P d a (some status) e = e

  skip_bucket-IsCautious :
      (P : ApprovedOrder F → Type 0) (d : Desk F) (exit : Option TickStatus) (t : Trader F)
      (r : Trader F × TickResult)
      → IsExit P d t.desk exit
      → returned (skip_bucket exit t) ≡ returned r
      → IsCautious P d r.0.desk
  unfolding skip_bucket
  skip_bucket-IsCautious P d none t r e h = same-IsCautious P d _ r (inl e.0) h
  skip_bucket-IsCautious P d (some status) t r e h = same-IsCautious P d _ r e h

  -- The strategy answers a complete bucket with this signal.
  abbrev pub Answers : Trader F → Option (AggregatedCandle F) → Signal F → Type 0
  Answers t o s =
      (a : AggregatedCandle F) × (e : StrategyEngine F) × (o ≡ some a)
      × (a.complete ≡ true)
      × (on_candle t.strategy_engine (to_candle_tick a) ≡ some (e, s))

  pub after_push-IsCautious :
      (P : ApprovedOrder F → Type 0) (i : Inputs F) (d : Desk F) (exit : Option TickStatus)
      (o : Option (AggregatedCandle F)) (t : Trader F) (r : Trader F × TickResult)
      → ((s : Signal F)
          → Answers t o s
          → Enters P i t.engine_degraded d.store s × Opposes P i t.engine_degraded d.store s)
      → IsExit P d t.desk exit
      → after_push i exit o t ≡ returned r
      → IsCautious P d r.0.desk
  unfolding after_push consult_strategy skip_bucket
  after_push-IsCautious P i d exit none t r approve e h =
      same-IsCautious P d _ r (exit-IsCautious P d t.desk exit e) h
  after_push-IsCautious P i d exit (some a) t r approve e h =
      either_known a.complete _ _ r
        (λ complete k.
          let q =
            >>=-eq-returned (of_option (on_candle t.strategy_engine (to_candle_tick a))) _ k in
          let asked : Trader F = record t {
            strategy_gap_degraded = false;
            strategy_engine = q.0.0;
            desk = record t.desk { next_signal_id = t.desk.next_signal_id + 1 };
          } in
          decide-IsCautious P i a.open_time t.desk.next_signal_id q.0.1 a.close d asked exit r
            (approve q.0.1 (a, q.0.0, refl, complete, of_option-eq-returned _ q.1))
            (IsExit-onward P d t.desk asked.desk exit e
              (record { same_submissions = refl; same_keys = refl }) refl)
            q.2)
        (skip_bucket-IsCautious P d exit t r e) h
