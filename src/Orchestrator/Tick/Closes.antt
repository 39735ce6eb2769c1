-- ===== src/Orchestrator/Tick/Closes.antt =====
-- A close submits one order at most, and polling none.
use agente_tradin_ia_v2_mult.Common.{
  ℕ, ◌+◌, String, Option, none, some, List, [], ◌∷◌, ◌++◌, true, ◌≡◌, inl, inr, refl, sym, ap, ◌∙◌,
  subst,
}
use agente_tradin_ia_v2_mult.Float.{Float, nought, sum}
use agente_tradin_ia_v2_mult.MarketData.{CandleTick}
use agente_tradin_ia_v2_mult.Persistence.Models.{Side, Position, SystemState, is_tradable}
use agente_tradin_ia_v2_mult.Persistence.Repo.{open_positions}
use agente_tradin_ia_v2_mult.Strategy.Schemas.{Signal}
use agente_tradin_ia_v2_mult.Risk.Checks.{decided}
use agente_tradin_ia_v2_mult.Risk.Engine.{ApprovedOrder, RiskContext, RiskEngine, evaluate_close}
use agente_tradin_ia_v2_mult.Api.Control.{Store}
use agente_tradin_ia_v2_mult.Orchestrator.Results.{TickStatus}
use agente_tradin_ia_v2_mult.Orchestrator.Desk.{
  Attempt, returned, Desk, Exchange, Setting, find_key,
}
use agente_tradin_ia_v2_mult.Orchestrator.Reconcile.Clearing.{>>=-eq-returned, returned-injective}
use agente_tradin_ia_v2_mult.Orchestrator.Orders.{close_position_via_risk}
use agente_tradin_ia_v2_mult.Orchestrator.Orders.Quiet.{
  IsQuiet, IsQuiet-trans, IsPlaced-quiet, either_branch, same-IsQuiet,
}
use agente_tradin_ia_v2_mult.Orchestrator.Orders.Authority.{
  IsCautious, close_position_via_risk-IsCautious,
}
use agente_tradin_ia_v2_mult.Orchestrator.Triggers.{
  Trigger, Conditions, opposite, count, open_exposure, daily_losses, common_risk_fields, touched,
  close_by, check_position, check_positions, opposing, close_first, maybe_close_opposing_position,
}
use agente_tradin_ia_v2_mult.Orchestrator.Polling.{
  Polling, is_due, poll_open_orders, maybe_poll_open_orders,
}

module _ {F : Type 0} ⦃f : Float F⦄ where
  -- What every decision is judged on, of the state and of the surroundings of the tick.
  abbrev pub judged_on : Conditions F → SystemState → ℕ → F → F → ℕ → RiskContext F
  judged_on at s count exposure loss losses = record {
    open_positions_count = count;
    open_exposure_usd = exposure;
    daily_realized_loss_usd = loss;
    consecutive_losses = losses;
    data_is_stale = at.data_is_stale;
    api_failure_count = s.api_failure_count;
    clock_drift_seconds = at.clock_drift_seconds;
    kill_switch_engaged = s.kill_switch_engaged;
    trading_blocked = s.trading_blocked;
    state_ambiguous = s.state_ambiguous;
    cooldown_until = s.cooldown_until;
    now = at.now;
    reconciliation_stale = s.reconciliation_stale;
    operational_state = s.operational_state;
    engine_degraded = at.engine_degraded;
  }

  abbrev pub judged_close : Conditions F → SystemState → RiskContext F
  judged_close at s = judged_on at s 0 nought nought s.consecutive_losses

  abbrev pub judged_entry : Conditions F → ℕ → String → Store F → RiskContext F
  judged_entry at today_start symbol st =
      judged_on at st.state (count (open_positions symbol st.positions))
        (sum (open_exposure st.positions)) (sum (daily_losses today_start st.positions))
        st.state.consecutive_losses

  pub quiet-then-IsCautious :
      (P : ApprovedOrder F → Type 0) (a b c : Desk F)
      → IsQuiet a b
      → IsCautious P b c
      → IsCautious P a c
  quiet-then-IsCautious P a b c q (inl r) = inl (IsQuiet-trans a b c q r)
  quiet-then-IsCautious P a b c q (inr r) =
      let placed = r.4 in
      inr (
        r.0,
        r.1,
        r.2,
        ap (find_key r.1) (sym q.same_keys) ∙ r.3,
        record {
          submission = placed.submission ∙ ap (λ s. s ++ ((r.0, r.1) ∷ [])) q.same_submissions;
          saved = (
            placed.saved.0,
            placed.saved.1 ∙ ap (λ ks. ks ++ ((r.1, placed.saved.0) ∷ [])) q.same_keys,
          );
        },
      )

  pub then-quiet-IsCautious :
      (P : ApprovedOrder F → Type 0) (a b c : Desk F)
      → IsCautious P a b
      → IsQuiet b c
      → IsCautious P a c
  then-quiet-IsCautious P a b c (inl q) r = inl (IsQuiet-trans a b c q r)
  then-quiet-IsCautious P a b c (inr p) r =
      inr (p.0, p.1, p.2, p.3, IsPlaced-quiet a b c p.0 p.1 p.4 r)

  -- Without a close nothing is submitted, and no table has changed.
  abbrev pub IsExit : (ApprovedOrder F → Type 0) → Desk F → Desk F → Option TickStatus → Type 0
  IsExit P d d' none = IsQuiet d d' × (d'.store ≡ d.store)
  IsExit P d d' (some _) = IsCautious P d d'

  no_close-IsExit :
      (P : ApprovedOrder F → Type 0) (d d' : Desk F) (exit : Option TickStatus)
      → ◌≡◌ {A = Attempt (Desk F × Option TickStatus)} (returned (d, none)) (returned (d', exit))
      → IsExit P d d' exit
  no_close-IsExit P d d' exit h =
      subst (λ (z : Desk F × Option TickStatus). IsExit P d z.0 z.1) (returned-injective h)
        (record { same_submissions = refl; same_keys = refl }, refl)

  -- What the approval of the close of a position gives.
  abbrev pub Approves :
      (ApprovedOrder F → Type 0)
      → RiskEngine F
      → Conditions F
      → Store F
      → Position F
      → Side
      → Type 0
  Approves P engine at st p close_side =
      (signal_id : ℕ) (o : ApprovedOrder F)
      → decided (
          evaluate_close engine signal_id p.symbol close_side p.qty true p.qty p.side
            (judged_close at st.state) [])
        ≡ some o
      → P o

  close_by-IsExit :
      (P : ApprovedOrder F → Type 0) (env : Setting F) (x : Exchange F) (engine : RiskEngine F)
      (at : Conditions F) (key_of : ApprovedOrder F → String) (signal_id : ℕ) (p : Position F)
      (close_side : Side) (price : F) (d d' : Desk F) (exit : Option TickStatus)
      → Approves P engine at d.store p close_side
      → close_by env x engine at key_of signal_id p close_side price d ≡ returned (d', exit)
      → IsExit P d d' exit
  unfolding close_by common_risk_fields
  close_by-IsExit P env x engine at key_of signal_id p close_side price d d' exit approve h =
      let q =
        >>=-eq-returned
          (close_position_via_risk env x engine (common_risk_fields at d.store.state) key_of
            signal_id p close_side p.qty price d)
          _ h in
      subst (λ (z : Desk F × Option TickStatus). IsExit P d z.0 z.1) (returned-injective q.2)
        (close_position_via_risk-IsCautious P env x engine (common_risk_fields at d.store.state)
          key_of signal_id p close_side p.qty price d q.0.0 q.0.1 (approve signal_id) q.1)

  check_position-IsExit :
      (P : ApprovedOrder F → Type 0) (env : Setting F) (x : Exchange F) (engine : RiskEngine F)
      (at : Conditions F) (key_of : Trigger F → ApprovedOrder F → String) (p : Position F)
      (t : Option (Trigger F)) (d d' : Desk F) (exit : Option TickStatus)
      → ((g : Trigger F) → t ≡ some g → Approves P engine at d.store p (opposite p.side))
      → check_position env x engine at key_of p t d ≡ returned (d', exit)
      → IsExit P d d' exit
  unfolding check_position
  check_position-IsExit P env x engine at key_of p none d d' exit approve h =
      no_close-IsExit P d d' exit h
  check_position-IsExit P env x engine at key_of p (some t) d d' none approve h =
      let q =
        close_by-IsExit P env x engine at (key_of t) _ p _ _
          (record d { next_signal_id = d.next_signal_id + 1 }) d' none (approve t refl) h in
      (record { same_submissions = q.0.same_submissions; same_keys = q.0.same_keys }, q.1)
  check_position-IsExit P env x engine at key_of p (some t) d d' (some status) approve h =
      quiet-then-IsCautious P d (record d { next_signal_id = d.next_signal_id + 1 }) d'
        (record { same_submissions = refl; same_keys = refl })
        (close_by-IsExit P env x engine at (key_of t) _ p _ _
          (record d { next_signal_id = d.next_signal_id + 1 }) d' (some status) (approve t refl) h)

  pub check_positions-IsExit :
      (P : ApprovedOrder F → Type 0) (env : Setting F) (x : Exchange F) (engine : RiskEngine F)
      (at : Conditions F) (key_of : Trigger F → ApprovedOrder F → String) (c : CandleTick F)
      (ps : List (Position F)) (d d' : Desk F) (exit : Option TickStatus)
      → ((p : Position F) (behind : List (Position F)) (g : Trigger F)
          → ps ≡ p ∷ behind
          → touched p c ≡ some g
          → Approves P engine at d.store p (opposite p.side))
      → check_positions env x engine at key_of c ps d ≡ returned (d', exit)
      → IsExit P d d' exit
  unfolding check_positions
  check_positions-IsExit P env x engine at key_of c [] d d' exit approve h =
      no_close-IsExit P d d' exit h
  check_positions-IsExit P env x engine at key_of c (p ∷ ps) d d' exit approve h =
      check_position-IsExit P env x engine at key_of p (touched p c) d d' exit
        (λ g. approve p ps g refl) h

  close_first-IsExit :
      (P : ApprovedOrder F → Type 0) (env : Setting F) (x : Exchange F) (engine : RiskEngine F)
      (at : Conditions F) (key_of : ApprovedOrder F → String) (signal_id : ℕ) (s : Signal F)
      (ps : List (Position F)) (d d' : Desk F) (exit : Option TickStatus)
      → ((p : Position F) (behind : List (Position F))
          → ps ≡ p ∷ behind
          → Approves P engine at d.store p s.direction)
      → close_first env x engine at key_of signal_id s ps d ≡ returned (d', exit)
      → IsExit P d d' exit
  unfolding close_first
  close_first-IsExit P env x engine at key_of signal_id s [] d d' exit approve h =
      no_close-IsExit P d d' exit h
  close_first-IsExit P env x engine at key_of signal_id s (p ∷ ps) d d' exit approve h =
      close_by-IsExit P env x engine at key_of signal_id p _ _ d d' exit (approve p ps refl) h

  pub maybe_close_opposing_position-IsExit :
      (P : ApprovedOrder F → Type 0) (env : Setting F) (x : Exchange F) (engine : RiskEngine F)
      (at : Conditions F) (key_of : ApprovedOrder F → String) (signal_id : ℕ) (s : Signal F)
      (d d' : Desk F) (exit : Option TickStatus)
      → ((p : Position F) (behind : List (Position F))
          → opposing s.direction (open_positions s.symbol d.store.positions) ≡ p ∷ behind
          → Approves P engine at d.store p s.direction)
      → maybe_close_opposing_position env x engine at key_of signal_id s d ≡ returned (d', exit)
      → IsExit P d d' exit
  unfolding maybe_close_opposing_position
  maybe_close_opposing_position-IsExit P env x engine at key_of signal_id s d d' exit approve h =
      either_branch (is_tradable s.direction) _ _ (d', exit)
        (close_first-IsExit P env x engine at key_of signal_id s
          (opposing s.direction (open_positions s.symbol d.store.positions)) d d' exit approve)
        (no_close-IsExit P d d' exit) h

  pub maybe_poll_open_orders-IsQuiet :
      (env : Setting F) (x : Exchange F) (polling : Polling F) (last : Option ℕ) (d : Desk F)
      (r : Desk F × Option ℕ)
      → maybe_poll_open_orders env x polling last d ≡ returned r
      → IsQuiet d r.0
  unfolding maybe_poll_open_orders
  maybe_poll_open_orders-IsQuiet env x polling last d r h =
      either_branch (is_due env.now polling.open_order_poll_interval last) _ _ r
        (λ k.
          let q = >>=-eq-returned (poll_open_orders env x polling [] d.store.orders d.store) _ k in
          same-IsQuiet (λ (z : Desk F × Option ℕ). z.0) d (record d { store = q.0 }, some env.now) r
            (record { same_submissions = refl; same_keys = refl }) q.2)
        (same-IsQuiet (λ (z : Desk F × Option ℕ). z.0) d (d, last) r
          (record { same_submissions = refl; same_keys = refl }))
        h
