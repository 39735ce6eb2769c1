-- ===== src/Risk/Engine/Gates.antt =====
-- When each group of the risk engine's checks goes on.
use agente_tradin_ia_v2_mult.Common.{
  ℕ, Bool, true, false, not, ◌||◌, Option, none, some, ltb, ◌≡◌, arith,
}
use agente_tradin_ia_v2_mult.Float.{Float, ◌⊖◌, is_positive}
use agente_tradin_ia_v2_mult.Core.Freshness.{FreshnessPolicy, evaluate_signal_freshness}
use agente_tradin_ia_v2_mult.Persistence.Models.{is_tradable}
use agente_tradin_ia_v2_mult.Strategy.Schemas.{Signal}
use agente_tradin_ia_v2_mult.Risk.CostModel.{CostModel, evaluate_cost_gate}
use agente_tradin_ia_v2_mult.Risk.Checks.{
  signal_freshness, freshness, gate, cost_gate, cost_coverage_ok, signal_is_fresh, Check, note,
  check,
}
use agente_tradin_ia_v2_mult.Risk.Checks.Passing.{Passes, Passes-check_as, Passes-note, Passes->>}
use agente_tradin_ia_v2_mult.Risk.Engine.{
  RiskLimits, RiskContext, is_ativo, cooldown_over, is_some, drift_ok, check_common_gates,
  check_readiness, check_freshness, check_quotas, remaining_exposure, position_usd,
  notional_tolerance_usd, size_position, gate_passed, check_costs,
}

module _ {F : Type 0} ⦃f : Float F⦄ where
  -- The gates that every order must meet.
  pub record IsSafe (limits : RiskLimits F) (c : RiskContext F) : Type 0 where
    pub no_kill_switch : c.kill_switch_engaged ≡ false
    pub not_blocked : c.trading_blocked ≡ false
    pub not_ambiguous : c.state_ambiguous ≡ false
    pub not_stale : c.data_is_stale ≡ false
    pub in_sync : drift_ok limits.max_clock_drift_seconds c.clock_drift_seconds ≡ true
    pub api_healthy : ltb c.api_failure_count limits.max_api_failures ≡ true

  pub Passes-check :
      (name : Check) (passed : Bool) → Passes (check {F = F} name passed) (λ _. passed ≡ true)
  Passes-check name = Passes-check_as name name

  pub Passes-common :
      (limits : RiskLimits F) (c : RiskContext F)
      → Passes (check_common_gates limits c) (λ _. IsSafe limits c)
  unfolding check_common_gates
  Passes-common limits c checks b = ground arith

  abbrev pub IsFreshFor : Option FreshnessPolicy → Signal F → ℕ → Type 0
  IsFreshFor none s now = Unit {0}
  IsFreshFor (some policy) s now =
      (evaluate_signal_freshness policy s.source_candle_open_time (some now)).fresh ≡ true

  pub Passes-freshness :
      (policy : Option FreshnessPolicy) (s : Signal F) (now : ℕ)
      → Passes (check_freshness policy s now) (λ _. IsFreshFor policy s now)
  unfolding check_freshness
  Passes-freshness none s now checks b = ground arith
  Passes-freshness (some policy) s now checks b =
      let result = evaluate_signal_freshness policy s.source_candle_open_time (some now) in
      let i =
        Passes->> (note signal_freshness (freshness (some result)))
          (check signal_is_fresh result.fresh)
          (Passes-note signal_freshness (freshness (some result)))
          (Passes-check signal_is_fresh result.fresh) checks b in
      (λ h. (i.0 h).1, λ h. i.1 (tt, h))

  -- What only an entry must meet before it is given a size.
  pub record IsReady (s : Signal F) (c : RiskContext F) : Type 0 where
    pub reconciled : c.reconciliation_stale ≡ false
    pub active : is_ativo c.operational_state ≡ true
    pub healthy : c.engine_degraded ≡ false
    pub no_cooldown : cooldown_over c.cooldown_until c.now ≡ true
    pub actionable : is_tradable s.direction ≡ true

  pub Passes-readiness :
      (s : Signal F) (c : RiskContext F) → Passes (check_readiness s c) (λ _. IsReady s c)
  unfolding check_readiness
  Passes-readiness s c checks b = ground arith

  pub record IsWithinQuotas (limits : RiskLimits F) (s : Signal F) (c : RiskContext F)
      : Type 0 where
    pub protected : (not limits.require_stop_loss || is_some s.stop_loss) ≡ true
    pub loss_within : f.lt c.daily_realized_loss_usd limits.max_daily_loss_usd ≡ true
    pub few_positions : ltb c.open_positions_count limits.max_concurrent_positions ≡ true

  pub Passes-quotas :
      (limits : RiskLimits F) (s : Signal F) (c : RiskContext F)
      → Passes (check_quotas limits s c) (λ _. IsWithinQuotas limits s c)
  unfolding check_quotas
  Passes-quotas limits s c checks b = ground arith

  -- There is room for an order that is large enough.
  pub record HasRoom (limits : RiskLimits F) (c : RiskContext F) : Type 0 where
    pub room : is_positive (remaining_exposure limits c) ≡ true
    pub positive : is_positive (position_usd limits c) ≡ true
    pub above_floor :
        f.le (limits.min_order_notional_usd ⊖ notional_tolerance_usd) (position_usd limits c) ≡ true

  pub Passes-size :
      (limits : RiskLimits F) (c : RiskContext F)
      → Passes (size_position limits c) (λ usd. HasRoom limits c × (position_usd limits c ≡ usd))
  unfolding size_position
  Passes-size limits c checks b = (λ h. ground arith, λ h. ground arith)

  -- The cost gate approves the size, if it stands at all.
  abbrev pub IsCostCovered : Option (CostModel F) → Signal F → F → Type 0
  IsCostCovered none s qty = Unit {0}
  IsCostCovered (some model) s qty =
      gate_passed
        (evaluate_cost_gate model s.direction (some qty) (some s.observed_price) (some s.atr))
      ≡ true

  pub Passes-costs :
      (model : Option (CostModel F)) (s : Signal F) (qty : F)
      → Passes (check_costs model s qty) (λ _. IsCostCovered model s qty)
  unfolding check_costs
  Passes-costs none s qty checks b = ground arith
  Passes-costs (some model) s qty checks b =
      let result =
        evaluate_cost_gate model s.direction (some qty) (some s.observed_price) (some s.atr) in
      let i =
        Passes->> (note cost_gate (gate (some result)))
          (check cost_coverage_ok (gate_passed result)) (Passes-note cost_gate (gate (some result)))
          (Passes-check cost_coverage_ok (gate_passed result)) checks b in
      (λ h. (i.0 h).1, λ h. i.1 (tt, h))
