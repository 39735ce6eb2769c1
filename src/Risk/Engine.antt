-- ===== src/Risk/Engine.antt =====
-- app/risk/engine.py: the risk engine alone approves an order, to open exposure (`evaluate`) or to
-- reduce it (`evaluate_close`). The reason text of a refusal is represented by the check that it
-- reports; an `ApprovedOrder` is built nowhere but here, so its token is left out.
pub mod Gates
pub mod Approval
pub mod Closing
pub mod Limits
use agente_tradin_ia_v2_mult.Common.{
  ℕ, ◌≡◌, String, Bool, true, false, not, ◌&&◌, ◌||◌, Option, none, some, List, [], ltb, leb,
  if◌then◌else◌,
}
use agente_tradin_ia_v2_mult.Float.{Float, ◌⊕◌, ◌⊖◌, nought, abs, min, is_positive, div?}
use agente_tradin_ia_v2_mult.Core.Freshness.{FreshnessPolicy, evaluate_signal_freshness}
use agente_tradin_ia_v2_mult.Persistence.Models.{
  Side, same_side, is_tradable, OperationalState, inicializando, observando, ativo, pausado,
  bloqueado, encerrando,
}
use agente_tradin_ia_v2_mult.Strategy.Schemas.{Signal}
use agente_tradin_ia_v2_mult.Risk.CostModel.{
  CostModel, CostGateResult, approved, rejected, slippage_fraction, adverse_fill_price,
  evaluate_cost_gate,
}
use agente_tradin_ia_v2_mult.Risk.Checks.{
  Check, kill_switch_engaged, trading_blocked, state_not_ambiguous, data_reception_recent,
  clock_synced, api_failures_ok, reconciliation_not_stale, operational_state_active,
  engine_not_degraded, cooldown_expired, actionable_signal, signal_freshness, signal_is_fresh,
  stop_loss_present, daily_loss_within_limit, concurrent_positions_ok, exposure_room_available,
  position_size_positive, minimum_order_notional_ok, below_minimum_order_notional,
  sizing_reference_price, cost_gate, cost_coverage_ok, position_exists, close_side_valid,
  qty_positive, qty_within_position, Checks, flag, freshness, price, gate, Verdict, go, stop,
  zero_division, Decide, ◌>>=◌, ◌>>◌, pure, note, check, check_as, or_zero_division,
}

-- app/risk/config.py
pub record RiskLimits (F : Type 0) : Type 0 where
  pub max_position_usd : F
  pub min_order_notional_usd : F
  pub max_concurrent_positions : ℕ
  pub max_daily_loss_usd : F
  pub max_total_exposure_usd : F
  pub cooldown_after_losses : ℕ
  pub cooldown_minutes : ℕ
  pub max_api_failures : ℕ
  pub max_clock_drift_seconds : F
  pub require_stop_loss : Bool

pub record ApprovedOrder (F : Type 0) : Type 0 where
  pub signal_id : ℕ
  pub symbol : String
  pub side : Side
  pub qty : F
  pub stop_loss : Option F
  pub take_profit : Option F
  pub is_close : Bool

pub record RiskContext (F : Type 0) : Type 0 where
  pub open_positions_count : ℕ
  pub open_exposure_usd : F
  pub daily_realized_loss_usd : F
  pub consecutive_losses : ℕ
  pub data_is_stale : Bool
  pub api_failure_count : ℕ
  pub clock_drift_seconds : Option F
  pub kill_switch_engaged : Bool
  pub trading_blocked : Bool
  pub state_ambiguous : Bool
  pub cooldown_until : Option ℕ
  pub now : ℕ
  pub reconciliation_stale : Bool
  pub operational_state : OperationalState
  pub engine_degraded : Bool

pub record RiskEngine (F : Type 0) : Type 0 where
  pub limits : RiskLimits F
  pub cost_model : Option (CostModel F)
  pub freshness_policy : Option FreshnessPolicy

-- `operational_state == "ATIVO"`
abbrev pub is_ativo : OperationalState → Bool
is_ativo ativo = true
is_ativo _ = false

-- `cooldown_until is None or now >= cooldown_until`
abbrev pub cooldown_over : Option ℕ → ℕ → Bool
cooldown_over none now = true
cooldown_over (some until) now = leb until now

abbrev pub is_some : {A : Type 0} → Option A → Bool
is_some none = false
is_some (some _) = true

module _ {F : Type 0} ⦃f : Float F⦄ where
  -- `drift is not None and abs(drift) <= limit`
  abbrev pub drift_ok : F → Option F → Bool
  drift_ok limit none = false
  drift_ok limit (some drift) = f.le (abs drift) limit

  -- `_check_common_gates`
  unfoldable pub check_common_gates : RiskLimits F → RiskContext F → Decide F (Unit {0})
  check_common_gates limits c = do
    check kill_switch_engaged (not c.kill_switch_engaged)
    check trading_blocked (not c.trading_blocked)
    check state_not_ambiguous (not c.state_ambiguous)
    check data_reception_recent (not c.data_is_stale)
    check clock_synced (drift_ok limits.max_clock_drift_seconds c.clock_drift_seconds)
    check api_failures_ok (ltb c.api_failure_count limits.max_api_failures)

  -- The freshness barrier, if there is one.
  unfoldable pub check_freshness : Option FreshnessPolicy → Signal F → ℕ → Decide F (Unit {0})
  check_freshness none s now = note signal_freshness (freshness none)
  check_freshness (some policy) s now = do
    let result = evaluate_signal_freshness policy s.source_candle_open_time (some now)
    note signal_freshness (freshness (some result))
    check signal_is_fresh result.fresh

  -- The entry gates before the freshness barrier.
  unfoldable pub check_readiness : Signal F → RiskContext F → Decide F (Unit {0})
  check_readiness s c = do
    check reconciliation_not_stale (not c.reconciliation_stale)
    check operational_state_active (is_ativo c.operational_state)
    check engine_not_degraded (not c.engine_degraded)
    check cooldown_expired (cooldown_over c.cooldown_until c.now)
    check actionable_signal (is_tradable s.direction)

  -- The entry gates after it, up to the sizing.
  unfoldable pub check_quotas : RiskLimits F → Signal F → RiskContext F → Decide F (Unit {0})
  check_quotas limits s c = do
    check stop_loss_present (not limits.require_stop_loss || is_some s.stop_loss)
    check daily_loss_within_limit (f.lt c.daily_realized_loss_usd limits.max_daily_loss_usd)
    check concurrent_positions_ok (ltb c.open_positions_count limits.max_concurrent_positions)

  abbrev pub remaining_exposure : RiskLimits F → RiskContext F → F
  remaining_exposure limits c = limits.max_total_exposure_usd ⊖ c.open_exposure_usd

  abbrev pub position_usd : RiskLimits F → RiskContext F → F
  position_usd limits c = min limits.max_position_usd (remaining_exposure limits c)

  -- `_NOTIONAL_TOLERANCE_USD`
  abbrev pub notional_tolerance_usd : F
  notional_tolerance_usd = f.literal 1 4

  -- The size in dollars, if there is room for one.
  unfoldable pub size_position : RiskLimits F → RiskContext F → Decide F F
  size_position limits c = do
    check exposure_room_available (is_positive (remaining_exposure limits c))
    check position_size_positive (is_positive (position_usd limits c))
    check_as minimum_order_notional_ok below_minimum_order_notional
        (f.le (limits.min_order_notional_usd ⊖ notional_tolerance_usd) (position_usd limits c))
    pure (position_usd limits c)

  -- The adverse price that the fill is expected at, if there is a cost model.
  abbrev pub sizing_price : Option (CostModel F) → Signal F → F
  sizing_price none s = s.observed_price
  sizing_price (some model) s =
      adverse_fill_price s.observed_price s.direction (slippage_fraction model)

  abbrev pub gate_passed : CostGateResult F → Bool
  gate_passed (approved _) = true
  gate_passed (rejected _) = false

  -- The cost gate, if there is a cost model.
  unfoldable pub check_costs : Option (CostModel F) → Signal F → F → Decide F (Unit {0})
  check_costs none s qty = note cost_gate (gate none)
  check_costs (some model) s qty = do
    let result =
        evaluate_cost_gate model s.direction (some qty) (some s.observed_price) (some s.atr)
    note cost_gate (gate (some result))
    check cost_coverage_ok (gate_passed result)

  unfoldable pub evaluate : RiskEngine F → Signal F → ℕ → RiskContext F → Decide F (ApprovedOrder F)
  unfolding check_common_gates check_readiness check_freshness check_quotas size_position
      check_costs
  evaluate e s signal_id c = do
    check_common_gates e.limits c
    check_readiness s c
    check_freshness e.freshness_policy s c.now
    check_quotas e.limits s c
    usd ← size_position e.limits c
    note sizing_reference_price (price (sizing_price e.cost_model s))
    qty ← or_zero_division (div? usd (sizing_price e.cost_model s))
    check_costs e.cost_model s qty
    pure (record {
      signal_id = signal_id;
      symbol = s.symbol;
      side = s.direction;
      qty = qty;
      stop_loss = s.stop_loss;
      take_profit = s.take_profit;
      is_close = false;
    })

  unfoldable pub evaluate_close :
      RiskEngine F
      → ℕ
      → String
      → Side
      → F
      → Bool
      → F
      → Side
      → RiskContext F
      → Decide F (ApprovedOrder F)
  unfolding check_common_gates
  evaluate_close e signal_id symbol close_side qty exists position_qty position_side c = do
    check_common_gates e.limits c
    check position_exists exists
    check close_side_valid (is_tradable close_side && not (same_side close_side position_side))
    check qty_positive (is_positive qty)
    check qty_within_position (f.le qty (position_qty ⊕ f.literal 1 12))
    pure (record {
      signal_id = signal_id;
      symbol = symbol;
      side = close_side;
      qty = qty;
      stop_loss = none;
      take_profit = none;
      is_close = true;
    })
