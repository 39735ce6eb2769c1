-- ===== src/Risk/Examples.antt =====
-- The theorems on the risk engine at work on a concrete signal.
use agente_tradin_ia_v2_mult.Common.{true, false, none, some, [], ◌≡◌, ◌↔◌, refl}
use agente_tradin_ia_v2_mult.Common.Int.{pos, ◌-ℤ◌, ◌/ℤ◌, ◌*ℤ◌}
use agente_tradin_ia_v2_mult.Float.{Fixed, fixed_float, Fixed-IsOrdered}
use agente_tradin_ia_v2_mult.Persistence.Models.{buy, sell, ativo, pausado}
use agente_tradin_ia_v2_mult.Strategy.Schemas.{Signal}
use agente_tradin_ia_v2_mult.Risk.CostModel.{CostModel, evaluate_cost_gate}
use agente_tradin_ia_v2_mult.Risk.CostModel.Gate.{CoveredInputs, is_approved, cost_gate_iff}
use agente_tradin_ia_v2_mult.Risk.Checks.{decided}
use agente_tradin_ia_v2_mult.Risk.Engine.{
  RiskLimits, RiskContext, RiskEngine, evaluate, evaluate_close,
}
use agente_tradin_ia_v2_mult.Risk.Engine.Closing.{IsClosable, close_order, evaluate_close_iff}
use agente_tradin_ia_v2_mult.Risk.Engine.Approval.{IsAdmissible, entry_order, evaluate_iff}
use agente_tradin_ia_v2_mult.Risk.Engine.Limits.{IsBounded, evaluate-IsBounded}

abbrev pub limits : RiskLimits Fixed
limits = record {
  max_position_usd = pos 50_000_000;
  min_order_notional_usd = pos 5_000_000;
  max_concurrent_positions = 3;
  max_daily_loss_usd = pos 20_000_000;
  max_total_exposure_usd = pos 120_000_000;
  cooldown_after_losses = 3;
  cooldown_minutes = 30;
  max_api_failures = 5;
  max_clock_drift_seconds = pos 2_000_000;
  require_stop_loss = true;
}

abbrev costs : CostModel Fixed
costs = record {
  fee_rate = pos 600;
  slippage_bps = pos 5_000_000;
  expected_move_atr_multiple = pos 3_000_000;
  minimum_cost_coverage_ratio = pos 1_000_000;
}

abbrev pub engine : RiskEngine Fixed
engine = record { limits = limits; cost_model = none; freshness_policy = none }

abbrev pub signal : Signal Fixed
signal = record {
  symbol = "BTCUSDT";
  direction = buy;
  observed_price = pos 100_000_000;
  atr = pos 1_000_000;
  stop_loss = some (pos 98_000_000);
  take_profit = some (pos 103_000_000);
  source_candle_open_time = some 0;
}

abbrev pub context : RiskContext Fixed
context = record {
  open_positions_count = 1;
  open_exposure_usd = pos 80_000_000;
  daily_realized_loss_usd = pos 0;
  consecutive_losses = 0;
  data_is_stale = false;
  api_failure_count = 0;
  clock_drift_seconds = some (pos 1_000_000);
  kill_switch_engaged = false;
  trading_blocked = false;
  state_ambiguous = false;
  cooldown_until = none;
  now = 100;
  reconciliation_stale = false;
  operational_state = ativo;
  engine_degraded = false;
}

-- The same system, paused, with every quota used up.
abbrev paused : RiskContext Fixed
paused = record context {
  open_positions_count = 9;
  daily_realized_loss_usd = pos 90_000_000;
  reconciliation_stale = true;
  operational_state = pausado;
  engine_degraded = true;
}

evaluate_iff_example :
    let o = entry_order signal 7 (pos 400_000) in
    (decided (evaluate engine signal 7 context []) ≡ some o)
    ↔ ((qty : Fixed) × IsAdmissible engine signal context qty × (entry_order signal 7 qty ≡ o))
evaluate_iff_example = evaluate_iff engine signal 7 context [] (entry_order signal 7 (pos 400_000))

evaluate-IsBounded_example : IsBounded limits context (pos 100_000_000) (pos 400_000)
unfolding evaluate ◌-ℤ◌ ◌/ℤ◌ ◌*ℤ◌
evaluate-IsBounded_example =
    evaluate-IsBounded Fixed-IsOrdered engine signal 7 context []
      (entry_order signal 7 (pos 400_000)) refl

evaluate_close_iff_example :
    let o = close_order 7 "BTCUSDT" sell (pos 400_000) in
    (decided (evaluate_close engine 7 "BTCUSDT" sell (pos 400_000) true (pos 400_000) buy paused [])
      ≡ some o)
    ↔ (IsClosable limits paused sell (pos 400_000) true (pos 400_000) buy
        × (close_order 7 "BTCUSDT" sell (pos 400_000) ≡ o))
evaluate_close_iff_example =
    evaluate_close_iff engine 7 "BTCUSDT" sell (pos 400_000) true (pos 400_000) buy paused []
      (close_order 7 "BTCUSDT" sell (pos 400_000))

cost_gate_iff_example :
    (is_approved (
        evaluate_cost_gate costs buy
          (some (pos 400_000))
          (some (pos 100_000_000))
          (some (pos 1_000_000)))
      ≡ true)
    ↔ CoveredInputs costs buy (some (pos 400_000)) (some (pos 100_000_000)) (some (pos 1_000_000))
cost_gate_iff_example =
    cost_gate_iff costs buy (some (pos 400_000)) (some (pos 100_000_000)) (some (pos 1_000_000))

-- An entry is approved, and the paused system approves none.
approves : decided (evaluate engine signal 7 context []) ≡ some (entry_order signal 7 (pos 400_000))
unfolding evaluate ◌-ℤ◌ ◌/ℤ◌ ◌*ℤ◌
approves = refl

refuses : decided (evaluate engine signal 7 paused []) ≡ none
unfolding evaluate
refuses = refl
