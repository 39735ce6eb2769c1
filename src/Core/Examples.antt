-- ===== src/Core/Examples.antt =====
-- The theorems on freshness at work on concrete instants.
use agente_tradin_ia_v2_mult.Common.{String, ◌≡◌, ◌↔◌, true, some}
use agente_tradin_ia_v2_mult.Common.Int.{pos}
use agente_tradin_ia_v2_mult.Core.Freshness.{
  FreshnessPolicy, future_tolerance, evaluate_signal_freshness,
}
use agente_tradin_ia_v2_mult.Core.Freshness.Window.{IsTimely, signal_fresh_iff}

abbrev policy : FreshnessPolicy
policy = record {
  max_signal_delay_after_close = pos 90_000_000;
  strategy_timeframe_minutes = pos 5;
  future_tolerance = future_tolerance;
}

signal_fresh_iff_example :
    ((evaluate_signal_freshness policy (some 0) (some 330_000_000)).fresh ≡ true)
    ↔ IsTimely policy (some 0) (some 330_000_000)
signal_fresh_iff_example = signal_fresh_iff policy (some 0) (some 330_000_000)

abbrev live_mode : String
live_mode = "PAPER_LIVE"
