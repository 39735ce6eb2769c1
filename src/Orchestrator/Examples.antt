-- ===== src/Orchestrator/Examples.antt =====
-- The theorems on the orchestrator at work on two symbols.
use agente_tradin_ia_v2_mult.Common.{
  ℕ, Bool, true, false, Option, none, some, List, [], ◌∷◌, ◌≡◌, ◌↔◌, refl, arith, All,
}
use agente_tradin_ia_v2_mult.Float.{Fixed, fixed_float}
use agente_tradin_ia_v2_mult.Orchestrator.Tick.Steps.{IsOnce}
use agente_tradin_ia_v2_mult.Orchestrator.Tick.Examples.{trader, inputs, desk-IsOnce}
use agente_tradin_ia_v2_mult.Orchestrator.Portfolio.{Member, run_calls}
use agente_tradin_ia_v2_mult.Orchestrator.Portfolio.Orders.{run_calls-IsOnce}
use agente_tradin_ia_v2_mult.Execution.Reconciliation.{set}
use agente_tradin_ia_v2_mult.Api.PollEngine.{PollEngineStatus, saudavel, parado}
use agente_tradin_ia_v2_mult.Orchestrator.Results.{TickResult, aggregating, incomplete_bucket, hold}
use agente_tradin_ia_v2_mult.Orchestrator.Health.{SymbolHealth, update_health, run_health}
use agente_tradin_ia_v2_mult.Orchestrator.Health.Gaps.{last_verdict, run_health-gap}
use agente_tradin_ia_v2_mult.Orchestrator.Scheduler.{
  Ticker, MultiSymbolOrchestrator, conclude_tick, sync_engine_degraded, serve, tick_symbols,
}
use agente_tradin_ia_v2_mult.Orchestrator.Scheduler.Turns.{IsServed, symbol-IsServed}
use agente_tradin_ia_v2_mult.Orchestrator.Scheduler.Gate.{IsSound, serve_gated}

abbrev health_of : PollEngineStatus → Option ℕ → SymbolHealth
health_of status eligible = record {
  status = status;
  consecutive_failures = 0;
  last_tick_started_at = none;
  last_tick_completed_at = none;
  last_tick_success_at = none;
  last_candle_persisted_at = none;
  last_error = none;
  eligible_again_at = eligible;
  has_gap = false;
  operational_gaps = 0;
  incomplete_strategy_buckets = 0;
}

abbrev aggregates : TickResult
aggregates = record { status = aggregating; strategy_bucket_complete = false }

abbrev misses : TickResult
misses = record { status = incomplete_bucket; strategy_bucket_complete = false }

abbrev held : TickResult
held = record { status = hold; strategy_bucket_complete = true }

-- An orchestrator that only keeps whether entries are closed, and always aggregates.
abbrev aggregating_ticker : Ticker Bool (Unit {0})
aggregating_ticker = record {
  tick = λ o w. (o, w, some aggregates);
  set_degraded = λ b o. b;
  backoff_max = λ o. 60_000_000;
}

-- BTC is in its pause, ETH is next after it.
abbrev pair : MultiSymbolOrchestrator Bool
pair = record {
  orchestrators = ("BTCUSDT", false) ∷ ("ETHUSDT", false) ∷ [];
  symbols = "BTCUSDT" ∷ "ETHUSDT" ∷ [];
  rr_index = 0;
  health =
      ("BTCUSDT", health_of parado (some 90_000_000)) ∷ ("ETHUSDT", health_of saudavel none) ∷ [];
  engine_degraded = false;
}

abbrev two_calls : List (ℕ × ℕ)
two_calls = (1_000_000, 2_000_000) ∷ (3_000_000, 4_000_000) ∷ []

symbol-IsServed_example : IsServed aggregating_ticker "ETHUSDT" two_calls pair tt
unfolding tick_symbols update_health
symbol-IsServed_example =
    symbol-IsServed aggregating_ticker "ETHUSDT" 1 two_calls pair tt (omega arith) refl
      (false, refl)
      (
        (health_of saudavel none, refl, refl),
        (
          (
            update_health 60_000_000 2_000_000 aggregates
                (record (health_of saudavel none) { last_tick_started_at = some 1_000_000 }),
            refl,
            refl,
          ),
          tt,
        ),
      )
      (omega arith)

serve_gated_example :
    (closed : Bool) × (serve aggregating_ticker 1 2 "ETHUSDT" (health_of saudavel none) pair tt
      ≡ conclude_tick aggregating_ticker 2 "ETHUSDT"
          (record (health_of saudavel none) { last_tick_started_at = some 1 })
          (record (sync_engine_degraded aggregating_ticker pair) {
            health =
                set "ETHUSDT"
                  (record (health_of saudavel none) { last_tick_started_at = some 1 })
                  pair.health;
          })
          (aggregating_ticker.tick (aggregating_ticker.set_degraded closed false) tt))
    × ((closed ≡ false) ↔ (pair.engine_degraded ≡ false) × All IsSound pair.health)
serve_gated_example =
    serve_gated aggregating_ticker 1 2 "ETHUSDT" (health_of saudavel none) pair tt false refl

abbrev gap_and_repair : List (ℕ × TickResult)
gap_and_repair = (1, misses) ∷ (2, aggregates) ∷ (3, held) ∷ (4, aggregates) ∷ []

run_health-gap_example :
    (run_health 60_000_000 (health_of saudavel none) gap_and_repair).has_gap
    ≡ last_verdict false gap_and_repair
run_health-gap_example = run_health-gap 60_000_000 (health_of saudavel none) gap_and_repair

-- Two symbols that are given the same at each tick.
abbrev member : Member Fixed
member = record {
  trader = trader;
  inputs_of = λ _. inputs;
  ticks_made = 0;
  backoff_max = 60_000_000;
}

abbrev portfolio : MultiSymbolOrchestrator (Member Fixed)
portfolio = record {
  orchestrators = ("BTCUSDT", member) ∷ ("ETHUSDT", member) ∷ [];
  symbols = "BTCUSDT" ∷ "ETHUSDT" ∷ [];
  rr_index = 0;
  health = pair.health;
  engine_degraded = false;
}

run_calls-IsOnce_example : IsOnce (run_calls two_calls portfolio trader.desk).1
run_calls-IsOnce_example = run_calls-IsOnce two_calls portfolio trader.desk desk-IsOnce
