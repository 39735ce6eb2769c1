-- ===== src/Orchestrator/Portfolio.antt =====
-- app/orchestrator.py: `MultiSymbolOrchestrator` over the `Orchestrator` of each symbol, which share one
-- database. A tick that raises leaves the tables as they were; what it may leave in the memory of its
-- orchestrator is taken back too. What it has submitted stays at the exchange, and leaves no trace
-- on the desk, whose submissions are those of committed ticks.
pub mod Orders
use agente_tradin_ia_v2_mult.Common.{ℕ, ◌+◌, Bool, Option, none, some, List, [], ◌∷◌}
use agente_tradin_ia_v2_mult.Float.{Float}
use agente_tradin_ia_v2_mult.Orchestrator.Results.{TickResult}
use agente_tradin_ia_v2_mult.Orchestrator.Desk.{Attempt, returned, raised, Desk}
use agente_tradin_ia_v2_mult.Orchestrator.Scheduler.{Ticker, MultiSymbolOrchestrator, tick_symbols}
use agente_tradin_ia_v2_mult.Orchestrator.Tick.{Inputs, Trader, tick}

-- The orchestrator of one symbol, and what each of its ticks will be given.
pub record Member (F : Type 0) : Type 0 where
  pub trader : Trader F
  pub inputs_of : ℕ → Inputs F
  pub ticks_made : ℕ
  pub backoff_max : ℕ

module _ {F : Type 0} where
  -- `session_scope` keeps the changes of a tick that returns.
  unfoldable pub conclude_member :
      Member F → Desk F → Attempt (Trader F × TickResult) → Member F × Desk F × Option TickResult
  conclude_member m d raised = (record m { ticks_made = m.ticks_made + 1 }, d, none)
  conclude_member m d (returned r) =
      (record m { trader = r.0; ticks_made = m.ticks_made + 1 }, r.0.desk, some r.1)

module _ {F : Type 0} ⦃f : Float F⦄ where
  unfoldable pub members : Ticker (Member F) (Desk F)
  unfolding conclude_member tick
  members = record {
    tick =
        λ m d. conclude_member m d (tick (m.inputs_of m.ticks_made) (record m.trader { desk = d }));
    set_degraded = λ b m. record m { trader = record m.trader { engine_degraded = b } };
    backoff_max = λ m. m.backoff_max;
  }

  -- Calls of `tick`, each with the instants at which it begins and ends.
  unfoldable pub run_calls :
      List (ℕ × ℕ)
      → MultiSymbolOrchestrator (Member F)
      → Desk F
      → MultiSymbolOrchestrator (Member F) × Desk F
  unfolding members tick_symbols
  run_calls [] m d = (m, d)
  run_calls (at ∷ calls) m d = let r = tick_symbols members at.0 at.1 m d in run_calls calls r.0 r.1
