-- ===== src/Orchestrator/Scheduler/Gate.antt =====
-- The health of every symbol decides for all whether new entries are let through.
use agente_tradin_ia_v2_mult.Common.{
  ℕ, String, Bool, true, false, not, ◌||◌, some, [], ◌∷◌, ◌≡◌, ◌↔◌, refl, arith, All, str_eq,
  Bool-cases, inl, inr,
}
use agente_tradin_ia_v2_mult.Execution.Reconciliation.{Dict, get, set}
use agente_tradin_ia_v2_mult.Api.PollEngine.{saudavel}
use agente_tradin_ia_v2_mult.Orchestrator.Health.{SymbolHealth}
use agente_tradin_ia_v2_mult.Orchestrator.Scheduler.{
  Ticker, MultiSymbolOrchestrator, portfolio_healthy, map_values, sync_engine_degraded,
  conclude_tick, serve,
}

abbrev pub IsSound : String × SymbolHealth → Type 0
IsSound item = (item.1.status ≡ saudavel) × (item.1.has_gap ≡ false)

portfolio_healthy_iff : (d : Dict SymbolHealth) → (portfolio_healthy d ≡ true) ↔ All IsSound d
unfolding portfolio_healthy
portfolio_healthy_iff [] = ground arith
portfolio_healthy_iff (item ∷ d) = ground (arith, portfolio_healthy_iff d)

get-map_values :
    {A B : Type 0} (g : A → B) (s : String) (d : Dict A) (a : A)
    → get s d ≡ some a
    → get s (map_values g d) ≡ some (g a)
get-map_values g s [] a h = absurd (ground (arith, h))
get-map_values g s (item ∷ d) a h = elim (Bool-cases (str_eq s item.0)) [
  | inl e ↦ ground (arith, e, h)
  | inr n ↦ ground (arith, n, h, get-map_values g s d a)
]

module _ {O W : Type 0} (t : Ticker O W) where
  -- A symbol ticks as an orchestrator that is told by `engine_degraded` whether entries are closed.
  -- They are open exactly if the poll engine has not closed them, and every symbol of the portfolio is
  -- SAUDAVEL and without a gap, at the moment before the tick: one unsound symbol closes them for
  -- all.
  pub serve_gated :
      (now later : ℕ) (s : String) (h : SymbolHealth) (m : MultiSymbolOrchestrator O) (w : W)
      (o : O)
      → get s m.orchestrators ≡ some o
      → (closed : Bool) × (serve t now later s h m w
          ≡ conclude_tick t later s
              (record h { last_tick_started_at = some now })
              (record (sync_engine_degraded t m) {
                health = set s (record h { last_tick_started_at = some now }) m.health;
              })
              (t.tick (t.set_degraded closed o) w))
        × ((closed ≡ false) ↔ (m.engine_degraded ≡ false) × All IsSound m.health)
  unfolding serve
  serve_gated now later s h m w o e =
      let closed = m.engine_degraded || not (portfolio_healthy m.health) in
      (
        closed,
        rw (get-map_values (t.set_degraded closed) s m.orchestrators o e, serve) refl,
        ground (arith, portfolio_healthy_iff m.health),
      )
