-- ===== src/Orchestrator/Scheduler.antt =====
-- app/orchestrator.py: `MultiSymbolOrchestrator`, which lets one symbol after the other tick. The
-- orchestrator of a symbol is any type with the operations that the scheduler uses; what they share
-- (the database, the exchange) is the world. A dictionary is the list of its items.
pub mod Keeping
pub mod Turns
pub mod Gate
use agente_tradin_ia_v2_mult.Common.{
  ℕ, zero, suc, ◌+◌, ◌%◌, ◌<◌, String, Bool, true, false, not, ◌&&◌, ◌||◌, Option, none, some, List,
  [], ◌∷◌, ltb, get_elem?, length, if◌then◌else◌,
}
use agente_tradin_ia_v2_mult.Execution.Reconciliation.{Dict, get, set}
use agente_tradin_ia_v2_mult.Api.PollEngine.{
  PollEngineStatus, iniciando, saudavel, degradado, parado, encerrando, is_saudavel,
}
use agente_tradin_ia_v2_mult.Orchestrator.Results.{TickResult}
use agente_tradin_ia_v2_mult.Orchestrator.Health.{SymbolHealth, update_health}

-- What the scheduler uses of an orchestrator `O` in a world `W`: `Orchestrator.tick`, where no result
-- is an exception, the attribute `engine_degraded`, and `settings.poll_backoff_max_seconds`.
pub record Ticker (O W : Type 0) : Type 0 where
  pub tick : O → W → O × W × Option TickResult
  pub set_degraded : Bool → O → O
  pub backoff_max : O → ℕ

pub record MultiSymbolOrchestrator (O : Type 0) : Type 0 where
  pub orchestrators : Dict O
  pub symbols : List String
  pub rr_index : ℕ
  pub health : Dict SymbolHealth
  pub engine_degraded : Bool

-- What a call of `tick` comes to: a symbol with its result, a symbol whose tick raised, no symbol, or
-- a symbol that a dictionary or list does not have.
pub data Served : Type 0 where
  ticked : String → TickResult → Served
  failed : String → Served
  all_symbols_in_cooldown : Served
  lookup_error : Served

abbrev pub is_parado : PollEngineStatus → Bool
is_parado parado = true
is_parado _ = false

-- `eligible_again_at is not None and now < eligible_again_at`
abbrev pub before : ℕ → Option ℕ → Bool
before now none = false
before now (some t) = ltb now t

unfoldable pub in_cooldown : ℕ → SymbolHealth → Bool
in_cooldown now h = is_parado h.status && before now h.eligible_again_at

-- `_portfolio_healthy`
unfoldable pub portfolio_healthy : Dict SymbolHealth → Bool
portfolio_healthy [] = true
portfolio_healthy (h ∷ hs) = (is_saudavel h.1.status && not h.1.has_gap) && portfolio_healthy hs

abbrev pub map_values : {A B : Type 0} → (A → B) → Dict A → Dict B
map_values g [] = []
map_values g (item ∷ d) = (item.0, g item.1) ∷ map_values g d

abbrev pub advance : {O : Type 0} → MultiSymbolOrchestrator O → MultiSymbolOrchestrator O
advance m = record m { rr_index = (m.rr_index + 1) % length m.symbols }

module _ {O W : Type 0} (t : Ticker O W) where
  -- `_sync_engine_degraded_to_orchestrators`
  unfoldable pub sync_engine_degraded : MultiSymbolOrchestrator O → MultiSymbolOrchestrator O
  unfolding portfolio_healthy
  sync_engine_degraded m =
      let degraded = m.engine_degraded || not (portfolio_healthy m.health) in
      record m { orchestrators = map_values (t.set_degraded degraded) m.orchestrators }

  -- The setter of `engine_degraded`.
  unfoldable pub set_engine_degraded : Bool → MultiSymbolOrchestrator O → MultiSymbolOrchestrator O
  set_engine_degraded value m = record m {
    engine_degraded = value;
    orchestrators = map_values (t.set_degraded value) m.orchestrators;
  }

  -- What a symbol's tick leaves: its result updates the health at the instant `later`.
  unfoldable pub conclude_tick :
      ℕ
      → String
      → SymbolHealth
      → MultiSymbolOrchestrator O
      → O × W × Option TickResult
      → MultiSymbolOrchestrator O × W × Served
  conclude_tick later symbol h m (o, w, none) =
      (record m { orchestrators = set symbol o m.orchestrators }, w, failed symbol)
  conclude_tick later symbol h m (o, w, some r) = (
    record m {
      orchestrators = set symbol o m.orchestrators;
      health = set symbol (update_health (t.backoff_max o) later r h) m.health;
    },
    w,
    ticked symbol r,
  )

  -- The rest of the body, for a symbol whose turn it is.
  unfoldable pub serve :
      ℕ
      → ℕ
      → String
      → SymbolHealth
      → MultiSymbolOrchestrator O
      → W
      → MultiSymbolOrchestrator O × W × Served
  unfolding sync_engine_degraded conclude_tick
  serve now later symbol h m w =
      let h' = record h { last_tick_started_at = some now } in
      let m' = record (sync_engine_degraded m) { health = set symbol h' m.health } in
      elim (get symbol m'.orchestrators) [
        | none ↦ (m', w, lookup_error)
        | some o ↦ conclude_tick later symbol h' m' (t.tick o w)
      ]

  -- The loop over the turns that are left.
  unfoldable pub take_turns :
      ℕ → ℕ → ℕ → MultiSymbolOrchestrator O → W → MultiSymbolOrchestrator O × W × Served
  unfolding in_cooldown serve
  take_turns zero now later m w = (m, w, all_symbols_in_cooldown)
  take_turns (suc turns) now later m w =
      let rest = take_turns turns now later (advance m) w in
      elim (get_elem? m.symbols m.rr_index) [
        | none ↦ (m, w, lookup_error)
        | some symbol ↦ elim (get symbol m.health) [
          | none ↦ (advance m, w, lookup_error)
          | some h ↦ if in_cooldown now h then rest else serve now later symbol h (advance m) w
        ]
      ]

  -- `MultiSymbolOrchestrator.tick`
  unfoldable pub tick_symbols :
      ℕ → ℕ → MultiSymbolOrchestrator O → W → MultiSymbolOrchestrator O × W × Served
  unfolding take_turns
  tick_symbols now later m w = take_turns (length m.symbols) now later m w
