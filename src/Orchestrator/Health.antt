-- ===== src/Orchestrator/Health.antt =====
-- app/orchestrator.py: the health of one symbol, `SymbolHealth` and
-- `MultiSymbolOrchestrator._update_health`. Instants are microseconds; an error is represented by the
-- status that it came with.
pub mod Gaps
use agente_tradin_ia_v2_mult.Common.{
  ℕ, ◌+◌, ◌≤◌, ◌<◌, Bool, true, false, not, ◌&&◌, ◌||◌, Option, none, some, List, [], ◌∷◌, foldl,
  ltb, leb, if◌then◌else◌, ◌≡◌, ◌↔◌, ◌⊎◌, refl, arith,
}
use agente_tradin_ia_v2_mult.Orchestrator.Results.{
  TickStatus, TickResult, retryable_error, aggregating, is_failure, is_gap, is_incomplete,
  is_persisted,
}
use agente_tradin_ia_v2_mult.Api.PollEngine.{
  PollEngineStatus, iniciando, saudavel, degradado, parado, encerrando, is_saudavel,
}

pub record SymbolHealth : Type 0 where
  pub status : PollEngineStatus
  pub consecutive_failures : ℕ
  pub last_tick_started_at : Option ℕ
  pub last_tick_completed_at : Option ℕ
  pub last_tick_success_at : Option ℕ
  pub last_candle_persisted_at : Option ℕ
  pub last_error : Option TickStatus
  pub eligible_again_at : Option ℕ
  pub has_gap : Bool
  pub operational_gaps : ℕ
  pub incomplete_strategy_buckets : ℕ

-- `SYMBOL_PARADO_THRESHOLD`
abbrev pub parado_threshold : ℕ
parado_threshold = 3

-- The branch of the failures; `backoff` is `poll_backoff_max_seconds`.
unfoldable pub after_failure : ℕ → ℕ → TickStatus → SymbolHealth → SymbolHealth
after_failure backoff now status h =
    let n = h.consecutive_failures + 1 in
    let stops = leb parado_threshold n in
    record h {
      last_tick_completed_at = some now;
      consecutive_failures = n;
      last_error = some status;
      has_gap = is_gap status;
      operational_gaps = if is_gap status then h.operational_gaps + 1 else h.operational_gaps;
      status = if stops then parado else degradado;
      eligible_again_at = if stops then some (now + backoff) else h.eligible_again_at;
    }

-- What follows for a tick that was processed.
unfoldable pub after_success : TickResult → SymbolHealth → SymbolHealth
after_success r h =
    if is_incomplete r.status
    then record h {
      consecutive_failures = 0;
      has_gap = true;
      incomplete_strategy_buckets = h.incomplete_strategy_buckets + 1;
      last_error = some r.status;
      status = degradado;
    }
    else if h.has_gap && not r.strategy_bucket_complete
    then record h { consecutive_failures = 0; status = degradado }
    else record h {
      consecutive_failures = 0;
      last_error = none;
      has_gap = false;
      status = saudavel;
    }

unfoldable pub update_health : ℕ → ℕ → TickResult → SymbolHealth → SymbolHealth
unfolding after_failure after_success
update_health backoff now r h =
    if is_failure r.status
    then after_failure backoff now r.status h
    else after_success r (record h {
      last_tick_completed_at = some now;
      eligible_again_at = none;
      last_tick_success_at = some now;
      last_candle_persisted_at =
          if is_persisted r.status then some now else h.last_candle_persisted_at;
    })

-- The answers to a series of ticks, with their instants.
unfoldable pub run_health : ℕ → SymbolHealth → List (ℕ × TickResult) → SymbolHealth
unfolding update_health
run_health backoff h [] = h
run_health backoff h (r ∷ rs) = run_health backoff (update_health backoff r.0 r.1 h) rs
