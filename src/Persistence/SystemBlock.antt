-- ===== src/Persistence/SystemBlock.antt =====
-- What `recompute_trading_blocked` of app/persistence/repo.py guarantees.
use agente_tradin_ia_v2_mult.Common.{ℕ, true, ◌≡◌, ◌⊎◌, ◌↔◌, ◌≤◌, arith}
use agente_tradin_ia_v2_mult.Persistence.Models.{SystemState, ativo}
use agente_tradin_ia_v2_mult.Persistence.Repo.{recompute_trading_blocked}

-- The six causes that block trading.
abbrev pub HasCause : SystemState → ℕ → Type 0
HasCause s max_failures =
    (s.kill_switch_engaged ≡ true)
    ⊎ (s.state_ambiguous ≡ true)
    ⊎ (s.clock_out_of_sync ≡ true)
    ⊎ (max_failures ≤ s.api_failure_count)
    ⊎ (s.reconciliation_diverged ≡ true)
    ⊎ (s.order_state_unknown ≡ true)

-- The derivation blocks trading exactly if one of the six causes is there.
pub blocked_iff_cause :
    (s : SystemState) (max_failures : ℕ)
    → ((recompute_trading_blocked s max_failures).trading_blocked ≡ true) ↔ HasCause s max_failures
unfolding recompute_trading_blocked
blocked_iff_cause s m = ground arith

-- The causes themselves are left alone.
pub recompute-blocked_iff :
    (s : SystemState) (max_failures : ℕ)
    → let s' = recompute_trading_blocked s max_failures in
      (s'.trading_blocked ≡ true) ↔ HasCause s' max_failures
unfolding recompute_trading_blocked
recompute-blocked_iff s m = ground arith

-- Deriving the block again changes nothing: neither the block, nor its reasons, nor the operational
-- state that follows it.
pub recompute_idempotent :
    (s : SystemState) (m : ℕ)
    → recompute_trading_blocked (recompute_trading_blocked s m) m ≡ recompute_trading_blocked s m
unfolding recompute_trading_blocked
recompute_idempotent s m = ground arith

-- After the derivation the operational state is ATIVO only if it was before and no cause is there:
-- the derivation never authorises new entries by itself.
pub ativo_only_kept :
    (s : SystemState) (m : ℕ)
    → (recompute_trading_blocked s m).operational_state ≡ ativo
    → (s.operational_state ≡ ativo) × ¬ HasCause s m
unfolding recompute_trading_blocked
ativo_only_kept s m h = ground arith

pub recompute_ambiguous :
    (s : SystemState) (m : ℕ)
    → s.state_ambiguous ≡ true
    → ((recompute_trading_blocked s m).state_ambiguous ≡ true)
      × ((recompute_trading_blocked s m).trading_blocked ≡ true)
unfolding recompute_trading_blocked
recompute_ambiguous s m h = ground arith
