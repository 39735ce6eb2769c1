-- ===== src/Persistence/Models.antt =====
-- app/persistence/models.py: the rows that orders, fills, positions and the system state are kept
-- in, over any type of floats. Instants are microseconds since the epoch. Columns that no modelled
-- code reads are left out.
use agente_tradin_ia_v2_mult.Common.{
  ℕ, String, Bool, true, false, Option, none, some, List, str_eq, not,
}
use agente_tradin_ia_v2_mult.OrderState.{OrderStatus}

-- A `side` column: "BUY", "SELL", or any other text ("HOLD" for a signal).
pub data Side : Type 0 where
  buy : Side
  sell : Side
  other : String → Side

-- `==` on sides.
abbrev pub same_side : Side → Side → Bool
same_side buy buy = true
same_side sell sell = true
same_side (other s) (other t) = str_eq s t
same_side _ _ = false

-- `side in ("BUY", "SELL")`
abbrev pub is_tradable : Side → Bool
is_tradable buy = true
is_tradable sell = true
is_tradable (other _) = false

-- The truth value of an optional text.
abbrev pub is_set : Option String → Bool
is_set none = false
is_set (some s) = not (str_eq s "")

pub data SyncStatus : Type 0 where
  complete pending : SyncStatus

pub record Order (F : Type 0) : Type 0 where
  pub id : ℕ
  pub risk_evaluation_id : ℕ
  pub symbol : String
  pub side : Side
  pub qty : F
  pub stop_loss : Option F
  pub take_profit : Option F
  pub is_close : Bool
  pub status : OrderStatus
  pub exchange_order_id : Option String
  pub mode : String
  pub filled_qty : F
  pub avg_fill_price : F
  pub fees_total : F
  pub pending_exchange_status : Option OrderStatus
  pub fills_sync_status : SyncStatus

pub record OrderEvent : Type 0 where
  pub order_id : ℕ
  pub from_status : OrderStatus
  pub to_status : OrderStatus

-- `exchange_fill_id` is `none` for a row of before the ledger.
pub record Execution (F : Type 0) : Type 0 where
  pub order_id : ℕ
  pub exchange_fill_id : Option String
  pub fill_qty : F
  pub fill_price : F
  pub fee : F
  pub is_partial : Bool
  pub executed_at : ℕ

pub data PositionStatus : Type 0 where
  opened closed : PositionStatus

pub record Position (F : Type 0) : Type 0 where
  pub symbol : String
  pub side : Side
  pub qty : F
  pub avg_entry_price : F
  pub stop_loss : Option F
  pub take_profit : Option F
  pub status : PositionStatus
  pub realized_pnl : F
  pub fees_paid : F
  pub closed_at : Option ℕ

pub data OperationalState : Type 0 where
  inicializando observando ativo pausado bloqueado encerrando : OperationalState

-- The texts that `block_reason` is joined from.
pub data BlockReason : Type 0 where
  kill_switch ambiguous clock diverged unknown_order : BlockReason
  api_failures : ℕ → ℕ → BlockReason

pub record SystemState : Type 0 where
  pub trading_blocked : Bool
  pub block_reason : Option (List BlockReason)
  pub kill_switch_engaged : Bool
  pub consecutive_losses : ℕ
  pub cooldown_until : Option ℕ
  pub api_failure_count : ℕ
  pub state_ambiguous : Bool
  pub clock_out_of_sync : Bool
  pub reconciliation_diverged : Bool
  pub reconciliation_stale : Bool
  pub order_state_unknown : Bool
  pub initialization_not_reconciled : Bool
  pub operational_state : OperationalState
  pub active_session_id : Option ℕ
