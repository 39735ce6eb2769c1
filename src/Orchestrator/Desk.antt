-- ===== src/Orchestrator/Desk.antt =====
-- app/orchestrator.py: what `Orchestrator` works on in one tick. The column `idempotency_key` of the
-- table of orders is a table of its own; what is handed to `submit` is kept in a list. What the
-- exchange answers during a tick is a parameter. One instant stands for a tick.
use agente_tradin_ia_v2_mult.Common.{
  ℕ, String, Bool, false, Option, none, some, List, [], ◌∷◌, ◌++◌, ◌||◌, str_eq, if◌then◌else◌,
}
use agente_tradin_ia_v2_mult.Persistence.Models.{Order}
use agente_tradin_ia_v2_mult.Risk.Engine.{ApprovedOrder}
use agente_tradin_ia_v2_mult.Execution.Base.{SubmitAck, OrderStatusSnapshot}
use agente_tradin_ia_v2_mult.Execution.Books.{
  Outcome, done, illegal_transition, zero_division, Decision,
}
use agente_tradin_ia_v2_mult.Execution.Reconciliation.{PositionView, OrderView, Mismatch}
use agente_tradin_ia_v2_mult.Api.Control.{Store}

-- What a step gives back, or an exception that leaves the tick, whose changes are rolled back.
pub data Attempt (A : Type 0) : Type 0 where
  returned : A → Attempt A
  raised : Attempt A

infixl 5 ◌>>=◌
abbrev pub ◌>>=◌ : {A B : Type 0} → Attempt A → (A → Attempt B) → Attempt B
returned a >>= k = k a
raised >>= k = raised

abbrev pub of_outcome : {A : Type 0} → Outcome A → Attempt A
of_outcome (done a) = returned a
of_outcome illegal_transition = raised
of_outcome zero_division = raised

abbrev pub of_option : {A : Type 0} → Option A → Attempt A
of_option none = raised
of_option (some a) = returned a

-- The failures and security events that are recorded.
pub data Entry : Type 0 where
  not_accepted ended_unknown : ℕ → Entry
  positions_unreachable orders_unreachable : Entry
  positions_compared orders_compared : List Mismatch → Entry
  cooldown_engaged : ℕ → ℕ → Entry
  market_data_failed market_data_fatal market_data_gap clock_drift_blocked : Entry
  api_failure_limit_reached : ℕ → Entry

-- The counters are those of the active session, if there is one; those of candles and signals are
-- left out. Of the table of candles their symbols, timeframes and instants are kept.
pub record Desk (F : Type 0) : Type 0 where
  pub store : Store F
  pub keys : List (String × ℕ)
  pub candles : List (String × String × ℕ)
  pub next_signal_id : ℕ
  pub next_order_id : ℕ
  pub next_evaluation_id : ℕ
  pub orders_count : Option ℕ
  pub approvals_count : Option ℕ
  pub rejections_count : Option ℕ
  pub failures_count : Option ℕ
  pub reconciliations_count : Option ℕ
  pub last_reconciliation_at : Option ℕ
  pub journal : List Entry
  -- What the exchange has acknowledged, with its key, in the ticks that were committed.
  pub submissions : List (ApprovedOrder F × String)

-- What the exchange answers: to an order and its key and reference price, and about an order, the
-- open orders and the position of a symbol. No answer is an exception.
pub record Exchange (F : Type 0) : Type 0 where
  pub submit : ApprovedOrder F → String → F → Option SubmitAck
  pub poll_order : Order F → Option (OrderStatusSnapshot F)
  pub list_open_orders : String → Option (List (OrderView F))
  pub get_position : String → Option (Option (PositionView F))

-- The settings, the instant, and the stored decision behind an order.
pub record Setting (F : Type 0) : Type 0 where
  pub symbol : String
  pub mode : String
  pub now : ℕ
  pub max_api_failures : ℕ
  pub cooldown_after_losses : ℕ
  pub cooldown : ℕ
  pub decision_of : Order F → Option (Decision F)

-- `find_order_by_idempotency_key`
unfoldable pub find_key : String → List (String × ℕ) → Option ℕ
find_key key [] = none
find_key key (k ∷ ks) = if str_eq key k.0 then some k.1 else find_key key ks

abbrev pub contains_text : String → List String → Bool
contains_text s [] = false
contains_text s (t ∷ ts) = str_eq s t || contains_text s ts

-- `symbols.add(s)`, in the order in which they are added.
abbrev pub add_symbol : String → List String → List String
add_symbol s symbols = if contains_text s symbols then symbols else symbols ++ (s ∷ [])
