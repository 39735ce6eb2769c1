-- ===== src/Execution/Books.antt =====
-- app/execution/fill_service.py: what surrounds an order, and what a call gives back.

use agente_tradin_ia_v2_mult.Common.{ℕ, Bool, Option, none, some, List}
use agente_tradin_ia_v2_mult.OrderState.{OrderStatus}
use agente_tradin_ia_v2_mult.Persistence.Models.{
  Order, OrderEvent, Execution, Position, SystemState,
}

-- What a call gives back, or the exception that it raises.
pub data Outcome (A : Type 0) : Type 0 where
  done : A → Outcome A
  illegal_transition : Outcome A
  zero_division : Outcome A

infixl 5 ◌>>=◌
abbrev pub ◌>>=◌ : {A B : Type 0} → Outcome A → (A → Outcome B) → Outcome B
done a >>= k = k a
illegal_transition >>= k = illegal_transition
zero_division >>= k = zero_division

abbrev pub or_zero_division : {A : Type 0} → Option A → Outcome A
or_zero_division none = zero_division
or_zero_division (some a) = done a

-- `LATE_OPPOSITE_FILL_BLOCKED`, with the order that its detail names.
pub data SecurityEvent : Type 0 where
  late_opposite_fill_blocked : ℕ → SecurityEvent

-- The numeric fields that `params_json` of the signal may hold.
pub record Decision (F : Type 0) : Type 0 where
  pub stop_distance_per_unit : Option F
  pub target_distance_per_unit : Option F

-- What the session of the database holds around one order. `position` is the first open row of the
-- order's symbol, which stands between `before` and `behind` in the table; without such a row
-- `before` is the whole table.
pub record Books (F : Type 0) : Type 0 where
  pub state : SystemState
  pub fills_count : Option ℕ
  pub order : Order F
  pub other_orders : List (Order F)
  pub events : List OrderEvent
  pub executions : List (Execution F)
  pub before : List (Position F)
  pub position : Option (Position F)
  pub behind : List (Position F)
  pub security_events : List SecurityEvent

pub record FillApplicationResult (F : Type 0) : Type 0 where
  pub status : OrderStatus
  pub new_fill_count : ℕ
  pub realized_pnl_delta_total : F
  pub closed_fully : Option Bool
