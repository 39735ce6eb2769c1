-- ===== src/Execution/Base.antt =====
-- app/execution/base.py: what an execution engine reports of an order.
use agente_tradin_ia_v2_mult.Common.{String, Bool, List}
use agente_tradin_ia_v2_mult.OrderState.{OrderStatus}

pub record SubmitAck : Type 0 where
  pub exchange_order_id : String
  pub status : OrderStatus

pub record FillEvent (F : Type 0) : Type 0 where
  pub exchange_fill_id : String
  pub fill_qty : F
  pub fill_price : F
  pub fee : F

pub record OrderStatusSnapshot (F : Type 0) : Type 0 where
  pub exchange_order_id : String
  pub status : OrderStatus
  pub fills : List (FillEvent F)
  pub fills_complete : Bool
