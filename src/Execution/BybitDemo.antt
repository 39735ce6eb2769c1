-- ===== src/Execution/BybitDemo.antt =====
-- app/execution/bybit_demo.py: what the exchange's answers become. The request itself, with its
-- parameters and the formats of its numbers, is left out; so is `request_cancel`, which sends one.
pub mod Listings
pub mod Finality
pub mod Sides
mod Examples
use agente_tradin_ia_v2_mult.Common.{
  ℕ, String, Bool, true, false, ◌||◌, Option, none, some, List, [], ◌∷◌, ◌++◌, str_eq,
  if◌then◌else◌, ◌⊎◌, inl, inr,
}
use agente_tradin_ia_v2_mult.Float.{Float, nought}
use agente_tradin_ia_v2_mult.OrderState.{
  OrderStatus, submitted, partially_filled, filled, cancelled, rejected, unknown, contains,
}
use agente_tradin_ia_v2_mult.Execution.Base.{SubmitAck, FillEvent, OrderStatusSnapshot}
use agente_tradin_ia_v2_mult.Persistence.Models.{Side, buy, sell, other}
use agente_tradin_ia_v2_mult.Execution.Reconciliation.{OrderView, PositionView}
use agente_tradin_ia_v2_mult.Execution.Paging.{Reply, Reader, walk_pages}

-- What creating an order comes to: an exception that is not caught, one that is, or an `orderId`, if
-- there is one.
pub data CreateReply : Type 0 where
  raises timed_out : CreateReply
  created : Option String → CreateReply

abbrev ack : String → OrderStatus → Option SubmitAck
ack id status = some (record { exchange_order_id = id; status = status })

-- `submit`
unfoldable pub submit : CreateReply → Option SubmitAck
submit raises = none
submit timed_out = ack "" unknown
submit (created none) = ack "" rejected
submit (created (some id)) = if str_eq id "" then ack "" rejected else ack id submitted

-- `_BYBIT_STATUS_MAP.get(raw_status, OrderStatus.UNKNOWN)`
unfoldable pub status_of : String → OrderStatus
status_of s =
    if str_eq s "New"
    then submitted
    else if str_eq s "PartiallyFilled"
    then partially_filled
    else if str_eq s "Filled"
    then filled
    else if str_eq s "Cancelled"
    then cancelled
    else if str_eq s "PartiallyFilledCanceled"
    then cancelled
    else if str_eq s "Rejected"
    then rejected
    else unknown

abbrev pub raw_status : Option String → OrderStatus
raw_status none = unknown
raw_status (some s) = status_of s

-- `_STATUSES_REQUIRING_FILL_SYNC`
abbrev pub statuses_requiring_fill_sync : List OrderStatus
statuses_requiring_fill_sync = partially_filled ∷ filled ∷ cancelled ∷ []

-- `_MAX_EXECUTION_PAGES` and `_MAX_OPEN_ORDERS_PAGES`
abbrev pub max_execution_pages : ℕ
max_execution_pages = 50

abbrev pub max_open_orders_pages : ℕ
max_open_orders_pages = 50

-- A row of `/v5/execution/list`: a field that is missing or cannot be read is none. Of the fee, which
-- may be missing, it is told apart which of the two it is.
pub record ExecutionRow (F : Type 0) : Type 0 where
  pub exec_id : Option String
  pub exec_qty : Option F
  pub exec_price : Option F
  pub exec_fee : Option (Option F)

-- A row of `/v5/order/realtime`, and one of `/v5/position/list`; each has its side.
pub record OrderRow (F : Type 0) : Type 0 where
  pub order_status : Option String
  pub order_id : Option String
  pub side : String
  pub qty : Option (Option F)

pub record PositionRow (F : Type 0) : Type 0 where
  pub side : String
  pub size : Option (Option F)
  pub avg_price : Option (Option F)

-- The value that a text is, where sides are compared.
unfoldable pub side_text : String → Side
side_text s = if str_eq s "BUY" then buy else if str_eq s "SELL" then sell else other s

-- What the query of a status comes to: an exception that is not caught, one that is, or the statuses
-- of the rows.
pub data StatusReply : Type 0 where
  raises timed_out : StatusReply
  statuses : List (Option String) → StatusReply

-- `row.get("orderStatus") in ("New", "PartiallyFilled")`
abbrev is_open_status : Option String → Bool
is_open_status none = false
is_open_status (some s) = str_eq s "New" || str_eq s "PartiallyFilled"

module _ {F : Type 0} ⦃f : Float F⦄ where
  abbrev or_zero : Option (Option F) → Option F
  or_zero none = some (f.literal 0 1)
  or_zero (some fee) = fee

  abbrev fill_event : Option String → Option F → Option F → Option F → Option (FillEvent F)
  fill_event (some id) (some qty) (some price) (some fee) =
      some (record { exchange_fill_id = id; fill_qty = qty; fill_price = price; fee = fee })
  fill_event _ _ _ _ = none

  -- A fill of a row; none is a `KeyError`, `TypeError` or `ValueError`.
  unfoldable pub read_fill : ExecutionRow F → Option (FillEvent F)
  read_fill row = fill_event row.exec_id row.exec_qty row.exec_price (or_zero row.exec_fee)

  -- The fills up to the first row that cannot be read, and whether there is none.
  unfoldable pub read_fills : List (ExecutionRow F) → List (FillEvent F) × Bool
  unfolding read_fill
  read_fills [] = ([], true)
  read_fills (row ∷ rows) =
      let rest = read_fills rows in
      elim (read_fill row) [ none ↦ ([], false) | some e ↦ (e ∷ rest.0, rest.1) ]

  unfoldable pub execution_reader :
      Reader (ExecutionRow F) (List (FillEvent F)) (Option (List (FillEvent F) × Bool))
  unfolding read_fills
  execution_reader = record {
    take = λ rows fills.
        let r = read_fills rows in
        if r.1 then inl (fills ++ r.0) else inr (some (fills ++ r.0, false));
    close = λ fills. some (fills, true);
    fail = λ fills. some (fills, false);
    raised = none;
  }

  -- `_fetch_all_executions`; no result is an exception.
  unfoldable pub fetch_all_executions :
      (ℕ → Option String → Reply (ExecutionRow F)) → Option (List (FillEvent F) × Bool)
  unfolding execution_reader walk_pages
  fetch_all_executions reply = walk_pages execution_reader reply max_execution_pages 0 none [] []

  abbrev pub snapshot :
      String → OrderStatus → List (FillEvent F) → Bool → Option (OrderStatusSnapshot F)
  snapshot id status fills complete =
      some (record {
        exchange_order_id = id;
        status = status;
        fills = fills;
        fills_complete = complete;
      })

  abbrev pub with_fills :
      String → OrderStatus → Option (List (FillEvent F) × Bool) → Option (OrderStatusSnapshot F)
  with_fills id status none = none
  with_fills id status (some (fills, complete)) = snapshot id status fills complete

  unfoldable pub with_status :
      String
      → (ℕ → Option String → Reply (ExecutionRow F))
      → OrderStatus
      → Bool
      → Option (OrderStatusSnapshot F)
  unfolding fetch_all_executions
  with_status id reply status true = with_fills id status (fetch_all_executions reply)
  with_status id reply status false = snapshot id status [] true

  -- `poll_order`; no result is an exception.
  unfoldable pub poll_order :
      String
      → StatusReply
      → (ℕ → Option String → Reply (ExecutionRow F))
      → Option (OrderStatusSnapshot F)
  unfolding with_status status_of
  poll_order id raises reply = none
  poll_order id timed_out reply = snapshot id unknown [] true
  poll_order id (statuses []) reply = snapshot id unknown [] true
  poll_order id (statuses (s ∷ _)) reply =
      with_status id reply (raw_status s) (contains statuses_requiring_fill_sync (raw_status s))

  -- A row, its status looked at first, before the orders of the rows after it.
  abbrev pub add_row :
      Bool → Option F → OrderRow F → Option (List (OrderView F)) → Option (List (OrderView F))
  add_row false qty row rest = rest
  add_row true (some qty) row (some os) =
      some (record { exchange_order_id = row.order_id; side = side_text row.side; qty = qty } ∷ os)
  add_row true _ row _ = none

  -- The open orders of a page; none is a quantity that cannot be read.
  unfoldable pub read_orders : List (OrderRow F) → Option (List (OrderView F))
  read_orders [] = some []
  read_orders (row ∷ rows) =
      add_row (is_open_status row.order_status) (or_zero row.qty) row (read_orders rows)

  abbrev gather :
      List (OrderView F)
      → Option (List (OrderView F))
      → List (OrderView F) ⊎ Option (List (OrderView F))
  gather orders none = inr none
  gather orders (some os) = inl (orders ++ os)

  -- Any failure is an exception.
  unfoldable pub order_reader :
      Reader (OrderRow F) (List (OrderView F)) (Option (List (OrderView F)))
  unfolding read_orders
  order_reader = record {
    take = λ rows orders. gather orders (read_orders rows);
    close = λ orders. some orders;
    fail = λ _. none;
    raised = none;
  }

  -- `list_open_orders`; no result is an exception.
  unfoldable pub list_open_orders :
      (ℕ → Option String → Reply (OrderRow F)) → Option (List (OrderView F))
  unfolding order_reader walk_pages
  list_open_orders reply = walk_pages order_reader reply max_open_orders_pages 0 none [] []

  abbrev pub with_price : String → PositionRow F → F → Option F → Option (Option (PositionView F))
  with_price symbol row size none = none
  with_price symbol row size (some price) = some (
      some (record {
        symbol = symbol;
        side = side_text row.side;
        qty = size;
        avg_entry_price = some price;
      }))

  -- The position of a row, once its size and price are read; none is a `ValueError`.
  abbrev pub position_view :
      String → PositionRow F → Option F → Option F → Option (Option (PositionView F))
  position_view symbol row none price = none
  position_view symbol row (some size) price =
      if f.eq size nought then some none else with_price symbol row size price

  -- `get_position`, of the rows of the answer; no answer, or one that cannot be read, is an
  -- exception.
  unfoldable pub get_position :
      String → Option (List (PositionRow F)) → Option (Option (PositionView F))
  unfolding side_text
  get_position symbol none = none
  get_position symbol (some []) = some none
  get_position symbol (some (row ∷ _)) =
      position_view symbol row (or_zero row.size) (or_zero row.avg_price)
