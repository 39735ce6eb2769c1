-- ===== src/Persistence/Repo.antt =====
-- app/persistence/repo.py: the helpers that read and change the rows.
use agente_tradin_ia_v2_mult.Common.{
  ℕ, String, Bool, true, false, Option, none, some, List, [], ◌∷◌, ◌++◌, ◌||◌, ◌&&◌, leb, str_eq,
  if◌then◌else◌,
}
use mathlib.Core.Option
use agente_tradin_ia_v2_mult.Float.{Float, ◌⊕◌, ◌⊖◌, ◌⊗◌, nought, div?}
use agente_tradin_ia_v2_mult.OrderState.{
  OrderStatus, unknown, eq_status, contains, non_terminal_statuses, IllegalTransition, Validation,
  valid, illegal, validate_transition,
}
use agente_tradin_ia_v2_mult.Persistence.Models.{
  Side, buy, same_side, Order, OrderEvent, Position, PositionStatus, opened, closed,
  OperationalState, observando, bloqueado, encerrando, BlockReason, kill_switch, ambiguous, clock,
  diverged, unknown_order, api_failures, SystemState,
}

-- `if flag: reasons.append(reason)`
abbrev pub append_if : Bool → BlockReason → List BlockReason → List BlockReason
append_if flag reason reasons = if flag then reasons ++ (reason ∷ []) else reasons

-- The list `reasons` of `recompute_trading_blocked`.
unfoldable pub block_reasons : SystemState → ℕ → List BlockReason
block_reasons s max_api_failures = append_if s.order_state_unknown unknown_order (
    append_if s.reconciliation_diverged diverged (
      append_if (leb max_api_failures s.api_failure_count)
        (api_failures s.api_failure_count max_api_failures)
        (append_if s.clock_out_of_sync clock (
          append_if s.state_ambiguous ambiguous (append_if s.kill_switch_engaged kill_switch [])))))

-- `status == "OPEN"`
abbrev pub is_open : PositionStatus → Bool
is_open opened = true
is_open closed = false

-- `bool(reasons)`
abbrev pub is_nonempty {ℓ} : {A : Type ℓ} → List A → Bool
is_nonempty [] = false
is_nonempty (_ ∷ _) = true

-- How the operational state follows the block.
unfoldable pub mirror_block : Bool → OperationalState → OperationalState
mirror_block blocked encerrando = encerrando
mirror_block blocked bloqueado = if blocked then bloqueado else observando
mirror_block blocked other_state = if blocked then bloqueado else other_state

unfoldable pub recompute_trading_blocked : SystemState → ℕ → SystemState
unfolding block_reasons mirror_block
recompute_trading_blocked s max_api_failures =
    let reasons = block_reasons s max_api_failures in
    let blocked = is_nonempty reasons in
    record s {
      trading_blocked = blocked;
      block_reason = if blocked then some reasons else none;
      operational_state = mirror_block blocked s.operational_state;
    }

module _ {F : Type 0} where
  -- `has_unknown_orders`
  unfoldable pub has_unknown_orders : List (Order F) → Bool
  has_unknown_orders [] = false
  has_unknown_orders (o ∷ os) = eq_status o.status unknown || has_unknown_orders os

  -- `non_terminal_orders`, of one mode.
  unfoldable pub non_terminal_orders : String → List (Order F) → List (Order F)
  non_terminal_orders mode [] = []
  non_terminal_orders mode (o ∷ os) =
      let rest = non_terminal_orders mode os in
      if contains non_terminal_statuses o.status && str_eq o.mode mode then o ∷ rest else rest

  -- The open rows of a symbol; the code works on the first.
  unfoldable pub open_positions : String → List (Position F) → List (Position F)
  open_positions symbol [] = []
  open_positions symbol (p ∷ ps) =
      let rest = open_positions symbol ps in
      if is_open p.status && str_eq p.symbol symbol then p ∷ rest else rest

-- A transition writes the status and an audit row, or raises.
pub data Transition (F : Type 0) : Type 0 where
  moved : Order F → OrderEvent → Transition F
  refused : IllegalTransition → Transition F

abbrev pub transition_by : {F : Type 0} → Validation → Order F → OrderStatus → Transition F
transition_by valid o new =
    moved (record o { status = new })
      (record { order_id = o.id; from_status = o.status; to_status = new })
transition_by (illegal e) o new = refused e

unfoldable pub transition_order_status : {F : Type 0} → Order F → OrderStatus → Transition F
transition_order_status o new = transition_by (validate_transition o.status new) o new

module _ {F : Type 0} ⦃f : Float F⦄ where
  -- `open_position`
  unfoldable pub new_position : String → Side → F → F → Option F → Option F → F → Position F
  new_position symbol side qty avg_entry_price stop_loss take_profit opening_fee = record {
    symbol = symbol;
    side = side;
    qty = qty;
    avg_entry_price = avg_entry_price;
    stop_loss = stop_loss;
    take_profit = take_profit;
    status = opened;
    realized_pnl = nought;
    fees_paid = opening_fee;
    closed_at = none;
  }

  -- `none` is a division by a total quantity of 0.
  unfoldable pub add_to_position : Position F → F → F → F → Option (Position F)
  add_to_position p additional_qty fill_price fee =
      let total_qty = p.qty ⊕ additional_qty in
      Option.map
        (λ average. record p {
          avg_entry_price = average;
          qty = total_qty;
          fees_paid = p.fees_paid ⊕ fee;
        })
        (div? (p.avg_entry_price ⊗ p.qty ⊕ fill_price ⊗ additional_qty) total_qty)

  unfoldable pub reanchor_position_protection : Position F → F → F → Position F
  reanchor_position_protection p stop_distance target_distance =
      if same_side p.side buy
      then record p {
        stop_loss = some (p.avg_entry_price ⊖ stop_distance);
        take_profit = some (p.avg_entry_price ⊕ target_distance);
      }
      else record p {
        stop_loss = some (p.avg_entry_price ⊕ stop_distance);
        take_profit = some (p.avg_entry_price ⊖ target_distance);
      }

  unfoldable pub close_position : ℕ → Position F → F → F → Position F
  close_position now p realized_pnl_delta closing_fee = record p {
    status = closed;
    realized_pnl = p.realized_pnl ⊕ realized_pnl_delta;
    fees_paid = p.fees_paid ⊕ closing_fee;
    closed_at = some now;
  }

  unfoldable pub reduce_position : Position F → F → F → F → Position F
  reduce_position p reduce_qty realized_pnl_delta fee = record p {
    qty = p.qty ⊖ reduce_qty;
    realized_pnl = p.realized_pnl ⊕ realized_pnl_delta;
    fees_paid = p.fees_paid ⊕ fee;
  }
