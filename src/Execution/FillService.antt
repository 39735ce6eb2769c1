-- ===== src/Execution/FillService.antt =====
-- app/execution/fill_service.py: the one place where a fill is applied to an order and a position.
pub mod Steps
pub mod Status
pub mod Positions
pub mod Fills
pub mod Entries
pub mod Closings
pub mod Totality
pub mod Examples
use mathlib.Core.Option
use agente_tradin_ia_v2_mult.Common.{
  ℕ, ◌+◌, String, Bool, true, false, not, ◌&&◌, ◌||◌, Option, none, some, List, [], ◌∷◌, ◌++◌,
  str_eq, if◌then◌else◌, length,
}
use agente_tradin_ia_v2_mult.Float.{Float, ◌⊕◌, ◌⊖◌, ◌⊗◌, nought, is_positive}
use agente_tradin_ia_v2_mult.OrderState.{OrderStatus, unknown, eq_status, is_terminal}
use agente_tradin_ia_v2_mult.Execution.Base.{OrderStatusSnapshot}
use agente_tradin_ia_v2_mult.Execution.FillLedger.{Recorded, record_new_fills}
use agente_tradin_ia_v2_mult.Execution.Books.{
  Outcome, done, illegal_transition, zero_division, ◌>>=◌, or_zero_division, SecurityEvent,
  late_opposite_fill_blocked, Decision, Books, FillApplicationResult,
}
use agente_tradin_ia_v2_mult.Persistence.Models.{
  Side, buy, same_side, is_set, complete, pending, Order, OrderEvent, Execution, Position,
  SystemState,
}
use agente_tradin_ia_v2_mult.Persistence.Repo.{
  is_open, is_nonempty, Transition, moved, refused, transition_order_status, new_position,
  add_to_position, reanchor_position_protection, close_position, reduce_position,
  has_unknown_orders, recompute_trading_blocked,
}

module _ {F : Type 0} where
  -- `if snapshot.exchange_order_id and not order.exchange_order_id`
  abbrev pub adopt_exchange_id : String → Order F → Order F
  adopt_exchange_id id o =
      if not (str_eq id "") && not (is_set o.exchange_order_id)
      then record o { exchange_order_id = some id }
      else o

  -- The part of the `try` that follows a successful transition.
  abbrev pub finish_sync : Bool → Order F → Order F
  finish_sync terminal o =
      if terminal
      then record o { fills_sync_status = complete; pending_exchange_status = none }
      else o

  -- A transition that is not caught.
  abbrev pub move_to_unknown : Transition F → List OrderEvent → Outcome (Order F × List OrderEvent)
  move_to_unknown (moved o e) events = done (o, events ++ (e ∷ []))
  move_to_unknown (refused _) events = illegal_transition

  -- The `try` and its `except`.
  abbrev pub try_transition :
      Transition F → OrderStatus → Order F → List OrderEvent → Outcome (Order F × List OrderEvent)
  try_transition (moved o' e) new o events =
      done (finish_sync (is_terminal new) o', events ++ (e ∷ []))
  try_transition (refused _) new o events =
      if not (is_terminal o.status)
      then move_to_unknown (transition_order_status o unknown) events
      else done (o, events)

  -- The first part of `apply_order_snapshot`, on the order and its audit rows.
  unfoldable pub settle_status :
      OrderStatusSnapshot F → Order F → List OrderEvent → Outcome (Order F × List OrderEvent)
  unfolding is_terminal transition_order_status
  settle_status snap o events =
      if is_terminal snap.status && not snap.fills_complete
      then done (
        record (adopt_exchange_id snap.exchange_order_id o) {
          pending_exchange_status = some snap.status;
          fills_sync_status = pending;
        },
        events,
      )
      else if not (eq_status snap.status o.status)
      then (let o' = adopt_exchange_id snap.exchange_order_id o in
          try_transition (transition_order_status o' snap.status) snap.status o' events)
      else done (o, events)

-- `increment(op_session, "fills_count", by)`, on the counter of the session, if there is one.
abbrev pub add_count : ℕ → Option ℕ → Option ℕ
add_count by none = none
add_count by (some n) = some (n + by)

-- The variables of the loop over the new rows.
pub record Applying (F : Type 0) : Type 0 where
  pub before : List (Position F)
  pub position : Option (Position F)
  pub behind : List (Position F)
  pub state_ambiguous : Bool
  pub security_events : List SecurityEvent
  pub realized_pnl_delta_total : F
  pub closed_fully : Option Bool

module _ {F : Type 0} ⦃f : Float F⦄ where
  abbrev pub both_positive : Option F → Option F → Option (F × F)
  both_positive (some s) (some t) = if is_positive s && is_positive t then some (s, t) else none
  both_positive _ _ = none

  -- `_frozen_protection_distances`, from the decision's snapshot.
  unfoldable pub frozen_protection_distances : Option (Decision F) → Option (F × F)
  frozen_protection_distances none = none
  frozen_protection_distances (some d) =
      both_positive d.stop_distance_per_unit d.target_distance_per_unit

  -- `_reanchor`
  unfoldable pub reanchor : Option (F × F) → Position F → Position F
  unfolding reanchor_position_protection
  reanchor none p = p
  reanchor (some (s, t)) p = reanchor_position_protection p s t

  -- A new row of an entry order.
  unfoldable pub apply_entry :
      Option (F × F)
      → Order F
      → Execution F
      → Option (Position F)
      → Applying F
      → Outcome (Applying F)
  unfolding reanchor new_position add_to_position
  apply_entry protection o row none a =
      let p =
        new_position o.symbol o.side row.fill_qty row.fill_price o.stop_loss o.take_profit
          row.fee in
      done (record a { position = some (reanchor protection p) })
  apply_entry protection o row (some p) a =
      if not (same_side p.side o.side)
      then done (record a {
        state_ambiguous = true;
        security_events = a.security_events ++ (late_opposite_fill_blocked o.id ∷ []);
      })
      else (or_zero_division (add_to_position p row.fill_qty row.fill_price row.fee) >>= λ p'.
          done (record a { position = some (reanchor protection p') }))

  -- `direction * (fill_price - avg_entry_price) * fill_qty`, with the direction 1 or -1.
  unfoldable pub realized_delta : Position F → Execution F → F
  realized_delta p row =
      let move = row.fill_price ⊖ p.avg_entry_price in
      (if same_side p.side buy then move else nought ⊖ move) ⊗ row.fill_qty

  -- `fill_qty >= position.qty - 1e-9`
  abbrev pub closes_fully : Position F → Execution F → Bool
  closes_fully p row = f.le (p.qty ⊖ f.literal 1 9) row.fill_qty

  -- A new row of a closing order.
  unfoldable pub apply_close : ℕ → Execution F → Option (Position F) → Applying F → Applying F
  unfolding realized_delta close_position reduce_position
  apply_close now row none a = a
  apply_close now row (some p) a =
      let delta = realized_delta p row in
      let total = a.realized_pnl_delta_total ⊕ delta in
      if closes_fully p row
      then record a {
        before = a.before ++ (close_position now p delta row.fee ∷ a.behind);
        position = none;
        behind = [];
        realized_pnl_delta_total = total;
        closed_fully = some true;
      }
      else record a {
        position = some (reduce_position p row.fill_qty delta row.fee);
        realized_pnl_delta_total = total;
        closed_fully = some false;
      }

  unfoldable pub apply_row :
      Bool → ℕ → Option (F × F) → Order F → Execution F → Applying F → Outcome (Applying F)
  unfolding apply_entry apply_close
  apply_row is_close now protection o row a =
      if not is_close
      then apply_entry protection o row a.position a
      else done (apply_close now row a.position a)

  unfoldable pub apply_rows :
      Bool → ℕ → Option (F × F) → Order F → List (Execution F) → Applying F → Outcome (Applying F)
  unfolding apply_row
  apply_rows is_close now protection o [] a = done a
  apply_rows is_close now protection o (row ∷ rows) a =
      apply_row is_close now protection o row a >>= apply_rows is_close now protection o rows

  abbrev pub applying : Books F → Applying F
  applying b = record {
    before = b.before;
    position = b.position;
    behind = b.behind;
    state_ambiguous = b.state.state_ambiguous;
    security_events = b.security_events;
    realized_pnl_delta_total = nought;
    closed_fully = none;
  }

  -- The last part: the block causes are derived again, and the result is put together.
  unfoldable pub conclude :
      ℕ → Books F → List OrderEvent → Recorded F → Applying F → Books F × FillApplicationResult F
  unfolding has_unknown_orders recompute_trading_blocked
  conclude max_api_failures b events r a =
      let state = record b.state {
        state_ambiguous = a.state_ambiguous;
        order_state_unknown = has_unknown_orders (r.order ∷ b.other_orders);
      } in
      (
        record b {
          state = recompute_trading_blocked state max_api_failures;
          fills_count =
              if is_nonempty r.new_rows
              then add_count (length r.new_rows) b.fills_count
              else b.fills_count;
          order = r.order;
          events = events;
          executions = r.executions;
          before = a.before;
          position = a.position;
          behind = a.behind;
          security_events = a.security_events;
        },
        record {
          status = r.order.status;
          new_fill_count = length r.new_rows;
          realized_pnl_delta_total = a.realized_pnl_delta_total;
          closed_fully = a.closed_fully;
        },
      )

  unfoldable pub apply_order_snapshot :
      ℕ
      → ℕ
      → Option (Decision F)
      → Bool
      → OrderStatusSnapshot F
      → Books F
      → Outcome (Books F × FillApplicationResult F)
  unfolding settle_status record_new_fills frozen_protection_distances apply_rows conclude
  apply_order_snapshot now max_api_failures decision is_close snap b = do
    settled ← settle_status snap b.order b.events
    let r = record_new_fills settled.0 b.executions now snap.fills
    a ←
        apply_rows is_close now (frozen_protection_distances decision) r.order r.new_rows
          (applying b)
    done (conclude max_api_failures b settled.1 r a)
