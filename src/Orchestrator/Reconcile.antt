-- ===== src/Orchestrator/Reconcile.antt =====
-- app/orchestrator.py: `reconcile` and its two steps. An exception of the fill service within the
-- second step, which would leave its changes half done, is taken to leave the tick.
pub mod Clearing
pub mod Sides
pub mod Examples
use agente_tradin_ia_v2_mult.Common.{
  ℕ, ◌+◌, String, Bool, true, false, not, ◌&&◌, Option, none, some, List, [], ◌∷◌, ◌++◌, str_eq,
  if◌then◌else◌,
}
use agente_tradin_ia_v2_mult.Float.{Float}
use agente_tradin_ia_v2_mult.OrderState.{contains, non_terminal_statuses}
use agente_tradin_ia_v2_mult.Persistence.Models.{is_set, Order, Position, SystemState}
use agente_tradin_ia_v2_mult.Persistence.Repo.{
  is_open, is_nonempty, non_terminal_orders, recompute_trading_blocked,
}
use agente_tradin_ia_v2_mult.Execution.Base.{OrderStatusSnapshot}
use agente_tradin_ia_v2_mult.Execution.Books.{Books, FillApplicationResult}
use agente_tradin_ia_v2_mult.Execution.FillService.{apply_order_snapshot, add_count}
use agente_tradin_ia_v2_mult.Execution.Reconciliation.{
  PositionView, OrderView, Mismatch, Dict, get, set, reconcile_positions, reconcile_orders,
}
use agente_tradin_ia_v2_mult.Api.Control.{Store, books, store_of, is_cancelled_remotely}
use agente_tradin_ia_v2_mult.Orchestrator.Desk.{
  Attempt, returned, raised, ◌>>=◌, of_outcome, Entry, positions_unreachable, orders_unreachable,
  positions_compared, orders_compared, Desk, Exchange, Setting, add_symbol,
}

module _ {F : Type 0} where
  -- All open positions, whatever their symbol, as the reconciliation reads them.
  unfoldable pub open_views : List (Position F) → List (PositionView F)
  open_views [] = []
  open_views (p ∷ ps) =
      let rest = open_views ps in
      if is_open p.status
      then record {
        symbol = p.symbol;
        side = p.side;
        qty = p.qty;
        avg_entry_price = some p.avg_entry_price;
      }
        ∷ rest
      else rest

  abbrev pub symbols_of_views : List (PositionView F) → List String → List String
  symbols_of_views [] symbols = symbols
  symbols_of_views (v ∷ vs) symbols = symbols_of_views vs (add_symbol v.symbol symbols)

  abbrev pub symbols_of_orders : List (Order F) → List String → List String
  symbols_of_orders [] symbols = symbols
  symbols_of_orders (o ∷ os) symbols = symbols_of_orders os (add_symbol o.symbol symbols)

  -- The open orders that have an exchange id, as the reconciliation reads them.
  unfoldable pub order_views : List (Order F) → List (OrderView F)
  order_views [] = []
  order_views (o ∷ os) =
      let rest = order_views os in
      if is_set o.exchange_order_id
      then record { exchange_order_id = o.exchange_order_id; side = o.side; qty = o.qty } ∷ rest
      else rest

  -- `remote_by_symbol`, and `remote_open_orders`; none if the exchange raises.
  unfoldable pub fetch_positions :
      Exchange F
      → List String
      → Dict (Option (PositionView F))
      → Option (Dict (Option (PositionView F)))
  fetch_positions x [] d = some d
  fetch_positions x (s ∷ ss) d = elim (x.get_position s) [
    | none ↦ none
    | some p ↦ fetch_positions x ss (set s p d)
  ]

  unfoldable pub fetch_orders :
      Exchange F → List String → List (OrderView F) → Option (List (OrderView F))
  fetch_orders x [] found = some found
  fetch_orders x (s ∷ ss) found = elim (x.list_open_orders s) [
    | none ↦ none
    | some os ↦ fetch_orders x ss (found ++ os)
  ]

-- `True`, among `True`, `False` and `None`.
abbrev pub is_true : Option Bool → Bool
is_true none = false
is_true (some b) = b

abbrev pub is_given : Option Bool → Bool
is_given none = false
is_given (some _) = true

-- What the two halves make of the state.
unfoldable pub settle_state : ℕ → Option Bool → Option Bool → SystemState → SystemState
unfolding recompute_trading_blocked
settle_state max_api_failures position_ok order_ok s =
    let diverged = not (is_true position_ok && is_true order_ok) in
    recompute_trading_blocked
      (record s {
        initialization_not_reconciled =
            if is_given position_ok then false else s.initialization_not_reconciled;
        reconciliation_diverged = diverged;
        state_ambiguous = diverged;
      })
      max_api_failures

module _ {F : Type 0} ⦃f : Float F⦄ where
  -- What a comparison of positions comes to.
  unfoldable pub compare_fetched :
      List (PositionView F) → Option (Dict (Option (PositionView F))) → Entry × Option Bool
  compare_fetched views none = (positions_unreachable, none)
  compare_fetched views (some remote) =
      let mismatches = reconcile_positions views remote in
      (positions_compared mismatches, some (not (is_nonempty mismatches)))

  -- `_reconcile_positions_step`
  unfoldable pub reconcile_positions_step : Setting F → Exchange F → Desk F → Desk F × Option Bool
  unfolding open_views fetch_positions compare_fetched
  reconcile_positions_step env x d =
      let views = open_views d.store.positions in
      let symbols = add_symbol env.symbol (symbols_of_views views []) in
      let r = compare_fetched views (fetch_positions x symbols []) in
      (record d { journal = d.journal ++ (r.0 ∷ []) }, r.1)

  -- What a report on one order does to the tables.
  unfoldable pub apply_report :
      Setting F
      → List (Order F)
      → Order F
      → Store F
      → OrderStatusSnapshot F
      → Attempt (Books F × FillApplicationResult F)
  unfolding apply_order_snapshot
  apply_report env others o st snap = of_outcome (
      apply_order_snapshot env.now env.max_api_failures (env.decision_of o) o.is_close snap
        (books st o others))

  -- The loop that polls the open orders again; `behind` has been gone through. It tells whether the
  -- exchange answered each time.
  unfoldable pub repoll :
      Setting F → Exchange F → List (Order F) → List (Order F) → Store F → Attempt (Store F × Bool)
  unfolding apply_report
  repoll env x behind [] st = returned (record st { orders = behind }, true)
  repoll env x behind (o ∷ os) st = elim (is_cancelled_remotely env.mode o) [
    | false ↦ repoll env x (behind ++ (o ∷ [])) os st
    | true ↦ elim (x.poll_order o) [
      | none ↦ returned (record st { orders = behind ++ (o ∷ os) }, false)
      | some snap ↦ apply_report env (behind ++ os) o st snap >>= λ r.
          repoll env x (behind ++ (r.0.order ∷ [])) os (store_of (behind ++ (r.0.order ∷ os)) r.0)
    ]
  ]

  unfoldable pub compare_open_orders :
      List (OrderView F) → Option (List (OrderView F)) → Entry × Option Bool
  compare_open_orders views none = (orders_unreachable, none)
  compare_open_orders views (some remote) =
      let mismatches = reconcile_orders views remote in
      (orders_compared mismatches, some (not (is_nonempty mismatches)))

  -- The part of `_reconcile_orders_step` that follows the loop.
  unfoldable pub compare_after_repoll :
      Setting F → Exchange F → List String → Desk F → Store F × Bool → Desk F × Option Bool
  unfolding order_views fetch_orders compare_open_orders
  compare_after_repoll env x symbols d (st, false) =
      (record d { store = st; journal = d.journal ++ (orders_unreachable ∷ []) }, none)
  compare_after_repoll env x symbols d (st, true) =
      let r =
        compare_open_orders (order_views (non_terminal_orders env.mode st.orders))
          (fetch_orders x symbols []) in
      (record d { store = st; journal = d.journal ++ (r.0 ∷ []) }, r.1)

  -- `_reconcile_orders_step`
  unfoldable pub reconcile_orders_step :
      Setting F → Exchange F → Desk F → Attempt (Desk F × Option Bool)
  unfolding repoll compare_after_repoll
  reconcile_orders_step env x d =
      let symbols =
        add_symbol env.symbol
          (symbols_of_orders (non_terminal_orders env.mode d.store.orders) []) in
      repoll env x [] d.store.orders d.store >>= λ r.
      returned (compare_after_repoll env x symbols d r)

  unfoldable pub reconcile : Setting F → Exchange F → Desk F → Attempt (Desk F)
  unfolding reconcile_positions_step reconcile_orders_step settle_state
  reconcile env x d =
      let begun = record d {
        reconciliations_count = add_count 1 d.reconciliations_count;
        last_reconciliation_at = some env.now;
      } in
      let p = reconcile_positions_step env x begun in
      reconcile_orders_step env x p.0 >>= λ q. returned (record q.0 {
        store = record q.0.store {
          state = settle_state env.max_api_failures p.1 q.1 q.0.store.state;
        };
      })
