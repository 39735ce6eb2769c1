-- ===== src/Orchestrator/Placing.antt =====
-- app/orchestrator.py: how an order is saved, submitted and tracked (`_submit_and_track`), and what a
-- failure of the exchange leads to.
use agente_tradin_ia_v2_mult.Common.{
  ℕ, ◌+◌, String, Bool, not, Option, none, some, [], ◌∷◌, ◌++◌, str_eq, if◌then◌else◌,
}
use agente_tradin_ia_v2_mult.Float.{Float, nought}
use agente_tradin_ia_v2_mult.OrderState.{OrderStatus, pending_submit, submitted, eq_status}
use agente_tradin_ia_v2_mult.Persistence.Models.{Order, SystemState, complete}
use agente_tradin_ia_v2_mult.Persistence.Repo.{Transition, moved, refused, transition_order_status}
use agente_tradin_ia_v2_mult.Execution.Base.{SubmitAck}
use agente_tradin_ia_v2_mult.Execution.Books.{FillApplicationResult}
use agente_tradin_ia_v2_mult.Execution.FillService.{add_count}
use agente_tradin_ia_v2_mult.Risk.Engine.{ApprovedOrder}
use agente_tradin_ia_v2_mult.Api.Control.{store_of}
use agente_tradin_ia_v2_mult.Orchestrator.Desk.{
  Attempt, returned, raised, ◌>>=◌, of_option, Entry, Desk, Exchange, Setting,
}
use agente_tradin_ia_v2_mult.Orchestrator.Reconcile.{apply_report, reconcile}

module _ {F : Type 0} where
  -- `if ack.exchange_order_id`
  abbrev pub adopt_ack : SubmitAck → Order F → Order F
  adopt_ack ack o =
      if str_eq ack.exchange_order_id ""
      then o
      else record o { exchange_order_id = some ack.exchange_order_id }

  abbrev pub map_state : (SystemState → SystemState) → Desk F → Desk F
  map_state g d = record d { store = record d.store { state = g d.store.state } }

-- What submitting an order leaves: the desk, the order's id, the status of the acknowledgement, and
-- what its report did, if it was polled.
pub record Tracked (F : Type 0) : Type 0 where
  pub desk : Desk F
  pub order_id : ℕ
  pub ack_status : OrderStatus
  pub result : Option (FillApplicationResult F)

module _ {F : Type 0} ⦃f : Float F⦄ where
  -- `save_order`; the row is put into the table when it has been tracked.
  abbrev pub new_order : Setting F → ApprovedOrder F → Bool → Desk F → Order F
  new_order env approved is_close d = record {
    id = d.next_order_id;
    risk_evaluation_id = d.next_evaluation_id;
    symbol = approved.symbol;
    side = approved.side;
    qty = approved.qty;
    stop_loss = approved.stop_loss;
    take_profit = approved.take_profit;
    is_close = is_close;
    status = pending_submit;
    exchange_order_id = none;
    mode = env.mode;
    filled_qty = nought;
    avg_fill_price = nought;
    fees_total = nought;
    pending_exchange_status = none;
    fills_sync_status = complete;
  }

  -- The poll that follows an order that is accepted, and what it reports applied.
  unfoldable pub poll_once :
      Setting F → Exchange F → Order F → OrderStatus → Desk F → Attempt (Tracked F)
  unfolding apply_report
  poll_once env x o ack_status d = do
    snap ← of_option (x.poll_order o)
    r ← apply_report env d.store.orders o d.store snap
    returned (record {
      desk = record d { store = store_of (d.store.orders ++ (r.0.order ∷ [])) r.0 };
      order_id = o.id;
      ack_status = ack_status;
      result = some r.1;
    })

  -- What follows the transition to the status of the acknowledgement.
  unfoldable pub after_ack :
      Setting F → Exchange F → OrderStatus → Desk F → Transition F → Attempt (Tracked F)
  unfolding poll_once
  after_ack env x ack_status d (refused _) = raised
  after_ack env x ack_status d (moved o e) =
      let d' = record d { store = record d.store { events = d.store.events ++ (e ∷ []) } } in
      if not (eq_status ack_status submitted)
      then returned (record {
        desk = record d' { store = record d'.store { orders = d'.store.orders ++ (o ∷ []) } };
        order_id = o.id;
        ack_status = ack_status;
        result = none;
      })
      else poll_once env x o ack_status d'

  -- `_submit_and_track`
  unfoldable pub submit_and_track :
      Setting F → Exchange F → Order F → ApprovedOrder F → String → F → Desk F → Attempt (Tracked F)
  unfolding after_ack transition_order_status
  submit_and_track env x o approved key reference_price d = do
    ack ← of_option (x.submit approved key reference_price)
    after_ack env x ack.status (record d { submissions = d.submissions ++ ((approved, key) ∷ []) })
        (transition_order_status (adopt_ack ack o) ack.status)

  -- An order that is saved under its key, counted, submitted and tracked.
  unfoldable pub place_order :
      Setting F → Exchange F → ApprovedOrder F → Bool → String → F → Desk F → Attempt (Tracked F)
  unfolding submit_and_track
  place_order env x approved is_close key reference_price d =
      submit_and_track env x (new_order env approved is_close d) approved key reference_price
        (record d {
          keys = d.keys ++ ((key, d.next_order_id) ∷ []);
          next_order_id = d.next_order_id + 1;
          next_evaluation_id = d.next_evaluation_id + 1;
          orders_count = add_count 1 d.orders_count;
        })

  -- A failure of the exchange: it is counted, and everything is reconciled.
  unfoldable pub fail_order : Setting F → Exchange F → Entry → Desk F → Attempt (Desk F)
  unfolding reconcile
  fail_order env x entry d = reconcile env x (
      map_state (λ s. record s { api_failure_count = s.api_failure_count + 1 })
        (record d {
          journal = d.journal ++ (entry ∷ []);
          failures_count = add_count 1 d.failures_count;
        }))
