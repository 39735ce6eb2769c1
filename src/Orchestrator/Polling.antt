-- ===== src/Orchestrator/Polling.antt =====
-- app/orchestrator.py: `_maybe_poll_open_orders` and `_maybe_apply_partial_fill_policy`. Here no
-- exception is caught.
use agente_tradin_ia_v2_mult.Common.{
  ℕ, ◌-◌, Bool, true, false, not, ◌&&◌, Option, none, some, List, [], ◌∷◌, ◌++◌, ltb, leb,
  if◌then◌else◌,
}
use agente_tradin_ia_v2_mult.Float.{Float}
use agente_tradin_ia_v2_mult.OrderState.{partially_filled, cancel_pending, eq_status}
use agente_tradin_ia_v2_mult.Persistence.Models.{Order}
use agente_tradin_ia_v2_mult.Persistence.Repo.{Transition, moved, refused, transition_order_status}
use agente_tradin_ia_v2_mult.Api.Control.{Store, store_of, is_cancelled_remotely}
use agente_tradin_ia_v2_mult.Orchestrator.Desk.{
  Attempt, returned, raised, ◌>>=◌, of_option, Desk, Exchange, Setting,
}
use agente_tradin_ia_v2_mult.Orchestrator.Reconcile.{apply_report}

pub data PartialFillPolicy : Type 0 where
  wait cancel_remainder expire_and_cancel : PartialFillPolicy

abbrev pub is_wait : PartialFillPolicy → Bool
is_wait wait = true
is_wait _ = false

-- The settings of the polling, and how long ago an order was changed.
pub record Polling (F : Type 0) : Type 0 where
  pub open_order_poll_interval : ℕ
  pub partial_fill_policy : PartialFillPolicy
  pub partial_fill_timeout : ℕ
  pub stalled_for : Order F → ℕ

abbrev pub is_due : ℕ → ℕ → Option ℕ → Bool
is_due now interval none = true
is_due now interval (some last) = leb interval (now - last)

module _ {F : Type 0} ⦃f : Float F⦄ where
  -- What follows the transition: the request to cancel, the poll, and its report applied.
  unfoldable pub cancel_remainder_of :
      Setting F → Exchange F → List (Order F) → Store F → Transition F → Attempt (Order F × Store F)
  unfolding apply_report
  cancel_remainder_of env x others st (refused _) = raised
  cancel_remainder_of env x others st (moved o e) = do
    snap ← of_option (x.poll_order o)
    r ← apply_report env others o (record st { events = st.events ++ (e ∷ []) }) snap
    returned (r.0.order, store_of [] r.0)

  -- `_maybe_apply_partial_fill_policy`
  unfoldable pub maybe_apply_partial_fill_policy :
      Setting F
      → Exchange F
      → Polling F
      → List (Order F)
      → Order F
      → Store F
      → Attempt (Order F × Store F)
  unfolding cancel_remainder_of transition_order_status
  maybe_apply_partial_fill_policy env x polling others o st =
      if eq_status o.status partially_filled
        && not (is_wait polling.partial_fill_policy)
        && ltb polling.partial_fill_timeout (polling.stalled_for o)
      then cancel_remainder_of env x others st (transition_order_status o cancel_pending)
      else returned (o, st)

  -- The poll of one order, and the policy.
  unfoldable pub poll_open_order :
      Setting F
      → Exchange F
      → Polling F
      → List (Order F)
      → Order F
      → Store F
      → Attempt (Order F × Store F)
  unfolding apply_report maybe_apply_partial_fill_policy
  poll_open_order env x polling others o st = do
    snap ← of_option (x.poll_order o)
    r ← apply_report env others o st snap
    maybe_apply_partial_fill_policy env x polling others r.0.order (store_of [] r.0)

  -- The loop over the open orders; `behind` has been gone through.
  unfoldable pub poll_open_orders :
      Setting F
      → Exchange F
      → Polling F
      → List (Order F)
      → List (Order F)
      → Store F
      → Attempt (Store F)
  unfolding poll_open_order
  poll_open_orders env x polling behind [] st = returned (record st { orders = behind })
  poll_open_orders env x polling behind (o ∷ os) st = elim (is_cancelled_remotely env.mode o) [
    | false ↦ poll_open_orders env x polling (behind ++ (o ∷ [])) os st
    | true ↦ poll_open_order env x polling (behind ++ os) o st >>= λ r.
        poll_open_orders env x polling (behind ++ (r.0 ∷ [])) os r.1
  ]

  -- `_maybe_poll_open_orders`, with the instant of the last polling.
  unfoldable pub maybe_poll_open_orders :
      Setting F → Exchange F → Polling F → Option ℕ → Desk F → Attempt (Desk F × Option ℕ)
  unfolding poll_open_orders
  maybe_poll_open_orders env x polling last d =
      if is_due env.now polling.open_order_poll_interval last
      then (poll_open_orders env x polling [] d.store.orders d.store >>= λ st.
          returned (record d { store = st }, some env.now))
      else returned (d, last)
