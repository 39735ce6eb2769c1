-- ===== src/Api/Control.antt =====
-- app/api/routes_control.py: what the operator can do to the running system. A request runs in one
-- `session_scope` (app/persistence/db.py), which keeps the state only if nothing is raised. The
-- answers in words are left out, and so is the reconciliation that ends `engage_kill_switch`.
pub mod KillSwitch
use agente_tradin_ia_v2_mult.Common.{
  ℕ, String, Bool, true, false, not, ◌&&◌, ◌||◌, ◌==◌, Option, none, some, List, [], ◌∷◌, ◌++◌,
  str_eq, if◌then◌else◌,
}
use agente_tradin_ia_v2_mult.Float.{Float}
use agente_tradin_ia_v2_mult.OrderState.{
  OrderStatus, cancelled, cancel_pending, contains, eq_status, non_terminal_statuses,
}
use agente_tradin_ia_v2_mult.Execution.Base.{OrderStatusSnapshot}
use agente_tradin_ia_v2_mult.Execution.Books.{
  Outcome, done, illegal_transition, zero_division, ◌>>=◌, SecurityEvent, Decision, Books,
  FillApplicationResult,
}
use agente_tradin_ia_v2_mult.Execution.FillService.{apply_order_snapshot}
use agente_tradin_ia_v2_mult.Persistence.Models.{
  is_set, Order, OrderEvent, Execution, Position, OperationalState, observando, ativo, pausado,
  SystemState,
}
use agente_tradin_ia_v2_mult.Persistence.Repo.{
  Transition, moved, refused, transition_order_status, is_open, is_nonempty, has_unknown_orders,
  recompute_trading_blocked,
}

-- The tables that a request works on.
pub record Store (F : Type 0) : Type 0 where
  pub state : SystemState
  pub fills_count : Option ℕ
  pub orders : List (Order F)
  pub events : List OrderEvent
  pub executions : List (Execution F)
  pub positions : List (Position F)
  pub security_events : List SecurityEvent

-- A table of positions, split at the first open row of a symbol.
pub record Focus (F : Type 0) : Type 0 where
  pub before : List (Position F)
  pub position : Option (Position F)
  pub behind : List (Position F)

abbrev pub option_list : {A : Type 0} → Option A → List A
option_list none = []
option_list (some a) = a ∷ []

module _ {F : Type 0} where
  abbrev pub focus_on : String → List (Position F) → Focus F
  focus_on symbol [] = record { before = []; position = none; behind = [] }
  focus_on symbol (p ∷ ps) =
      let rest = focus_on symbol ps in
      if is_open p.status && str_eq p.symbol symbol
      then record { before = []; position = some p; behind = ps }
      else record rest { before = p ∷ rest.before }

  -- The books around an order, and the tables they leave.
  abbrev pub books : Store F → Order F → List (Order F) → Books F
  books st o others =
      let at = focus_on o.symbol st.positions in
      record {
        state = st.state;
        fills_count = st.fills_count;
        order = o;
        other_orders = others;
        events = st.events;
        executions = st.executions;
        before = at.before;
        position = at.position;
        behind = at.behind;
        security_events = st.security_events;
      }

  abbrev pub store_of : List (Order F) → Books F → Store F
  store_of orders b = record {
    state = b.state;
    fills_count = b.fills_count;
    orders = orders;
    events = b.events;
    executions = b.executions;
    positions = b.before ++ (option_list b.position ++ b.behind);
    security_events = b.security_events;
  }

  -- An order that the loop works on.
  abbrev pub is_cancelled_remotely : String → Order F → Bool
  is_cancelled_remotely mode o =
      contains non_terminal_statuses o.status && str_eq o.mode mode && is_set o.exchange_order_id

-- What the code outside this repository and the configuration give: the trading mode, the instant,
-- the limit on API failures, the stored decision behind an order, and what `poll_order` reports.
pub record Surroundings (F : Type 0) : Type 0 where
  pub mode : String
  pub now : ℕ
  pub max_api_failures : ℕ
  pub decision_of : Order F → Option (Decision F)
  pub poll_order : Order F → OrderStatusSnapshot F

module _ {F : Type 0} ⦃f : Float F⦄ where
  -- What follows the transition: the request, the poll, and what it reports applied.
  unfoldable pub after_transition :
      Surroundings F
      → List (Order F)
      → Store F
      → Transition F
      → Outcome (Books F × FillApplicationResult F)
  after_transition env others st (moved o e) =
      apply_order_snapshot env.now env.max_api_failures (env.decision_of o) o.is_close
        (env.poll_order o) (books (record st { events = st.events ++ (e ∷ []) }) o others)
  after_transition env others st (refused _) = illegal_transition

  unfoldable pub cancel_order :
      Surroundings F
      → List (Order F)
      → Order F
      → Store F
      → Outcome (Books F × FillApplicationResult F)
  unfolding after_transition
  cancel_order env others o st =
      after_transition env others st (transition_order_status o cancel_pending)

  -- The loop over the orders of the mode; `behind` has been gone through. It gives the tables and the
  -- ids of the orders that are cancelled.
  unfoldable pub cancel_orders :
      Surroundings F → List (Order F) → List (Order F) → Store F → Outcome (Store F × List ℕ)
  unfolding cancel_order
  cancel_orders env behind [] st = done (record st { orders = behind }, [])
  cancel_orders env behind (o ∷ os) st =
      if is_cancelled_remotely env.mode o
      then (cancel_order env (behind ++ os) o st >>= λ r.
          cancel_orders env (behind ++ (r.0.order ∷ [])) os
            (store_of (behind ++ (r.0.order ∷ os)) r.0)
          >>= λ rest.
              done (rest.0, if eq_status r.1.status cancelled then o.id ∷ rest.1 else rest.1))
      else cancel_orders env (behind ++ (o ∷ [])) os st

  -- `engage_kill_switch`, up to the reconciliation.
  unfoldable pub engage_kill_switch : Surroundings F → Store F → Outcome (Store F × List ℕ)
  unfolding cancel_orders recompute_trading_blocked
  engage_kill_switch env st =
      let engaged =
        recompute_trading_blocked (record st.state { kill_switch_engaged = true })
          env.max_api_failures in
      cancel_orders env [] st.orders (record st { state = engaged }) >>= λ r.
      let state =
        recompute_trading_blocked
          (record r.0.state { order_state_unknown = has_unknown_orders r.0.orders })
          env.max_api_failures in
      done (record r.0 { state = state }, r.1)

  -- What `session_scope` leaves of a request that may raise.
  abbrev pub commit : {A : Type 0} → Store F → Outcome (Store F × A) → Store F
  commit st (done r) = r.0
  commit st illegal_transition = st
  commit st zero_division = st
