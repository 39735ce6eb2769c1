-- ===== src/Api/Control/KillSwitch.antt =====
-- What engaging the kill switch guarantees, and the orders it fails on.
use agente_tradin_ia_v2_mult.Common.{
  ℕ, Bool, true, Option, List, [], ◌∷◌, ◌++◌, ◌≡◌, ◌≢◌, ◌⊎◌, inl, inr, refl, sym, ap, ◌∙◌, arith,
  All, Bool-cases,
}
use agente_tradin_ia_v2_mult.Float.{Float}
use agente_tradin_ia_v2_mult.OrderState.{
  filled, rejected, IllegalTransition, illegal, OrderStatus, submitted, partially_filled, unknown,
  pending_submit, cancel_pending, cancelled, validate_transition,
}
use agente_tradin_ia_v2_mult.Execution.Base.{OrderStatusSnapshot}
use agente_tradin_ia_v2_mult.Execution.FillLedger.{record_new_fills, Recorded}
use agente_tradin_ia_v2_mult.Execution.Books.{
  done, illegal_transition, Books, Decision, FillApplicationResult,
}
use agente_tradin_ia_v2_mult.Execution.FillService.{Applying, conclude, apply_order_snapshot}
use agente_tradin_ia_v2_mult.Execution.FillService.Steps.{
  apply_order_snapshot-Applied, >>=-eq-done, >>=-ne-illegal, done-injective, done-ne-illegal,
}
use agente_tradin_ia_v2_mult.Execution.FillService.Status.{apply_order_snapshot-ne-illegal}
use agente_tradin_ia_v2_mult.Persistence.Models.{Order, OrderEvent}
use agente_tradin_ia_v2_mult.Persistence.Repo.{
  Transition, moved, refused, transition_order_status, has_unknown_orders,
}
use agente_tradin_ia_v2_mult.Persistence.SystemBlock.{blocked_iff_cause}
use agente_tradin_ia_v2_mult.Api.Control.{
  after_transition, Store, Surroundings, books, store_of, is_cancelled_remotely, cancel_order,
  cancel_orders, engage_kill_switch,
}

-- The statuses that a cancellation may start from.
abbrev pub IsCancellable : OrderStatus → Type 0
IsCancellable s = (s ≡ submitted) ⊎ (s ≡ partially_filled) ⊎ (s ≡ unknown)

validate_cases :
    (s : OrderStatus)
    → IsCancellable s
      ⊎ ((e : IllegalTransition) × (validate_transition s cancel_pending ≡ illegal e))
unfolding validate_transition
validate_cases pending_submit = inr (_, refl)
validate_cases submitted = inl (inl refl)
validate_cases partially_filled = inl (inr (inl refl))
validate_cases filled = inr (_, refl)
validate_cases cancel_pending = inr (_, refl)
validate_cases cancelled = inr (_, refl)
validate_cases rejected = inr (_, refl)
validate_cases unknown = inl (inr (inr refl))

module _ {F : Type 0} ⦃f : Float F⦄ where
  conclude-engaged :
      (m : ℕ) (b : Books F) (events : List OrderEvent) (rec : Recorded F) (a : Applying F)
      → (conclude m b events rec a).0.state.kill_switch_engaged ≡ b.state.kill_switch_engaged
  unfolding conclude
  conclude-engaged m b events rec a = refl

  apply_order_snapshot-engaged :
      (now m : ℕ) (d : Option (Decision F)) (c : Bool) (snap : OrderStatusSnapshot F) (b : Books F)
      {r : Books F × FillApplicationResult F}
      → apply_order_snapshot now m d c snap b ≡ done r
      → r.0.state.kill_switch_engaged ≡ b.state.kill_switch_engaged
  apply_order_snapshot-engaged now m d c snap b {r} e =
      let s = apply_order_snapshot-Applied now m d c snap b e in
      rw s.result (
        conclude-engaged m b s.events (record_new_fills s.order b.executions now snap.fills) s.loop)

  after_transition-engaged :
      (env : Surroundings F) (others : List (Order F)) (st : Store F) (t : Transition F)
      {r : Books F × FillApplicationResult F}
      → after_transition env others st t ≡ done r
      → r.0.state.kill_switch_engaged ≡ st.state.kill_switch_engaged
  unfolding after_transition
  after_transition-engaged env others st (moved o e) {r} h =
      apply_order_snapshot-engaged env.now env.max_api_failures (env.decision_of o) o.is_close
        (env.poll_order o) (books (record st { events = st.events ++ (e ∷ []) }) o others) h
  after_transition-engaged env others st (refused _) h = cc

  cancel_order-IsCancellable :
      (env : Surroundings F) (others : List (Order F)) (o : Order F) (st : Store F)
      {r : Books F × FillApplicationResult F}
      → cancel_order env others o st ≡ done r
      → IsCancellable o.status
  unfolding cancel_order transition_order_status
  cancel_order-IsCancellable env others o st {r} h = elim (validate_cases o.status) [
    | inl c ↦ c
    | inr i ↦ absurd (ground (arith, i.1, h))
  ]

  pub cancel_order-engaged :
      (env : Surroundings F) (others : List (Order F)) (o : Order F) (st : Store F)
      {r : Books F × FillApplicationResult F}
      → cancel_order env others o st ≡ done r
      → r.0.state.kill_switch_engaged ≡ st.state.kill_switch_engaged
  unfolding cancel_order
  cancel_order-engaged env others o st h = after_transition-engaged env others st _ h

  cancel_orders_inv :
      (env : Surroundings F) (os behind : List (Order F)) (st : Store F) {r : Store F × List ℕ}
      → cancel_orders env behind os st ≡ done r
      → All (λ o. is_cancelled_remotely env.mode o ≡ true → IsCancellable o.status) os
        × (r.0.state.kill_switch_engaged ≡ st.state.kill_switch_engaged)
  unfolding cancel_orders
  cancel_orders_inv env [] behind st {r} e =
      (tt, ap (λ p. p.0.state.kill_switch_engaged) (sym (done-injective e)))
  cancel_orders_inv env (o ∷ os) behind st {r} e =
      elim (Bool-cases (is_cancelled_remotely env.mode o)) [
        | inl t ↦
            let e' = rw t at e in
            let c = >>=-eq-done (cancel_order env (behind ++ os) o st) _ e' in
            let l = >>=-eq-done (cancel_orders env _ os _) _ c.2 in
            let rest = cancel_orders_inv env os _ _ l.1 in
            (
              (λ _. cancel_order-IsCancellable env (behind ++ os) o st c.1, rest.0),
              ap (λ p. p.0.state.kill_switch_engaged) (sym (done-injective l.2))
                  ∙ rest.1
                  ∙ cancel_order-engaged env (behind ++ os) o st c.1,
            )
        | inr n ↦
            let rest = cancel_orders_inv env os _ st (rw n at e) in
            ((λ t. absurd (ground (arith, t, n)), rest.0), rest.1)
      ]

  after_transition-ne-illegal :
      (env : Surroundings F) (others : List (Order F)) (st : Store F) (o : Order F) (e : OrderEvent)
      → after_transition env others st (moved o e) ≢ illegal_transition
  unfolding after_transition
  after_transition-ne-illegal env others st o e =
      apply_order_snapshot-ne-illegal env.now env.max_api_failures (env.decision_of o) o.is_close
        (env.poll_order o) (books (record st { events = st.events ++ (e ∷ []) }) o others)

  cancel_order-ne-illegal :
      (env : Surroundings F) (others : List (Order F)) (o : Order F) (st : Store F)
      → IsCancellable o.status
      → cancel_order env others o st ≢ illegal_transition
  unfolding cancel_order transition_order_status validate_transition
  cancel_order-ne-illegal env others o st (inl s) =
      rw s (after_transition-ne-illegal env others st _ _)
  cancel_order-ne-illegal env others o st (inr (inl s)) =
      rw s (after_transition-ne-illegal env others st _ _)
  cancel_order-ne-illegal env others o st (inr (inr s)) =
      rw s (after_transition-ne-illegal env others st _ _)

  cancel_orders-ne-illegal :
      (env : Surroundings F) (os behind : List (Order F)) (st : Store F)
      → All (λ o. is_cancelled_remotely env.mode o ≡ true → IsCancellable o.status) os
      → cancel_orders env behind os st ≢ illegal_transition
  unfolding cancel_orders
  cancel_orders-ne-illegal env [] behind st h = done-ne-illegal _
  cancel_orders-ne-illegal env (o ∷ os) behind st h =
      elim (Bool-cases (is_cancelled_remotely env.mode o)) [
        | inl t ↦ rw t (
            >>=-ne-illegal (cancel_order env (behind ++ os) o st) _
              (cancel_order-ne-illegal env (behind ++ os) o st (h.0 t))
              (λ r.
                >>=-ne-illegal
                  (cancel_orders env (behind ++ (r.0.order ∷ [])) os
                    (store_of (behind ++ (r.0.order ∷ os)) r.0))
                  _ (cancel_orders-ne-illegal env os _ _ h.1) (λ rest. done-ne-illegal _)))
        | inr n ↦ rw n (cancel_orders-ne-illegal env os _ st h.1)
      ]

  -- A call to `engage_kill_switch` that is not rolled back leaves the kill switch engaged and
  -- trading blocked.
  pub engage_kill_switch-blocked :
      (env : Surroundings F) (st : Store F) {r : Store F × List ℕ}
      → engage_kill_switch env st ≡ done r
      → (r.0.state.kill_switch_engaged ≡ true) × (r.0.state.trading_blocked ≡ true)
  unfolding engage_kill_switch
  engage_kill_switch-blocked env st {r} e =
      let l = >>=-eq-done _ _ e in
      let k = (cancel_orders_inv env st.orders [] _ l.1).1 in
      let eq = sym (done-injective l.2) in
      let s = record l.0.0.state { order_state_unknown = has_unknown_orders l.0.0.orders } in
      (
        ap (λ p. p.0.state.kill_switch_engaged) eq ∙ k,
        ap (λ p. p.0.state.trading_blocked) eq
            ∙ (blocked_iff_cause s env.max_api_failures).1 (inl k),
      )

  -- Take the non-terminal orders of the mode that have an exchange id. If all are in SUBMITTED,
  -- PARTIALLY_FILLED or UNKNOWN, engaging the kill switch raises no `IllegalOrderTransitionError`; and
  -- if it succeeds, they all are. So with one in PENDING_SUBMIT or CANCEL_PENDING it does not succeed.
  pub engage_kill_switch-IsCancellable :
      (env : Surroundings F) (st : Store F)
      → (All (λ o. is_cancelled_remotely env.mode o ≡ true → IsCancellable o.status) st.orders
          → engage_kill_switch env st ≢ illegal_transition)
        × ((r : Store F × List ℕ)
            → engage_kill_switch env st ≡ done r
            → All (λ o. is_cancelled_remotely env.mode o ≡ true → IsCancellable o.status) st.orders)
  unfolding engage_kill_switch
  engage_kill_switch-IsCancellable env st = (
    λ h.
        >>=-ne-illegal (cancel_orders env [] st.orders _) _
          (cancel_orders-ne-illegal env st.orders [] _ h) (λ r. done-ne-illegal _),
    λ r e. (cancel_orders_inv env st.orders [] _ (>>=-eq-done _ _ e).1).0,
  )
