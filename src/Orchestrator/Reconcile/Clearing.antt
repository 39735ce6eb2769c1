-- ===== src/Orchestrator/Reconcile/Clearing.antt =====
-- When a reconciliation clears the state.
use agente_tradin_ia_v2_mult.Common.{
  ℕ, String, Bool, true, false, not, Option, none, some, List, [], ◌∷◌, ◌≡◌, ◌↔◌, refl, sym, ap,
  ◌∙◌, subst, some_injective, arith,
}
use agente_tradin_ia_v2_mult.Float.{Float}
use agente_tradin_ia_v2_mult.Persistence.Models.{SystemState}
use agente_tradin_ia_v2_mult.Persistence.Repo.{
  is_nonempty, non_terminal_orders, recompute_trading_blocked,
}
use agente_tradin_ia_v2_mult.Persistence.SystemBlock.{HasCause}
use agente_tradin_ia_v2_mult.Execution.Reconciliation.{
  PositionView, OrderView, Dict, reconcile_positions, reconcile_orders,
}
use agente_tradin_ia_v2_mult.Api.Control.{Store}
use agente_tradin_ia_v2_mult.Execution.FillService.{add_count}
use agente_tradin_ia_v2_mult.Orchestrator.Desk.{
  Attempt, returned, raised, ◌>>=◌, Desk, Exchange, Setting, add_symbol,
}
use agente_tradin_ia_v2_mult.Orchestrator.Reconcile.{
  open_views, symbols_of_views, symbols_of_orders, order_views, fetch_positions, fetch_orders,
  is_true, compare_fetched, compare_open_orders, reconcile_positions_step, repoll,
  compare_after_repoll, reconcile_orders_step, settle_state, reconcile,
}

nonempty_iff : {A : Type 0} (xs : List A) → (not (is_nonempty xs) ≡ true) ↔ (xs ≡ [])
nonempty_iff [] = ground arith
nonempty_iff (x ∷ xs) = ground arith

settle_state-cleared_iff :
    (k : ℕ) (p q : Option Bool) (s : SystemState)
    → let s' = settle_state k p q s in
      ((s'.state_ambiguous ≡ false) ↔ ((is_true p ≡ true) × (is_true q ≡ true)))
      × (s'.reconciliation_diverged ≡ s'.state_ambiguous)
      × ((s'.trading_blocked ≡ true) ↔ HasCause s' k)
unfolding settle_state recompute_trading_blocked
settle_state-cleared_iff k p q s = (ground arith, refl, ground arith)

pub >>=-eq-returned :
    {A B : Type 0} (m : Attempt A) (k : A → Attempt B) {b : B}
    → (m >>= k) ≡ returned b
    → (a : A) × (m ≡ returned a) × (k a ≡ returned b)
>>=-eq-returned (returned a) k h = (a, refl, h)
>>=-eq-returned raised k h = cc

pub returned-injective : {A : Type 0} {a b : A} → returned a ≡ returned b → a ≡ b
returned-injective h = cc

module _ {F : Type 0} ⦃f : Float F⦄ where
  fetched_iff :
      (views : List (PositionView F)) (o : Option (Dict (Option (PositionView F))))
      → (is_true (compare_fetched views o).1 ≡ true) ↔ (
          (remote : Dict (Option (PositionView F))) × (o ≡ some remote)
          × (reconcile_positions views remote ≡ []))
  unfolding compare_fetched
  fetched_iff views none = (λ h. absurd (ground (arith, h)), λ h. absurd (ground (arith, h.1)))
  fetched_iff views (some r) =
      let n = nonempty_iff (reconcile_positions views r) in
      (
        λ h. (r, refl, n.0 h),
        λ h. n.1 (subst (λ x. reconcile_positions views x ≡ []) (sym (some_injective h.1)) h.2),
      )

  open_orders_iff :
      (views : List (OrderView F)) (o : Option (List (OrderView F)))
      → (is_true (compare_open_orders views o).1 ≡ true)
        ↔ ((remote : List (OrderView F)) × (o ≡ some remote) × (reconcile_orders views remote ≡ []))
  unfolding compare_open_orders
  open_orders_iff views none = (λ h. absurd (ground (arith, h)), λ h. absurd (ground (arith, h.1)))
  open_orders_iff views (some r) =
      let n = nonempty_iff (reconcile_orders views r) in
      (
        λ h. (r, refl, n.0 h),
        λ h. n.1 (subst (λ x. reconcile_orders views x ≡ []) (sym (some_injective h.1)) h.2),
      )

  -- The exchange tells all positions that are asked for, and they are those on file.
  abbrev pub PositionsAgree : Setting F → Exchange F → Desk F → Type 0
  PositionsAgree env x d =
      let views = open_views d.store.positions in
      (remote : Dict (Option (PositionView F))) × (fetch_positions x
          (add_symbol env.symbol (symbols_of_views views [])) []
        ≡ some remote)
      × (reconcile_positions views remote ≡ [])

  -- The exchange answers for each open order and tells all open orders, and they are those that are
  -- on file when the reports have been applied.
  abbrev pub OrdersAgree : Setting F → Exchange F → Desk F → Type 0
  OrdersAgree env x d =
      let asked =
        add_symbol env.symbol
          (symbols_of_orders (non_terminal_orders env.mode d.store.orders) []) in
      (st : Store F) × (repoll env x [] d.store.orders d.store ≡ returned (st, true))
      × ((remote : List (OrderView F)) × (fetch_orders x asked [] ≡ some remote)
          × (reconcile_orders (order_views (non_terminal_orders env.mode st.orders)) remote ≡ []))

  compared_iff :
      (env : Setting F) (x : Exchange F) (symbols : List String) (d : Desk F) (r : Store F × Bool)
      → (is_true (compare_after_repoll env x symbols d r).1 ≡ true) ↔ (
          (r.1 ≡ true)
          × ((remote : List (OrderView F)) × (fetch_orders x symbols [] ≡ some remote)
              × (reconcile_orders (order_views (non_terminal_orders env.mode r.0.orders)) remote
                  ≡ [])))
  unfolding compare_after_repoll
  compared_iff env x symbols d (st, false) =
      (λ h. absurd (ground (arith, h)), λ h. absurd (ground (arith, h.0)))
  compared_iff env x symbols d (st, true) =
      let i =
        open_orders_iff (order_views (non_terminal_orders env.mode st.orders))
          (fetch_orders x symbols []) in
      (λ h. (refl, i.0 h), λ h. i.1 h.1)

  OrdersAgree-iff :
      (env : Setting F) (x : Exchange F) (d e : Desk F) (r : Store F × Bool)
      → repoll env x [] d.store.orders d.store ≡ returned r
      → let asked =
          add_symbol env.symbol
            (symbols_of_orders (non_terminal_orders env.mode d.store.orders) []) in
        (is_true (compare_after_repoll env x asked e r).1 ≡ true) ↔ OrdersAgree env x d
  OrdersAgree-iff env x d e r hr =
      let asked =
        add_symbol env.symbol
          (symbols_of_orders (non_terminal_orders env.mode d.store.orders) []) in
      let i = compared_iff env x asked e r in
      (
        λ h. let j = i.0 h in (r.0, hr ∙ ap (λ b. returned (r.0, b)) j.0, j.1),
        λ h.
            let same : r ≡ (h.0, true) = returned-injective (sym hr ∙ h.1) in
            i.1 (
              ap (λ (z : Store F × Bool). z.1) same,
              subst
                  (λ (st : Store F).
                    (remote : List (OrderView F)) × (fetch_orders x asked [] ≡ some remote)
                    × (reconcile_orders (order_views (non_terminal_orders env.mode st.orders))
                          remote
                        ≡ []))
                  (sym (ap (λ (z : Store F × Bool). z.0) same)) h.2,
            ),
      )

  -- A reconciliation that returns clears the ambiguity of the state exactly if both halves reached
  -- the exchange and found nothing, whatever made the state ambiguous before or meanwhile, such as a
  -- fill that the second half finds; `reconciliation_diverged` says the same, and trading is then
  -- blocked exactly if a cause is left.
  pub reconcile-cleared_iff :
      (env : Setting F) (x : Exchange F) (d d' : Desk F)
      → reconcile env x d ≡ returned d'
      → let s = d'.store.state in
        ((s.state_ambiguous ≡ false) ↔ (PositionsAgree env x d × OrdersAgree env x d))
        × (s.reconciliation_diverged ≡ s.state_ambiguous)
        × ((s.trading_blocked ≡ true) ↔ HasCause s env.max_api_failures)
  unfolding reconcile reconcile_positions_step reconcile_orders_step
  reconcile-cleared_iff env x d d' h =
      let begun : Desk F = record d {
        reconciliations_count = add_count 1 d.reconciliations_count;
        last_reconciliation_at = some env.now;
      } in
      let p = reconcile_positions_step env x begun in
      let q = >>=-eq-returned (reconcile_orders_step env x p.0) _ h in
      let r = >>=-eq-returned (repoll env x [] d.store.orders d.store) _ q.1 in
      let views = open_views d.store.positions in
      let i =
        fetched_iff views
          (fetch_positions x (add_symbol env.symbol (symbols_of_views views [])) []) in
      let j = OrdersAgree-iff env x d p.0 r.0 r.1 in
      let same = returned-injective r.2 in
      let e : settle_state env.max_api_failures p.1 q.0.1 q.0.0.store.state ≡ d'.store.state =
        ap (λ (z : Desk F). z.store.state) (returned-injective q.2) in
      let c = settle_state-cleared_iff env.max_api_failures p.1 q.0.1 q.0.0.store.state in
      let k =
        subst
          (λ (s : SystemState).
            ((s.state_ambiguous ≡ false) ↔ ((is_true p.1 ≡ true) × (is_true q.0.1 ≡ true)))
            × (s.reconciliation_diverged ≡ s.state_ambiguous)
            × ((s.trading_blocked ≡ true) ↔ HasCause s env.max_api_failures))
          e c in
      let ok = ap (λ (z : Desk F × Option Bool). is_true z.1) same in
      (
        (λ a. let b = k.0.0 a in (i.0 b.0, j.0 (ok ∙ b.1)), λ a. k.0.1 (i.1 a.0, sym ok ∙ j.1 a.1)),
        k.1,
        k.2,
      )
