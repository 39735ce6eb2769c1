-- ===== src/Execution/FillService/Status.antt =====
-- How applying a snapshot moves the status of an order.
use agente_tradin_ia_v2_mult.Common.{
  ℕ, Bool, true, false, Option, some, List, [], ◌∷◌, ◌++◌, ◌≡◌, ◌≢◌, ◌⊎◌, subst, arith,
}
use agente_tradin_ia_v2_mult.Float.{Float}
use agente_tradin_ia_v2_mult.OrderState.{is_terminal, validate_transition, valid}
use agente_tradin_ia_v2_mult.Execution.Base.{OrderStatusSnapshot}
use agente_tradin_ia_v2_mult.Execution.FillLedger.{record_new_fills}
use agente_tradin_ia_v2_mult.Execution.FillLedger.Dedup.{IsRecorded, record_new_fills-IsRecorded}
use agente_tradin_ia_v2_mult.Execution.FillService.Steps.{
  >>=-ne-illegal, done-ne-illegal, Applied, apply_order_snapshot-Applied, record_new_fills-order,
  conclude-order,
}
use agente_tradin_ia_v2_mult.Persistence.Models.{Order, OrderEvent, Execution, pending}
use agente_tradin_ia_v2_mult.Execution.Books.{
  Outcome, done, illegal_transition, zero_division, Books, Decision, FillApplicationResult,
}
use agente_tradin_ia_v2_mult.Execution.FillService.{
  settle_status, apply_row, apply_rows, apply_order_snapshot, conclude, Applying, applying,
  frozen_protection_distances,
}

module _ {F : Type 0} where
  -- What settling does to an order: its status stays, or makes one permitted change that one audit
  -- row records; a terminal status is taken over only from a complete report.
  abbrev pub IsSettled :
      OrderStatusSnapshot F → Order F → List OrderEvent → Order F × List OrderEvent → Type 0
  IsSettled snap o events r =
      (r.0.id ≡ o.id)
      × (r.0.symbol ≡ o.symbol)
      × (r.0.side ≡ o.side)
      × (((r.0.status ≡ o.status) × (r.1 ≡ events))
          ⊎ ((validate_transition o.status r.0.status ≡ valid)
              × (r.1
                  ≡ events
                    ++ (record { order_id = o.id; from_status = o.status; to_status = r.0.status }
                        ∷ []))))
      × ((r.0.status ≡ o.status)
          ⊎ ((is_terminal r.0.status ≡ true)
              × (snap.fills_complete ≡ true)
              × (r.0.status ≡ snap.status))
          ⊎ (is_terminal r.0.status ≡ false))

  -- What the code does with a terminal status whose fills are not all known.
  abbrev pub IsDeferred : OrderStatusSnapshot F → Order F → Order F → Type 0
  IsDeferred snap o o' =
      (o'.status ≡ o.status)
      × (o'.pending_exchange_status ≡ some snap.status)
      × (o'.fills_sync_status ≡ pending)

  abbrev pub Settles :
      OrderStatusSnapshot F
      → Order F
      → List OrderEvent
      → Outcome (Order F × List OrderEvent)
      → Type 0
  Settles snap o events (done r) =
      IsSettled snap o events r
      × (is_terminal snap.status ≡ true → snap.fills_complete ≡ false → IsDeferred snap o r.0)
  Settles snap o events illegal_transition = ⊥
  Settles snap o events zero_division = ⊥

  Settles-ne-illegal :
      (snap : OrderStatusSnapshot F) (o : Order F) (events : List OrderEvent)
      (m : Outcome (Order F × List OrderEvent))
      → Settles snap o events m
      → m ≢ illegal_transition
  Settles-ne-illegal snap o events (done r) h e = cc
  Settles-ne-illegal snap o events illegal_transition h e = h
  Settles-ne-illegal snap o events zero_division h e = cc

  pub settle_status-Settles :
      (snap : OrderStatusSnapshot F) (o : Order F) (events : List OrderEvent)
      → Settles snap o events (settle_status snap o events)
  unfolding settle_status validate_transition
  settle_status-Settles snap o events = ground arith

module _ {F : Type 0} ⦃f : Float F⦄ where
  -- The order that the loop works with is for the symbol of the order in the books.
  pub settled-symbol :
      (now max_failures : ℕ) (decision : Option (Decision F)) (is_close : Bool)
      (snap : OrderStatusSnapshot F) (b : Books F) {r : Books F × FillApplicationResult F}
      (h : Applied now max_failures decision is_close snap b r)
      → let o = (record_new_fills h.order b.executions now snap.fills).order in
        (o.symbol ≡ b.order.symbol) × (o.side ≡ b.order.side) × (h.order.id ≡ b.order.id)
  settled-symbol now m d c snap b h =
      let s =
        subst (Settles snap b.order b.events) h.settled
          (settle_status-Settles snap b.order b.events) in
      ground (arith, s, record_new_fills-order h.order b.executions now snap.fills)

  pub settled-id :
      (now max_failures : ℕ) (decision : Option (Decision F)) (is_close : Bool)
      (snap : OrderStatusSnapshot F) (b : Books F) {r : Books F × FillApplicationResult F}
      (h : Applied now max_failures decision is_close snap b r)
      → h.order.id ≡ b.order.id
  settled-id now m d c snap b h = (settled-symbol now m d c snap b h).2

  -- The facts of `IsSettled` about the order in the books.
  apply-IsSettled :
      (now max_failures : ℕ) (decision : Option (Decision F)) (is_close : Bool)
      (snap : OrderStatusSnapshot F) (b : Books F) {r : Books F × FillApplicationResult F}
      → Applied now max_failures decision is_close snap b r
      → IsSettled snap b.order b.events (r.0.order, r.0.events)
        × (is_terminal snap.status ≡ true
            → snap.fills_complete ≡ false
            → IsDeferred snap b.order r.0.order)
        × (r.1.status ≡ r.0.order.status)
  apply-IsSettled now m d c snap b {r} h =
      let s =
        subst (Settles snap b.order b.events) h.settled
          (settle_status-Settles snap b.order b.events) in
      let o = record_new_fills-order h.order b.executions now snap.fills in
      let k =
        conclude-order m b h.events (record_new_fills h.order b.executions now snap.fills) h.loop in
      ground (arith, s, o, k)

  pub apply-IsRecorded :
      (now max_failures : ℕ) (decision : Option (Decision F)) (is_close : Bool)
      (snap : OrderStatusSnapshot F) (b : Books F) {r : Books F × FillApplicationResult F}
      → Applied now max_failures decision is_close snap b r
      → IsRecorded r.0.order.id r.0.executions snap.fills
  unfolding conclude
  apply-IsRecorded now m d c snap b h =
      let rec = record_new_fills h.order b.executions now snap.fills in
      rw (h.result, (record_new_fills-order h.order b.executions now snap.fills).0)
        (record_new_fills-IsRecorded h.order b.executions now snap.fills)

  -- A terminal status reported while the fills are not all known is never taken over: the order
  -- keeps its status and its audit rows, the claim is noted as pending, and the fills that came
  -- with it are on file all the same.
  pub terminal-IsDeferred :
      (now max_failures : ℕ) (decision : Option (Decision F)) (is_close : Bool)
      (snap : OrderStatusSnapshot F) (b : Books F) {r : Books F × FillApplicationResult F}
      → apply_order_snapshot now max_failures decision is_close snap b ≡ done r
      → is_terminal snap.status ≡ true
      → snap.fills_complete ≡ false
      → IsDeferred snap b.order r.0.order × IsRecorded r.0.order.id r.0.executions snap.fills
  terminal-IsDeferred now m d c snap b e t i =
      let h = apply_order_snapshot-Applied now m d c snap b e in
      ((apply-IsSettled now m d c snap b h).1 t i, apply-IsRecorded now m d c snap b h)

  -- A call that returns leaves the status as it was and writes no audit row, or makes one change
  -- that the transition table permits and writes the audit row of that change. A new terminal
  -- status is the reported one, and comes only with a complete report.
  pub status_audited :
      (now max_failures : ℕ) (decision : Option (Decision F)) (is_close : Bool)
      (snap : OrderStatusSnapshot F) (b : Books F) {r : Books F × FillApplicationResult F}
      → apply_order_snapshot now max_failures decision is_close snap b ≡ done r
      → IsSettled snap b.order b.events (r.0.order, r.0.events) × (r.1.status ≡ r.0.order.status)
  status_audited now m d c snap b e =
      let s = apply-IsSettled now m d c snap b (apply_order_snapshot-Applied now m d c snap b e) in
      (s.0, s.2)

  apply_row-ne-illegal :
      (c : Bool) (now : ℕ) (protection : Option (F × F)) (o : Order F) (row : Execution F)
      (a : Applying F)
      → apply_row c now protection o row a ≢ illegal_transition
  unfolding apply_row
  apply_row-ne-illegal c now p o row a = ground arith

  apply_rows-ne-illegal :
      (c : Bool) (now : ℕ) (protection : Option (F × F)) (o : Order F) (rows : List (Execution F))
      (a : Applying F)
      → apply_rows c now protection o rows a ≢ illegal_transition
  unfolding apply_rows
  apply_rows-ne-illegal c now p o [] a e = cc
  apply_rows-ne-illegal c now p o (row ∷ rows) a e =
      >>=-ne-illegal (apply_row c now p o row a) (apply_rows c now p o rows)
        (apply_row-ne-illegal c now p o row a) (λ a'. apply_rows-ne-illegal c now p o rows a') e

  -- Applying a snapshot never raises `IllegalOrderTransitionError`, whatever status is reported.
  pub apply_order_snapshot-ne-illegal :
      (now max_failures : ℕ) (decision : Option (Decision F)) (is_close : Bool)
      (snap : OrderStatusSnapshot F) (b : Books F)
      → apply_order_snapshot now max_failures decision is_close snap b ≢ illegal_transition
  unfolding apply_order_snapshot
  apply_order_snapshot-ne-illegal now m d c snap b =
      >>=-ne-illegal (settle_status snap b.order b.events) _
        (Settles-ne-illegal snap b.order b.events _ (settle_status-Settles snap b.order b.events))
        (λ s.
          let rec = record_new_fills s.0 b.executions now snap.fills in
          let protection = frozen_protection_distances d in
          >>=-ne-illegal (apply_rows c now protection rec.order rec.new_rows (applying b)) _
            (apply_rows-ne-illegal c now protection rec.order rec.new_rows (applying b))
            (λ a. done-ne-illegal (conclude m b s.1 rec a)))
