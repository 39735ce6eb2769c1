-- ===== src/Execution/Reconciliation/Agreement.antt =====
-- When a reconciliation finds nothing.
use agente_tradin_ia_v2_mult.Common.{
  String, Bool, true, false, not, ◌&&◌, Option, none, some, List, [], ◌∷◌, ◌++◌, ◌≡◌, ◌↔◌, refl,
  arith, All,
}
use agente_tradin_ia_v2_mult.Float.{Float, ◌⊖◌, abs}
use agente_tradin_ia_v2_mult.Persistence.Models.{same_side}
use agente_tradin_ia_v2_mult.Execution.Reconciliation.{
  not_recorded, PositionView, OrderView, Mismatch, Dict, get, by_symbol, by_id, when, is_none,
  prices_differ, compare_position, compare_positions, unrecorded, reconcile_positions,
  unknown_orders, compare_order, compare_orders, reconcile_orders,
}

append_nil_iff : (xs ys : List Mismatch) → (xs ++ ys ≡ []) ↔ ((xs ≡ []) × (ys ≡ []))
append_nil_iff [] ys = (λ h. (refl, h), λ h. h.1)
append_nil_iff (x ∷ xs) ys = ground arith

-- Two lists of mismatches are empty together.
both_nil :
    {P Q : Type 0} (xs ys : List Mismatch)
    → (xs ≡ []) ↔ P
    → (ys ≡ []) ↔ Q
    → (xs ++ ys ≡ []) ↔ (P × Q)
both_nil xs ys i j =
    let n = append_nil_iff xs ys in
    (λ h. (i.0 (n.0 h).0, j.0 (n.0 h).1), λ h. n.1 (i.1 h.0, j.1 h.1))

when_nil : (b : Bool) (m : Mismatch) → (when b m ≡ []) ↔ (b ≡ false)
when_nil b m = ground arith

recorded_iff : (a b : Bool) → (not a && b ≡ false) ↔ ((a ≡ false) → b ≡ false)
recorded_iff true true = ground arith
recorded_iff true false = ground arith
recorded_iff false true = (λ h. absurd (ground arith), λ h. h refl)
recorded_iff false false = ground arith

module _ {F : Type 0} ⦃f : Float F⦄ where
  -- The exchange reports a position of this side, quantity and average price, to the tolerances.
  abbrev pub IsReported : PositionView F → Option (Option (PositionView F)) → Type 0
  IsReported here (some (some remote)) =
      (f.lt (f.literal 1 9) (abs (remote.qty ⊖ here.qty)) ≡ false)
      × (same_side remote.side here.side ≡ true)
      × (prices_differ here.avg_entry_price remote.avg_entry_price ≡ false)
  IsReported here _ = ⊥

  position_iff :
      (symbol : String) (here : PositionView F) (remote : Option (Option (PositionView F)))
      → (compare_position symbol here remote ≡ []) ↔ IsReported here remote
  unfolding compare_position
  position_iff symbol here none = ground arith
  position_iff symbol here (some none) = ground arith
  position_iff symbol here (some (some remote)) = ground arith

  positions_iff :
      (items : Dict (PositionView F)) (remote : Dict (Option (PositionView F)))
      → (compare_positions items remote ≡ [])
        ↔ All (λ item. IsReported item.1 (get item.0 remote)) items
  unfolding compare_positions
  positions_iff [] remote = (λ _. tt, λ _. refl)
  positions_iff (item ∷ items) remote =
      both_nil (compare_position item.0 item.1 (get item.0 remote)) (compare_positions items remote)
        (position_iff item.0 item.1 (get item.0 remote)) (positions_iff items remote)

  unrecorded_iff :
      (here : Dict (PositionView F)) (items : Dict (Option (PositionView F)))
      → (unrecorded here items ≡ [])
        ↔ All (λ item. (is_none item.1 ≡ false) → is_none (get item.0 here) ≡ false) items
  unfolding unrecorded
  unrecorded_iff here [] = (λ _. tt, λ _. refl)
  unrecorded_iff here (item ∷ items) =
      let w = when_nil (not (is_none item.1) && is_none (get item.0 here)) (not_recorded item.0) in
      let r = recorded_iff (is_none item.1) (is_none (get item.0 here)) in
      both_nil (when (not (is_none item.1) && is_none (get item.0 here)) (not_recorded item.0))
        (unrecorded here items) (λ h. r.0 (w.0 h), λ h. w.1 (r.1 h)) (unrecorded_iff here items)

  -- The reconciliation of positions finds nothing exactly if each symbol that is on file, by the
  -- last position given for it, is reported with its side, its quantity up to 1e-9 and, where both
  -- are there, its average price up to 0.1%; and each position reported is one on file.
  pub reconcile_positions_iff :
      (local_positions : List (PositionView F)) (remote : Dict (Option (PositionView F)))
      → let here = by_symbol [] local_positions in
        (reconcile_positions local_positions remote ≡ []) ↔ (
          All (λ item. IsReported item.1 (get item.0 remote)) here
          × All (λ item. (is_none item.1 ≡ false) → is_none (get item.0 here) ≡ false) remote)
  unfolding reconcile_positions
  reconcile_positions_iff local_positions remote =
      let here = by_symbol [] local_positions in
      both_nil (compare_positions here remote) (unrecorded here remote) (positions_iff here remote)
        (unrecorded_iff here remote)

  -- The exchange reports an order of this side and quantity, to the tolerance.
  abbrev pub IsOpenThere : OrderView F → Option (OrderView F) → Type 0
  IsOpenThere here (some remote) =
      (f.lt (f.literal 1 9) (abs (remote.qty ⊖ here.qty)) ≡ false)
      × (same_side remote.side here.side ≡ true)
  IsOpenThere here none = ⊥

  order_iff :
      (id : String) (here : OrderView F) (remote : Option (OrderView F))
      → (compare_order id here remote ≡ []) ↔ IsOpenThere here remote
  unfolding compare_order
  order_iff id here none = ground arith
  order_iff id here (some remote) = ground arith

  orders_iff :
      (items remote : Dict (OrderView F))
      → (compare_orders items remote ≡ [])
        ↔ All (λ item. IsOpenThere item.1 (get item.0 remote)) items
  unfolding compare_orders
  orders_iff [] remote = (λ _. tt, λ _. refl)
  orders_iff (item ∷ items) remote =
      both_nil (compare_order item.0 item.1 (get item.0 remote)) (compare_orders items remote)
        (order_iff item.0 item.1 (get item.0 remote)) (orders_iff items remote)

  unknown_iff :
      (here items : Dict (OrderView F))
      → (unknown_orders here items ≡ []) ↔ All (λ item. is_none (get item.0 here) ≡ false) items
  unfolding unknown_orders
  unknown_iff here [] = (λ _. tt, λ _. refl)
  unknown_iff here (item ∷ items) =
      both_nil (when (is_none (get item.0 here)) (not_recorded item.0)) (unknown_orders here items)
        (when_nil (is_none (get item.0 here)) (not_recorded item.0)) (unknown_iff here items)

  -- The reconciliation of orders finds nothing exactly if every order that the exchange has open is
  -- on file, and every one on file is open there with its side and its quantity up to 1e-9; orders
  -- without an exchange id are passed over.
  pub reconcile_orders_iff :
      (local_open_orders remote_open_orders : List (OrderView F))
      → let here = by_id [] local_open_orders in
        let there = by_id [] remote_open_orders in
        (reconcile_orders local_open_orders remote_open_orders ≡ []) ↔ (
          All (λ item. is_none (get item.0 here) ≡ false) there
          × All (λ item. IsOpenThere item.1 (get item.0 there)) here)
  unfolding reconcile_orders
  reconcile_orders_iff local_open_orders remote_open_orders =
      let here = by_id [] local_open_orders in
      let there = by_id [] remote_open_orders in
      both_nil (unknown_orders here there) (compare_orders here there) (unknown_iff here there)
        (orders_iff here there)
