-- ===== src/Execution/BybitDemo/Listings.antt =====
-- What the listings of executions and open orders have gone through when they are complete.
use agente_tradin_ia_v2_mult.Common.{
  ℕ, String, Bool, true, false, Option, none, some, List, [], ◌∷◌, ◌++◌, map, ◌≡◌, refl, sym, ap,
  ◌∙◌, arith, Bool-cases, Option-cases, ◌⊎◌, inl, inr,
}
use mathlib.Core.List.{append_assoc}
use agente_tradin_ia_v2_mult.Float.{Float}
use agente_tradin_ia_v2_mult.Execution.Reconciliation.{OrderView}
use agente_tradin_ia_v2_mult.Execution.Base.{FillEvent}
use agente_tradin_ia_v2_mult.Execution.Paging.{Reply}
use agente_tradin_ia_v2_mult.Execution.Paging.Ends.{
  parsed-append, Pages, Adding, Closed, Ended, walk_pages-Outcome,
}
use agente_tradin_ia_v2_mult.Execution.BybitDemo.{
  ExecutionRow, OrderRow, read_fill, read_fills, execution_reader, fetch_all_executions,
  max_execution_pages, is_open_status, or_zero, add_row, read_orders, order_reader,
  list_open_orders, max_open_orders_pages,
}

module _ {F : Type 0} ⦃f : Float F⦄ where
  read_fills_lem :
      (rows : List (ExecutionRow F))
      → (read_fills rows).1 ≡ true
      → map read_fill rows ≡ map some ((read_fills rows).0)
  unfolding read_fills
  read_fills_lem [] h = refl
  read_fills_lem (row ∷ rows) h = elim (Option-cases (read_fill row)) [
    | inl n ↦ absurd (ground (arith, n, h))
    | inr (e, r) ↦
        let k : (read_fills rows).1 ≡ true = ground (arith, r, h) in
        ground (arith, r, read_fills_lem rows k)
  ]

  abbrev Reads : List (FillEvent F) → List (FillEvent F) → List (ExecutionRow F) → Type 0
  Reads a b rows =
      (found : List (FillEvent F)) × (map read_fill rows ≡ map some found) × (b ≡ a ++ found)

  Reads-page :
      (a b : List (FillEvent F)) (rows : List (ExecutionRow F))
      → execution_reader.take rows a ≡ inl b
      → Reads a b rows
  unfolding execution_reader
  Reads-page a b rows e = elim (Bool-cases ((read_fills rows).1)) [
    | inl y ↦ ((read_fills rows).0, read_fills_lem rows y, ground (arith, y, e))
    | inr n ↦ absurd (ground (arith, n, e))
  ]

  Reads-both :
      (a b c : List (FillEvent F)) (rows rest : List (ExecutionRow F))
      → Reads a b rows
      → Reads b c rest
      → Reads a c (rows ++ rest)
  Reads-both a b c rows rest (xs, h, e) (ys, k, e') = (
    xs ++ ys,
    parsed-append read_fill rows rest xs ys h k,
    e' ∙ ap (λ zs. zs ++ ys) e ∙ append_assoc a xs ys,
  )

  abbrev execution_adding : Adding (execution_reader {F = F})
  execution_adding = record { Adds = Reads; one = Reads-page; two = Reads-both }

  complete-Pages :
      (reply : ℕ → Option String → Reply (ExecutionRow F)) (fills : List (FillEvent F))
      (o : Option (List (FillEvent F) × Bool))
      → o ≡ some (fills, true)
      → Closed execution_reader execution_adding reply 0 none [] o
        ⊎ Ended execution_reader execution_adding reply o
      → (rows : List (ExecutionRow F)) × Pages reply 0 none rows
        × (map read_fill rows ≡ map some fills)
  unfolding execution_reader
  complete-Pages reply fills o h (inl c) =
      let e : ◌≡◌ {A = Option (List (FillEvent F) × Bool)} (some (c.gathered, true))
          (some (fills, true)) =
        sym c.closes ∙ h in
      let (found, read, adds) = c.adds in
      (c.rows, c.pages, read ∙ ap (map some) (sym adds ∙ ground (arith, e)))
  complete-Pages reply fills o h (inr (inl e)) = absurd (ground (arith, e, h))
  complete-Pages reply fills o h (inr (inr (inl (a, e)))) = absurd (ground (arith, e, h))
  complete-Pages reply fills o h (inr (inr (inr (rows, a, e)))) =
      elim (Bool-cases ((read_fills rows).1)) [
        | inl y ↦ absurd (ground (arith, y, e))
        | inr n ↦ absurd (ground (arith, n, e, h))
      ]

  -- A listing of executions that is reported complete has gone through every page, each row of them
  -- can be read, and its fills are those of the rows, in order.
  pub fetch_all_executions_complete :
      (reply : ℕ → Option String → Reply (ExecutionRow F)) (fills : List (FillEvent F))
      → fetch_all_executions reply ≡ some (fills, true)
      → (rows : List (ExecutionRow F)) × Pages reply 0 none rows
        × (map read_fill rows ≡ map some fills)
  unfolding fetch_all_executions
  fetch_all_executions_complete reply fills h =
      complete-Pages reply fills (fetch_all_executions reply) h (
        walk_pages-Outcome execution_reader execution_adding reply max_execution_pages 0 none [] [])

  abbrev Opens : List (OrderView F) → List (OrderView F) → List (OrderRow F) → Type 0
  Opens a b rows = (found : List (OrderView F)) × (read_orders rows ≡ some found) × (b ≡ a ++ found)

  Opens-page :
      (a b : List (OrderView F)) (rows : List (OrderRow F))
      → order_reader.take rows a ≡ inl b
      → Opens a b rows
  unfolding order_reader
  Opens-page a b rows e = elim (Option-cases (read_orders rows)) [
    | inl n ↦ absurd (ground (arith, n, e))
    | inr (os, y) ↦ (os, y, ground (arith, y, e))
  ]

  add_row-append :
      (b : Bool) (qty : Option F) (row : OrderRow F) (r r' : Option (List (OrderView F)))
      (xs ys : List (OrderView F))
      → ((zs : List (OrderView F)) → r ≡ some zs → r' ≡ some (zs ++ ys))
      → add_row b qty row r ≡ some xs
      → add_row b qty row r' ≡ some (xs ++ ys)
  add_row-append false qty row r r' xs ys k h = k xs h
  add_row-append true none row none r' xs ys k h = absurd (ground (arith, h))
  add_row-append true none row (some os) r' xs ys k h = absurd (ground (arith, h))
  add_row-append true (some q) row none r' xs ys k h = absurd (ground (arith, h))
  add_row-append true (some q) row (some os) r' xs ys k h = rw (k os refl) (ap (map_some ys) h)
    where
      map_some : List (OrderView F) → Option (List (OrderView F)) → Option (List (OrderView F))
      map_some ys none = none
      map_some ys (some zs) = some (zs ++ ys)

  read_orders-append :
      (rows rest : List (OrderRow F)) (xs ys : List (OrderView F))
      → read_orders rows ≡ some xs
      → read_orders rest ≡ some ys
      → read_orders (rows ++ rest) ≡ some (xs ++ ys)
  unfolding read_orders
  read_orders-append [] rest xs ys h k = ground (arith, h, k)
  read_orders-append (row ∷ rows) rest xs ys h k =
      add_row-append (is_open_status row.order_status) (or_zero row.qty) row (read_orders rows)
        (read_orders (rows ++ rest)) xs ys (λ zs e. read_orders-append rows rest zs ys e k) h

  Opens-both :
      (a b c : List (OrderView F)) (rows rest : List (OrderRow F))
      → Opens a b rows
      → Opens b c rest
      → Opens a c (rows ++ rest)
  Opens-both a b c rows rest (xs, h, e) (ys, k, e') = (
    xs ++ ys,
    read_orders-append rows rest xs ys h k,
    e' ∙ ap (λ zs. zs ++ ys) e ∙ append_assoc a xs ys,
  )

  abbrev order_adding : Adding (order_reader {F = F})
  order_adding = record { Adds = Opens; one = Opens-page; two = Opens-both }

  listed-Pages :
      (reply : ℕ → Option String → Reply (OrderRow F)) (orders : List (OrderView F))
      (o : Option (List (OrderView F)))
      → o ≡ some orders
      → Closed order_reader order_adding reply 0 none [] o ⊎ Ended order_reader order_adding reply o
      → (rows : List (OrderRow F)) × Pages reply 0 none rows × (read_orders rows ≡ some orders)
  unfolding order_reader
  listed-Pages reply orders o h (inl c) =
      let e : ◌≡◌ {A = Option (List (OrderView F))} (some c.gathered) (some orders) =
        sym c.closes ∙ h in
      let (found, read, adds) = c.adds in (c.rows, c.pages, read ∙ ap some (sym adds) ∙ e)
  listed-Pages reply orders o h (inr (inl e)) = absurd (ground (arith, e, h))
  listed-Pages reply orders o h (inr (inr (inl (a, e)))) = absurd (ground (arith, e, h))
  listed-Pages reply orders o h (inr (inr (inr (rows, a, e)))) =
      elim (Option-cases (read_orders rows)) [
        | inl n ↦ absurd (ground (arith, n, e, h))
        | inr (os, y) ↦ absurd (ground (arith, y, e))
      ]

  -- The listing of open orders returns only what every page holds, from the first request to a page
  -- that names no further one: no failure, no broken sequence of pages and no row that cannot be
  -- read makes the list shorter or empty.
  pub list_open_orders_complete :
      (reply : ℕ → Option String → Reply (OrderRow F)) (orders : List (OrderView F))
      → list_open_orders reply ≡ some orders
      → (rows : List (OrderRow F)) × Pages reply 0 none rows × (read_orders rows ≡ some orders)
  unfolding list_open_orders
  list_open_orders_complete reply orders h =
      listed-Pages reply orders (list_open_orders reply) h
        (walk_pages-Outcome order_reader order_adding reply max_open_orders_pages 0 none [] [])
