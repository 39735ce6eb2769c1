-- ===== src/Execution/BybitDemo/Finality.antt =====
-- What is on file of an order once a poll has made its status final.
use agente_tradin_ia_v2_mult.Common.{
  ℕ, String, Bool, true, false, Option, none, some, List, [], ◌∷◌, map, ◌≡◌, ◌≢◌, refl, subst,
  arith, ◌⊎◌, inl, inr,
}
use agente_tradin_ia_v2_mult.Float.{Float}
use agente_tradin_ia_v2_mult.OrderState.{OrderStatus, rejected, contains, is_terminal}
use agente_tradin_ia_v2_mult.Execution.Base.{FillEvent, OrderStatusSnapshot}
use agente_tradin_ia_v2_mult.Execution.Books.{done, Books, Decision, FillApplicationResult}
use agente_tradin_ia_v2_mult.Execution.FillLedger.Dedup.{IsRecorded}
use agente_tradin_ia_v2_mult.Execution.FillService.{apply_order_snapshot}
use agente_tradin_ia_v2_mult.Execution.FillService.Steps.{apply_order_snapshot-Applied}
use agente_tradin_ia_v2_mult.Execution.FillService.Status.{status_audited, apply-IsRecorded}
use agente_tradin_ia_v2_mult.Execution.Paging.{Reply}
use agente_tradin_ia_v2_mult.Execution.Paging.Ends.{Pages}
use agente_tradin_ia_v2_mult.Execution.BybitDemo.{
  StatusReply, raises, timed_out, statuses, ExecutionRow, read_fill, fetch_all_executions,
  raw_status, snapshot, with_fills, with_status, statuses_requiring_fill_sync, poll_order,
}
use agente_tradin_ia_v2_mult.Execution.BybitDemo.Listings.{fetch_all_executions_complete}

final-sync :
    (s : OrderStatus)
    → is_terminal s ≡ true
    → s ≢ rejected
    → contains statuses_requiring_fill_sync s ≡ true
unfolding is_terminal
final-sync s t n = ground arith

module _ {F : Type 0} ⦃f : Float F⦄ where
  with_fills-Listed :
      (id : String) (status : OrderStatus) (r : Option (List (FillEvent F) × Bool))
      (snap : OrderStatusSnapshot F)
      → with_fills id status r ≡ some snap
      → snap.fills_complete ≡ true
      → r ≡ some (snap.fills, true)
  with_fills-Listed id status none snap h c = absurd (ground (arith, h))
  with_fills-Listed id status (some (fills, complete)) snap h c = ground (arith, h, c)

  with_status-Listed :
      (id : String) (reply : ℕ → Option String → Reply (ExecutionRow F)) (status : OrderStatus)
      (b : Bool) (snap : OrderStatusSnapshot F)
      → b ≡ contains statuses_requiring_fill_sync status
      → with_status id reply status b ≡ some snap
      → contains statuses_requiring_fill_sync snap.status ≡ true
      → snap.fills_complete ≡ true
      → fetch_all_executions reply ≡ some (snap.fills, true)
  unfolding with_status
  with_status-Listed id reply status true snap e h s c =
      with_fills-Listed id status (fetch_all_executions reply) snap h c
  with_status-Listed id reply status false snap e h s c =
      let k : snapshot id status [] true ≡ some snap = h in absurd (ground (arith, e, k, s))

  poll_order-Listed :
      (id : String) (st : StatusReply) (reply : ℕ → Option String → Reply (ExecutionRow F))
      (snap : OrderStatusSnapshot F)
      → poll_order id st reply ≡ some snap
      → contains statuses_requiring_fill_sync snap.status ≡ true
      → snap.fills_complete ≡ true
      → fetch_all_executions reply ≡ some (snap.fills, true)
  unfolding poll_order
  poll_order-Listed id raises reply snap h s c = absurd (ground (arith, h))
  poll_order-Listed id timed_out reply snap h s c = absurd (ground (arith, h, s))
  poll_order-Listed id (statuses []) reply snap h s c = absurd (ground (arith, h, s))
  poll_order-Listed id (statuses (r ∷ rs)) reply snap h s c =
      with_status-Listed id reply (raw_status r)
        (contains statuses_requiring_fill_sync (raw_status r)) snap refl h s c

  -- An order that a poll has made FILLED or CANCELLED: the exchange's listing of its executions was
  -- gone through to its last page, every row of it could be read, and each of the fills of these
  -- rows has a row on file for the order.
  pub polled_final :
      (now max_failures : ℕ) (decision : Option (Decision F)) (is_close : Bool) (b : Books F)
      (id : String) (st : StatusReply) (reply : ℕ → Option String → Reply (ExecutionRow F))
      (snap : OrderStatusSnapshot F) {r : Books F × FillApplicationResult F}
      → poll_order id st reply ≡ some snap
      → apply_order_snapshot now max_failures decision is_close snap b ≡ done r
      → r.0.order.status ≢ b.order.status
      → is_terminal r.0.order.status ≡ true
      → r.0.order.status ≢ rejected
      → (rows : List (ExecutionRow F)) × (fills : List (FillEvent F)) × Pages reply 0 none rows
        × (map read_fill rows ≡ map some fills)
        × IsRecorded r.0.order.id r.0.executions fills
  polled_final now m d c b id st reply snap {r} p a ne t nr =
      go (status_audited now m d c snap b a).0.4
    where
      found :
          (e : r.0.order.status ≡ snap.status)
          → snap.fills_complete ≡ true
          → (rows : List (ExecutionRow F)) × (fills : List (FillEvent F)) × Pages reply 0 none rows
            × (map read_fill rows ≡ map some fills)
            × IsRecorded r.0.order.id r.0.executions fills
      found e k =
          let listed =
            poll_order-Listed id st reply snap p
              (subst (λ s. contains statuses_requiring_fill_sync s ≡ true) e
                (final-sync r.0.order.status t nr))
              k in
          let (rows, pages, read) = fetch_all_executions_complete reply snap.fills listed in
          (
            rows,
            snap.fills,
            pages,
            read,
            apply-IsRecorded now m d c snap b (apply_order_snapshot-Applied now m d c snap b a),
          )

      go :
          (r.0.order.status ≡ b.order.status)
            ⊎ ((is_terminal r.0.order.status ≡ true)
                × (snap.fills_complete ≡ true)
                × (r.0.order.status ≡ snap.status))
            ⊎ (is_terminal r.0.order.status ≡ false)
          → (rows : List (ExecutionRow F)) × (fills : List (FillEvent F)) × Pages reply 0 none rows
            × (map read_fill rows ≡ map some fills)
            × IsRecorded r.0.order.id r.0.executions fills
      go (inl same) = absurd (ne same)
      go (inr (inl (t', k, e))) = found e k
      go (inr (inr n)) = absurd (ground (arith, t, n))
