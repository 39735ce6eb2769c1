-- ===== src/Execution/PaperLocal/Engine.antt =====
-- app/execution/paper_local.py: orders that are filled at once, and what a poll is told of them.
use Prim.Native.String.{slice, ◌++◌}
use agente_tradin_ia_v2_mult.Common.{
  ℕ, zero, suc, ◌+◌, ◌/◌, ◌%◌, String, true, Option, none, some, [], ◌∷◌, ltb, get_elem?,
  if◌then◌else◌,
}
use agente_tradin_ia_v2_mult.Float.{Float, ◌⊗◌}
use agente_tradin_ia_v2_mult.OrderState.{OrderStatus, submitted, partially_filled, filled, unknown}
use agente_tradin_ia_v2_mult.Risk.Engine.{ApprovedOrder}
use agente_tradin_ia_v2_mult.Execution.Base.{SubmitAck, FillEvent, OrderStatusSnapshot}
use agente_tradin_ia_v2_mult.Execution.Reconciliation.{Dict, get, set}
use agente_tradin_ia_v2_mult.Execution.PaperLocal.{
  PaperPosition, fill_price, fill_fee, apply_to_position,
}

-- `PaperLocalExecutionEngine`; the next number of `_fill_id_seq` is `next_fill`.
pub record PaperEngine (F : Type 0) : Type 0 where
  pub price_provider : String → F
  pub fee_rate : F
  pub slippage_bps : F
  pub partial_fill_ratio : Option F
  pub snapshots : Dict (OrderStatusSnapshot F)
  pub positions : Dict (PaperPosition F)
  pub next_fill : ℕ

abbrev or_empty : Option String → String
or_empty none = ""
or_empty (some s) = s

abbrev digit : ℕ → String
digit n = or_empty (get_elem? ("0" ∷ "1" ∷ "2" ∷ "3" ∷ "4" ∷ "5" ∷ "6" ∷ "7" ∷ "8" ∷ "9" ∷ []) n)

-- A number in decimal digits, at most as many as the first argument.
abbrev decimal : ℕ → ℕ → String
decimal zero n = ""
decimal (suc k) n =
    let front = decimal k (n / 10) in if ltb n 10 then digit n else front ++ digit (n % 10)

-- `f"PAPER-FILL-{n}"`
unfoldable pub fill_id : ℕ → String
fill_id n = "PAPER-FILL-" ++ decimal (suc n) n

-- `f"PAPER-{idempotency_key[:16]}"`; a key is ASCII.
unfoldable pub paper_id : String → String
paper_id idempotency_key = "PAPER-" ++ slice idempotency_key 0 16

module _ {F : Type 0} ⦃f : Float F⦄ where
  abbrev pub price_of : PaperEngine F → String → Option F → F
  price_of e symbol none = e.price_provider symbol
  price_of e symbol (some price) = price

  abbrev pub filled_qty : Option F → F → F
  filled_qty none qty = qty
  filled_qty (some ratio) qty = qty ⊗ ratio

  abbrev pub filled_status : Option F → OrderStatus
  filled_status none = filled
  filled_status (some _) = partially_filled

  -- The fill that an order gets.
  unfoldable pub simulate_fill : PaperEngine F → ApprovedOrder F → Option F → FillEvent F
  unfolding fill_id fill_price fill_fee
  simulate_fill e order reference_price =
      let price = fill_price e.slippage_bps order.side (price_of e order.symbol reference_price) in
      let qty = filled_qty e.partial_fill_ratio order.qty in
      record {
        exchange_fill_id = fill_id e.next_fill;
        fill_qty = qty;
        fill_price = price;
        fee = fill_fee e.fee_rate qty price;
      }

  -- The end of `submit`; no acknowledgement is a division by 0 in `_apply_to_position`.
  abbrev pub book_fill :
      String → PaperEngine F → Option (Dict (PaperPosition F)) → PaperEngine F × Option SubmitAck
  book_fill id e none = (e, none)
  book_fill id e (some positions) = (
    record e { positions = positions },
    some (record { exchange_order_id = id; status = submitted }),
  )

  -- What a poll is to be told of the order.
  unfoldable pub simulate_order :
      PaperEngine F → ApprovedOrder F → String → Option F → OrderStatusSnapshot F
  unfolding simulate_fill
  simulate_order e order id reference_price = record {
    exchange_order_id = id;
    status = filled_status e.partial_fill_ratio;
    fills = simulate_fill e order reference_price ∷ [];
    fills_complete = true;
  }

  abbrev pub keep_snapshot : String → OrderStatusSnapshot F → PaperEngine F → PaperEngine F
  keep_snapshot id snapshot e = record e {
    snapshots = set id snapshot e.snapshots;
    next_fill = e.next_fill + 1;
  }

  -- `submit`
  unfoldable pub submit :
      PaperEngine F → ApprovedOrder F → String → Option F → PaperEngine F × Option SubmitAck
  unfolding paper_id simulate_order apply_to_position
  submit e order idempotency_key reference_price =
      let id = paper_id idempotency_key in
      let fill = simulate_fill e order reference_price in
      book_fill id (keep_snapshot id (simulate_order e order id reference_price) e)
        (apply_to_position order.symbol order.side fill.fill_qty fill.fill_price e.positions)

  abbrev pub or_unknown : String → Option (OrderStatusSnapshot F) → OrderStatusSnapshot F
  or_unknown id (some snapshot) = snapshot
  or_unknown id none = record {
    exchange_order_id = id;
    status = unknown;
    fills = [];
    fills_complete = true;
  }

  -- `poll_order`
  unfoldable pub poll_order : String → PaperEngine F → OrderStatusSnapshot F
  poll_order id e = or_unknown id (get id e.snapshots)
