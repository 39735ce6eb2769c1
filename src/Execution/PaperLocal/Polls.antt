-- ===== src/Execution/PaperLocal/Polls.antt =====
-- What a poll is told of a simulated order, however many others follow it.
use Prim.Native.String.{slice}
use text.Mathlib.TextLemmas.{append_cancel_left}
use agente_tradin_ia_v2_mult.Common.{
  String, true, false, Option, none, some, List, [], ◌∷◌, All, str_eq, str_eq_iff, ◌≡◌, refl, ap,
  ◌∙◌, sym, subst, arith, Bool-cases, inl, inr,
}
use agente_tradin_ia_v2_mult.Float.{Float, ◌⊕◌, ◌⊖◌, ◌⊗◌}
use agente_tradin_ia_v2_mult.OrderState.{OrderStatus, filled, partially_filled}
use agente_tradin_ia_v2_mult.Persistence.Models.{Side, buy, sell, other}
use agente_tradin_ia_v2_mult.Risk.Engine.{ApprovedOrder}
use agente_tradin_ia_v2_mult.Execution.Base.{SubmitAck, FillEvent}
use agente_tradin_ia_v2_mult.Execution.Reconciliation.{Dict, get}
use agente_tradin_ia_v2_mult.Execution.PaperLocal.{
  fill_price, fill_fee, PaperPosition, apply_to_position,
}
use agente_tradin_ia_v2_mult.Execution.PaperLocal.Net.{get-set, get-set_other}
use agente_tradin_ia_v2_mult.Execution.PaperLocal.Engine.{
  PaperEngine, paper_id, fill_id, price_of, filled_qty, filled_status, simulate_fill,
  simulate_order, keep_snapshot, book_fill, submit, or_unknown, poll_order,
}

pub record Submission (F : Type 0) : Type 0 where
  pub order : ApprovedOrder F
  pub key : String
  pub reference_price : Option F

paper_id-differs :
    (a b : String)
    → str_eq (slice a 0 16) (slice b 0 16) ≡ false
    → str_eq (paper_id a) (paper_id b) ≡ false
unfolding paper_id
paper_id-differs a b h = elim (Bool-cases (str_eq (paper_id a) (paper_id b))) [
  | inr n ↦ n
  | inl e ↦
      let same =
        append_cancel_left "PAPER-" (slice a 0 16) (slice b 0 16)
          ((str_eq_iff (paper_id a) (paper_id b)).0 e) in
      let equal = (str_eq_iff (slice a 0 16) (slice b 0 16)).1 same in
      absurd (ground (arith, equal, h))
]

other_ids :
    {F : Type 0} (key : String) (ss : List (Submission F))
    → All (λ s. str_eq (slice key 0 16) (slice s.key 0 16) ≡ false) ss
    → All (λ s. str_eq (paper_id key) (paper_id s.key) ≡ false) ss
other_ids key [] h = tt
other_ids key (s ∷ ss) h = (paper_id-differs key s.key h.0, other_ids key ss h.1)

module _ {F : Type 0} ⦃f : Float F⦄ where
  -- Orders one after the other, whatever comes of each.
  unfoldable pub run_submissions : List (Submission F) → PaperEngine F → PaperEngine F
  unfolding submit
  run_submissions [] e = e
  run_submissions (s ∷ ss) e = run_submissions ss ((submit e s.order s.key s.reference_price).0)

  book_fill-snapshots :
      (id : String) (e : PaperEngine F) (o : Option (Dict (PaperPosition F)))
      → (book_fill id e o).0.snapshots ≡ e.snapshots
  book_fill-snapshots id e none = refl
  book_fill-snapshots id e (some ps) = refl

  book_fill-id :
      (id : String) (e : PaperEngine F) (o : Option (Dict (PaperPosition F))) (ack : SubmitAck)
      → (book_fill id e o).1 ≡ some ack
      → ack.exchange_order_id ≡ id
  book_fill-id id e none ack h = absurd (ground (arith, h))
  book_fill-id id e (some ps) ack h = ground (arith, h)

  -- The engine after a submission that has come to `o` in the book of positions.
  abbrev kept_for : Submission F → PaperEngine F → PaperEngine F
  kept_for s e =
      let id = paper_id s.key in keep_snapshot id (simulate_order e s.order id s.reference_price) e

  abbrev booked : Submission F → PaperEngine F → Option (Dict (PaperPosition F))
  booked s e =
      let fill = simulate_fill e s.order s.reference_price in
      apply_to_position s.order.symbol s.order.side fill.fill_qty fill.fill_price e.positions

  submit-snapshots :
      (e : PaperEngine F) (s : Submission F)
      → (submit e s.order s.key s.reference_price).0.snapshots ≡ (kept_for s e).snapshots
  unfolding submit
  submit-snapshots e s = book_fill-snapshots (paper_id s.key) (kept_for s e) (booked s e)

  submit-id :
      (e : PaperEngine F) (s : Submission F) (ack : SubmitAck)
      → (submit e s.order s.key s.reference_price).1 ≡ some ack
      → ack.exchange_order_id ≡ paper_id s.key
  unfolding submit
  submit-id e s ack h = book_fill-id (paper_id s.key) (kept_for s e) (booked s e) ack h

  run-kept :
      (ss : List (Submission F)) (e : PaperEngine F) (id : String)
      → All (λ s. str_eq id (paper_id s.key) ≡ false) ss
      → get id ((run_submissions ss e).snapshots) ≡ get id e.snapshots
  unfolding run_submissions
  run-kept [] e id h = refl
  run-kept (s ∷ ss) e id h =
      run-kept ss ((submit e s.order s.key s.reference_price).0) id h.1
      ∙ ap (get id) (submit-snapshots e s)
      ∙ get-set_other id (paper_id s.key)
          (simulate_order e s.order (paper_id s.key) s.reference_price) e.snapshots h.0

  -- The price that slippage leaves: a buy pays more, a sell gets less.
  abbrev pub slipped : F → Side → F → F
  slipped bps buy price = price ⊕ price ⊗ f.quot bps (f.of_ℕ 10_000)
  slipped bps _ price = price ⊖ price ⊗ f.quot bps (f.of_ℕ 10_000)

  -- What an order is filled for and how it ends: whole, or in part if a ratio is configured.
  abbrev pub whole_or_part : Option F → F → OrderStatus × F
  whole_or_part none qty = (filled, qty)
  whole_or_part (some ratio) qty = (partially_filled, qty ⊗ ratio)

  abbrev pub asked_price : (String → F) → String → Option F → F
  asked_price provider symbol none = provider symbol
  asked_price provider symbol (some price) = price

  -- The one fill of a submission.
  abbrev pub expected_fill : PaperEngine F → Submission F → FillEvent F
  expected_fill e s =
      let price =
        slipped e.slippage_bps s.order.side
          (asked_price e.price_provider s.order.symbol s.reference_price) in
      let qty = (whole_or_part e.partial_fill_ratio s.order.qty).1 in
      record {
        exchange_fill_id = fill_id e.next_fill;
        fill_qty = qty;
        fill_price = price;
        fee = qty ⊗ price ⊗ e.fee_rate;
      }

  fill_price-slipped :
      (bps : F) (side : Side) (price : F) → fill_price bps side price ≡ slipped bps side price
  unfolding fill_price
  fill_price-slipped bps buy price = refl
  fill_price-slipped bps sell price = refl
  fill_price-slipped bps (other s) price = refl

  filled_qty-part :
      (ratio : Option F) (qty : F) → filled_qty ratio qty ≡ (whole_or_part ratio qty).1
  filled_qty-part none qty = refl
  filled_qty-part (some r) qty = refl

  filled_status-part :
      (ratio : Option F) (qty : F) → filled_status ratio ≡ (whole_or_part ratio qty).0
  filled_status-part none qty = refl
  filled_status-part (some r) qty = refl

  price_of-asked :
      (e : PaperEngine F) (symbol : String) (price : Option F)
      → price_of e symbol price ≡ asked_price e.price_provider symbol price
  price_of-asked e symbol none = refl
  price_of-asked e symbol (some p) = refl

  simulate_fill-expected :
      (e : PaperEngine F) (s : Submission F)
      → simulate_fill e s.order s.reference_price ≡ expected_fill e s
  unfolding simulate_fill fill_fee
  simulate_fill-expected e s =
      rw
        (
          fill_price-slipped e.slippage_bps s.order.side
              (price_of e s.order.symbol s.reference_price),
          price_of-asked e s.order.symbol s.reference_price,
          filled_qty-part e.partial_fill_ratio s.order.qty,
        )
        refl

  -- The order that a submission acknowledges is polled for ever after, whatever orders follow whose
  -- keys have other first 16 characters: with one fill, at the asked price, or the provider's if none
  -- is asked, raised by the slippage for a buy and lowered by it for a sell; for the whole quantity and
  -- as FILLED, or for the configured part of it and as PARTIALLY_FILLED; with the fee of that
  -- quantity at that price.
  pub poll_order-submit :
      (e : PaperEngine F) (s : Submission F) (ack : SubmitAck) (later : List (Submission F))
      → let r = submit e s.order s.key s.reference_price in
        r.1 ≡ some ack
        → All (λ l. str_eq (slice s.key 0 16) (slice l.key 0 16) ≡ false) later
        → poll_order ack.exchange_order_id (run_submissions later r.0) ≡ record {
          exchange_order_id = ack.exchange_order_id;
          status = (whole_or_part e.partial_fill_ratio s.order.qty).0;
          fills = expected_fill e s ∷ [];
          fills_complete = true;
        }
  unfolding poll_order simulate_order
  poll_order-submit e s ack later h others =
      let r = submit e s.order s.key s.reference_price in
      let i = submit-id e s ack h in
      let snapshot = simulate_order e s.order (paper_id s.key) s.reference_price in
      let found : get ack.exchange_order_id ((run_submissions later r.0).snapshots)
          ≡ some snapshot =
        run-kept later r.0 ack.exchange_order_id (
          subst (λ id. All (λ l. str_eq id (paper_id l.key) ≡ false) later) (sym i)
            (other_ids s.key later others))
        ∙ ap (get ack.exchange_order_id) (submit-snapshots e s)
        ∙ rw i (get-set (paper_id s.key) snapshot e.snapshots) in
      ap (or_unknown ack.exchange_order_id) found
      ∙ ap (λ id. simulate_order e s.order id s.reference_price) (sym i)
      ∙ rw (simulate_fill-expected e s, filled_status-part e.partial_fill_ratio s.order.qty) refl
