-- ===== src/MarketData/Bybit/Queue.antt =====
-- app/market_data/bybit_provider.py: how the provider fills its queue and what a call delivers.
use agente_tradin_ia_v2_mult.Common.{
  ℕ, zero, suc, ◌+◌, ◌-◌, ◌*◌, Bool, true, false, Option, none, some, List, [], ◌∷◌, ◌++◌, ltb,
  length,
}
use agente_tradin_ia_v2_mult.MarketData.{CandleTick, Fetch, nothing_new, retryable, gap, new_candle}
use agente_tradin_ia_v2_mult.MarketData.Bybit.{
  Reply, Provider, Window, unreachable, candidates, Refill, quiet, reports, fetch_window, accept,
  accept_first,
}

abbrev pub or_gap : Option (ℕ × ℕ) → Option (ℕ × ℕ) → Option (ℕ × ℕ)
or_gap none old = old
or_gap (some g) old = some g

module _ {F : Type 0} where
  -- The instant of the last of some candles, or an earlier one.
  abbrev pub last_time : ℕ → List (CandleTick F) → ℕ
  last_time t [] = t
  last_time t (c ∷ cs) = last_time c.open_time cs

  abbrev pub enqueue : List (CandleTick F) → Provider F → Provider F
  enqueue cs p = record p { pending_queue = p.pending_queue ++ cs }

  -- What the first window gives; `baseline` is its first candle.
  unfoldable pub take_first :
      List (CandleTick F) × Option (ℕ × ℕ) → Provider F → Provider F × Refill F
  take_first ([], g) p = (p, reports nothing_new)
  take_first (c ∷ cs, g) p = (
    record (enqueue (c ∷ cs) p) {
      last_processed_open_time = some (last_time c.open_time cs);
      pending_gap = or_gap g p.pending_gap;
    },
    quiet,
  )

  unfoldable pub first_window : ℕ → Provider F × Window F → Provider F × Refill F
  unfolding take_first accept_first
  first_window now (p, Window.raised) = (p, Refill.raised)
  first_window now (p, unreachable) = (p, reports retryable)
  first_window now (p, candidates []) = (p, reports nothing_new)
  first_window now (p, candidates (c ∷ cs)) = take_first (accept_first p.interval now (c ∷ cs)) p

  -- `_bootstrap_first_window`
  unfoldable pub bootstrap_first_window : ℕ → (ℕ → ℕ → Reply F) → Provider F → Provider F × Refill F
  unfolding fetch_window first_window
  bootstrap_first_window now reply p =
      let start = now - p.page_size * p.interval in
      first_window now (fetch_window start now (reply start now) p)

  -- What the loop has collected goes into the queue; without anything there is only a result.
  unfoldable pub end_with : List (CandleTick F) → Refill F → Provider F → Provider F × Refill F
  end_with [] r p = (p, r)
  end_with (c ∷ cs) r p = (enqueue (c ∷ cs) p, quiet)

  abbrev pub with_gap : Option (ℕ × ℕ) → Provider F → Provider F
  with_gap g p = record p { pending_gap = or_gap g p.pending_gap }

  -- A window with nothing to take in: a hole is reported, or kept for later if something was collected.
  unfoldable pub stop_at : List (CandleTick F) → Option (ℕ × ℕ) → Provider F → Provider F × Refill F
  unfolding end_with
  stop_at collected none p = end_with collected quiet p
  stop_at [] (some g) p = (p, reports gap)
  stop_at (c ∷ cs) (some g) p = end_with (c ∷ cs) quiet (with_gap (some g) p)

  -- A window that was not taken in full ends the loop; `rest` is the next round, from a cursor.
  unfoldable pub go_on :
      Bool
      → (ℕ → List (CandleTick F) → Provider F → Provider F × Refill F)
      → ℕ
      → List (CandleTick F)
      → Provider F
      → Provider F × Refill F
  unfolding end_with
  go_on true rest cursor collected p = end_with collected quiet p
  go_on false rest cursor collected p = rest cursor collected p

  -- What the loop does with the candles it has taken from a window, and the hole that ended them.
  unfoldable pub take_page :
      (ℕ → List (CandleTick F) → Provider F → Provider F × Refill F)
      → ℕ
      → List (CandleTick F)
      → Provider F
      → List (CandleTick F) × Option (ℕ × ℕ)
      → Provider F × Refill F
  unfolding end_with stop_at go_on
  take_page rest cursor collected p ([], g) = stop_at collected g p
  take_page rest cursor collected p (c ∷ us, some g) =
      end_with (collected ++ (c ∷ us)) quiet (with_gap (some g) p)
  take_page rest cursor collected p (c ∷ us, none) =
      go_on (ltb (length (c ∷ us)) p.page_size) rest (last_time cursor (c ∷ us))
        (collected ++ (c ∷ us)) p

  -- A round of the `while` loop, once its window is there. An exception leaves what was collected
  -- behind.
  unfoldable pub on_window :
      (ℕ → List (CandleTick F) → Provider F → Provider F × Refill F)
      → ℕ
      → ℕ
      → List (CandleTick F)
      → Provider F × Window F
      → Provider F × Refill F
  unfolding end_with take_page accept
  on_window rest now cursor collected (p, Window.raised) = (p, Refill.raised)
  on_window rest now cursor collected (p, unreachable) = end_with collected (reports retryable) p
  on_window rest now cursor collected (p, candidates cs) =
      take_page rest cursor collected p (accept p.interval now cursor cs)

  -- The `while` loop of `_refill_queue`, for the pages that are left.
  unfoldable pub refill_pages :
      ℕ → ℕ → (ℕ → ℕ → Reply F) → ℕ → List (CandleTick F) → Provider F → Provider F × Refill F
  unfolding fetch_window end_with on_window
  refill_pages zero now reply cursor collected p = end_with collected quiet p
  refill_pages (suc pages) now reply cursor collected p =
      let start = cursor + p.interval in
      let end = start + (p.page_size - 1) * p.interval in
      on_window (refill_pages pages now reply) now cursor collected
        (fetch_window start end (reply start end) p)

  -- `_refill_queue`, from the configured start and the cursor.
  unfoldable pub refill_from :
      ℕ → (ℕ → ℕ → Reply F) → Option ℕ → Option ℕ → Provider F → Provider F × Refill F
  unfolding bootstrap_first_window refill_pages
  refill_from now reply start (some cursor) p =
      refill_pages p.max_pages_per_poll now reply cursor [] p
  refill_from now reply none none p = bootstrap_first_window now reply p
  refill_from now reply (some t) none p =
      let cursor = t - p.interval in
      refill_pages p.max_pages_per_poll now reply cursor []
        (record p { last_processed_open_time = some cursor })

  unfoldable pub refill_queue : ℕ → (ℕ → ℕ → Reply F) → Provider F → Provider F × Refill F
  unfolding refill_from
  refill_queue now reply p = refill_from now reply p.initial_start p.last_processed_open_time p

  -- `_pop_from_queue`, of a queue that begins with `c`.
  unfoldable pub pop_from_queue :
      ℕ → Provider F → CandleTick F → List (CandleTick F) → Provider F × Option (Fetch F)
  pop_from_queue now p c cs = (
    record p {
      pending_queue = cs;
      last_received_at = some now;
      last_processed_open_time = some c.open_time;
    },
    some (new_candle c),
  )

  -- A hole that was kept for later.
  unfoldable pub report_gap : Option (ℕ × ℕ) → Provider F → Provider F × Option (Fetch F)
  report_gap none p = (p, some nothing_new)
  report_gap (some g) p = (record p { pending_gap = none }, some gap)

  unfoldable pub deliver : ℕ → Provider F → List (CandleTick F) → Provider F × Option (Fetch F)
  unfolding pop_from_queue report_gap
  deliver now p [] = report_gap p.pending_gap p
  deliver now p (c ∷ cs) = pop_from_queue now p c cs

  -- What follows the refill; no result is an exception.
  unfoldable pub after_refill : ℕ → Provider F × Refill F → Provider F × Option (Fetch F)
  unfolding deliver
  after_refill now (p, Refill.raised) = (p, none)
  after_refill now (p, reports r) = (p, some r)
  after_refill now (p, quiet) = deliver now p p.pending_queue

  -- `next_candle`, which asks the exchange only when its queue is empty.
  unfoldable pub next_from :
      ℕ → (ℕ → ℕ → Reply F) → Provider F → List (CandleTick F) → Provider F × Option (Fetch F)
  unfolding refill_queue after_refill pop_from_queue
  next_from now reply p [] = after_refill now (refill_queue now reply p)
  next_from now reply p (c ∷ cs) = pop_from_queue now p c cs

  unfoldable pub next_candle : ℕ → (ℕ → ℕ → Reply F) → Provider F → Provider F × Option (Fetch F)
  unfolding next_from
  next_candle now reply p = next_from now reply p p.pending_queue
