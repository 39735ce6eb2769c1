-- ===== src/MarketData/Bybit/Filling.antt =====
-- The loop that fills the queue takes in closed candles that follow the cursor without a hole.
use agente_tradin_ia_v2_mult.Common.{
  ℕ, zero, suc, ◌+◌, ◌≤◌, ◌-◌, ◌*◌, Bool, true, false, Option, none, some, List, [], ◌∷◌, ◌++◌, ltb,
  length, ◌≡◌, refl, subst, ◌⊎◌, inl, inr, arith,
}
use agente_tradin_ia_v2_mult.MarketData.{CandleTick, Fetch, retryable, new_candle}
use agente_tradin_ia_v2_mult.MarketData.Bybit.{
  Reply, raises, timed_out, unreadable, rows, Provider, Window, unreachable, candidates, Refill,
  quiet, reports, fetch_window, accept, accept_after, accept_first,
}
use agente_tradin_ia_v2_mult.MarketData.Bybit.Queue.{
  last_time, take_first, first_window, bootstrap_first_window, end_with, with_gap, stop_at, go_on,
  take_page, on_window, refill_pages,
}

module _ {F : Type 0} where
  -- Candles one interval apart, the first of them one interval after `t`, all closed by `now`.
  abbrev pub Chain : ℕ → ℕ → ℕ → List (CandleTick F) → Type 0
  Chain i now t [] = Unit
  Chain i now t (c ∷ cs) =
      (c.open_time ≡ t + i) × (c.open_time + i ≤ now) × Chain i now c.open_time cs

  -- The same where nothing may be known of what came before.
  abbrev pub Follows : ℕ → ℕ → Option ℕ → CandleTick F → Type 0
  Follows i now none c = c.open_time + i ≤ now
  Follows i now (some t) c = (c.open_time ≡ t + i) × (c.open_time + i ≤ now)

  Chain-append :
      (i now t : ℕ) (xs ys : List (CandleTick F))
      → Chain i now t xs
      → Chain i now (last_time t xs) ys
      → Chain i now t (xs ++ ys)
  Chain-append i now t [] ys hx hy = hy
  Chain-append i now t (x ∷ xs) ys hx hy =
      (hx.0, hx.1, Chain-append i now x.open_time xs ys hx.2 hy)

  last_time-append :
      (t : ℕ) (xs ys : List (CandleTick F)) → last_time t (xs ++ ys) ≡ last_time (last_time t xs) ys
  last_time-append t [] ys = refl
  last_time-append t (x ∷ xs) ys = last_time-append x.open_time xs ys

  accept-Chain : (i now t : ℕ) (cs : List (CandleTick F)) → Chain i now t ((accept i now t cs).0)
  unfolding accept
  accept-Chain i now t [] = tt
  accept-Chain i now t (c ∷ cs) = ground (arith, accept-Chain i now c.open_time cs)

  accept_after-Chain :
      (i now t : ℕ) (cs : List (CandleTick F)) → Chain i now t ((accept_after i now t cs).0)
  unfolding accept_after
  accept_after-Chain i now t [] = tt
  accept_after-Chain i now t (c ∷ cs) = ground (arith, accept_after-Chain i now c.open_time cs)

  -- A provider with nothing to deliver, whose next candle has to follow `e`.
  abbrev pub Waits : ℕ → Option ℕ → Provider F → Type 0
  Waits i e p =
      (p.interval ≡ i) × (p.pending_queue ≡ []) × ((e ≡ none) ⊎ (p.last_processed_open_time ≡ e))

  -- A provider that may have candles to deliver, which follow `e`.
  abbrev pub Holds : ℕ → ℕ → Option ℕ → Provider F → List (CandleTick F) → Type 0
  Holds i now e p [] = Waits i e p
  Holds i now e p (c ∷ cs) = (p.interval ≡ i) × Follows i now e c × Chain i now c.open_time cs

  abbrev pub IsNews : Fetch F → Type 0
  IsNews (new_candle c) = ⊥
  IsNews f = Unit

  -- A refill ends with candles that follow `e`, or with none and the cursor where it was.
  abbrev pub Refills : ℕ → ℕ → Option ℕ → Provider F × Refill F → Type 0
  Refills i now e (p, Refill.raised) = Waits i e p
  Refills i now e (p, reports f) = Waits i e p × IsNews f
  Refills i now e (p, quiet) = Holds i now e p p.pending_queue

  abbrev At : ℕ → ℕ → Provider F → Type 0
  At i t p = (p.interval ≡ i) × (p.pending_queue ≡ []) × (p.last_processed_open_time ≡ some t)

  At-Waits : (i t : ℕ) (p : Provider F) → At i t p → Waits i (some t) p
  At-Waits i t p h = (h.0, h.1, inr h.2)

  end_with-quiet :
      (i now t : ℕ) (cs : List (CandleTick F)) (p : Provider F)
      → At i t p
      → Chain i now t cs
      → Refills i now (some t) (end_with cs quiet p)
  unfolding end_with
  end_with-quiet i now t [] p h k = rw h.1 (At-Waits i t p h)
  end_with-quiet i now t (c ∷ cs) p h k = rw h.1 (h.0, (k.0, k.1), k.2)

  end_with-retryable :
      (i now t : ℕ) (cs : List (CandleTick F)) (p : Provider F)
      → At i t p
      → Chain i now t cs
      → Refills i now (some t) (end_with cs (reports retryable) p)
  unfolding end_with
  end_with-retryable i now t [] p h k = (At-Waits i t p h, tt)
  end_with-retryable i now t (c ∷ cs) p h k = rw h.1 (h.0, (k.0, k.1), k.2)

  stop_at-Refills :
      (i now t : ℕ) (cs : List (CandleTick F)) (g : Option (ℕ × ℕ)) (p : Provider F)
      → At i t p
      → Chain i now t cs
      → Refills i now (some t) (stop_at cs g p)
  unfolding stop_at end_with
  stop_at-Refills i now t cs none p h k = end_with-quiet i now t cs p h k
  stop_at-Refills i now t [] (some g) p h k = (At-Waits i t p h, tt)
  stop_at-Refills i now t (c ∷ cs) (some g) p h k =
      end_with-quiet i now t (c ∷ cs) (with_gap (some g) p) h k

  -- A window changes neither cursor nor queue.
  fetch_window-At :
      (i t start end : ℕ) (r : Reply F) (p : Provider F)
      → At i t p
      → At i t ((fetch_window start end r p).0)
  unfolding fetch_window
  fetch_window-At i t start end raises p h = h
  fetch_window-At i t start end timed_out p h = h
  fetch_window-At i t start end unreadable p h = h
  fetch_window-At i t start end (rows rs) p h = h

  -- What the next round of the loop keeps, from the cursor that its candles have come to.
  abbrev Keeps : ℕ → ℕ → ℕ → (ℕ → List (CandleTick F) → Provider F → Provider F × Refill F) → Type 0
  Keeps i now t rest =
      (cs : List (CandleTick F)) (p : Provider F)
      → At i t p
      → Chain i now t cs
      → Refills i now (some t) (rest (last_time t cs) cs p)

  go_on-Refills :
      (i now t : ℕ) (full : Bool)
      (rest : ℕ → List (CandleTick F) → Provider F → Provider F × Refill F) (cursor : ℕ)
      (cs : List (CandleTick F)) (p : Provider F)
      → Keeps i now t rest
      → At i t p
      → Chain i now t cs
      → last_time t cs ≡ cursor
      → Refills i now (some t) (go_on full rest cursor cs p)
  unfolding go_on
  go_on-Refills i now t true rest cursor cs p k h hc e = end_with-quiet i now t cs p h hc
  go_on-Refills i now t false rest cursor cs p k h hc e = rw (← e) (k cs p h hc)

  take_page-Refills :
      (i now t : ℕ) (rest : ℕ → List (CandleTick F) → Provider F → Provider F × Refill F)
      (cs us : List (CandleTick F)) (g : Option (ℕ × ℕ)) (p : Provider F)
      → Keeps i now t rest
      → At i t p
      → Chain i now t cs
      → Chain i now (last_time t cs) us
      → Refills i now (some t) (take_page rest (last_time t cs) cs p (us, g))
  unfolding take_page
  take_page-Refills i now t rest cs [] g p k h hc hu = stop_at-Refills i now t cs g p h hc
  take_page-Refills i now t rest cs (c ∷ us) (some g) p k h hc hu =
      end_with-quiet i now t (cs ++ (c ∷ us)) (with_gap (some g) p) h
        (Chain-append i now t cs (c ∷ us) hc hu)
  take_page-Refills i now t rest cs (c ∷ us) none p k h hc hu =
      go_on-Refills i now t (ltb (length (c ∷ us)) p.page_size) rest
        (last_time (last_time t cs) (c ∷ us)) (cs ++ (c ∷ us)) p k h
        (Chain-append i now t cs (c ∷ us) hc hu) (last_time-append t cs (c ∷ us))

  on_window-Refills :
      (i now t : ℕ) (rest : ℕ → List (CandleTick F) → Provider F → Provider F × Refill F)
      (cs : List (CandleTick F)) (p : Provider F) (w : Window F)
      → Keeps i now t rest
      → At i t p
      → Chain i now t cs
      → Refills i now (some t) (on_window rest now (last_time t cs) cs (p, w))
  unfolding on_window
  on_window-Refills i now t rest cs p Window.raised k h hc = At-Waits i t p h
  on_window-Refills i now t rest cs p unreachable k h hc = end_with-retryable i now t cs p h hc
  on_window-Refills i now t rest cs p (candidates ds) k h hc =
      let a = accept p.interval now (last_time t cs) ds in
      take_page-Refills i now t rest cs a.0 a.1 p k h hc
        (rw h.0 (accept-Chain i now (last_time t cs) ds))

  pub refill_pages-Keeps :
      (i now t pages : ℕ) (reply : ℕ → ℕ → Reply F) → Keeps i now t (refill_pages pages now reply)
  unfolding refill_pages
  refill_pages-Keeps i now t zero reply cs p h hc = end_with-quiet i now t cs p h hc
  refill_pages-Keeps i now t (suc pages) reply cs p h hc =
      let start = last_time t cs + p.interval in
      let end = start + (p.page_size - 1) * p.interval in
      on_window-Refills i now t (refill_pages pages now reply) cs
        (fetch_window start end (reply start end) p).0
        (fetch_window start end (reply start end) p).1 (refill_pages-Keeps i now t pages reply)
        (fetch_window-At i t start end (reply start end) p h) hc

  -- Candles one interval apart, whatever came before them.
  abbrev Starts : ℕ → ℕ → List (CandleTick F) → Type 0
  Starts i now [] = Unit
  Starts i now (c ∷ cs) = (c.open_time + i ≤ now) × Chain i now c.open_time cs

  accept_first-Starts :
      (i now : ℕ) (cs : List (CandleTick F)) → Starts i now ((accept_first i now cs).0)
  unfolding accept_first
  accept_first-Starts i now [] = tt
  accept_first-Starts i now (c ∷ cs) = ground (arith, accept_after-Chain i now c.open_time cs)

  take_first-Refills :
      (i now : ℕ) (us : List (CandleTick F)) (g : Option (ℕ × ℕ)) (p : Provider F)
      → Waits i none p
      → Starts i now us
      → Refills i now none (take_first (us, g) p)
  unfolding take_first
  take_first-Refills i now [] g p h k = (h, tt)
  take_first-Refills i now (c ∷ cs) g p h k = rw (h.1) (h.0, k.0, k.1)

  first_window-Refills :
      (i now : ℕ) (p : Provider F) (w : Window F)
      → Waits i none p
      → Refills i now none (first_window now (p, w))
  unfolding first_window
  first_window-Refills i now p Window.raised h = h
  first_window-Refills i now p unreachable h = (h, tt)
  first_window-Refills i now p (candidates []) h = (h, tt)
  first_window-Refills i now p (candidates (c ∷ cs)) h =
      let a = accept_first p.interval now (c ∷ cs) in
      take_first-Refills i now a.0 a.1 p h
        (subst (λ j. Starts j now (a.0)) h.0 (accept_first-Starts p.interval now (c ∷ cs)))

  fetch_window-Waits :
      (i start end : ℕ) (r : Reply F) (p : Provider F)
      → Waits i none p
      → Waits i none ((fetch_window start end r p).0)
  unfolding fetch_window
  fetch_window-Waits i start end raises p h = (h.0, h.1, inl refl)
  fetch_window-Waits i start end timed_out p h = (h.0, h.1, inl refl)
  fetch_window-Waits i start end unreadable p h = (h.0, h.1, inl refl)
  fetch_window-Waits i start end (rows rs) p h = (h.0, h.1, inl refl)

  pub bootstrap-Refills :
      (i now : ℕ) (reply : ℕ → ℕ → Reply F) (p : Provider F)
      → Waits i none p
      → Refills i now none (bootstrap_first_window now reply p)
  unfolding bootstrap_first_window
  bootstrap-Refills i now reply p h =
      let start = now - p.page_size * p.interval in
      let w = fetch_window start now (reply start now) p in
      first_window-Refills i now w.0 w.1 (fetch_window-Waits i start now (reply start now) p h)
