-- ===== src/MarketData/Bybit/Delivery.antt =====
-- What a call of the provider delivers follows the candle that was delivered last.
use agente_tradin_ia_v2_mult.Common.{
  ℕ, ◌-◌, ◌≤◌, Option, none, some, List, [], ◌∷◌, ◌≡◌, refl, subst, inl, arith,
}
use agente_tradin_ia_v2_mult.MarketData.{
  CandleTick, Fetch, replay_finished, nothing_new, retryable, fatal, gap, new_candle,
}
use agente_tradin_ia_v2_mult.MarketData.Bybit.{Reply, Provider, Refill, quiet, reports}
use agente_tradin_ia_v2_mult.MarketData.Bybit.Queue.{
  refill_from, refill_queue, pop_from_queue, report_gap, deliver, after_refill, next_from,
}
use agente_tradin_ia_v2_mult.MarketData.Bybit.Filling.{
  Chain, Follows, Waits, Holds, Refills, refill_pages-Keeps, bootstrap-Refills,
}

module _ {F : Type 0} where
  -- A provider from which no candle has been delivered yet, or the last one at `t`; what it
  -- still has to deliver had closed by `now`.
  abbrev pub IsAfter : ℕ → ℕ → Option ℕ → Provider F → Type 0
  IsAfter i now none p =
      (p.interval ≡ i) × (p.last_processed_open_time ≡ none) × (p.pending_queue ≡ [])
  IsAfter i now (some t) p =
      (p.interval ≡ i) × (p.last_processed_open_time ≡ some t) × Chain i now t p.pending_queue

  Chain-later :
      (i before now t : ℕ) (cs : List (CandleTick F))
      → before ≤ now
      → Chain i before t cs
      → Chain i now t cs
  Chain-later i before now t [] le h = tt
  Chain-later i before now t (c ∷ cs) le h =
      (h.0, omega (arith, h.1), Chain-later i before now c.open_time cs le h.2)

  pub IsAfter-later :
      (i before now : ℕ) (e : Option ℕ) (p : Provider F)
      → before ≤ now
      → IsAfter i before e p
      → IsAfter i now e p
  IsAfter-later i before now none p le h = h
  IsAfter-later i before now (some t) p le h =
      (h.0, h.1, Chain-later i before now t p.pending_queue le h.2)

  Holds-first :
      (i now t : ℕ) (p : Provider F) (cs : List (CandleTick F))
      → Holds i now (some t) p cs
      → Holds i now none p cs
  Holds-first i now t p [] h = (h.0, h.1, inl refl)
  Holds-first i now t p (c ∷ cs) h = (h.0, h.1.1, h.2)

  Refills-first :
      (i now t : ℕ) (p : Provider F) (r : Refill F)
      → Refills i now (some t) (p, r)
      → Refills i now none (p, r)
  Refills-first i now t p Refill.raised h = (h.0, h.1, inl refl)
  Refills-first i now t p (reports f) h = ((h.0.0, h.0.1, inl refl), h.1)
  Refills-first i now t p quiet h = Holds-first i now t p p.pending_queue h

  refill_from-Refills :
      (i now : ℕ) (reply : ℕ → ℕ → Reply F) (start e : Option ℕ) (p : Provider F)
      → (p.interval ≡ i) × (p.last_processed_open_time ≡ e) × (p.pending_queue ≡ [])
      → Refills i now e (refill_from now reply start e p)
  unfolding refill_from
  refill_from-Refills i now reply start (some t) p h =
      refill_pages-Keeps i now t p.max_pages_per_poll reply [] p (h.0, h.2, h.1) tt
  refill_from-Refills i now reply none none p h =
      bootstrap-Refills i now reply p (h.0, h.2, inl refl)
  refill_from-Refills i now reply (some t) none p h =
      let cursor = t - p.interval in
      let p' = record p { last_processed_open_time = some cursor } in
      let r = refill_from now reply (some t) none p in
      Refills-first i now cursor r.0 r.1
        (refill_pages-Keeps i now cursor p.max_pages_per_poll reply [] p' (h.0, h.2, refl) tt)

  -- A candle that is delivered follows the last one, and the provider is after it from then on.
  -- Anything else leaves the provider with nothing to deliver.
  abbrev pub Next : ℕ → ℕ → Option ℕ → Provider F × Option (Fetch F) → Type 0
  Next i now e (p, none) = Waits i e p
  Next i now e (p, some (new_candle c)) = Follows i now e c × IsAfter i now (some c.open_time) p
  Next i now e (p, some nothing_new) = Waits i e p
  Next i now e (p, some retryable) = Waits i e p
  Next i now e (p, some fatal) = Waits i e p
  Next i now e (p, some gap) = Waits i e p
  Next i now e (p, some replay_finished) = Waits i e p

  report_gap-Next :
      (i now : ℕ) (e : Option ℕ) (g : Option (ℕ × ℕ)) (p : Provider F)
      → Waits i e p
      → Next i now e (report_gap g p)
  unfolding report_gap
  report_gap-Next i now e none p h = h
  report_gap-Next i now e (some g) p h = h

  deliver-Next :
      (i now : ℕ) (e : Option ℕ) (p : Provider F) (cs : List (CandleTick F))
      → Holds i now e p cs
      → Next i now e (deliver now p cs)
  unfolding deliver pop_from_queue
  deliver-Next i now e p [] h = report_gap-Next i now e p.pending_gap p h
  deliver-Next i now e p (c ∷ cs) h = (h.1, (h.0, refl, h.2))

  after_refill-Next :
      (i now : ℕ) (e : Option ℕ) (p : Provider F) (r : Refill F)
      → Refills i now e (p, r)
      → Next i now e (after_refill now (p, r))
  unfolding after_refill
  after_refill-Next i now e p Refill.raised h = h
  after_refill-Next i now e p (reports nothing_new) h = h.0
  after_refill-Next i now e p (reports retryable) h = h.0
  after_refill-Next i now e p (reports fatal) h = h.0
  after_refill-Next i now e p (reports gap) h = h.0
  after_refill-Next i now e p (reports replay_finished) h = h.0
  after_refill-Next i now e p (reports (new_candle c)) h = absurd (h.1)
  after_refill-Next i now e p quiet h = deliver-Next i now e p p.pending_queue h

  refill_queue-Next :
      (i now : ℕ) (reply : ℕ → ℕ → Reply F) (e : Option ℕ) (p : Provider F)
      → (p.interval ≡ i) × (p.last_processed_open_time ≡ e) × (p.pending_queue ≡ [])
      → Next i now e (after_refill now (refill_queue now reply p))
  unfolding refill_queue
  refill_queue-Next i now reply e p h =
      let r = refill_queue now reply p in
      after_refill-Next i now e r.0 r.1 (
        subst (λ e. Refills i now e (refill_queue now reply p)) h.1
          (refill_from-Refills i now reply p.initial_start p.last_processed_open_time p
            (h.0, refl, h.2)))

  pub next_from-Next :
      (i now : ℕ) (reply : ℕ → ℕ → Reply F) (e : Option ℕ) (p : Provider F)
      (q : List (CandleTick F))
      → p.pending_queue ≡ q
      → IsAfter i now e p
      → Next i now e (next_from now reply p q)
  unfolding next_from pop_from_queue
  next_from-Next i now reply none p [] eq h = refill_queue-Next i now reply none p (h.0, h.1, eq)
  next_from-Next i now reply (some t) p [] eq h =
      refill_queue-Next i now reply (some t) p (h.0, h.1, eq)
  next_from-Next i now reply none p (c ∷ cs) eq h = absurd (ground (arith, eq, h.2))
  next_from-Next i now reply (some t) p (c ∷ cs) eq h =
      let k = subst (Chain i now t) eq h.2 in ((k.0, k.1), (h.0, refl, k.2))
