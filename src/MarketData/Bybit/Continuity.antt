-- ===== src/MarketData/Bybit/Continuity.antt =====
-- The candles that a provider delivers, over any run of ticks, follow one another without a hole, and had closed.
use agente_tradin_ia_v2_mult.Common.{
  ℕ, ◌≤◌, Bool, true, false, Option, none, some, List, [], ◌∷◌, ◌≡◌, refl, ap, ◌∙◌, ◌⊎◌, inl, inr,
  arith, Option-cases, some_injective,
}
use agente_tradin_ia_v2_mult.MarketData.{
  CandleTick, Fetch, replay_finished, nothing_new, retryable, fatal, gap, new_candle,
}
use agente_tradin_ia_v2_mult.MarketData.Bybit.{Provider, further, sync_cursor}
use agente_tradin_ia_v2_mult.MarketData.Bybit.Queue.{next_candle}
use agente_tradin_ia_v2_mult.MarketData.Bybit.Filling.{Follows, Waits}
use agente_tradin_ia_v2_mult.MarketData.Bybit.Delivery.{
  IsAfter, IsAfter-later, Next, next_from-Next,
}
use agente_tradin_ia_v2_mult.MarketData.Bybit.Ticks.{Poll, newest, after_poll, deliveries}

-- The database is not ahead of what was delivered.
abbrev UpTo : Option ℕ → ℕ → Type 0
UpTo none t = Unit
UpTo (some u) t = u ≤ t

abbrev Behind : Option ℕ → Option ℕ → Type 0
Behind persisted none = persisted ≡ none
Behind persisted (some t) = UpTo persisted t

further-some : (u t : ℕ) → u ≤ t → further u (some t) ≡ t
unfolding further
further-some u t h = ground arith

newest-UpTo :
    (persisted : Option ℕ) (t : ℕ) (keeps : Bool)
    → UpTo persisted t
    → UpTo (newest persisted t keeps) t
unfolding further
newest-UpTo persisted t false h = h
newest-UpTo none t true h = omega arith
newest-UpTo (some u) t true h = ground arith

module _ {F : Type 0} where
  -- A provider that the ticks have left for the next one at `now`.
  abbrev Ready : ℕ → ℕ → Option ℕ → Option ℕ → Provider F → Type 0
  Ready i now none persisted p = (persisted ≡ none) × IsAfter i now none p
  Ready i now (some t) persisted p =
      (UpTo persisted t × IsAfter i now (some t) p) ⊎ ((persisted ≡ some t) × IsAfter i now none p)

  sync-IsAfter :
      (i now : ℕ) (e persisted : Option ℕ) (p : Provider F)
      → Ready i now e persisted p
      → IsAfter i now e (sync_cursor persisted p)
  unfolding sync_cursor further
  sync-IsAfter i now none none p h = (h.1.0, h.1.1, h.1.2)
  sync-IsAfter i now none (some u) p h = absurd (ground (arith, h.0))
  sync-IsAfter i now (some t) none p (inl h) = h.1
  sync-IsAfter i now (some t) none p (inr h) = absurd (ground (arith, h.0))
  sync-IsAfter i now (some t) (some u) p (inl h) =
      (h.1.0, ap some (ap (further u) h.1.1 ∙ further-some u t h.0), h.1.2)
  sync-IsAfter i now (some t) (some u) p (inr h) =
      (h.1.0, ap some (ap (further u) h.1.1 ∙ some_injective h.0), rw h.1.2 tt)

  Ready-Behind :
      (i now : ℕ) (e persisted : Option ℕ) (p : Provider F)
      → Ready i now e persisted p
      → Behind persisted e
  Ready-Behind i now none persisted p h = h.0
  Ready-Behind i now (some t) persisted p (inl h) = h.0
  Ready-Behind i now (some t) none p (inr h) = tt
  Ready-Behind i now (some t) (some u) p (inr h) = ground (arith, h.0)

  Follows-UpTo :
      (i now : ℕ) (e persisted : Option ℕ) (c : CandleTick F)
      → Behind persisted e
      → Follows i now e c
      → UpTo persisted c.open_time
  Follows-UpTo i now e none c b h = tt
  Follows-UpTo i now none (some u) c b h = absurd (ground (arith, b))
  Follows-UpTo i now (some t) (some u) c b h = omega (arith, b, h.0)

  -- Deliveries of candles that are one interval apart, the first of them following `e`, each at an
  -- instant at which it had closed.
  abbrev pub Contiguous : ℕ → Option ℕ → List (ℕ × CandleTick F) → Type 0
  Contiguous i e [] = Unit
  Contiguous i e ((now, c) ∷ ds) = Follows i now e c × Contiguous i (some c.open_time) ds

  Contiguous-first :
      (i t : ℕ) (ds : List (ℕ × CandleTick F)) → Contiguous i (some t) ds → Contiguous i none ds
  Contiguous-first i t [] h = tt
  Contiguous-first i t ((now, c) ∷ ds) h = (h.0.1, h.1)

  -- The instants of the ticks never go back.
  abbrev pub Ascends : ℕ → List (Poll F) → Type 0
  Ascends now [] = Unit
  Ascends now (poll ∷ polls) = (now ≤ poll.now) × Ascends poll.now polls

  -- The ticks that are left after `now` are given contiguous candles.
  abbrev Goes : ℕ → ℕ → (Option ℕ → Provider F → List (ℕ × CandleTick F)) → Type 0
  Goes i now rest =
      (e persisted : Option ℕ) (p : Provider F)
      → Ready i now e persisted p
      → Contiguous i e (rest persisted p)

  Waits-Contiguous :
      (i now : ℕ) (e persisted : Option ℕ) (p : Provider F)
      (rest : Option ℕ → Provider F → List (ℕ × CandleTick F))
      → Goes i now rest
      → Behind persisted e
      → Waits i e p
      → Contiguous i e (rest persisted p)
  Waits-Contiguous i now (some t) persisted p rest k b (d, q, inl n) = absurd (ground (arith, n))
  Waits-Contiguous i now (some t) persisted p rest k b (d, q, inr l) =
      k (some t) persisted p (inl (b, (d, l, rw q tt)))
  Waits-Contiguous i now none persisted p rest k b (d, q, l) =
      elim (Option-cases p.last_processed_open_time) [
        | inl n ↦ k none persisted p (b, (d, n, q))
        | inr (u, s) ↦
            Contiguous-first i u (rest persisted p)
              (k (some u) persisted p (inl (rw b tt, (d, s, rw q tt))))
      ]

  after_poll-Contiguous :
      (i : ℕ) (e x : Option ℕ) (poll : Poll F)
      (rest : Option ℕ → Provider F → List (ℕ × CandleTick F)) (p : Provider F)
      (r : Option (Fetch F))
      → Goes i poll.now rest
      → Behind x e
      → Next i poll.now e (p, r)
      → Contiguous i e (after_poll rest x poll (p, r))
  after_poll-Contiguous i e x poll rest p none k b h = Waits-Contiguous i poll.now e x p rest k b h
  after_poll-Contiguous i e x poll rest p (some nothing_new) k b h =
      Waits-Contiguous i poll.now e x p rest k b h
  after_poll-Contiguous i e x poll rest p (some retryable) k b h =
      Waits-Contiguous i poll.now e x p rest k b h
  after_poll-Contiguous i e x poll rest p (some fatal) k b h =
      Waits-Contiguous i poll.now e x p rest k b h
  after_poll-Contiguous i e x poll rest p (some gap) k b h =
      Waits-Contiguous i poll.now e x p rest k b h
  after_poll-Contiguous i e x poll rest p (some replay_finished) k b h =
      Waits-Contiguous i poll.now e x p rest k b h
  after_poll-Contiguous i e x poll rest p (some (new_candle c)) k b h =
      let t = c.open_time in
      let x' = newest x t poll.keeps in
      let fits = newest-UpTo x t poll.keeps (Follows-UpTo i poll.now e x c b h.0) in
      (h.0, k (some t) x' p (inl (fits, h.1)))

  deliveries-Goes :
      (i now : ℕ) (polls : List (Poll F)) → Ascends now polls → Goes i now (deliveries polls)
  unfolding deliveries next_candle
  deliveries-Goes i now [] up e x p h = tt
  deliveries-Goes i now (poll ∷ polls) up e x p h =
      let p' = sync_cursor x p in
      let r = next_candle poll.now poll.reply p' in
      after_poll-Contiguous i e x poll (deliveries polls) r.0 r.1
        (deliveries-Goes i poll.now polls up.1) (Ready-Behind i now e x p h)
        (next_from-Next i poll.now poll.reply e p' p'.pending_queue refl
          (IsAfter-later i now poll.now e p' up.0 (sync-IsAfter i now e x p h)))

  -- Over any ticks at instants that never go back, with any answers of the exchange (rows out of order,
  -- missing, twice or outside the window asked for, failures and exceptions), a provider that has
  -- just been made delivers candles that are exactly one interval apart and had all closed when they
  -- were delivered; the first is the one that follows the newest candle of the database, if there is
  -- one. This holds whichever of the candles the ticks keep.
  pub deliveries-Contiguous :
      (polls : List (Poll F)) (persisted : Option ℕ) (p : Provider F)
      → Ascends 0 polls
      → p.last_processed_open_time ≡ none
      → p.pending_queue ≡ []
      → Contiguous p.interval persisted (deliveries polls persisted p)
  deliveries-Contiguous polls none p up l q =
      deliveries-Goes p.interval 0 polls up none none p (refl, (refl, l, q))
  deliveries-Contiguous polls (some t) p up l q =
      deliveries-Goes p.interval 0 polls up (some t) (some t) p (inr (refl, (refl, l, q)))
