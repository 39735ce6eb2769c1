-- ===== src/Strategy/Aggregator/Steps.antt =====
-- What a candle does to the bucket that forms.
use agente_tradin_ia_v2_mult.Common.{
  ℕ, ◌+◌, ◌≤◌, ◌<◌, false, Option, none, some, [], ◌∷◌, length, length-append, ◌≡◌, refl, sym, ap,
  ◌∙◌, subst, arith, Bool-cases, inl, inr, leb, ltb, ◌==◌,
}
use agente_tradin_ia_v2_mult.Float.{Float}
use agente_tradin_ia_v2_mult.MarketData.{CandleTick}
use agente_tradin_ia_v2_mult.Strategy.Slots.{
  Timeframe, minutes_of, AggregatedCandle, CandleAggregator, expected_slots_of, bucket_start,
  is_late, has_slot,
}
use agente_tradin_ia_v2_mult.Strategy.Aggregator.{
  finalize, push_into, finish, with_slot, ensure_at, open_and_store, store_candle, push, count_late,
  count_duplicate,
}
use agente_tradin_ia_v2_mult.Strategy.Aggregator.Forming.{
  IsForming, Finalizes, finalized_buckets, StepsTo, finalize-some, has_slot_nonempty, forms,
  finish_steps,
}

timeframe_positive : (tf : Timeframe) → 1 ≤ minutes_of tf
timeframe_positive tf = ground arith

module _ {F : Type 0} ⦃f : Float F⦄ where
  store_steps :
      (start slot : ℕ) (candle : CandleTick F) (a : CandleAggregator F)
      → a.forming_start ≡ some start
      → is_late start a.last_finalized_start ≡ false
      → length a.slots < expected_slots_of a
      → let r = store_candle slot candle a none in StepsTo a r.0 r.1
  unfolding store_candle Finalizes
  store_steps start slot candle a hs hl hn =
      let a' = with_slot slot candle a in
      let l = length-append a.slots ((slot, candle) ∷ []) in
      elim (Bool-cases (has_slot slot a.slots)) [
        | inl y ↦ rw y (record {
          forming = forms (count_duplicate a) start hs hl (has_slot_nonempty slot a.slots y) hn;
          finalizes = (refl, refl);
          same_timeframe = refl;
        })
        | inr n ↦ elim (Bool-cases (leb (expected_slots_of a') (length a'.slots))) [
          | inl full ↦
              let z = finalize-some a' start hs (omega (arith, l)) in
              let s = finish_steps a' start z.0 z.2 hl in
              rw (n, full, z.1)
                (record { forming = s.forming; finalizes = s.finalizes; same_timeframe = refl })
          | inr more ↦
              rw (n, more)
                (record {
                  forming = forms a' start hs hl (omega (arith, l)) (ground (arith, more));
                  finalizes = (refl, refl);
                  same_timeframe = refl;
                })
        ]
      ]

  Finalizes-alike :
      (a b a' : CandleAggregator F) (c : Option (AggregatedCandle F))
      → a.last_finalized_start ≡ b.last_finalized_start
      → finalized_buckets a ≡ finalized_buckets b
      → Finalizes a a' c
      → Finalizes b a' c
  unfolding Finalizes
  Finalizes-alike a b a' none l n h = (h.0 ∙ l, h.1 ∙ n)
  Finalizes-alike a b a' (some c) l n h =
      (subst (λ o. is_late c.open_time o ≡ false) l h.0, h.1, h.2 ∙ ap (λ k. k + 1) n)

  turned_away : (a : CandleAggregator F) → IsForming a → StepsTo a (count_late a) none
  unfolding Finalizes
  turned_away a inv = record {
    forming = record { ahead = inv.ahead; started = inv.started; unfilled = inv.unfilled };
    finalizes = (refl, refl);
    same_timeframe = refl;
  }

  open_steps :
      (start slot : ℕ) (candle : CandleTick F) (a : CandleAggregator F)
      → a.forming_start ≡ none
      → is_late start a.last_finalized_start ≡ false
      → let r = open_and_store start slot candle (a, none) in StepsTo a r.0 r.1
  unfolding open_and_store
  open_steps start slot candle a hs hl =
      let b = ensure_at start a none in
      let s = store_steps start slot candle b refl hl (timeframe_positive a.timeframe) in
      let r = store_candle slot candle b none in
      subst (λ o. let q = store_candle slot candle (ensure_at start a o) none in StepsTo a q.0 q.1)
        (sym hs)
        (record {
          forming = s.forming;
          finalizes = Finalizes-alike b a r.0 r.1 refl refl s.finalizes;
          same_timeframe = s.same_timeframe;
        })

  move_steps :
      (start slot current : ℕ) (candle : CandleTick F) (a : CandleAggregator F)
      → IsForming a
      → a.forming_start ≡ some current
      → current < start
      → let r = open_and_store start slot candle (finalize a) in StepsTo a r.0 r.1
  unfolding open_and_store store_candle Finalizes
  move_steps start slot current candle a inv hs lt =
      let z = finalize-some a current hs (inv.started current hs) in
      let s = finish_steps a current z.0 z.2 (inv.ahead current hs) in
      let n = inv.started current hs in
      let m = inv.unfilled current hs in
      let more : leb (expected_slots_of a) 1 ≡ false = ground (arith, n, m) in
      let b = ensure_at start (finish a current (some z.0)).0 none in
      rw (z.1, more)
        (record {
          forming =
              forms (with_slot slot candle b) start refl (ground (arith, lt)) (omega arith)
                (omega (arith, n, m));
          finalizes = s.finalizes;
          same_timeframe = refl;
        })

  into_steps :
      (start slot : ℕ) (candle : CandleTick F) (a : CandleAggregator F) (o : Option ℕ)
      → IsForming a
      → a.forming_start ≡ o
      → is_late start a.last_finalized_start ≡ false
      → let r = push_into start slot candle a o in StepsTo a r.0 r.1
  unfolding push_into open_and_store
  into_steps start slot candle a none inv hs hl = open_steps start slot candle a hs hl
  into_steps start slot candle a (some current) inv hs hl = elim (Bool-cases (start == current)) [
    | inl same ↦ rw same (
        subst
          (λ o. let q = store_candle slot candle (ensure_at start a o) none in StepsTo a q.0 q.1)
          (sym hs)
          (store_steps current slot candle a hs (inv.ahead current hs) (inv.unfilled current hs)))
    | inr other ↦ elim (Bool-cases (ltb start current)) [
      | inl back ↦ rw (other, back) (turned_away a inv)
      | inr on ↦
          rw (other, on) (move_steps start slot current candle a inv hs (ground (arith, other, on)))
    ]
  ]

  -- A candle keeps the bucket that forms behind all that are finalized, started and not full. It
  -- finalizes at most one bucket: the one it gives back, which is later than all before it, is the
  -- last from then on, and is the only one counted.
  pub push-StepsTo :
      (a : CandleAggregator F) (candle : CandleTick F)
      → IsForming a
      → let r = push a candle in StepsTo a r.0 r.1
  unfolding push
  push-StepsTo a candle inv =
      let start = bucket_start candle.open_time (minutes_of a.timeframe) in
      let slot = bucket_start candle.open_time 1 in
      elim (Bool-cases (is_late start a.last_finalized_start)) [
        | inl late ↦ rw late (turned_away a inv)
        | inr ok ↦ rw ok (into_steps start slot candle a a.forming_start inv refl ok)
      ]
