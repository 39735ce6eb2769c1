-- ===== src/Strategy/Aggregator/Series.antt =====
-- What a series of candles is put together into: no bucket twice, and none out of order.
use agente_tradin_ia_v2_mult.Common.{
  ℕ, ◌+◌, Option, none, some, List, [], ◌∷◌, length, ◌≡◌, false, subst, arith,
}
use agente_tradin_ia_v2_mult.Float.{Float}
use agente_tradin_ia_v2_mult.MarketData.{CandleTick}
use agente_tradin_ia_v2_mult.Strategy.Slots.{
  AggregatedCandle, CandleAggregator, is_late, option_cons,
}
use agente_tradin_ia_v2_mult.Strategy.Aggregator.{push, hydrate}
use agente_tradin_ia_v2_mult.Strategy.Aggregator.Forming.{IsForming, Finalizes, finalized_buckets}
use agente_tradin_ia_v2_mult.Strategy.Aggregator.Steps.{push-StepsTo}

module _ {F : Type 0} ⦃f : Float F⦄ where
  -- The buckets of a list come after an instant, one after the other.
  unfoldable pub Ascending : Option ℕ → List (AggregatedCandle F) → Type 0
  Ascending last [] = Unit {0}
  Ascending last (c ∷ cs) = (is_late c.open_time last ≡ false) × Ascending (some c.open_time) cs

  Ascending-cons :
      (a a' : CandleAggregator F) (c : Option (AggregatedCandle F)) (cs : List (AggregatedCandle F))
      (n : ℕ)
      → Finalizes a a' c
      → Ascending a'.last_finalized_start cs
      → n ≡ finalized_buckets a' + length cs
      → Ascending a.last_finalized_start (option_cons c cs)
        × (n ≡ finalized_buckets a + length (option_cons c cs))
  unfolding Ascending Finalizes
  Ascending-cons a a' none cs n h k e = (subst (λ l. Ascending l cs) h.0 k, omega (arith, h.1, e))
  Ascending-cons a a' (some c) cs n h k e =
      ((h.0, subst (λ l. Ascending l cs) h.1 k), omega (arith, h.2, e))

  -- The candles that a series is put together into come one after the other, later than those
  -- before the series, so that no bucket is given twice; and each is counted, complete or not.
  pub hydrate-Ascending :
      (a : CandleAggregator F) (candles : List (CandleTick F))
      → IsForming a
      → let r = hydrate a candles in
        Ascending a.last_finalized_start r.1
        × (finalized_buckets r.0 ≡ finalized_buckets a + length r.1)
        × IsForming r.0
  unfolding hydrate Ascending
  hydrate-Ascending a [] inv = (tt, omega arith, inv)
  hydrate-Ascending a (candle ∷ candles) inv =
      let s = push-StepsTo a candle inv in
      let b = (push a candle).0 in
      let rest = hydrate-Ascending b candles s.forming in
      let k =
        Ascending-cons a b (push a candle).1 (hydrate b candles).1 _ s.finalizes rest.0 rest.1 in
      (k.0, k.1, rest.2)
