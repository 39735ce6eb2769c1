-- ===== src/Strategy/Aggregator.antt =====
-- app/strategy/aggregator.py: one-minute candles put together into candles of 5 or 15 minutes.
-- Instants are microseconds since the epoch, and the minutes of a timeframe are one of the supported
-- three, any other being refused when an aggregator is made. A dictionary is the list of its items.
pub mod Forming
pub mod Steps
pub mod Series
use agente_tradin_ia_v2_mult.Common.{
  ℕ, zero, suc, ◌+◌, ◌-◌, ◌*◌, ◌/◌, ◌%◌, String, Bool, true, false, not, ◌&&◌, ◌||◌, Option, none,
  some, List, [], ◌∷◌, ◌++◌, map, foldl, length, ltb, leb, ◌==◌, if◌then◌else◌,
}
use agente_tradin_ia_v2_mult.Float.{Float, max, min, sum}
use agente_tradin_ia_v2_mult.Core.Freshness.{minute}
use agente_tradin_ia_v2_mult.MarketData.{CandleTick}
use agente_tradin_ia_v2_mult.Strategy.Slots.{
  Timeframe, minutes_of, canonical, AggregatedCandle, AggregationStats, hour, bucket_start,
  CandleAggregator, expected_slots_of, has_slot, slot_times, missing_in, insert, sort, last_close,
  is_empty, count_bucket, or_else, is_late, option_cons, one, five, fifteen,
}

module _ {F : Type 0} ⦃f : Float F⦄ where
  -- `_build`, on the slots in order; without a slot `max` would raise.
  unfoldable pub build_ordered :
      CandleAggregator F → ℕ → List (ℕ × CandleTick F) → Bool → Option (AggregatedCandle F)
  build_ordered a start [] forced_partial = none
  build_ordered a start (s ∷ slots) forced_partial =
      let missing = missing_in (s ∷ slots) (slot_times start (expected_slots_of a)) in
      let complete = is_empty missing && not forced_partial in
      some (record {
        symbol = a.symbol;
        timeframe = canonical a.timeframe;
        open_time = start;
        close_time = start + minutes_of a.timeframe * minute;
        «open» = s.1.«open»;
        high = foldl max s.1.high (map (λ t. t.1.high) slots);
        low = foldl min s.1.low (map (λ t. t.1.low) slots);
        close = last_close s.1 slots;
        volume = sum (map (λ t. t.1.volume) (s ∷ slots));
        complete = complete;
        partial = not complete;
        expected_slots = expected_slots_of a;
        received_slots = length (s ∷ slots);
        missing_slots = missing;
      })

  -- `forming`
  unfoldable pub forming : CandleAggregator F → Option (AggregatedCandle F)
  unfolding build_ordered
  forming a = elim a.forming_start [
    | none ↦ none
    | some start ↦ build_ordered a start (sort a.slots) true
  ]

  abbrev pub reset : CandleAggregator F → CandleAggregator F
  reset a = record a { forming_start = none; slots = [] }

  -- The rest of `_finalize`, once the candle is built.
  abbrev pub finish :
      CandleAggregator F
      → ℕ
      → Option (AggregatedCandle F)
      → CandleAggregator F × Option (AggregatedCandle F)
  finish a start none = (reset a, none)
  finish a start (some c) = (
    record a {
      forming_start = none;
      slots = [];
      last_finalized_start = some start;
      stats = count_bucket c.complete a.stats;
    },
    some c,
  )

  -- `_finalize`
  unfoldable pub finalize_at :
      CandleAggregator F → Option ℕ → CandleAggregator F × Option (AggregatedCandle F)
  unfolding build_ordered
  finalize_at a none = (reset a, none)
  finalize_at a (some start) = finish a start (build_ordered a start (sort a.slots) false)

  unfoldable pub finalize : CandleAggregator F → CandleAggregator F × Option (AggregatedCandle F)
  unfolding finalize_at
  finalize a = finalize_at a a.forming_start

  abbrev pub count_late : CandleAggregator F → CandleAggregator F
  count_late a = record a {
    stats = record a.stats { late_candles_discarded = a.stats.late_candles_discarded + 1 };
  }

  abbrev pub count_duplicate : CandleAggregator F → CandleAggregator F
  count_duplicate a = record a {
    stats = record a.stats { duplicate_candles = a.stats.duplicate_candles + 1 };
  }

  -- `if self._bucket_start is None: ...`
  abbrev pub ensure_at : ℕ → CandleAggregator F → Option ℕ → CandleAggregator F
  ensure_at start a none = record a { forming_start = some start; slots = [] }
  ensure_at start a (some _) = a

  abbrev pub with_slot : ℕ → CandleTick F → CandleAggregator F → CandleAggregator F
  with_slot slot candle a = record a { slots = a.slots ++ ((slot, candle) ∷ []) }

  -- The rest of `push`, once there is a bucket.
  unfoldable pub store_candle :
      ℕ
      → CandleTick F
      → CandleAggregator F
      → Option (AggregatedCandle F)
      → CandleAggregator F × Option (AggregatedCandle F)
  unfolding finalize
  store_candle slot candle a finalized =
      if has_slot slot a.slots
      then (count_duplicate a, finalized)
      else let a' = with_slot slot candle a in
        let r = finalize a' in
        if leb (expected_slots_of a') (length a'.slots)
        then (r.0, or_else finalized r.1)
        else (a', finalized)

  -- The rest of `push`, after the transition between buckets.
  unfoldable pub open_and_store :
      ℕ
      → ℕ
      → CandleTick F
      → CandleAggregator F × Option (AggregatedCandle F)
      → CandleAggregator F × Option (AggregatedCandle F)
  unfolding store_candle
  open_and_store start slot candle r =
      store_candle slot candle (ensure_at start r.0 r.0.forming_start) r.1

  -- The candle, into the bucket that forms; late candles of finalized buckets are turned away.
  unfoldable pub push_into :
      ℕ
      → ℕ
      → CandleTick F
      → CandleAggregator F
      → Option ℕ
      → CandleAggregator F × Option (AggregatedCandle F)
  unfolding finalize open_and_store
  push_into start slot candle a none = open_and_store start slot candle (a, none)
  push_into start slot candle a (some current) =
      if start == current
      then open_and_store start slot candle (a, none)
      else if ltb start current
      then (count_late a, none)
      else open_and_store start slot candle (finalize a)

  unfoldable pub push :
      CandleAggregator F → CandleTick F → CandleAggregator F × Option (AggregatedCandle F)
  unfolding bucket_start push_into
  push a candle =
      let start = bucket_start candle.open_time (minutes_of a.timeframe) in
      let slot = bucket_start candle.open_time 1 in
      if is_late start a.last_finalized_start
      then (count_late a, none)
      else push_into start slot candle a a.forming_start

  unfoldable pub hydrate :
      CandleAggregator F → List (CandleTick F) → CandleAggregator F × List (AggregatedCandle F)
  unfolding push
  hydrate a [] = (a, [])
  hydrate a (candle ∷ candles) =
      let r = push a candle in let rest = hydrate r.0 candles in (rest.0, option_cons r.1 rest.1)

  -- `to_candle_tick`
  unfoldable pub to_candle_tick : AggregatedCandle F → CandleTick F
  to_candle_tick c = record {
    symbol = c.symbol;
    timeframe = c.timeframe;
    open_time = c.open_time;
    «open» = c.«open»;
    high = c.high;
    low = c.low;
    close = c.close;
    volume = c.volume;
  }
