-- ===== src/Strategy/Examples.antt =====
-- The theorems on the strategy at work on concrete candles.
use agente_tradin_ia_v2_mult.Common.{
  ℕ, ◌+◌, true, false, Option, none, some, [], ◌∷◌, ◌≡◌, ◌↔◌, refl, arith,
}
use agente_tradin_ia_v2_mult.Common.Int.{pos, ◌+ℤ◌, ◌-ℤ◌, ◌*ℤ◌, ◌/ℤ◌}
use agente_tradin_ia_v2_mult.Float.{Fixed, fixed_float}
use agente_tradin_ia_v2_mult.MarketData.{CandleTick}
use agente_tradin_ia_v2_mult.Persistence.Models.{buy}
use agente_tradin_ia_v2_mult.Strategy.Schemas.{Signal}
use agente_tradin_ia_v2_mult.Strategy.Engine.{
  StrategyEngine, hydrate, on_candle, sma, average_true_range, true_ranges, true_range,
}
use agente_tradin_ia_v2_mult.Strategy.Engine.Invariant.{IsConsistent, IsDivisible}
use agente_tradin_ia_v2_mult.Strategy.Engine.Replay.{live, hydrate-live}
use agente_tradin_ia_v2_mult.Strategy.Engine.Crossing.{StoodAbove, IsCrossing, on_candle_iff}
use agente_tradin_ia_v2_mult.Strategy.Slots.{five, CandleAggregator, AggregatedCandle}
use agente_tradin_ia_v2_mult.Strategy.Aggregator.{push}
use agente_tradin_ia_v2_mult.Strategy.Aggregator.Forming.{IsForming, StepsTo}
use agente_tradin_ia_v2_mult.Strategy.Aggregator.Steps.{push-StepsTo}

abbrev candle_at : ℕ → ℕ → CandleTick Fixed
candle_at t price = record {
  symbol = "BTCUSDT";
  timeframe = "1m";
  open_time = t;
  «open» = pos price;
  high = pos (price + 1_000_000);
  low = pos price;
  close = pos price;
  volume = pos 1_000_000;
}

-- Averages over 1 and 2 candles, the ATR over 1, after closes of 12, 11 and 10.
abbrev pub engine : StrategyEngine Fixed
engine = record {
  symbol = "BTCUSDT";
  config = record {
    fast_period = 1;
    slow_period = 2;
    atr_period = 1;
    min_atr_pct_of_price = pos 0;
    max_atr_pct_of_price = pos 9_000_000;
    stop_loss_atr_multiple = pos 2_000_000;
    take_profit_atr_multiple = pos 3_000_000;
  };
  closes = pos 12_000_000 ∷ pos 11_000_000 ∷ pos 10_000_000 ∷ [];
  highs = pos 12_000_000 ∷ pos 11_000_000 ∷ pos 10_000_000 ∷ [];
  lows = pos 12_000_000 ∷ pos 11_000_000 ∷ pos 10_000_000 ∷ [];
  prev_fast_above_slow = some false;
}

consistent : IsConsistent engine
consistent = record {
  as_many_highs = refl;
  as_many_lows = refl;
  prev_warm = λ b h. (omega arith, omega arith);
}

divisible : IsDivisible engine.config
divisible = record { fast_nonzero = refl; slow_nonzero = refl; atr_nonzero = refl }

abbrev rise : CandleTick Fixed
rise = candle_at 60_000_000 14_000_000

abbrev value : {A : Type 0} → A → Option A → A
value a none = a
value a (some b) = b

abbrev Answer : Type 0
Answer = StrategyEngine Fixed × Signal Fixed

abbrev silent : Answer
silent = (
  engine,
  record {
    symbol = "BTCUSDT";
    direction = buy;
    observed_price = pos 0;
    atr = pos 0;
    stop_loss = none;
    take_profit = none;
    source_candle_open_time = none;
  },
)

abbrev fall : CandleTick Fixed
fall = candle_at 0 9_000_000

abbrev fallen : Answer
fallen = value silent (on_candle engine fall)

abbrev answer : Answer
answer = value silent (on_candle fallen.0 rise)

on_candle_iff_example : (answer.1.direction ≡ buy) ↔ (
    (fast : Fixed) × (slow : Fixed) × (atr : Fixed) × IsCrossing
      (StoodAbove false engine fall)
      true
      fallen.0
      rise
      fast
      slow
      atr)
unfolding on_candle sma average_true_range true_ranges true_range ◌+ℤ◌ ◌-ℤ◌ ◌*ℤ◌ ◌/ℤ◌
on_candle_iff_example = on_candle_iff true engine fall rise fallen answer refl refl

hydrate-live_example :
    (e' : StrategyEngine Fixed) × (hydrate engine (rise ∷ rise ∷ []) ≡ some e')
    × (live engine (rise ∷ rise ∷ []) ≡ some e')
hydrate-live_example = hydrate-live engine (rise ∷ rise ∷ []) consistent divisible

abbrev pub aggregator : CandleAggregator Fixed
aggregator = record {
  symbol = "BTCUSDT";
  timeframe = five;
  stats = record {
    complete_buckets = 0;
    incomplete_buckets = 0;
    duplicate_candles = 0;
    late_candles_discarded = 0;
  };
  forming_start = some 0;
  slots = (0, candle_at 0 10_000_000) ∷ [];
  last_finalized_start = none;
}

forming_now : IsForming aggregator
forming_now = record {
  ahead = λ start h. refl;
  started = λ start h. omega arith;
  unfilled = λ start h. omega arith;
}

push-StepsTo_example :
    let r = push aggregator (candle_at 300_000_000 11_000_000) in StepsTo aggregator r.0 r.1
push-StepsTo_example = push-StepsTo aggregator (candle_at 300_000_000 11_000_000) forming_now

abbrev built : AggregatedCandle Fixed
built = record {
  symbol = "BTCUSDT";
  timeframe = "5m";
  open_time = 0;
  close_time = 300_000_000;
  «open» = pos 10_000_000;
  high = pos 11_000_000;
  low = pos 10_000_000;
  close = pos 10_000_000;
  volume = pos 1_000_000;
  complete = false;
  partial = true;
  expected_slots = 5;
  received_slots = 1;
  missing_slots = 60_000_000 ∷ 120_000_000 ∷ 180_000_000 ∷ 240_000_000 ∷ [];
}
