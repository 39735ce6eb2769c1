-- ===== src/MarketData/Examples.antt =====
-- The theorems on market data at work on concrete answers of the exchange, with prices that are numbers.
use agente_tradin_ia_v2_mult.Common.{
  ℕ, ◌*◌, ◌/◌, ◌≡◌, refl, arith, true, false, none, some, List, [], ◌∷◌, map,
}
use agente_tradin_ia_v2_mult.MarketData.{CandleTick, gap}
use agente_tradin_ia_v2_mult.MarketData.Bybit.{Kline, Reply, raises, timed_out, rows, Provider}
use agente_tradin_ia_v2_mult.MarketData.Bybit.Queue.{next_candle}
use agente_tradin_ia_v2_mult.MarketData.Bybit.Ticks.{Poll, deliveries}
use agente_tradin_ia_v2_mult.MarketData.Bybit.Continuity.{Contiguous, deliveries-Contiguous}

abbrev minute : ℕ
minute = 60_000_000

abbrev provider : Provider ℕ
provider = record {
  symbol = "BTCUSDT";
  timeframe = "1";
  page_size = 3;
  max_pages_per_poll = 2;
  initial_start = none;
  interval = minute;
  backoff_attempt = 0;
  last_received_at = none;
  last_processed_open_time = none;
  consecutive_failures = 0;
  pending_queue = [];
  pending_gap = none;
}

-- The row of a minute.
abbrev kline : ℕ → Kline ℕ
kline n = record { start = n * 60_000; «open» = n; high = n; low = n; close = n; volume = 1 }

abbrev answer : List ℕ → ℕ → ℕ → Reply ℕ
answer minutes start end = rows (map kline minutes)

abbrev poll : ℕ → List ℕ → Poll ℕ
poll n minutes = record { now = n * minute; reply = answer minutes; keeps = true }

-- Rows newest first, one of them in formation; an exception in a tick; a timeout; a hole; the hole filled.
abbrev polls : List (Poll ℕ)
polls =
    poll 12 (12 ∷ 11 ∷ 10 ∷ [])
    ∷ record { now = 12 * minute; reply = answer []; keeps = false }
    ∷ record { now = 13 * minute; reply = λ start end. timed_out; keeps = true }
    ∷ record { now = 14 * minute; reply = λ start end. raises; keeps = true }
    ∷ poll 15 (14 ∷ 13 ∷ [])
    ∷ poll 15 (14 ∷ 13 ∷ 12 ∷ [])
    ∷ poll 15 []
    ∷ poll 15 []
    ∷ []

abbrev minute_of : ℕ × CandleTick ℕ → ℕ
minute_of d = d.1.open_time / minute

delivered : map minute_of (deliveries polls none provider) ≡ 10 ∷ 11 ∷ 12 ∷ 13 ∷ 14 ∷ []
unfolding deliveries
delivered = refl

delivered_after :
    map minute_of (deliveries polls (some (10 * minute)) provider) ≡ 11 ∷ 12 ∷ 13 ∷ 14 ∷ []
unfolding deliveries
delivered_after = refl

deliveries-Contiguous_example : Contiguous minute none (deliveries polls none provider)
deliveries-Contiguous_example = deliveries-Contiguous polls none provider (ground arith) refl refl

abbrev after : ℕ → List ℕ → Provider ℕ → Provider ℕ
after n minutes p = (next_candle (n * minute) (answer minutes) p).0

-- A hole that was kept for later is told of although the missing candle came in between: 10 and 12,
-- then 11 and 12, and then nothing.
stale_gap :
    (next_candle
      (15 * minute)
      (answer [])
      (after 13 [] (after 13 (12 ∷ 11 ∷ []) (after 13 (12 ∷ 10 ∷ []) provider)))).1
    ≡ some gap
unfolding next_candle
stale_gap = refl
