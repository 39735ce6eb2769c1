-- ===== src/MarketData/Bybit.antt =====
-- app/market_data/bybit_provider.py: `BybitDemoMarketDataProvider`, which asks the exchange for closed
-- candles, window by window, and delivers them one by one. The price of the candle that is still
-- forming, which only the panel shows, and the length of a pause after a failure are left out.
pub mod Queue
pub mod Filling
pub mod Delivery
pub mod Ticks
pub mod Continuity
use agente_tradin_ia_v2_mult.Common.{
  ℕ, zero, suc, ◌+◌, ◌-◌, ◌*◌, String, Bool, true, false, not, ◌&&◌, ◌==◌, Option, none, some, List,
  [], ◌∷◌, ◌++◌, ltb, leb, length, if◌then◌else◌,
}
use agente_tradin_ia_v2_mult.MarketData.{CandleTick, Fetch, nothing_new, retryable, gap, new_candle}

-- A row of the exchange, its start in milliseconds.
pub record Kline (F : Type 0) : Type 0 where
  pub start : ℕ
  pub «open» : F
  pub high : F
  pub low : F
  pub close : F
  pub volume : F

-- What a request for a window comes to: an exception that is not caught, a timeout or rate limit, rows
-- of which one cannot be read, or rows.
pub data Reply (F : Type 0) : Type 0 where
  raises timed_out unreadable : Reply F
  rows : List (Kline F) → Reply F

pub record Provider (F : Type 0) : Type 0 where
  pub symbol : String
  pub timeframe : String
  pub page_size : ℕ
  pub max_pages_per_poll : ℕ
  pub initial_start : Option ℕ
  pub interval : ℕ
  pub backoff_attempt : ℕ
  pub last_received_at : Option ℕ
  pub last_processed_open_time : Option ℕ
  pub consecutive_failures : ℕ
  pub pending_queue : List (CandleTick F)
  pub pending_gap : Option (ℕ × ℕ)

-- What a window has: an exception, a failure, or candles in the order of time.
pub data Window (F : Type 0) : Type 0 where
  raised unreachable : Window F
  candidates : List (CandleTick F) → Window F

-- How filling the queue ends: by an exception, by a result to report at once, or with nothing more to
-- say than the queue holds.
pub data Refill (F : Type 0) : Type 0 where
  raised quiet : Refill F
  reports : Fetch F → Refill F

-- The cursor only moves forward.
unfoldable pub further : ℕ → Option ℕ → ℕ
further persisted none = persisted
further persisted (some last) = if ltb last persisted then persisted else last

module _ {F : Type 0} where
  -- `sync_cursor`
  unfoldable pub sync_cursor : Option ℕ → Provider F → Provider F
  unfolding further
  sync_cursor none p = p
  sync_cursor (some persisted) p = record p {
    last_processed_open_time = some (further persisted p.last_processed_open_time);
  }

  -- `_parse_row`
  unfoldable pub parse_row : Provider F → Kline F → CandleTick F
  parse_row p row = record {
    symbol = p.symbol;
    timeframe = p.timeframe;
    open_time = row.start * 1_000;
    «open» = row.«open»;
    high = row.high;
    low = row.low;
    close = row.close;
    volume = row.volume;
  }

  -- `sorted` by time, which keeps the order of equals.
  abbrev pub insert_by_time : CandleTick F → List (CandleTick F) → List (CandleTick F)
  insert_by_time c [] = c ∷ []
  insert_by_time c (d ∷ ds) =
      if leb c.open_time d.open_time then c ∷ d ∷ ds else d ∷ insert_by_time c ds

  unfoldable pub sorted_rows : Provider F → List (Kline F) → List (CandleTick F)
  unfolding parse_row
  sorted_rows p [] = []
  sorted_rows p (row ∷ rs) = insert_by_time (parse_row p row) (sorted_rows p rs)

  unfoldable pub inside : ℕ → ℕ → List (CandleTick F) → List (CandleTick F)
  inside start end [] = []
  inside start end (c ∷ cs) =
      let rest = inside start end cs in
      if leb start c.open_time && leb c.open_time end then c ∷ rest else rest

  -- `_fetch_window`
  unfoldable pub fetch_window : ℕ → ℕ → Reply F → Provider F → Provider F × Window F
  unfolding sorted_rows inside
  fetch_window start end raises p = (p, raised)
  fetch_window start end timed_out p = (
    record p {
      consecutive_failures = p.consecutive_failures + 1;
      backoff_attempt = p.backoff_attempt + 1;
    },
    unreachable,
  )
  fetch_window start end unreadable p =
      (record p { consecutive_failures = 0; backoff_attempt = 0 }, raised)
  fetch_window start end (rows rs) p = (
    record p { consecutive_failures = 0; backoff_attempt = 0 },
    candidates (inside start end (sorted_rows p rs)),
  )

  -- The candles at the front that follow `prev` without a hole and have closed, and the hole that
  -- ends them, if one does.
  unfoldable pub accept : ℕ → ℕ → ℕ → List (CandleTick F) → List (CandleTick F) × Option (ℕ × ℕ)
  accept interval now prev [] = ([], none)
  accept interval now prev (c ∷ cs) =
      let rest = accept interval now c.open_time cs in
      if not (c.open_time == prev + interval)
      then ([], some (prev + interval, c.open_time))
      else if ltb now (c.open_time + interval)
      then ([], none)
      else (c ∷ rest.0, rest.1)

  -- The same at the first start, which asks first whether a candle has closed; any candle may be
  -- the first.
  unfoldable pub accept_after :
      ℕ → ℕ → ℕ → List (CandleTick F) → List (CandleTick F) × Option (ℕ × ℕ)
  accept_after interval now prev [] = ([], none)
  accept_after interval now prev (c ∷ cs) =
      let rest = accept_after interval now c.open_time cs in
      if ltb now (c.open_time + interval)
      then ([], none)
      else if not (c.open_time == prev + interval)
      then ([], some (prev + interval, c.open_time))
      else (c ∷ rest.0, rest.1)

  unfoldable pub accept_first : ℕ → ℕ → List (CandleTick F) → List (CandleTick F) × Option (ℕ × ℕ)
  unfolding accept_after
  accept_first interval now [] = ([], none)
  accept_first interval now (c ∷ cs) =
      let rest = accept_after interval now c.open_time cs in
      if ltb now (c.open_time + interval) then ([], none) else (c ∷ rest.0, rest.1)

  -- `is_stale`
  unfoldable pub is_stale : ℕ → ℕ → Provider F → Bool
  is_stale now max_staleness p = elim p.last_received_at [
    | none ↦ true
    | some t ↦ ltb max_staleness (now - t)
  ]
