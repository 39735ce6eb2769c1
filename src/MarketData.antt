-- ===== src/MarketData.antt =====
-- app/market_data/base.py: a closed candle, and what asking for the next one comes to. Where it came from and when, which no modelled decision
-- reads, is left out; instants are microseconds since the epoch.
pub mod Bybit
mod Examples
use agente_tradin_ia_v2_mult.Common.{ℕ, String}

pub record CandleTick (F : Type 0) : Type 0 where
  pub symbol : String
  pub timeframe : String
  pub open_time : ℕ
  pub «open» : F
  pub high : F
  pub low : F
  pub close : F
  pub volume : F

-- `CandleFetchResult`
pub data Fetch (F : Type 0) : Type 0 where
  replay_finished nothing_new retryable fatal gap : Fetch F
  new_candle : CandleTick F → Fetch F
