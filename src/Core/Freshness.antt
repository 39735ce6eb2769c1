-- ===== src/Core/Freshness.antt =====
-- app/core/freshness.py: may a signal, or the market data, still be acted on? Instants and delays
-- are whole microseconds, as Python's `datetime` and `timedelta` hold them; the limits in seconds
-- are taken in microseconds too.
pub mod Window
use agente_tradin_ia_v2_mult.Common.{
  ℕ, ◌+◌, ◌*◌, String, Bool, true, false, Option, none, some, str_eq, leb, ltb, if◌then◌else◌,
}
use agente_tradin_ia_v2_mult.Common.Int.{ℤ, pos, negsuc, ◌-ℤ◌, sub_ℕ, ltb_ℤ, leb_ℤ}

-- One minute.
abbrev pub minute : ℕ
minute = 60_000_000

-- `FUTURE_TOLERANCE_SECONDS`
abbrev pub future_tolerance : ℕ
future_tolerance = 2_000_000

pub data TimeSemantics : Type 0 where
  live historical : TimeSemantics

-- `market_data_time_semantics`: a mode that is not in the table is live.
unfoldable pub market_data_time_semantics : String → TimeSemantics
market_data_time_semantics mode =
    if str_eq mode "REPLAY"
    then historical
    else if str_eq mode "PAPER_LOCAL"
    then historical
    else if str_eq mode "PAPER_LIVE"
    then live
    else if str_eq mode "BYBIT_DEMO"
    then live
    else live

unfoldable pub market_data_is_historical : String → Bool
unfolding market_data_time_semantics
market_data_is_historical mode = elim (market_data_time_semantics mode) [
  | live ↦ false
  | historical ↦ true
]

-- `strategy_timeframe_minutes` is any integer.
pub record FreshnessPolicy : Type 0 where
  pub max_signal_delay_after_close : ℤ
  pub strategy_timeframe_minutes : ℤ
  pub future_tolerance : ℕ

pub data Failure : Type 0 where
  missing_now missing_source_candle_open_time invalid_strategy_timeframe future_timestamp
        signal_too_old :
      Failure

-- `fresh`, the `failure` of the detail if not, and the delay if it was computed.
pub record FreshnessResult : Type 0 where
  pub fresh : Bool
  pub failure : Option Failure
  pub signal_delay : Option ℤ

abbrev stale : Failure → Option ℤ → FreshnessResult
stale failure delay = record { fresh = false; failure = some failure; signal_delay = delay }

-- `(now - (open_time + minutes)).total_seconds()`
abbrev pub delay_after_close : ℕ → ℕ → ℕ → ℤ
delay_after_close now open_time minutes = sub_ℕ now (open_time + minutes * minute)

judge_delay : FreshnessPolicy → ℤ → FreshnessResult
judge_delay policy delay =
    if ltb_ℤ delay (sub_ℕ 0 policy.future_tolerance)
    then stale future_timestamp (some delay)
    else if ltb_ℤ policy.max_signal_delay_after_close delay
    then stale signal_too_old (some delay)
    else record { fresh = true; failure = none; signal_delay = some delay }

-- `not isinstance(minutes, int) or minutes <= 0`, and what follows it.
judge_timeframe : FreshnessPolicy → ℤ → ℕ → ℕ → FreshnessResult
unfolding judge_delay
judge_timeframe policy (negsuc _) open_time now = stale invalid_strategy_timeframe none
judge_timeframe policy (pos minutes) open_time now =
    if leb minutes 0
    then stale invalid_strategy_timeframe none
    else judge_delay policy (delay_after_close now open_time minutes)

unfoldable pub evaluate_signal_freshness : FreshnessPolicy → Option ℕ → Option ℕ → FreshnessResult
unfolding judge_timeframe
evaluate_signal_freshness policy source_candle_open_time none = stale missing_now none
evaluate_signal_freshness policy none (some now) = stale missing_source_candle_open_time none
evaluate_signal_freshness policy (some open_time) (some now) =
    judge_timeframe policy policy.strategy_timeframe_minutes open_time now

pub data Currency : Type 0 where
  unevaluated no_candle future_candle market_data_stale current : Currency

-- `market_data_temporally_current`: `current`, or the `failure`.
unfoldable pub market_data_temporally_current : Option ℕ → ℕ → Option ℕ → ℤ → Currency
market_data_temporally_current last_candle_open_time minutes none max_delay = unevaluated
market_data_temporally_current none minutes (some now) max_delay = no_candle
market_data_temporally_current (some open_time) minutes (some now) max_delay =
    let delay = delay_after_close now open_time minutes in
    if ltb_ℤ delay (sub_ℕ 0 future_tolerance)
    then future_candle
    else if ltb_ℤ max_delay delay
    then market_data_stale
    else current

-- `freshness_policy_for_market_data`
unfoldable pub freshness_policy_for_market_data : String → ℤ → ℤ → Option FreshnessPolicy
unfolding market_data_is_historical
freshness_policy_for_market_data mode max_delay minutes =
    if market_data_is_historical mode
    then none
    else some (record {
      max_signal_delay_after_close = max_delay;
      strategy_timeframe_minutes = minutes;
      future_tolerance = future_tolerance;
    })
