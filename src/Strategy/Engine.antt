-- ===== src/Strategy/Engine.antt =====
-- app/strategy/engine.py: the crossover of two simple moving averages, behind a volatility filter.
-- The periods are natural numbers. An exception (a list index out of range, a division by zero) is
-- `none` of the outer Option; the inner Option is Python's `None`. A justification is left out.
pub mod Invariant
pub mod Totality
pub mod Warmup
pub mod Replay
pub mod Crossing
use agente_tradin_ia_v2_mult.Common.{
  ℕ, zero, suc, ◌+◌, ◌-◌, String, Bool, true, false, not, ◌&&◌, ◌||◌, Option, none, some, List, [],
  ◌∷◌, ◌++◌, length, drop, ltb, leb, ◌==◌, if◌then◌else◌,
}
use agente_tradin_ia_v2_mult.Float.{Float, ◌⊕◌, ◌⊖◌, ◌⊗◌, nought, div?, abs, max as max_float, sum}
use agente_tradin_ia_v2_mult.MarketData.{CandleTick}
use agente_tradin_ia_v2_mult.Persistence.Models.{Side, buy, sell, other}
use agente_tradin_ia_v2_mult.Strategy.Schemas.{Signal}

pub record StrategyConfig (F : Type 0) : Type 0 where
  pub fast_period : ℕ
  pub slow_period : ℕ
  pub atr_period : ℕ
  pub min_atr_pct_of_price : F
  pub max_atr_pct_of_price : F
  pub stop_loss_atr_multiple : F
  pub take_profit_atr_multiple : F

pub record StrategyEngine (F : Type 0) : Type 0 where
  pub symbol : String
  pub config : StrategyConfig F
  pub closes : List F
  pub highs : List F
  pub lows : List F
  pub prev_fast_above_slow : Option Bool

abbrev pub max : ℕ → ℕ → ℕ
max a b = if ltb a b then b else a

abbrev pub nth : {A : Type 0} → ℕ → List A → Option A
nth n [] = none
nth zero (x ∷ xs) = some x
nth (suc n) (x ∷ xs) = nth n xs

-- `values[-k]`, for a positive `k`
abbrev pub from_end : {A : Type 0} → ℕ → List A → Option A
from_end k values = if leb k (length values) then nth (length values - k) values else none

-- `values[-n:]`: for 0 that is the whole list.
abbrev pub last_n : {A : Type 0} → ℕ → List A → List A
last_n n values = if n == 0 then values else drop (length values - n) values

infixl 5 ◌>>=◌
abbrev pub ◌>>=◌ : {A B : Type 0} → Option A → (A → Option B) → Option B
none >>= k = none
some a >>= k = k a

pub record WarmupState : Type 0 where
  pub required : ℕ
  pub have : ℕ
  pub ready : Bool

module _ {F : Type 0} where
  unfoldable pub warmup_required : StrategyEngine F → ℕ
  warmup_required e =
      let cfg = e.config in max (max cfg.slow_period cfg.fast_period) (cfg.atr_period + 1) + 1

  unfoldable pub warmup_state : StrategyEngine F → WarmupState
  unfolding warmup_required
  warmup_state e =
      let required = warmup_required e in
      let have = length e.closes in
      record { required = required; have = have; ready = leb required have }

-- `bool != bool`
abbrev pub differs : Bool → Bool → Bool
differs true b = not b
differs false b = b

abbrev pub hold : Side
hold = other "HOLD"

-- The three series, with a candle more.
abbrev pub observe : {F : Type 0} → CandleTick F → StrategyEngine F → StrategyEngine F
observe candle e = record e {
  closes = e.closes ++ (candle.close ∷ []);
  highs = e.highs ++ (candle.high ∷ []);
  lows = e.lows ++ (candle.low ∷ []);
}

module _ {F : Type 0} ⦃f : Float F⦄ where
  -- `_sma`
  unfoldable pub sma : List F → ℕ → Option (Option F)
  sma values period =
      if ltb (length values) period
      then some none
      else (div? (sum (last_n period values)) (f.of_ℕ period) >>= λ q. some (some q))

  unfoldable pub true_range : F → F → F → F
  true_range high low prev_close =
      max_float (max_float (high ⊖ low) (abs (high ⊖ prev_close))) (abs (low ⊖ prev_close))

  -- The true ranges of the last `n` candles.
  unfoldable pub true_ranges : StrategyEngine F → ℕ → Option (List F)
  true_ranges e zero = some []
  true_ranges e (suc n) = do
    high ← from_end (suc n) e.highs
    low ← from_end (suc n) e.lows
    prev_close ← from_end (suc n + 1) e.closes
    rest ← true_ranges e n
    some (true_range high low prev_close ∷ rest)

  -- `_atr`
  unfoldable pub average_true_range : StrategyEngine F → Option (Option F)
  average_true_range e =
      let period = e.config.atr_period in
      if ltb (length e.closes) (period + 1)
      then some none
      else (true_ranges e period >>= λ ranges.
          div? (sum ranges) (f.of_ℕ period) >>= λ q. some (some q))

  -- `None if fast is None or slow is None else fast > slow`
  abbrev pub fast_above : Option F → Option F → Option Bool
  fast_above none slow = none
  fast_above (some fast) none = none
  fast_above (some fast) (some slow) = some (f.lt slow fast)

  -- One candle of `hydrate`.
  unfoldable pub hydrate_candle : StrategyEngine F → CandleTick F → Option (StrategyEngine F)
  hydrate_candle e candle = do
    let e' = observe candle e
    fast ← sma e'.closes e'.config.fast_period
    slow ← sma e'.closes e'.config.slow_period
    some (record e' { prev_fast_above_slow = fast_above fast slow })

  unfoldable pub hydrate : StrategyEngine F → List (CandleTick F) → Option (StrategyEngine F)
  unfolding hydrate_candle
  hydrate e [] = some e
  hydrate e (candle ∷ candles) = hydrate_candle e candle >>= λ e'. hydrate e' candles

  -- `atr / candle.close if candle.close else 0.0`
  abbrev pub relative_to : F → F → F
  relative_to atr close = if f.eq close nought then nought else f.quot atr close

  abbrev pub silent_signal : StrategyEngine F → CandleTick F → F → Signal F
  silent_signal e candle atr = record {
    symbol = e.symbol;
    direction = hold;
    observed_price = candle.close;
    atr = atr;
    stop_loss = none;
    take_profit = none;
    source_candle_open_time = some candle.open_time;
  }

  -- The signal of a candle that the volatility filter lets through.
  unfoldable pub crossing_signal : StrategyEngine F → CandleTick F → F → Bool → Signal F
  crossing_signal e candle atr fast_above_slow =
      let silent = silent_signal e candle atr in
      let sl = e.config.stop_loss_atr_multiple ⊗ atr in
      let tp = e.config.take_profit_atr_multiple ⊗ atr in
      elim e.prev_fast_above_slow [
        | none ↦ silent
        | some prev ↦
            if not (differs fast_above_slow prev)
            then silent
            else if fast_above_slow
            then record silent {
              direction = buy;
              stop_loss = some (candle.close ⊖ sl);
              take_profit = some (candle.close ⊕ tp);
            }
            else record silent {
              direction = sell;
              stop_loss = some (candle.close ⊕ sl);
              take_profit = some (candle.close ⊖ tp);
            }
      ]

  -- What is said of a candle, given the indicators.
  unfoldable pub judge_candle :
      StrategyEngine F → CandleTick F → Option F → Option F → Option F → Signal F
  unfolding crossing_signal
  judge_candle e candle (some fast) (some slow) (some atr) =
      let pct = relative_to atr candle.close in
      if f.lt pct e.config.min_atr_pct_of_price
      then silent_signal e candle atr
      else if f.lt e.config.max_atr_pct_of_price pct
      then silent_signal e candle atr
      else crossing_signal e candle atr (f.lt slow fast)
  judge_candle e candle _ _ (some atr) = silent_signal e candle atr
  judge_candle e candle _ _ none = silent_signal e candle nought

  unfoldable pub on_candle : StrategyEngine F → CandleTick F → Option (StrategyEngine F × Signal F)
  unfolding judge_candle
  on_candle e candle = do
    let e' = observe candle e
    fast ← sma e'.closes e'.config.fast_period
    slow ← sma e'.closes e'.config.slow_period
    atr ← average_true_range e'
    some (
      record e' { prev_fast_above_slow = fast_above fast slow },
      judge_candle e' candle fast slow atr,
    )
