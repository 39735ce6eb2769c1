-- ===== src/Strategy/Engine/Crossing.antt =====
-- When the engine answers BUY or SELL, and with which protections.
use agente_tradin_ia_v2_mult.Common.{
  Bool, true, false, not, Option, none, some, ◌≡◌, ◌↔◌, sym, ap, ◌∙◌, arith,
}
use agente_tradin_ia_v2_mult.Float.{Float}
use agente_tradin_ia_v2_mult.MarketData.{CandleTick}
use agente_tradin_ia_v2_mult.Persistence.Models.{Side, buy, sell}
use agente_tradin_ia_v2_mult.Strategy.Schemas.{Signal}
use agente_tradin_ia_v2_mult.Strategy.Engine.{
  StrategyEngine, observe, sma, average_true_range, relative_to, fast_above, judge_candle,
  on_candle,
}
use agente_tradin_ia_v2_mult.Strategy.Engine.Invariant.{on_candle-IsAnswer}

-- The side of a crossing upwards, or downwards.
abbrev pub side_of : Bool → Side
side_of true = buy
side_of false = sell

module _ {F : Type 0} ⦃f : Float F⦄ where
  -- After a candle both averages are there, with the fast one above the slow one, or not.
  abbrev pub StoodAbove : Bool → StrategyEngine F → CandleTick F → Type 0
  StoodAbove above e candle =
      (fast : F) × (slow : F) × (sma (observe candle e).closes e.config.fast_period
        ≡ some (some fast))
      × (sma (observe candle e).closes e.config.slow_period ≡ some (some slow))
      × (f.lt slow fast ≡ above)

  -- The averages are there and on one side, upwards or downwards, with `Before` telling of the other
  -- side, and the ATR is there and within the band.
  pub record IsCrossing (Before : Type 0) (upwards : Bool) (e : StrategyEngine F)
      (candle : CandleTick F) (fast slow atr : F) : Type 0 where
    pub is_fast : sma (observe candle e).closes e.config.fast_period ≡ some (some fast)
    pub is_slow : sma (observe candle e).closes e.config.slow_period ≡ some (some slow)
    pub is_atr : average_true_range (observe candle e) ≡ some (some atr)
    pub before : Before
    pub now : f.lt slow fast ≡ upwards
    pub loud : f.lt (relative_to atr candle.close) e.config.min_atr_pct_of_price ≡ false
    pub calm : f.lt e.config.max_atr_pct_of_price (relative_to atr candle.close) ≡ false

  -- The engine, with the flag that it keeps, shows a crossing.
  abbrev IsFlagged : Bool → StrategyEngine F → CandleTick F → F → F → F → Type 0
  IsFlagged upwards e = IsCrossing (e.prev_fast_above_slow ≡ some (not upwards)) upwards e

  -- The indicators of a candle are there and show a crossing.
  unfoldable ShowsCrossing :
      (upwards : Bool) (e : StrategyEngine F) (candle : CandleTick F) (fast slow atr : Option F)
      → Type 0
  ShowsCrossing upwards e candle (some x) (some y) (some z) =
      (e.prev_fast_above_slow ≡ some (not upwards))
      × (f.lt y x ≡ upwards)
      × (f.lt (relative_to z candle.close) e.config.min_atr_pct_of_price ≡ false)
      × (f.lt e.config.max_atr_pct_of_price (relative_to z candle.close) ≡ false)
  ShowsCrossing upwards e candle _ _ _ = ⊥

  judged_buy :
      (e : StrategyEngine F) (candle : CandleTick F) (fast slow atr : Option F)
      → ((judge_candle e candle fast slow atr).direction ≡ buy)
        ↔ ShowsCrossing true e candle fast slow atr
  unfolding judge_candle ShowsCrossing
  judged_buy e candle (some x) (some y) (some z) = (λ h. ground arith, λ h. ground arith)
  judged_buy e candle none slow (some z) = (λ h. ground arith, λ h. ground arith)
  judged_buy e candle none slow none = (λ h. ground arith, λ h. ground arith)
  judged_buy e candle (some x) none (some z) = (λ h. ground arith, λ h. ground arith)
  judged_buy e candle (some x) none none = (λ h. ground arith, λ h. ground arith)
  judged_buy e candle (some x) (some y) none = (λ h. ground arith, λ h. ground arith)

  judged_sell :
      (e : StrategyEngine F) (candle : CandleTick F) (fast slow atr : Option F)
      → ((judge_candle e candle fast slow atr).direction ≡ sell)
        ↔ ShowsCrossing false e candle fast slow atr
  unfolding judge_candle ShowsCrossing
  judged_sell e candle (some x) (some y) (some z) = (λ h. ground arith, λ h. ground arith)
  judged_sell e candle none slow (some z) = (λ h. ground arith, λ h. ground arith)
  judged_sell e candle none slow none = (λ h. ground arith, λ h. ground arith)
  judged_sell e candle (some x) none (some z) = (λ h. ground arith, λ h. ground arith)
  judged_sell e candle (some x) none none = (λ h. ground arith, λ h. ground arith)
  judged_sell e candle (some x) (some y) none = (λ h. ground arith, λ h. ground arith)

  judged_iff :
      (upwards : Bool) (e : StrategyEngine F) (candle : CandleTick F) (fast slow atr : Option F)
      → ((judge_candle e candle fast slow atr).direction ≡ side_of upwards)
        ↔ ShowsCrossing upwards e candle fast slow atr
  judged_iff true = judged_buy
  judged_iff false = judged_sell

  crossed :
      (upwards : Bool) (e : StrategyEngine F) (candle : CandleTick F) (fast slow atr : Option F)
      → sma (observe candle e).closes e.config.fast_period ≡ some fast
      → sma (observe candle e).closes e.config.slow_period ≡ some slow
      → average_true_range (observe candle e) ≡ some atr
      → ShowsCrossing upwards (observe candle e) candle fast slow atr
        ↔ ((x : F) × (y : F) × (z : F) × IsFlagged upwards e candle x y z)
  unfolding ShowsCrossing
  crossed upwards e candle (some x) (some y) (some z) hx hy hz = (
    λ h. (
      x,
      y,
      z,
      record {
        is_fast = hx;
        is_slow = hy;
        is_atr = hz;
        before = h.0;
        now = h.1;
        loud = h.2;
        calm = h.3;
      },
    ),
    λ h.
        let c = h.3 in
        ground (arith, hx, hy, hz, c.is_fast, c.is_slow, c.is_atr, c.before, c.now, c.loud, c.calm),
  )
  crossed upwards e candle none slow atr hx hy hz =
      (λ h. absurd h, λ h. ground (arith, hx, h.3.is_fast))
  crossed upwards e candle (some x) none atr hx hy hz =
      (λ h. absurd h, λ h. ground (arith, hy, h.3.is_slow))
  crossed upwards e candle (some x) (some y) none hx hy hz =
      (λ h. absurd h, λ h. ground (arith, hz, h.3.is_atr))

  answered :
      (upwards : Bool) (e : StrategyEngine F) (candle : CandleTick F)
      (r : StrategyEngine F × Signal F)
      → on_candle e candle ≡ some r
      → (r.1.direction ≡ side_of upwards)
        ↔ ((fast : F) × (slow : F) × (atr : F) × IsFlagged upwards e candle fast slow atr)
  answered upwards e candle r h =
      let a = on_candle-IsAnswer e candle r h in
      let j = judged_iff upwards (observe candle e) candle a.fast a.slow a.atr in
      let c = crossed upwards e candle a.fast a.slow a.atr a.is_fast a.is_slow a.is_atr in
      (
        λ d. c.0 (j.0 (ap Signal.direction a.is_signal ∙ d)),
        λ x. ap Signal.direction (sym a.is_signal) ∙ j.1 (c.1 x),
      )

  compared :
      (above : Bool) (e : StrategyEngine F) (candle : CandleTick F) (fast slow : Option F)
      → sma (observe candle e).closes e.config.fast_period ≡ some fast
      → sma (observe candle e).closes e.config.slow_period ≡ some slow
      → (fast_above fast slow ≡ some above) ↔ StoodAbove above e candle
  compared above e candle (some x) (some y) hx hy =
      (λ h. (x, y, hx, hy, ground (arith, h)), λ h. ground (arith, hx, hy, h.2, h.3, h.4))
  compared above e candle none slow hx hy =
      (λ h. absurd (ground (arith, h)), λ h. absurd (ground (arith, hx, h.2)))
  compared above e candle (some x) none hx hy =
      (λ h. absurd (ground (arith, h)), λ h. absurd (ground (arith, hy, h.3)))

  -- The flag that a candle leaves tells how the averages stood after it.
  flag_iff :
      (above : Bool) (e : StrategyEngine F) (candle : CandleTick F)
      (r : StrategyEngine F × Signal F)
      → on_candle e candle ≡ some r
      → (r.0.prev_fast_above_slow ≡ some above) ↔ StoodAbove above e candle
  flag_iff above e candle r h =
      let a = on_candle-IsAnswer e candle r h in
      let c = compared above e candle a.fast a.slow a.is_fast a.is_slow in
      let flag = ap (λ (z : StrategyEngine F). z.prev_fast_above_slow) a.is_state in
      (λ y. c.0 (flag ∙ y), λ y. sym flag ∙ c.1 y)

  with_before :
      {P Q : Type 0} (upwards : Bool) (e : StrategyEngine F) (candle : CandleTick F)
      → (P → Q)
      → ((fast : F) × (slow : F) × (atr : F) × IsCrossing P upwards e candle fast slow atr)
      → (fast : F) × (slow : F) × (atr : F) × IsCrossing Q upwards e candle fast slow atr
  with_before upwards e candle g (x, y, z, c) = (
    x,
    y,
    z,
    record {
      is_fast = c.is_fast;
      is_slow = c.is_slow;
      is_atr = c.is_atr;
      before = g c.before;
      now = c.now;
      loud = c.loud;
      calm = c.calm;
    },
  )

  -- Of two candles in a row that are answered, the second is answered with BUY exactly if both
  -- averages and the ATR exist after it, the averages existed after the first, the fast average is
  -- now above the slow one and was not after the first, and the ATR over the closing price is within
  -- the band; with SELL exactly if the fast one is not above and was.
  pub on_candle_iff :
      (upwards : Bool) (e : StrategyEngine F) (earlier candle : CandleTick F)
      (r q : StrategyEngine F × Signal F)
      → on_candle e earlier ≡ some r
      → on_candle r.0 candle ≡ some q
      → (q.1.direction ≡ side_of upwards) ↔ (
          (fast : F) × (slow : F) × (atr : F) × IsCrossing
            (StoodAbove (not upwards) e earlier)
            upwards
            r.0
            candle
            fast
            slow
            atr)
  on_candle_iff upwards e earlier candle r q h k =
      let i = answered upwards r.0 candle q k in
      let flag = flag_iff (not upwards) e earlier r h in
      (
        λ d. with_before upwards r.0 candle flag.0 (i.0 d),
        λ x. i.1 (with_before upwards r.0 candle flag.1 x),
      )
