-- ===== src/Strategy/Engine/Invariant.antt =====
-- What holds of an engine between candles, and the steps that answer one.
use agente_tradin_ia_v2_mult.Common.{
  ℕ, ◌+◌, ◌≤◌, Bool, false, Option, none, some, List, [], ◌∷◌, length, length-append, ◌≡◌, refl,
  subst, ap, arith,
}
use agente_tradin_ia_v2_mult.Float.{Float, nought}
use agente_tradin_ia_v2_mult.MarketData.{CandleTick}
use agente_tradin_ia_v2_mult.Strategy.Schemas.{Signal}
use agente_tradin_ia_v2_mult.Strategy.Engine.{
  ◌>>=◌, StrategyConfig, StrategyEngine, observe, sma, average_true_range, fast_above, on_candle,
  judge_candle,
}

-- What three steps that all succeeded gave.
steps_inv :
    {A B C D : Type 0} (a : Option A) (b : Option B) (c : Option C) (k : A → B → C → D) (r : D)
    → (a >>= λ x. b >>= λ y. c >>= λ z. some (k x y z)) ≡ some r
    → (x : A) × (y : B) × (z : C) × (a ≡ some x) × (b ≡ some y) × (c ≡ some z) × (k x y z ≡ r)
steps_inv none b c k r h = absurd (ground arith)
steps_inv (some x) none c k r h = absurd (ground arith)
steps_inv (some x) (some y) none k r h = absurd (ground arith)
steps_inv (some x) (some y) (some z) k r h = (x, y, z, refl, refl, refl, ground arith)

module _ {F : Type 0} ⦃f : Float F⦄ where
  -- The three series are as long as each other, and the last comparison of the averages is there
  -- only once both could be taken.
  pub record IsConsistent (e : StrategyEngine F) : Type 0 where
    pub as_many_highs : length e.highs ≡ length e.closes
    pub as_many_lows : length e.lows ≡ length e.closes
    pub prev_warm :
        (b : Bool)
        → e.prev_fast_above_slow ≡ some b
        → (e.config.fast_period ≤ length e.closes) × (e.config.slow_period ≤ length e.closes)

  -- No period is zero as a float.
  pub record IsDivisible (cfg : StrategyConfig F) : Type 0 where
    pub fast_nonzero : f.eq (f.of_ℕ cfg.fast_period) nought ≡ false
    pub slow_nonzero : f.eq (f.of_ℕ cfg.slow_period) nought ≡ false
    pub atr_nonzero : f.eq (f.of_ℕ cfg.atr_period) nought ≡ false

  pub sma_long : (xs : List F) (p : ℕ) (q : F) → sma xs p ≡ some (some q) → p ≤ length xs
  unfolding sma
  sma_long xs p q h = ground arith

  step_lengths :
      (e : StrategyEngine F) (candle : CandleTick F) (prev : Option Bool)
      → IsConsistent e
      → ((b : Bool)
          → prev ≡ some b
          → (e.config.fast_period ≤ length (observe candle e).closes)
            × (e.config.slow_period ≤ length (observe candle e).closes))
      → IsConsistent (record (observe candle e) { prev_fast_above_slow = prev })
  step_lengths e candle prev inv h = record {
    as_many_highs = omega (
      arith,
      length-append e.highs (candle.high ∷ []),
      length-append e.closes (candle.close ∷ []),
      inv.as_many_highs,
    );
    as_many_lows = omega (
      arith,
      length-append e.lows (candle.low ∷ []),
      length-append e.closes (candle.close ∷ []),
      inv.as_many_lows,
    );
    prev_warm = h;
  }

  -- The indicators that a candle is answered with.
  pub record IsAnswer (e : StrategyEngine F) (candle : CandleTick F)
      (r : StrategyEngine F × Signal F) : Type 0 where
    pub fast : Option F
    pub slow : Option F
    pub atr : Option F
    pub is_fast : sma (observe candle e).closes e.config.fast_period ≡ some fast
    pub is_slow : sma (observe candle e).closes e.config.slow_period ≡ some slow
    pub is_atr : average_true_range (observe candle e) ≡ some atr
    pub is_state : record (observe candle e) { prev_fast_above_slow = fast_above fast slow } ≡ r.0
    pub is_signal : judge_candle (observe candle e) candle fast slow atr ≡ r.1

  pub on_candle-IsAnswer :
      (e : StrategyEngine F) (candle : CandleTick F) (r : StrategyEngine F × Signal F)
      → on_candle e candle ≡ some r
      → IsAnswer e candle r
  unfolding on_candle
  on_candle-IsAnswer e candle r h =
      let e' = observe candle e in
      let s =
        steps_inv (sma e'.closes e.config.fast_period) (sma e'.closes e.config.slow_period)
          (average_true_range e')
          (λ fast slow atr. (
            record e' { prev_fast_above_slow = fast_above fast slow },
            judge_candle e' candle fast slow atr,
          ))
          r h in
      record {
        fast = s.0;
        slow = s.1;
        atr = s.2;
        is_fast = s.3;
        is_slow = s.4;
        is_atr = s.5;
        is_state = ap (λ p. p.0) s.6;
        is_signal = ap (λ p. p.1) s.6;
      }

  fast_above_long :
      (xs : List F) (p q : ℕ) (fast slow : Option F) (b : Bool)
      → sma xs p ≡ some fast
      → sma xs q ≡ some slow
      → fast_above fast slow ≡ some b
      → (p ≤ length xs) × (q ≤ length xs)
  fast_above_long xs p q (some x) (some y) b hp hq h = (sma_long xs p x hp, sma_long xs q y hq)
  fast_above_long xs p q none slow b hp hq h = absurd (ground arith)
  fast_above_long xs p q (some x) none b hp hq h = absurd (ground arith)

  -- A candle keeps the engine consistent, keeps its configuration, and makes its history one longer.
  pub on_candle-IsConsistent :
      (e : StrategyEngine F) (candle : CandleTick F) (r : StrategyEngine F × Signal F)
      → IsConsistent e
      → on_candle e candle ≡ some r
      → IsConsistent r.0 × (r.0.config ≡ e.config) × (length r.0.closes ≡ length e.closes + 1)
  on_candle-IsConsistent e candle r inv h =
      let a = on_candle-IsAnswer e candle r h in
      subst
        (λ e'. IsConsistent e' × (e'.config ≡ e.config) × (length e'.closes ≡ length e.closes + 1))
        a.is_state
        (
          step_lengths e candle (fast_above a.fast a.slow) inv (λ b hb.
              fast_above_long (observe candle e).closes e.config.fast_period e.config.slow_period
                a.fast a.slow b a.is_fast a.is_slow hb),
          refl,
          omega (arith, length-append e.closes (candle.close ∷ [])),
        )
