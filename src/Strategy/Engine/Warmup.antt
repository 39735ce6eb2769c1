-- ===== src/Strategy/Engine/Warmup.antt =====
-- The engine says nothing but HOLD before it has seen enough candles.
use agente_tradin_ia_v2_mult.Common.{
  ◌+◌, ◌≤◌, ◌<◌, Bool, true, Option, none, some, [], ◌∷◌, length, length-append, ◌≡◌, refl, sym,
  subst, ap, ◌∙◌, arith, Option-cases, inl, inr, leb,
}
use agente_tradin_ia_v2_mult.Float.{Float}
use agente_tradin_ia_v2_mult.MarketData.{CandleTick}
use agente_tradin_ia_v2_mult.Persistence.Models.{is_tradable}
use agente_tradin_ia_v2_mult.Strategy.Schemas.{Signal}
use agente_tradin_ia_v2_mult.Strategy.Engine.{
  StrategyEngine, max, warmup_required, warmup_state, observe, average_true_range, on_candle,
  judge_candle,
}
use agente_tradin_ia_v2_mult.Strategy.Engine.Invariant.{
  IsConsistent, on_candle-IsAnswer, on_candle-IsConsistent,
}

module _ {F : Type 0} ⦃f : Float F⦄ where
  silent_unless :
      (e : StrategyEngine F) (candle : CandleTick F) (fast slow atr : Option F)
      → is_tradable (judge_candle e candle fast slow atr).direction ≡ true
      → (b : Bool) × (x : F) × (e.prev_fast_above_slow ≡ some b) × (atr ≡ some x)
  unfolding judge_candle
  silent_unless e candle (some x) (some y) (some z) h = elim (Option-cases e.prev_fast_above_slow) [
    | inl n ↦ absurd (ground (arith, n))
    | inr p ↦ (p.0, z, p.1, refl)
  ]
  silent_unless e candle none slow none h = absurd (ground arith)
  silent_unless e candle none slow (some z) h = absurd (ground arith)
  silent_unless e candle (some x) none none h = absurd (ground arith)
  silent_unless e candle (some x) none (some z) h = absurd (ground arith)
  silent_unless e candle (some x) (some y) none h = absurd (ground arith)

  atr_long :
      (e : StrategyEngine F) (x : F)
      → average_true_range e ≡ some (some x)
      → e.config.atr_period + 1 ≤ length e.closes
  unfolding average_true_range
  atr_long e x h = ground arith

  -- A consistent engine that answers BUY or SELL has seen more candles than either average is
  -- taken over, and more than the ATR is taken over.
  pub on_candle_warm :
      (e : StrategyEngine F) (candle : CandleTick F) (r : StrategyEngine F × Signal F)
      → IsConsistent e
      → on_candle e candle ≡ some r
      → is_tradable r.1.direction ≡ true
      → (e.config.fast_period < length r.0.closes)
        × (e.config.slow_period < length r.0.closes)
        × (e.config.atr_period < length r.0.closes)
  on_candle_warm e candle r inv h t =
      let a = on_candle-IsAnswer e candle r h in
      let s =
        silent_unless (observe candle e) candle a.fast a.slow a.atr
          (subst (λ s. is_tradable s.direction ≡ true) (sym a.is_signal) t) in
      let w = inv.prev_warm s.0 s.2 in
      let z = atr_long (observe candle e) s.1 (a.is_atr ∙ ap some s.3) in
      let l = (on_candle-IsConsistent e candle r inv h).2 in
      let l' = length-append e.closes (candle.close ∷ []) in
      (omega (arith, w.0, l), omega (arith, w.1, l), omega (arith, z, l, l'))

  -- If the ATR is taken over fewer candles than one of the averages, then a consistent engine that
  -- answers BUY or SELL is one whose warm-up state is ready.
  pub on_candle-warmup_state :
      (e : StrategyEngine F) (candle : CandleTick F) (r : StrategyEngine F × Signal F)
      → IsConsistent e
      → e.config.atr_period < max e.config.slow_period e.config.fast_period
      → on_candle e candle ≡ some r
      → is_tradable r.1.direction ≡ true
      → (warmup_state r.0).ready ≡ true
  unfolding warmup_state
  on_candle-warmup_state e candle r inv p h t =
      let w = on_candle_warm e candle r inv h t in
      let c : r.0.config ≡ e.config = (on_candle-IsConsistent e candle r inv h).1 in
      let go : leb (warmup_required (record r.0 { config = e.config })) (length r.0.closes) ≡ true =
        ground (arith, w.0, w.1, w.2, p) in
      subst (λ cfg. leb (warmup_required (record r.0 { config = cfg })) (length r.0.closes) ≡ true)
        (sym c) go
