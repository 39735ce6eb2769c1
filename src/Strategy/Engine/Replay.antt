-- ===== src/Strategy/Engine/Replay.antt =====
-- What a replay of stored candles restores.
use agente_tradin_ia_v2_mult.Common.{
  Option, none, some, List, [], ◌∷◌, ◌++◌, ◌≡◌, refl, sym, ap, ◌∙◌, subst,
}
use agente_tradin_ia_v2_mult.Float.{Float}
use agente_tradin_ia_v2_mult.MarketData.{CandleTick}
use agente_tradin_ia_v2_mult.Strategy.Schemas.{Signal}
use agente_tradin_ia_v2_mult.Strategy.Engine.{
  ◌>>=◌, StrategyEngine, hydrate_candle, hydrate, on_candle,
}
use agente_tradin_ia_v2_mult.Strategy.Engine.Invariant.{
  IsConsistent, IsDivisible, on_candle-IsConsistent, on_candle-IsAnswer,
}
use agente_tradin_ia_v2_mult.Strategy.Engine.Totality.{on_candle_total}

module _ {F : Type 0} ⦃f : Float F⦄ where
  -- The engine after a live run over the candles.
  abbrev pub live : StrategyEngine F → List (CandleTick F) → Option (StrategyEngine F)
  live e [] = some e
  live e (candle ∷ candles) = on_candle e candle >>= λ r. live r.0 candles

  hydrate_candle_lem :
      (e : StrategyEngine F) (candle : CandleTick F) (r : StrategyEngine F × Signal F)
      → on_candle e candle ≡ some r
      → hydrate_candle e candle ≡ some r.0
  unfolding hydrate_candle
  hydrate_candle_lem e candle r h =
      let a = on_candle-IsAnswer e candle r h in rw (a.is_fast, a.is_slow) (ap some a.is_state)

  -- A replay restores what a live run over the same candles leaves, series and last comparison of
  -- the averages alike; on a consistent engine whose periods are no zero divisors both succeed.
  pub hydrate-live :
      (e : StrategyEngine F) (candles : List (CandleTick F))
      → IsConsistent e
      → IsDivisible e.config
      → (e' : StrategyEngine F) × (hydrate e candles ≡ some e') × (live e candles ≡ some e')
  unfolding hydrate
  hydrate-live e [] inv d = (e, refl, refl)
  hydrate-live e (candle ∷ candles) inv d =
      let t = on_candle_total e candle inv d in
      let k = on_candle-IsConsistent e candle t.0 inv t.1 in
      let rest = hydrate-live t.0.0 candles k.0 (subst IsDivisible (sym k.1) d) in
      (rest.0, rw (hydrate_candle_lem e candle t.0 t.1) rest.1, rw t.1 rest.2)

  bind_assoc :
      (o : Option (StrategyEngine F)) (k l : StrategyEngine F → Option (StrategyEngine F))
      → (o >>= λ e. k e >>= l) ≡ ((o >>= k) >>= l)
  bind_assoc none k l = refl
  bind_assoc (some e) k l = refl

  bind_ext :
      (o : Option (StrategyEngine F)) (k l : StrategyEngine F → Option (StrategyEngine F))
      → ((e : StrategyEngine F) → k e ≡ l e)
      → (o >>= k) ≡ (o >>= l)
  bind_ext none k l h = refl
  bind_ext (some e) k l h = h e

  -- Replaying a history in two parts, one after the other, is replaying it whole.
  pub hydrate-append :
      (e : StrategyEngine F) (xs ys : List (CandleTick F))
      → hydrate e (xs ++ ys) ≡ (hydrate e xs >>= λ e'. hydrate e' ys)
  unfolding hydrate
  hydrate-append e [] ys = refl
  hydrate-append e (x ∷ xs) ys =
      bind_ext (hydrate_candle e x) (λ e'. hydrate e' (xs ++ ys))
        (λ e'. hydrate e' xs >>= λ e''. hydrate e'' ys) (λ e'. hydrate-append e' xs ys)
      ∙ bind_assoc (hydrate_candle e x) (λ e'. hydrate e' xs) (λ e'. hydrate e' ys)
