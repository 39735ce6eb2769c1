-- ===== src/Strategy/Engine/Totality.antt =====
-- The engine always answers.
use agente_tradin_ia_v2_mult.Common.{
  ℕ, zero, suc, ◌+◌, ◌-◌, ◌≤◌, ◌<◌, false, Option, none, some, List, [], ◌∷◌, length, length-append,
  ◌≡◌, refl, arith, Bool-cases, inl, inr, ltb,
}
use agente_tradin_ia_v2_mult.Float.{Float, nought, sum}
use agente_tradin_ia_v2_mult.MarketData.{CandleTick}
use agente_tradin_ia_v2_mult.Strategy.Schemas.{Signal}
use agente_tradin_ia_v2_mult.Strategy.Engine.{
  StrategyEngine, nth, from_end, last_n, observe, sma, true_range, true_ranges, average_true_range,
  fast_above, on_candle, judge_candle,
}
use agente_tradin_ia_v2_mult.Strategy.Engine.Invariant.{IsConsistent, IsDivisible}

nth-some : {A : Type 0} (n : ℕ) (xs : List A) → n < length xs → (x : A) × (nth n xs ≡ some x)
nth-some n [] h = absurd (omega (arith, h))
nth-some zero (x ∷ xs) h = (x, refl)
nth-some (suc n) (x ∷ xs) h = nth-some n xs (omega (arith, h))

from_end-some :
    {A : Type 0} (k : ℕ) (xs : List A) → 1 ≤ k → k ≤ length xs → (x : A) × (from_end k xs ≡ some x)
from_end-some k xs h h' =
    let r = nth-some (length xs - k) xs (omega arith) in (r.0, ground (arith, r.1))

module _ {F : Type 0} ⦃f : Float F⦄ where
  sma-some :
      (xs : List F) (p : ℕ) → f.eq (f.of_ℕ p) nought ≡ false → (r : Option F) × (sma xs p ≡ some r)
  unfolding sma
  sma-some xs p h = elim (Bool-cases (ltb (length xs) p)) [
    | inl t ↦ (none, ground arith)
    | inr t ↦ (some (f.quot (sum (last_n p xs)) (f.of_ℕ p)), ground arith)
  ]

  true_ranges-some :
      (e : StrategyEngine F) (n : ℕ)
      → length e.highs ≡ length e.closes
      → length e.lows ≡ length e.closes
      → n + 1 ≤ length e.closes
      → (rs : List F) × (true_ranges e n ≡ some rs)
  unfolding true_ranges
  true_ranges-some e zero hh hl h = ([], refl)
  true_ranges-some e (suc n) hh hl h =
      let a = from_end-some (suc n) e.highs (omega arith) (omega arith) in
      let b = from_end-some (suc n) e.lows (omega arith) (omega arith) in
      let c = from_end-some (suc n + 1) e.closes (omega arith) (omega arith) in
      let r = true_ranges-some e n hh hl (omega arith) in
      (true_range a.0 b.0 c.0 ∷ r.0, rw (a.1, b.1, c.1, r.1))

  average_true_range-some :
      (e : StrategyEngine F)
      → length e.highs ≡ length e.closes
      → length e.lows ≡ length e.closes
      → f.eq (f.of_ℕ e.config.atr_period) nought ≡ false
      → (r : Option F) × (average_true_range e ≡ some r)
  unfolding average_true_range
  average_true_range-some e hh hl hp =
      elim (Bool-cases (ltb (length e.closes) (e.config.atr_period + 1))) [
        | inl t ↦ (none, ground arith)
        | inr t ↦
            let r = true_ranges-some e e.config.atr_period hh hl (ground arith) in
            (some (f.quot (sum r.0) (f.of_ℕ e.config.atr_period)), ground (arith, r.1))
      ]

  -- On a consistent engine whose periods are no zero divisors, a candle is always answered: no
  -- index runs out of its series and nothing divides by zero.
  pub on_candle_total :
      (e : StrategyEngine F) (candle : CandleTick F)
      → IsConsistent e
      → IsDivisible e.config
      → (r : StrategyEngine F × Signal F) × (on_candle e candle ≡ some r)
  unfolding on_candle
  on_candle_total e candle inv d =
      let e' = observe candle e in
      let fast = sma-some e'.closes e.config.fast_period d.fast_nonzero in
      let slow = sma-some e'.closes e.config.slow_period d.slow_nonzero in
      let atr =
        average_true_range-some e'
          (omega (
            arith,
            length-append e.highs (candle.high ∷ []),
            length-append e.closes (candle.close ∷ []),
            inv.as_many_highs,
          ))
          (omega (
            arith,
            length-append e.lows (candle.low ∷ []),
            length-append e.closes (candle.close ∷ []),
            inv.as_many_lows,
          ))
          d.atr_nonzero in
      (
        (
          record e' { prev_fast_above_slow = fast_above fast.0 slow.0 },
          judge_candle e' candle fast.0 slow.0 atr.0,
        ),
        rw (fast.1, slow.1, atr.1),
      )
