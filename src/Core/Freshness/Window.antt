-- ===== src/Core/Freshness/Window.antt =====
-- The freshness barrier is a window around the close of the bucket.
use agente_tradin_ia_v2_mult.Common.{
  ℕ, ◌+◌, ◌*◌, ◌≤◌, ◌<◌, String, true, Option, none, some, ◌≡◌, ◌↔◌, arith, str_eq_iff, ◌⊎◌,
}
use agente_tradin_ia_v2_mult.Common.Int.{ℤ, pos, negsuc, sub_ℕ, ◌≤ℤ◌}
use agente_tradin_ia_v2_mult.Core.Freshness.{
  minute, future_tolerance, FreshnessPolicy, judge_timeframe, evaluate_signal_freshness, current,
  market_data_temporally_current, freshness_policy_for_market_data,
}

-- From the tolerance before the close of the bucket to the largest delay after it, both ends
-- included; there is no such window for a timeframe of no minutes or fewer.
abbrev pub InWindow : ℕ → ℤ → ℤ → ℕ → ℕ → Type 0
InWindow tolerance max_delay (negsuc _) open_time now = ⊥
InWindow tolerance max_delay (pos minutes) open_time now =
    (0 < minutes)
    × (open_time + minutes * minute ≤ now + tolerance)
    × (sub_ℕ now (open_time + minutes * minute) ≤ℤ max_delay)

-- A signal without an opening time, or judged at no instant, lies in no window.
abbrev pub IsTimely : FreshnessPolicy → Option ℕ → Option ℕ → Type 0
IsTimely policy (some open_time) (some now) =
    InWindow policy.future_tolerance policy.max_signal_delay_after_close
      policy.strategy_timeframe_minutes open_time now
IsTimely policy _ _ = ⊥

judge_timeframe_iff :
    (policy : FreshnessPolicy) (minutes : ℤ) (open_time now : ℕ)
    → ((judge_timeframe policy minutes open_time now).fresh ≡ true)
      ↔ InWindow policy.future_tolerance policy.max_signal_delay_after_close minutes open_time now
unfolding judge_timeframe
judge_timeframe_iff policy (negsuc n) open_time now = ground arith
judge_timeframe_iff policy (pos n) open_time now = ground arith

-- A signal is fresh exactly if it is judged inside the window around the close of its bucket.
pub signal_fresh_iff :
    (policy : FreshnessPolicy) (source now : Option ℕ)
    → ((evaluate_signal_freshness policy source now).fresh ≡ true) ↔ IsTimely policy source now
unfolding evaluate_signal_freshness
signal_fresh_iff policy (some o) (some n) =
    judge_timeframe_iff policy policy.strategy_timeframe_minutes o n
signal_fresh_iff policy none (some n) = ground arith
signal_fresh_iff policy none none = ground arith
signal_fresh_iff policy (some o) none = ground arith

-- Market data is current exactly if its last candle lies in the window that a signal of a bucket
-- of the same length would have to lie in.
pub market_data_current_iff :
    (last now : Option ℕ) (minutes : ℕ) (max_delay : ℤ)
    → 0 < minutes
    → (market_data_temporally_current last minutes now max_delay ≡ current)
      ↔ IsTimely
          (record {
            max_signal_delay_after_close = max_delay;
            strategy_timeframe_minutes = pos minutes;
            future_tolerance = future_tolerance;
          })
          last
          now
unfolding market_data_temporally_current
market_data_current_iff (some o) (some n) k m h = ground arith
market_data_current_iff none (some n) k m h = ground arith
market_data_current_iff none none k m h = ground arith
market_data_current_iff (some o) none k m h = ground arith

-- Only the two modes that replay a recorded series go without the barrier; a mode that the table
-- does not name has it.
pub unprotected_iff :
    (mode : String) (max_delay minutes : ℤ)
    → (freshness_policy_for_market_data mode max_delay minutes ≡ none)
      ↔ ((mode ≡ "REPLAY") ⊎ (mode ≡ "PAPER_LOCAL"))
unfolding freshness_policy_for_market_data
unprotected_iff mode d m = ground (
  arith,
  str_eq_iff mode "REPLAY",
  str_eq_iff mode "PAPER_LOCAL",
  str_eq_iff mode "PAPER_LIVE",
  str_eq_iff mode "BYBIT_DEMO",
)
