-- ===== src/MarketData/Bybit/Ticks.antt =====
-- app/orchestrator.py: what the ticks of a symbol are given by its provider, one tick after the other.
use agente_tradin_ia_v2_mult.Common.{ℕ, Bool, true, false, Option, none, some, List, [], ◌∷◌}
use agente_tradin_ia_v2_mult.MarketData.{
  CandleTick, Fetch, replay_finished, nothing_new, retryable, fatal, gap, new_candle,
}
use agente_tradin_ia_v2_mult.MarketData.Bybit.{Reply, Provider, further, sync_cursor}
use agente_tradin_ia_v2_mult.MarketData.Bybit.Queue.{next_candle}

-- One tick: the instant, the exchange's answers, and whether the tick keeps the candle that it is
-- given. A tick that raises an exception does not: its session is rolled back.
pub record Poll (F : Type 0) : Type 0 where
  pub now : ℕ
  pub reply : ℕ → ℕ → Reply F
  pub keeps : Bool

-- The start of the newest candle in the database.
abbrev pub newest : Option ℕ → ℕ → Bool → Option ℕ
newest persisted t true = some (further t persisted)
newest persisted t false = persisted

module _ {F : Type 0} where
  -- The candles that ticks are given, in order, each with the instant of its tick; each tick first
  -- tells the provider the newest candle of the database.
  abbrev pub after_poll :
      (Option ℕ → Provider F → List (ℕ × CandleTick F))
      → Option ℕ
      → Poll F
      → Provider F × Option (Fetch F)
      → List (ℕ × CandleTick F)
  after_poll rest persisted poll (p, some (new_candle c)) =
      (poll.now, c) ∷ rest (newest persisted c.open_time poll.keeps) p
  after_poll rest persisted poll (p, none) = rest persisted p
  after_poll rest persisted poll (p, some nothing_new) = rest persisted p
  after_poll rest persisted poll (p, some retryable) = rest persisted p
  after_poll rest persisted poll (p, some fatal) = rest persisted p
  after_poll rest persisted poll (p, some gap) = rest persisted p
  after_poll rest persisted poll (p, some replay_finished) = rest persisted p

  unfoldable pub deliveries : List (Poll F) → Option ℕ → Provider F → List (ℕ × CandleTick F)
  unfolding sync_cursor next_candle
  deliveries [] persisted p = []
  deliveries (poll ∷ polls) persisted p =
      after_poll (deliveries polls) persisted poll
        (next_candle poll.now poll.reply (sync_cursor persisted p))
