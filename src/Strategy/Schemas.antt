-- ===== src/Strategy/Schemas.antt =====
-- app/strategy/schemas.py: what a strategy engine says about a candle. The justification, the
-- instant of creation and the parameters, which no decision reads, are left out.
use agente_tradin_ia_v2_mult.Common.{ℕ, String, Option}
use agente_tradin_ia_v2_mult.Persistence.Models.{Side}

pub record Signal (F : Type 0) : Type 0 where
  pub symbol : String
  pub direction : Side
  pub observed_price : F
  pub atr : F
  pub stop_loss : Option F
  pub take_profit : Option F
  pub source_candle_open_time : Option ℕ
