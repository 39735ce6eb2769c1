-- ===== src/Orchestrator/Triggers.antt =====
-- app/orchestrator.py: `_check_stop_take` and `_maybe_close_opposing_position`, which close a position
-- before any entry is considered, and the context that a decision of the risk engine reads.
pub mod Levels
use agente_tradin_ia_v2_mult.Common.{
  ℕ, ◌+◌, String, Bool, true, false, not, ◌&&◌, Option, none, some, List, [], ◌∷◌, leb,
  if◌then◌else◌,
}
use agente_tradin_ia_v2_mult.Float.{Float, nought, ◌⊕◌, ◌⊖◌, ◌⊗◌, sum}
use agente_tradin_ia_v2_mult.MarketData.{CandleTick}
use agente_tradin_ia_v2_mult.Persistence.Models.{
  Side, buy, sell, same_side, is_tradable, Position, closed, SystemState,
}
use agente_tradin_ia_v2_mult.Persistence.Repo.{is_open, open_positions}
use agente_tradin_ia_v2_mult.Strategy.Schemas.{Signal}
use agente_tradin_ia_v2_mult.Risk.Engine.{ApprovedOrder, RiskContext, RiskEngine}
use agente_tradin_ia_v2_mult.Orchestrator.Results.{TickStatus}
use agente_tradin_ia_v2_mult.Orchestrator.Desk.{Attempt, returned, ◌>>=◌, Desk, Exchange, Setting}
use agente_tradin_ia_v2_mult.Orchestrator.Orders.{close_position_via_risk}

pub data Trigger (F : Type 0) : Type 0 where
  stop_loss take_profit : F → Trigger F

-- What a tick knows of its surroundings when it decides.
pub record Conditions (F : Type 0) : Type 0 where
  pub data_is_stale : Bool
  pub clock_drift_seconds : Option F
  pub now : ℕ
  pub engine_degraded : Bool

abbrev pub is_since : ℕ → Option ℕ → Bool
is_since today_start none = false
is_since today_start (some t) = leb today_start t

abbrev pub opposite : Side → Side
opposite side = if same_side side buy then sell else buy

module _ {F : Type 0} where
  -- `level is not None and ...`
  abbrev pub reached : (F → Bool) → Option F → Option F
  reached test none = none
  reached test (some level) = if test level then some level else none

  abbrev pub trigger_price : Trigger F → F
  trigger_price (stop_loss price) = price
  trigger_price (take_profit price) = price

  -- The stop comes first.
  abbrev pub first_trigger : Option F → Option F → Option (Trigger F)
  first_trigger (some s) target = some (stop_loss s)
  first_trigger none (some t) = some (take_profit t)
  first_trigger none none = none

module _ {F : Type 0} ⦃f : Float F⦄ where
  -- What the candle triggers of a position.
  unfoldable pub touched : Position F → CandleTick F → Option (Trigger F)
  touched p c =
      if same_side p.side buy
      then first_trigger (reached (λ s. f.le c.low s) p.stop_loss)
          (reached (λ t. f.le t c.high) p.take_profit)
      else first_trigger (reached (λ s. f.le s c.high) p.stop_loss)
          (reached (λ t. f.le c.low t) p.take_profit)

  -- `_common_risk_fields`; the fields that the callers fill in are empty.
  unfoldable pub common_risk_fields : Conditions F → SystemState → RiskContext F
  common_risk_fields at s = record {
    open_positions_count = 0;
    open_exposure_usd = nought;
    daily_realized_loss_usd = nought;
    consecutive_losses = 0;
    data_is_stale = at.data_is_stale;
    api_failure_count = s.api_failure_count;
    clock_drift_seconds = at.clock_drift_seconds;
    kill_switch_engaged = s.kill_switch_engaged;
    trading_blocked = s.trading_blocked;
    state_ambiguous = s.state_ambiguous;
    cooldown_until = s.cooldown_until;
    now = at.now;
    reconciliation_stale = s.reconciliation_stale;
    operational_state = s.operational_state;
    engine_degraded = at.engine_degraded;
  }

  -- A close whose result ends the decisions of the tick.
  unfoldable pub close_by :
      Setting F
      → Exchange F
      → RiskEngine F
      → Conditions F
      → (ApprovedOrder F → String)
      → ℕ
      → Position F
      → Side
      → F
      → Desk F
      → Attempt (Desk F × Option TickStatus)
  unfolding close_position_via_risk common_risk_fields
  close_by env x engine at key_of signal_id p close_side price d =
      close_position_via_risk env x engine (common_risk_fields at d.store.state) key_of signal_id p
        close_side p.qty price d
      >>= λ r. returned (r.0, some r.1)

  -- `_check_stop_take`, for the first open position of the symbol. The key is made of the order, the
  -- candle and the kind of trigger.
  unfoldable pub check_position :
      Setting F
      → Exchange F
      → RiskEngine F
      → Conditions F
      → (Trigger F → ApprovedOrder F → String)
      → Position F
      → Option (Trigger F)
      → Desk F
      → Attempt (Desk F × Option TickStatus)
  unfolding close_by
  check_position env x engine at key_of p none d = returned (d, none)
  check_position env x engine at key_of p (some t) d =
      close_by env x engine at (key_of t) d.next_signal_id p (opposite p.side) (trigger_price t)
        (record d { next_signal_id = d.next_signal_id + 1 })

  unfoldable pub check_positions :
      Setting F
      → Exchange F
      → RiskEngine F
      → Conditions F
      → (Trigger F → ApprovedOrder F → String)
      → CandleTick F
      → List (Position F)
      → Desk F
      → Attempt (Desk F × Option TickStatus)
  unfolding check_position touched
  check_positions env x engine at key_of c [] d = returned (d, none)
  check_positions env x engine at key_of c (p ∷ _) d =
      check_position env x engine at key_of p (touched p c) d

  unfoldable pub check_stop_take :
      Setting F
      → Exchange F
      → RiskEngine F
      → Conditions F
      → (Trigger F → ApprovedOrder F → String)
      → CandleTick F
      → Desk F
      → Attempt (Desk F × Option TickStatus)
  unfolding check_positions open_positions
  check_stop_take env x engine at key_of c d =
      check_positions env x engine at key_of c (open_positions c.symbol d.store.positions) d

  -- `[p for p in positions if p.side != signal.direction]`
  unfoldable pub opposing : Side → List (Position F) → List (Position F)
  opposing direction [] = []
  opposing direction (p ∷ ps) =
      let rest = opposing direction ps in if same_side p.side direction then rest else p ∷ rest

  unfoldable pub close_first :
      Setting F
      → Exchange F
      → RiskEngine F
      → Conditions F
      → (ApprovedOrder F → String)
      → ℕ
      → Signal F
      → List (Position F)
      → Desk F
      → Attempt (Desk F × Option TickStatus)
  unfolding close_by
  close_first env x engine at key_of signal_id s [] d = returned (d, none)
  close_first env x engine at key_of signal_id s (p ∷ _) d =
      close_by env x engine at key_of signal_id p s.direction s.observed_price d

  -- `_maybe_close_opposing_position`
  unfoldable pub maybe_close_opposing_position :
      Setting F
      → Exchange F
      → RiskEngine F
      → Conditions F
      → (ApprovedOrder F → String)
      → ℕ
      → Signal F
      → Desk F
      → Attempt (Desk F × Option TickStatus)
  unfolding close_first opposing open_positions
  maybe_close_opposing_position env x engine at key_of signal_id s d =
      if is_tradable s.direction
      then close_first env x engine at key_of signal_id s
          (opposing s.direction (open_positions s.symbol d.store.positions)) d
      else returned (d, none)

  -- The dollars in open positions, and the losses of the positions that were closed today.
  unfoldable pub open_exposure : List (Position F) → List F
  open_exposure [] = []
  open_exposure (p ∷ ps) =
      let rest = open_exposure ps in
      if is_open p.status then (p.qty ⊗ p.avg_entry_price) ∷ rest else rest

  unfoldable pub daily_losses : ℕ → List (Position F) → List F
  daily_losses today_start [] = []
  daily_losses today_start (p ∷ ps) =
      let rest = daily_losses today_start ps in
      if not (is_open p.status) && f.lt p.realized_pnl nought && is_since today_start p.closed_at
      then (nought ⊖ p.realized_pnl) ∷ rest
      else rest

  abbrev pub count : List (Position F) → ℕ
  count [] = 0
  count (p ∷ ps) = count ps + 1

  -- The context that an entry is judged in.
  unfoldable pub entry_context : Conditions F → ℕ → String → Desk F → RiskContext F
  unfolding common_risk_fields open_exposure daily_losses open_positions
  entry_context at today_start symbol d = record (common_risk_fields at d.store.state) {
    open_positions_count = count (open_positions symbol d.store.positions);
    open_exposure_usd = sum (open_exposure d.store.positions);
    daily_realized_loss_usd = sum (daily_losses today_start d.store.positions);
    consecutive_losses = d.store.state.consecutive_losses;
  }
