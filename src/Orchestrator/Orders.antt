-- ===== src/Orchestrator/Orders.antt =====
-- app/orchestrator.py: how a decision becomes an order (`_close_position_via_risk`,
-- `_submit_and_record`). The idempotency key of an order that is approved
-- (app/execution/idempotency.py) is a function of it, for one decision.
pub mod Quiet
pub mod Authority
pub mod Closing
use agente_tradin_ia_v2_mult.Common.{
  ℕ, ◌+◌, String, Bool, true, false, not, ◌&&◌, ◌==◌, Option, none, some, List, [], ◌∷◌, ◌++◌,
  str_eq, leb, if◌then◌else◌,
}
use agente_tradin_ia_v2_mult.Float.{Float, nought}
use agente_tradin_ia_v2_mult.OrderState.{OrderStatus, pending_submit, submitted, unknown, eq_status}
use agente_tradin_ia_v2_mult.Persistence.Models.{Side, Order, Position, SystemState, complete}
use agente_tradin_ia_v2_mult.Persistence.Repo.{Transition, moved, refused, transition_order_status}
use agente_tradin_ia_v2_mult.Execution.Base.{SubmitAck}
use agente_tradin_ia_v2_mult.Execution.Books.{Books, FillApplicationResult}
use agente_tradin_ia_v2_mult.Execution.FillService.{add_count}
use agente_tradin_ia_v2_mult.Strategy.Schemas.{Signal}
use agente_tradin_ia_v2_mult.Risk.Checks.{Verdict, go, stop, zero_division}
use agente_tradin_ia_v2_mult.Risk.Engine.{
  ApprovedOrder, RiskContext, RiskEngine, evaluate, evaluate_close,
}
use agente_tradin_ia_v2_mult.Api.Control.{Store, store_of}
use agente_tradin_ia_v2_mult.Orchestrator.Results.{
  TickStatus, rejected, duplicate_suppressed, order_filled, order_not_filled, order_pending,
  close_rejected, close_failed, close_pending, position_closed, position_reduced,
}
use agente_tradin_ia_v2_mult.Orchestrator.Desk.{
  Attempt, returned, raised, ◌>>=◌, of_option, Entry, not_accepted, ended_unknown, cooldown_engaged,
  Desk, Exchange, Setting, find_key,
}
use agente_tradin_ia_v2_mult.Orchestrator.Reconcile.{apply_report, is_true, reconcile}
use agente_tradin_ia_v2_mult.Orchestrator.Placing.{map_state, Tracked, place_order, fail_order}

module _ {F : Type 0} ⦃f : Float F⦄ where
  -- The losses in a row after a position is closed, and the pause that they may start.
  unfoldable pub count_losses : Setting F → F → Desk F → Desk F
  count_losses env realized_pnl d =
      let losses = if f.lt realized_pnl nought then d.store.state.consecutive_losses + 1 else 0 in
      if leb env.cooldown_after_losses losses
      then map_state
          (λ s. record s {
            consecutive_losses = losses;
            cooldown_until = some (env.now + env.cooldown);
          })
          (record d {
            journal = d.journal ++ (cooldown_engaged losses (env.now + env.cooldown) ∷ []);
          })
      else map_state (λ s. record s { consecutive_losses = losses }) d

  -- The part of `_close_position_via_risk` that follows the poll.
  unfoldable pub conclude_close :
      Setting F
      → Exchange F
      → Tracked F
      → Option (FillApplicationResult F)
      → Attempt (Desk F × TickStatus)
  unfolding fail_order count_losses
  conclude_close env x t none =
      fail_order env x (not_accepted t.order_id) t.desk >>= λ d. returned (d, close_failed)
  conclude_close env x t (some r) =
      if r.new_fill_count == 0
      then if eq_status r.status unknown
        then (fail_order env x (ended_unknown t.order_id) t.desk >>= λ d.
            returned (d, close_failed))
        else returned (t.desk, close_pending)
      else if is_true r.closed_fully
      then returned (count_losses env r.realized_pnl_delta_total t.desk, position_closed)
      else returned (t.desk, position_reduced)

  -- What an approval, or a refusal, of a close leads to.
  unfoldable pub carry_out_close :
      Setting F
      → Exchange F
      → (ApprovedOrder F → String)
      → F
      → Desk F
      → Verdict F (ApprovedOrder F)
      → Attempt (Desk F × TickStatus)
  unfolding place_order conclude_close find_key
  carry_out_close env x key_of trigger_price d zero_division = raised
  carry_out_close env x key_of trigger_price d (stop _ _) =
      returned (record d { next_evaluation_id = d.next_evaluation_id + 1 }, close_rejected)
  carry_out_close env x key_of trigger_price d (go approved _) =
      elim (find_key (key_of approved) d.keys) [
        | some _ ↦
            returned
              (record d { next_evaluation_id = d.next_evaluation_id + 1 }, duplicate_suppressed)
        | none ↦ place_order env x approved true (key_of approved) trigger_price d >>= λ t.
            conclude_close env x t t.result
      ]

  -- `_close_position_via_risk`, for the whole or a part of a position.
  unfoldable pub close_position_via_risk :
      Setting F
      → Exchange F
      → RiskEngine F
      → RiskContext F
      → (ApprovedOrder F → String)
      → ℕ
      → Position F
      → Side
      → F
      → F
      → Desk F
      → Attempt (Desk F × TickStatus)
  unfolding evaluate_close carry_out_close
  close_position_via_risk env x engine common key_of signal_id p close_side qty trigger_price d =
      let context = record common {
        open_positions_count = 0;
        open_exposure_usd = nought;
        daily_realized_loss_usd = nought;
        consecutive_losses = d.store.state.consecutive_losses;
      } in
      carry_out_close env x key_of trigger_price d
        (evaluate_close engine signal_id p.symbol close_side qty true p.qty p.side context [])

  -- The part of `_submit_and_record` that follows the poll.
  unfoldable pub conclude_entry :
      Setting F
      → Exchange F
      → Tracked F
      → Option (FillApplicationResult F)
      → Attempt (Desk F × TickStatus)
  unfolding fail_order
  conclude_entry env x t none =
      fail_order env x (not_accepted t.order_id) t.desk >>= λ d. returned (d, order_not_filled)
  conclude_entry env x t (some r) =
      if not (r.new_fill_count == 0)
      then returned (t.desk, order_filled)
      else if eq_status r.status unknown
      then (fail_order env x (ended_unknown t.order_id) t.desk >>= λ d.
          returned (d, order_not_filled))
      else returned (t.desk, order_pending)

  -- The end of a tick with a signal to enter: what the risk engine says of it, and
  -- `_submit_and_record` if it approves.
  unfoldable pub carry_out_entry :
      Setting F
      → Exchange F
      → (ApprovedOrder F → String)
      → F
      → Desk F
      → Verdict F (ApprovedOrder F)
      → Attempt (Desk F × TickStatus)
  unfolding place_order conclude_entry find_key
  carry_out_entry env x key_of candle_close d zero_division = raised
  carry_out_entry env x key_of candle_close d (stop _ _) = returned (
    record d {
      next_evaluation_id = d.next_evaluation_id + 1;
      rejections_count = add_count 1 d.rejections_count;
    },
    rejected,
  )
  carry_out_entry env x key_of candle_close d (go approved _) =
      let counted = record d { approvals_count = add_count 1 d.approvals_count } in
      elim (find_key (key_of approved) d.keys) [
        | some _ ↦
            returned (
              record counted { next_evaluation_id = d.next_evaluation_id + 1 },
              duplicate_suppressed,
            )
        | none ↦ place_order env x approved false (key_of approved) candle_close counted >>= λ t.
            conclude_entry env x t t.result
      ]

  unfoldable pub enter_via_risk :
      Setting F
      → Exchange F
      → RiskEngine F
      → RiskContext F
      → (ApprovedOrder F → String)
      → ℕ
      → Signal F
      → F
      → Desk F
      → Attempt (Desk F × TickStatus)
  unfolding evaluate carry_out_entry
  enter_via_risk env x engine context key_of signal_id signal candle_close d =
      carry_out_entry env x key_of candle_close d (evaluate engine signal signal_id context [])
