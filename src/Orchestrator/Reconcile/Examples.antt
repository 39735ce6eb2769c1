-- ===== src/Orchestrator/Reconcile/Examples.antt =====
-- The theorems on the reconciliation at work on a position that an entry opened.
use agente_tradin_ia_v2_mult.Common.{true, false, some, [], ◌∷◌, ◌≡◌, ◌↔◌, refl, inl}
use agente_tradin_ia_v2_mult.Common.Int.{pos, ◌+ℤ◌, ◌-ℤ◌, ◌/ℤ◌, ◌*ℤ◌}
use agente_tradin_ia_v2_mult.Float.{Fixed, fixed_float}
use agente_tradin_ia_v2_mult.OrderState.{validate_transition, is_terminal}
use agente_tradin_ia_v2_mult.Persistence.Models.{buy}
use agente_tradin_ia_v2_mult.Persistence.SystemBlock.{HasCause}
use agente_tradin_ia_v2_mult.Execution.Reconciliation.{PositionView, by_symbol}
use agente_tradin_ia_v2_mult.Execution.BybitDemo.{PositionRow, side_text, get_position}
use agente_tradin_ia_v2_mult.Orchestrator.Desk.{Attempt, returned, raised, Desk, Exchange}
use agente_tradin_ia_v2_mult.Orchestrator.Reconcile.{open_views, reconcile}
use agente_tradin_ia_v2_mult.Orchestrator.Reconcile.Sides.{reconcile_disagrees}
use agente_tradin_ia_v2_mult.Orchestrator.Reconcile.Clearing.{
  PositionsAgree, OrdersAgree, reconcile-cleared_iff,
}
use agente_tradin_ia_v2_mult.Orchestrator.Orders.{enter_via_risk}
use agente_tradin_ia_v2_mult.Orchestrator.Tick.Examples.{desk, exchange, setting, entry, left_by}

abbrev reconciled : Attempt (Desk Fixed) → Desk Fixed
reconciled (returned d) = d
reconciled raised = desk

-- The exchange has no position, while one is on file.
reconcile-cleared_iff_example :
    let d = left_by entry in
    let s = (reconciled (reconcile setting exchange d)).store.state in
    ((s.state_ambiguous ≡ false)
      ↔ (PositionsAgree setting exchange d × OrdersAgree setting exchange d))
    × (s.reconciliation_diverged ≡ s.state_ambiguous)
    × ((s.trading_blocked ≡ true) ↔ HasCause s setting.max_api_failures)
unfolding reconcile enter_via_risk validate_transition is_terminal ◌+ℤ◌ ◌-ℤ◌ ◌/ℤ◌ ◌*ℤ◌
reconcile-cleared_iff_example =
    reconcile-cleared_iff setting exchange (left_by entry)
      (reconciled (reconcile setting exchange (left_by entry))) refl

-- The exchange has the position on file, with its own word for the side.
abbrev position_row : PositionRow Fixed
position_row = record {
  side = "Buy";
  size = some (some (pos 400_000));
  avg_price = some (some (pos 100_000_000));
}

abbrev bybit : Exchange Fixed
bybit = record exchange { get_position = λ symbol. get_position symbol (some (position_row ∷ [])) }

abbrev here : PositionView Fixed
here = record {
  symbol = "BTCUSDT";
  side = buy;
  qty = pos 400_000;
  avg_entry_price = some (pos 100_000_000);
}

reconcile_disagrees_example :
    (reconciled (reconcile setting bybit (left_by entry))).store.state.state_ambiguous ≡ true
unfolding reconcile get_position side_text enter_via_risk open_views by_symbol validate_transition
    is_terminal ◌+ℤ◌ ◌-ℤ◌ ◌/ℤ◌ ◌*ℤ◌
reconcile_disagrees_example =
    reconcile_disagrees setting bybit (left_by entry)
      (reconciled (reconcile setting bybit (left_by entry))) "BTCUSDT" here
      (λ symbol. (some (position_row ∷ []), refl, (inl refl, tt))) refl refl refl
