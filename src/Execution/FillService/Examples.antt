-- ===== src/Execution/FillService/Examples.antt =====
-- The theorems on the fill service at work on one order.
use agente_tradin_ia_v2_mult.Common.{
  ◌+◌, true, false, none, some, List, [], ◌∷◌, ◌++◌, length, ◌≡◌, ◌↔◌, inr, refl, arith,
}
use agente_tradin_ia_v2_mult.Common.Int.{◌+ℤ◌}
use agente_tradin_ia_v2_mult.Float.{Fixed, fixed_float}
use agente_tradin_ia_v2_mult.OrderState.{filled, partially_filled, is_terminal, validate_transition}
use agente_tradin_ia_v2_mult.Persistence.Models.{buy, sell, Execution}
use agente_tradin_ia_v2_mult.Persistence.Repo.{has_unknown_orders}
use agente_tradin_ia_v2_mult.Persistence.SystemBlock.{HasCause}
use agente_tradin_ia_v2_mult.Execution.FillLedger.{recorded_ids}
use agente_tradin_ia_v2_mult.Execution.FillLedger.Dedup.{IsRecorded}
use agente_tradin_ia_v2_mult.Execution.Books.{done}
use agente_tradin_ia_v2_mult.Execution.FillService.{
  frozen_protection_distances, apply_order_snapshot,
}
use agente_tradin_ia_v2_mult.Execution.FillService.Status.{IsDeferred, terminal-IsDeferred}
use agente_tradin_ia_v2_mult.Execution.FillService.Fills.{
  IsUntouched, apply_order_snapshot_replayed, apply_order_snapshot_opposite,
}
use agente_tradin_ia_v2_mult.Execution.FillService.Positions.{
  IsFocused, apply_order_snapshot-IsFocused,
}
use agente_tradin_ia_v2_mult.Execution.FillService.Entries.{
  Accumulates, AnchoredBy, apply_order_snapshot_entry,
}
use agente_tradin_ia_v2_mult.Execution.FillService.Totality.{
  SumsPositive, apply_order_snapshot_total,
}
use agente_tradin_ia_v2_mult.Execution.FillService.Closings.{apply_order_snapshot-blocked_iff}
use agente_tradin_ia_v2_mult.Execution.Samples.{
  first_fill, position_of, books_of, on_file, report, frozen, Result, applied,
}

apply_order_snapshot_replayed_example :
    let b = books_of false (some (position_of buy)) (on_file ∷ []) in
    IsUntouched b (applied false (report filled true) b)
unfolding apply_order_snapshot recorded_ids validate_transition
apply_order_snapshot_replayed_example =
    let b = books_of false (some (position_of buy)) (on_file ∷ []) in
    apply_order_snapshot_replayed 10 5 frozen false (report filled true) b
      {r = applied false (report filled true) b} refl (refl, tt)

terminal-IsDeferred_example :
    let b = books_of false none [] in
    let r = applied false (report filled false) b in
    IsDeferred (report filled false) b.order r.0.order
    × IsRecorded r.0.order.id r.0.executions (first_fill ∷ [])
unfolding apply_order_snapshot is_terminal
terminal-IsDeferred_example =
    let b = books_of false none [] in
    terminal-IsDeferred 10 5 frozen false (report filled false) b
      {r = applied false (report filled false) b} refl refl refl

apply_order_snapshot_opposite_example :
    let b = books_of false (some (position_of sell)) [] in
    let r = applied false (report partially_filled true) b in
    (r.0.before ≡ b.before)
    × (r.0.position ≡ some (position_of sell))
    × (r.0.behind ≡ b.behind)
    × (length r.0.security_events ≡ length b.security_events + r.1.new_fill_count)
    × (r.0.state.state_ambiguous ≡ true)
    × (r.0.state.trading_blocked ≡ true)
unfolding apply_order_snapshot validate_transition
apply_order_snapshot_opposite_example =
    let b = books_of false (some (position_of sell)) [] in
    apply_order_snapshot_opposite 10 5 frozen (report partially_filled true) b
      {p = position_of sell} {r = applied false (report partially_filled true) b} refl refl refl
      (omega arith)

apply_order_snapshot-IsFocused_example :
    let r = applied false (report filled true) (books_of false none []) in
    IsFocused "BTCUSDT" r.0.before r.0.position r.0.behind
unfolding apply_order_snapshot validate_transition
apply_order_snapshot-IsFocused_example =
    let b = books_of false none [] in
    apply_order_snapshot-IsFocused 10 5 frozen false (report filled true) b
      {r = applied false (report filled true) b} refl
      (record { none_before = tt; focus_open = tt; none_behind = tt })

apply_order_snapshot_entry_example :
    let b = books_of false (some (position_of buy)) [] in
    let r = applied false (report filled true) b in
    (rows : List (Execution Fixed)) × (r.0.executions ≡ b.executions ++ rows)
    × (r.1.new_fill_count ≡ length rows)
    × (r.0.before ≡ b.before)
    × (r.0.behind ≡ b.behind)
    × Accumulates rows (position_of buy) r.0.position
    × AnchoredBy (frozen_protection_distances frozen) rows r.0.position
unfolding apply_order_snapshot validate_transition ◌+ℤ◌
apply_order_snapshot_entry_example =
    let b = books_of false (some (position_of buy)) [] in
    apply_order_snapshot_entry 10 5 frozen (report filled true) b (position_of buy)
      {r = applied false (report filled true) b} refl refl refl

apply_order_snapshot-blocked_iff_example :
    let r = applied false (report filled true) (books_of false none []) in
    (r.0.state.order_state_unknown ≡ has_unknown_orders (r.0.order ∷ r.0.other_orders))
    × ((r.0.state.trading_blocked ≡ true) ↔ HasCause r.0.state 5)
unfolding apply_order_snapshot validate_transition
apply_order_snapshot-blocked_iff_example =
    let b = books_of false none [] in
    apply_order_snapshot-blocked_iff 10 5 frozen false (report filled true) b
      {r = applied false (report filled true) b} refl

positive_sums : SumsPositive Fixed
unfolding ◌+ℤ◌
positive_sums = record {
  positive_sum = λ x y h k. ground arith;
  positive_nonzero = λ x h. ground arith;
}

apply_order_snapshot_total_example :
    (r : Result) × (apply_order_snapshot 10 5 frozen false
        (report filled true)
        (books_of false (some (position_of buy)) [])
      ≡ done r)
apply_order_snapshot_total_example =
    apply_order_snapshot_total positive_sums 10 5 frozen false (report filled true)
      (books_of false (some (position_of buy)) []) (inr (refl, (refl, tt)))
