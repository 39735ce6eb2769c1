-- ===== src/Execution/FillService/Closings.antt =====
-- The fills of a closing order, and the block causes after any call.
use agente_tradin_ia_v2_mult.Common.{
  ℕ, ◌+◌, Bool, true, Option, none, some, List, [], ◌∷◌, ◌≡◌, ◌⊎◌, refl, arith, length, ◌↔◌,
}
use agente_tradin_ia_v2_mult.Float.{Float, nought, ◌⊕◌, ◌⊖◌, ◌⊗◌}
use agente_tradin_ia_v2_mult.Execution.Base.{OrderStatusSnapshot}
use agente_tradin_ia_v2_mult.Execution.FillLedger.{Recorded, record_new_fills}
use agente_tradin_ia_v2_mult.Persistence.Models.{Side, buy, OrderEvent, Execution, Position}
use agente_tradin_ia_v2_mult.Persistence.Repo.{has_unknown_orders}
use agente_tradin_ia_v2_mult.Persistence.SystemBlock.{HasCause}
use agente_tradin_ia_v2_mult.Execution.Books.{done, Books, Decision, FillApplicationResult}
use agente_tradin_ia_v2_mult.Execution.FillService.{Applying, conclude, apply_order_snapshot}
use agente_tradin_ia_v2_mult.Execution.FillService.Steps.{apply_order_snapshot-Applied}

module _ {F : Type 0} ⦃f : Float F⦄ where
  -- What a row gains, and what is left of a quantity and of a profit after rows of a closing order.
  abbrev gain : Side → F → Execution F → F
  gain buy entry row = (row.fill_price ⊖ entry) ⊗ row.fill_qty
  gain _ entry row = (nought ⊖ (row.fill_price ⊖ entry)) ⊗ row.fill_qty

  unfoldable pub less : F → List (Execution F) → F
  less qty [] = qty
  less qty (row ∷ rows) = less (qty ⊖ row.fill_qty) rows

  unfoldable pub earned : Side → F → F → List (Execution F) → F
  earned side entry profit [] = profit
  earned side entry profit (row ∷ rows) = earned side entry (profit ⊕ gain side entry row) rows

  -- A row takes at least what those before it have left, up to 1e-9.
  unfoldable pub IsUsedUp : F → List (Execution F) → Type 0
  IsUsedUp qty [] = ⊥
  IsUsedUp qty (row ∷ rows) =
      (f.le (qty ⊖ f.literal 1 9) row.fill_qty ≡ true) ⊎ IsUsedUp (qty ⊖ row.fill_qty) rows

  -- What the rows of a closing order make of the position in focus: none comes out of none; it is gone
  -- only if they use it up, and otherwise it is the same position, less their quantities, and with
  -- their gains.
  abbrev pub IsReduced : List (Execution F) → Option (Position F) → Option (Position F) → Type 0
  IsReduced rows none none = Unit
  IsReduced rows none (some p') = ⊥
  IsReduced rows (some p) none = IsUsedUp p.qty rows
  IsReduced rows (some p) (some p') =
      (p'.symbol ≡ p.symbol)
      × (p'.side ≡ p.side)
      × (p'.avg_entry_price ≡ p.avg_entry_price)
      × (p'.stop_loss ≡ p.stop_loss)
      × (p'.take_profit ≡ p.take_profit)
      × (p'.status ≡ p.status)
      × (p'.qty ≡ less p.qty rows)
      × (p'.realized_pnl ≡ earned p.side p.avg_entry_price p.realized_pnl rows)

  -- How many rows the table of positions has.
  abbrev pub rows_count : List (Position F) → Option (Position F) → List (Position F) → ℕ
  rows_count before none behind = length before + length behind
  rows_count before (some _) behind = length before + 1 + length behind

  abbrev IsKept : Applying F → Applying F → Type 0
  IsKept a a' =
      (rows_count a'.before a'.position a'.behind ≡ rows_count a.before a.position a.behind)
      × (a'.state_ambiguous ≡ a.state_ambiguous)
      × (a'.security_events ≡ a.security_events)

  conclude-blocked :
      (m : ℕ) (b : Books F) (events : List OrderEvent) (rec : Recorded F) (a : Applying F)
      → let r = conclude m b events rec a in
        (r.0.state.order_state_unknown ≡ has_unknown_orders (r.0.order ∷ r.0.other_orders))
        × ((r.0.state.trading_blocked ≡ true) ↔ HasCause r.0.state m)
  unfolding conclude
  conclude-blocked m b events rec a = (refl, ground arith)

  -- After every call the block is derived from its causes: trading is blocked exactly if one is
  -- present, and an order in UNKNOWN is one of them.
  pub apply_order_snapshot-blocked_iff :
      (now max_failures : ℕ) (decision : Option (Decision F)) (is_close : Bool)
      (snap : OrderStatusSnapshot F) (b : Books F) {r : Books F × FillApplicationResult F}
      → apply_order_snapshot now max_failures decision is_close snap b ≡ done r
      → (r.0.state.order_state_unknown ≡ has_unknown_orders (r.0.order ∷ r.0.other_orders))
        × ((r.0.state.trading_blocked ≡ true) ↔ HasCause r.0.state max_failures)
  apply_order_snapshot-blocked_iff now m d c snap b {r} e =
      let s = apply_order_snapshot-Applied now m d c snap b e in
      rw s.result (
        conclude-blocked m b s.events (record_new_fills s.order b.executions now snap.fills) s.loop)
