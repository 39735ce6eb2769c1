-- ===== src/Execution/PaperLocal.antt =====
-- app/execution/paper_local.py: the simulated exchange, its book of positions first.
pub mod Net
pub mod Engine
pub mod Polls
pub mod Examples
use agente_tradin_ia_v2_mult.Common.{
  ℕ, String, Bool, true, false, Option, none, some, List, [], ◌∷◌, str_eq, if◌then◌else◌,
}
use agente_tradin_ia_v2_mult.Float.{Float, ◌⊕◌, ◌⊖◌, ◌⊗◌, nought, abs, is_positive, div?}
use agente_tradin_ia_v2_mult.Persistence.Models.{Side, buy, same_side}
use agente_tradin_ia_v2_mult.Execution.Reconciliation.{Dict, get, set}

pub record PaperPosition (F : Type 0) : Type 0 where
  pub symbol : String
  pub side : Side
  pub qty : F
  pub avg_entry_price : F

-- `del d[key]`
abbrev pub delete : {V : Type 0} → String → Dict V → Dict V
delete key [] = []
delete key (item ∷ d) = let rest = delete key d in if str_eq key item.0 then rest else item ∷ rest

module _ {F : Type 0} where
  abbrev pub write_position :
      String → Option (PaperPosition F) → Dict (PaperPosition F) → Dict (PaperPosition F)
  write_position symbol none book = delete symbol book
  write_position symbol (some p) book = set symbol p book

module _ {F : Type 0} ⦃f : Float F⦄ where
  -- The price that a fill is simulated at, `slippage_bps` against the order.
  unfoldable pub fill_price : F → Side → F → F
  fill_price slippage_bps side price =
      let slip = price ⊗ f.quot slippage_bps (f.of_ℕ 10_000) in
      if same_side side buy then price ⊕ slip else price ⊖ slip

  -- The fee of a fill.
  unfoldable pub fill_fee : F → F → F → F
  fill_fee fee_rate fill_qty price = fill_qty ⊗ price ⊗ fee_rate

  -- What a fill makes of a position: `none` is a division by 0, and the inner `none` no position.
  unfoldable pub position_after :
      String → Side → F → F → Option (PaperPosition F) → Option (Option (PaperPosition F))
  position_after symbol side qty price none =
      some (some (record { symbol = symbol; side = side; qty = qty; avg_entry_price = price }))
  position_after symbol side qty price (some p) =
      let total_qty = p.qty ⊕ qty in
      let excess_qty = qty ⊖ p.qty in
      if same_side p.side side
      then elim (div? (p.avg_entry_price ⊗ p.qty ⊕ price ⊗ qty) total_qty) [
        | none ↦ none
        | some average ↦ some (some (record p { avg_entry_price = average; qty = total_qty }))
      ]
      else if f.lt qty (p.qty ⊖ f.literal 1 12)
      then some (some (record p { qty = p.qty ⊖ qty }))
      else if f.le (abs (qty ⊖ p.qty)) (f.literal 1 12)
      then some none
      else some (
          some (record { symbol = symbol; side = side; qty = excess_qty; avg_entry_price = price }))

  -- `_apply_to_position`
  unfoldable pub apply_to_position :
      String → Side → F → F → Dict (PaperPosition F) → Option (Dict (PaperPosition F))
  unfolding position_after
  apply_to_position symbol side qty price book =
      elim (position_after symbol side qty price (get symbol book)) [
        | none ↦ none
        | some position ↦ some (write_position symbol position book)
      ]

  -- `hydrate_positions`, after the positions that are there.
  unfoldable pub hydrate_positions :
      Dict (PaperPosition F) → List (PaperPosition F) → Dict (PaperPosition F)
  hydrate_positions book [] = book
  hydrate_positions book (p ∷ ps) =
      hydrate_positions (if is_positive p.qty then set p.symbol p book else book) ps
