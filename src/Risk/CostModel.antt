-- ===== src/Risk/CostModel.antt =====
-- app/risk/cost_model.py: does the expected move of an entry cover the cost of going in and out?
pub mod Gate
use agente_tradin_ia_v2_mult.Common.{
  ℕ, Bool, true, false, not, ◌&&◌, Option, none, some, if◌then◌else◌,
}
use agente_tradin_ia_v2_mult.Float.{Float, ◌⊕◌, ◌⊖◌, ◌⊗◌, nought, abs, max, is_positive}
use agente_tradin_ia_v2_mult.Persistence.Models.{Side, buy, sell, same_side, is_tradable}

pub record CostModel (F : Type 0) : Type 0 where
  pub fee_rate : F
  pub slippage_bps : F
  pub expected_move_atr_multiple : F
  pub minimum_cost_coverage_ratio : F

-- The `failure` codes of the detail.
pub data GateFailure : Type 0 where
  non_finite_input qty_not_positive reference_price_not_positive atr_unavailable side_invalid
        projected_exit_price_invalid insufficient_cost_coverage :
      GateFailure

-- The amounts that the detail shows once the two legs are estimated.
pub record Costs (F : Type 0) : Type 0 where
  pub expected_move_usd : F
  pub round_trip_cost_usd : F
  pub required_usd : F
  pub achieved_ratio : Option F

pub data CostGateResult (F : Type 0) : Type 0 where
  approved : Costs F → CostGateResult F
  rejected : GateFailure → CostGateResult F

-- The side of the leg that goes out.
abbrev pub exit_side : Side → Side
exit_side side = if same_side side buy then sell else buy

module _ {F : Type 0} ⦃f : Float F⦄ where
  -- The property `slippage_fraction`.
  abbrev pub slippage_fraction : CostModel F → F
  slippage_fraction model = f.quot model.slippage_bps (f.of_ℕ 10_000)

  unfoldable pub adverse_fill_price : F → Side → F → F
  adverse_fill_price reference_price side slippage =
      if same_side side buy
      then reference_price ⊗ (f.of_ℕ 1 ⊕ slippage)
      else reference_price ⊗ (f.of_ℕ 1 ⊖ slippage)

  -- `value is None or not math.isfinite(value)`
  abbrev pub finite : Option F → Bool
  finite none = false
  finite (some x) = f.is_finite x

  abbrev pub expected_move_per_unit : CostModel F → F → F
  expected_move_per_unit model atr = atr ⊗ model.expected_move_atr_multiple

  abbrev pub raw_projected_exit : Side → F → F → F
  raw_projected_exit side price move = if same_side side buy then price ⊕ move else price ⊖ move

  abbrev pub projected_exit_price : Side → F → F → F
  projected_exit_price side price move =
      max (raw_projected_exit side price move) (price ⊗ f.literal 1 8)

  -- Fee and slippage of one leg.
  abbrev pub leg_fee : CostModel F → Side → F → F → F
  leg_fee model side qty price =
      adverse_fill_price price side (slippage_fraction model) ⊗ qty ⊗ model.fee_rate

  abbrev pub leg_slippage : CostModel F → Side → F → F → F
  leg_slippage model side qty price =
      abs (adverse_fill_price price side (slippage_fraction model) ⊖ price) ⊗ qty

  unfoldable pub estimate_costs : CostModel F → Side → F → F → F → Costs F
  unfolding adverse_fill_price
  estimate_costs model side qty price atr =
      let move = expected_move_per_unit model atr in
      let exit_price = projected_exit_price side price move in
      let expected = move ⊗ qty in
      let cost =
        leg_fee model side qty price
        ⊕ leg_fee model (exit_side side) qty exit_price
        ⊕ leg_slippage model side qty price
        ⊕ leg_slippage model (exit_side side) qty exit_price in
      record {
        expected_move_usd = expected;
        round_trip_cost_usd = cost;
        required_usd = cost ⊗ model.minimum_cost_coverage_ratio;
        achieved_ratio = if is_positive cost then some (f.quot expected cost) else none;
      }

  -- The decision on the estimated amounts.
  unfoldable pub judge_costs : Costs F → CostGateResult F
  judge_costs c =
      if f.le c.required_usd c.expected_move_usd
      then approved c
      else rejected insufficient_cost_coverage

  -- The checks on three finite inputs.
  unfoldable pub gate_finite : CostModel F → Side → F → F → F → CostGateResult F
  unfolding estimate_costs judge_costs
  gate_finite model side qty price atr =
      let move = expected_move_per_unit model atr in
      if f.le qty nought
      then rejected qty_not_positive
      else if f.le price nought
      then rejected reference_price_not_positive
      else if f.le atr nought
      then rejected atr_unavailable
      else if not (is_tradable side)
      then rejected side_invalid
      else if not (f.eq (projected_exit_price side price move) (raw_projected_exit side price move))
      then rejected projected_exit_price_invalid
      else judge_costs (estimate_costs model side qty price atr)

  unfoldable pub evaluate_cost_gate :
      CostModel F → Side → Option F → Option F → Option F → CostGateResult F
  unfolding gate_finite
  evaluate_cost_gate model side (some qty) (some price) (some atr) =
      if not (f.is_finite qty)
      then rejected non_finite_input
      else if not (f.is_finite price)
      then rejected non_finite_input
      else if not (f.is_finite atr)
      then rejected non_finite_input
      else gate_finite model side qty price atr
  evaluate_cost_gate model side _ _ _ = rejected non_finite_input
