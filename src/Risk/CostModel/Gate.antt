-- ===== src/Risk/CostModel/Gate.antt =====
-- When the cost gate approves.
use agente_tradin_ia_v2_mult.Common.{Bool, true, false, Option, none, some, ◌≡◌, ◌↔◌, refl, arith}
use agente_tradin_ia_v2_mult.Float.{Float, ◌⊕◌, ◌⊖◌, ◌⊗◌, nought, abs, max}
use agente_tradin_ia_v2_mult.Persistence.Models.{Side, buy, sell, other, is_tradable}
use agente_tradin_ia_v2_mult.Risk.CostModel.{
  CostModel, Costs, CostGateResult, approved, rejected, expected_move_per_unit, raw_projected_exit,
  projected_exit_price, adverse_fill_price, estimate_costs, judge_costs, evaluate_cost_gate,
}

module _ {F : Type 0} ⦃f : Float F⦄ where
  -- The exit price that is expected, before the floor, and with it.
  abbrev bare_exit : CostModel F → Side → F → F → F
  bare_exit model buy price atr = price ⊕ atr ⊗ model.expected_move_atr_multiple
  bare_exit model _ price atr = price ⊖ atr ⊗ model.expected_move_atr_multiple

  abbrev floored_exit : CostModel F → Side → F → F → F
  floored_exit model side price atr = max (bare_exit model side price atr) (price ⊗ f.literal 1 8)

  -- Fees and slippage of a way in at `entry` and out at `exit`, filled at the other two prices.
  abbrev both_legs : CostModel F → F → F → F → F → F → F
  both_legs model qty entry exit fill_in fill_out =
      fill_in ⊗ qty ⊗ model.fee_rate
      ⊕ fill_out ⊗ qty ⊗ model.fee_rate
      ⊕ abs (fill_in ⊖ entry) ⊗ qty
      ⊕ abs (fill_out ⊖ exit) ⊗ qty

  -- The slippage raises the price of a buy and lowers that of a sell.
  abbrev pub round_trip : CostModel F → Side → F → F → F → F
  round_trip model buy qty price atr =
      let slip = f.quot model.slippage_bps (f.of_ℕ 10_000) in
      let exit = floored_exit model buy price atr in
      both_legs model qty price exit (price ⊗ (f.of_ℕ 1 ⊕ slip)) (exit ⊗ (f.of_ℕ 1 ⊖ slip))
  round_trip model side qty price atr =
      let slip = f.quot model.slippage_bps (f.of_ℕ 10_000) in
      let exit = floored_exit model side price atr in
      both_legs model qty price exit (price ⊗ (f.of_ℕ 1 ⊖ slip)) (exit ⊗ (f.of_ℕ 1 ⊕ slip))

  estimated :
      (model : CostModel F) (side : Side) (qty price atr : F)
      → let c = estimate_costs model side qty price atr in
        (c.required_usd ≡ round_trip model side qty price atr ⊗ model.minimum_cost_coverage_ratio)
        × (c.expected_move_usd ≡ atr ⊗ model.expected_move_atr_multiple ⊗ qty)
        × (projected_exit_price side price (expected_move_per_unit model atr)
            ≡ floored_exit model side price atr)
        × (raw_projected_exit side price (expected_move_per_unit model atr)
            ≡ bare_exit model side price atr)
  unfolding estimate_costs adverse_fill_price
  estimated model buy qty price atr = (refl, refl, refl, refl)
  estimated model sell qty price atr = (refl, refl, refl, refl)
  estimated model (other s) qty price atr = (refl, refl, refl, refl)

  -- What an entry must show for its cost to be covered.
  pub record IsCovered (model : CostModel F) (side : Side) (qty price atr : F) : Type 0 where
    pub qty_finite : f.is_finite qty ≡ true
    pub price_finite : f.is_finite price ≡ true
    pub atr_finite : f.is_finite atr ≡ true
    pub qty_above : f.le qty nought ≡ false
    pub price_above : f.le price nought ≡ false
    pub atr_above : f.le atr nought ≡ false
    pub tradable : is_tradable side ≡ true
    pub exit_unclamped :
        f.eq (floored_exit model side price atr) (bare_exit model side price atr) ≡ true
    pub covered :
        f.le
          (round_trip model side qty price atr ⊗ model.minimum_cost_coverage_ratio)
          (atr ⊗ model.expected_move_atr_multiple ⊗ qty)
        ≡ true

  abbrev pub CoveredInputs : CostModel F → Side → Option F → Option F → Option F → Type 0
  CoveredInputs model side (some qty) (some price) (some atr) = IsCovered model side qty price atr
  CoveredInputs model side _ _ _ = ⊥

  abbrev pub is_approved : CostGateResult F → Bool
  is_approved (approved _) = true
  is_approved (rejected _) = false

  judge_costs_iff :
      (c : Costs F)
      → (is_approved (judge_costs c) ≡ true) ↔ (f.le c.required_usd c.expected_move_usd ≡ true)
  unfolding judge_costs
  judge_costs_iff c = ground arith

  -- The gate approves exactly if every input is there, finite and positive, the side is BUY or
  -- SELL, the projected exit price is no floor price, and the expected move is at least the fees and
  -- the slippage of the way in and of the way out, each at its own price, times the ratio that is
  -- asked for.
  pub cost_gate_iff :
      (model : CostModel F) (side : Side) (qty price atr : Option F)
      → (is_approved (evaluate_cost_gate model side qty price atr) ≡ true)
        ↔ CoveredInputs model side qty price atr
  unfolding evaluate_cost_gate
  cost_gate_iff model side (some q) (some p) (some a) =
      let e = estimated model side q p a in
      (λ h. ground (arith, h, e.0, e.1, e.2, e.3), λ h. ground (arith, h, e.0, e.1, e.2, e.3))
  cost_gate_iff model side none p a = ground arith
  cost_gate_iff model side (some q) none a = ground arith
  cost_gate_iff model side (some q) (some p) none = ground arith
