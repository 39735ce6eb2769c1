-- ===== src/Risk/Engine/Limits.antt =====
-- What an approved order is held to, and what closing a position does not depend on.
use agente_tradin_ia_v2_mult.Common.{
  ℕ, String, Bool, true, some, ◌≡◌, inl, inr, Bool-cases, ap, ◌∙◌, arith,
}
use agente_tradin_ia_v2_mult.Float.{Float, IsOrdered, ◌⊖◌, nought, min, is_positive, div?}
use agente_tradin_ia_v2_mult.Persistence.Models.{Side}
use agente_tradin_ia_v2_mult.Strategy.Schemas.{Signal}
use agente_tradin_ia_v2_mult.Risk.Checks.{Checks, decided}
use agente_tradin_ia_v2_mult.Risk.Engine.{
  RiskLimits, ApprovedOrder, RiskContext, RiskEngine, check_common_gates, remaining_exposure,
  position_usd, sizing_price, evaluate, evaluate_close,
}
use agente_tradin_ia_v2_mult.Risk.Engine.Approval.{evaluate_iff}

module _ {F : Type 0} ⦃f : Float F⦄ where
  pub record IsBounded (limits : RiskLimits F) (c : RiskContext F) (price qty : F) : Type 0 where
    pub usd : F
    pub is_quotient : div? usd price ≡ some qty
    pub positive : is_positive usd ≡ true
    pub below_position_limit : f.le usd limits.max_position_usd ≡ true
    pub below_exposure_limit : f.le usd (limits.max_total_exposure_usd ⊖ c.open_exposure_usd) ≡ true

  min_le :
      (law : IsOrdered F) (a b : F)
      → is_positive (min a b) ≡ true
      → is_positive b ≡ true
      → (f.le (min a b) a ≡ true) × (f.le (min a b) b ≡ true)
  min_le law a b h hb = elim (Bool-cases (f.lt b a)) [
    | inl t ↦ ground (
      arith,
      law.refl_of_lt b a t,
      law.refl_of_lt nought b hb,
      law.lt-eq-not-le b a,
      law.le_total b a,
    )
    | inr t ↦
        ground (
          arith,
          law.refl_of_lt nought (min a b) h,
          law.refl_of_lt nought b hb,
          law.lt-eq-not-le b a,
        )
  ]

  -- Where the floats are ordered, the quantity of an approved entry is a dollar value over the
  -- sizing price; the value is positive, at most the limit for a position, and at most what the
  -- limit for the total exposure leaves.
  pub evaluate-IsBounded :
      (law : IsOrdered F) (e : RiskEngine F) (s : Signal F) (signal_id : ℕ) (c : RiskContext F)
      (checks : Checks F) (o : ApprovedOrder F)
      → decided (evaluate e s signal_id c checks) ≡ some o
      → IsBounded e.limits c (sizing_price e.cost_model s) o.qty
  evaluate-IsBounded law e s signal_id c checks o h =
      let r = (evaluate_iff e s signal_id c checks o).0 h in
      let room = r.1.has_room in
      let b =
        min_le law e.limits.max_position_usd (remaining_exposure e.limits c) room.positive
          room.room in
      let eq : r.0 ≡ o.qty = ap ApprovedOrder.qty r.2 in
      record {
        usd = position_usd e.limits c;
        is_quotient = r.1.sized ∙ ap some eq;
        positive = room.positive;
        below_position_limit = b.0;
        below_exposure_limit = b.1;
      }

  -- The fields of the context that closing depends on agree.
  pub record AgreeOnSafety (c d : RiskContext F) : Type 0 where
    pub same_kill_switch : c.kill_switch_engaged ≡ d.kill_switch_engaged
    pub same_blocked : c.trading_blocked ≡ d.trading_blocked
    pub same_ambiguous : c.state_ambiguous ≡ d.state_ambiguous
    pub same_stale : c.data_is_stale ≡ d.data_is_stale
    pub same_drift : c.clock_drift_seconds ≡ d.clock_drift_seconds
    pub same_failures : c.api_failure_count ≡ d.api_failure_count

  -- Closing a position is judged alike in contexts that agree on the six common fields and under
  -- engines that agree on the limits for the drift and for API failures: neither the loss of the
  -- day, the exposure, the number of positions, a cooldown, the operational state, a stale
  -- reconciliation, a degraded engine, the cost model nor the freshness barrier weighs in.
  pub evaluate_close-entry-only :
      (e e' : RiskEngine F) (signal_id : ℕ) (symbol : String) (close_side : Side) (qty : F)
      (exists : Bool) (position_qty : F) (position_side : Side) (c d : RiskContext F)
      (checks : Checks F)
      → AgreeOnSafety c d
      → e.limits.max_clock_drift_seconds ≡ e'.limits.max_clock_drift_seconds
      → e.limits.max_api_failures ≡ e'.limits.max_api_failures
      → evaluate_close e signal_id symbol close_side qty exists position_qty position_side c checks
        ≡ evaluate_close e' signal_id symbol close_side qty exists position_qty position_side d
            checks
  unfolding evaluate_close check_common_gates
  evaluate_close-entry-only e e' signal_id symbol side qty exists pq pside c d checks a hd hf = rw (
    a.same_kill_switch, a.same_blocked, a.same_ambiguous, a.same_stale, a.same_drift,
    a.same_failures, hd, hf,
  )
