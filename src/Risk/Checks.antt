-- ===== src/Risk/Checks.antt =====
-- The record of checks that the risk engine keeps while it decides (app/risk/engine.py), and the
-- decision as a sequence of checks that can stop it.
pub mod Passing
use agente_tradin_ia_v2_mult.Common.{
  ℕ, Bool, true, false, Option, none, some, List, [], ◌∷◌, ◌==◌, if◌then◌else◌,
}
use agente_tradin_ia_v2_mult.Core.Freshness.{FreshnessResult}
use agente_tradin_ia_v2_mult.Risk.CostModel.{CostGateResult}

-- The keys of `checks`.
pub data Check : Type 0 where
  kill_switch_engaged trading_blocked state_not_ambiguous data_reception_recent clock_synced
        api_failures_ok reconciliation_not_stale operational_state_active engine_not_degraded
        cooldown_expired actionable_signal signal_freshness signal_is_fresh stop_loss_present
        daily_loss_within_limit concurrent_positions_ok exposure_room_available
        position_size_positive minimum_order_notional_ok below_minimum_order_notional
        sizing_reference_price cost_gate cost_coverage_ok position_exists close_side_valid
        qty_positive qty_within_position :
      Check

-- The place of a key in the enumeration.
abbrev number : Check → ℕ
number kill_switch_engaged = 0
number trading_blocked = 1
number state_not_ambiguous = 2
number data_reception_recent = 3
number clock_synced = 4
number api_failures_ok = 5
number reconciliation_not_stale = 6
number operational_state_active = 7
number engine_not_degraded = 8
number cooldown_expired = 9
number actionable_signal = 10
number signal_freshness = 11
number signal_is_fresh = 12
number stop_loss_present = 13
number daily_loss_within_limit = 14
number concurrent_positions_ok = 15
number exposure_room_available = 16
number position_size_positive = 17
number minimum_order_notional_ok = 18
number below_minimum_order_notional = 19
number sizing_reference_price = 20
number cost_gate = 21
number cost_coverage_ok = 22
number position_exists = 23
number close_side_valid = 24
number qty_positive = 25
number qty_within_position = 26

abbrev pub same_check : Check → Check → Bool
same_check a b = number a == number b

-- A value of `checks`: a flag, or a detail that is kept for the record.
pub data Entry (F : Type 0) : Type 0 where
  flag : Bool → Entry F
  freshness : Option FreshnessResult → Entry F
  price : F → Entry F
  gate : Option (CostGateResult F) → Entry F

abbrev pub Checks : Type 0 → Type 0
Checks F = List (Check × Entry F)

-- `checks[name] = entry`
abbrev pub put : {F : Type 0} → Check → Entry F → Checks F → Checks F
put name entry [] = (name, entry) ∷ []
put name entry (c ∷ cs) = if same_check name c.0 then (name, entry) ∷ cs else c ∷ put name entry cs

-- A decision that goes on, that stops with a reason, or that raises `ZeroDivisionError`.
pub data Verdict (F : Type 0) (A : Type 0) : Type 0 where
  go : A → Checks F → Verdict F A
  stop : Check → Checks F → Verdict F A
  zero_division : Verdict F A

abbrev pub Decide : Type 0 → Type 0 → Type 0
Decide F A = Checks F → Verdict F A

-- What comes after a verdict: the next step, unless the decision has ended.
abbrev pub after : {F A B : Type 0} → (A → Decide F B) → Verdict F A → Verdict F B
after k (go a checks) = k a checks
after k (stop name checks) = stop name checks
after k zero_division = zero_division

infixl 5 ◌>>=◌ ◌>>◌
abbrev pub ◌>>=◌ : {F A B : Type 0} → Decide F A → (A → Decide F B) → Decide F B
◌>>=◌ m k checks = after k (m checks)

abbrev pub ◌>>◌ : {F B : Type 0} → Decide F (Unit {0}) → Decide F B → Decide F B
m >> k = m >>= λ _. k

abbrev pub pure : {F A : Type 0} → A → Decide F A
pure a checks = go a checks

-- `checks[name] = entry`
abbrev pub note : {F : Type 0} → Check → Entry F → Decide F (Unit {0})
note name entry checks = go tt (put name entry checks)

-- `checks[name] = passed; if not passed: return reject(as_name, ...)`
abbrev pub check_as : {F : Type 0} → Check → Check → Bool → Decide F (Unit {0})
check_as name as_name passed checks =
    let checks' = put name (flag passed) checks in
    if passed then go tt checks' else stop as_name (put as_name (flag false) checks')

abbrev pub check : {F : Type 0} → Check → Bool → Decide F (Unit {0})
check name = check_as name name

abbrev pub or_zero_division : {F A : Type 0} → Option A → Decide F A
or_zero_division none checks = zero_division
or_zero_division (some a) checks = go a checks

-- The value that an undisturbed decision ends with.
abbrev pub decided : {F A : Type 0} → Verdict F A → Option A
decided (go a checks) = some a
decided (stop name checks) = none
decided zero_division = none
