-- ===== src/Orchestrator/Orders/Authority.antt =====
-- A decision submits nothing, or one order that the risk engine approves.
use agente_tradin_ia_v2_mult.Common.{
  ℕ, String, true, false, Option, none, some, [], ◌≡◌, ◌⊎◌, refl, arith, inl, inr,
}
use agente_tradin_ia_v2_mult.Float.{Float, nought}
use agente_tradin_ia_v2_mult.Persistence.Models.{Side, Position}
use agente_tradin_ia_v2_mult.Execution.FillService.{add_count}
use agente_tradin_ia_v2_mult.Strategy.Schemas.{Signal}
use agente_tradin_ia_v2_mult.Risk.Checks.{Verdict, go, stop, zero_division, decided}
use agente_tradin_ia_v2_mult.Risk.Engine.{
  ApprovedOrder, RiskContext, RiskEngine, evaluate, evaluate_close,
}
use agente_tradin_ia_v2_mult.Orchestrator.Results.{TickStatus}
use agente_tradin_ia_v2_mult.Orchestrator.Desk.{
  Attempt, returned, Desk, Exchange, Setting, find_key,
}
use agente_tradin_ia_v2_mult.Orchestrator.Reconcile.Clearing.{>>=-eq-returned}
use agente_tradin_ia_v2_mult.Orchestrator.Placing.{place_order}
use agente_tradin_ia_v2_mult.Orchestrator.Orders.{
  carry_out_close, carry_out_entry, close_position_via_risk, enter_via_risk,
}
use agente_tradin_ia_v2_mult.Orchestrator.Orders.Quiet.{
  IsQuiet, IsPlaced, IsPlaced-quiet, either_option, same-IsQuiet, place_order-IsPlaced,
  conclude_close-IsQuiet, conclude_entry-IsQuiet,
}

module _ {F : Type 0} ⦃f : Float F⦄ where
  -- Nothing is submitted, or one order that was approved, under a key that no saved order has.
  abbrev IsLicensed :
      Option (ApprovedOrder F) → (ApprovedOrder F → String) → Desk F → Desk F → Type 0
  IsLicensed approved key_of d d' =
      IsQuiet d d'
      ⊎ ((o : ApprovedOrder F) × (approved ≡ some o)
          × (find_key (key_of o) d.keys ≡ none)
          × IsPlaced d d' o (key_of o))

  IsQuiet-return :
      (d e d' : Desk F) (status status' : TickStatus)
      → IsQuiet d e
      → ◌≡◌ {A = Attempt (Desk F × TickStatus)} (returned (e, status)) (returned (d', status'))
      → IsQuiet d d'
  IsQuiet-return d e d' status status' q h =
      same-IsQuiet (λ (z : Desk F × TickStatus). z.0) d (e, status) (d', status') q h

  carry_out_close-IsLicensed :
      (env : Setting F) (x : Exchange F) (key_of : ApprovedOrder F → String) (price : F)
      (d d' : Desk F) (status : TickStatus) (v : Verdict F (ApprovedOrder F))
      → carry_out_close env x key_of price d v ≡ returned (d', status)
      → IsLicensed (decided v) key_of d d'
  unfolding carry_out_close
  carry_out_close-IsLicensed env x key_of price d d' status zero_division h =
      absurd (ground (arith, h))
  carry_out_close-IsLicensed env x key_of price d d' status (stop _ _) h =
      inl (IsQuiet-return d _ d' _ status (record { same_submissions = refl; same_keys = refl }) h)
  carry_out_close-IsLicensed env x key_of price d d' status (go o _) h =
      either_option (find_key (key_of o) d.keys) _ _ (d', status)
        (λ id k.
          inl (
            IsQuiet-return d _ d' _ status (record { same_submissions = refl; same_keys = refl })
              k))
        (λ fresh k.
          let q = >>=-eq-returned (place_order env x o true (key_of o) price d) _ k in
          inr (
            o,
            refl,
            fresh,
            IsPlaced-quiet d q.0.desk d' o (key_of o)
                (place_order-IsPlaced env x o true _ price d q.0 q.1)
                (conclude_close-IsQuiet env x q.0 q.0.result (d', status) q.2),
          ))
        h

  carry_out_entry-IsLicensed :
      (env : Setting F) (x : Exchange F) (key_of : ApprovedOrder F → String) (price : F)
      (d d' : Desk F) (status : TickStatus) (v : Verdict F (ApprovedOrder F))
      → carry_out_entry env x key_of price d v ≡ returned (d', status)
      → IsLicensed (decided v) key_of d d'
  unfolding carry_out_entry
  carry_out_entry-IsLicensed env x key_of price d d' status zero_division h =
      absurd (ground (arith, h))
  carry_out_entry-IsLicensed env x key_of price d d' status (stop _ _) h =
      inl (IsQuiet-return d _ d' _ status (record { same_submissions = refl; same_keys = refl }) h)
  carry_out_entry-IsLicensed env x key_of price d d' status (go o _) h =
      either_option (find_key (key_of o) d.keys) _ _ (d', status)
        (λ id k.
          inl (
            IsQuiet-return d _ d' _ status (record { same_submissions = refl; same_keys = refl })
              k))
        (λ fresh k.
          let counted : Desk F = record d { approvals_count = add_count 1 d.approvals_count } in
          let q = >>=-eq-returned (place_order env x o false (key_of o) price counted) _ k in
          let placed = place_order-IsPlaced env x o false _ price counted q.0 q.1 in
          inr (
            o,
            refl,
            fresh,
            IsPlaced-quiet d q.0.desk d' o (key_of o)
                (record { submission = placed.submission; saved = placed.saved })
                (conclude_entry-IsQuiet env x q.0 q.0.result (d', status) q.2),
          ))
        h

  -- Nothing is submitted, or one order that is approved, under a key that no saved order has.
  abbrev pub IsCautious : (ApprovedOrder F → Type 0) → Desk F → Desk F → Type 0
  IsCautious P d d' =
      IsQuiet d d'
      ⊎ ((o : ApprovedOrder F) × (k : String) × P o
          × (find_key k d.keys ≡ none)
          × IsPlaced d d' o k)

  licensed-IsCautious :
      (P : ApprovedOrder F → Type 0) (v : Option (ApprovedOrder F))
      (key_of : ApprovedOrder F → String) (d d' : Desk F)
      → ((o : ApprovedOrder F) → v ≡ some o → P o)
      → IsLicensed v key_of d d'
      → IsCautious P d d'
  licensed-IsCautious P v key_of d d' approve (inl q) = inl q
  licensed-IsCautious P v key_of d d' approve (inr r) =
      inr (r.0, key_of r.0, approve r.0 r.1, r.2, r.3)

  pub enter_via_risk-IsCautious :
      (P : ApprovedOrder F → Type 0) (env : Setting F) (x : Exchange F) (engine : RiskEngine F)
      (context : RiskContext F) (key_of : ApprovedOrder F → String) (signal_id : ℕ) (s : Signal F)
      (close : F) (d d' : Desk F) (status : TickStatus)
      → ((o : ApprovedOrder F) → decided (evaluate engine s signal_id context []) ≡ some o → P o)
      → enter_via_risk env x engine context key_of signal_id s close d ≡ returned (d', status)
      → IsCautious P d d'
  unfolding enter_via_risk
  enter_via_risk-IsCautious P env x engine context key_of signal_id s close d d' status approve h =
      licensed-IsCautious P _ key_of d d' approve (
        carry_out_entry-IsLicensed env x key_of close d d' status
          (evaluate engine s signal_id context []) h)

  -- What a close is judged on: the limits on entries see nothing.
  abbrev pub close_context : RiskContext F → Desk F → RiskContext F
  close_context common d = record common {
    open_positions_count = 0;
    open_exposure_usd = nought;
    daily_realized_loss_usd = nought;
    consecutive_losses = d.store.state.consecutive_losses;
  }

  pub close_position_via_risk-IsCautious :
      (P : ApprovedOrder F → Type 0) (env : Setting F) (x : Exchange F) (engine : RiskEngine F)
      (common : RiskContext F) (key_of : ApprovedOrder F → String) (signal_id : ℕ) (p : Position F)
      (close_side : Side) (qty price : F) (d d' : Desk F) (status : TickStatus)
      → ((o : ApprovedOrder F)
          → decided (
              evaluate_close engine signal_id p.symbol close_side qty true p.qty p.side
                (close_context common d)
                [])
            ≡ some o
          → P o)
      → close_position_via_risk env x engine common key_of signal_id p close_side qty price d
        ≡ returned (d', status)
      → IsCautious P d d'
  unfolding close_position_via_risk
  close_position_via_risk-IsCautious P env x engine common key_of signal_id p close_side qty price d
        d' status approve h =
      licensed-IsCautious P _ key_of d d' approve (
        carry_out_close-IsLicensed env x key_of price d d' status
          (evaluate_close engine signal_id p.symbol close_side qty true p.qty p.side
            (close_context common d) [])
          h)
