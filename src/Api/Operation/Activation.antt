-- ===== src/Api/Operation/Activation.antt =====
-- When new entries are authorised, and by whom.
use agente_tradin_ia_v2_mult.Common.{
  ℕ, String, Bool, true, false, List, [], ◌∷◌, ◌≡◌, ◌≢◌, ◌↔◌, ◌⊎◌, arith, All, refl, str_eq,
}
use agente_tradin_ia_v2_mult.Persistence.Models.{observando, ativo, pausado, SystemState}
use agente_tradin_ia_v2_mult.Persistence.Repo.{is_nonempty}
use agente_tradin_ia_v2_mult.Persistence.SystemBlock.{HasCause}
use agente_tradin_ia_v2_mult.Api.Operation.{
  Request, forbidden, carried_out, is_local, is_activatable, require_local_or_authenticated,
  disengage_kill_switch, SymbolHealth, has_reason, blocking_symbols, Readiness,
  activate_operational_state,
}

-- Nothing stands against any symbol.
abbrev pub IsClear : Bool → List SymbolHealth → Type 0
IsClear applicable = All (λ h. has_reason applicable h ≡ false)

IsClear-iff :
    (applicable : Bool) (hs : List SymbolHealth)
    → (is_nonempty (blocking_symbols applicable hs) ≡ false) ↔ IsClear applicable hs
unfolding blocking_symbols
IsClear-iff applicable [] = (λ _. tt, λ _. refl)
IsClear-iff applicable (h ∷ hs) =
    ground (arith, (IsClear-iff applicable hs).0, (IsClear-iff applicable hs).1)

-- The request may be carried out, and nothing stands against new entries.
pub record MayActivate (token : String) (r : Request) (g : Readiness) (s : SystemState)
    : Type 0 where
  pub allowed : require_local_or_authenticated token r ≡ true
  pub engine_healthy : g.engine_unhealthy ≡ false
  pub not_blocked : s.trading_blocked ≡ false
  pub reconciled : s.initialization_not_reconciled ≡ false
  pub symbols_clear : IsClear g.applicable g.symbols
  pub from : (s.operational_state ≡ observando) ⊎ (s.operational_state ≡ pausado)

activatable_iff :
    (s : SystemState)
    → (is_activatable s.operational_state ≡ true)
      ↔ ((s.operational_state ≡ observando) ⊎ (s.operational_state ≡ pausado))
activatable_iff s = ground arith

activate_gates :
    (token : String) (r : Request) (g : Readiness) (s s' : SystemState)
    → (activate_operational_state token r g s ≡ carried_out s') ↔ (
        (require_local_or_authenticated token r ≡ true)
        × (g.engine_unhealthy ≡ false)
        × (s.trading_blocked ≡ false)
        × (s.initialization_not_reconciled ≡ false)
        × (is_nonempty (blocking_symbols g.applicable g.symbols) ≡ false)
        × (is_activatable s.operational_state ≡ true)
        × (record s { operational_state = ativo } ≡ s'))
unfolding activate_operational_state
activate_gates token r g s s' = (λ h. ground arith, λ h. ground arith)

-- Activating carries out exactly the requests that are local or authenticated, from OBSERVANDO or
-- PAUSADO, while the engine is healthy, trading is not blocked, the initial reconciliation is
-- done, and nothing stands against any symbol; then ATIVO is all that is written.
pub activate_iff :
    (token : String) (r : Request) (g : Readiness) (s s' : SystemState)
    → (activate_operational_state token r g s ≡ carried_out s')
      ↔ (MayActivate token r g s × (record s { operational_state = ativo } ≡ s'))
activate_iff token r g s s' =
    let i = activate_gates token r g s s' in
    let c = IsClear-iff g.applicable g.symbols in
    let a = activatable_iff s in
    (
      λ h.
          let u = i.0 h in
          (
            record {
              allowed = u.0;
              engine_healthy = u.1;
              not_blocked = u.2;
              reconciled = u.3;
              symbols_clear = c.0 u.4;
              from = a.0 u.5;
            },
            u.6,
          ),
      λ h.
          let m = h.0 in
          i.1 (
            m.allowed,
            m.engine_healthy,
            m.not_blocked,
            m.reconciled,
            c.1 m.symbols_clear,
            a.1 m.from,
            h.1,
          ),
    )

-- Releasing the kill switch is carried out exactly for a request that is local, or that shows the
-- control token where one is configured; the kill switch is then off, and trading is blocked
-- exactly if another of the causes is there.
pub disengage_iff :
    (token : String) (max_failures : ℕ) (r : Request) (s : SystemState)
    → ((disengage_kill_switch token max_failures r s ≢ forbidden) ↔ (
        (is_local r.client_host ≡ true)
        ⊎ ((str_eq token "" ≡ false) × (str_eq r.control_token token ≡ true))))
      × ((s' : SystemState)
          → disengage_kill_switch token max_failures r s ≡ carried_out s'
          → (s'.kill_switch_engaged ≡ false)
            × ((s'.trading_blocked ≡ true)
                ↔ HasCause (record s { kill_switch_engaged = false }) max_failures))
unfolding disengage_kill_switch
disengage_iff token m r s =
    ((λ h. ground arith, λ h. ground arith), λ s' h. (ground arith, ground arith))
