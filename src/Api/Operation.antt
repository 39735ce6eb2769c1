-- ===== src/Api/Operation.antt =====
-- app/api/routes_control.py: releasing the kill switch, authorising new entries and pausing them.
-- A request that is denied raises HTTP 403; an answer in words is represented by what it tells. The
-- security events, and the session's copy of the operational state, are left out.
pub mod Activation
use agente_tradin_ia_v2_mult.Common.{
  ℕ, String, Bool, true, false, not, ◌&&◌, ◌||◌, ◌==◌, Option, none, some, List, [], ◌∷◌, str_eq,
  if◌then◌else◌,
}
use agente_tradin_ia_v2_mult.Persistence.Models.{
  is_set, OperationalState, inicializando, observando, ativo, pausado, bloqueado, encerrando,
  SystemState,
}
use agente_tradin_ia_v2_mult.Persistence.Repo.{is_nonempty, recompute_trading_blocked}

-- What a request shows of where it comes from.
pub record Request : Type 0 where
  pub client_host : Option String
  pub control_token : String

-- Why entries are not authorised.
pub data Impediment : Type 0 where
  engine_is_unhealthy is_blocked is_not_reconciled : Impediment
  symbols_block : List String → Impediment
  not_activatable : OperationalState → Impediment

pub data Response : Type 0 where
  forbidden : Response
  declined : Impediment → SystemState → Response
  carried_out : SystemState → Response

-- `LOCAL_CLIENT_HOSTS`
unfoldable pub is_local : Option String → Bool
is_local none = false
is_local (some host) = str_eq host "127.0.0.1" || str_eq host "::1" || str_eq host "testclient"

-- `require_local_or_authenticated`; the first argument is `CONTROL_API_TOKEN`.
unfoldable pub require_local_or_authenticated : String → Request → Bool
unfolding is_local
require_local_or_authenticated token r =
    if is_local r.client_host
    then true
    else if str_eq token ""
    then false
    else str_eq r.control_token token

unfoldable pub disengage_kill_switch : String → ℕ → Request → SystemState → Response
unfolding require_local_or_authenticated recompute_trading_blocked
disengage_kill_switch token max_api_failures r s =
    if not (require_local_or_authenticated token r)
    then forbidden
    else carried_out
        (recompute_trading_blocked (record s { kill_switch_engaged = false }) max_api_failures)

-- What the gate reads of a symbol: `_symbol_health_snapshot` and the temporal readiness. `ready` is
-- `none` where no warm-up state is there.
pub record SymbolHealth : Type 0 where
  pub symbol : String
  pub status : Option String
  pub has_gap : Bool
  pub consecutive_failures : ℕ
  pub last_error : Option String
  pub ready : Option Bool
  pub current : Bool

-- `h.get("status") and h["status"] != "SAUDAVEL"`
abbrev pub status_unhealthy : Option String → Bool
status_unhealthy none = false
status_unhealthy (some s) = not (str_eq s "") && not (str_eq s "SAUDAVEL")

abbrev pub not_ready : Option Bool → Bool
not_ready none = false
not_ready (some b) = not b

-- Whether a symbol has a reason (`motivos`) against it.
unfoldable pub has_reason : Bool → SymbolHealth → Bool
has_reason applicable h =
    status_unhealthy h.status
    || h.has_gap
    || not (h.consecutive_failures == 0)
    || is_set h.last_error
    || not_ready h.ready
    || (applicable && not h.current)

-- `blocking_symbols`
unfoldable pub blocking_symbols : Bool → List SymbolHealth → List String
unfolding has_reason
blocking_symbols applicable [] = []
blocking_symbols applicable (h ∷ hs) =
    let rest = blocking_symbols applicable hs in
    if has_reason applicable h then h.symbol ∷ rest else rest

-- `_ACTIVATABLE_FROM`
abbrev pub is_activatable : OperationalState → Bool
is_activatable observando = true
is_activatable pausado = true
is_activatable _ = false

-- What the gate reads of the market engine and of the symbols; `engine_unhealthy` is false where
-- there is no engine to ask.
pub record Readiness : Type 0 where
  pub engine_unhealthy : Bool
  pub applicable : Bool
  pub symbols : List SymbolHealth

unfoldable pub activate_operational_state : String → Request → Readiness → SystemState → Response
unfolding require_local_or_authenticated blocking_symbols
activate_operational_state token r g s =
    if not (require_local_or_authenticated token r)
    then forbidden
    else if g.engine_unhealthy
    then declined engine_is_unhealthy s
    else if s.trading_blocked
    then declined is_blocked s
    else if s.initialization_not_reconciled
    then declined is_not_reconciled s
    else let blocking = blocking_symbols g.applicable g.symbols in
      if is_nonempty blocking
      then declined (symbols_block blocking) s
      else if not (is_activatable s.operational_state)
      then declined (not_activatable s.operational_state) s
      else carried_out (record s { operational_state = ativo })

unfoldable pub pause_operational_state : SystemState → SystemState
pause_operational_state s = record s { operational_state = pausado }
