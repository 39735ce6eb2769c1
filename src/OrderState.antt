-- ===== src/OrderState.antt =====
-- app/execution/order_state.py: the eight statuses of an order and the table of transitions.
use agente_tradin_ia_v2_mult.Common.{
  Bool, true, false, ◌||◌, not, List, [], ◌∷◌, ◌≡◌, ◌↔◌, arith, if◌then◌else◌,
}

pub data OrderStatus : Type 0 where
  pending_submit submitted partially_filled filled cancel_pending cancelled rejected unknown :
      OrderStatus

-- `==` on members of the enumeration.
abbrev pub eq_status : OrderStatus → OrderStatus → Bool
eq_status pending_submit pending_submit = true
eq_status submitted submitted = true
eq_status partially_filled partially_filled = true
eq_status filled filled = true
eq_status cancel_pending cancel_pending = true
eq_status cancelled cancelled = true
eq_status rejected rejected = true
eq_status unknown unknown = true
eq_status _ _ = false

pub eq_status_iff : (s t : OrderStatus) → (eq_status s t ≡ true) ↔ (s ≡ t)
eq_status_iff s t = ground arith

-- `s in statuses`
abbrev pub contains : List OrderStatus → OrderStatus → Bool
contains [] s = false
contains (t ∷ ts) s = eq_status s t || contains ts s

-- `TERMINAL_STATUSES`
abbrev pub terminal_statuses : List OrderStatus
terminal_statuses = filled ∷ cancelled ∷ rejected ∷ []

-- `NON_TERMINAL_STATUSES`
abbrev pub non_terminal_statuses : List OrderStatus
non_terminal_statuses =
    pending_submit ∷ submitted ∷ partially_filled ∷ cancel_pending ∷ unknown ∷ []

-- `_ALLOWED_TRANSITIONS`
unfoldable pub allowed_transitions : OrderStatus → List OrderStatus
allowed_transitions pending_submit = submitted ∷ rejected ∷ unknown ∷ filled ∷ partially_filled ∷ []
allowed_transitions submitted =
    partially_filled ∷ filled ∷ cancel_pending ∷ cancelled ∷ rejected ∷ unknown ∷ []
allowed_transitions partially_filled =
    partially_filled ∷ filled ∷ cancel_pending ∷ cancelled ∷ unknown ∷ []
allowed_transitions cancel_pending = cancelled ∷ filled ∷ partially_filled ∷ unknown ∷ []
allowed_transitions unknown =
    submitted ∷ partially_filled ∷ filled ∷ cancel_pending ∷ cancelled ∷ rejected ∷ unknown ∷ []
allowed_transitions filled = []
allowed_transitions cancelled = []
allowed_transitions rejected = []

-- `IllegalOrderTransitionError`, with the two statuses that its message names.
pub record IllegalTransition : Type 0 where
  pub from : OrderStatus
  pub to : OrderStatus

pub data Validation : Type 0 where
  valid : Validation
  illegal : IllegalTransition → Validation

unfoldable pub validate_transition : OrderStatus → OrderStatus → Validation
unfolding allowed_transitions
validate_transition current new =
    if not (contains (allowed_transitions current) new)
    then illegal (record { from = current; to = new })
    else valid

unfoldable pub is_terminal : OrderStatus → Bool
is_terminal status = contains terminal_statuses status
