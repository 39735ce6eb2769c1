-- ===== src/Orchestrator/Tick/Steps.antt =====
-- What the orchestrator does, as steps: over any run of them no key is submitted twice.
use agente_tradin_ia_v2_mult.Common.{
  ℕ, ◌+◌, ◌≤◌, String, true, Option, none, some, List, [], ◌∷◌, ◌++◌, str_eq, str_eq_iff, ◌≡◌, inl,
  inr, ap, ◌∙◌, arith, Bool-cases, if◌then◌else◌,
}
use agente_tradin_ia_v2_mult.Float.{Float}
use agente_tradin_ia_v2_mult.Risk.Engine.{ApprovedOrder}
use agente_tradin_ia_v2_mult.Orchestrator.Results.{TickResult}
use agente_tradin_ia_v2_mult.Orchestrator.Desk.{returned, Desk, Exchange, Setting, find_key}
use agente_tradin_ia_v2_mult.Orchestrator.Reconcile.{reconcile}
use agente_tradin_ia_v2_mult.Orchestrator.Orders.Quiet.{IsQuiet, IsPlaced, reconcile-IsQuiet}
use agente_tradin_ia_v2_mult.Orchestrator.Orders.Authority.{IsCautious}
use agente_tradin_ia_v2_mult.Orchestrator.Tick.{Inputs, Trader, tick}
use agente_tradin_ia_v2_mult.Orchestrator.Tick.Submissions.{tick-IsCautious}

-- A step that is committed: a tick, of any symbol, or a reconciliation.
pub data Step {F : Type 0} ⦃f : Float F⦄ : Desk F → Desk F → Type 0 where
  ticks :
      (i : Inputs F) (t t' : Trader F) (r : TickResult)
      → tick i t ≡ returned (t', r)
      → Step t.desk t'.desk
  reconciles :
      {d d' : Desk F} (env : Setting F) (x : Exchange F)
      → reconcile env x d ≡ returned d'
      → Step d d'

pub data Steps {F : Type 0} ⦃f : Float F⦄ : Desk F → Desk F → Type 0 where
  stay : {d : Desk F} → Steps d d
  onward : {a b c : Desk F} → Steps a b → Step b c → Steps a c

-- How many submissions have this key, and whether a saved order has it, as a number.
abbrev pub times_submitted : {F : Type 0} → String → List (ApprovedOrder F × String) → ℕ
times_submitted key [] = 0
times_submitted key (s ∷ ss) = (if str_eq key s.1 then 1 else 0) + times_submitted key ss

abbrev pub times_saved : Option ℕ → ℕ
times_saved none = 0
times_saved (some _) = 1

times_submitted-append :
    {F : Type 0} (key : String) (o : ApprovedOrder F) (k : String)
    (xs : List (ApprovedOrder F × String))
    → times_submitted key (xs ++ ((o, k) ∷ []))
      ≡ times_submitted key xs + (if str_eq key k then 1 else 0)
times_submitted-append key o k [] = omega arith
times_submitted-append key o k (x ∷ xs) =
    let ih = times_submitted-append key o k xs in omega (arith, ih)

times_saved-append :
    (key : String) (id : ℕ) (k : String) (keys : List (String × ℕ))
    → times_saved (find_key key (keys ++ ((k, id) ∷ [])))
      ≡ (if str_eq key k then 1 else times_saved (find_key key keys))
unfolding find_key
times_saved-append key id k [] = ground arith
times_saved-append key id k (e ∷ es) = let ih = times_saved-append key id k es in ground (arith, ih)

-- No key is submitted more than once, and none that no saved order has.
unfoldable pub IsOnce : {F : Type 0} → Desk F → Type 0
IsOnce d = (key : String) → times_submitted key d.submissions ≤ times_saved (find_key key d.keys)

module _ {F : Type 0} where
  placed-IsOnce :
      (d d' : Desk F) (o : ApprovedOrder F) (k : String)
      → find_key k d.keys ≡ none
      → IsPlaced d d' o k
      → IsOnce d
      → IsOnce d'
  unfolding IsOnce
  placed-IsOnce d d' o k fresh p once key =
      let id = p.saved.0 in
      let a : times_submitted key d'.submissions
          ≡ times_submitted key d.submissions + (if str_eq key k then 1 else 0) =
        ap (times_submitted key) p.submission ∙ times_submitted-append key o k d.submissions in
      let b : times_saved (find_key key d'.keys)
          ≡ (if str_eq key k then 1 else times_saved (find_key key d.keys)) =
        ap (λ ks. times_saved (find_key key ks)) p.saved.1 ∙ times_saved-append key id k d.keys in
      let c = once key in
      let z : (str_eq key k ≡ true) → times_saved (find_key key d.keys) ≡ 0 = λ e.
        ap (λ y. times_saved (find_key y d.keys)) ((str_eq_iff key k).0 e) ∙ ap times_saved fresh in
      elim (Bool-cases (str_eq key k)) [
        | inl e ↦ let y = z e in ground (arith, a, b, c, e, y)
        | inr e ↦ ground (arith, a, b, c, e)
      ]

  quiet-IsOnce : (d d' : Desk F) → IsQuiet d d' → IsOnce d → IsOnce d'
  unfolding IsOnce
  quiet-IsOnce d d' q once key =
      let a = ap (times_submitted key) q.same_submissions in
      let b = ap (λ ks. times_saved (find_key key ks)) q.same_keys in
      let c = once key in omega (arith, a, b, c)

module _ {F : Type 0} ⦃f : Float F⦄ where
  forget :
      (P : ApprovedOrder F → Type 0) (d d' : Desk F)
      → IsCautious P d d'
      → IsCautious (λ _. Unit) d d'
  forget P d d' (inl q) = inl q
  forget P d d' (inr r) = inr (r.0, r.1, tt, r.3, r.4)

  Step-IsCautious : (d d' : Desk F) → Step d d' → IsCautious (λ _. Unit) d d'
  Step-IsCautious d d' (ticks i t t' r h) = forget _ t.desk t'.desk (tick-IsCautious i t t' r h).3
  Step-IsCautious d d' (reconciles env x h) = inl (reconcile-IsQuiet env x d d' h)

  -- If no key has been submitted more than once, and none that no saved order has, that stays so
  -- whatever steps are committed: ticks and reconciliations, with whatever answers of the
  -- exchange and however the key is made of the order.
  pub Steps-IsOnce : (d d' : Desk F) → Steps d d' → IsOnce d → IsOnce d'
  Steps-IsOnce d d' stay h = h
  Steps-IsOnce d d' (onward {b = e} past s) h =
      let ih = Steps-IsOnce d e past h in
      elim (Step-IsCautious e d' s) [
        | inl q ↦ quiet-IsOnce e d' q ih
        | inr r ↦ placed-IsOnce e d' r.0 r.1 r.3 r.4 ih
      ]
