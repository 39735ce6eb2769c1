-- ===== src/Execution/FillService/Steps.antt =====
-- The steps of `apply_order_snapshot`, and what each leaves alone.
use mathlib.Core.List.{append-nil}
use agente_tradin_ia_v2_mult.Common.{
  ℕ, Bool, Option, List, [], ◌∷◌, ◌++◌, ◌≡◌, ◌≢◌, refl, sym, arith,
}
use agente_tradin_ia_v2_mult.Float.{Float}
use agente_tradin_ia_v2_mult.Execution.Base.{OrderStatusSnapshot, FillEvent}
use agente_tradin_ia_v2_mult.Execution.FillLedger.{
  Recorded, record_new_fills, commit_rows, fresh_rows, recorded_ids, derive_totals,
}
use agente_tradin_ia_v2_mult.Persistence.Models.{Order, OrderEvent, Execution}
use agente_tradin_ia_v2_mult.Execution.Books.{
  Outcome, done, illegal_transition, zero_division, Books, Decision, FillApplicationResult, ◌>>=◌,
}
use agente_tradin_ia_v2_mult.Execution.FillService.{
  settle_status, apply_rows, apply_order_snapshot, conclude, Applying, applying,
  frozen_protection_distances,
}

-- Inversion of a call that returns.
pub >>=-eq-done :
    {A B : Type 0} (m : Outcome A) (k : A → Outcome B) {b : B}
    → (m >>= k) ≡ done b
    → (a : A) × (m ≡ done a) × (k a ≡ done b)
>>=-eq-done (done a) k e = (a, refl, e)
>>=-eq-done illegal_transition k e = cc
>>=-eq-done zero_division k e = cc

pub done-ne-illegal : {A : Type 0} (a : A) → done a ≢ illegal_transition
done-ne-illegal a e = cc

pub >>=-ne-illegal :
    {A B : Type 0} (m : Outcome A) (k : A → Outcome B)
    → m ≢ illegal_transition
    → ((a : A) → k a ≢ illegal_transition)
    → (m >>= k) ≢ illegal_transition
>>=-ne-illegal (done a) k p q = q a
>>=-ne-illegal illegal_transition k p q = absurd (p refl)
>>=-ne-illegal zero_division k p q = λ e. cc

pub done-injective : {A : Type 0} {a b : A} → done a ≡ done b → a ≡ b
done-injective e = cc

module _ {F : Type 0} ⦃f : Float F⦄ where
  commit_rows-order :
      (o : Order F) (executions rows : List (Execution F))
      → let o' = (commit_rows o executions rows).order in
        (o'.id ≡ o.id)
        × (o'.symbol ≡ o.symbol)
        × (o'.side ≡ o.side)
        × (o'.status ≡ o.status)
        × (o'.pending_exchange_status ≡ o.pending_exchange_status)
        × (o'.fills_sync_status ≡ o.fills_sync_status)
  unfolding commit_rows
  commit_rows-order o ex [] = ground arith
  commit_rows-order o ex (r ∷ rs) = ground arith

  -- Recording fills leaves all of an order but its totals.
  pub record_new_fills-order :
      (o : Order F) (executions : List (Execution F)) (now : ℕ) (fills : List (FillEvent F))
      → let o' = (record_new_fills o executions now fills).order in
        (o'.id ≡ o.id)
        × (o'.symbol ≡ o.symbol)
        × (o'.side ≡ o.side)
        × (o'.status ≡ o.status)
        × (o'.pending_exchange_status ≡ o.pending_exchange_status)
        × (o'.fills_sync_status ≡ o.fills_sync_status)
  unfolding record_new_fills derive_totals
  record_new_fills-order o ex now fills =
      commit_rows-order o ex (fresh_rows o.id now (recorded_ids o.id ex) fills)

  commit_rows-executions :
      (o : Order F) (executions rows : List (Execution F))
      → let rec = commit_rows o executions rows in rec.executions ≡ executions ++ rec.new_rows
  unfolding commit_rows
  commit_rows-executions o ex [] = sym (append-nil ex)
  commit_rows-executions o ex (r ∷ rs) = refl

  -- The new rows stand behind those on file.
  pub record_new_fills-executions :
      (o : Order F) (executions : List (Execution F)) (now : ℕ) (fills : List (FillEvent F))
      → let rec = record_new_fills o executions now fills in
        rec.executions ≡ executions ++ rec.new_rows
  unfolding record_new_fills
  record_new_fills-executions o ex now fills = commit_rows-executions o ex _

  -- The steps of a call that returns.
  pub record Applied (now max_failures : ℕ) (decision : Option (Decision F)) (is_close : Bool)
      (snap : OrderStatusSnapshot F) (b : Books F) (r : Books F × FillApplicationResult F)
      : Type 0 where
    pub order : Order F
    pub events : List OrderEvent
    pub loop : Applying F
    pub settled : settle_status snap b.order b.events ≡ done (order, events)
    pub applied :
        let rec = record_new_fills order b.executions now snap.fills in
        apply_rows is_close now
          (frozen_protection_distances decision)
          rec.order
          rec.new_rows
          (applying b)
        ≡ done loop
    pub result :
        r ≡ conclude max_failures b events (record_new_fills order b.executions now snap.fills) loop

  pub apply_order_snapshot-Applied :
      (now max_failures : ℕ) (decision : Option (Decision F)) (is_close : Bool)
      (snap : OrderStatusSnapshot F) (b : Books F) {r : Books F × FillApplicationResult F}
      → apply_order_snapshot now max_failures decision is_close snap b ≡ done r
      → Applied now max_failures decision is_close snap b r
  unfolding apply_order_snapshot
  apply_order_snapshot-Applied now m d c snap b {r} e =
      let (s, es, k) = >>=-eq-done (settle_status snap b.order b.events) _ e in
      let (a, ea, l) = >>=-eq-done _ _ k in
      record {
        order = s.0;
        events = s.1;
        loop = a;
        settled = es;
        applied = ea;
        result = sym (done-injective l);
      }

  pub conclude-order :
      (max_failures : ℕ) (b : Books F) (events : List OrderEvent) (rec : Recorded F)
      (a : Applying F)
      → let r = conclude max_failures b events rec a in
        (r.0.order ≡ rec.order) × (r.0.events ≡ events) × (r.1.status ≡ rec.order.status)
  unfolding conclude
  conclude-order m b events rec a = (refl, refl, refl)
