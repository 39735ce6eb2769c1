-- ===== src/Orchestrator/Orders/Quiet.antt =====
-- What is submitted and saved when an order is placed, and that nothing else submits or saves.
use agente_tradin_ia_v2_mult.Common.{
  ℕ, ◌+◌, String, Bool, true, false, not, ◌==◌, Option, none, some, List, [], ◌∷◌, ◌++◌, leb,
  if◌then◌else◌, ◌≡◌, refl, sym, ap, ◌∙◌, subst, arith,
}
use agente_tradin_ia_v2_mult.Float.{Float, nought}
use agente_tradin_ia_v2_mult.OrderState.{OrderStatus, submitted, unknown, eq_status}
use agente_tradin_ia_v2_mult.Persistence.Models.{Order}
use agente_tradin_ia_v2_mult.Persistence.Repo.{non_terminal_orders, Transition, moved, refused}
use agente_tradin_ia_v2_mult.Execution.Books.{FillApplicationResult}
use agente_tradin_ia_v2_mult.Execution.FillService.{add_count}
use agente_tradin_ia_v2_mult.Api.Control.{Store}
use agente_tradin_ia_v2_mult.Risk.Engine.{ApprovedOrder}
use agente_tradin_ia_v2_mult.Orchestrator.Results.{TickStatus}
use agente_tradin_ia_v2_mult.Orchestrator.Desk.{
  Attempt, returned, ◌>>=◌, of_option, Entry, Desk, Exchange, Setting, add_symbol,
}
use agente_tradin_ia_v2_mult.Orchestrator.Reconcile.{
  symbols_of_orders, apply_report, is_true, reconcile, reconcile_positions_step,
  reconcile_orders_step, repoll, compare_after_repoll,
}
use agente_tradin_ia_v2_mult.Orchestrator.Reconcile.Clearing.{>>=-eq-returned, returned-injective}
use agente_tradin_ia_v2_mult.Orchestrator.Placing.{
  Tracked, poll_once, after_ack, submit_and_track, place_order, fail_order,
}
use agente_tradin_ia_v2_mult.Orchestrator.Orders.{count_losses, conclude_close, conclude_entry}

-- No order is submitted or saved.
pub record IsQuiet {F : Type 0} (d d' : Desk F) : Type 0 where
  pub same_submissions : d'.submissions ≡ d.submissions
  pub same_keys : d'.keys ≡ d.keys

pub IsQuiet-trans : {F : Type 0} (a b c : Desk F) → IsQuiet a b → IsQuiet b c → IsQuiet a c
IsQuiet-trans a b c p q = record {
  same_submissions = q.same_submissions ∙ p.same_submissions;
  same_keys = q.same_keys ∙ p.same_keys;
}

-- An order is saved under a key and submitted with it.
pub record IsPlaced {F : Type 0} (d d' : Desk F) (o : ApprovedOrder F) (key : String) : Type 0 where
  pub submission : d'.submissions ≡ d.submissions ++ ((o, key) ∷ [])
  pub saved : (id : ℕ) × (d'.keys ≡ d.keys ++ ((key, id) ∷ []))

pub IsPlaced-quiet :
    {F : Type 0} (a b c : Desk F) (o : ApprovedOrder F) (key : String)
    → IsPlaced a b o key
    → IsQuiet b c
    → IsPlaced a c o key
IsPlaced-quiet a b c o key p q = record {
  submission = q.same_submissions ∙ p.submission;
  saved = (p.saved.0, q.same_keys ∙ p.saved.1);
}

pub either_branch :
    {A : Type 0} {P : Type 0} (b : Bool) (m n : Attempt A) (a : A)
    → (m ≡ returned a → P)
    → (n ≡ returned a → P)
    → (if b then m else n) ≡ returned a
    → P
either_branch true m n a p q h = p h
either_branch false m n a p q h = q h

pub either_option :
    {A B : Type 0} {P : Type 0} (o : Option A) (m : A → Attempt B) (n : Attempt B) (b : B)
    → ((a : A) → m a ≡ returned b → P)
    → (o ≡ none → n ≡ returned b → P)
    → elim o [ none ↦ n | some a ↦ m a ] ≡ returned b
    → P
either_option none m n b p q h = q refl h
either_option (some a) m n b p q h = p a h

module _ {F : Type 0} ⦃f : Float F⦄ where
  compare_after_repoll-IsQuiet :
      (env : Setting F) (x : Exchange F) (symbols : List String) (d : Desk F) (r : Store F × Bool)
      → IsQuiet d (compare_after_repoll env x symbols d r).0
  unfolding compare_after_repoll
  compare_after_repoll-IsQuiet env x symbols d (st, false) = record {
    same_submissions = refl;
    same_keys = refl;
  }
  compare_after_repoll-IsQuiet env x symbols d (st, true) = record {
    same_submissions = refl;
    same_keys = refl;
  }

  pub reconcile-IsQuiet :
      (env : Setting F) (x : Exchange F) (d d' : Desk F)
      → reconcile env x d ≡ returned d'
      → IsQuiet d d'
  unfolding reconcile reconcile_positions_step reconcile_orders_step
  reconcile-IsQuiet env x d d' h =
      let q = >>=-eq-returned _ _ h in
      let r = >>=-eq-returned (repoll env x [] d.store.orders d.store) _ q.1 in
      let asked =
        add_symbol env.symbol
          (symbols_of_orders (non_terminal_orders env.mode d.store.orders) []) in
      let begun : Desk F = record d {
        reconciliations_count = add_count 1 d.reconciliations_count;
        last_reconciliation_at = some env.now;
      } in
      let p = reconcile_positions_step env x begun in
      let k = compare_after_repoll-IsQuiet env x asked p.0 r.0 in
      let same = returned-injective r.2 in
      let e = returned-injective q.2 in
      record {
        same_submissions =
            ap (λ (z : Desk F). z.submissions) (sym e)
            ∙ ap (λ (z : Desk F × Option Bool). z.0.submissions) (sym same)
            ∙ k.same_submissions;
        same_keys =
            ap (λ (z : Desk F). z.keys) (sym e)
            ∙ ap (λ (z : Desk F × Option Bool). z.0.keys) (sym same)
            ∙ k.same_keys;
      }

  pub same-IsQuiet :
      {A : Type 0} (desk_of : A → Desk F) (d : Desk F) (a b : A)
      → IsQuiet d (desk_of a)
      → returned a ≡ returned b
      → IsQuiet d (desk_of b)
  same-IsQuiet desk_of d a b q h = subst (λ z. IsQuiet d (desk_of z)) (returned-injective h) q

  failed-IsQuiet :
      (env : Setting F) (x : Exchange F) (entry : Entry) (d d' : Desk F)
      → fail_order env x entry d ≡ returned d'
      → IsQuiet d d'
  unfolding fail_order
  failed-IsQuiet env x entry d d' h =
      let failed : Desk F = record d {
        store = record d.store {
          state = record d.store.state { api_failure_count = d.store.state.api_failure_count + 1 };
        };
        journal = d.journal ++ (entry ∷ []);
        failures_count = add_count 1 d.failures_count;
      } in
      let r = reconcile-IsQuiet env x failed d' h in
      record { same_submissions = r.same_submissions; same_keys = r.same_keys }

  fail_order-IsQuiet :
      (env : Setting F) (x : Exchange F) (entry : Entry) (d d' : Desk F)
      (status status' : TickStatus)
      → ◌>>=◌ {B = Desk F × TickStatus} (fail_order env x entry d) (λ e. returned (e, status))
        ≡ returned (d', status')
      → IsQuiet d d'
  fail_order-IsQuiet env x entry d d' status status' h =
      let q = >>=-eq-returned (fail_order env x entry d) _ h in
      same-IsQuiet (λ (z : Desk F × TickStatus). z.0) d (q.0, status) (d', status')
        (failed-IsQuiet env x entry d q.0 q.1) q.2

  poll_once-IsQuiet :
      (env : Setting F) (x : Exchange F) (o : Order F) (ack_status : OrderStatus) (d : Desk F)
      (t : Tracked F)
      → poll_once env x o ack_status d ≡ returned t
      → IsQuiet d t.desk
  unfolding poll_once
  poll_once-IsQuiet env x o ack_status d t h =
      let q = >>=-eq-returned (of_option (x.poll_order o)) _ h in
      let r = >>=-eq-returned (apply_report env d.store.orders o d.store q.0) _ q.2 in
      same-IsQuiet (λ (z : Tracked F). z.desk) d _ t
        (record { same_submissions = refl; same_keys = refl }) r.2

  after_ack-IsQuiet :
      (env : Setting F) (x : Exchange F) (ack_status : OrderStatus) (d : Desk F) (m : Transition F)
      (t : Tracked F)
      → after_ack env x ack_status d m ≡ returned t
      → IsQuiet d t.desk
  unfolding after_ack
  after_ack-IsQuiet env x ack_status d (refused _) t h = absurd (ground (arith, h))
  after_ack-IsQuiet env x ack_status d (moved o e) t h =
      let d' : Desk F = record d {
        store = record d.store { events = d.store.events ++ (e ∷ []) };
      } in
      either_branch (not (eq_status ack_status submitted)) _ _ t
        (same-IsQuiet (λ (z : Tracked F). z.desk) d
          (record {
            desk = record d' { store = record d'.store { orders = d'.store.orders ++ (o ∷ []) } };
            order_id = o.id;
            ack_status = ack_status;
            result = none;
          })
          t (record { same_submissions = refl; same_keys = refl }))
        (λ k.
          let q = poll_once-IsQuiet env x o ack_status d' t k in
          record { same_submissions = q.same_submissions; same_keys = q.same_keys })
        h

  pub place_order-IsPlaced :
      (env : Setting F) (x : Exchange F) (o : ApprovedOrder F) (is_close : Bool) (key : String)
      (price : F) (d : Desk F) (t : Tracked F)
      → place_order env x o is_close key price d ≡ returned t
      → IsPlaced d t.desk o key
  unfolding place_order submit_and_track
  place_order-IsPlaced env x o is_close key price d t h =
      let q = >>=-eq-returned (of_option (x.submit o key price)) _ h in
      let r = after_ack-IsQuiet env x q.0.status _ _ t q.2 in
      record { submission = r.same_submissions; saved = (d.next_order_id, r.same_keys) }

  pub either-IsQuiet :
      (b : Bool) (d m n : Desk F) → IsQuiet d m → IsQuiet d n → IsQuiet d (if b then m else n)
  either-IsQuiet true d m n p q = p
  either-IsQuiet false d m n p q = q

  count_losses-IsQuiet :
      (env : Setting F) (pnl : F) (d : Desk F) → IsQuiet d (count_losses env pnl d)
  unfolding count_losses
  count_losses-IsQuiet env pnl d =
      either-IsQuiet
        (leb env.cooldown_after_losses
          (if f.lt pnl nought then d.store.state.consecutive_losses + 1 else 0))
        d _ _ (record { same_submissions = refl; same_keys = refl })
        (record { same_submissions = refl; same_keys = refl })

  pub conclude_close-IsQuiet :
      (env : Setting F) (x : Exchange F) (t : Tracked F) (r : Option (FillApplicationResult F))
      (e : Desk F × TickStatus)
      → conclude_close env x t r ≡ returned e
      → IsQuiet t.desk e.0
  unfolding conclude_close count_losses
  conclude_close-IsQuiet env x t none e h = fail_order-IsQuiet env x _ t.desk e.0 _ e.1 h
  conclude_close-IsQuiet env x t (some r) e h =
      either_branch (r.new_fill_count == 0) _ _ e
        (either_branch (eq_status r.status unknown) _ _ e
          (fail_order-IsQuiet env x _ t.desk e.0 _ e.1)
          (same-IsQuiet (λ (z : Desk F × TickStatus). z.0) t.desk _ e
            (record { same_submissions = refl; same_keys = refl })))
        (either_branch (is_true r.closed_fully) _ _ e
          (same-IsQuiet (λ (z : Desk F × TickStatus). z.0) t.desk _ e
            (count_losses-IsQuiet env r.realized_pnl_delta_total t.desk))
          (same-IsQuiet (λ (z : Desk F × TickStatus). z.0) t.desk _ e
            (record { same_submissions = refl; same_keys = refl })))
        h

  pub conclude_entry-IsQuiet :
      (env : Setting F) (x : Exchange F) (t : Tracked F) (r : Option (FillApplicationResult F))
      (e : Desk F × TickStatus)
      → conclude_entry env x t r ≡ returned e
      → IsQuiet t.desk e.0
  unfolding conclude_entry
  conclude_entry-IsQuiet env x t none e h = fail_order-IsQuiet env x _ t.desk e.0 _ e.1 h
  conclude_entry-IsQuiet env x t (some r) e h =
      either_branch (not (r.new_fill_count == 0)) _ _ e
        (same-IsQuiet (λ (z : Desk F × TickStatus). z.0) t.desk _ e
          (record { same_submissions = refl; same_keys = refl }))
        (either_branch (eq_status r.status unknown) _ _ e
          (fail_order-IsQuiet env x _ t.desk e.0 _ e.1)
          (same-IsQuiet (λ (z : Desk F × TickStatus). z.0) t.desk _ e
            (record { same_submissions = refl; same_keys = refl })))
        h
