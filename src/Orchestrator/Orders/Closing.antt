-- ===== src/Orchestrator/Orders/Closing.antt =====
-- How the close of a position ends: refused, taken for a repetition, or submitted.
use agente_tradin_ia_v2_mult.Common.{
  ℕ, ◌+◌, String, true, Option, none, some, [], ◌∷◌, ◌++◌, ◌≡◌, refl, sym, ap, ◌∙◌, subst, arith,
  inl, inr, Option-cases, some_injective,
}
use agente_tradin_ia_v2_mult.Float.{Float}
use agente_tradin_ia_v2_mult.Persistence.Models.{Side, Order, Position}
use agente_tradin_ia_v2_mult.Persistence.Repo.{transition_order_status}
use agente_tradin_ia_v2_mult.Execution.Base.{SubmitAck}
use agente_tradin_ia_v2_mult.Execution.FillService.{add_count}
use agente_tradin_ia_v2_mult.Risk.Checks.{Verdict, go, stop, zero_division, decided}
use agente_tradin_ia_v2_mult.Risk.Engine.{ApprovedOrder, RiskContext, RiskEngine, evaluate_close}
use agente_tradin_ia_v2_mult.Risk.Engine.Closing.{IsClosable, close_order, evaluate_close_iff}
use agente_tradin_ia_v2_mult.Orchestrator.Results.{TickStatus, close_rejected, duplicate_suppressed}
use agente_tradin_ia_v2_mult.Orchestrator.Desk.{
  Attempt, returned, of_option, Desk, Exchange, Setting, find_key,
}
use agente_tradin_ia_v2_mult.Orchestrator.Reconcile.Clearing.{>>=-eq-returned, returned-injective}
use agente_tradin_ia_v2_mult.Orchestrator.Placing.{
  Tracked, adopt_ack, new_order, after_ack, submit_and_track, place_order,
}
use agente_tradin_ia_v2_mult.Orchestrator.Orders.{
  conclude_close, carry_out_close, close_position_via_risk,
}
use agente_tradin_ia_v2_mult.Orchestrator.Orders.Quiet.{
  IsQuiet, IsPlaced, IsPlaced-quiet, place_order-IsPlaced, conclude_close-IsQuiet,
}
use agente_tradin_ia_v2_mult.Orchestrator.Orders.Authority.{close_context}

acknowledged : {A : Type 0} (o : Option A) {a : A} → of_option o ≡ returned a → o ≡ some a
acknowledged none h = absurd (ground (arith, h))
acknowledged (some x) h = ap some (returned-injective h)

either_found :
    {B : Type 0} {P : Type 0} (o : Option ℕ) (m n : Attempt B) (b : B)
    → ((id : ℕ) → o ≡ some id → m ≡ returned b → P)
    → (o ≡ none → n ≡ returned b → P)
    → elim o [ none ↦ n | some _ ↦ m ] ≡ returned b
    → P
either_found none m n b p q h = q refl h
either_found (some id) m n b p q h = p id refl h

module _ {F : Type 0} ⦃f : Float F⦄ where
  -- No table, no submission and no key has changed.
  pub record IsIdle (d d' : Desk F) : Type 0 where
    pub quiet : IsQuiet d d'
    pub same_store : d'.store ≡ d.store

  -- The exchange has acknowledged an order at this price, and the row that is tracked from there on is
  -- that of a close: with the order's symbol, side and quantity, and the next free id.
  pub record IsSubmitted (env : Setting F) (x : Exchange F) (key : String) (price : F)
      (o : ApprovedOrder F) (d d' : Desk F) (status : TickStatus) : Type 0 where
    pub ack : SubmitAck
    pub asked : x.submit o key price ≡ some ack
    pub row : Order F
    pub row_closes : row.is_close ≡ true
    pub row_symbol : row.symbol ≡ o.symbol
    pub row_side : row.side ≡ o.side
    pub row_qty : row.qty ≡ o.qty
    pub row_id : row.id ≡ d.next_order_id
    pub sent : Desk F
    pub sent_store : sent.store ≡ d.store
    pub tracked : Tracked F
    pub tracks :
        after_ack env x ack.status sent (transition_order_status (adopt_ack ack row) ack.status)
        ≡ returned tracked
    pub concludes : conclude_close env x tracked tracked.result ≡ returned (d', status)

  -- The three ends of a close by the order `o`, which is allowed if `Allowed` holds.
  pub data CloseEnd (Allowed : Type 0) (env : Setting F) (x : Exchange F)
      (key_of : ApprovedOrder F → String) (price : F) (o : ApprovedOrder F) (d d' : Desk F)
      (status : TickStatus) : Type 0 where
    refused :
        ¬ Allowed
        → status ≡ close_rejected
        → IsIdle d d'
        → CloseEnd Allowed env x key_of price o d d' status
    suppressed :
        Allowed
        → (id : ℕ) → find_key (key_of o) d.keys ≡ some id
        → status ≡ duplicate_suppressed
        → IsIdle d d'
        → CloseEnd Allowed env x key_of price o d d' status
    submitted :
        Allowed
        → find_key (key_of o) d.keys ≡ none
        → IsPlaced d d' o (key_of o)
        → IsSubmitted env x (key_of o) price o d d' status
        → CloseEnd Allowed env x key_of price o d d' status

  idle_at :
      (d e d' : Desk F) (s status : TickStatus)
      → IsIdle d e
      → ◌≡◌ {A = Attempt (Desk F × TickStatus)} (returned (e, s)) (returned (d', status))
      → (status ≡ s) × IsIdle d d'
  idle_at d e d' s status q h =
      subst (λ (z : Desk F × TickStatus). (z.1 ≡ s) × IsIdle d z.0) (returned-injective h) (refl, q)

  placed-IsSubmitted :
      (env : Setting F) (x : Exchange F) (key : String) (price : F) (o : ApprovedOrder F)
      (d d' : Desk F) (status : TickStatus) (t : Tracked F)
      → place_order env x o true key price d ≡ returned t
      → conclude_close env x t t.result ≡ returned (d', status)
      → IsSubmitted env x key price o d d' status
  unfolding place_order submit_and_track
  placed-IsSubmitted env x key price o d d' status t h k =
      let q = >>=-eq-returned (of_option (x.submit o key price)) _ h in
      record {
        ack = q.0;
        asked = acknowledged _ q.1;
        row = new_order env o true d;
        row_closes = refl;
        row_symbol = refl;
        row_side = refl;
        row_qty = refl;
        row_id = refl;
        sent = record d {
          keys = d.keys ++ ((key, d.next_order_id) ∷ []);
          next_order_id = d.next_order_id + 1;
          next_evaluation_id = d.next_evaluation_id + 1;
          orders_count = add_count 1 d.orders_count;
          submissions = d.submissions ++ ((o, key) ∷ []);
        };
        sent_store = refl;
        tracked = t;
        tracks = q.2;
        concludes = k;
      }

  approved_end :
      (Allowed : Type 0) (env : Setting F) (x : Exchange F) (key_of : ApprovedOrder F → String)
      (price : F) (o : ApprovedOrder F) (d d' : Desk F) (status : TickStatus)
      (v : Verdict F (ApprovedOrder F))
      → Allowed
      → decided v ≡ some o
      → carry_out_close env x key_of price d v ≡ returned (d', status)
      → CloseEnd Allowed env x key_of price o d d' status
  unfolding carry_out_close
  approved_end Allowed env x key_of price o d d' status zero_division a e h =
      absurd (ground (arith, h))
  approved_end Allowed env x key_of price o d d' status (stop _ _) a e h =
      absurd (ground (arith, e))
  approved_end Allowed env x key_of price o d d' status (go o' _) a e h =
      subst (λ z. CloseEnd Allowed env x key_of price z d d' status) (some_injective e)
        (either_found (find_key (key_of o') d.keys) _ _ (d', status)
          (λ id found k.
            let w =
              idle_at d _ d' _ status
                (record {
                  quiet = record { same_submissions = refl; same_keys = refl };
                  same_store = refl;
                })
                k in
            suppressed a id found w.0 w.1)
          (λ fresh k.
            let q = >>=-eq-returned (place_order env x o' true (key_of o') price d) _ k in
            submitted a fresh
              (IsPlaced-quiet d q.0.desk d' o' (key_of o')
                (place_order-IsPlaced env x o' true _ price d q.0 q.1)
                (conclude_close-IsQuiet env x q.0 q.0.result (d', status) q.2))
              (placed-IsSubmitted env x (key_of o') price o' d d' status q.0 q.1 q.2))
          h)

  refused_end :
      (Allowed : Type 0) (env : Setting F) (x : Exchange F) (key_of : ApprovedOrder F → String)
      (price : F) (o : ApprovedOrder F) (d d' : Desk F) (status : TickStatus)
      (v : Verdict F (ApprovedOrder F))
      → ¬ Allowed
      → decided v ≡ none
      → carry_out_close env x key_of price d v ≡ returned (d', status)
      → CloseEnd Allowed env x key_of price o d d' status
  unfolding carry_out_close
  refused_end Allowed env x key_of price o d d' status zero_division a e h =
      absurd (ground (arith, h))
  refused_end Allowed env x key_of price o d d' status (go _ _) a e h = absurd (ground (arith, e))
  refused_end Allowed env x key_of price o d d' status (stop _ _) a e h =
      let w =
        idle_at d _ d' _ status
          (record {
            quiet = record { same_submissions = refl; same_keys = refl };
            same_store = refl;
          })
          h in
      refused a w.0 w.1

  -- The close of a whole position, by the order that the risk engine is asked about.
  pub close_position_via_risk-CloseEnd :
      (env : Setting F) (x : Exchange F) (engine : RiskEngine F) (common : RiskContext F)
      (key_of : ApprovedOrder F → String) (signal_id : ℕ) (p : Position F) (close_side : Side)
      (price : F) (d d' : Desk F) (status : TickStatus)
      → close_position_via_risk env x engine common key_of signal_id p close_side p.qty price d
        ≡ returned (d', status)
      → CloseEnd
          (IsClosable engine.limits (close_context common d) close_side p.qty true p.qty p.side)
          env
          x
          key_of
          price
          (close_order signal_id p.symbol close_side p.qty)
          d
          d'
          status
  unfolding close_position_via_risk
  close_position_via_risk-CloseEnd env x engine common key_of signal_id p side price d d' status h =
      let c = close_context common d in
      let v = evaluate_close engine signal_id p.symbol side p.qty true p.qty p.side c [] in
      let o = close_order signal_id p.symbol side p.qty in
      let i = evaluate_close_iff engine signal_id p.symbol side p.qty true p.qty p.side c [] in
      elim (Option-cases (decided v)) [
        | inl n ↦
            refused_end _ env x key_of price o d d' status v
              (λ a. ground (arith, n, (i o).1 (a, refl))) n h
        | inr (o', e) ↦
            let a = (i o').0 e in
            approved_end _ env x key_of price o d d' status v a.0 (e ∙ ap some (sym a.1)) h
      ]
