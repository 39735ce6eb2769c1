-- ===== src/Risk/Engine/Approval.antt =====
-- What the risk engine approves as an entry, and exactly when.
use agente_tradin_ia_v2_mult.Common.{ℕ, false, some, ◌≡◌, ◌↔◌, refl, sym, subst}
use agente_tradin_ia_v2_mult.Float.{Float, div?}
use agente_tradin_ia_v2_mult.Strategy.Schemas.{Signal}
use agente_tradin_ia_v2_mult.Risk.Checks.{
  sizing_reference_price, price, Checks, Decide, ◌>>=◌, ◌>>◌, pure, note, or_zero_division, decided,
}
use agente_tradin_ia_v2_mult.Risk.Checks.Passing.{
  Passes, Passes-note, Passes-pure, Passes-or_zero_division, Passes->>=, Passes->>,
}
use agente_tradin_ia_v2_mult.Risk.Engine.{
  ApprovedOrder, RiskContext, RiskEngine, check_common_gates, check_readiness, check_freshness,
  check_quotas, position_usd, size_position, sizing_price, check_costs, evaluate,
}
use agente_tradin_ia_v2_mult.Risk.Engine.Gates.{
  IsSafe, IsFreshFor, IsReady, IsWithinQuotas, HasRoom, IsCostCovered, Passes-common,
  Passes-freshness, Passes-readiness, Passes-quotas, Passes-size, Passes-costs,
}

module _ {F : Type 0} ⦃f : Float F⦄ where
  -- An entry of this size may be opened.
  pub record IsAdmissible (e : RiskEngine F) (s : Signal F) (c : RiskContext F) (qty : F)
      : Type 0 where
    pub safe : IsSafe e.limits c
    pub ready : IsReady s c
    pub fresh : IsFreshFor e.freshness_policy s c.now
    pub within_quotas : IsWithinQuotas e.limits s c
    pub has_room : HasRoom e.limits c
    pub sized : div? (position_usd e.limits c) (sizing_price e.cost_model s) ≡ some qty
    pub covered : IsCostCovered e.cost_model s qty

  abbrev pub entry_order : Signal F → ℕ → F → ApprovedOrder F
  entry_order s signal_id qty = record {
    signal_id = signal_id;
    symbol = s.symbol;
    side = s.direction;
    qty = qty;
    stop_loss = s.stop_loss;
    take_profit = s.take_profit;
    is_close = false;
  }

  Passes-entry :
      (e : RiskEngine F) (s : Signal F) (signal_id : ℕ) (c : RiskContext F)
      → Passes
          (evaluate e s signal_id c)
          (λ o. (qty : F) × IsAdmissible e s c qty × (entry_order s signal_id qty ≡ o))
  unfolding evaluate
  Passes-entry e s signal_id c checks o =
      let priced : Decide F (Unit {0}) =
        note sizing_reference_price (price (sizing_price e.cost_model s)) in
      let last : F → Decide F (ApprovedOrder F) =
        λ qty. check_costs e.cost_model s qty >> pure (entry_order s signal_id qty) in
      let sized : F → Decide F (ApprovedOrder F) =
        λ usd. priced >> (or_zero_division (div? usd (sizing_price e.cost_model s)) >>= last) in
      let opened : Decide F (ApprovedOrder F) = size_position e.limits c >>= sized in
      let within : Decide F (ApprovedOrder F) = check_quotas e.limits s c >> opened in
      let timely : Decide F (ApprovedOrder F) =
        check_freshness e.freshness_policy s c.now >> within in
      let ready : Decide F (ApprovedOrder F) = check_readiness s c >> timely in
      let i =
        Passes->> (check_common_gates e.limits c) ready (Passes-common e.limits c)
          (Passes->> (check_readiness s c) timely (Passes-readiness s c) (
            Passes->> (check_freshness e.freshness_policy s c.now) within
              (Passes-freshness e.freshness_policy s c.now)
              (Passes->> (check_quotas e.limits s c) opened (Passes-quotas e.limits s c) (
                Passes->>= (size_position e.limits c) sized (Passes-size e.limits c) (λ usd.
                  Passes->> priced
                    (or_zero_division (div? usd (sizing_price e.cost_model s)) >>= last)
                    (Passes-note sizing_reference_price (price (sizing_price e.cost_model s)))
                    (Passes->>= (or_zero_division (div? usd (sizing_price e.cost_model s))) last
                      (Passes-or_zero_division (div? usd (sizing_price e.cost_model s)))
                      (λ qty.
                        Passes->> (check_costs e.cost_model s qty)
                          (pure (entry_order s signal_id qty)) (Passes-costs e.cost_model s qty)
                          (Passes-pure (entry_order s signal_id qty)))))))))
          checks o in
      (
        λ h.
            let u = i.0 h in
            let w = u.1.1.1.1 in
            let z = w.2.1 in
            (
              z.0,
              record {
                safe = u.0;
                ready = u.1.0;
                fresh = u.1.1.0;
                within_quotas = u.1.1.1.0;
                has_room = w.1.0;
                sized =
                    subst (λ usd. div? usd (sizing_price e.cost_model s) ≡ some z.0) (sym w.1.1)
                      z.1;
                covered = z.2.0;
              },
              z.2.1,
            ),
        λ h. i.1 (
          h.1.safe,
          (
            h.1.ready,
            (
              h.1.fresh,
              (
                h.1.within_quotas,
                (
                  position_usd e.limits c,
                  (h.1.has_room, refl),
                  (tt, (h.0, h.1.sized, (h.1.covered, h.2))),
                ),
              ),
            ),
          ),
        ),
      )

  -- Whatever was recorded before, `evaluate` approves an order exactly if it is the order that the
  -- signal asks for, at a quantity that is the dollars there is room for over the sizing price, and
  -- every gate holds: the common ones, the entry gates, the freshness barrier, the quotas, the
  -- floor on the size and the cost gate at that quantity.
  pub evaluate_iff :
      (e : RiskEngine F) (s : Signal F) (signal_id : ℕ) (c : RiskContext F) (checks : Checks F)
      (o : ApprovedOrder F)
      → (decided (evaluate e s signal_id c checks) ≡ some o)
        ↔ ((qty : F) × IsAdmissible e s c qty × (entry_order s signal_id qty ≡ o))
  evaluate_iff = Passes-entry
