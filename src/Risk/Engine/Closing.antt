-- ===== src/Risk/Engine/Closing.antt =====
-- What the risk engine approves as a reduction, and exactly when.
use agente_tradin_ia_v2_mult.Common.{ℕ, String, Bool, true, not, ◌&&◌, none, some, ◌≡◌, ◌↔◌}
use agente_tradin_ia_v2_mult.Float.{Float, ◌⊕◌, is_positive}
use agente_tradin_ia_v2_mult.Persistence.Models.{Side, same_side, is_tradable}
use agente_tradin_ia_v2_mult.Risk.Checks.{
  position_exists, close_side_valid, qty_positive, qty_within_position, Checks, Decide, ◌>>◌, pure,
  check, decided,
}
use agente_tradin_ia_v2_mult.Risk.Checks.Passing.{Passes-pure, Passes->>}
use agente_tradin_ia_v2_mult.Risk.Engine.{
  RiskLimits, ApprovedOrder, RiskContext, RiskEngine, check_common_gates, evaluate_close,
}
use agente_tradin_ia_v2_mult.Risk.Engine.Gates.{IsSafe, Passes-check, Passes-common}

module _ {F : Type 0} ⦃f : Float F⦄ where
  -- The conditions on an order that reduces a position.
  pub record IsClosable (limits : RiskLimits F) (c : RiskContext F) (close_side : Side) (qty : F)
      (exists : Bool) (position_qty : F) (position_side : Side) : Type 0 where
    pub safe : IsSafe limits c
    pub there : exists ≡ true
    pub opposite : (is_tradable close_side && not (same_side close_side position_side)) ≡ true
    pub positive : is_positive qty ≡ true
    pub within : f.le qty (position_qty ⊕ f.literal 1 12) ≡ true

  abbrev pub close_order : ℕ → String → Side → F → ApprovedOrder F
  close_order signal_id symbol close_side qty = record {
    signal_id = signal_id;
    symbol = symbol;
    side = close_side;
    qty = qty;
    stop_loss = none;
    take_profit = none;
    is_close = true;
  }

  -- `evaluate_close` approves an order exactly if it is the order that was asked for, the common
  -- gates hold, there is a position, the side is BUY or SELL and opposite to the position's, and the
  -- quantity is positive and at most the position's, up to 1e-12.
  pub evaluate_close_iff :
      (e : RiskEngine F) (signal_id : ℕ) (symbol : String) (close_side : Side) (qty : F)
      (exists : Bool) (position_qty : F) (position_side : Side) (c : RiskContext F)
      (checks : Checks F) (o : ApprovedOrder F)
      → (decided (
            evaluate_close e signal_id symbol close_side qty exists position_qty position_side c
              checks)
          ≡ some o)
        ↔ (IsClosable e.limits c close_side qty exists position_qty position_side
            × (close_order signal_id symbol close_side qty ≡ o))
  unfolding evaluate_close
  evaluate_close_iff e signal_id symbol side qty exists pq pside c checks o =
      let size_ok : Decide F (ApprovedOrder F) =
        check qty_within_position (f.le qty (pq ⊕ f.literal 1 12))
        >> pure (close_order signal_id symbol side qty) in
      let side_ok : Decide F (ApprovedOrder F) =
        check close_side_valid (is_tradable side && not (same_side side pside))
        >> (check qty_positive (is_positive qty) >> size_ok) in
      let i =
        Passes->> (check_common_gates e.limits c) (check position_exists exists >> side_ok)
          (Passes-common e.limits c)
          (Passes->> (check position_exists exists) side_ok (Passes-check position_exists exists) (
            Passes->> (check close_side_valid (is_tradable side && not (same_side side pside)))
              (check qty_positive (is_positive qty) >> size_ok)
              (Passes-check close_side_valid (is_tradable side && not (same_side side pside)))
              (Passes->> (check qty_positive (is_positive qty)) size_ok
                (Passes-check qty_positive (is_positive qty))
                (Passes->> (check qty_within_position (f.le qty (pq ⊕ f.literal 1 12)))
                  (pure (close_order signal_id symbol side qty))
                  (Passes-check qty_within_position (f.le qty (pq ⊕ f.literal 1 12)))
                  (Passes-pure (close_order signal_id symbol side qty))))))
          checks o in
      (
        λ h.
            let u = i.0 h in
            (
              record {
                safe = u.0;
                there = u.1.0;
                opposite = u.1.1.0;
                positive = u.1.1.1.0;
                within = u.1.1.1.1.0;
              },
              u.1.1.1.1.1,
            ),
        λ h. i.1 (h.0.safe, (h.0.there, (h.0.opposite, (h.0.positive, (h.0.within, h.1))))),
      )
