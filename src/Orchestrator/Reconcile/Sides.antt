-- ===== src/Orchestrator/Reconcile/Sides.antt =====
-- A reconciliation against the exchange as app/execution/bybit_demo.py reads its answers.
use agente_tradin_ia_v2_mult.Common.{
  String, true, Option, none, some, List, [], ◌∷◌, ◌≡◌, ◌⊎◌, inl, inr, refl, sym, subst, arith, ◌∙◌,
  All, Bool-cases, Option-cases, str_eq, str_eq_iff,
}
use agente_tradin_ia_v2_mult.Float.{Float}
use agente_tradin_ia_v2_mult.Persistence.Models.{is_tradable}
use agente_tradin_ia_v2_mult.Execution.Reconciliation.{PositionView, Dict, get, set, by_symbol}
use agente_tradin_ia_v2_mult.Execution.Reconciliation.Agreement.{
  IsReported, reconcile_positions_iff,
}
use agente_tradin_ia_v2_mult.Execution.PaperLocal.Net.{get-set, get-set_other}
use agente_tradin_ia_v2_mult.Execution.BybitDemo.{PositionRow, get_position}
use agente_tradin_ia_v2_mult.Execution.BybitDemo.Sides.{AreExchangeSides, get_position-disagrees}
use agente_tradin_ia_v2_mult.Orchestrator.Desk.{returned, Desk, Exchange, Setting, add_symbol}
use agente_tradin_ia_v2_mult.Orchestrator.Reconcile.{
  open_views, symbols_of_views, fetch_positions, reconcile,
}
use agente_tradin_ia_v2_mult.Orchestrator.Reconcile.Clearing.{reconcile-cleared_iff}

module _ {F : Type 0} where
  fetched :
      (x : Exchange F) (ss : List String) (known remote : Dict (Option (PositionView F)))
      (key : String) (r : PositionView F)
      → fetch_positions x ss known ≡ some remote
      → get key remote ≡ some (some r)
      → (get key known ≡ some (some r)) ⊎ (x.get_position key ≡ some (some r))
  unfolding fetch_positions
  fetched x [] known remote key r h g = inl (ground (arith, h, g))
  fetched x (s ∷ ss) known remote key r h g = elim (Option-cases (x.get_position s)) [
    | inl n ↦ absurd (ground (arith, n, h))
    | inr (p, e) ↦
        elim (fetched x ss (set s p known) remote key r (rw (e, fetch_positions) at h) g) [
          | inr y ↦ inr y
          | inl y ↦ elim (Bool-cases (str_eq key s)) [
            | inl same ↦
                let k : key ≡ s = (str_eq_iff key s).0 same in
                let v : get key (set s p known) ≡ some p =
                  subst (λ j. get j (set s p known) ≡ some p) (sym k) (get-set s p known) in
                let pr : some p ≡ some (some r) = sym v ∙ y in
                inr (subst (λ j. x.get_position j ≡ some (some r)) (sym k) (e ∙ pr))
            | inr differs ↦ inl (sym (get-set_other key s p known differs) ∙ y)
          ]
        ]
  ]

module _ {F : Type 0} ⦃f : Float F⦄ where
  All-get :
      (P : String × PositionView F → Type 0) (items : Dict (PositionView F)) (key : String)
      (here : PositionView F)
      → All P items
      → get key items ≡ some here
      → P (key, here)
  All-get P [] key here h e = absurd (ground (arith, e))
  All-get P (item ∷ items) key here h e = elim (Bool-cases (str_eq key item.0)) [
    | inl y ↦
        let k : item.0 ≡ key = sym ((str_eq_iff key item.0).0 y) in
        let v : item.1 ≡ here = ground (arith, y, e) in
        subst (λ x. P (x, here)) k (subst (λ x. P (item.0, x)) v h.0)
    | inr n ↦ All-get P items key here h.1 (ground (arith, n, e))
  ]

  -- Every answer on a position is one that the engine for the exchange reads, with the exchange's
  -- words for the sides.
  abbrev pub IsBybit : Exchange F → Type 0
  IsBybit x =
      (symbol : String)
      → (rows : Option (List (PositionRow F))) × (x.get_position symbol ≡ get_position symbol rows)
        × AreExchangeSides rows

  no_match :
      (x : Exchange F) (key : String) (here : PositionView F) (o : Option (Option (PositionView F)))
      → IsBybit x
      → is_tradable here.side ≡ true
      → ((r : PositionView F) → o ≡ some (some r) → x.get_position key ≡ some (some r))
      → IsReported here o
      → ⊥
  no_match x key here none bybit t from agree = agree
  no_match x key here (some none) bybit t from agree = agree
  no_match x key here (some (some r)) bybit t from agree =
      let (rows, e, w) = bybit key in
      get_position-disagrees key rows here r w (sym e ∙ from r refl) t agree

  -- Against the exchange, whose words for the sides are "Buy" and "Sell", no reconciliation agrees
  -- while a position is open on a side of "BUY" or "SELL": whatever the exchange reports of it, a
  -- reconciliation that returns leaves the state ambiguous.
  pub reconcile_disagrees :
      (env : Setting F) (x : Exchange F) (d d' : Desk F) (symbol : String) (here : PositionView F)
      → IsBybit x
      → get symbol (by_symbol [] (open_views d.store.positions)) ≡ some here
      → is_tradable here.side ≡ true
      → reconcile env x d ≡ returned d'
      → d'.store.state.state_ambiguous ≡ true
  reconcile_disagrees env x d d' symbol here bybit v t h =
      elim (Bool-cases d'.store.state.state_ambiguous) [
        | inl y ↦ y
        | inr n ↦
            let views = open_views d.store.positions in
            let (remote, asked, agree) = ((reconcile-cleared_iff env x d d' h).0.0 n).0 in
            let seen =
              All-get (λ item. IsReported item.1 (get item.0 remote)) (by_symbol [] views) symbol
                here ((reconcile_positions_iff views remote).0 agree).0 v in
            absurd (
              no_match x symbol here (get symbol remote) bybit t
                (λ r g.
                  elim (fetched x (add_symbol env.symbol (symbols_of_views views [])) [] remote
                    symbol r asked g) [ inl e ↦ absurd (ground (arith, e)) | inr e ↦ e ])
                seen)
      ]
