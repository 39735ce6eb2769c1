-- ===== src/Execution/FillService/Entries.antt =====
-- The fills of an entry order add up in the position, and its protection follows its price.
use agente_tradin_ia_v2_mult.Common.{
  ℕ, true, false, Option, none, some, List, [], ◌∷◌, ◌++◌, ◌≡◌, inl, inr, refl, sym, subst, arith,
  length, map, foldl, Option-cases, ◌∙◌, ap, if◌then◌else◌,
}
use agente_tradin_ia_v2_mult.Float.{Float, ◌⊕◌, ◌⊖◌}
use agente_tradin_ia_v2_mult.Execution.Base.{OrderStatusSnapshot}
use agente_tradin_ia_v2_mult.Execution.FillLedger.{record_new_fills}
use agente_tradin_ia_v2_mult.Persistence.Models.{buy, same_side, Order, Execution, Position}
use agente_tradin_ia_v2_mult.Persistence.Repo.{add_to_position}
use agente_tradin_ia_v2_mult.Execution.Books.{done, Books, Decision, FillApplicationResult}
use agente_tradin_ia_v2_mult.Execution.FillService.{
  Applying, applying, reanchor, frozen_protection_distances, apply_row, apply_rows,
  apply_order_snapshot,
}
use agente_tradin_ia_v2_mult.Execution.FillService.Fills.{conclude-books}
use agente_tradin_ia_v2_mult.Execution.FillService.Steps.{
  record_new_fills-executions, >>=-eq-done, done-injective, apply_order_snapshot-Applied,
}
use agente_tradin_ia_v2_mult.Execution.FillService.Status.{settled-symbol}

module _ {F : Type 0} ⦃f : Float F⦄ where
  reanchor-fields :
      (protection : Option (F × F)) (p : Position F)
      → ((reanchor protection p).symbol ≡ p.symbol)
        × ((reanchor protection p).side ≡ p.side)
        × ((reanchor protection p).qty ≡ p.qty)
        × ((reanchor protection p).avg_entry_price ≡ p.avg_entry_price)
        × ((reanchor protection p).fees_paid ≡ p.fees_paid)
        × ((reanchor protection p).realized_pnl ≡ p.realized_pnl)
  unfolding reanchor
  reanchor-fields none p = ground arith
  reanchor-fields (some (s, t)) p = ground arith

  -- The position holds the quantity and the fees of the rows on top of those it had.
  abbrev pub Accumulates : List (Execution F) → Position F → Option (Position F) → Type 0
  Accumulates rows p none = ⊥
  Accumulates rows p (some p') =
      (p'.symbol ≡ p.symbol)
      × (p'.side ≡ p.side)
      × (p'.qty ≡ foldl ◌⊕◌ p.qty (map (λ r. r.fill_qty) rows))
      × (p'.fees_paid ≡ foldl ◌⊕◌ p.fees_paid (map (λ r. r.fee) rows))
      × (p'.realized_pnl ≡ p.realized_pnl)

  add_to_position-fields :
      (p : Position F) (qty price fee : F) {p' : Position F}
      → add_to_position p qty price fee ≡ some p'
      → (p'.symbol ≡ p.symbol)
        × (p'.side ≡ p.side)
        × (p'.qty ≡ p.qty ⊕ qty)
        × (p'.fees_paid ≡ p.fees_paid ⊕ fee)
        × (p'.realized_pnl ≡ p.realized_pnl)
  unfolding add_to_position
  add_to_position-fields p qty price fee e = ground arith

  same_side_row :
      (now : ℕ) (protection : Option (F × F)) (o : Order F) (row : Execution F) (a : Applying F)
      (p : Position F) {a' : Applying F}
      → a.position ≡ some p
      → same_side p.side o.side ≡ true
      → apply_row false now protection o row a ≡ done a'
      → (a'.before ≡ a.before)
        × (a'.behind ≡ a.behind)
        × (a'.state_ambiguous ≡ a.state_ambiguous)
        × Accumulates (row ∷ []) p a'.position
  unfolding apply_row
  same_side_row now pr o row a p ep es e =
      elim (Option-cases (add_to_position p row.fill_qty row.fill_price row.fee)) [
        | inl raised ↦ ground arith
        | inr (p', added) ↦ ground (
          arith,
          add_to_position-fields p row.fill_qty row.fill_price row.fee added,
          reanchor-fields pr p',
        )
      ]

  -- The protection stands at the frozen distances from the average price, below it and above it
  -- for a bought position, and the other way round for a sold one.
  abbrev IsAnchored : Option (F × F) → Position F → Type 0
  IsAnchored none p = Unit
  IsAnchored (some (s, t)) p =
      (p.stop_loss
        ≡ some (if same_side p.side buy then p.avg_entry_price ⊖ s else p.avg_entry_price ⊕ s))
      × (p.take_profit
          ≡ some (if same_side p.side buy then p.avg_entry_price ⊕ t else p.avg_entry_price ⊖ t))

  -- It does once a row has been applied.
  abbrev pub AnchoredBy : Option (F × F) → List (Execution F) → Option (Position F) → Type 0
  AnchoredBy protection [] position = Unit
  AnchoredBy protection (_ ∷ _) none = ⊥
  AnchoredBy protection (_ ∷ _) (some p) = IsAnchored protection p

  reanchor-IsAnchored :
      (protection : Option (F × F)) (p : Position F) → IsAnchored protection (reanchor protection p)
  unfolding reanchor
  reanchor-IsAnchored none p = tt
  reanchor-IsAnchored (some (s, t)) p = ground arith

  same_side_row_anchored :
      (now : ℕ) (protection : Option (F × F)) (o : Order F) (row : Execution F) (a : Applying F)
      (p : Position F) {a' : Applying F}
      → a.position ≡ some p
      → same_side p.side o.side ≡ true
      → apply_row false now protection o row a ≡ done a'
      → AnchoredBy protection (row ∷ []) a'.position
  unfolding apply_row
  same_side_row_anchored now pr o row a p ep es e =
      elim (Option-cases (add_to_position p row.fill_qty row.fill_price row.fee)) [
        | inl raised ↦ ground arith
        | inr (p', added) ↦ ground (arith, reanchor-IsAnchored pr p')
      ]

  Accumulates-cons :
      (row : Execution F) (rows : List (Execution F)) (p q : Position F)
      (last : Option (Position F))
      → Accumulates (row ∷ []) p (some q)
      → Accumulates rows q last
      → Accumulates (row ∷ rows) p last
  Accumulates-cons row rows p q none h k = k
  Accumulates-cons row rows p q (some l) h k = ground arith

  AnchoredBy-cons :
      (protection : Option (F × F)) (row : Execution F) (rows : List (Execution F))
      (mid last : Option (Position F))
      → AnchoredBy protection (row ∷ []) mid
      → AnchoredBy protection rows last
      → (rows ≡ [] → mid ≡ last)
      → AnchoredBy protection (row ∷ rows) last
  AnchoredBy-cons pr row [] mid last h k same = subst (AnchoredBy pr (row ∷ [])) (same refl) h
  AnchoredBy-cons pr row (r ∷ rs) mid none h k same = k
  AnchoredBy-cons pr row (r ∷ rs) mid (some l) h k same = k

  apply_rows-nil :
      (now : ℕ) (protection : Option (F × F)) (o : Order F) (rows : List (Execution F))
      (a : Applying F) {a' : Applying F}
      → apply_rows false now protection o rows a ≡ done a'
      → rows ≡ []
      → a.position ≡ a'.position
  unfolding apply_rows
  apply_rows-nil now pr o [] a e h = ap (λ x. x.position) (done-injective e)
  apply_rows-nil now pr o (_ ∷ _) a e h = cc

  entry_rows :
      (now : ℕ) (protection : Option (F × F)) (o : Order F) (rows : List (Execution F))
      (a : Applying F) (p : Position F) {a' : Applying F}
      → a.position ≡ some p
      → same_side p.side o.side ≡ true
      → apply_rows false now protection o rows a ≡ done a'
      → (a'.before ≡ a.before)
        × (a'.behind ≡ a.behind)
        × (a'.state_ambiguous ≡ a.state_ambiguous)
        × Accumulates rows p a'.position
        × AnchoredBy protection rows a'.position
  unfolding apply_rows
  entry_rows now pr o [] a p ep es e = ground arith
  entry_rows now pr o (row ∷ rows) a p {a'} ep es e =
      let (mid, em, er) = >>=-eq-done (apply_row false now pr o row a) _ e in
      let first = same_side_row now pr o row a p ep es em in
      let anchored = same_side_row_anchored now pr o row a p ep es em in
      elim (Option-cases mid.position) [
        | inl lost ↦ absurd (subst (Accumulates (row ∷ []) p) lost first.3)
        | inr (q, eq) ↦
            let acc = subst (Accumulates (row ∷ []) p) eq first.3 in
            let rest = entry_rows now pr o rows mid q eq (rw acc.1 es) er in
            (
              rest.0 ∙ first.0,
              rest.1 ∙ first.1,
              rest.2 ∙ first.2,
              Accumulates-cons row rows p q a'.position acc rest.3,
              AnchoredBy-cons pr row rows mid.position a'.position anchored rest.4
                  (apply_rows-nil now pr o rows mid er),
            )
      ]

  -- New fills of an entry order on the side of the open position are all taken into it: there are
  -- rows, as many as the result says, that are added to the executions on file, and the position
  -- holds their quantities and fees on top of its own, and no new profit; the other positions stay.
  -- If there are any, the protection then stands at the frozen distances from the new average price.
  pub apply_order_snapshot_entry :
      (now max_failures : ℕ) (decision : Option (Decision F)) (snap : OrderStatusSnapshot F)
      (b : Books F) (p : Position F) {r : Books F × FillApplicationResult F}
      → apply_order_snapshot now max_failures decision false snap b ≡ done r
      → b.position ≡ some p
      → same_side p.side b.order.side ≡ true
      → (rows : List (Execution F)) × (r.0.executions ≡ b.executions ++ rows)
        × (r.1.new_fill_count ≡ length rows)
        × (r.0.before ≡ b.before)
        × (r.0.behind ≡ b.behind)
        × Accumulates rows p r.0.position
        × AnchoredBy (frozen_protection_distances decision) rows r.0.position
  apply_order_snapshot_entry now m d snap b p {r} e ep es =
      let s = apply_order_snapshot-Applied now m d false snap b e in
      let rec = record_new_fills s.order b.executions now snap.fills in
      let protection = frozen_protection_distances d in
      let q =
        entry_rows now protection rec.order rec.new_rows (applying b) p ep
          (rw ((settled-symbol now m d false snap b s).1) es) s.applied in
      let k = conclude-books m b s.events rec s.loop in
      (
        rec.new_rows,
        ground
            (arith, s.result, k, record_new_fills-executions s.order b.executions now snap.fills),
        ground (arith, s.result, k),
        ground (arith, s.result, k, q),
        ground (arith, s.result, k, q),
        subst (Accumulates rec.new_rows p) (sym (ap (λ x. x.0.position) s.result ∙ k.1)) q.3,
        subst (AnchoredBy protection rec.new_rows) (sym (ap (λ x. x.0.position) s.result ∙ k.1))
            q.4,
      )
