-- ===== src/Execution/FillService/Totality.antt =====
-- Applying a snapshot returns.
use agente_tradin_ia_v2_mult.Common.{
  ℕ, String, Bool, true, false, Option, none, some, List, [], ◌∷◌, map, ◌≡◌, refl, sym, subst,
  arith, All, Bool-cases, inl, inr, ◌⊎◌,
}
use agente_tradin_ia_v2_mult.Float.{Float, ◌⊕◌, nought, is_positive}
use agente_tradin_ia_v2_mult.Execution.Base.{OrderStatusSnapshot, FillEvent}
use agente_tradin_ia_v2_mult.Execution.FillLedger.{
  contains, fresh_rows, mark_partial, recorded_ids, commit_rows, record_new_fills,
}
use agente_tradin_ia_v2_mult.Persistence.Models.{Order, OrderEvent, Execution, Position, same_side}
use agente_tradin_ia_v2_mult.Persistence.Repo.{add_to_position}
use agente_tradin_ia_v2_mult.Execution.Books.{
  Outcome, done, illegal_transition, zero_division, ◌>>=◌, Books, Decision, FillApplicationResult,
}
use agente_tradin_ia_v2_mult.Execution.FillService.{
  Applying, applying, settle_status, frozen_protection_distances, reanchor, apply_entry,
  apply_close, apply_row, apply_rows, conclude, apply_order_snapshot,
}
use agente_tradin_ia_v2_mult.Execution.FillService.Status.{Settles, settle_status-Settles}

-- A sum of positive floats is positive, and a positive float is not 0.
pub record SumsPositive (F : Type 0) ⦃f : Float F⦄ : Type 0 where
  pub positive_sum :
      (x y : F) → is_positive x ≡ true → is_positive y ≡ true → is_positive (x ⊕ y) ≡ true
  pub positive_nonzero : (x : F) → is_positive x ≡ true → f.eq x nought ≡ false

bind_total :
    {A B : Type 0} (m : Outcome A) (k : A → Outcome B)
    → (a : A) × (m ≡ done a)
    → ((a : A) → (b : B) × (k a ≡ done b))
    → (b : B) × ((m >>= k) ≡ done b)
bind_total (done a) k h hk = hk a
bind_total illegal_transition k h hk = absurd (ground (arith, h.1))
bind_total zero_division k h hk = absurd (ground (arith, h.1))

module _ {F : Type 0} ⦃f : Float F⦄ where
  abbrev pub HoldsQuantity : Option (Position F) → Type 0
  HoldsQuantity none = Unit {0}
  HoldsQuantity (some p) = is_positive p.qty ≡ true

  reanchor-qty :
      (protection : Option (F × F)) (p : Position F) → (reanchor protection p).qty ≡ p.qty
  unfolding reanchor
  reanchor-qty none p = refl
  reanchor-qty (some (s, t)) p = ground arith

  add_to_position-some :
      (law : SumsPositive F) (p : Position F) (qty price fee : F)
      → is_positive p.qty ≡ true
      → is_positive qty ≡ true
      → (p' : Position F) × (add_to_position p qty price fee ≡ some p') × (p'.qty ≡ p.qty ⊕ qty)
  unfolding add_to_position
  add_to_position-some law p qty price fee hp hq =
      let nz = law.positive_nonzero (p.qty ⊕ qty) (law.positive_sum p.qty qty hp hq) in
      rw nz (_, refl, refl)

  entry_total :
      (law : SumsPositive F) (protection : Option (F × F)) (o : Order F) (row : Execution F)
      (position : Option (Position F)) (a : Applying F)
      → HoldsQuantity position
      → a.position ≡ position
      → is_positive row.fill_qty ≡ true
      → (a' : Applying F) × (apply_entry protection o row position a ≡ done a')
        × HoldsQuantity a'.position
  unfolding apply_entry
  entry_total law pr o row none a h e hr = (_, refl, rw (reanchor-qty pr _) hr)
  entry_total law pr o row (some p) a h e hr = elim (Bool-cases (same_side p.side o.side)) [
    | inl same ↦
        let s = add_to_position-some law p row.fill_qty row.fill_price row.fee h hr in
        rw (same, s.1)
          (_, refl, rw (reanchor-qty pr s.0, s.2) (law.positive_sum p.qty row.fill_qty h hr))
    | inr other ↦ rw other (_, refl, subst HoldsQuantity (sym e) h)
  ]

  rows_total :
      (law : SumsPositive F) (now : ℕ) (protection : Option (F × F)) (o : Order F)
      (rows : List (Execution F)) (a : Applying F)
      → HoldsQuantity a.position
      → All (λ r. is_positive r.fill_qty ≡ true) rows
      → (a' : Applying F) × (apply_rows false now protection o rows a ≡ done a')
  unfolding apply_rows apply_row
  rows_total law now pr o [] a h hr = (a, refl)
  rows_total law now pr o (row ∷ rows) a h hr =
      let s = entry_total law pr o row a.position a h refl hr.0 in
      let rest = rows_total law now pr o rows s.0 s.2 hr.1 in (rest.0, rw s.1 rest.1)

  closing_total :
      (now : ℕ) (protection : Option (F × F)) (o : Order F) (rows : List (Execution F))
      (a : Applying F)
      → (a' : Applying F) × (apply_rows true now protection o rows a ≡ done a')
  unfolding apply_rows apply_row
  closing_total now pr o [] a = (a, refl)
  closing_total now pr o (row ∷ rows) a =
      closing_total now pr o rows (apply_close now row a.position a)

  fresh_positive :
      (order_id now : ℕ) (ids : List String) (es : List (FillEvent F))
      → All (λ e. is_positive e.fill_qty ≡ true) es
      → All (λ r. is_positive r.fill_qty ≡ true) (fresh_rows order_id now ids es)
  unfolding fresh_rows
  fresh_positive o now ids [] h = tt
  fresh_positive o now ids (e ∷ es) h = elim (Bool-cases (contains e.exchange_fill_id ids)) [
    | inl known ↦ rw known (fresh_positive o now ids es h.1)
    | inr new ↦ rw new (h.0, fresh_positive o now (e.exchange_fill_id ∷ ids) es h.1)
  ]

  marked_positive :
      (p : Bool) (rs : List (Execution F))
      → All (λ r. is_positive r.fill_qty ≡ true) rs
      → All (λ r. is_positive r.fill_qty ≡ true) (map (mark_partial p) rs)
  marked_positive p [] h = tt
  marked_positive p (r ∷ rs) h = (h.0, marked_positive p rs h.1)

  commit_positive :
      (o : Order F) (executions rows : List (Execution F))
      → All (λ r. is_positive r.fill_qty ≡ true) rows
      → All (λ r. is_positive r.fill_qty ≡ true) (commit_rows o executions rows).new_rows
  unfolding commit_rows
  commit_positive o ex [] h = tt
  commit_positive o ex (r ∷ rs) h = marked_positive _ (r ∷ rs) h

  record_positive :
      (o : Order F) (executions : List (Execution F)) (now : ℕ) (fills : List (FillEvent F))
      → All (λ e. is_positive e.fill_qty ≡ true) fills
      → All (λ r. is_positive r.fill_qty ≡ true) (record_new_fills o executions now fills).new_rows
  unfolding record_new_fills
  record_positive o ex now fills h =
      commit_positive o ex _ (fresh_positive o.id now (recorded_ids o.id ex) fills h)

  Settles-total :
      (snap : OrderStatusSnapshot F) (o : Order F) (events : List OrderEvent)
      (m : Outcome (Order F × List OrderEvent))
      → Settles snap o events m
      → (s : Order F × List OrderEvent) × (m ≡ done s)
  Settles-total snap o events (done s) h = (s, refl)
  Settles-total snap o events illegal_transition h = absurd h
  Settles-total snap o events zero_division h = absurd h

  loop_total :
      (law : SumsPositive F) (is_close : Bool) (now : ℕ) (protection : Option (F × F)) (o : Order F)
      (rows : List (Execution F)) (a : Applying F)
      → (is_close ≡ true)
        ⊎ (HoldsQuantity a.position × All (λ r. is_positive r.fill_qty ≡ true) rows)
      → (a' : Applying F) × (apply_rows is_close now protection o rows a ≡ done a')
  loop_total law true now pr o rows a h = closing_total now pr o rows a
  loop_total law false now pr o rows a (inl h) = absurd (ground arith)
  loop_total law false now pr o rows a (inr h) = rows_total law now pr o rows a h.0 h.1

  -- Applying a snapshot returns, whatever status it reports and whatever is on file: always for a
  -- closing order, and for an entry if the quantities of the open position and of the reported
  -- fills are positive, where sums of positive floats are positive and no positive float is 0.
  pub apply_order_snapshot_total :
      (law : SumsPositive F) (now max_failures : ℕ) (decision : Option (Decision F))
      (is_close : Bool) (snap : OrderStatusSnapshot F) (b : Books F)
      → (is_close ≡ true)
        ⊎ (HoldsQuantity b.position × All (λ e. is_positive e.fill_qty ≡ true) snap.fills)
      → (r : Books F × FillApplicationResult F) × (apply_order_snapshot now max_failures decision
            is_close snap b
          ≡ done r)
  unfolding apply_order_snapshot
  apply_order_snapshot_total law now m d c snap b h =
      bind_total (settle_status snap b.order b.events) _
        (Settles-total snap b.order b.events (settle_status snap b.order b.events)
          (settle_status-Settles snap b.order b.events))
        (λ s.
          let rec = record_new_fills s.0 b.executions now snap.fills in
          let pr = frozen_protection_distances d in
          let k : (c ≡ true)
              ⊎ (HoldsQuantity b.position × All (λ r. is_positive r.fill_qty ≡ true) rec.new_rows) =
            elim h [
              | inl t ↦ inl t
              | inr q ↦ inr (q.0, record_positive s.0 b.executions now snap.fills q.1)
            ] in
          bind_total (apply_rows c now pr rec.order rec.new_rows (applying b)) _
            (loop_total law c now pr rec.order rec.new_rows (applying b) k)
            (λ a. (conclude m b s.1 rec a, refl)))
