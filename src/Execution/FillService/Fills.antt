-- ===== src/Execution/FillService/Fills.antt =====
-- What the new fills of a snapshot do to the position in focus, and what replayed ones do not.
use agente_tradin_ia_v2_mult.Common.{
  ℕ, ◌+◌, ◌<◌, Bool, true, false, Option, some, List, [], ◌∷◌, ◌++◌, ◌≡◌, refl, sym, arith,
  length-append, length, ap, if◌then◌else◌,
}
use agente_tradin_ia_v2_mult.Float.{Float, nought}
use agente_tradin_ia_v2_mult.Execution.Base.{OrderStatusSnapshot}
use agente_tradin_ia_v2_mult.Execution.FillLedger.{Recorded, record_new_fills}
use agente_tradin_ia_v2_mult.Execution.FillLedger.Dedup.{IsRecorded, record_new_fills_known}
use agente_tradin_ia_v2_mult.Persistence.Models.{OrderEvent, same_side, Order, Execution, Position}
use agente_tradin_ia_v2_mult.Persistence.Repo.{is_nonempty}
use agente_tradin_ia_v2_mult.Execution.Books.{
  done, Books, Decision, FillApplicationResult, late_opposite_fill_blocked,
}
use agente_tradin_ia_v2_mult.Execution.FillService.{
  Applying, applying, frozen_protection_distances, apply_entry, apply_row, apply_rows, conclude,
  apply_order_snapshot,
}
use agente_tradin_ia_v2_mult.Execution.FillService.Steps.{
  done-injective, apply_order_snapshot-Applied,
}
use agente_tradin_ia_v2_mult.Execution.FillService.Status.{settled-symbol, settled-id}

module _ {F : Type 0} ⦃f : Float F⦄ where
  -- Nothing that fills move has moved.
  pub record IsUntouched (b : Books F) (r : Books F × FillApplicationResult F) : Type 0 where
    pub executions : r.0.executions ≡ b.executions
    pub before : r.0.before ≡ b.before
    pub position : r.0.position ≡ b.position
    pub behind : r.0.behind ≡ b.behind
    pub fills_count : r.0.fills_count ≡ b.fills_count
    pub security_events : r.0.security_events ≡ b.security_events
    pub new_fill_count : r.1.new_fill_count ≡ 0
    pub realized : r.1.realized_pnl_delta_total ≡ nought

  conclude-IsUntouched :
      (now max_failures : ℕ) (protection : Option (F × F)) (is_close : Bool) (b : Books F)
      (o : Order F) (events : List OrderEvent) (a : Applying F)
      → apply_rows is_close now protection o [] (applying b) ≡ done a
      → IsUntouched b (
          conclude max_failures b events
            (record { order = o; executions = b.executions; new_rows = [] })
            a)
  unfolding conclude apply_rows
  conclude-IsUntouched now m p c b o events a e =
      let same = done-injective e in
      record {
        executions = refl;
        before = ap (λ x. x.before) (sym same);
        position = ap (λ x. x.position) (sym same);
        behind = ap (λ x. x.behind) (sym same);
        fills_count = refl;
        security_events = ap (λ x. x.security_events) (sym same);
        new_fill_count = refl;
        realized = ap (λ x. x.realized_pnl_delta_total) (sym same);
      }

  -- A snapshot whose fills are all on file moves no execution, no position, no counter of the
  -- session and no profit, whatever status it reports: fills are applied once.
  pub apply_order_snapshot_replayed :
      (now max_failures : ℕ) (decision : Option (Decision F)) (is_close : Bool)
      (snap : OrderStatusSnapshot F) (b : Books F) {r : Books F × FillApplicationResult F}
      → apply_order_snapshot now max_failures decision is_close snap b ≡ done r
      → IsRecorded b.order.id b.executions snap.fills
      → IsUntouched b r
  apply_order_snapshot_replayed now m d c snap b {r} e h =
      let s = apply_order_snapshot-Applied now m d c snap b e in
      let known =
        record_new_fills_known s.order b.executions now snap.fills
          (rw (settled-id now m d c snap b s) h) in
      rw (s.result, known)
        (conclude-IsUntouched now m (frozen_protection_distances d) c b s.order s.events s.loop
          (rw known at s.applied))

  -- The variables of the loop after a blocked fill.
  abbrev blocked : Order F → Applying F → Applying F
  blocked o a = record a {
    state_ambiguous = true;
    security_events = a.security_events ++ (late_opposite_fill_blocked o.id ∷ []);
  }

  opposite_row :
      (now : ℕ) (protection : Option (F × F)) (o : Order F) (row : Execution F) (a : Applying F)
      {p : Position F}
      → a.position ≡ some p
      → same_side p.side o.side ≡ false
      → apply_row false now protection o row a ≡ done (blocked o a)
  unfolding apply_row
  opposite_row now pr o row a ep es = rw (ep, apply_entry) (rw es)

  opposite_rows :
      (now : ℕ) (protection : Option (F × F)) (o : Order F) (rows : List (Execution F))
      (a : Applying F) {p : Position F} {a' : Applying F}
      → a.position ≡ some p
      → same_side p.side o.side ≡ false
      → apply_rows false now protection o rows a ≡ done a'
      → (a'.before ≡ a.before)
        × (a'.position ≡ some p)
        × (a'.behind ≡ a.behind)
        × (a'.state_ambiguous ≡ (if is_nonempty rows then true else a.state_ambiguous))
        × (length a'.security_events ≡ length a.security_events + length rows)
  unfolding apply_rows
  opposite_rows now pr o [] a ep es e = ground arith
  opposite_rows now pr o (row ∷ rows) a {p} {a'} ep es e =
      let rest =
        opposite_rows now pr o rows (blocked o a) ep es
          (rw (opposite_row now pr o row a ep es) at e) in
      ground (arith, rest, length-append a.security_events (late_opposite_fill_blocked o.id ∷ []))

  conclude_ambiguous :
      (m : ℕ) (b : Books F) (events : List OrderEvent) (rec : Recorded F) (a : Applying F)
      → a.state_ambiguous ≡ true
      → let r = conclude m b events rec a in
        (r.0.state.state_ambiguous ≡ true) × (r.0.state.trading_blocked ≡ true)
  unfolding conclude
  conclude_ambiguous m b events rec a h = ground arith

  pub conclude-books :
      (m : ℕ) (b : Books F) (events : List OrderEvent) (rec : Recorded F) (a : Applying F)
      → let r = conclude m b events rec a in
        (r.0.before ≡ a.before)
        × (r.0.position ≡ a.position)
        × (r.0.behind ≡ a.behind)
        × (r.0.security_events ≡ a.security_events)
        × (r.0.executions ≡ rec.executions)
        × (r.1.new_fill_count ≡ length rec.new_rows)
        × (r.1.realized_pnl_delta_total ≡ a.realized_pnl_delta_total)
        × (r.1.closed_fully ≡ a.closed_fully)
  unfolding conclude
  conclude-books m b events rec a = (refl, refl, refl, refl, refl, refl, refl, refl)

  nonempty_of_length : (rows : List (Execution F)) → 0 < length rows → is_nonempty rows ≡ true
  nonempty_of_length [] h = absurd (omega arith)
  nonempty_of_length (_ ∷ _) h = refl

  -- New fills of an entry order for a symbol whose open position is on the other side are never
  -- applied to it: the positions stay, one security event is recorded for each, the state is
  -- ambiguous, and trading is blocked.
  pub apply_order_snapshot_opposite :
      (now max_failures : ℕ) (decision : Option (Decision F)) (snap : OrderStatusSnapshot F)
      (b : Books F) {p : Position F} {r : Books F × FillApplicationResult F}
      → apply_order_snapshot now max_failures decision false snap b ≡ done r
      → b.position ≡ some p
      → same_side p.side b.order.side ≡ false
      → 0 < r.1.new_fill_count
      → (r.0.before ≡ b.before)
        × (r.0.position ≡ some p)
        × (r.0.behind ≡ b.behind)
        × (length r.0.security_events ≡ length b.security_events + r.1.new_fill_count)
        × (r.0.state.state_ambiguous ≡ true)
        × (r.0.state.trading_blocked ≡ true)
  apply_order_snapshot_opposite now m d snap b {p} {r} e ep es pos =
      let s = apply_order_snapshot-Applied now m d false snap b e in
      let rec = record_new_fills s.order b.executions now snap.fills in
      let q =
        opposite_rows now (frozen_protection_distances d) rec.order rec.new_rows (applying b) ep
          (rw ((settled-symbol now m d false snap b s).1) es) s.applied in
      ground (
        arith,
        s.result,
        q,
        conclude-books m b s.events rec s.loop,
        conclude_ambiguous m b s.events rec s.loop,
        nonempty_of_length rec.new_rows,
      )
