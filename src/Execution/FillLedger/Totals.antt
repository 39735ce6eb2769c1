-- ===== src/Execution/FillLedger/Totals.antt =====
-- The totals of an order are those of its rows.
use agente_tradin_ia_v2_mult.Common.{ℕ, Bool, List, [], ◌∷◌, ◌++◌, map, ◌≡◌, refl, arith}
use agente_tradin_ia_v2_mult.Float.{Float, ◌⊗◌, sum}
use agente_tradin_ia_v2_mult.Execution.Base.{FillEvent}
use agente_tradin_ia_v2_mult.Persistence.Models.{Order, Execution}
use agente_tradin_ia_v2_mult.Execution.FillLedger.{
  rows_of, mark_partial, total_qty, average_price, still_partial, commit_rows, record_new_fills,
}

module _ {F : Type 0} where
  rows_of-append :
      (order_id : ℕ) (rs ss : List (Execution F))
      → rows_of order_id (rs ++ ss) ≡ rows_of order_id rs ++ rows_of order_id ss
  unfolding rows_of
  rows_of-append o [] ss = refl
  rows_of-append o (r ∷ rs) ss = ground (arith, rows_of-append o rs ss)

  rows_of-map_mark :
      (order_id : ℕ) (p : Bool) (rs : List (Execution F))
      → rows_of order_id (map (mark_partial p) rs) ≡ map (mark_partial p) (rows_of order_id rs)
  unfolding rows_of
  rows_of-map_mark o p [] = refl
  rows_of-map_mark o p (r ∷ rs) = ground (arith, rows_of-map_mark o p rs)

  -- A column that marking leaves alone reads the same over a table with marked rows at its end.
  column-mark :
      (g : Execution F → F)
      → ((p : Bool) (r : Execution F) → g (mark_partial p r) ≡ g r)
      → (p : Bool) (rs ss : List (Execution F))
      → map g (rs ++ map (mark_partial p) ss) ≡ map g (rs ++ ss)
  column-mark g same p [] [] = refl
  column-mark g same p [] (s ∷ ss) = ground (arith, same p s, column-mark g same p [] ss)
  column-mark g same p (r ∷ rs) ss = ground (arith, column-mark g same p rs ss)

  module _ ⦃f : Float F⦄ where
    -- The totals on the order are those of its rows.
    abbrev pub IsDerived : Order F → List (Execution F) → Type 0
    IsDerived o executions =
        let rows = rows_of o.id executions in
        (o.filled_qty ≡ total_qty rows)
        × (o.avg_fill_price ≡ average_price rows)
        × (o.fees_total ≡ sum (map (λ r. r.fee) rows))

    rows_of-marked :
        (g : Execution F → F)
        → ((p : Bool) (r : Execution F) → g (mark_partial p r) ≡ g r)
        → (o : ℕ) (p : Bool) (rs ss : List (Execution F))
        → map g (rows_of o (rs ++ map (mark_partial p) ss)) ≡ map g (rows_of o (rs ++ ss))
    rows_of-marked g same o p rs ss =
        rw
          (
            rows_of-append o rs (map (mark_partial p) ss),
            rows_of-map_mark o p ss,
            rows_of-append o rs ss,
          )
          (column-mark g same p (rows_of o rs) (rows_of o ss))

    commit_rows-IsDerived :
        (o : Order F) (executions rows : List (Execution F))
        → IsDerived o executions
        → let r = commit_rows o executions rows in IsDerived r.order r.executions
    unfolding commit_rows
    commit_rows-IsDerived o ex [] h = h
    commit_rows-IsDerived o ex (r ∷ rs) h =
        let p = still_partial o (rows_of o.id (ex ++ (r ∷ rs))) in
        ground (
          arith,
          rows_of-marked (λ x. x.fill_qty) (λ _ _. refl) o.id p ex (r ∷ rs),
          rows_of-marked (λ x. x.fill_qty ⊗ x.fill_price) (λ _ _. refl) o.id p ex (r ∷ rs),
          rows_of-marked (λ x. x.fee) (λ _ _. refl) o.id p ex (r ∷ rs),
        )

    -- Recording fills keeps the totals of the order equal to those of its rows, whatever fills
    -- the exchange reports.
    pub record_new_fills-IsDerived :
        (o : Order F) (executions : List (Execution F)) (now : ℕ) (fills : List (FillEvent F))
        → IsDerived o executions
        → let r = record_new_fills o executions now fills in IsDerived r.order r.executions
    unfolding record_new_fills
    record_new_fills-IsDerived o ex now fills h = commit_rows-IsDerived o ex _ h
