-- ===== src/Execution/FillLedger/Examples.antt =====
-- The theorems on the fill ledger at work on one order.
use agente_tradin_ia_v2_mult.Common.{false, [], ◌∷◌, ◌≡◌, refl}
use agente_tradin_ia_v2_mult.Float.{fixed_float}
use agente_tradin_ia_v2_mult.Execution.FillLedger.{record_new_fills}
use agente_tradin_ia_v2_mult.Execution.FillLedger.Dedup.{record_new_fills_again}
use agente_tradin_ia_v2_mult.Execution.FillLedger.Totals.{IsDerived, record_new_fills-IsDerived}
use agente_tradin_ia_v2_mult.Execution.Samples.{first_fill, order_of}

record_new_fills_again_example :
    let r = record_new_fills (order_of false) [] 10 (first_fill ∷ first_fill ∷ []) in
    record_new_fills r.order r.executions 20 (first_fill ∷ first_fill ∷ [])
    ≡ record { order = r.order; executions = r.executions; new_rows = [] }
record_new_fills_again_example =
    record_new_fills_again (order_of false) [] 10 20 (first_fill ∷ first_fill ∷ [])

record_new_fills-IsDerived_example :
    let r = record_new_fills (order_of false) [] 10 (first_fill ∷ []) in
    IsDerived r.order r.executions
unfolding record_new_fills
record_new_fills-IsDerived_example =
    record_new_fills-IsDerived (order_of false) [] 10 (first_fill ∷ []) (refl, refl, refl)
