-- ===== src/Execution/FillLedger.antt =====
-- app/execution/fill_ledger.py: fills are recorded once each, by the exchange's own identifier, and
-- the totals of an order are derived again from all its rows.
pub mod Dedup
pub mod Totals
pub mod Examples
use agente_tradin_ia_v2_mult.Common.{
  ℕ, String, Bool, true, false, Option, none, some, List, [], ◌∷◌, ◌++◌, map, ◌||◌, ◌==◌, str_eq,
  if◌then◌else◌,
}
use agente_tradin_ia_v2_mult.Float.{Float, ◌⊖◌, ◌⊗◌, nought, sum}
use agente_tradin_ia_v2_mult.Execution.Base.{FillEvent}
use agente_tradin_ia_v2_mult.Persistence.Models.{Order, Execution}

-- `id in existing_ids`
abbrev pub contains : String → List String → Bool
contains id [] = false
contains id (j ∷ js) = str_eq id j || contains id js

abbrev pub add_id : Option String → List String → List String
add_id none ids = ids
add_id (some id) ids = id ∷ ids

module _ {F : Type 0} where
  -- The rows of one order, in the order of their identifiers.
  unfoldable pub rows_of : ℕ → List (Execution F) → List (Execution F)
  rows_of order_id [] = []
  rows_of order_id (r ∷ rs) =
      let rest = rows_of order_id rs in if r.order_id == order_id then r ∷ rest else rest

  -- `existing_ids`: the fill identifiers on file for an order, without `None`.
  unfoldable pub recorded_ids : ℕ → List (Execution F) → List String
  recorded_ids order_id [] = []
  recorded_ids order_id (r ∷ rs) =
      let rest = recorded_ids order_id rs in
      if r.order_id == order_id then add_id r.exchange_fill_id rest else rest

  abbrev pub new_row : ℕ → ℕ → FillEvent F → Execution F
  new_row order_id now e = record {
    order_id = order_id;
    exchange_fill_id = some e.exchange_fill_id;
    fill_qty = e.fill_qty;
    fill_price = e.fill_price;
    fee = e.fee;
    is_partial = false;
    executed_at = now;
  }

  -- The loop over `fills`.
  unfoldable pub fresh_rows : ℕ → ℕ → List String → List (FillEvent F) → List (Execution F)
  fresh_rows order_id now ids [] = []
  fresh_rows order_id now ids (e ∷ es) =
      let skip = fresh_rows order_id now ids es in
      let keep = new_row order_id now e ∷ fresh_rows order_id now (e.exchange_fill_id ∷ ids) es in
      if contains e.exchange_fill_id ids then skip else keep

  abbrev pub mark_partial : Bool → Execution F → Execution F
  mark_partial p r = record r { is_partial = p }

pub record Recorded (F : Type 0) : Type 0 where
  pub order : Order F
  pub executions : List (Execution F)
  pub new_rows : List (Execution F)

module _ {F : Type 0} ⦃f : Float F⦄ where
  abbrev pub total_qty : List (Execution F) → F
  total_qty rows = sum (map (λ r. r.fill_qty) rows)

  -- The average price is 0 unless something was filled.
  abbrev pub average_price : List (Execution F) → F
  average_price rows =
      if f.lt nought (total_qty rows)
      then f.quot (sum (map (λ r. r.fill_qty ⊗ r.fill_price) rows)) (total_qty rows)
      else nought

  -- The totals of an order, from all its rows.
  unfoldable pub derive_totals : Order F → List (Execution F) → Order F
  derive_totals o rows = record o {
    filled_qty = total_qty rows;
    avg_fill_price = average_price rows;
    fees_total = sum (map (λ r. r.fee) rows);
  }

  -- `total_qty < order.qty - 1e-9`
  abbrev pub still_partial : Order F → List (Execution F) → Bool
  still_partial o rows = f.lt (total_qty rows) (o.qty ⊖ f.literal 1 9)

  -- The part after the loop.
  unfoldable pub commit_rows : Order F → List (Execution F) → List (Execution F) → Recorded F
  unfolding derive_totals rows_of
  commit_rows o executions [] = record { order = o; executions = executions; new_rows = [] }
  commit_rows o executions (r ∷ rs) =
      let all_rows = rows_of o.id (executions ++ (r ∷ rs)) in
      let marked = map (mark_partial (still_partial o all_rows)) (r ∷ rs) in
      record {
        order = derive_totals o all_rows;
        executions = executions ++ marked;
        new_rows = marked;
      }

  unfoldable pub record_new_fills :
      Order F → List (Execution F) → ℕ → List (FillEvent F) → Recorded F
  unfolding commit_rows fresh_rows recorded_ids
  record_new_fills o executions now fills =
      commit_rows o executions (fresh_rows o.id now (recorded_ids o.id executions) fills)
