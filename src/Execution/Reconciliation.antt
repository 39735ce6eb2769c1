-- ===== src/Execution/Reconciliation.antt =====
-- app/execution/reconciliation.py: what is on file against what the exchange reports. A mismatch is
-- represented by its kind and its key; a dictionary is the list of its items, in order.
pub mod Agreement
pub mod Examples
use agente_tradin_ia_v2_mult.Common.{
  String, Bool, true, false, not, ◌&&◌, Option, none, some, List, [], ◌∷◌, ◌++◌, str_eq,
  if◌then◌else◌,
}
use agente_tradin_ia_v2_mult.Float.{Float, ◌⊖◌, abs, is_positive}
use agente_tradin_ia_v2_mult.Persistence.Models.{Side, same_side, is_set}

pub record PositionView (F : Type 0) : Type 0 where
  pub symbol : String
  pub side : Side
  pub qty : F
  pub avg_entry_price : Option F

pub record OrderView (F : Type 0) : Type 0 where
  pub exchange_order_id : Option String
  pub side : Side
  pub qty : F

pub data Mismatch : Type 0 where
  not_reported not_recorded qty_differs side_differs price_differs : String → Mismatch

abbrev pub Dict : Type 0 → Type 0
Dict V = List (String × V)

abbrev pub get : {V : Type 0} → String → Dict V → Option V
get key [] = none
get key (item ∷ d) = if str_eq key item.0 then some item.1 else get key d

-- `d[key] = v`
abbrev pub set : {V : Type 0} → String → V → Dict V → Dict V
set key v [] = (key, v) ∷ []
set key v (item ∷ d) =
    let rest = set key v d in if str_eq key item.0 then (item.0, v) ∷ d else item ∷ rest

-- `{p["symbol"]: p for p in positions}`, after the items that are there.
unfoldable pub by_symbol :
    {F : Type 0} → Dict (PositionView F) → List (PositionView F) → Dict (PositionView F)
by_symbol d [] = d
by_symbol d (p ∷ ps) = by_symbol (set p.symbol p d) ps

-- `{o["exchange_order_id"]: o for o in orders if o.get("exchange_order_id")}`
unfoldable pub by_id : {F : Type 0} → Dict (OrderView F) → List (OrderView F) → Dict (OrderView F)
by_id d [] = d
by_id d (o ∷ os) = elim o.exchange_order_id [
  | none ↦ by_id d os
  | some id ↦ by_id (if str_eq id "" then d else set id o d) os
]

abbrev pub when : Bool → Mismatch → List Mismatch
when true m = m ∷ []
when false m = []

abbrev pub is_none : {A : Type 0} → Option A → Bool
is_none none = true
is_none (some _) = false

module _ {F : Type 0} ⦃f : Float F⦄ where
  -- Whether the prices, where both are there, differ by more than `PRICE_RELATIVE_TOLERANCE`.
  abbrev pub prices_differ : Option F → Option F → Bool
  prices_differ (some local_price) (some remote_price) =
      is_positive local_price
      && f.lt (f.literal 1 3) (f.quot (abs (remote_price ⊖ local_price)) local_price)
  prices_differ (some local_price) none = false
  prices_differ none remote_price = false

  -- One turn of the first loop.
  unfoldable pub compare_position :
      String → PositionView F → Option (Option (PositionView F)) → List Mismatch
  compare_position symbol here (some (some remote)) =
      when (f.lt (f.literal 1 9) (abs (remote.qty ⊖ here.qty))) (qty_differs symbol)
      ++ (when (not (same_side remote.side here.side)) (side_differs symbol)
          ++ when (prices_differ here.avg_entry_price remote.avg_entry_price)
              (price_differs symbol))
  compare_position symbol here (some none) = not_reported symbol ∷ []
  compare_position symbol here none = not_reported symbol ∷ []

  unfoldable pub compare_positions :
      Dict (PositionView F) → Dict (Option (PositionView F)) → List Mismatch
  unfolding compare_position
  compare_positions [] remote = []
  compare_positions (item ∷ items) remote =
      compare_position item.0 item.1 (get item.0 remote) ++ compare_positions items remote

  -- The second loop.
  unfoldable pub unrecorded : Dict (PositionView F) → Dict (Option (PositionView F)) → List Mismatch
  unrecorded here [] = []
  unrecorded here (item ∷ items) =
      when (not (is_none item.1) && is_none (get item.0 here)) (not_recorded item.0)
      ++ unrecorded here items

  -- The mismatches of the report, whose `ok` says that there are none.
  unfoldable pub reconcile_positions :
      List (PositionView F) → Dict (Option (PositionView F)) → List Mismatch
  unfolding by_symbol compare_positions unrecorded
  reconcile_positions local_positions remote =
      let here = by_symbol [] local_positions in
      compare_positions here remote ++ unrecorded here remote

  unfoldable pub unknown_orders : Dict (OrderView F) → Dict (OrderView F) → List Mismatch
  unknown_orders here [] = []
  unknown_orders here (item ∷ items) =
      when (is_none (get item.0 here)) (not_recorded item.0) ++ unknown_orders here items

  unfoldable pub compare_order : String → OrderView F → Option (OrderView F) → List Mismatch
  compare_order id here none = not_reported id ∷ []
  compare_order id here (some remote) =
      when (f.lt (f.literal 1 9) (abs (remote.qty ⊖ here.qty))) (qty_differs id)
      ++ when (not (same_side remote.side here.side)) (side_differs id)

  unfoldable pub compare_orders : Dict (OrderView F) → Dict (OrderView F) → List Mismatch
  unfolding compare_order
  compare_orders [] remote = []
  compare_orders (item ∷ items) remote =
      compare_order item.0 item.1 (get item.0 remote) ++ compare_orders items remote

  unfoldable pub reconcile_orders : List (OrderView F) → List (OrderView F) → List Mismatch
  unfolding by_id unknown_orders compare_orders
  reconcile_orders local_open_orders remote_open_orders =
      let here = by_id [] local_open_orders in
      let there = by_id [] remote_open_orders in
      unknown_orders here there ++ compare_orders here there
