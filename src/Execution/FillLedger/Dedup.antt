-- ===== src/Execution/FillLedger/Dedup.antt =====
-- A fill counts once, however often the exchange reports it.
use mathlib.Core.List.{append-nil}
use text.Mathlib.TextPositions.{eq_refl}
use agente_tradin_ia_v2_mult.Common.{
  ℕ, String, Bool, true, false, List, [], ◌∷◌, ◌++◌, map, ◌||◌, str_eq, str_eq_iff, ◌≡◌, refl, ◌⊎◌,
  inr, arith, All, ap, sym, ◌∙◌,
}
use agente_tradin_ia_v2_mult.Float.{Float}
use agente_tradin_ia_v2_mult.Execution.Base.{FillEvent}
use agente_tradin_ia_v2_mult.Persistence.Models.{Order, Execution}
use agente_tradin_ia_v2_mult.Execution.FillLedger.{
  contains, recorded_ids, fresh_rows, mark_partial, commit_rows, record_new_fills,
}

-- No identifier occurs twice.
abbrev pub Distinct : List String → Type 0
Distinct [] = Unit
Distinct (id ∷ ids) = (contains id ids ≡ false) × Distinct ids

contains-append :
    (id : String) (xs ys : List String)
    → contains id (xs ++ ys) ≡ (contains id xs || contains id ys)
contains-append id [] ys = refl
contains-append id (x ∷ xs) ys = ground (arith, contains-append id xs ys)

contains-tail :
    (id x : String) (xs : List String) → contains id xs ≡ true → contains id (x ∷ xs) ≡ true
contains-tail id x xs h = ground arith

module _ {F : Type 0} where
  -- Every fill of the list has a row on file for the order.
  abbrev pub IsRecorded : ℕ → List (Execution F) → List (FillEvent F) → Type 0
  IsRecorded order_id executions =
      All λ e. contains e.exchange_fill_id (recorded_ids order_id executions) ≡ true

  fresh_rows-nil :
      (order_id now : ℕ) (ids : List String) (es : List (FillEvent F))
      → All (λ e. contains e.exchange_fill_id ids ≡ true) es
      → fresh_rows order_id now ids es ≡ []
  unfolding fresh_rows
  fresh_rows-nil o now ids [] h = refl
  fresh_rows-nil o now ids (e ∷ es) h = rw h.0 (fresh_rows-nil o now ids es h.1)

  contains-recorded_ids_append :
      (id : String) (order_id : ℕ) (rs ss : List (Execution F))
      → contains id (recorded_ids order_id (rs ++ ss))
        ≡ (contains id (recorded_ids order_id rs) || contains id (recorded_ids order_id ss))
  unfolding recorded_ids
  contains-recorded_ids_append id o [] ss = refl
  contains-recorded_ids_append id o (r ∷ rs) ss =
      ground (arith, contains-recorded_ids_append id o rs ss)

  -- Each fill is already known, or has a row among the fresh ones.
  fresh_rows-covers :
      (order_id now : ℕ) (ids : List String) (es : List (FillEvent F)) (id : String)
      → contains id ids ≡ false
      → (contains id (recorded_ids order_id (fresh_rows order_id now ids es)) ≡ true)
        ⊎ All (λ e. str_eq id e.exchange_fill_id ≡ false) es
  unfolding fresh_rows recorded_ids
  fresh_rows-covers o now ids [] id h = inr tt
  fresh_rows-covers o now ids (e ∷ es) id h = ground (
    arith,
    str_eq_iff id e.exchange_fill_id,
    fresh_rows-covers o now ids es id,
    fresh_rows-covers o now (e.exchange_fill_id ∷ ids) es id,
  )

  recorded_ids-mark :
      (order_id : ℕ) (p : Bool) (rs : List (Execution F))
      → recorded_ids order_id (map (mark_partial p) rs) ≡ recorded_ids order_id rs
  unfolding recorded_ids
  recorded_ids-mark o p [] = refl
  recorded_ids-mark o p (r ∷ rs) = ground (arith, recorded_ids-mark o p rs)

  fresh_rows-avoid :
      (order_id now : ℕ) (ids : List String) (es : List (FillEvent F)) (id : String)
      → contains id ids ≡ true
      → contains id (recorded_ids order_id (fresh_rows order_id now ids es)) ≡ false
  unfolding fresh_rows recorded_ids
  fresh_rows-avoid o now ids [] id h = refl
  fresh_rows-avoid o now ids (e ∷ es) id h = ground (
    arith,
    str_eq_iff id e.exchange_fill_id,
    fresh_rows-avoid o now ids es id,
    fresh_rows-avoid o now (e.exchange_fill_id ∷ ids) es id,
  )

  fresh_rows-Distinct :
      (order_id now : ℕ) (ids : List String) (es : List (FillEvent F))
      → Distinct (recorded_ids order_id (fresh_rows order_id now ids es))
  unfolding fresh_rows recorded_ids
  fresh_rows-Distinct o now ids [] = tt
  fresh_rows-Distinct o now ids (e ∷ es) =
      let id = e.exchange_fill_id in
      ground (
        arith,
        eq_refl id,
        fresh_rows-Distinct o now ids es,
        fresh_rows-Distinct o now (id ∷ ids) es,
        fresh_rows-avoid o now (id ∷ ids) es id,
      )

  recorded_ids-append :
      (order_id : ℕ) (rs ss : List (Execution F))
      → recorded_ids order_id (rs ++ ss) ≡ recorded_ids order_id rs ++ recorded_ids order_id ss
  unfolding recorded_ids
  recorded_ids-append o [] ss = refl
  recorded_ids-append o (r ∷ rs) ss = ground (arith, recorded_ids-append o rs ss)

  fresh_rows-append_Distinct :
      (order_id now : ℕ) (known ids : List String) (es : List (FillEvent F))
      → Distinct ids
      → ((id : String) → contains id ids ≡ true → contains id known ≡ true)
      → Distinct (ids ++ recorded_ids order_id (fresh_rows order_id now known es))
  fresh_rows-append_Distinct o now known [] es d sub = fresh_rows-Distinct o now known es
  fresh_rows-append_Distinct o now known (id ∷ ids) es d sub = ground (
    arith,
    eq_refl id,
    sub id,
    contains-append id ids (recorded_ids o (fresh_rows o now known es)),
    fresh_rows-avoid o now known es id,
    fresh_rows-append_Distinct o now known ids es d.1 (λ j h. sub j (contains-tail j id ids h)),
  )

  module _ ⦃f : Float F⦄ where
    commit_none :
        (o : Order F) (executions : List (Execution F))
        → commit_rows o executions [] ≡ record { order = o; executions = executions; new_rows = [] }
    unfolding commit_rows
    commit_none o ex = refl

    commit_rows-ids :
        (o : Order F) (executions rows : List (Execution F))
        → let r = commit_rows o executions rows in
          (r.order.id ≡ o.id)
          × (recorded_ids o.id r.executions
              ≡ recorded_ids o.id executions ++ recorded_ids o.id rows)
    unfolding commit_rows recorded_ids
    commit_rows-ids o ex [] = (refl, sym (append-nil _))
    commit_rows-ids o ex (r ∷ rs) = (
      refl,
      recorded_ids-append o.id ex _
          ∙ ap (λ ids. recorded_ids o.id ex ++ ids) (recorded_ids-mark o.id _ (r ∷ rs)),
    )

    record_new_fills-ids :
        (o : Order F) (executions : List (Execution F)) (now : ℕ) (fills : List (FillEvent F))
        → let r = record_new_fills o executions now fills in
          (r.order.id ≡ o.id)
          × (recorded_ids o.id r.executions
              ≡ recorded_ids o.id executions
                ++ recorded_ids o.id (fresh_rows o.id now (recorded_ids o.id executions) fills))
    unfolding record_new_fills
    record_new_fills-ids o ex now fills = commit_rows-ids o ex _

    -- The identifiers on file for an order stay distinct, whatever the exchange reports, repeats
    -- within one report included.
    pub record_new_fills-Distinct :
        (o : Order F) (executions : List (Execution F)) (now : ℕ) (fills : List (FillEvent F))
        → Distinct (recorded_ids o.id executions)
        → Distinct (recorded_ids o.id (record_new_fills o executions now fills).executions)
    record_new_fills-Distinct o ex now fills d =
        rw ((record_new_fills-ids o ex now fills).1)
          (fresh_rows-append_Distinct o.id now _ (recorded_ids o.id ex) fills d (λ _ h. h))

    covered :
        (order_id now : ℕ) (ids : List String) (es fs : List (FillEvent F))
        → ((id : String)
            → All (λ e. str_eq id e.exchange_fill_id ≡ false) es
            → All (λ e. str_eq id e.exchange_fill_id ≡ false) fs)
        → All
            (λ e.
              contains e.exchange_fill_id
                (ids ++ recorded_ids order_id (fresh_rows order_id now ids es))
              ≡ true)
            fs
    covered o now ids es [] within = tt
    covered o now ids es (e ∷ fs) within =
        let id = e.exchange_fill_id in
        let rows = recorded_ids o (fresh_rows o now ids es) in
        (
          ground (
            arith,
            eq_refl id,
            contains-append id ids rows,
            fresh_rows-covers o now ids es id,
            within id,
          ),
          covered o now ids es fs (λ j h. (within j h).1),
        )

    -- Every fill that is handed over is then on file.
    pub record_new_fills-IsRecorded :
        (o : Order F) (executions : List (Execution F)) (now : ℕ) (fills : List (FillEvent F))
        → IsRecorded o.id (record_new_fills o executions now fills).executions fills
    record_new_fills-IsRecorded o ex now fills =
        rw ((record_new_fills-ids o ex now fills).1)
          (covered o.id now (recorded_ids o.id ex) fills fills (λ _ h. h))

    -- Fills that are on file change nothing and give no new rows.
    pub record_new_fills_known :
        (o : Order F) (executions : List (Execution F)) (now : ℕ) (fills : List (FillEvent F))
        → IsRecorded o.id executions fills
        → record_new_fills o executions now fills
          ≡ record { order = o; executions = executions; new_rows = [] }
    unfolding record_new_fills
    record_new_fills_known o ex now fills h =
        ap (commit_rows o ex) (fresh_rows-nil o.id now _ fills h) ∙ commit_none o ex

    -- Recording a report a second time, at any later instant, changes no row and no total and
    -- gives no new rows.
    pub record_new_fills_again :
        (o : Order F) (executions : List (Execution F)) (now later : ℕ)
        → (fills : List (FillEvent F))
        → let r = record_new_fills o executions now fills in
          record_new_fills r.order r.executions later fills
          ≡ record { order = r.order; executions = r.executions; new_rows = [] }
    record_new_fills_again o ex now later fills =
        let r = record_new_fills o ex now fills in
        record_new_fills_known r.order r.executions later fills (
          rw ((record_new_fills-ids o ex now fills).0) (record_new_fills-IsRecorded o ex now fills))
