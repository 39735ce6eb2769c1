-- ===== src/Execution/Funding/Events.antt =====
-- The table of funding: every record is on file once.
use agente_tradin_ia_v2_mult.Common.{
  String, true, false, ◌||◌, List, [], ◌∷◌, ◌++◌, str_eq_iff, ◌≡◌, refl, arith, All, Bool-cases,
  inl, inr, if◌then◌else◌,
}
use agente_tradin_ia_v2_mult.Execution.Funding.{FundingRecord, recorded, record_new_funding_events}

module _ {F : Type 0} where
  -- Every identifier of the list is of one row only.
  abbrev pub AreDistinct : List (FundingRecord F) → Type 0
  AreDistinct [] = Unit
  AreDistinct (r ∷ rs) = (recorded r.funding_id rs ≡ false) × AreDistinct rs

  abbrev pub AreOnFile : List (FundingRecord F) → List (FundingRecord F) → Type 0
  AreOnFile events = All (λ r. recorded r.funding_id events ≡ true)

  recorded-append :
      (id : String) (xs ys : List (FundingRecord F))
      → recorded id (xs ++ ys) ≡ (recorded id xs || recorded id ys)
  unfolding recorded
  recorded-append id [] ys = refl
  recorded-append id (x ∷ xs) ys = ground (arith, recorded-append id xs ys)

  record_one : FundingRecord F → List (FundingRecord F) → List (FundingRecord F)
  record_one r events = if recorded r.funding_id events then events else events ++ (r ∷ [])

  record_one-on :
      (r : FundingRecord F) (events : List (FundingRecord F))
      → recorded r.funding_id (record_one r events) ≡ true
  unfolding record_one recorded
  record_one-on r events =
      ground
        (arith, recorded-append r.funding_id events (r ∷ []), str_eq_iff r.funding_id r.funding_id)

  record_one-keeps :
      (id : String) (r : FundingRecord F) (events : List (FundingRecord F))
      → recorded id events ≡ true
      → recorded id (record_one r events) ≡ true
  unfolding record_one
  record_one-keeps id r events h = ground (arith, recorded-append id events (r ∷ []), h)

  AreDistinct-append :
      (events : List (FundingRecord F)) (r : FundingRecord F)
      → recorded r.funding_id events ≡ false
      → AreDistinct events
      → AreDistinct (events ++ (r ∷ []))
  unfolding recorded
  AreDistinct-append [] r h d = (refl, tt)
  AreDistinct-append (e ∷ es) r h d = (
    ground (
      arith,
      recorded-append e.funding_id es (r ∷ []),
      d.0,
      h,
      str_eq_iff r.funding_id e.funding_id,
      str_eq_iff e.funding_id r.funding_id,
    ),
    AreDistinct-append es r (ground (arith, h)) d.1,
  )

  record_one-AreDistinct :
      (r : FundingRecord F) (events : List (FundingRecord F))
      → AreDistinct events
      → AreDistinct (record_one r events)
  unfolding record_one
  record_one-AreDistinct r events d = elim (Bool-cases (recorded r.funding_id events)) [
    | inl old ↦ rw (record_one, old) d
    | inr new ↦ rw (record_one, new) (AreDistinct-append events r new d)
  ]

  pub record_new-keeps :
      (id : String) (events rs : List (FundingRecord F))
      → recorded id events ≡ true
      → recorded id (record_new_funding_events events rs) ≡ true
  unfolding record_new_funding_events record_one
  record_new-keeps id events [] h = h
  record_new-keeps id events (r ∷ rs) h =
      record_new-keeps id (record_one r events) rs (record_one-keeps id r events h)

  record_new-AreDistinct :
      (events rs : List (FundingRecord F))
      → AreDistinct events
      → AreDistinct (record_new_funding_events events rs)
  unfolding record_new_funding_events record_one
  record_new-AreDistinct events [] d = d
  record_new-AreDistinct events (r ∷ rs) d =
      record_new-AreDistinct (record_one r events) rs (record_one-AreDistinct r events d)

  pub record_new-AreOnFile :
      (events rs : List (FundingRecord F)) → AreOnFile (record_new_funding_events events rs) rs
  unfolding record_new_funding_events record_one
  record_new-AreOnFile events [] = tt
  record_new-AreOnFile events (r ∷ rs) = (
    record_new-keeps r.funding_id (record_one r events) rs (record_one-on r events),
    record_new-AreOnFile (record_one r events) rs,
  )

  -- Recording keeps the identifiers on file distinct, whatever the exchange lists; every row on file
  -- stays, and every record of the list is on file afterwards.
  pub record_new_funding_events-once :
      (events rs : List (FundingRecord F))
      → AreDistinct events
      → let events' = record_new_funding_events events rs in
        AreDistinct events'
        × AreOnFile events' rs
        × ((id : String) → recorded id events ≡ true → recorded id events' ≡ true)
  record_new_funding_events-once events rs d = (
    record_new-AreDistinct events rs d,
    record_new-AreOnFile events rs,
    λ id. record_new-keeps id events rs,
  )
