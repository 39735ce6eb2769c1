-- ===== src/Orchestrator/Health/Gaps.antt =====
-- When a gap in the market data of a symbol is over, and when the symbol is healthy.
use agente_tradin_ia_v2_mult.Common.{
  ℕ, Bool, true, false, Option, none, some, List, [], ◌∷◌, ◌≡◌, ◌↔◌, ◌⊎◌, refl, ap, ◌∙◌, arith,
  if◌then◌else◌, ◌||◌,
}
use agente_tradin_ia_v2_mult.Api.PollEngine.{saudavel}
use agente_tradin_ia_v2_mult.Orchestrator.Results.{
  TickResult, retryable_error, aggregating, is_failure, is_gap, is_incomplete,
}
use agente_tradin_ia_v2_mult.Orchestrator.Health.{SymbolHealth, update_health, run_health}

-- What one result makes of the mark of a gap: it sets it, takes it away, or leaves it. A failure of
-- another kind takes it away.
abbrev pub verdict : TickResult → Option Bool
verdict r =
    if is_gap r.status || is_incomplete r.status
    then some true
    else if is_failure r.status || r.strategy_bucket_complete
    then some false
    else none

-- What the last result of a series that moves the mark makes of it, or what was before it.
abbrev pub last_verdict : Bool → List (ℕ × TickResult) → Bool
last_verdict gap [] = gap
last_verdict gap (r ∷ rs) = elim (verdict r.1) [
  | none ↦ last_verdict gap rs
  | some v ↦ last_verdict v rs
]

abbrev pub given : Bool → Option Bool → Bool
given gap none = gap
given gap (some v) = v

update_health-gap :
    (backoff now : ℕ) (r : TickResult) (h : SymbolHealth)
    → (update_health backoff now r h).has_gap ≡ given h.has_gap (verdict r)
unfolding update_health
update_health-gap backoff now r h = ground arith

last_verdict-given :
    (gap : Bool) (r : ℕ × TickResult) (rs : List (ℕ × TickResult))
    → last_verdict (given gap (verdict r.1)) rs ≡ last_verdict gap (r ∷ rs)
last_verdict-given gap r rs = ground arith

-- The mark of a gap after a series of results is the one that the last gap, incomplete bucket, complete
-- bucket or failure of another kind leaves, and without any of these the old one. A gap and an
-- incomplete bucket set it, and a complete bucket takes it away. A failure of another kind takes it
-- away as well, though no bucket was completed; every other result leaves it.
pub run_health-gap :
    (backoff : ℕ) (h : SymbolHealth) (rs : List (ℕ × TickResult))
    → (run_health backoff h rs).has_gap ≡ last_verdict h.has_gap rs
unfolding run_health
run_health-gap backoff h [] = refl
run_health-gap backoff h (r ∷ rs) =
    run_health-gap backoff (update_health backoff r.0 r.1 h) rs
    ∙ ap (λ gap. last_verdict gap rs) (update_health-gap backoff r.0 r.1 h)
    ∙ last_verdict-given h.has_gap r rs

-- A result leaves a symbol SAUDAVEL exactly if it is neither a failure nor an incomplete bucket, and
-- there was no gap or the bucket is complete; then it has no gap, no error and no failures in a
-- row, and nothing keeps it from its turn.
pub update_health-saudavel_iff :
    (backoff now : ℕ) (r : TickResult) (h : SymbolHealth)
    → let h' = update_health backoff now r h in
      ((h'.status ≡ saudavel)
        ↔ (is_failure r.status ≡ false)
          × (is_incomplete r.status ≡ false)
          × ((h.has_gap ≡ false) ⊎ (r.strategy_bucket_complete ≡ true)))
      × (h'.status ≡ saudavel
          → (h'.has_gap ≡ false)
            × (h'.last_error ≡ none)
            × (h'.consecutive_failures ≡ 0)
            × (h'.eligible_again_at ≡ none))
unfolding update_health
update_health-saudavel_iff backoff now r h = (ground arith, ground arith)

-- A failure that is no gap makes the next tick that aggregates clear a gap: whatever gap a symbol
-- had, it is then SAUDAVEL without a gap, though no bucket was completed.
pub gap_dropped :
    (backoff t u : ℕ) (h : SymbolHealth)
    → let failure : TickResult = record {
      status = retryable_error;
      strategy_bucket_complete = false;
    } in
      let next : TickResult = record { status = aggregating; strategy_bucket_complete = false } in
      let h' = run_health backoff h ((t, failure) ∷ (u, next) ∷ []) in
      (h'.status ≡ saudavel) × (h'.has_gap ≡ false)
unfolding run_health
gap_dropped backoff t u h = ground arith
