-- ===== src/Execution/Funding/Coverage.antt =====
-- The checkpoint of the collection of funding never passes what was not listed completely.
use agente_tradin_ia_v2_mult.Common.{
  ℕ, zero, suc, ◌+◌, ◌*◌, ◌≤◌, ◌<◌, String, Bool, true, false, Option, none, some, List, [], ◌∷◌,
  ◌++◌, ◌≡◌, ◌≢◌, ◌⊎◌, refl, sym, ap, ◌∙◌, arith, All-append, Bool-cases, inl, inr, ltb,
}
use agente_tradin_ia_v2_mult.Execution.Funding.{
  FundingRecord, FundingBooks, recorded, record_new_funding_events, funding_window, window_end,
  window_start, advance_funding_checkpoint, collect_windows, collect_funding,
}
use agente_tradin_ia_v2_mult.Execution.Funding.Events.{
  AreOnFile, record_new-keeps, record_new-AreOnFile,
}

-- Windows one after the other, from one instant to another, each of which was listed completely, with
-- all their records.
pub data Covered {F : Type 0} (list : ℕ → ℕ → Option (List (FundingRecord F) × Bool)) (now : ℕ)
    : ℕ → ℕ → List (FundingRecord F) → Type 0 where
  here : {start : ℕ} → Covered list now start start []
  next :
      {start reached : ℕ} (rs rest all : List (FundingRecord F))
      → list start (window_end now start) ≡ some (rs, true)
      → Covered list now (window_end now start) reached rest
      → all ≡ rs ++ rest
      → Covered list now start reached all

AreOnFile-keeps :
    {F : Type 0} (events events' rs : List (FundingRecord F))
    → ((id : String) → recorded id events ≡ true → recorded id events' ≡ true)
    → AreOnFile events rs
    → AreOnFile events' rs
AreOnFile-keeps events events' [] k h = tt
AreOnFile-keeps events events' (r ∷ rs) k h =
    (k r.funding_id h.0, AreOnFile-keeps events events' rs k h.1)

advance-later :
    (until start : ℕ) (c : Option ℕ)
    → (c ≡ none) ⊎ (c ≡ some start)
    → start < until
    → advance_funding_checkpoint until c ≡ some until
unfolding advance_funding_checkpoint
advance-later until start none h lt = refl
advance-later until start (some t) h lt = ground (arith, h, lt)

starts_at : (now : ℕ) (c : Option ℕ) → (c ≡ none) ⊎ (c ≡ some (window_start now c))
starts_at now none = inl refl
starts_at now (some t) = inr refl

module _ {F : Type 0} where
  pub record Collected (list : ℕ → ℕ → Option (List (FundingRecord F) × Bool)) (now start : ℕ)
      (b b' : FundingBooks F) : Type 0 where
    pub reached : ℕ
    pub listed : List (FundingRecord F)
    pub windows : Covered list now start reached listed
    pub checkpoint :
        (b'.covered_until ≡ some reached)
        ⊎ ((reached ≡ start) × (b'.covered_until ≡ b.covered_until))
    pub on_file : AreOnFile b'.events listed
    pub kept : (id : String) → recorded id b.events ≡ true → recorded id b'.events ≡ true
    pub ends :
        (now ≤ reached)
        ⊎ ((rs : List (FundingRecord F)) → list reached (window_end now reached) ≢ some (rs, true))

  stay :
      (list : ℕ → ℕ → Option (List (FundingRecord F) × Bool)) (now start : ℕ)
      (b b' : FundingBooks F)
      → b'.covered_until ≡ b.covered_until
      → ((id : String) → recorded id b.events ≡ true → recorded id b'.events ≡ true)
      → (now ≤ start)
        ⊎ ((rs : List (FundingRecord F)) → list start (window_end now start) ≢ some (rs, true))
      → Collected list now start b b'
  stay list now start b b' c k e = record {
    reached = start;
    listed = [];
    windows = here;
    checkpoint = inr (refl, c);
    on_file = tt;
    kept = k;
    ends = e;
  }

  -- The books after a complete window.
  abbrev after_window : List (FundingRecord F) → ℕ → FundingBooks F → FundingBooks F
  after_window rs until b = record b {
    events = record_new_funding_events b.events rs;
    covered_until = advance_funding_checkpoint until b.covered_until;
  }

  prolong :
      (list : ℕ → ℕ → Option (List (FundingRecord F) × Bool)) (now start : ℕ)
      (rs : List (FundingRecord F)) (b b' : FundingBooks F)
      → (b.covered_until ≡ none) ⊎ (b.covered_until ≡ some start)
      → start < now
      → list start (window_end now start) ≡ some (rs, true)
      → Collected list now (window_end now start) (after_window rs (window_end now start) b) b'
      → Collected list now start b b'
  prolong list now start rs b b' at lt e r =
      let until = window_end now start in
      let later : advance_funding_checkpoint until b.covered_until ≡ some until =
        advance-later until start b.covered_until at (ground (arith, lt)) in
      record {
        reached = r.reached;
        listed = rs ++ r.listed;
        windows = next rs r.listed (rs ++ r.listed) e r.windows refl;
        checkpoint = inl (elim r.checkpoint [
          | inl y ↦ y
          | inr n ↦ n.1 ∙ later ∙ ap (λ (i : ℕ). some i) (sym n.0)
        ]);
        on_file =
            All-append (λ x. recorded x.funding_id b'.events ≡ true) rs r.listed
              (AreOnFile-keeps (record_new_funding_events b.events rs) b'.events rs r.kept
                (record_new-AreOnFile b.events rs))
              r.on_file;
        kept = λ id h. r.kept id (record_new-keeps id b.events rs h);
        ends = r.ends;
      }

  collect_windows-Collected :
      (list : ℕ → ℕ → Option (List (FundingRecord F) × Bool)) (now fuel start : ℕ)
      (b : FundingBooks F)
      → (b.covered_until ≡ none) ⊎ (b.covered_until ≡ some start)
      → now ≤ start + fuel * funding_window
      → (b' : FundingBooks F) × (collect_windows list now fuel start b ≡ some b')
        × Collected list now start b b'
  unfolding collect_windows
  collect_windows-Collected list now zero start b at h =
      let over : ltb start now ≡ false = ground (arith, h) in
      (b, rw over refl, stay list now start b b refl (λ id k. k) (inl (omega (arith, h))))
  collect_windows-Collected list now (suc fuel) start b at h = elim (Bool-cases (ltb start now)) [
    | inl early ↦ go (list start (window_end now start)) refl early (λ rs.
        collect_windows-Collected list now fuel (window_end now start)
          (after_window rs (window_end now start) b))
    | inr over ↦ (
      b,
      rw (over, collect_windows) refl,
      stay list now start b b refl (λ id k. k) (inl (ground (arith, over))),
    )
  ]
    where
      go :
          (r : Option (List (FundingRecord F) × Bool))
          → list start (window_end now start) ≡ r
          → ltb start now ≡ true
          → ((rs : List (FundingRecord F))
              → let b' = after_window rs (window_end now start) b in
                (b'.covered_until ≡ none) ⊎ (b'.covered_until ≡ some (window_end now start))
                → now ≤ window_end now start + fuel * funding_window
                → (b'' : FundingBooks F) × (collect_windows list now fuel (window_end now start) b'
                    ≡ some b'')
                  × Collected list now (window_end now start) b' b'')
          → (b' : FundingBooks F) × (collect_windows list now (suc fuel) start b ≡ some b')
            × Collected list now start b b'
      go none e early ih = (
        record b { failed_collections = b.failed_collections + 1 },
        rw (early, e, collect_windows) refl,
        stay list now start b _ refl (λ id k. k) (inr (λ rs q. ground (arith, e, q))),
      )
      go (some (rs, false)) e early ih = (
        record b {
          events = record_new_funding_events b.events rs;
          incomplete_windows = b.incomplete_windows + 1;
        },
        rw (early, e, collect_windows) refl,
        stay list now start b _ refl (λ id. record_new-keeps id b.events rs)
            (inr (λ rs' q. ground (arith, e, q))),
      )
      go (some (rs, true)) e early ih =
          let lt : start < now = ground (arith, early) in
          let later =
            advance-later (window_end now start) start b.covered_until at (ground (arith, lt)) in
          let r = ih rs (inr later) (ground (arith, h, lt)) in
          (r.0, rw (early, e, collect_windows) r.1, prolong list now start rs b r.0 at lt e r.2)

  -- With a round of fuel for each seven days since the first window starts, the collection returns.
  -- From that start on it has gone through windows that were all listed completely, up to now or to
  -- one that was not; the records of all of them are on file, as is every row that was; and the
  -- checkpoint stands at the end of the last of them, or, if there is none, where it stood.
  pub collect_funding-covers :
      (list : ℕ → ℕ → Option (List (FundingRecord F) × Bool)) (fuel now : ℕ) (b : FundingBooks F)
      → now ≤ window_start now b.covered_until + fuel * funding_window
      → (b' : FundingBooks F) × (collect_funding list fuel now b ≡ some b')
        × Collected list now (window_start now b.covered_until) b b'
  unfolding collect_funding
  collect_funding-covers list fuel now b h =
      collect_windows-Collected list now fuel (window_start now b.covered_until) b
        (starts_at now b.covered_until) h
