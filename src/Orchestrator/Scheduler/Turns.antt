-- ===== src/Orchestrator/Scheduler/Turns.antt =====
-- No symbol is passed over: the turns go round.
use agente_tradin_ia_v2_mult.Common.{
  ℕ, zero, suc, ◌+◌, ◌-◌, ◌%◌, ◌≤◌, ◌<◌, String, false, some, List, [], ◌∷◌, ◌≡◌, ◌≢◌, ◌⊎◌, refl,
  sym, ap, subst, ◌∙◌, arith, inl, inr, leb, ltb, get_elem?, length, if◌then◌else◌, Bool-cases,
  Option-cases, ◌==◌, ==_iff,
}
use agente_tradin_ia_v2_mult.Execution.Reconciliation.{Dict, get}
use agente_tradin_ia_v2_mult.Orchestrator.Health.{SymbolHealth}
use agente_tradin_ia_v2_mult.Orchestrator.Scheduler.{
  Ticker, MultiSymbolOrchestrator, Served, in_cooldown, advance, serve, take_turns, tick_symbols,
}
use agente_tradin_ia_v2_mult.Orchestrator.Scheduler.Keeping.{Serves, Has, serve-Keeps}

-- How many turns away a place in the list is.
abbrev pub turns_to : ℕ → ℕ → ℕ → ℕ
turns_to n at place = if leb at place then place - at else place + n - at

-- The symbol has its health, and is not in its pause.
abbrev pub MayTick : ℕ → String → Dict SymbolHealth → Type 0
MayTick now s health = (h : SymbolHealth) × (get s health ≡ some h) × (in_cooldown now h ≡ false)

ltb-false : (a b : ℕ) → ltb a b ≡ false → b ≤ a
ltb-false a b h = ground arith

mod_self' : (k n : ℕ) → k ≡ n → k % n ≡ 0
mod_self' k n h = rw h (grind arith)

mod-advance :
    (r n : ℕ) → r < n → (((r + 1) % n ≡ r + 1) × (r + 1 < n)) ⊎ (((r + 1) % n ≡ 0) × (r + 1 ≡ n))
mod-advance r n h = elim (Bool-cases (ltb (r + 1) n)) [
  | inl more ↦ inl (grind (arith, more), ground (arith, more))
  | inr last ↦ inr (
    mod_self' (r + 1) n (omega (arith, ltb-false (r + 1) n last)),
    omega (arith, ltb-false (r + 1) n last),
  )
]

closer : (n r j : ℕ) → r < n → j < n → r ≢ j → suc (turns_to n ((r + 1) % n) j) ≡ turns_to n r j
closer n r j hr hj ne = ground (arith, mod-advance r n hr)

turns_to-lt : (n r j : ℕ) → r < n → j < n → turns_to n r j < n
turns_to-lt n r j h k = ground arith

get_elem?-some :
    {A : Type 0} (xs : List A) (i : ℕ) → i < length xs → (x : A) × (get_elem? xs i ≡ some x)
get_elem?-some [] i h = absurd (omega arith)
get_elem?-some (x ∷ xs) zero h = (x, refl)
get_elem?-some (x ∷ xs) (suc i) h = get_elem?-some xs i (omega arith)

lt_of_get_elem? :
    {A : Type 0} (xs : List A) (i : ℕ) (x : A) → get_elem? xs i ≡ some x → i < length xs
lt_of_get_elem? [] i x h = absurd (ground (arith, h))
lt_of_get_elem? (y ∷ xs) zero x h = omega arith
lt_of_get_elem? (y ∷ xs) (suc i) x h = omega (arith, lt_of_get_elem? xs i x h)

module _ {O W : Type 0} (t : Ticker O W) where
  -- One call, for a symbol that may tick and stands at the place `j`.
  pub record Turned (m : MultiSymbolOrchestrator O) (s : String) (j : ℕ)
      (r : MultiSymbolOrchestrator O × W × Served) : Type 0 where
    pub same_symbols : r.0.symbols ≡ m.symbols
    pub in_range : r.0.rr_index < length m.symbols
    pub has : Has s m.orchestrators → Has s r.0.orchestrators
    pub nearer :
        Has s m.orchestrators
        → Serves r.2 s
          ⊎ (turns_to (length m.symbols) r.0.rr_index j < turns_to (length m.symbols) m.rr_index j)

  advance-in_range :
      (m : MultiSymbolOrchestrator O)
      → m.rr_index < length m.symbols
      → (advance m).rr_index < length m.symbols
  advance-in_range m h = ground (arith, mod-advance m.rr_index (length m.symbols) h)

  served_now :
      (now later : ℕ) (s : String) (j : ℕ) (h : SymbolHealth) (m : MultiSymbolOrchestrator O)
      (w : W)
      → m.rr_index < length m.symbols
      → Turned m s j (serve t now later s h (advance m) w)
  served_now now later s j h m w lt =
      let k = serve-Keeps t now later s h (advance m) w in
      record {
        same_symbols = k.0.same_symbols;
        in_range = subst (λ i. i < length m.symbols) (sym k.0.at) (advance-in_range m lt);
        has = k.0.has s;
        nearer = λ p. inl (k.1 p);
      }

  served_other :
      (now later : ℕ) (s s' : String) (j : ℕ) (h : SymbolHealth) (m : MultiSymbolOrchestrator O)
      (w : W)
      → m.rr_index < length m.symbols
      → j < length m.symbols
      → m.rr_index ≢ j
      → Turned m s j (serve t now later s' h (advance m) w)
  served_other now later s s' j h m w lt lt' ne =
      let k = serve-Keeps t now later s' h (advance m) w in
      record {
        same_symbols = k.0.same_symbols;
        in_range = subst (λ i. i < length m.symbols) (sym k.0.at) (advance-in_range m lt);
        has = k.0.has s;
        nearer = λ p. inr (
            subst (λ i. turns_to (length m.symbols) i j < turns_to (length m.symbols) m.rr_index j)
              (sym k.0.at) (omega (arith, closer (length m.symbols) m.rr_index j lt lt' ne)));
      }

  take_turns-Turned :
      (turns now later : ℕ) (s : String) (j : ℕ) (m : MultiSymbolOrchestrator O) (w : W)
      → m.rr_index < length m.symbols
      → get_elem? m.symbols j ≡ some s
      → MayTick now s m.health
      → turns_to (length m.symbols) m.rr_index j < turns
      → Turned m s j (take_turns t turns now later m w)
  unfolding take_turns
  take_turns-Turned zero now later s j m w lt e may far = absurd (omega (arith, far))
  take_turns-Turned (suc turns) now later s j m w lt e may far =
      let lt' = lt_of_get_elem? m.symbols j s e in
      let here = get_elem?-some m.symbols m.rr_index lt in
      elim (Bool-cases (m.rr_index == j)) [
        | inl same ↦
            let at : get_elem? m.symbols m.rr_index ≡ some s =
              ap (get_elem? m.symbols) ((==_iff m.rr_index j).0 same) ∙ e in
            rw (take_turns, at, may.1, may.2) (served_now now later s j may.0 m w lt)
        | inr different ↦
            let ne : m.rr_index ≢ j = λ q. ground (arith, q, different) in
            elim (Option-cases (get here.0 m.health)) [
              | inl n ↦
                  rw (take_turns, here.1, n)
                    (record {
                      same_symbols = refl;
                      in_range = advance-in_range m lt;
                      has = λ p. p;
                      nearer = λ p.
                          inr (omega (arith, closer (length m.symbols) m.rr_index j lt lt' ne));
                    })
              | inr h ↦ elim (Bool-cases (in_cooldown now h.0)) [
                | inl pauses ↦
                    let near = closer (length m.symbols) m.rr_index j lt lt' ne in
                    let r =
                      take_turns-Turned turns now later s j (advance m) w (advance-in_range m lt) e
                        may (omega (arith, near, far)) in
                    rw (take_turns, here.1, h.1, pauses)
                      (record {
                        same_symbols = r.same_symbols;
                        in_range = r.in_range;
                        has = r.has;
                        nearer = λ p. elim (r.nearer p) [
                          | inl y ↦ inl y
                          | inr l ↦ inr (omega (arith, l, near))
                        ];
                      })
                | inr free ↦
                    rw (take_turns, here.1, h.1, free)
                      (served_other now later s here.0 j h.0 m w lt lt' ne)
              ]
            ]
      ]

  tick_symbols-Turned :
      (now later : ℕ) (s : String) (j : ℕ) (m : MultiSymbolOrchestrator O) (w : W)
      → m.rr_index < length m.symbols
      → get_elem? m.symbols j ≡ some s
      → MayTick now s m.health
      → Turned m s j (tick_symbols t now later m w)
  unfolding tick_symbols
  tick_symbols-Turned now later s j m w lt e may =
      take_turns-Turned (length m.symbols) now later s j m w lt e may
        (turns_to-lt (length m.symbols) m.rr_index j lt (lt_of_get_elem? m.symbols j s e))

  -- A series of calls, each at two instants, at all of which the symbol may tick.
  abbrev pub MayAlwaysTick : String → List (ℕ × ℕ) → MultiSymbolOrchestrator O → W → Type 0
  MayAlwaysTick s [] m w = Unit
  MayAlwaysTick s (at ∷ ats) m w =
      let r = tick_symbols t at.0 at.1 m w in MayTick at.0 s m.health × MayAlwaysTick s ats r.0 r.1

  -- One of the calls lets the symbol tick.
  abbrev pub IsServed : String → List (ℕ × ℕ) → MultiSymbolOrchestrator O → W → Type 0
  IsServed s [] m w = ⊥
  IsServed s (at ∷ ats) m w =
      let r = tick_symbols t at.0 at.1 m w in Serves r.2 s ⊎ IsServed s ats r.0 r.1

  IsServed-within :
      (s : String) (j : ℕ) (ats : List (ℕ × ℕ)) (m : MultiSymbolOrchestrator O) (w : W)
      → m.rr_index < length m.symbols
      → get_elem? m.symbols j ≡ some s
      → Has s m.orchestrators
      → MayAlwaysTick s ats m w
      → turns_to (length m.symbols) m.rr_index j < length ats
      → IsServed s ats m w
  IsServed-within s j [] m w lt e p may near = absurd (omega (arith, near))
  IsServed-within s j (at ∷ ats) m w lt e p may near =
      let r = tick_symbols t at.0 at.1 m w in
      let k = tick_symbols-Turned at.0 at.1 s j m w lt e may.0 in
      let same = ap (length {A = String}) k.same_symbols in
      elim (k.nearer p) [
        | inl now ↦ inl now
        | inr nearer ↦ inr (
            IsServed-within s j ats r.0 r.1 (subst (λ n. r.0.rr_index < n) (sym same) k.in_range)
              (subst (λ l. get_elem? l j ≡ some s) (sym k.same_symbols) e) (k.has p) may.1
              (subst (λ n. turns_to n r.0.rr_index j < length ats) (sym same)
                (omega (arith, nearer, near))))
      ]

  -- A symbol of the list that has an orchestrator, and that is not in its pause at any of them, gets
  -- to tick in one of any series of calls that is as long as the list: however the other symbols fare,
  -- whether their ticks return, raise, or are skipped.
  pub symbol-IsServed :
      (s : String) (j : ℕ) (ats : List (ℕ × ℕ)) (m : MultiSymbolOrchestrator O) (w : W)
      → m.rr_index < length m.symbols
      → get_elem? m.symbols j ≡ some s
      → Has s m.orchestrators
      → MayAlwaysTick s ats m w
      → length m.symbols ≤ length ats
      → IsServed s ats m w
  symbol-IsServed s j ats m w lt e p may enough =
      let near = turns_to-lt (length m.symbols) m.rr_index j lt (lt_of_get_elem? m.symbols j s e) in
      IsServed-within s j ats m w lt e p may (omega (arith, near, enough))
