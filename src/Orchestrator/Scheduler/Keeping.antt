-- ===== src/Orchestrator/Scheduler/Keeping.antt =====
-- What the turn of one symbol leaves as it was.
use agente_tradin_ia_v2_mult.Common.{
  ℕ, String, Option, none, some, [], ◌∷◌, ◌≡◌, refl, ◌∙◌, arith, inl, inr, Bool-cases, Option-cases,
  str_eq,
}
use agente_tradin_ia_v2_mult.Execution.Reconciliation.{Dict, get, set}
use agente_tradin_ia_v2_mult.Orchestrator.Results.{TickResult}
use agente_tradin_ia_v2_mult.Orchestrator.Health.{SymbolHealth}
use agente_tradin_ia_v2_mult.Orchestrator.Scheduler.{
  map_values, sync_engine_degraded, conclude_tick, Ticker, MultiSymbolOrchestrator, Served, ticked,
  failed, serve,
}

-- The symbol that a call lets tick, whether its tick returns or raises.
abbrev pub Serves : Served → String → Type 0
Serves (ticked symbol _) s = symbol ≡ s
Serves (failed symbol) s = symbol ≡ s
Serves _ s = ⊥

-- A dictionary has a key.
abbrev pub Has : {V : Type 0} → String → Dict V → Type 0
Has {V} s d = (v : V) × (get s d ≡ some v)

Has-set : {V : Type 0} (j k : String) (v : V) (d : Dict V) → Has j d → Has j (set k v d)
Has-set j k v [] h = absurd (ground (arith, h.1))
Has-set j k v (item ∷ d) h = elim (Bool-cases (str_eq k item.0)) [
  | inl e ↦ elim (Bool-cases (str_eq j item.0)) [
    | inl e' ↦ (v, ground (arith, e, e'))
    | inr n' ↦ (h.0, ground (arith, e, n', h.1))
  ]
  | inr n ↦ elim (Bool-cases (str_eq j item.0)) [
    | inl e' ↦ (item.1, ground (arith, n, e'))
    | inr n' ↦
        let r = Has-set j k v d (h.0, ground (arith, n', h.1)) in (r.0, ground (arith, n, n', r.1))
  ]
]

Has-map_values :
    {A B : Type 0} (g : A → B) (s : String) (d : Dict A) → Has s d → Has s (map_values g d)
Has-map_values g s [] h = absurd (ground (arith, h.1))
Has-map_values g s (item ∷ d) h = elim (Bool-cases (str_eq s item.0)) [
  | inl e ↦ (g item.1, ground (arith, e))
  | inr n ↦
      let r = Has-map_values g s d (h.0, ground (arith, n, h.1)) in (r.0, ground (arith, n, r.1))
]

-- What a call leaves as it was, and that every orchestrator is still there.
pub record Keeps {O : Type 0} (m m' : MultiSymbolOrchestrator O) : Type 0 where
  pub at : m'.rr_index ≡ m.rr_index
  pub same_symbols : m'.symbols ≡ m.symbols
  pub has : (s : String) → Has s m.orchestrators → Has s m'.orchestrators

module _ {O W : Type 0} (t : Ticker O W) where
  conclude_tick-Keeps :
      (later : ℕ) (s : String) (h : SymbolHealth) (m : MultiSymbolOrchestrator O)
      (x : O × W × Option TickResult)
      → Keeps m (conclude_tick t later s h m x).0 × Serves (conclude_tick t later s h m x).2 s
  unfolding conclude_tick
  conclude_tick-Keeps later s h m (o, w, none) =
      (record { at = refl; same_symbols = refl; has = λ k. Has-set k s o m.orchestrators }, refl)
  conclude_tick-Keeps later s h m (o, w, some r) =
      (record { at = refl; same_symbols = refl; has = λ k. Has-set k s o m.orchestrators }, refl)

  sync-Keeps : (m : MultiSymbolOrchestrator O) → Keeps m (sync_engine_degraded t m)
  unfolding sync_engine_degraded
  sync-Keeps m = record {
    at = refl;
    same_symbols = refl;
    has = λ s. Has-map_values (t.set_degraded _) s m.orchestrators;
  }

  Keeps-trans : (a b c : MultiSymbolOrchestrator O) → Keeps a b → Keeps b c → Keeps a c
  Keeps-trans a b c p q = record {
    at = q.at ∙ p.at;
    same_symbols = q.same_symbols ∙ p.same_symbols;
    has = λ s h. q.has s (p.has s h);
  }

  pub serve-Keeps :
      (now later : ℕ) (s : String) (h : SymbolHealth) (m : MultiSymbolOrchestrator O) (w : W)
      → Keeps m (serve t now later s h m w).0
        × (Has s m.orchestrators → Serves (serve t now later s h m w).2 s)
  unfolding serve
  serve-Keeps now later s h m w =
      let h' = record h { last_tick_started_at = some now } in
      let m' : MultiSymbolOrchestrator O = record (sync_engine_degraded t m) {
        health = set s h' m.health;
      } in
      let k = sync-Keeps m in
      let k' : Keeps m m' = record { at = k.at; same_symbols = k.same_symbols; has = k.has } in
      elim (Option-cases (get s m'.orchestrators)) [
        | inl n ↦ rw (n, serve) (k', λ p. absurd (ground (arith, n, (k.has s p).1)))
        | inr o ↦
            let c = conclude_tick-Keeps later s h' m' (t.tick o.0 w) in
            rw (o.1, serve) (Keeps-trans m m' _ k' c.0, λ p. c.1)
      ]
