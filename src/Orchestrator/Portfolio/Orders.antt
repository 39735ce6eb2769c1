-- ===== src/Orchestrator/Portfolio/Orders.antt =====
-- However the symbols take turns, their committed ticks submit no key twice.
use agente_tradin_ia_v2_mult.Common.{
  ℕ, zero, suc, String, Bool, true, false, Option, none, some, List, [], ◌∷◌, ◌≡◌, refl, sym, subst,
  length, get_elem?, if◌then◌else◌,
}
use agente_tradin_ia_v2_mult.Float.{Float}
use agente_tradin_ia_v2_mult.Execution.Reconciliation.{get}
use agente_tradin_ia_v2_mult.Orchestrator.Results.{TickResult}
use agente_tradin_ia_v2_mult.Orchestrator.Health.{SymbolHealth}
use agente_tradin_ia_v2_mult.Orchestrator.Desk.{Attempt, returned, raised, Desk}
use agente_tradin_ia_v2_mult.Orchestrator.Scheduler.{
  Ticker, MultiSymbolOrchestrator, Served, in_cooldown, advance, conclude_tick, serve, take_turns,
  tick_symbols,
}
use agente_tradin_ia_v2_mult.Orchestrator.Tick.{Inputs, Trader, tick}
use agente_tradin_ia_v2_mult.Orchestrator.Tick.Steps.{
  Steps, stay, onward, ticks, IsOnce, Steps-IsOnce,
}
use agente_tradin_ia_v2_mult.Orchestrator.Portfolio.{Member, conclude_member, members, run_calls}

of_either_option :
    {A B : Type 0} (P : B → Type 0) (o : Option A) (n : B) (s : A → B)
    → P n
    → ((a : A) → P (s a))
    → P (elim o [ none ↦ n | some a ↦ s a ])
of_either_option P none n s p q = p
of_either_option P (some a) n s p q = q a

of_if : {B : Type 0} (P : B → Type 0) (b : Bool) (m n : B) → P m → P n → P (if b then m else n)
of_if P true m n p q = p
of_if P false m n p q = q

-- What every tick of a symbol keeps of the world, the scheduler keeps.
module _ {O W : Type 0} (t : Ticker O W) (P : W → Type 0)
    (keeps : (o : O) (w : W) → P w → P (t.tick o w).1) where
  abbrev Kept : MultiSymbolOrchestrator O × W × Served → Type 0
  Kept r = P r.1

  conclude_tick-world :
      (later : ℕ) (symbol : String) (h : SymbolHealth) (m : MultiSymbolOrchestrator O)
      (r : O × W × Option TickResult)
      → P r.1
      → P (conclude_tick t later symbol h m r).1
  unfolding conclude_tick
  conclude_tick-world later symbol h m (o, w, none) p = p
  conclude_tick-world later symbol h m (o, w, some r) p = p

  serve-world :
      (now later : ℕ) (symbol : String) (h : SymbolHealth) (m : MultiSymbolOrchestrator O) (w : W)
      → P w
      → P (serve t now later symbol h m w).1
  unfolding serve
  serve-world now later symbol h m w p =
      of_either_option Kept _ _ _ p
        (λ o. conclude_tick-world later symbol _ _ (t.tick o w) (keeps o w p))

  take_turns-world :
      (turns now later : ℕ) (m : MultiSymbolOrchestrator O) (w : W)
      → P w
      → P (take_turns t turns now later m w).1
  unfolding take_turns
  take_turns-world zero now later m w p = p
  take_turns-world (suc turns) now later m w p =
      of_either_option Kept (get_elem? m.symbols m.rr_index) _ _ p (λ symbol.
        of_either_option Kept (get symbol m.health) _ _ p (λ h.
          of_if Kept (in_cooldown now h) _ _ (take_turns-world turns now later (advance m) w p)
            (serve-world now later symbol h (advance m) w p)))

module _ {F : Type 0} ⦃f : Float F⦄ where
  conclude_member-Steps :
      (m : Member F) (d e : Desk F) (i : Inputs F) (t : Trader F)
      (r : Attempt (Trader F × TickResult))
      → t.desk ≡ e
      → tick i t ≡ r
      → Steps d e
      → Steps d (conclude_member m e r).1
  unfolding conclude_member
  conclude_member-Steps m d e i t raised same h past = past
  conclude_member-Steps m d e i t (returned r) same h past =
      onward (subst (Steps d) (sym same) past) (ticks i t r.0 r.1 h)

  members-Steps :
      (d : Desk F) (m : Member F) (e : Desk F) → Steps d e → Steps d (members.tick m e).1
  unfolding members
  members-Steps d m e past =
      conclude_member-Steps m d e (m.inputs_of m.ticks_made) (record m.trader { desk = e }) _ refl
        refl past

  run_calls-Steps :
      (calls : List (ℕ × ℕ)) (m : MultiSymbolOrchestrator (Member F)) (d e : Desk F)
      → Steps d e
      → Steps d (run_calls calls m e).1
  unfolding run_calls tick_symbols
  run_calls-Steps [] m d e past = past
  run_calls-Steps (at ∷ calls) m d e past =
      run_calls-Steps calls _ d _
        (take_turns-world members (Steps d) (members-Steps d) (length m.symbols) at.0 at.1 m e past)

  -- Several symbols that share the tables and the exchange take turns, for any number of calls and with
  -- whatever inputs. If no key was submitted more than once, and none that no saved order has, by the
  -- ticks that were committed before, that stays so, over the committed ticks of all symbols together.
  -- What a tick submits that raises afterwards is not counted: the exchange keeps it, while the
  -- transaction takes back its key, so nothing is said of it.
  pub run_calls-IsOnce :
      (calls : List (ℕ × ℕ)) (m : MultiSymbolOrchestrator (Member F)) (d : Desk F)
      → IsOnce d
      → IsOnce (run_calls calls m d).1
  run_calls-IsOnce calls m d once = Steps-IsOnce d _ (run_calls-Steps calls m d d stay) once
