-- ===== src/Api/PollEngine/Coherence.antt =====
-- What the health of the poll engine says in every history.
use agente_tradin_ia_v2_mult.Common.{
  ℕ, ◌+◌, ◌≤◌, true, false, none, some, List, [], ◌∷◌, ◌≡◌, ◌≢◌, sym, subst, arith, Bool-cases,
  Option-cases, inl, inr,
}
use agente_tradin_ia_v2_mult.Api.PollEngine.{
  PollSettings, PollEngine, Event, starts, times_out, raises, succeeds, checks, worker_starts,
  worker_dies, shuts_down, saudavel, iniciando, is_broken, engine_unhealthy, handle, step, run,
  boot,
}

pub record IsCoherent (e : PollEngine) : Type 0 where
  pub flagged : e.stopped ≡ false → e.engine_degraded ≡ is_broken e.health.status
  pub proven :
      e.health.status ≡ saudavel
      → (e.engine_degraded ≡ false)
        × (e.health.poll_last_error ≡ none)
        × (e.health.poll_last_success_at ≢ none)
  pub untouched : e.health.status ≡ iniciando → e.health.poll_last_error ≡ none

handle-IsCoherent :
    (s : PollSettings) (e : PollEngine) (event : Event)
    → e.stopped ≡ false
    → IsCoherent e
    → IsCoherent (handle s e event)
unfolding handle
handle-IsCoherent s e (starts now) h inv = ground arith
handle-IsCoherent s e times_out h inv = ground arith
handle-IsCoherent s e (raises t now) h inv = ground arith
handle-IsCoherent s e (succeeds no_data now) h inv = ground arith
handle-IsCoherent s e (checks now) h inv = ground arith
handle-IsCoherent s e (worker_starts now) h inv = ground arith
handle-IsCoherent s e worker_dies h inv = ground arith
handle-IsCoherent s e shuts_down h inv = ground arith

step_stopped :
    (s : PollSettings) (e : PollEngine) (event : Event) → e.stopped ≡ true → step s e event ≡ e
unfolding step
step_stopped s e event h = ground arith

pub step_running :
    (s : PollSettings) (e : PollEngine) (event : Event)
    → e.stopped ≡ false
    → step s e event ≡ handle s e event
unfolding step
step_running s e event h = ground arith

step-IsCoherent :
    (s : PollSettings) (e : PollEngine) (event : Event) → IsCoherent e → IsCoherent (step s e event)
step-IsCoherent s e event inv = elim (Bool-cases e.stopped) [
  | inl ended ↦ subst IsCoherent (sym (step_stopped s e event ended)) inv
  | inr going ↦
      subst IsCoherent (sym (step_running s e event going)) (handle-IsCoherent s e event going inv)
]

pub run-IsCoherent :
    (s : PollSettings) (e : PollEngine) (events : List Event)
    → IsCoherent e
    → IsCoherent (run s e events)
unfolding run
run-IsCoherent s e [] inv = inv
run-IsCoherent s e (event ∷ events) inv =
    run-IsCoherent s (step s e event) events (step-IsCoherent s e event inv)

pub boot-IsCoherent : (s : PollSettings) → IsCoherent (boot s)
unfolding boot
boot-IsCoherent s = ground arith

-- After any history of events, the gate on new entries lets pass only an engine of which all this is
-- true: a tick has succeeded, the last that did lies no further back than the heartbeat's age, no
-- error is shown, and the orchestrator is not marked as degraded.
pub engine_healthy_proof :
    (s : PollSettings) (events : List Event) (now : ℕ)
    → let e = run s (boot s) events in
      engine_unhealthy e.health s.heartbeat_max_age now ≡ false
      → (t : ℕ) × (e.health.poll_last_success_at ≡ some t)
        × (now ≤ t + s.heartbeat_max_age)
        × (e.health.poll_last_error ≡ none)
        × (e.engine_degraded ≡ false)
unfolding engine_unhealthy
engine_healthy_proof s events now h =
    let e = run s (boot s) events in
    let inv = run-IsCoherent s (boot s) events (boot-IsCoherent s) in
    elim (Option-cases e.health.poll_last_success_at) [
      | inl n ↦ absurd (ground (arith, n, h, inv.proven))
      | inr t ↦ (
        t.0,
        t.1,
        ground (arith, t.1, h),
        ground (arith, h, inv.proven),
        ground (arith, h, inv.proven),
      )
    ]

-- After any history, while neither loop has ended, the orchestrator is marked as degraded exactly if
-- the status is DEGRADADO or PARADO. So it is not while the engine starts.
pub degraded_iff :
    (s : PollSettings) (events : List Event)
    → let e = run s (boot s) events in
      e.stopped ≡ false → e.engine_degraded ≡ is_broken e.health.status
degraded_iff s events = (run-IsCoherent s (boot s) events (boot-IsCoherent s)).flagged
