-- ===== src/Api/PollEngine/Recovery.antt =====
-- A market engine that works again is found healthy again.
use agente_tradin_ia_v2_mult.Common.{ℕ, ◌+◌, ◌≤◌, false, none, List, [], ◌∷◌, ◌≡◌, ap, ◌∙◌, arith}
use agente_tradin_ia_v2_mult.Api.PollEngine.{
  PollSettings, PollEngine, Event, starts, times_out, raises, succeeds, checks, worker_starts,
  worker_dies, shuts_down, saudavel, handle, step, run,
}
use agente_tradin_ia_v2_mult.Api.PollEngine.Coherence.{IsCoherent, step_running, run-IsCoherent}

-- Nothing goes wrong with a tick or the worker; the heartbeat may still be found expired.
abbrev pub IsCalm : Event → Type 0
IsCalm (starts _) = Unit
IsCalm (succeeds no_data _) = no_data ≡ false
IsCalm (checks _) = Unit
IsCalm _ = ⊥

abbrev pub AreCalm : List Event → Type 0
AreCalm [] = Unit
AreCalm (event ∷ events) = IsCalm event × AreCalm events

abbrev pub successes : List Event → ℕ
successes [] = 0
successes (succeeds _ _ ∷ events) = successes events + 1
successes (_ ∷ events) = successes events

handle-calm :
    (s : PollSettings) (e : PollEngine) (event : Event)
    → IsCalm event
    → ((handle s e event).stopped ≡ e.stopped)
      × ((handle s e event).worker.consecutive_healthy
          ≡ e.worker.consecutive_healthy + successes (event ∷ []))
unfolding handle
handle-calm s e (starts now) h = ground arith
handle-calm s e (succeeds no_data now) h = ground arith
handle-calm s e (checks now) h = ground arith
handle-calm s e times_out h = absurd h
handle-calm s e (raises t now) h = absurd h
handle-calm s e (worker_starts now) h = absurd h
handle-calm s e worker_dies h = absurd h
handle-calm s e shuts_down h = absurd h

successes-cons :
    (event : Event) (events : List Event) (n : ℕ)
    → n + successes (event ∷ []) + successes events ≡ n + successes (event ∷ events)
successes-cons (starts now) events n = omega arith
successes-cons (succeeds no_data now) events n = omega arith
successes-cons (checks now) events n = omega arith
successes-cons times_out events n = omega arith
successes-cons (raises t now) events n = omega arith
successes-cons (worker_starts now) events n = omega arith
successes-cons worker_dies events n = omega arith
successes-cons shuts_down events n = omega arith

run-calm :
    (s : PollSettings) (e : PollEngine) (events : List Event)
    → AreCalm events
    → e.stopped ≡ false
    → ((run s e events).stopped ≡ false)
      × ((run s e events).worker.consecutive_healthy
          ≡ e.worker.consecutive_healthy + successes events)
unfolding run
run-calm s e [] h going = (going, omega arith)
run-calm s e (event ∷ events) h going =
    let one = handle-calm s e event h.0 in
    let e' = step_running s e event going in
    let rest =
      run-calm s (step s e event) events h.1
        (ap (λ (x : PollEngine). x.stopped) e' ∙ one.0 ∙ going) in
    (
      rest.0,
      rest.1
          ∙ ap (λ (x : PollEngine). x.worker.consecutive_healthy + successes events) e'
          ∙ ap (λ n. n + successes events) one.1
          ∙ successes-cons event events e.worker.consecutive_healthy,
    )

handle-recovers :
    (s : PollSettings) (e : PollEngine) (now : ℕ)
    → IsCoherent e
    → 1 ≤ s.healthy_ticks_to_recover
    → s.healthy_ticks_to_recover ≤ e.worker.consecutive_healthy + 1
    → let e' = handle s e (succeeds false now) in
      (e'.health.status ≡ saudavel)
      × (e'.engine_degraded ≡ false)
      × (e'.health.poll_last_error ≡ none)
unfolding handle
handle-recovers s e now inv k h = ground (arith, inv.proven)

-- From any state of the engine that a history leads to, however broken: if from then on the worker
-- is not started again and every tick returns, then as many ticks as the configuration asks for
-- (one more than the events hold successes, at most) make the engine healthy with the last of them,
-- take the mark of degradation off the orchestrator and clear the error; whatever the supervisor
-- finds of the heartbeat in between.
pub recovery :
    (s : PollSettings) (e : PollEngine) (events : List Event) (now : ℕ)
    → IsCoherent e
    → e.stopped ≡ false
    → AreCalm events
    → 1 ≤ s.healthy_ticks_to_recover
    → s.healthy_ticks_to_recover ≤ successes events + 1
    → let e' = step s (run s e events) (succeeds false now) in
      (e'.health.status ≡ saudavel)
      × (e'.engine_degraded ≡ false)
      × (e'.health.poll_last_error ≡ none)
recovery s e events now inv going h k enough =
    let r = run-calm s e events h going in
    rw (step_running s (run s e events) (succeeds false now) r.0) (
      handle-recovers s (run s e events) now (run-IsCoherent s e events inv) k (omega (arith, r.1)))
