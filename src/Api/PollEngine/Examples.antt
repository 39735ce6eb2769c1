-- ===== src/Api/PollEngine/Examples.antt =====
-- The theorems on the market engine at work on concrete histories.
use agente_tradin_ia_v2_mult.Common.{
  ℕ, ◌+◌, ◌≤◌, false, none, some, List, [], ◌∷◌, ◌++◌, ◌≡◌, refl, arith,
}
use agente_tradin_ia_v2_mult.Api.PollEngine.{
  PollSettings, Event, starts, times_out, raises, succeeds, checks, saudavel, parado,
  engine_unhealthy, step, run, boot,
}
use agente_tradin_ia_v2_mult.Api.PollEngine.Coherence.{
  engine_healthy_proof, run-IsCoherent, boot-IsCoherent,
}
use agente_tradin_ia_v2_mult.Api.PollEngine.Recovery.{recovery}

-- The configuration's defaults.
abbrev defaults : PollSettings
defaults = record {
  backoff_initial = 5_000_000;
  backoff_max = 60_000_000;
  healthy_ticks_to_recover = 3;
  heartbeat_max_age = 60_000_000;
}

-- A tick that returns.
abbrev first_tick : List Event
first_tick = starts 1_000_000 ∷ succeeds false 2_000_000 ∷ []

-- A tick that raises after one that returned, and a heartbeat that expires in the pause.
abbrev incident : List Event
incident =
    first_tick ++ (starts 7_000_000 ∷ raises "ValueError: x" 8_000_000 ∷ checks 70_000_000 ∷ [])

engine_healthy_proof_example :
    let e = run defaults (boot defaults) first_tick in
    (t : ℕ) × (e.health.poll_last_success_at ≡ some t)
    × (50_000_000 ≤ t + 60_000_000)
    × (e.health.poll_last_error ≡ none)
    × (e.engine_degraded ≡ false)
unfolding run boot engine_unhealthy
engine_healthy_proof_example = engine_healthy_proof defaults first_tick 50_000_000 refl

incident_stops : (run defaults (boot defaults) incident).health.status ≡ parado
unfolding run boot
incident_stops = refl

abbrev two_good_ticks : List Event
two_good_ticks =
    starts 71_000_000
    ∷ succeeds false 72_000_000
    ∷ checks 80_000_000
    ∷ starts 81_000_000
    ∷ succeeds false 82_000_000
    ∷ starts 83_000_000
    ∷ []

-- Three ticks in a row end the incident.
recovery_example :
    let e =
      step defaults
        (run defaults (run defaults (boot defaults) incident) two_good_ticks)
        (succeeds false 84_000_000) in
    (e.health.status ≡ saudavel) × (e.engine_degraded ≡ false) × (e.health.poll_last_error ≡ none)
unfolding run boot
recovery_example =
    recovery defaults (run defaults (boot defaults) incident) two_good_ticks 84_000_000
      (run-IsCoherent defaults (boot defaults) incident (boot-IsCoherent defaults)) refl
      (tt, (refl, (tt, (tt, (refl, (tt, tt)))))) (omega arith) (omega arith)

abbrev three_failures : List Event
three_failures =
    starts 3_000_000
    ∷ times_out
    ∷ times_out
    ∷ raises "KeyError: y" 9_000_000
    ∷ checks 9_000_000
    ∷ []
