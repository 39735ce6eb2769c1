-- ===== src/Api/PollEngine.antt =====
-- app/api/poll_engine.py: the worker that runs one tick after the other, and the supervisor that
-- watches its heartbeat and starts it again. The two take turns at their `await`s, so a history is
-- a sequence of events, each of which runs from one `await` to the next at one instant. Instants
-- and durations are microseconds. The log and the texts of incidents are left out, and so is the
-- check of the heartbeat that the supervisor makes once more after the end of a replay.
pub mod Coherence
pub mod Recovery
pub mod Examples
use agente_tradin_ia_v2_mult.Common.{
  ℕ, ◌+◌, ◌*◌, ◌≤◌, String, Bool, true, false, not, ◌&&◌, Option, none, some, List, [], ◌∷◌, ◌++◌,
  foldl, ltb, if◌then◌else◌,
}

pub data PollEngineStatus : Type 0 where
  iniciando saudavel degradado parado encerrando : PollEngineStatus

-- `poll_last_error`: a tick that still runs, or the sanitized text of an exception.
pub data PollError : Type 0 where
  still_running : PollError
  raised : String → PollError

pub record PollHealth : Type 0 where
  pub status : PollEngineStatus
  pub poll_last_started_at : Option ℕ
  pub poll_last_completed_at : Option ℕ
  pub poll_last_success_at : Option ℕ
  pub poll_consecutive_failures : ℕ
  pub poll_last_error : Option PollError
  pub restart_count : ℕ
  pub heartbeat_alert_active : Bool
  pub timeout_alert_active : Bool

-- The incidents and recoveries that are recorded.
pub data Incident : Type 0 where
  tick_failed task_died heartbeat_expired recovered : Incident

pub record PollSettings : Type 0 where
  pub backoff_initial : ℕ
  pub backoff_max : ℕ
  pub healthy_ticks_to_recover : ℕ
  pub heartbeat_max_age : ℕ

-- The variables of `poll_worker`; `pending` tells whether `pending_future` is there.
pub record Worker : Type 0 where
  pub backoff : ℕ
  pub consecutive_healthy : ℕ
  pub pending : Bool

-- `engine_degraded` is the orchestrator's; `stopped` is the end of both loops.
pub record PollEngine : Type 0 where
  pub health : PollHealth
  pub engine_degraded : Bool
  pub worker : Worker
  pub supervisor_backoff : ℕ
  pub incidents : List Incident
  pub replay_done : Bool
  pub stopped : Bool

abbrev pub is_saudavel : PollEngineStatus → Bool
is_saudavel saudavel = true
is_saudavel _ = false

-- `status in (DEGRADADO, PARADO)`
abbrev pub is_broken : PollEngineStatus → Bool
is_broken degradado = true
is_broken parado = true
is_broken _ = false

-- `a or b`, on optional instants.
abbrev pub or_else : Option ℕ → Option ℕ → Option ℕ
or_else none b = b
or_else (some a) b = some a

-- `(now - reference).total_seconds() > max_age_seconds`
abbrev pub older_than : ℕ → ℕ → Option ℕ → Bool
older_than max_age now none = false
older_than max_age now (some t) = ltb (t + max_age) now

unfoldable pub is_heartbeat_expired : PollHealth → ℕ → ℕ → Bool
is_heartbeat_expired h max_age now =
    older_than max_age now (or_else h.poll_last_success_at h.poll_last_started_at)

unfoldable pub engine_unhealthy : PollHealth → ℕ → ℕ → Bool
unfolding is_heartbeat_expired
engine_unhealthy h max_age now =
    if not (is_saudavel h.status) then true else is_heartbeat_expired h max_age now

-- `min(backoff * 2, poll_backoff_max_seconds)`
abbrev pub at_most : ℕ → ℕ → ℕ
at_most limit n = if ltb limit n then limit else n

abbrev pub next_backoff : PollSettings → ℕ → ℕ
next_backoff s backoff = at_most s.backoff_max (backoff * 2)

-- How long the worker, or the supervisor, sleeps after a failure.
abbrev pub pause_of : PollSettings → ℕ → ℕ
pause_of s backoff = at_most s.backoff_max backoff

-- How many successes in a row make the engine healthy.
abbrev pub required : PollSettings → PollEngineStatus → ℕ
required s iniciando = 1
required s _ = s.healthy_ticks_to_recover

abbrev pub record_if : Bool → Incident → List Incident → List Incident
record_if flag i is = if flag then is ++ (i ∷ []) else is

-- `_maybe_recover`
unfoldable pub maybe_recover : PollSettings → ℕ → PollEngine → PollEngine
maybe_recover s consecutive_healthy e =
    if is_saudavel e.health.status
    then e
    else if ltb consecutive_healthy (required s e.health.status)
    then e
    else record e {
      health = record e.health {
        status = saudavel;
        poll_last_error = none;
        heartbeat_alert_active = false;
        timeout_alert_active = false;
      };
      engine_degraded = false;
      incidents = record_if (is_broken e.health.status) recovered e.incidents;
    }

-- The top of the worker's loop: a tick is submitted only if none is pending.
unfoldable pub start_tick : ℕ → PollEngine → PollEngine
start_tick now e = if e.worker.pending then e else record e {
  health = record e.health { poll_last_started_at = some now };
  worker = record e.worker { pending = true };
}

-- `except asyncio.TimeoutError`: the tick is kept.
unfoldable pub tick_timed_out : PollSettings → PollEngine → PollEngine
tick_timed_out s e = record e {
  health = record e.health {
    status = degradado;
    poll_consecutive_failures = e.health.poll_consecutive_failures + 1;
    poll_last_error = some still_running;
    timeout_alert_active = true;
  };
  engine_degraded = true;
  worker = record e.worker { backoff = next_backoff s e.worker.backoff; consecutive_healthy = 0 };
  incidents = record_if (not e.health.timeout_alert_active) tick_failed e.incidents;
}

-- `except Exception`
unfoldable pub tick_raised : PollSettings → String → ℕ → PollEngine → PollEngine
tick_raised s sanitized now e = record e {
  health = record e.health {
    status = degradado;
    poll_last_completed_at = some now;
    poll_consecutive_failures = e.health.poll_consecutive_failures + 1;
    poll_last_error = some (raised sanitized);
    timeout_alert_active = false;
  };
  engine_degraded = true;
  worker = record e.worker {
    backoff = next_backoff s e.worker.backoff;
    consecutive_healthy = 0;
    pending = false;
  };
  incidents = e.incidents ++ (tick_failed ∷ []);
}

-- The end of a replay (`no_data`) ends the worker, and the supervisor with it.
abbrev pub finish_replay : Bool → PollEngine → PollEngine
finish_replay no_data e =
    if no_data
    then record e {
      health = record e.health { status = parado };
      replay_done = true;
      stopped = true;
    }
    else e

-- What follows a tick that returned.
unfoldable pub tick_succeeded : PollSettings → Bool → ℕ → PollEngine → PollEngine
unfolding maybe_recover
tick_succeeded s no_data now e =
    let n = e.worker.consecutive_healthy + 1 in
    finish_replay no_data (
      maybe_recover s n (record e {
        health = record e.health {
          poll_last_completed_at = some now;
          poll_last_success_at = some now;
          poll_consecutive_failures = 0;
          timeout_alert_active = false;
        };
        worker = record { backoff = s.backoff_initial; consecutive_healthy = n; pending = false };
      }))

-- The body of the supervisor's inner loop.
unfoldable pub check_heartbeat : PollSettings → ℕ → PollEngine → PollEngine
unfolding is_heartbeat_expired
check_heartbeat s now e =
    let expired = is_heartbeat_expired e.health s.heartbeat_max_age now in
    if expired && not e.health.heartbeat_alert_active
    then record e {
      health = record e.health { status = parado; heartbeat_alert_active = true };
      engine_degraded = true;
      incidents = e.incidents ++ (heartbeat_expired ∷ []);
    }
    else if not expired && e.health.heartbeat_alert_active
    then record e { health = record e.health { heartbeat_alert_active = false } }
    else e

-- A worker that starts, and one that ends by an exception.
unfoldable pub start_worker : PollSettings → ℕ → PollEngine → PollEngine
start_worker s now e = record e {
  health = record e.health { poll_last_started_at = some now };
  worker = record { backoff = s.backoff_initial; consecutive_healthy = 0; pending = false };
}

unfoldable pub worker_died : PollSettings → PollEngine → PollEngine
worker_died s e = record e {
  health = record e.health { status = parado; restart_count = e.health.restart_count + 1 };
  engine_degraded = true;
  supervisor_backoff = next_backoff s e.supervisor_backoff;
  incidents = e.incidents ++ (task_died ∷ []);
}

-- The cancellation of the supervisor.
unfoldable pub shut_down : PollEngine → PollEngine
shut_down e = record e { health = record e.health { status = encerrando }; stopped = true }

pub data Event : Type 0 where
  starts : ℕ → Event
  times_out : Event
  raises : String → ℕ → Event
  succeeds : Bool → ℕ → Event
  checks : ℕ → Event
  worker_starts : ℕ → Event
  worker_dies : Event
  shuts_down : Event

unfoldable pub handle : PollSettings → PollEngine → Event → PollEngine
unfolding start_tick tick_timed_out tick_raised tick_succeeded check_heartbeat start_worker
    worker_died shut_down
handle s e (starts now) = start_tick now e
handle s e times_out = tick_timed_out s e
handle s e (raises sanitized now) = tick_raised s sanitized now e
handle s e (succeeds no_data now) = tick_succeeded s no_data now e
handle s e (checks now) = check_heartbeat s now e
handle s e (worker_starts now) = start_worker s now e
handle s e worker_dies = worker_died s e
handle s e shuts_down = shut_down e

-- No event is left where both loops have ended.
unfoldable pub step : PollSettings → PollEngine → Event → PollEngine
unfolding handle
step s e event = if e.stopped then e else handle s e event

unfoldable pub run : PollSettings → PollEngine → List Event → PollEngine
unfolding step
run s = foldl (step s)

-- `PollHealth()`, and what surrounds it at a start.
unfoldable pub boot : PollSettings → PollEngine
boot s = record {
  health = record {
    status = iniciando;
    poll_last_started_at = none;
    poll_last_completed_at = none;
    poll_last_success_at = none;
    poll_consecutive_failures = 0;
    poll_last_error = none;
    restart_count = 0;
    heartbeat_alert_active = false;
    timeout_alert_active = false;
  };
  engine_degraded = false;
  worker = record { backoff = s.backoff_initial; consecutive_healthy = 0; pending = false };
  supervisor_backoff = s.backoff_initial;
  incidents = [];
  replay_done = false;
  stopped = false;
}
