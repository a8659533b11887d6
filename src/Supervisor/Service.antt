-- ===== src/Supervisor/Service.antt =====
-- The shared inference service of CameraSupervisor, and the calls around the reconciliation.
use vehicle_intelligence.Prelude.{
  ℕ, ◌+◌, ◌-◌, max, Str, leb, ltb, if◌then◌else◌, Option, none, some, [], ◌∷◌, Bool, true, false,
  Dict, put, Result, ok, err, camera_worker_error, Done, done,
}
use vehicle_intelligence.Supervisor.{
  CameraHealth, ManagedWorker, CameraSupervisor, SupervisorSettings, World, backoff, write_status,
  stopped,
}
use vehicle_intelligence.Supervisor.Reconcile.{reconcile_workers}

-- What the service meets during one call: the clock when the call begins, after a cleanup, and after
-- a start; which service runs; which stops of workers return; what the launcher starts. That the stop of a service that exited may raise is of no effect.
pub record ServiceWorld (H S : Type 0) : Type 0 where
  pub now : ℕ
  pub after_cleanup : ℕ
  pub after_start : ℕ
  pub wall_clock : ℕ
  pub running : S → Bool
  pub stops : H → Bool
  pub start : Option S

-- for camera_id in self._active: self._restart_after[camera_id] = 0
abbrev pub due_each : {H : Type 0} → Dict (ManagedWorker H) → Dict ℕ → Dict ℕ
due_each [] times = times
due_each ((camera_id, managed) ∷ workers) times = due_each workers (put times camera_id 0)

abbrev pub is_stable : SupervisorSettings → Option ℕ → ℕ → Bool
is_stable settings none now = false
is_stable settings (some started_at) now = leb settings.restart_stability (now - started_at)

module _ {H S M : Type 0} (no_metrics : M) (settings : SupervisorSettings) where
  unfoldable pub new_supervisor : Dict (CameraHealth M) → CameraSupervisor H S M
  new_supervisor health = record {
    active = [];
    restart_after = [];
    failure_counts = [];
    inference_service = none;
    inference_started_at = none;
    inference_restart_after = 0;
    inference_failure_count = 0;
    inference_ever_started = false;
    health = health;
    stats = record {
      workers_started = 0;
      workers_stopped = 0;
      workers_restarted = 0;
      worker_start_failures = 0;
      worker_crashes = 0;
      workers_capacity_deferred = 0;
      peak_active_workers = 0;
      maximum_backoff_seconds_observed = 0;
      inference_services_started = 0;
      inference_services_stopped = 0;
      inference_services_restarted = 0;
      inference_service_start_failures = 0;
      inference_service_crashes = 0;
    };
  }

  unfoldable pub schedule_inference_failure : ℕ → CameraSupervisor H S M → CameraSupervisor H S M
  schedule_inference_failure now s =
      let failures = s.inference_failure_count + 1 in
      let delay = backoff settings failures in
      record s {
        inference_failure_count = failures;
        inference_restart_after = now + delay;
        stats = record s.stats {
          maximum_backoff_seconds_observed = max s.stats.maximum_backoff_seconds_observed delay;
        };
      }

  unfoldable pub stop_one :
      ServiceWorld H S → Str → ManagedWorker H → CameraSupervisor H S M → CameraSupervisor H S M
  stop_one w camera_id managed s =
      if w.stops managed.handle
      then write_status no_metrics settings w.wall_clock camera_id stopped
          (record s { stats = record s.stats { workers_stopped = s.stats.workers_stopped + 1 } })
      else s

  abbrev pub stop_each :
      ServiceWorld H S → Dict (ManagedWorker H) → CameraSupervisor H S M → CameraSupervisor H S M
  stop_each w [] s = s
  stop_each w ((camera_id, managed) ∷ workers) s =
      stop_each w workers (stop_one w camera_id managed s)

  -- the stops are gathered; each is of another camera, so their order is of no effect
  unfoldable pub stop_all : ServiceWorld H S → CameraSupervisor H S M → CameraSupervisor H S M
  stop_all w s = stop_each w s.active (record s { active = [] })

  unfoldable pub stop_inference_service : Bool → CameraSupervisor H S M → CameraSupervisor H S M
  stop_inference_service stop_returns s = elim s.inference_service [
    | none ↦ s
    | some current ↦ record s {
      inference_service = none;
      stats = record s.stats {
        inference_services_stopped =
            s.stats.inference_services_stopped + (if stop_returns then 1 else 0);
      };
    }
  ]

  -- a service that exited
  unfoldable pub clean_up : ServiceWorld H S → CameraSupervisor H S M → CameraSupervisor H S M
  clean_up w s =
      let crashed = record s {
        restart_after = due_each s.active s.restart_after;
        stats = record s.stats {
          inference_service_crashes = s.stats.inference_service_crashes + 1;
        };
      } in
      schedule_inference_failure w.after_cleanup
        (record (stop_all w crashed) { inference_service = none; inference_started_at = none })

  -- a start that is due
  abbrev pub start_service :
      Option S → ServiceWorld H S → CameraSupervisor H S M → Result Done × CameraSupervisor H S M
  start_service none w s = (
    err camera_worker_error,
    schedule_inference_failure w.after_start (record s {
      stats = record s.stats {
        inference_service_start_failures = s.stats.inference_service_start_failures + 1;
      };
    }),
  )
  start_service (some service) w s = (
    ok done,
    record s {
      inference_service = some service;
      inference_started_at = some w.after_start;
      inference_restart_after = 0;
      inference_ever_started = true;
      stats = record s.stats {
        inference_services_started = s.stats.inference_services_started + 1;
        inference_services_restarted =
            s.stats.inference_services_restarted + (if s.inference_ever_started then 1 else 0);
      };
    },
  )

  unfoldable pub start_if_due :
      ServiceWorld H S → ℕ → CameraSupervisor H S M → Result Done × CameraSupervisor H S M
  start_if_due w now s =
      if ltb now s.inference_restart_after
      then (err camera_worker_error, s)
      else start_service w.start w s

  unfoldable pub ensure_with :
      Option S → ServiceWorld H S → CameraSupervisor H S M → Result Done × CameraSupervisor H S M
  ensure_with none w s = start_if_due w w.now s
  ensure_with (some current) w s =
      if w.running current
      then (
        ok done,
        if is_stable settings s.inference_started_at w.now
            then record s { inference_failure_count = 0 }
            else s,
      )
      else start_if_due w w.after_cleanup (clean_up w s)

  -- the first argument says whether there is a launcher
  unfoldable pub ensure_inference_service :
      Bool → ServiceWorld H S → CameraSupervisor H S M → Result Done × CameraSupervisor H S M
  ensure_inference_service false w s = (ok done, s)
  ensure_inference_service true w s = ensure_with s.inference_service w s

module _ {H S M C : Type 0} (no_metrics : M) (settings : SupervisorSettings) where
  abbrev pub reconcile_if :
      Result Done → World H C → CameraSupervisor H S M → Result Done × CameraSupervisor H S M
  reconcile_if (err x) w s = (err x, s)
  reconcile_if (ok d) w s = (ok done, reconcile_workers no_metrics settings w s)

  unfoldable pub reconcile_once :
      Bool
      → ServiceWorld H S
      → World H C
      → CameraSupervisor H S M
      → Result Done × CameraSupervisor H S M
  reconcile_once launcher v w s =
      let (result, ready) = ensure_inference_service no_metrics settings launcher v s in
      reconcile_if result w ready
