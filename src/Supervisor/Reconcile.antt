-- ===== src/Supervisor/Reconcile.antt =====
-- The workers of one reconciliation: which stop, which stay, and which are started.
use vehicle_intelligence.Prelude.{
  ℕ, ◌+◌, ◌-◌, max, Str, eqb, leb, ltb, if◌then◌else◌, Option, none, some, List, [], ◌∷◌, ◌||◌,
  Dict, get, put, pop, contains, size,
}
use vehicle_intelligence.Supervisor.{
  connecting, offline, stopped, Camera, CameraSupervisor, ManagedWorker, SupervisorSettings, World,
  by_id, sorted_ids, undesired, or_zero, is_current, write_status, schedule_failure, forget_each,
  starts_remaining,
}

module _ {H S M C : Type 0} (no_metrics : M) (settings : SupervisorSettings) where
  -- what follows the stop, by what the repository has of the camera
  abbrev pub after_stop :
      ℕ → Option (Camera C) → Str → CameraSupervisor H S M → CameraSupervisor H S M
  after_stop wall_clock none camera_id s = record s {
    health = pop s.health camera_id;
    restart_after = pop s.restart_after camera_id;
    failure_counts = pop s.failure_counts camera_id;
  }
  after_stop wall_clock (some persisted) camera_id s =
      let written = write_status no_metrics settings wall_clock camera_id stopped s in
      if persisted.enabled
      then record written {
        restart_after = put written.restart_after camera_id 0;
        failure_counts = pop written.failure_counts camera_id;
      }
      else written

  unfoldable pub stop_worker : World H C → Str → CameraSupervisor H S M → CameraSupervisor H S M
  stop_worker w camera_id s = after_stop w.wall_clock (w.persisted camera_id) camera_id (record s {
    active = pop s.active camera_id;
    stats = record s.stats { workers_stopped = s.stats.workers_stopped + 1 };
  })

  unfoldable pub worker_exited : World H C → Str → CameraSupervisor H S M → CameraSupervisor H S M
  worker_exited w camera_id s =
      let scheduled =
        schedule_failure no_metrics settings camera_id w.now
          (record s { active = pop s.active camera_id }) in
      write_status no_metrics settings w.wall_clock camera_id offline (record scheduled {
        stats = record scheduled.stats { worker_crashes = scheduled.stats.worker_crashes + 1 };
      })

  unfoldable pub worker_stays :
      World H C → Str → ManagedWorker H → CameraSupervisor H S M → CameraSupervisor H S M
  worker_stays w camera_id managed s =
      if leb settings.restart_stability (w.now - managed.started_at)
      then record s { failure_counts = pop s.failure_counts camera_id }
      else s

  -- one round of the loop over the active workers
  unfoldable pub check_worker :
      World H C
      → Dict (Camera C)
      → Str
      → ManagedWorker H
      → CameraSupervisor H S M
      → CameraSupervisor H S M
  check_worker w desired camera_id managed s =
      if is_current (get desired camera_id) managed
      then (if w.running managed.handle
          then worker_stays w camera_id managed s
          else worker_exited w camera_id s)
      else stop_worker w camera_id s

  unfoldable pub check_each :
      World H C
      → Dict (Camera C)
      → Dict (ManagedWorker H)
      → CameraSupervisor H S M
      → CameraSupervisor H S M
  check_each w desired [] s = s
  check_each w desired ((camera_id, managed) ∷ workers) s =
      check_each w desired workers (check_worker w desired camera_id managed s)

  unfoldable pub start_failed : World H C → Str → CameraSupervisor H S M → CameraSupervisor H S M
  start_failed w camera_id s =
      let scheduled = schedule_failure no_metrics settings camera_id w.now s in
      write_status no_metrics settings w.wall_clock camera_id offline (record scheduled {
        stats = record scheduled.stats {
          worker_start_failures = scheduled.stats.worker_start_failures + 1;
        };
      })

  unfoldable pub started :
      World H C → Camera C → Str → H → CameraSupervisor H S M → CameraSupervisor H S M
  started w camera camera_id handle s =
      let was_started = contains s.restart_after camera_id in
      let active =
        put s.active camera_id
          (record { revision = camera.revision; handle = handle; started_at = w.now }) in
      write_status no_metrics settings w.wall_clock camera_id connecting (record s {
        active = active;
        restart_after = pop s.restart_after camera_id;
        stats = record s.stats {
          workers_started = s.stats.workers_started + 1;
          peak_active_workers = max s.stats.peak_active_workers (size active);
          workers_restarted = s.stats.workers_restarted + (if was_started then 1 else 0);
        };
      })

  abbrev pub start_outcome :
      Option H
      → World H C
      → Camera C
      → Str
      → CameraSupervisor H S M × ℕ
      → CameraSupervisor H S M × ℕ
  start_outcome none w camera camera_id (s, remaining) = (start_failed w camera_id s, remaining)
  start_outcome (some handle) w camera camera_id (s, remaining) =
      (started w camera camera_id handle s, remaining - 1)

  abbrev pub start_camera :
      Option (Camera C) → World H C → Str → CameraSupervisor H S M × ℕ → CameraSupervisor H S M × ℕ
  start_camera none w camera_id (s, remaining) = (s, remaining)
  start_camera (some camera) w camera_id (s, remaining) =
      if contains s.active camera_id || ltb w.now (or_zero (get s.restart_after camera_id))
      then (s, remaining)
      else if eqb remaining 0
      then (
        record s {
          stats = record s.stats {
            workers_capacity_deferred = s.stats.workers_capacity_deferred + 1;
          };
        },
        0,
      )
      else start_outcome (w.start camera) w camera camera_id (s, remaining)

  -- the loop over the cameras, in the order of their ids
  unfoldable pub start_each :
      World H C
      → Dict (Camera C)
      → List Str
      → CameraSupervisor H S M × ℕ
      → CameraSupervisor H S M × ℕ
  start_each w desired [] state = state
  start_each w desired (camera_id ∷ ids) state =
      start_each w desired ids (start_camera (get desired camera_id) w camera_id state)

  unfoldable pub reconcile_workers : World H C → CameraSupervisor H S M → CameraSupervisor H S M
  reconcile_workers w s =
      let desired = by_id [] w.cameras in
      let known = forget_each no_metrics settings (undesired s.restart_after desired) s in
      let checked = check_each w desired known.active known in
      (start_each w desired (sorted_ids desired)
        (checked, starts_remaining no_metrics settings checked)).0
