-- ===== src/Supervisor.antt =====
-- CameraSupervisor (application/supervisor.py), with the records of domain/camera.py that it uses.
-- What the outside answers during one call is a value: the clocks, the cameras that the repository
-- lists and finds, which handles run, which starts and stops raise. The repositories and the stop of
-- a single worker answer without an exception; a raised PersistenceError would end the call there.
-- A handle, the rest of a camera and the metrics of a health record have any types. Logging is left
-- out.
pub mod Reconcile
pub mod Service
pub mod History
pub mod Runs
pub mod Bounds
pub mod Current
pub mod Frames
pub mod Starts
pub mod Backoff
use vehicle_intelligence.Prelude.{
  ℕ, zero, suc, ◌+◌, ◌-◌, ◌*◌, ◌^◌, min, max, Str, eqb, leb, ltb, if◌then◌else◌, Option, none, some,
  List, [], ◌∷◌, Bool, true, false, ◌||◌, Dict, get, put, pop, contains, size, Result, ok, err,
  value_error, is_some,
}
use vehicle_intelligence.Persistence.Order.{str_lt}

pub data CameraStatus : Type 0 where
  connecting online offline stopped : CameraStatus

pub record Camera (C : Type 0) : Type 0 where
  pub id : Str
  pub enabled : Bool
  pub revision : ℕ
  pub configuration : C

pub record CameraHealth (M : Type 0) : Type 0 where
  pub camera_id : Str
  pub status : CameraStatus
  pub metrics : M
  pub updated_at : ℕ

pub record CameraSupervisorStats : Type 0 where
  pub workers_started : ℕ
  pub workers_stopped : ℕ
  pub workers_restarted : ℕ
  pub worker_start_failures : ℕ
  pub worker_crashes : ℕ
  pub workers_capacity_deferred : ℕ
  pub peak_active_workers : ℕ
  pub maximum_backoff_seconds_observed : ℕ
  pub inference_services_started : ℕ
  pub inference_services_stopped : ℕ
  pub inference_services_restarted : ℕ
  pub inference_service_start_failures : ℕ
  pub inference_service_crashes : ℕ

pub record ManagedWorker (H : Type 0) : Type 0 where
  pub revision : ℕ
  pub handle : H
  pub started_at : ℕ

-- what the constructor is given; durations in microseconds
pub record SupervisorSettings : Type 0 where
  pub reconcile_interval : ℕ
  pub restart_backoff : ℕ
  pub restart_backoff_max : ℕ
  pub restart_stability : ℕ
  pub maximum_active_workers : ℕ
  pub maximum_starts_per_reconcile : ℕ

-- the check of the constructor
unfoldable pub check_settings : SupervisorSettings → Result SupervisorSettings
check_settings c =
    if eqb c.reconcile_interval 0
      || eqb c.restart_backoff 0
      || ltb c.restart_backoff_max c.restart_backoff
      || eqb c.restart_stability 0
      || ltb c.maximum_active_workers 1
      || ltb c.maximum_starts_per_reconcile 1
    then err value_error
    else ok c

-- H: handles of workers, S: of the inference service, M: metrics
pub record CameraSupervisor (H S M : Type 0) : Type 0 where
  pub active : Dict (ManagedWorker H)
  pub restart_after : Dict ℕ
  pub failure_counts : Dict ℕ
  pub inference_service : Option S
  pub inference_started_at : Option ℕ
  pub inference_restart_after : ℕ
  pub inference_failure_count : ℕ
  pub inference_ever_started : Bool
  pub health : Dict (CameraHealth M)
  pub stats : CameraSupervisorStats

-- what one reconciliation meets
pub record World (H C : Type 0) : Type 0 where
  pub now : ℕ
  pub wall_clock : ℕ
  pub cameras : List (Camera C)
  pub persisted : Str → Option (Camera C)
  pub running : H → Bool
  pub start : Camera C → Option H

-- min(base * 2 ** min(failures - 1, 20), maximum)
unfoldable pub backoff : SupervisorSettings → ℕ → ℕ
backoff c failures = min (c.restart_backoff * 2 ^ min (failures - 1) 20) c.restart_backoff_max

-- {camera.id: camera for camera in cameras}
abbrev pub by_id : {C : Type 0} → Dict (Camera C) → List (Camera C) → Dict (Camera C)
by_id desired [] = desired
by_id desired (camera ∷ cameras) = by_id (put desired camera.id camera) cameras

abbrev pub insert_id : Str → List Str → List Str
insert_id id [] = id ∷ []
insert_id id (other ∷ ids) =
    let later = insert_id id ids in if str_lt other id then other ∷ later else id ∷ other ∷ ids

-- sorted(desired)
abbrev pub sorted_ids : {C : Type 0} → Dict (Camera C) → List Str
sorted_ids [] = []
sorted_ids ((id, camera) ∷ desired) = insert_id id (sorted_ids desired)

-- set(restart_after) - set(desired)
abbrev pub undesired : {C : Type 0} → Dict ℕ → Dict (Camera C) → List Str
undesired [] desired = []
undesired ((id, time) ∷ restart_after) desired =
    let later = undesired restart_after desired in if contains desired id then later else id ∷ later

-- self._restart_after.get(camera_id, 0), self._failure_counts.get(camera_id, 0)
abbrev pub or_zero : Option ℕ → ℕ
or_zero none = 0
or_zero (some n) = n

abbrev pub is_current : {H C : Type 0} → Option (Camera C) → ManagedWorker H → Bool
is_current none managed = false
is_current (some camera) managed = eqb camera.revision managed.revision

module _ {H S M : Type 0} (no_metrics : M) (settings : SupervisorSettings) where
  unfoldable pub write_status :
      ℕ → Str → CameraStatus → CameraSupervisor H S M → CameraSupervisor H S M
  write_status now camera_id status s =
      let health : CameraHealth M = elim (get s.health camera_id) [
        | some current ↦ record current { status = status; updated_at = now }
        | none ↦ record {
          camera_id = camera_id;
          status = status;
          metrics = no_metrics;
          updated_at = now;
        }
      ] in
      record s { health = put s.health camera_id health }

  unfoldable pub schedule_failure : Str → ℕ → CameraSupervisor H S M → CameraSupervisor H S M
  schedule_failure camera_id now s =
      let failures = or_zero (get s.failure_counts camera_id) + 1 in
      let delay = backoff settings failures in
      record s {
        failure_counts = put s.failure_counts camera_id failures;
        restart_after = put s.restart_after camera_id (now + delay);
        stats = record s.stats {
          maximum_backoff_seconds_observed = max s.stats.maximum_backoff_seconds_observed delay;
        };
      }

  abbrev pub forget_each : List Str → CameraSupervisor H S M → CameraSupervisor H S M
  forget_each [] s = s
  forget_each (camera_id ∷ ids) s = forget_each ids (record s {
    restart_after = pop s.restart_after camera_id;
    failure_counts = pop s.failure_counts camera_id;
  })

  unfoldable pub starts_remaining : CameraSupervisor H S M → ℕ
  starts_remaining s =
      min settings.maximum_starts_per_reconcile (settings.maximum_active_workers - size s.active)
