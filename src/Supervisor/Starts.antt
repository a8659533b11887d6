-- ===== src/Supervisor/Starts.antt =====
-- The starts of a reconciliation.
use vehicle_intelligence.Prelude.{
  ℕ, ◌-◌, ◌<◌, ◌≡◌, refl, sym, ap, ◌∙◌, arith, Str, eqb, ltb, Option, none, some, Option-cases,
  List, [], ◌∷◌, false, ◌||◌, Bool-cases, inl, inr, ◌⊎◌, Dict, get, put, contains, put-cases,
}
use mathlib.Core.Path.{subst}
use vehicle_intelligence.Supervisor.{
  Camera, ManagedWorker, CameraSupervisor, SupervisorSettings, World, write_status,
  schedule_failure, or_zero, starts_remaining, by_id, sorted_ids, undesired, forget_each,
}
use vehicle_intelligence.Supervisor.Reconcile.{
  start_failed, started, start_outcome, start_camera, start_each, reconcile_workers, check_each,
}
use vehicle_intelligence.Supervisor.Current.{
  IsCurrent, check_each-IsCurrent, check_each-active, forget_each-active, started-active,
}

-- A round that starts no worker.
pub record NoStart {H S M : Type 0} (s : CameraSupervisor H S M) (remaining : ℕ)
    (after : CameraSupervisor H S M × ℕ) : Type 0 where
  pub active : after.0.active ≡ s.active
  pub remaining_same : after.1 ≡ remaining
  pub workers_started : after.0.stats.workers_started ≡ s.stats.workers_started
  pub peak : after.0.stats.peak_active_workers ≡ s.stats.peak_active_workers
  pub service : after.0.inference_service ≡ s.inference_service

module _ {H S M C : Type 0} (no_metrics : M) (settings : SupervisorSettings) where
  -- A round that starts a worker.
  pub record Start (o : Option (Camera C)) (w : World H C) (id : Str) (s : CameraSupervisor H S M)
      (remaining : ℕ) (after : CameraSupervisor H S M × ℕ) : Type 0 where
    pub camera : Camera C
    pub handle : H
    pub listed : o ≡ some camera
    pub outcome : w.start camera ≡ some handle
    pub absent : contains s.active id ≡ false
    pub due : ltb w.now (or_zero (get s.restart_after id)) ≡ false
    pub room : 0 < remaining
    pub result : after ≡ (started no_metrics settings w camera id handle s, remaining - 1)

  start_failed-NoStart :
      (w : World H C) (id : Str) (s : CameraSupervisor H S M) (remaining : ℕ)
      → NoStart s remaining (start_failed no_metrics settings w id s, remaining)
  unfolding start_failed schedule_failure write_status
  start_failed-NoStart w id s remaining = record {
    active = refl;
    remaining_same = refl;
    workers_started = refl;
    peak = refl;
    service = refl;
  }

  pub start_camera-cases :
      (o : Option (Camera C)) (w : World H C) (id : Str) (s : CameraSupervisor H S M)
      (remaining : ℕ)
      → NoStart s remaining (start_camera no_metrics settings o w id (s, remaining))
        ⊎ Start o w id s remaining (start_camera no_metrics settings o w id (s, remaining))
  start_camera-cases none w id s remaining = inl (record {
    active = refl;
    remaining_same = refl;
    workers_started = refl;
    peak = refl;
    service = refl;
  })
  start_camera-cases (some camera) w id s remaining =
      elim (Bool-cases (contains s.active id || ltb w.now (or_zero (get s.restart_after id)))) [
        | inl skipped ↦ inl (
            rw (skipped, start_camera)
              (record {
                active = refl;
                remaining_same = refl;
                workers_started = refl;
                peak = refl;
                service = refl;
              }))
        | inr due ↦ elim (Bool-cases (eqb remaining 0)) [
          | inl full ↦
              let none_left : 0 ≡ remaining = ground (arith, full) in
              inl (
                rw (due, full, start_camera)
                  (record {
                    active = refl;
                    remaining_same = none_left;
                    workers_started = refl;
                    peak = refl;
                    service = refl;
                  }))
          | inr room ↦ elim (Option-cases (w.start camera)) [
            | inl failed ↦ inl (
                rw (due, room, failed, start_camera, start_outcome)
                  (start_failed-NoStart w id s remaining))
            | inr (handle, outcome) ↦ inr (
                rw (due, room, start_camera, outcome, start_outcome)
                  (record {
                    camera = camera;
                    handle = handle;
                    listed = refl;
                    outcome = outcome;
                    absent = ground (arith, due);
                    due = ground (arith, due);
                    room = ground (arith, room);
                    result = refl;
                  }))
          ]
        ]
      ]

-- A worker that the reconciliation started.
pub record IsStarted {H C : Type 0} (w : World H C) (desired : Dict (Camera C)) (id : Str)
    (m : ManagedWorker H) : Type 0 where
  pub camera : Camera C
  pub listed : get desired id ≡ some camera
  pub outcome : w.start camera ≡ some m.handle
  pub revision : m.revision ≡ camera.revision
  pub at_now : m.started_at ≡ w.now

-- A worker that was active before, runs, and is of the revision that is listed of its camera.
pub record IsKept {H C : Type 0} (before : Dict (ManagedWorker H)) (w : World H C)
    (desired : Dict (Camera C)) (id : Str) (m : ManagedWorker H) : Type 0 where
  pub active : get before id ≡ some m
  pub checked : IsCurrent w desired id m

-- Every active worker was kept, or started now.
abbrev pub AllActive :
    {H S M C : Type 0}
    → Dict (ManagedWorker H)
    → World H C
    → Dict (Camera C)
    → CameraSupervisor H S M
    → Type 0
AllActive before w desired s =
    (id : Str) (m : ManagedWorker _)
    → get s.active id ≡ some m
    → (IsKept before w desired id m) ⊎ (IsStarted w desired id m)

module _ {H S M C : Type 0} (no_metrics : M) (settings : SupervisorSettings) where
  Start-AllActive :
      (before : Dict (ManagedWorker H)) (w : World H C) (desired : Dict (Camera C)) (id : Str)
      (s : CameraSupervisor H S M) (remaining : ℕ) (after : CameraSupervisor H S M × ℕ)
      → Start no_metrics settings (get desired id) w id s remaining after
      → AllActive before w desired s
      → AllActive before w desired after.0
  Start-AllActive before w desired id s remaining after start h j m at =
      let worker : ManagedWorker H = record {
        revision = start.camera.revision;
        handle = start.handle;
        started_at = w.now;
      } in
      let grown : after.0.active ≡ put s.active id worker =
        ap (λ r. r.0.active) start.result
        ∙ started-active no_metrics settings w start.camera id start.handle s in
      elim (put-cases s.active id worker j m (ap (λ d. get d j) (sym grown) ∙ at)) [
        | inr older ↦ h j m older
        | inl (here, is) ↦ inr (
            subst (λ i. IsStarted w desired i m) here
              (subst (λ n. IsStarted w desired id n) is
                (record {
                  camera = start.camera;
                  listed = start.listed;
                  outcome = start.outcome;
                  revision = refl;
                  at_now = refl;
                })))
      ]

  start_each-AllActive :
      (before : Dict (ManagedWorker H)) (w : World H C) (desired : Dict (Camera C)) (ids : List Str)
      (s : CameraSupervisor H S M) (remaining : ℕ)
      → AllActive before w desired s
      → AllActive before w desired (start_each no_metrics settings w desired ids (s, remaining)).0
  unfolding start_each
  start_each-AllActive before w desired [] s remaining h = h
  start_each-AllActive before w desired (id ∷ ids) s remaining h =
      let next = start_camera no_metrics settings (get desired id) w id (s, remaining) in
      start_each-AllActive before w desired ids next.0 next.1
        (elim (start_camera-cases no_metrics settings (get desired id) w id s remaining) [
          | inl quiet ↦ λ j m at. h j m (ap (λ d. get d j) (sym quiet.active) ∙ at)
          | inr start ↦ Start-AllActive before w desired id s remaining next start h
        ])

  -- After a reconciliation every active worker is one for a camera that the repository listed, in
  -- the revision of the list: a worker that was active before, with the same handle, revision and
  -- time of its start, and runs, or one that was started now.
  pub reconcile-AllActive :
      (w : World H C) (s : CameraSupervisor H S M)
      → AllActive s.active w (by_id [] w.cameras) (reconcile_workers no_metrics settings w s)
  unfolding reconcile_workers
  reconcile-AllActive w s =
      let desired = by_id [] w.cameras in
      let known = forget_each no_metrics settings (undesired s.restart_after desired) s in
      let checked = check_each no_metrics settings w desired known.active known in
      let whole : known.active ≡ s.active =
        forget_each-active no_metrics settings (undesired s.restart_after desired) s in
      start_each-AllActive s.active w desired (sorted_ids desired) checked
        (starts_remaining no_metrics settings checked)
        (λ id m at. inl (record {
          active =
              ap (λ d. get d id) (sym whole)
              ∙ check_each-active no_metrics settings w desired known.active known id m at;
          checked =
              check_each-IsCurrent no_metrics settings w desired known.active known
                (λ i n here. inr here) id m at;
        }))
