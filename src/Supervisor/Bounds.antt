-- ===== src/Supervisor/Bounds.antt =====
-- How many workers are active, and how many are started.
use vehicle_intelligence.Prelude.{
  ℕ, ◌+◌, ◌-◌, ◌<◌, ◌≤◌, ◌≡◌, refl, sym, ap, ◌∙◌, arith, Str, leb, Option, none, some, List, [],
  ◌∷◌, false, Bool-cases, inl, inr, Dict, get, contains, size, size-put, size-pop,
}
use mathlib.Core.Path.{subst}
use vehicle_intelligence.Supervisor.{
  Camera, ManagedWorker, CameraSupervisor, SupervisorSettings, World, write_status,
  schedule_failure, is_current, starts_remaining, by_id, sorted_ids, undesired, forget_each,
}
use vehicle_intelligence.Supervisor.Reconcile.{
  after_stop, stop_worker, worker_exited, worker_stays, check_worker, check_each, started,
  start_camera, start_each, reconcile_workers,
}
use vehicle_intelligence.Supervisor.Current.{check_worker-active, forget_each-active}
use vehicle_intelligence.Supervisor.Starts.{start_camera-cases}

-- what the loop over the active workers leaves alone
abbrev Counts : {H S M : Type 0} → CameraSupervisor H S M → CameraSupervisor H S M → Type 0
Counts s t =
    (t.stats.workers_started ≡ s.stats.workers_started)
    × (t.stats.peak_active_workers ≡ s.stats.peak_active_workers)
    × (t.inference_service ≡ s.inference_service)

forget_each-Counts :
    {H S M : Type 0} (no_metrics : M) (settings : SupervisorSettings) (ids : List Str)
    (s : CameraSupervisor H S M)
    → Counts s (forget_each no_metrics settings ids s)
forget_each-Counts no_metrics settings [] s = (refl, refl, refl)
forget_each-Counts no_metrics settings (id ∷ ids) s = forget_each-Counts no_metrics settings ids _

-- Never more active workers than the maximum, and the peak tells no more either.
pub record IsBounded {H S M : Type 0} (settings : SupervisorSettings) (s : CameraSupervisor H S M)
    : Type 0 where
  pub active : size s.active ≤ settings.maximum_active_workers
  pub peak : s.stats.peak_active_workers ≤ settings.maximum_active_workers

-- What the loop of the starts keeps: the room for the starts that remain, the count of the starts.
record Room {H S M : Type 0} (settings : SupervisorSettings) (begun : ℕ) (starts : ℕ)
    (s : CameraSupervisor H S M) (remaining : ℕ) : Type 0 where
  room : size s.active + remaining ≤ settings.maximum_active_workers
  peak : s.stats.peak_active_workers ≤ settings.maximum_active_workers
  counted : s.stats.workers_started + remaining ≡ begun + starts
  at_most : remaining ≤ starts

module _ {H S M C : Type 0} (no_metrics : M) (settings : SupervisorSettings) where
  after_stop-Counts :
      (time : ℕ) (o : Option (Camera C)) (id : Str) (s : CameraSupervisor H S M)
      → Counts s (after_stop no_metrics settings time o id s)
  unfolding write_status
  after_stop-Counts time none id s = (refl, refl, refl)
  after_stop-Counts time (some persisted) id s = elim (Bool-cases persisted.enabled) [
    | inl enabled ↦ rw enabled (refl, refl, refl)
    | inr disabled ↦ rw disabled (refl, refl, refl)
  ]

  stop_worker-Counts :
      (w : World H C) (id : Str) (s : CameraSupervisor H S M)
      → Counts s (stop_worker no_metrics settings w id s)
  unfolding stop_worker
  stop_worker-Counts w id s = after_stop-Counts w.wall_clock (w.persisted id) id _

  worker_exited-Counts :
      (w : World H C) (id : Str) (s : CameraSupervisor H S M)
      → Counts s (worker_exited no_metrics settings w id s)
  unfolding worker_exited schedule_failure write_status
  worker_exited-Counts w id s = (refl, refl, refl)

  worker_stays-Counts :
      (w : World H C) (id : Str) (m : ManagedWorker H) (s : CameraSupervisor H S M)
      → Counts s (worker_stays no_metrics settings w id m s)
  unfolding worker_stays
  worker_stays-Counts w id m s =
      elim (Bool-cases (leb settings.restart_stability (w.now - m.started_at))) [
        | inl long ↦ rw long (refl, refl, refl)
        | inr short ↦ rw short (refl, refl, refl)
      ]

  check_worker-Counts :
      (w : World H C) (desired : Dict (Camera C)) (id : Str) (m : ManagedWorker H)
      (s : CameraSupervisor H S M)
      → Counts s (check_worker no_metrics settings w desired id m s)
  unfolding check_worker
  check_worker-Counts w desired id m s = elim (Bool-cases (is_current (get desired id) m)) [
    | inr other ↦ rw (other, check_worker) (stop_worker-Counts w id s)
    | inl current ↦ elim (Bool-cases (w.running m.handle)) [
      | inr exited ↦ rw (current, exited, check_worker) (worker_exited-Counts w id s)
      | inl running ↦ rw (current, running, check_worker) (worker_stays-Counts w id m s)
    ]
  ]

  check_worker-size :
      (w : World H C) (desired : Dict (Camera C)) (id : Str) (m : ManagedWorker H)
      (s : CameraSupervisor H S M)
      → size (check_worker no_metrics settings w desired id m s).active ≤ size s.active
  check_worker-size w desired id m s =
      elim (check_worker-active no_metrics settings w desired id m s) [
        | inl removed ↦ rw removed (size-pop s.active id)
        | inr (same, kept) ↦ omega (arith, ap (λ d. size d) same)
      ]

  check_each-bounds :
      (w : World H C) (desired : Dict (Camera C)) (workers : Dict (ManagedWorker H))
      (s : CameraSupervisor H S M)
      → let t = check_each no_metrics settings w desired workers s in
        Counts s t × (size t.active ≤ size s.active)
  unfolding check_each
  check_each-bounds w desired [] s = ((refl, refl, refl), omega arith)
  check_each-bounds w desired ((id, m) ∷ workers) s =
      let counts = check_worker-Counts w desired id m s in
      let (later, smaller) =
        check_each-bounds w desired workers (check_worker no_metrics settings w desired id m s) in
      (
        (later.0 ∙ counts.0, later.1 ∙ counts.1, later.2 ∙ counts.2),
        omega (arith, smaller, check_worker-size w desired id m s),
      )

  started-Room :
      (w : World H C) (c : Camera C) (id : Str) (h : H) (begun starts : ℕ)
      (s : CameraSupervisor H S M) (remaining : ℕ)
      → contains s.active id ≡ false
      → 0 < remaining
      → Room settings begun starts s remaining
      → Room settings begun starts (started no_metrics settings w c id h s) (remaining - 1)
  unfolding started write_status
  started-Room w c id h begun starts s remaining absent some_left r =
      let worker : ManagedWorker H = record {
        revision = c.revision;
        handle = h;
        started_at = w.now;
      } in
      let one_more = size-put s.active id worker in
      record {
        room = ground (arith, one_more, absent, some_left, r.room);
        peak = ground (arith, one_more, absent, some_left, r.room, r.peak);
        counted = omega (arith, some_left, r.counted);
        at_most = omega (arith, r.at_most);
      }

  start_each-Room :
      (w : World H C) (desired : Dict (Camera C)) (begun starts : ℕ) (ids : List Str)
      (s : CameraSupervisor H S M) (remaining : ℕ)
      → Room settings begun starts s remaining
      → let after = start_each no_metrics settings w desired ids (s, remaining) in
        Room settings begun starts after.0 after.1
  unfolding start_each
  start_each-Room w desired begun starts [] s remaining r = r
  start_each-Room w desired begun starts (id ∷ ids) s remaining r =
      let next = start_camera no_metrics settings (get desired id) w id (s, remaining) in
      start_each-Room w desired begun starts ids next.0 next.1
        (elim (start_camera-cases no_metrics settings (get desired id) w id s remaining) [
          | inl quiet ↦ record {
            room = omega (arith, ap (λ d. size d) quiet.active, quiet.remaining_same, r.room);
            peak = omega (arith, quiet.peak, r.peak);
            counted = omega (arith, quiet.workers_started, quiet.remaining_same, r.counted);
            at_most = omega (arith, quiet.remaining_same, r.at_most);
          }
          | inr start ↦
              subst (λ x. Room settings begun starts x.0 x.1) (sym start.result)
                (started-Room w start.camera id start.handle begun starts s remaining start.absent
                  start.room r)
        ])

  -- A reconciliation keeps the number of active workers, and its peak, within the maximum, and
  -- starts no more workers than it may at a time.
  pub reconcile-IsBounded :
      (w : World H C) (s : CameraSupervisor H S M)
      → IsBounded settings s
      → let t = reconcile_workers no_metrics settings w s in
        IsBounded settings t
        × (s.stats.workers_started ≤ t.stats.workers_started)
        × (t.stats.workers_started
            ≤ s.stats.workers_started + settings.maximum_starts_per_reconcile)
  unfolding reconcile_workers starts_remaining
  reconcile-IsBounded w s h =
      let desired = by_id [] w.cameras in
      let gone = undesired s.restart_after desired in
      let known = forget_each no_metrics settings gone s in
      let checked = check_each no_metrics settings w desired known.active known in
      let remaining = starts_remaining no_metrics settings checked in
      let forgot = forget_each-Counts no_metrics settings gone s in
      let same = ap (λ d. size d) (forget_each-active no_metrics settings gone s) in
      let (counts, smaller) = check_each-bounds w desired known.active known in
      let r =
        start_each-Room w desired s.stats.workers_started remaining (sorted_ids desired) checked
          remaining
          (record {
            room = omega (arith, h.active, same, smaller);
            peak = omega (arith, h.peak, forgot.1, counts.1);
            counted = omega (arith, forgot.0, counts.0);
            at_most = omega arith;
          }) in
      (
        record { active = omega (arith, r.room); peak = r.peak },
        omega (arith, r.counted, r.at_most),
        omega (arith, r.counted),
      )

  start_each-service :
      (w : World H C) (desired : Dict (Camera C)) (ids : List Str) (s : CameraSupervisor H S M)
      (remaining : ℕ)
      → (start_each no_metrics settings w desired ids (s, remaining)).0.inference_service
        ≡ s.inference_service
  unfolding start_each started write_status
  start_each-service w desired [] s remaining = refl
  start_each-service w desired (id ∷ ids) s remaining =
      let next = start_camera no_metrics settings (get desired id) w id (s, remaining) in
      start_each-service w desired ids next.0 next.1
      ∙ (elim (start_camera-cases no_metrics settings (get desired id) w id s remaining) [
        | inl quiet ↦ quiet.service
        | inr start ↦ ap (λ r. r.0.inference_service) start.result
      ])

  pub reconcile-service :
      (w : World H C) (s : CameraSupervisor H S M)
      → (reconcile_workers no_metrics settings w s).inference_service ≡ s.inference_service
  unfolding reconcile_workers
  reconcile-service w s =
      let desired = by_id [] w.cameras in
      let gone = undesired s.restart_after desired in
      let known = forget_each no_metrics settings gone s in
      let checked = check_each no_metrics settings w desired known.active known in
      start_each-service w desired (sorted_ids desired) checked
        (starts_remaining no_metrics settings checked)
      ∙ (check_each-bounds w desired known.active known).0.2
      ∙ (forget_each-Counts no_metrics settings gone s).2
