-- ===== src/Supervisor/Frames.antt =====
-- What a reconciliation leaves alone: the entries of the other cameras.
use vehicle_intelligence.Prelude.{
  ℕ, ◌+◌, ◌-◌, ◌≡◌, refl, ◌∙◌, arith, Str, ◌==◌, eq_iff, leb, Option, none, some, List, [], ◌∷◌,
  true, false, Bool-cases, inl, inr, Dict, get, pop, contains, member, get-put, get-pop,
}
use vehicle_intelligence.Supervisor.{
  Camera, ManagedWorker, CameraSupervisor, SupervisorSettings, World, write_status,
  schedule_failure, is_current, undesired, forget_each,
}
use vehicle_intelligence.Supervisor.Reconcile.{
  after_stop, stop_worker, worker_exited, worker_stays, check_worker, check_each,
}

-- the entries of one camera
pub record IsSame {H S M : Type 0} (j : Str) (s t : CameraSupervisor H S M) : Type 0 where
  pub active : get t.active j ≡ get s.active j
  pub restart_after : get t.restart_after j ≡ get s.restart_after j
  pub failure_counts : get t.failure_counts j ≡ get s.failure_counts j

pub IsSame-compose :
    {H S M : Type 0} {j : Str} {s t u : CameraSupervisor H S M}
    → IsSame j s t
    → IsSame j t u
    → IsSame j s u
IsSame-compose h k = record {
  active = k.active ∙ h.active;
  restart_after = k.restart_after ∙ h.restart_after;
  failure_counts = k.failure_counts ∙ h.failure_counts;
}

pub forget_each-IsSame :
    {H S M : Type 0} (no_metrics : M) (settings : SupervisorSettings) (j : Str) (ids : List Str)
    (s : CameraSupervisor H S M)
    → member j ids ≡ false
    → IsSame j s (forget_each no_metrics settings ids s)
forget_each-IsSame no_metrics settings j [] s h = record {
  active = refl;
  restart_after = refl;
  failure_counts = refl;
}
forget_each-IsSame no_metrics settings j (id ∷ ids) s h =
    let first = record s {
      restart_after = pop s.restart_after id;
      failure_counts = pop s.failure_counts id;
    } in
    let later = forget_each-IsSame no_metrics settings j ids first (ground (arith, h)) in
    let other : (id == j) ≡ false = ground (arith, h, eq_iff j id, eq_iff id j) in
    record {
      active = later.active;
      restart_after = later.restart_after ∙ get-pop s.restart_after id j ∙ rw other refl;
      failure_counts = later.failure_counts ∙ get-pop s.failure_counts id j ∙ rw other refl;
    }

pub undesired-member :
    {C : Type 0} (times : Dict ℕ) (desired : Dict (Camera C)) (j : Str)
    → contains desired j ≡ true
    → member j (undesired times desired) ≡ false
undesired-member [] desired j h = refl
undesired-member ((id, time) ∷ times) desired j h =
    ground (arith, h, undesired-member times desired j h, eq_iff j id)

module _ {H S M C : Type 0} (no_metrics : M) (settings : SupervisorSettings) where
  after_stop-IsSame :
      (time : ℕ) (o : Option (Camera C)) (i j : Str) (s : CameraSupervisor H S M)
      → (i == j) ≡ false
      → IsSame j s (after_stop no_metrics settings time o i s)
  unfolding write_status
  after_stop-IsSame time none i j s other = record {
    active = refl;
    restart_after = get-pop s.restart_after i j ∙ rw other refl;
    failure_counts = get-pop s.failure_counts i j ∙ rw other refl;
  }
  after_stop-IsSame time (some persisted) i j s other = elim (Bool-cases persisted.enabled) [
    | inl enabled ↦ rw enabled (record {
      active = refl;
      restart_after = get-put s.restart_after i j 0 ∙ rw other refl;
      failure_counts = get-pop s.failure_counts i j ∙ rw other refl;
    })
    | inr disabled ↦
        rw disabled (record { active = refl; restart_after = refl; failure_counts = refl })
  ]

  stop_worker-IsSame :
      (w : World H C) (i j : Str) (s : CameraSupervisor H S M)
      → (i == j) ≡ false
      → IsSame j s (stop_worker no_metrics settings w i s)
  unfolding stop_worker
  stop_worker-IsSame w i j s other =
      let h =
        after_stop-IsSame w.wall_clock (w.persisted i) i j
          (record s {
            active = pop s.active i;
            stats = record s.stats { workers_stopped = s.stats.workers_stopped + 1 };
          })
          other in
      record {
        active = h.active ∙ get-pop s.active i j ∙ rw other refl;
        restart_after = h.restart_after;
        failure_counts = h.failure_counts;
      }

  worker_exited-IsSame :
      (w : World H C) (i j : Str) (s : CameraSupervisor H S M)
      → (i == j) ≡ false
      → IsSame j s (worker_exited no_metrics settings w i s)
  unfolding worker_exited schedule_failure write_status
  worker_exited-IsSame w i j s other = record {
    active = get-pop s.active i j ∙ rw other refl;
    restart_after = get-put s.restart_after i j _ ∙ rw other refl;
    failure_counts = get-put s.failure_counts i j _ ∙ rw other refl;
  }

  worker_stays-IsSame :
      (w : World H C) (i j : Str) (m : ManagedWorker H) (s : CameraSupervisor H S M)
      → (i == j) ≡ false
      → IsSame j s (worker_stays no_metrics settings w i m s)
  unfolding worker_stays
  worker_stays-IsSame w i j m s other =
      elim (Bool-cases (leb settings.restart_stability (w.now - m.started_at))) [
        | inl long ↦ rw long (record {
          active = refl;
          restart_after = refl;
          failure_counts = get-pop s.failure_counts i j ∙ rw other refl;
        })
        | inr short ↦
            rw short (record { active = refl; restart_after = refl; failure_counts = refl })
      ]

  pub check_worker-IsSame :
      (w : World H C) (desired : Dict (Camera C)) (i j : Str) (m : ManagedWorker H)
      (s : CameraSupervisor H S M)
      → (i == j) ≡ false
      → IsSame j s (check_worker no_metrics settings w desired i m s)
  unfolding check_worker
  check_worker-IsSame w desired i j m s other = elim (Bool-cases (is_current (get desired i) m)) [
    | inr old ↦ rw (old, check_worker) (stop_worker-IsSame w i j s other)
    | inl current ↦ elim (Bool-cases (w.running m.handle)) [
      | inr exited ↦ rw (current, exited, check_worker) (worker_exited-IsSame w i j s other)
      | inl running ↦ rw (current, running, check_worker) (worker_stays-IsSame w i j m s other)
    ]
  ]

  -- The loop leaves a camera alone that has no active worker.
  pub check_each-IsSame :
      (w : World H C) (desired : Dict (Camera C)) (workers : Dict (ManagedWorker H)) (j : Str)
      (s : CameraSupervisor H S M)
      → get workers j ≡ none
      → IsSame j s (check_each no_metrics settings w desired workers s)
  unfolding check_each
  check_each-IsSame w desired [] j s absent = record {
    active = refl;
    restart_after = refl;
    failure_counts = refl;
  }
  check_each-IsSame w desired ((i, m) ∷ workers) j s absent =
      IsSame-compose (check_worker-IsSame w desired i j m s (ground (arith, absent)))
        (check_each-IsSame w desired workers j _ (ground (arith, absent)))
