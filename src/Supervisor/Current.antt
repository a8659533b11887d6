-- ===== src/Supervisor/Current.antt =====
-- Which workers are active after a reconciliation.
use vehicle_intelligence.Prelude.{
  ℕ, ◌-◌, ◌≡◌, refl, sym, ap, ◌∙◌, arith, Str, ◌==◌, eq_iff, leb, Option, none, some, List, [], ◌∷◌,
  true, Bool-cases, inl, inr, ◌⊎◌, Dict, get, put, pop, get-pop, pop-kept, some_injective,
  none-ne-some,
}
use mathlib.Core.Path.{subst}
use vehicle_intelligence.Supervisor.{
  Camera, ManagedWorker, CameraSupervisor, SupervisorSettings, World, write_status,
  schedule_failure, forget_each, is_current,
}
use vehicle_intelligence.Supervisor.Reconcile.{
  after_stop, stop_worker, worker_exited, worker_stays, check_worker, check_each, start_failed,
  started,
}

pub forget_each-active :
    {H S M : Type 0} (no_metrics : M) (settings : SupervisorSettings) (ids : List Str)
    (s : CameraSupervisor H S M)
    → (forget_each no_metrics settings ids s).active ≡ s.active
forget_each-active no_metrics settings [] s = refl
forget_each-active no_metrics settings (id ∷ ids) s = forget_each-active no_metrics settings ids _

-- What a check keeps of an active worker: it runs, for a camera that is listed in its revision.
pub record IsCurrent {H C : Type 0} (w : World H C) (desired : Dict (Camera C)) (id : Str)
    (m : ManagedWorker H) : Type 0 where
  pub current : is_current (get desired id) m ≡ true
  pub running : w.running m.handle ≡ true

module _ {H S M C : Type 0} (no_metrics : M) (settings : SupervisorSettings) where
  after_stop-active :
      (time : ℕ) (o : Option (Camera C)) (id : Str) (s : CameraSupervisor H S M)
      → (after_stop no_metrics settings time o id s).active ≡ s.active
  unfolding write_status
  after_stop-active time none id s = refl
  after_stop-active time (some persisted) id s = elim (Bool-cases persisted.enabled) [
    | inl enabled ↦ rw enabled refl
    | inr disabled ↦ rw disabled refl
  ]

  pub stop_worker-active :
      (w : World H C) (id : Str) (s : CameraSupervisor H S M)
      → (stop_worker no_metrics settings w id s).active ≡ pop s.active id
  unfolding stop_worker
  stop_worker-active w id s = after_stop-active w.wall_clock (w.persisted id) id _

  pub worker_exited-active :
      (w : World H C) (id : Str) (s : CameraSupervisor H S M)
      → (worker_exited no_metrics settings w id s).active ≡ pop s.active id
  unfolding worker_exited schedule_failure write_status
  worker_exited-active w id s = refl

  pub worker_stays-active :
      (w : World H C) (id : Str) (m : ManagedWorker H) (s : CameraSupervisor H S M)
      → (worker_stays no_metrics settings w id m s).active ≡ s.active
  unfolding worker_stays
  worker_stays-active w id m s =
      elim (Bool-cases (leb settings.restart_stability (w.now - m.started_at))) [
        | inl long ↦ rw long refl
        | inr short ↦ rw short refl
      ]

  pub started-active :
      (w : World H C) (c : Camera C) (id : Str) (h : H) (s : CameraSupervisor H S M)
      → (started no_metrics settings w c id h s).active
        ≡ put s.active id (record { revision = c.revision; handle = h; started_at = w.now })
  unfolding started write_status
  started-active w c id h s = refl

  pub start_failed-active :
      (w : World H C) (id : Str) (s : CameraSupervisor H S M)
      → (start_failed no_metrics settings w id s).active ≡ s.active
  unfolding start_failed schedule_failure write_status
  start_failed-active w id s = refl

  -- A round removes the worker that it looks at, or finds that it is to be kept.
  pub check_worker-active :
      (w : World H C) (desired : Dict (Camera C)) (id : Str) (m : ManagedWorker H)
      (s : CameraSupervisor H S M)
      → ((check_worker no_metrics settings w desired id m s).active ≡ pop s.active id)
        ⊎ (((check_worker no_metrics settings w desired id m s).active ≡ s.active)
            × IsCurrent w desired id m)
  unfolding check_worker
  check_worker-active w desired id m s = elim (Bool-cases (is_current (get desired id) m)) [
    | inr other ↦ inl (rw (other, check_worker) (stop_worker-active w id s))
    | inl current ↦ elim (Bool-cases (w.running m.handle)) [
      | inr exited ↦ inl (rw (current, exited, check_worker) (worker_exited-active w id s))
      | inl running ↦ inr (
        rw (current, running, check_worker) (worker_stays-active w id m s),
        record { current = current; running = running },
      )
    ]
  ]

  -- In the middle of the loop: every active worker is kept, or waits for its round.
  abbrev Checked :
      World H C → Dict (Camera C) → Dict (ManagedWorker H) → CameraSupervisor H S M → Type 0
  Checked w desired workers s =
      (id : Str) (m : ManagedWorker H)
      → get s.active id ≡ some m
      → (IsCurrent w desired id m) ⊎ (get workers id ≡ some m)

  check_worker-Checked :
      (w : World H C) (desired : Dict (Camera C)) (i : Str) (n : ManagedWorker H)
      (workers : Dict (ManagedWorker H)) (s : CameraSupervisor H S M)
      → Checked w desired ((i, n) ∷ workers) s
      → Checked w desired workers (check_worker no_metrics settings w desired i n s)
  check_worker-Checked w desired i n workers s h id m at = elim (Bool-cases (i == id)) [
    | inr other ↦ elim (check_worker-active w desired i n s) [
      | inl removed ↦
          let before : get s.active id ≡ some m =
            pop-kept s.active i id m (ap (λ d. get d id) (sym removed) ∙ at) in
          ground (arith, h id m before, other)
      | inr (same, kept) ↦
          let before : get s.active id ≡ some m = ap (λ d. get d id) (sym same) ∙ at in
          ground (arith, h id m before, other)
    ]
    | inl here ↦ elim (check_worker-active w desired i n s) [
      | inl removed ↦
          let gone : none ≡ some m =
            sym (get-pop s.active i id ∙ rw here refl) ∙ ap (λ d. get d id) (sym removed) ∙ at in
          absurd (none-ne-some gone)
      | inr (same, kept) ↦ elim (h id m (ap (λ d. get d id) (sym same) ∙ at)) [
        | inl already ↦ inl already
        | inr first ↦
            let is : n ≡ m = some_injective (rw here at first) in
            let where_at : i ≡ id = ground (arith, eq_iff i id, here) in
            inl (
              subst (λ j. IsCurrent w desired j m) where_at
                (subst (λ k. IsCurrent w desired i k) is kept))
      ]
    ]
  ]

  pub check_each-IsCurrent :
      (w : World H C) (desired : Dict (Camera C)) (workers : Dict (ManagedWorker H))
      (s : CameraSupervisor H S M)
      → Checked w desired workers s
      → (id : Str) (m : ManagedWorker H)
      → get (check_each no_metrics settings w desired workers s).active id ≡ some m
      → IsCurrent w desired id m
  unfolding check_each
  check_each-IsCurrent w desired [] s h id m at = elim (h id m at) [
    | inl kept ↦ kept
    | inr absent ↦ absurd (none-ne-some absent)
  ]
  check_each-IsCurrent w desired ((i, n) ∷ workers) s h id m at =
      check_each-IsCurrent w desired workers (check_worker no_metrics settings w desired i n s)
        (check_worker-Checked w desired i n workers s h) id m at

  -- The checks add no worker and change none.
  pub check_each-active :
      (w : World H C) (desired : Dict (Camera C)) (workers : Dict (ManagedWorker H))
      (s : CameraSupervisor H S M) (id : Str) (m : ManagedWorker H)
      → get (check_each no_metrics settings w desired workers s).active id ≡ some m
      → get s.active id ≡ some m
  unfolding check_each
  check_each-active w desired [] s id m at = at
  check_each-active w desired ((i, n) ∷ workers) s id m at =
      let later =
        check_each-active w desired workers (check_worker no_metrics settings w desired i n s) id m
          at in
      elim (check_worker-active w desired i n s) [
        | inl removed ↦ pop-kept s.active i id m (ap (λ d. get d id) (sym removed) ∙ later)
        | inr (same, kept) ↦ ap (λ d. get d id) (sym same) ∙ later
      ]
