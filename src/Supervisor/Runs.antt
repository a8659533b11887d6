-- ===== src/Supervisor/Runs.antt =====
-- Any sequence of reconciliations and stops.
use vehicle_intelligence.Prelude.{
  ℕ, ◌≡◌, refl, sym, ap, ◌∙◌, arith, Str, none, List, [], ◌∷◌, true, inl, inr, Dict, get, Result,
  ok, err, Done, done, is_done, IsDistinct, put-IsDistinct, pop-IsDistinct,
}
use mathlib.Core.Path.{subst}
use vehicle_intelligence.Supervisor.{
  Camera, CameraHealth, ManagedWorker, CameraSupervisor, SupervisorSettings, World, by_id,
  sorted_ids, undesired, starts_remaining, forget_each,
}
use vehicle_intelligence.Supervisor.Reconcile.{
  check_each, start_camera, start_each, reconcile_workers,
}
use vehicle_intelligence.Supervisor.Service.{
  ServiceWorld, new_supervisor, stop_all, ensure_inference_service, reconcile_once, reconcile_if,
}
use vehicle_intelligence.Supervisor.Current.{
  check_worker-active, started-active, forget_each-active,
}
use vehicle_intelligence.Supervisor.Starts.{start_camera-cases}
use vehicle_intelligence.Supervisor.Bounds.{reconcile-IsBounded, reconcile-service}
use vehicle_intelligence.Supervisor.History.{
  IsSupervised, stop_all-IsSupervised, ensure-IsSupervised, ensure_serves,
}

module _ {H S M C : Type 0} (no_metrics : M) (settings : SupervisorSettings) where
  check_each-IsDistinct :
      (w : World H C) (desired : Dict (Camera C)) (workers : Dict (ManagedWorker H))
      (s : CameraSupervisor H S M)
      → IsDistinct s.active
      → IsDistinct (check_each no_metrics settings w desired workers s).active
  unfolding check_each
  check_each-IsDistinct w desired [] s h = h
  check_each-IsDistinct w desired ((id, m) ∷ workers) s h =
      check_each-IsDistinct w desired workers _
        (elim (check_worker-active no_metrics settings w desired id m s) [
          | inl removed ↦ subst IsDistinct (sym removed) (pop-IsDistinct s.active id h)
          | inr (same, kept) ↦ subst IsDistinct (sym same) h
        ])

  start_each-IsDistinct :
      (w : World H C) (desired : Dict (Camera C)) (ids : List Str) (s : CameraSupervisor H S M)
      (remaining : ℕ)
      → IsDistinct s.active
      → IsDistinct (start_each no_metrics settings w desired ids (s, remaining)).0.active
  unfolding start_each
  start_each-IsDistinct w desired [] s remaining h = h
  start_each-IsDistinct w desired (id ∷ ids) s remaining h =
      let next = start_camera no_metrics settings (get desired id) w id (s, remaining) in
      start_each-IsDistinct w desired ids next.0 next.1
        (elim (start_camera-cases no_metrics settings (get desired id) w id s remaining) [
          | inl quiet ↦ subst IsDistinct (sym quiet.active) h
          | inr start ↦
              subst IsDistinct
                (sym (
                  ap (λ r. r.0.active) start.result
                  ∙ started-active no_metrics settings w start.camera id start.handle s))
                (put-IsDistinct s.active id _ h)
        ])

  reconcile-IsDistinct :
      (w : World H C) (s : CameraSupervisor H S M)
      → IsDistinct s.active
      → IsDistinct (reconcile_workers no_metrics settings w s).active
  unfolding reconcile_workers
  reconcile-IsDistinct w s h =
      let desired = by_id [] w.cameras in
      let known = forget_each no_metrics settings (undesired s.restart_after desired) s in
      let checked = check_each no_metrics settings w desired known.active known in
      start_each-IsDistinct w desired (sorted_ids desired) checked
        (starts_remaining no_metrics settings checked)
        (check_each-IsDistinct w desired known.active known (
          subst IsDistinct
            (sym (forget_each-active no_metrics settings (undesired s.restart_after desired) s)) h))

  reconcile_if-IsSupervised :
      (r : Result Done) (w : World H C) (s : CameraSupervisor H S M)
      → IsSupervised settings s
      → (r ≡ ok done → s.inference_service ≡ none → ⊥)
      → IsSupervised settings (reconcile_if no_metrics settings r w s).1
  reconcile_if-IsSupervised (err x) w s h serves = h
  reconcile_if-IsSupervised (ok d) w s h serves = record {
    bounded = (reconcile-IsBounded no_metrics settings w s h.bounded).0;
    distinct = reconcile-IsDistinct w s h.distinct;
    served = λ gone.
        absurd
          (serves (ap ok (is_done d)) (sym (reconcile-service no_metrics settings w s) ∙ gone));
  }

  reconcile_once-IsSupervised :
      (v : ServiceWorld H S) (w : World H C) (s : CameraSupervisor H S M)
      → IsSupervised settings s
      → IsSupervised settings (reconcile_once no_metrics settings true v w s).1
  unfolding reconcile_once
  reconcile_once-IsSupervised v w s h =
      let ready = ensure_inference_service no_metrics settings true v s in
      reconcile_if-IsSupervised ready.0 w ready.1 (ensure-IsSupervised no_metrics settings v s h)
        (ensure_serves no_metrics settings v s)

-- The calls that run makes.
pub data Call (H S C : Type 0) : Type 0 where
  reconcile : ServiceWorld H S → World H C → Call H S C
  stop : ServiceWorld H S → Call H S C

module _ {H S M C : Type 0} (no_metrics : M) (settings : SupervisorSettings) where
  unfoldable pub run : List (Call H S C) → CameraSupervisor H S M → CameraSupervisor H S M
  run [] s = s
  run (reconcile v w ∷ calls) s = run calls (reconcile_once no_metrics settings true v w s).1
  run (stop v ∷ calls) s = run calls (stop_all no_metrics settings v s)

  run-kept :
      (calls : List (Call H S C)) (s : CameraSupervisor H S M)
      → IsSupervised settings s
      → IsSupervised settings (run calls s)
  unfolding run
  run-kept [] s h = h
  run-kept (reconcile v w ∷ calls) s h =
      run-kept calls _ (reconcile_once-IsSupervised no_metrics settings v w s h)
  run-kept (stop v ∷ calls) s h = run-kept calls _ (stop_all-IsSupervised no_metrics settings v s h)

  -- After any sequence of reconciliations and stops of a new supervisor with a launcher of the
  -- inference service, whatever the outside answers: no more workers are active than the maximum, nor
  -- were at the peak that the statistics tell, no camera has two workers, and no worker is active
  -- while there is no inference service.
  pub run-IsSupervised :
      (calls : List (Call H S C)) (health : Dict (CameraHealth M))
      → IsSupervised settings (run calls (new_supervisor no_metrics settings health))
  unfolding new_supervisor
  run-IsSupervised calls health =
      run-kept calls (new_supervisor no_metrics settings health) (record {
        bounded = record { active = omega arith; peak = omega arith };
        distinct = tt;
        served = λ _. refl;
      })
