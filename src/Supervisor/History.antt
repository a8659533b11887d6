-- ===== src/Supervisor/History.antt =====
-- What holds after any calls of the supervisor.
use vehicle_intelligence.Prelude.{
  ℕ, ◌≡◌, refl, sym, ap, ◌∙◌, arith, Str, ltb, Option, none, some, [], ◌∷◌, true, Bool-cases, inl,
  inr, Dict, size, ok, done, IsDistinct, none-ne-some,
}
use mathlib.Core.Path.{subst}
use vehicle_intelligence.Supervisor.{
  ManagedWorker, CameraSupervisor, SupervisorSettings, write_status,
}
use vehicle_intelligence.Supervisor.Service.{
  ServiceWorld, schedule_inference_failure, stop_one, stop_each, stop_all, clean_up, start_service,
  start_if_due, ensure_with, ensure_inference_service, is_stable,
}
use vehicle_intelligence.Supervisor.Bounds.{IsBounded}

-- The supervisor is within its limits, has one worker for a camera at most, and none without the
-- inference service that they share.
pub record IsSupervised {H S M : Type 0} (settings : SupervisorSettings)
    (s : CameraSupervisor H S M) : Type 0 where
  pub bounded : IsBounded settings s
  pub distinct : IsDistinct s.active
  pub served : s.inference_service ≡ none → s.active ≡ []

-- Limits that hold stay so for a state with no worker, and the same peak.
emptied :
    {H S M : Type 0} (settings : SupervisorSettings) (s t : CameraSupervisor H S M)
    → IsSupervised settings s
    → t.active ≡ []
    → t.stats.peak_active_workers ≡ s.stats.peak_active_workers
    → IsSupervised settings t
emptied settings s t h empty peak = record {
  bounded = record {
    active = omega (arith, ap (λ d. size d) empty);
    peak = omega (arith, peak, h.bounded.peak);
  };
  distinct = subst IsDistinct (sym empty) tt;
  served = λ _. empty;
}

module _ {H S M : Type 0} (no_metrics : M) (settings : SupervisorSettings) where
  -- what stop_all changes only in part
  abbrev IsStopped : CameraSupervisor H S M → CameraSupervisor H S M → Type 0
  IsStopped s t =
      (t.active ≡ s.active) × (t.stats.peak_active_workers ≡ s.stats.peak_active_workers)

  stop_one-IsStopped :
      (w : ServiceWorld H S) (id : Str) (m : ManagedWorker H) (s : CameraSupervisor H S M)
      → IsStopped s (stop_one no_metrics settings w id m s)
  unfolding stop_one write_status
  stop_one-IsStopped w id m s = elim (Bool-cases (w.stops m.handle)) [
    | inl returns ↦ rw returns (refl, refl)
    | inr raises ↦ rw raises (refl, refl)
  ]

  stop_each-IsStopped :
      (w : ServiceWorld H S) (workers : Dict (ManagedWorker H)) (s : CameraSupervisor H S M)
      → IsStopped s (stop_each no_metrics settings w workers s)
  stop_each-IsStopped w [] s = (refl, refl)
  stop_each-IsStopped w ((id, m) ∷ workers) s =
      let one = stop_one-IsStopped w id m s in
      let others = stop_each-IsStopped w workers (stop_one no_metrics settings w id m s) in
      (others.0 ∙ one.0, others.1 ∙ one.1)

  pub stop_all-IsSupervised :
      (w : ServiceWorld H S) (s : CameraSupervisor H S M)
      → IsSupervised settings s
      → IsSupervised settings (stop_all no_metrics settings w s)
  unfolding stop_all
  stop_all-IsSupervised w s h =
      let stopped = stop_each-IsStopped w s.active (record s { active = [] }) in
      emptied settings s _ h stopped.0 stopped.1

  clean_up-IsSupervised :
      (w : ServiceWorld H S) (s : CameraSupervisor H S M)
      → IsSupervised settings s
      → IsSupervised settings (clean_up no_metrics settings w s)
  unfolding clean_up stop_all schedule_inference_failure
  clean_up-IsSupervised w s h =
      let stopped = stop_each-IsStopped w s.active _ in emptied settings s _ h stopped.0 stopped.1

  start_service-IsSupervised :
      (o : Option S) (w : ServiceWorld H S) (s : CameraSupervisor H S M)
      → IsSupervised settings s
      → IsSupervised settings (start_service no_metrics settings o w s).1
  unfolding schedule_inference_failure
  start_service-IsSupervised none w s h = record {
    bounded = record { active = h.bounded.active; peak = h.bounded.peak };
    distinct = h.distinct;
    served = h.served;
  }
  start_service-IsSupervised (some service) w s h = record {
    bounded = record { active = h.bounded.active; peak = h.bounded.peak };
    distinct = h.distinct;
    served = λ gone. absurd (none-ne-some (sym gone));
  }

  start_if_due-IsSupervised :
      (w : ServiceWorld H S) (now : ℕ) (s : CameraSupervisor H S M)
      → IsSupervised settings s
      → IsSupervised settings (start_if_due no_metrics settings w now s).1
  unfolding start_if_due
  start_if_due-IsSupervised w now s h = elim (Bool-cases (ltb now s.inference_restart_after)) [
    | inl early ↦ rw early h
    | inr due ↦ rw due (start_service-IsSupervised w.start w s h)
  ]

  -- With a launcher, a call that returns leaves a service.
  ensure_with-IsSupervised :
      (o : Option S) (w : ServiceWorld H S) (s : CameraSupervisor H S M)
      → IsSupervised settings s
      → IsSupervised settings (ensure_with no_metrics settings o w s).1
  unfolding ensure_with
  ensure_with-IsSupervised none w s h = start_if_due-IsSupervised w w.now s h
  ensure_with-IsSupervised (some current) w s h = elim (Bool-cases (w.running current)) [
    | inl running ↦ elim (Bool-cases (is_stable settings s.inference_started_at w.now)) [
      | inl stable ↦
          rw (running, stable)
            (record {
              bounded = record { active = h.bounded.active; peak = h.bounded.peak };
              distinct = h.distinct;
              served = h.served;
            })
      | inr fresh ↦ rw (running, fresh) h
    ]
    | inr exited ↦ rw exited (
        start_if_due-IsSupervised w w.after_cleanup (clean_up no_metrics settings w s)
          (clean_up-IsSupervised w s h))
  ]

  start_service_serves :
      (o : Option S) (w : ServiceWorld H S) (s : CameraSupervisor H S M)
      → (start_service no_metrics settings o w s).0 ≡ ok done
      → (start_service no_metrics settings o w s).1.inference_service ≡ none
      → ⊥
  start_service_serves none w s returns gone = ground (arith, returns)
  start_service_serves (some service) w s returns gone = none-ne-some (sym gone)

  start_if_due_serves :
      (w : ServiceWorld H S) (now : ℕ) (s : CameraSupervisor H S M)
      → (start_if_due no_metrics settings w now s).0 ≡ ok done
      → (start_if_due no_metrics settings w now s).1.inference_service ≡ none
      → ⊥
  unfolding start_if_due
  start_if_due_serves w now s returns gone = elim (Bool-cases (ltb now s.inference_restart_after)) [
    | inl early ↦ ground (arith, (rw early at returns))
    | inr due ↦ start_service_serves w.start w s (rw due at returns) (rw due at gone)
  ]

  ensure_with_serves :
      (o : Option S) (w : ServiceWorld H S) (s : CameraSupervisor H S M)
      → s.inference_service ≡ o
      → (ensure_with no_metrics settings o w s).0 ≡ ok done
      → (ensure_with no_metrics settings o w s).1.inference_service ≡ none
      → ⊥
  unfolding ensure_with
  ensure_with_serves none w s held returns gone = start_if_due_serves w w.now s returns gone
  ensure_with_serves (some current) w s held returns gone = elim (Bool-cases (w.running current)) [
    | inl running ↦ elim (Bool-cases (is_stable settings s.inference_started_at w.now)) [
      | inl stable ↦ none-ne-some (sym (rw (running, stable) at gone) ∙ held)
      | inr fresh ↦ none-ne-some (sym (rw (running, fresh) at gone) ∙ held)
    ]
    | inr exited ↦
        start_if_due_serves w w.after_cleanup (clean_up no_metrics settings w s)
          (rw exited at returns) (rw exited at gone)
  ]

  pub ensure-IsSupervised :
      (w : ServiceWorld H S) (s : CameraSupervisor H S M)
      → IsSupervised settings s
      → IsSupervised settings (ensure_inference_service no_metrics settings true w s).1
  unfolding ensure_inference_service
  ensure-IsSupervised w s h = ensure_with-IsSupervised s.inference_service w s h

  pub ensure_serves :
      (w : ServiceWorld H S) (s : CameraSupervisor H S M)
      → (ensure_inference_service no_metrics settings true w s).0 ≡ ok done
      → (ensure_inference_service no_metrics settings true w s).1.inference_service ≡ none
      → ⊥
  unfolding ensure_inference_service
  ensure_serves w s returns gone = ensure_with_serves s.inference_service w s refl returns gone
