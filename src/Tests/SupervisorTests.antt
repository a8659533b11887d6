-- ===== src/Tests/SupervisorTests.antt =====
-- The camera supervisor at concrete inputs.
use vehicle_intelligence.Prelude.{
  ◌*◌, min, leb, if◌then◌else◌, ◌==◌, ℕ, ◌+◌, ◌≡◌, ◌≤◌, refl, Str, codes, true, false, some, List,
  [], ◌∷◌, arith, size,
}
use vehicle_intelligence.Supervisor.{
  Camera, ManagedWorker, CameraSupervisor, SupervisorSettings, World, backoff, by_id,
  starts_remaining, schedule_failure, write_status,
}
use vehicle_intelligence.Supervisor.Reconcile.{
  reconcile_workers, check_each, check_worker, worker_exited, start_each, started,
}
use vehicle_intelligence.Supervisor.Service.{
  ServiceWorld, new_supervisor, reconcile_once, ensure_inference_service, ensure_with, start_if_due,
}
use vehicle_intelligence.Persistence.Order.{str_lt}
use vehicle_intelligence.Supervisor.Frames.{IsSame}
use vehicle_intelligence.Supervisor.Starts.{AllActive, reconcile-AllActive}
use vehicle_intelligence.Supervisor.Bounds.{IsBounded, reconcile-IsBounded}
use vehicle_intelligence.Supervisor.Backoff.{
  IsFailed, backoff_bounds, reconcile_waits, reconcile-IsFailed,
}
use vehicle_intelligence.Supervisor.History.{IsSupervised}
use vehicle_intelligence.Supervisor.Runs.{Call, reconcile, stop, run, run-IsSupervised}

abbrev settings : SupervisorSettings
settings = record {
  reconcile_interval = 1;
  restart_backoff = 2;
  restart_backoff_max = 10;
  restart_stability = 60;
  maximum_active_workers = 1;
  maximum_starts_per_reconcile = 4;
}

abbrev camera : Str → Camera ℕ
camera id = record { id = id; enabled = true; revision = 1; configuration = 0 }

-- two cameras, of whose workers none runs for long
abbrev world : ℕ → World Str ℕ
world now = record {
  now = now;
  wall_clock = now;
  cameras = camera (codes "c2") ∷ camera (codes "c1") ∷ [];
  persisted = λ id. some (camera id);
  running = λ h. false;
  start = λ c. some c.id;
}

abbrev service_world : ℕ → ServiceWorld Str Str
service_world now = record {
  now = now;
  after_cleanup = now;
  after_start = now;
  wall_clock = now;
  running = λ s. true;
  stops = λ h. true;
  start = some (codes "service");
}

abbrev no_metrics : ℕ
no_metrics = 0

abbrev fresh : CameraSupervisor Str Str ℕ
fresh = new_supervisor no_metrics settings []

abbrev calls : List (Call Str Str ℕ)
calls =
    reconcile (service_world 5) (world 5)
    ∷ reconcile (service_world 6) (world 6)
    ∷ stop (service_world 7)
    ∷ []

-- the first worker exits, and the other camera takes its place
one_at_a_time :
    size
      (run no_metrics settings
        (reconcile (service_world 5) (world 5) ∷ reconcile (service_world 6) (world 6) ∷ [])
        fresh).active
    ≡ 1
unfolding ◌==◌ new_supervisor run reconcile_once ensure_inference_service ensure_with start_if_due
    reconcile_workers check_each check_worker worker_exited schedule_failure write_status
    starts_remaining start_each started str_lt backoff
one_at_a_time = refl

run-IsSupervised_example :
    IsSupervised settings (run no_metrics settings calls (new_supervisor no_metrics settings []))
run-IsSupervised_example = run-IsSupervised no_metrics settings calls []

-- c1 has a worker that exited, after one failure before
abbrev worker : ManagedWorker Str
worker = record { revision = 1; handle = codes "h1"; started_at = 3 }

abbrev exited : CameraSupervisor Str Str ℕ
exited = record fresh { active = (codes "c1", worker) ∷ []; failure_counts = (codes "c1", 1) ∷ [] }

abbrev waiting : CameraSupervisor Str Str ℕ
waiting = record fresh { restart_after = (codes "c1", 9) ∷ [] }

reconcile-AllActive_example :
    AllActive exited.active
      (world 5)
      (by_id [] (world 5).cameras)
      (reconcile_workers no_metrics settings (world 5) exited)
reconcile-AllActive_example = reconcile-AllActive no_metrics settings (world 5) exited

fresh-IsBounded : IsBounded settings fresh
unfolding new_supervisor
fresh-IsBounded = record { active = omega arith; peak = omega arith }

reconcile-IsBounded_example :
    let t = reconcile_workers no_metrics settings (world 5) fresh in
    IsBounded settings t
    × (fresh.stats.workers_started ≤ t.stats.workers_started)
    × (t.stats.workers_started ≤ fresh.stats.workers_started + 4)
reconcile-IsBounded_example =
    reconcile-IsBounded no_metrics settings (world 5) fresh fresh-IsBounded

backoff_bounds_example :
    (backoff settings 1 ≡ 2)
    × (backoff settings (3 + 1)
        ≡ (if leb 3 20 then min (2 * backoff settings 3) 10 else backoff settings 3))
    × (2 ≤ backoff settings 3)
    × (backoff settings 3 ≤ 10)
backoff_bounds_example = backoff_bounds settings 3 (omega arith) (omega arith)

reconcile_waits_example :
    IsSame (codes "c1") waiting (reconcile_workers no_metrics settings (world 5) waiting)
unfolding ◌==◌ new_supervisor
reconcile_waits_example =
    reconcile_waits no_metrics settings (world 5) waiting (codes "c1") 9 refl refl refl
      (omega arith)

reconcile-IsFailed_example :
    IsFailed settings (codes "c1") 5 2 (reconcile_workers no_metrics settings (world 5) exited)
unfolding ◌==◌
reconcile-IsFailed_example =
    reconcile-IsFailed no_metrics settings (world 5) exited (codes "c1") worker (omega arith)
      (omega arith) (refl, tt) refl refl refl
