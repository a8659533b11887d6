-- ===== src/Tests/SchedulerTests.antt =====
-- The scheduler at concrete inputs.
use vehicle_intelligence.Prelude.{
  ℕ, suc, ◌≤◌, ◌<◌, ◌≡◌, refl, Str, ◌==◌, codes, get, size, length, List, [], ◌∷◌, ◌++◌, none, some,
  ok, err, scheduler_capacity_error, if◌then◌else◌, ◌⊎◌, arith, All, ◌-◌,
}
use vehicle_intelligence.Scheduler.{
  VideoFrame, ScheduledFrame, Scheduler, SchedulerConfig, init, submit, pop_batch,
}
use vehicle_intelligence.Scheduler.Safety.{
  Call, submit_frame, pop_frames, unregister_camera, run, IsSound, run-IsSound,
}
use vehicle_intelligence.Scheduler.Ready.{IsReady}
use vehicle_intelligence.Scheduler.Loop.{fronts}
use vehicle_intelligence.Scheduler.Delivery.{
  IsFresh, pop_batch_lem, pop_batch_fair, submit_lem, latest, queue_of,
}

abbrev config : SchedulerConfig
config = record {
  maximum_cameras = 2;
  maximum_batch_size = 4;
  per_camera_queue_size = 1;
  maximum_frame_age_ms = 250;
}

abbrev frame : Str → ℕ → VideoFrame ℕ
frame camera_id n = record {
  camera_id = camera_id;
  frame_id = n;
  timestamp = n;
  image = n;
  stream_epoch = 0;
}

abbrev calls : List (Call ℕ)
calls =
    submit_frame (frame (codes "a") 1) 10
    ∷ submit_frame (frame (codes "b") 2) 20
    ∷ submit_frame (frame (codes "a") 3) 30
    ∷ pop_frames 40
    ∷ unregister_camera (codes "b")
    ∷ []

run-IsSound_example : IsSound config (run config calls 0 (init ℕ)).0 (run config calls 0 (init ℕ)).1
run-IsSound_example = run-IsSound config (omega arith) calls

abbrev waiting : Scheduler ℕ
waiting =
    (run config (submit_frame (frame (codes "a") 1) 10 ∷ submit_frame (frame (codes "b") 2) 20 ∷ [])
      0 (init ℕ)).1

pop_batch_lem_example :
    (length (pop_batch config 40 waiting).0 ≤ 4)
    × All (IsFresh config 40) (pop_batch config 40 waiting).0
    × (((pop_batch config 40 waiting).1.ready ≡ []) ⊎ (4 ≤ length (pop_batch config 40 waiting).0))
pop_batch_lem_example = pop_batch_lem config 40 waiting

waiting_IsReady : IsReady waiting
waiting_IsReady =
    (run-IsSound config (omega arith)
      (submit_frame (frame (codes "a") 1) 10 ∷ submit_frame (frame (codes "b") 2) 20 ∷ [])).ready

ready_both : waiting.ready ≡ codes "a" ∷ codes "b" ∷ []
unfolding run ◌==◌
ready_both = refl

pop_batch_fair_example :
    (rest : List (ScheduledFrame ℕ)) × ((pop_batch config 40 waiting).0
      ≡ fronts config 40 waiting.ready waiting ++ rest)
pop_batch_fair_example =
    pop_batch_fair config 40 waiting waiting_IsReady (rw ready_both (omega arith))

submit_lem_example :
    ((submit config (frame (codes "c") 3) 30 waiting ≡ err scheduler_capacity_error)
      × (get waiting.queues (codes "c") ≡ none)
      × (2 ≤ size waiting.queues))
    ⊎ ((n : ℕ) × (s' : Scheduler ℕ) × (submit config (frame (codes "c") 3) 30 waiting ≡ ok (n, s'))
        × ((get waiting.queues (codes "c") ≡ none) → size waiting.queues < 2)
        × (n ≡ suc (length (queue_of config waiting (codes "c"))) - 1)
        × ((j : Str)
            → get s'.queues j ≡ (
                if codes "c" == j
                then some
                    (latest config 30 (frame (codes "c") 3) (queue_of config waiting (codes "c")))
                else get waiting.queues j)))
submit_lem_example = submit_lem config (frame (codes "c") 3) 30 waiting (omega arith)
