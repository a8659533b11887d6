-- ===== src/Scheduler/Bounds.antt =====
-- The sizes of the queues and of the table of cameras.
use vehicle_intelligence.Prelude.{
  ℕ, ◌+◌, ◌≤◌, ◌<◌, ◌≡◌, refl, Str, get, put, worth, size, contains, IsDistinct, get-put, get-pop,
  put-IsDistinct, pop-IsDistinct, size-put, size-pop, length-append, List, [], ◌∷◌, ◌++◌, length,
  ok, arith, Option-cases, inl, inr, some, if◌then◌else◌,
}
use vehicle_intelligence.Scheduler.{
  Scheduler, ScheduledFrame, SchedulerConfig, VideoFrame, make_room, mark_ready, enqueue, submit,
  unregister, drop_stale, take_front, serve, init,
}
use vehicle_intelligence.Scheduler.Queues.{make_room_lem, drop_stale_lem}

module _ {I : Type 0} (config : SchedulerConfig) where
  pub record IsBounded (s : Scheduler I) : Type 0 where
    pub queue : (c : Str) → worth length (get s.queues c) ≤ config.per_camera_queue_size
    pub cameras : size s.queues ≤ config.maximum_cameras
    pub distinct : IsDistinct s.queues

  put-IsBounded :
      (c : Str) (queue : List (ScheduledFrame I)) (s t : Scheduler I)
      → t.queues ≡ put s.queues c queue
      → length queue ≤ config.per_camera_queue_size
      → size (put s.queues c queue) ≤ config.maximum_cameras
      → IsBounded s
      → IsBounded t
  put-IsBounded c queue s t e fits room h = record {
    queue = λ j. rw (e, get-put s.queues c j queue) (ground (arith, h.queue j));
    cameras = rw e room;
    distinct = rw e (put-IsDistinct s.queues c queue h.distinct);
  }

  enqueue-IsBounded :
      (frame : VideoFrame I) (now : ℕ) (queue : List (ScheduledFrame I)) (s : Scheduler I)
      → 0 < config.per_camera_queue_size
      → (if contains s.queues frame.camera_id then size s.queues else size s.queues + 1)
        ≤ config.maximum_cameras
      → IsBounded s
      → IsBounded (enqueue config frame now queue s).1
  unfolding enqueue mark_ready
  enqueue-IsBounded frame now queue s p room h =
      let limit = config.per_camera_queue_size in
      let item : ScheduledFrame I = record { frame = frame; submitted_monotonic = now } in
      let kept = (make_room limit queue).1 in
      put-IsBounded frame.camera_id (kept ++ item ∷ []) s _ (ground arith)
        (omega (arith, make_room_lem limit queue p, length-append kept (item ∷ [])))
        (rw (size-put s.queues frame.camera_id (kept ++ item ∷ [])) room) h

  pub submit-IsBounded :
      (frame : VideoFrame I) (now n : ℕ) (s s' : Scheduler I)
      → 0 < config.per_camera_queue_size
      → submit config frame now s ≡ ok (n, s')
      → IsBounded s
      → IsBounded s'
  unfolding submit
  submit-IsBounded frame now n s s' p e h = elim (Option-cases (get s.queues frame.camera_id)) [
    | inl new ↦ ground (arith, enqueue-IsBounded frame now [] s p, h)
    | inr (queue, old) ↦ ground (arith, enqueue-IsBounded frame now queue s p, h, h.cameras)
  ]

  pub unregister-IsBounded :
      (c : Str) (s : Scheduler I) → IsBounded s → IsBounded (unregister c s).1
  unfolding unregister
  unregister-IsBounded c s h = record {
    queue = λ j. rw (get-pop s.queues c j) (ground (arith, h.queue j));
    cameras = omega (arith, size-pop s.queues c, h.cameras);
    distinct = pop-IsDistinct s.queues c h.distinct;
  }

  take_front-IsBounded :
      (c : Str) (queue old : List (ScheduledFrame I)) (s : Scheduler I)
      → get s.queues c ≡ some old
      → length queue ≤ length old
      → IsBounded s
      → IsBounded (take_front c queue s).1
  unfolding take_front mark_ready
  take_front-IsBounded c [] old s found shorter h =
      put-IsBounded c [] s _ refl (omega arith) (ground (arith, size-put s.queues c [], h.cameras))
        h
  take_front-IsBounded c (item ∷ queue) old s found shorter h =
      put-IsBounded c queue s _ (ground arith) (ground (arith, h.queue c))
        (ground (arith, size-put s.queues c queue, h.cameras)) h

  pub serve-IsBounded :
      (now : ℕ) (c : Str) (ready : List Str) (s : Scheduler I)
      → IsBounded s
      → IsBounded (serve config now c ready s).1
  unfolding serve
  serve-IsBounded now c ready s h = elim (Option-cases (get s.queues c)) [
    | inl gone ↦
        rw (gone, serve) (record { queue = h.queue; cameras = h.cameras; distinct = h.distinct })
    | inr (queue, found) ↦
        rw (found, serve)
          (take_front-IsBounded c (drop_stale config now queue).1 queue _ found
            (omega (arith, drop_stale_lem config now queue))
            (record { queue = h.queue; cameras = h.cameras; distinct = h.distinct }))
  ]

  pub init-IsBounded : IsBounded (init I)
  init-IsBounded = record { queue = λ c. omega arith; cameras = omega arith; distinct = tt }
