-- ===== src/Scheduler/Conservation.antt =====
-- No frame is lost without being counted.
use vehicle_intelligence.Prelude.{
  ℕ, ◌+◌, ◌<◌, ◌≡◌, Str, get, worth, IsDistinct, total-put, total-pop, length-append, Option-cases,
  inl, inr, List, [], ◌∷◌, length, ok, discard, arith, ◌++◌,
}
use vehicle_intelligence.Scheduler.{
  Scheduler, ScheduledFrame, SchedulerConfig, VideoFrame, make_room, mark_ready, enqueue, submit,
  unregister, drop_stale, take_front, serve, pending,
}
use vehicle_intelligence.Scheduler.Queues.{make_room_lem, drop_stale_lem}

module _ {I : Type 0} where
  -- Every submitted frame was emitted, dropped for age or room, removed with its camera
  -- (`discarded` of them), or still waits.
  abbrev pub IsBalanced : ℕ → Scheduler I → Type 0
  IsBalanced discarded s =
      s.submitted ≡ s.emitted + s.dropped_oldest + s.dropped_stale + discarded + pending s

  enqueue-IsBalanced :
      (d : ℕ) (config : SchedulerConfig) (frame : VideoFrame I) (now : ℕ)
      (queue : List (ScheduledFrame I)) (s : Scheduler I)
      → 0 < config.per_camera_queue_size
      → worth length (get s.queues frame.camera_id) ≡ length queue
      → IsBalanced d s
      → IsBalanced d (enqueue config frame now queue s).1
  unfolding enqueue mark_ready pending
  enqueue-IsBalanced d config frame now queue s p w h =
      let limit = config.per_camera_queue_size in
      let item : ScheduledFrame I = record { frame = frame; submitted_monotonic = now } in
      let kept = (make_room limit queue).1 in
      ground (
        arith,
        make_room_lem limit queue p,
        length-append kept (item ∷ []),
        total-put length s.queues frame.camera_id (kept ++ item ∷ []),
      )

  pub submit-IsBalanced :
      (d : ℕ) (config : SchedulerConfig) (frame : VideoFrame I) (now n : ℕ) (s s' : Scheduler I)
      → 0 < config.per_camera_queue_size
      → submit config frame now s ≡ ok (n, s')
      → IsBalanced d s
      → IsBalanced d s'
  unfolding submit
  submit-IsBalanced d config frame now n s s' p e h =
      elim (Option-cases (get s.queues frame.camera_id)) [
        | inl new ↦ ground (arith, enqueue-IsBalanced d config frame now [] s)
        | inr (queue, old) ↦ ground (arith, enqueue-IsBalanced d config frame now queue s)
      ]

  pub unregister-IsBalanced :
      (d : ℕ) (c : Str) (s : Scheduler I)
      → IsDistinct s.queues
      → IsBalanced d s
      → IsBalanced (d + (unregister c s).0) (unregister c s).1
  unfolding unregister pending
  unregister-IsBalanced d c s u h = ground (arith, total-pop length s.queues c u)

  -- The queue in the table still has the stale frames that are already counted as dropped.
  take_front-IsBalanced :
      (d : ℕ) (c : Str) (queue : List (ScheduledFrame I)) (s : Scheduler I)
      → s.submitted + worth length (get s.queues c)
        ≡ s.emitted + s.dropped_oldest + s.dropped_stale + d + pending s + length queue
      → IsBalanced d (take_front c queue s).1
  unfolding take_front mark_ready pending
  take_front-IsBalanced d c [] s h = ground (arith, total-put length s.queues c [])
  take_front-IsBalanced d c (item ∷ []) s h = ground (arith, total-put length s.queues c [])
  take_front-IsBalanced d c (item ∷ next ∷ queue) s h =
      ground (arith, total-put length s.queues c (next ∷ queue))

  pub serve-IsBalanced :
      (d : ℕ) (config : SchedulerConfig) (now : ℕ) (c : Str) (ready : List Str) (s : Scheduler I)
      → IsBalanced d s
      → IsBalanced d (serve config now c ready s).1
  unfolding serve pending
  serve-IsBalanced d config now c ready s h = elim (Option-cases (get s.queues c)) [
    | inl gone ↦ ground arith
    | inr (queue, found) ↦
        let fresh = drop_stale config now queue in
        let s' : Scheduler I = record s {
          ready = ready;
          ready_set = discard c s.ready_set;
          dropped_stale = s.dropped_stale + fresh.0;
        } in
        rw (found, serve)
          (take_front-IsBalanced d c fresh.1 s' (ground (arith, drop_stale_lem config now queue)))
  ]
