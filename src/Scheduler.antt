-- ===== src/Scheduler.antt =====
-- application/gpu_scheduler.py: the latest-frame, round-robin scheduler of a shared device.
-- Monotonic times and ages are microseconds; a time before the submission gives an age of 0.
pub mod Queues
pub mod Ready
pub mod Conservation
pub mod Loop
pub mod Delivery
pub mod Safety
pub mod Bounds
use vehicle_intelligence.Prelude.{
  ℕ, zero, suc, ◌+◌, ◌-◌, ◌*◌, Str, Dict, get, put, pop, member, discard, total, size, ltb, leb,
  if◌then◌else◌, Option, none, some, List, [], ◌∷◌, ◌++◌, length, Bool, not, ◌==◌, Result, ok, err,
  scheduler_capacity_error,
}

-- domain/frame.py; the pixels are of any type.
pub record VideoFrame (I : Type 0) : Type 0 where
  pub camera_id : Str
  pub frame_id : ℕ
  pub timestamp : ℕ
  pub image : I
  pub stream_epoch : ℕ

pub record ScheduledFrame (I : Type 0) : Type 0 where
  pub frame : VideoFrame I
  pub submitted_monotonic : ℕ

pub record SchedulerConfig : Type 0 where
  pub maximum_cameras : ℕ
  pub maximum_batch_size : ℕ
  pub per_camera_queue_size : ℕ
  pub maximum_frame_age_ms : ℕ

pub record SchedulerSnapshot : Type 0 where
  pub submitted : ℕ
  pub emitted : ℕ
  pub dropped_oldest : ℕ
  pub dropped_stale : ℕ
  pub pending : ℕ
  pub cameras : ℕ
  pub emitted_per_camera : Dict ℕ

-- FairLatestFrameScheduler; `ready_set` is a Python set.
pub record Scheduler (I : Type 0) : Type 0 where
  pub queues : Dict (List (ScheduledFrame I))
  pub ready : List Str
  pub ready_set : List Str
  pub submitted : ℕ
  pub emitted : ℕ
  pub dropped_oldest : ℕ
  pub dropped_stale : ℕ
  pub emitted_per_camera : Dict ℕ

-- d[k] of a `defaultdict(int)`
unfoldable pub count_of : Option ℕ → ℕ
count_of none = 0
count_of (some n) = n

module _ (I : Type 0) where
  abbrev pub init : Scheduler I
  init = record {
    queues = [];
    ready = [];
    ready_set = [];
    submitted = 0;
    emitted = 0;
    dropped_oldest = 0;
    dropped_stale = 0;
    emitted_per_camera = [];
  }

module _ {I : Type 0} where
  unfoldable pub mark_ready : Str → Scheduler I → Scheduler I
  mark_ready camera_id s =
      if member camera_id s.ready_set
      then s
      else record s { ready = s.ready ++ camera_id ∷ []; ready_set = camera_id ∷ s.ready_set }

  -- `while len(queue) >= per_camera_queue_size`: the frames dropped and the queue that stays.
  -- The configured size is positive, so the queue that loses a frame is never empty.
  unfoldable pub make_room : ℕ → List (ScheduledFrame I) → ℕ × List (ScheduledFrame I)
  make_room limit [] = (0, [])
  make_room limit (item ∷ queue) =
      let rest = make_room limit queue in
      if leb limit (suc (length queue)) then (rest.0 + 1, rest.1) else (0, item ∷ queue)

  -- the body of `submit` once the queue is found or made
  unfoldable pub enqueue :
      SchedulerConfig → VideoFrame I → ℕ → List (ScheduledFrame I) → Scheduler I → ℕ × Scheduler I
  unfolding make_room mark_ready
  enqueue config frame now queue s =
      let room = make_room config.per_camera_queue_size queue in
      (
        room.0,
        mark_ready frame.camera_id (record s {
          queues =
              put s.queues frame.camera_id
                (room.1 ++ record { frame = frame; submitted_monotonic = now } ∷ []);
          submitted = s.submitted + 1;
          dropped_oldest = s.dropped_oldest + room.0;
        }),
      )

  unfoldable pub submit :
      SchedulerConfig → VideoFrame I → ℕ → Scheduler I → Result (ℕ × Scheduler I)
  unfolding enqueue
  submit config frame now s = elim (get s.queues frame.camera_id) [
    | none ↦
        if leb config.maximum_cameras (size s.queues)
        then err scheduler_capacity_error
        else ok (enqueue config frame now [] s)
    | some queue ↦ ok (enqueue config frame now queue s)
  ]

  -- the result is the number of frames that the queue held
  unfoldable pub unregister : Str → Scheduler I → ℕ × Scheduler I
  unregister camera_id s = (
    elim (get s.queues camera_id) [ none ↦ 0 | some queue ↦ length queue ],
    record s {
      queues = pop s.queues camera_id;
      ready = discard camera_id s.ready;
      ready_set = discard camera_id s.ready_set;
    },
  )

  -- age * 1000 > maximum_frame_age_ms, with the age in seconds
  unfoldable pub is_stale : SchedulerConfig → ScheduledFrame I → ℕ → Bool
  is_stale config item now =
      ltb (config.maximum_frame_age_ms * 1000) (now - item.submitted_monotonic)

  -- `while queue and self._is_stale(queue[0], now)`
  unfoldable pub drop_stale :
      SchedulerConfig → ℕ → List (ScheduledFrame I) → ℕ × List (ScheduledFrame I)
  drop_stale config now [] = (0, [])
  drop_stale config now (item ∷ queue) =
      let rest = drop_stale config now queue in
      if is_stale config item now then (rest.0 + 1, rest.1) else (0, item ∷ queue)

  -- `if queue: self._mark_ready(camera_id)`
  unfoldable pub requeue : Str → List (ScheduledFrame I) → Scheduler I → Scheduler I
  unfolding mark_ready
  requeue camera_id [] s = s
  requeue camera_id (_ ∷ _) s = mark_ready camera_id s

  -- the rest of the loop's body, on the queue without its stale frames
  unfoldable pub take_front :
      Str → List (ScheduledFrame I) → Scheduler I → Option (ScheduledFrame I) × Scheduler I
  unfolding requeue count_of
  take_front camera_id [] s = (none, record s { queues = put s.queues camera_id [] })
  take_front camera_id (item ∷ queue) s = (
    some item,
    requeue camera_id queue (record s {
      queues = put s.queues camera_id queue;
      emitted = s.emitted + 1;
      emitted_per_camera =
          put s.emitted_per_camera camera_id (count_of (get s.emitted_per_camera camera_id) + 1);
    }),
  )

  -- one round of `_pop_locked`, on the camera at the front and the others
  unfoldable pub serve :
      SchedulerConfig → ℕ → Str → List Str → Scheduler I → Option (ScheduledFrame I) × Scheduler I
  unfolding drop_stale take_front
  serve config now camera_id ready s =
      let s' : Scheduler I = record s {
        ready = ready;
        ready_set = discard camera_id s.ready_set;
      } in
      elim (get s.queues camera_id) [
        | none ↦ (none, s')
        | some queue ↦
            let fresh = drop_stale config now queue in
            take_front camera_id fresh.1 (record s' { dropped_stale = s.dropped_stale + fresh.0 })
      ]

  abbrev pub push : List (ScheduledFrame I) → Option (ScheduledFrame I) → List (ScheduledFrame I)
  push batch none = batch
  push batch (some item) = batch ++ item ∷ []

  -- the loop of `_pop_locked`, on fuel
  unfoldable pub pop_loop :
      ℕ
      → SchedulerConfig
      → ℕ
      → List (ScheduledFrame I)
      → Scheduler I
      → List (ScheduledFrame I) × Scheduler I
  unfolding serve
  pop_loop zero config now batch s = (batch, s)
  pop_loop (suc fuel) config now batch s = elim s.ready [
    | [] ↦ (batch, s)
    | camera_id ∷ ready ↦
        let served = serve config now camera_id ready s in
        let rest = pop_loop fuel config now (push batch served.0) served.1 in
        if ltb (length batch) config.maximum_batch_size then rest else (batch, s)
  ]

  -- Each round fills the batch or shortens the ready queue, so this fuel suffices.
  unfoldable pub pop_batch :
      SchedulerConfig → ℕ → Scheduler I → List (ScheduledFrame I) × Scheduler I
  unfolding pop_loop
  pop_batch config now s = pop_loop (config.maximum_batch_size + length s.ready) config now [] s

  pub pending : Scheduler I → ℕ
  pending s = total length s.queues

  pub snapshot : Scheduler I → SchedulerSnapshot
  unfolding pending
  snapshot s = record {
    submitted = s.submitted;
    emitted = s.emitted;
    dropped_oldest = s.dropped_oldest;
    dropped_stale = s.dropped_stale;
    pending = pending s;
    cameras = size s.queues;
    emitted_per_camera = s.emitted_per_camera;
  }
