-- ===== src/Scheduler/Delivery.antt =====
-- What one call gives out: `pop_batch` and `submit`.
use mathlib.Core.List.{append-nil}
use vehicle_intelligence.Prelude.{
  ℕ, suc, ◌+◌, ◌-◌, ◌≤◌, ◌<◌, ◌≡◌, refl, sym, Str, get, get-put, size, ◌==◌, err,
  scheduler_capacity_error, List, [], ◌∷◌, ◌++◌, length, drop, All, All-append, if◌then◌else◌, leb,
  ok, arith, Option-cases, Bool-cases, inl, inr, ◌⊎◌, false, none, some, Option,
}
use vehicle_intelligence.Scheduler.{
  Scheduler, ScheduledFrame, SchedulerConfig, VideoFrame, submit, enqueue, make_room, mark_ready,
  pop_batch, serve, push, is_stale, drop_stale,
}
use vehicle_intelligence.Scheduler.Queues.{drop_stale_fresh}
use vehicle_intelligence.Scheduler.Ready.{IsReady}
use vehicle_intelligence.Scheduler.Loop.{
  pop_loop_inv, pop_loop_ends, pop_loop-fronts, fronts, front, serve-first_fresh, first_fresh,
  length-push,
}

module _ {I : Type 0} (config : SchedulerConfig) where
  abbrev pub IsFresh : ℕ → ScheduledFrame I → Type 0
  IsFresh now item = is_stale config item now ≡ false

  push-IsFresh :
      (now : ℕ) (batch : List (ScheduledFrame I)) (o : Option (List (ScheduledFrame I)))
      → All (IsFresh now) batch
      → All (IsFresh now) (push batch (first_fresh config now o))
  unfolding first_fresh
  push-IsFresh now batch none h = h
  push-IsFresh now batch (some queue) h = go (drop_stale config now queue).1 refl
    where
      go :
          (q : List (ScheduledFrame I))
          → (drop_stale config now queue).1 ≡ q
          → All (IsFresh now) (push batch (front config now q))
      go [] e = h
      go (item ∷ q) e =
          All-append (IsFresh now) batch item h (drop_stale_fresh config now queue q item e)

  -- A batch is no longer than configured, holds no stale frame, and stops only when it is full or
  -- no camera is ready.
  pub pop_batch_lem :
      (now : ℕ) (s : Scheduler I)
      → (length (pop_batch config now s).0 ≤ config.maximum_batch_size)
        × All (IsFresh now) (pop_batch config now s).0
        × (((pop_batch config now s).1.ready ≡ [])
            ⊎ (config.maximum_batch_size ≤ length (pop_batch config now s).0))
  unfolding pop_batch
  pop_batch_lem now s =
      let fuel = config.maximum_batch_size + length s.ready in
      (
        pop_loop_inv config now (λ batch _. length batch ≤ config.maximum_batch_size)
            (λ batch t c ready e more h.
              ground (arith, length-push config now batch (serve config now c ready t).0))
            fuel [] s (omega arith),
        pop_loop_inv config now (λ batch _. All (IsFresh now) batch)
            (λ batch t c ready e more h.
              rw (serve-first_fresh config now c ready t)
                (push-IsFresh now batch (get t.queues c) h))
            fuel [] s tt,
        pop_loop_ends config now fuel [] s (omega arith),
      )

  -- If there is room for all the ready cameras, the batch begins with the first fresh frame of
  -- each of them, in their order: no camera gives a second frame before each has had its turn.
  pub pop_batch_fair :
      (now : ℕ) (s : Scheduler I)
      → IsReady s
      → length s.ready ≤ config.maximum_batch_size
      → (rest : List (ScheduledFrame I)) × ((pop_batch config now s).0
          ≡ fronts config now s.ready s ++ rest)
  unfolding pop_batch
  pop_batch_fair now s h room =
      pop_loop-fronts config now s.ready [] (config.maximum_batch_size + length s.ready) [] s
        (sym (append-nil s.ready)) h.unique (omega arith) (omega arith)

  make_room-drop :
      (limit : ℕ) (queue : List (ScheduledFrame I))
      → 0 < limit
      → ((make_room limit queue).0 ≡ suc (length queue) - limit)
        × ((make_room limit queue).1 ≡ drop (suc (length queue) - limit) queue)
  unfolding make_room
  make_room-drop limit [] p =
      let none_over : 1 - limit ≡ 0 = omega arith in rw none_over (refl, refl)
  make_room-drop limit (item ∷ queue) p = elim (Bool-cases (leb limit (suc (length queue)))) [
    | inl over ↦
        let e : suc (suc (length queue)) - limit ≡ suc (suc (length queue) - limit) =
          ground arith in
        let rest = make_room-drop limit queue p in rw (over, e) (omega (arith, rest.0), rest.1)
    | inr fits ↦
        let e : suc (suc (length queue)) - limit ≡ 0 = ground arith in rw (fits, e) (refl, refl)
  ]

  -- the frames that wait, none if the camera is new
  unfoldable pub or_empty : Option (List (ScheduledFrame I)) → List (ScheduledFrame I)
  or_empty none = []
  or_empty (some queue) = queue

  abbrev pub queue_of : Scheduler I → Str → List (ScheduledFrame I)
  queue_of s c = or_empty (get s.queues c)

  -- the queue that `submit` leaves: the newest frames of the old one, and the frame
  abbrev pub latest : ℕ → VideoFrame I → List (ScheduledFrame I) → List (ScheduledFrame I)
  latest now frame old =
      drop (suc (length old) - config.per_camera_queue_size) old
      ++ record { frame = frame; submitted_monotonic = now } ∷ []

  enqueue-latest :
      (frame : VideoFrame I) (now : ℕ) (queue : List (ScheduledFrame I)) (s : Scheduler I)
      → 0 < config.per_camera_queue_size
      → ((enqueue config frame now queue s).0 ≡ suc (length queue) - config.per_camera_queue_size)
        × ((j : Str)
            → get (enqueue config frame now queue s).1.queues j
              ≡ (if frame.camera_id == j then some (latest now frame queue) else get s.queues j))
  unfolding enqueue mark_ready
  enqueue-latest frame now queue s p =
      let room = make_room-drop config.per_camera_queue_size queue p in
      (
        room.0,
        λ j. ground (arith, room.1, get-put s.queues frame.camera_id j (latest now frame queue)),
      )

  -- A frame is refused exactly when its camera is new and the table of cameras is full. Accepted,
  -- it waits last in its camera's queue, behind the newest frames that fit; the frames that the
  -- call reports as dropped are the oldest ones over the size; no other queue changes.
  pub submit_lem :
      (frame : VideoFrame I) (now : ℕ) (s : Scheduler I)
      → 0 < config.per_camera_queue_size
      → ((submit config frame now s ≡ err scheduler_capacity_error)
          × (get s.queues frame.camera_id ≡ none)
          × (config.maximum_cameras ≤ size s.queues))
        ⊎ ((n : ℕ) × (s' : Scheduler I) × (submit config frame now s ≡ ok (n, s'))
            × ((get s.queues frame.camera_id ≡ none) → size s.queues < config.maximum_cameras)
            × (n ≡ suc (length (queue_of s frame.camera_id)) - config.per_camera_queue_size)
            × ((j : Str)
                → get s'.queues j ≡ (
                    if frame.camera_id == j
                    then some (latest now frame (queue_of s frame.camera_id))
                    else get s.queues j)))
  unfolding submit or_empty
  submit_lem frame now s p = elim (Option-cases (get s.queues frame.camera_id)) [
    | inl new ↦ elim (Bool-cases (leb config.maximum_cameras (size s.queues))) [
      | inl full ↦ inl (rw (new, submit, full) refl, new, ground arith)
      | inr free ↦
          let done = enqueue config frame now [] s in
          let facts = enqueue-latest frame now [] s p in
          inr (
            done.0,
            done.1,
            rw (new, submit, free) refl,
            (λ _. ground arith),
            rw (new, or_empty) facts.0,
            rw (new, or_empty) facts.1,
          )
    ]
    | inr (queue, old) ↦
        let done = enqueue config frame now queue s in
        let facts = enqueue-latest frame now queue s p in
        inr (
          done.0,
          done.1,
          rw (old, submit) refl,
          (λ none_there. cc),
          rw (old, or_empty) facts.0,
          rw (old, or_empty) facts.1,
        )
  ]
