-- ===== src/Scheduler/Ready.antt =====
-- The ready queue: it holds exactly the cameras with waiting frames, each once.
use vehicle_intelligence.Prelude.{
  ℕ, ◌≡◌, refl, Str, ◌==◌, eq_iff, eq_refl, get, member, IsUnique, IsUnique-append,
  IsUnique-discard, member-append, member-discard, get-put, get-put_self, get-pop, Option, none,
  some, List, [], ◌∷◌, ◌++◌, ok, arith, Option-cases, inl, inr, Bool, true, false,
}
use vehicle_intelligence.Scheduler.{
  Scheduler, ScheduledFrame, SchedulerConfig, VideoFrame, make_room, mark_ready, enqueue, submit,
  unregister, drop_stale, requeue, take_front, serve, init,
}

module _ {I : Type 0} where
  abbrev pub has_frames : Option (List (ScheduledFrame I)) → Bool
  has_frames none = false
  has_frames (some []) = false
  has_frames (some (_ ∷ _)) = true

  pub record IsReady (s : Scheduler I) : Type 0 where
    pub in_step : (c : Str) → member c s.ready_set ≡ member c s.ready
    pub unique : IsUnique s.ready
    pub waiting : (c : Str) → member c s.ready ≡ has_frames (get s.queues c)

  -- as above, with no promise for one camera
  record IsReadyBut (c : Str) (s : Scheduler I) : Type 0 where
    in_step : (j : Str) → member j s.ready_set ≡ member j s.ready
    unique : IsUnique s.ready
    waiting : (j : Str) → (c == j) ≡ false → member j s.ready ≡ has_frames (get s.queues j)

  mark_ready-IsReady :
      (c : Str) (s : Scheduler I)
      → IsReadyBut c s
      → has_frames (get s.queues c) ≡ true
      → IsReady (mark_ready c s)
  unfolding mark_ready
  mark_ready-IsReady c s h full = record {
    in_step = λ j. ground (arith, h.in_step j, h.in_step c, eq_iff j c, member-append j s.ready c);
    unique = ground (arith, h.unique, h.in_step c, IsUnique-append s.ready c);
    waiting = λ j.
        ground (arith, h.in_step c, h.waiting j, eq_iff c j, eq_iff j c, member-append j s.ready c);
  }

  has_frames-append :
      (queue : List (ScheduledFrame I)) (item : ScheduledFrame I)
      → has_frames (some (queue ++ item ∷ [])) ≡ true
  has_frames-append [] item = refl
  has_frames-append (x ∷ queue) item = refl

  enqueue-IsReady :
      (config : SchedulerConfig) (frame : VideoFrame I) (now : ℕ) (queue : List (ScheduledFrame I))
      (s : Scheduler I)
      → IsReady s
      → IsReady (enqueue config frame now queue s).1
  unfolding enqueue
  enqueue-IsReady config frame now queue s h =
      let c = frame.camera_id in
      let kept = (make_room config.per_camera_queue_size queue).1 in
      let item : ScheduledFrame I = record { frame = frame; submitted_monotonic = now } in
      mark_ready-IsReady c _
        (record {
          in_step = h.in_step;
          unique = h.unique;
          waiting =
              λ j other. ground (arith, h.waiting j, get-put s.queues c j (kept ++ item ∷ []));
        })
        (rw (get-put s.queues c c (kept ++ item ∷ []), eq_refl c) (has_frames-append kept item))

  pub submit-IsReady :
      (config : SchedulerConfig) (frame : VideoFrame I) (now n : ℕ) (s s' : Scheduler I)
      → submit config frame now s ≡ ok (n, s')
      → IsReady s
      → IsReady s'
  unfolding submit
  submit-IsReady config frame now n s s' e h = elim (Option-cases (get s.queues frame.camera_id)) [
    | inl new ↦ ground (arith, enqueue-IsReady config frame now [] s h)
    | inr (queue, old) ↦ ground (arith, enqueue-IsReady config frame now queue s h)
  ]

  pub unregister-IsReady : (c : Str) (s : Scheduler I) → IsReady s → IsReady (unregister c s).1
  unfolding unregister
  unregister-IsReady c s h = record {
    in_step = λ j.
        ground (arith, h.in_step j, member-discard c j s.ready_set, member-discard c j s.ready);
    unique = IsUnique-discard c s.ready h.unique;
    waiting = λ j. ground (arith, h.waiting j, member-discard c j s.ready, get-pop s.queues c j);
  }

  requeue-IsReady :
      (c : Str) (queue : List (ScheduledFrame I)) (s : Scheduler I)
      → IsReadyBut c s
      → member c s.ready ≡ false
      → get s.queues c ≡ some queue
      → IsReady (requeue c queue s)
  unfolding requeue
  requeue-IsReady c [] s h out found = record {
    in_step = h.in_step;
    unique = h.unique;
    waiting = λ j. ground (arith, h.waiting j, eq_iff c j);
  }
  requeue-IsReady c (x ∷ queue) s h out found = mark_ready-IsReady c s h (rw found)

  take_front-IsReady :
      (c : Str) (queue : List (ScheduledFrame I)) (s : Scheduler I)
      → IsReadyBut c s
      → member c s.ready ≡ false
      → IsReady (take_front c queue s).1
  unfolding take_front
  take_front-IsReady c [] s h out = record {
    in_step = h.in_step;
    unique = h.unique;
    waiting = λ j. ground (arith, h.waiting j, eq_iff c j, get-put s.queues c j []);
  }
  take_front-IsReady c (item ∷ queue) s h out =
      requeue-IsReady c queue _
        (record {
          in_step = h.in_step;
          unique = h.unique;
          waiting = λ j other. ground (arith, h.waiting j, get-put s.queues c j queue);
        })
        out (get-put_self s.queues c queue)

  pub serve-IsReady :
      (config : SchedulerConfig) (now : ℕ) (c : Str) (ready : List Str) (s : Scheduler I)
      → s.ready ≡ c ∷ ready
      → IsReady s
      → IsReady (serve config now c ready s).1
  unfolding serve
  serve-IsReady config now c ready s first h =
      let u : IsUnique (c ∷ ready) = rw first at h.unique in
      elim (Option-cases (get s.queues c)) [
        | inl gone ↦ absurd (ground (arith, first, h.waiting c, eq_refl c))
        | inr (queue, found) ↦
            rw (found, serve)
              (take_front-IsReady c (drop_stale config now queue).1 _
                (record {
                  in_step = λ j. ground (
                    arith,
                    first,
                    h.in_step j,
                    eq_iff j c,
                    eq_iff c j,
                    eq_refl c,
                    member-discard c j s.ready_set,
                    u.0,
                  );
                  unique = u.1;
                  waiting = λ j other. ground (arith, first, h.waiting j, eq_iff j c, eq_refl c);
                })
                u.0)
      ]

  pub init-IsReady : IsReady (init I)
  init-IsReady = record { in_step = λ c. refl; unique = tt; waiting = λ c. refl }
