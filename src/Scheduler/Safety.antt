-- ===== src/Scheduler/Safety.antt =====
-- What the scheduler promises, over any interleaving of its calls (each holds the lock throughout).
use vehicle_intelligence.Prelude.{
  ℕ, ◌+◌, ◌<◌, ◌≡◌, refl, Str, List, [], ◌∷◌, length, ok, err, Result,
}
use vehicle_intelligence.Scheduler.{
  Scheduler, SchedulerConfig, VideoFrame, init, submit, unregister, pop_batch, pending,
}
use vehicle_intelligence.Scheduler.Conservation.{
  IsBalanced, submit-IsBalanced, unregister-IsBalanced, serve-IsBalanced,
}
use vehicle_intelligence.Scheduler.Ready.{
  IsReady, init-IsReady, submit-IsReady, unregister-IsReady, serve-IsReady,
}
use vehicle_intelligence.Scheduler.Bounds.{
  IsBounded, init-IsBounded, submit-IsBounded, unregister-IsBounded, serve-IsBounded,
}
use vehicle_intelligence.Scheduler.Loop.{pop_loop_inv}

pub data Call (I : Type 0) : Type 0 where
  submit_frame : VideoFrame I → ℕ → Call I
  pop_frames : ℕ → Call I
  unregister_camera : Str → Call I

module _ {I : Type 0} (config : SchedulerConfig) where
  abbrev pub accept : Scheduler I → Result (ℕ × Scheduler I) → Scheduler I
  accept s (ok (_, s')) = s'
  accept s (err _) = s

  -- The calls in turn: the frames that left with their cameras, and the scheduler.
  unfoldable pub run : List (Call I) → ℕ → Scheduler I → ℕ × Scheduler I
  unfolding submit pop_batch unregister
  run [] discarded s = (discarded, s)
  run (submit_frame frame now ∷ calls) discarded s =
      run calls discarded (accept s (submit config frame now s))
  run (pop_frames now ∷ calls) discarded s = run calls discarded (pop_batch config now s).1
  run (unregister_camera c ∷ calls) discarded s =
      run calls (discarded + (unregister c s).0) (unregister c s).1

  pub record IsSound (discarded : ℕ) (s : Scheduler I) : Type 0 where
    pub ready : IsReady s
    pub bounded : IsBounded config s
    pub balanced : IsBalanced discarded s

  module _ (positive : 0 < config.per_camera_queue_size) where
    accept-IsSound :
        (d : ℕ) (frame : VideoFrame I) (now : ℕ) (s : Scheduler I) (r : Result (ℕ × Scheduler I))
        → submit config frame now s ≡ r
        → IsSound d s
        → IsSound d (accept s r)
    accept-IsSound d frame now s (err e) q h = h
    accept-IsSound d frame now s (ok (n, s')) q h = record {
      ready = submit-IsReady config frame now n s s' q h.ready;
      bounded = submit-IsBounded config frame now n s s' positive q h.bounded;
      balanced = submit-IsBalanced d config frame now n s s' positive q h.balanced;
    }

    pop_batch-IsSound :
        (d now : ℕ) (s : Scheduler I) → IsSound d s → IsSound d (pop_batch config now s).1
    unfolding pop_batch
    pop_batch-IsSound d now s h =
        pop_loop_inv config now (λ _ t. IsSound d t)
          (λ batch t c ready e more k. record {
            ready = serve-IsReady config now c ready t e k.ready;
            bounded = serve-IsBounded config now c ready t k.bounded;
            balanced = serve-IsBalanced d config now c ready t k.balanced;
          })
          (config.maximum_batch_size + length s.ready) [] s h

    run_from-IsSound :
        (calls : List (Call I)) (d : ℕ) (s : Scheduler I)
        → IsSound d s
        → IsSound (run calls d s).0 (run calls d s).1
    unfolding run
    run_from-IsSound [] d s h = h
    run_from-IsSound (submit_frame frame now ∷ calls) d s h =
        run_from-IsSound calls d _ (accept-IsSound d frame now s (submit config frame now s) refl h)
    run_from-IsSound (pop_frames now ∷ calls) d s h =
        run_from-IsSound calls d _ (pop_batch-IsSound d now s h)
    run_from-IsSound (unregister_camera c ∷ calls) d s h = run_from-IsSound calls _ _ (record {
      ready = unregister-IsReady c s h.ready;
      bounded = unregister-IsBounded config c s h.bounded;
      balanced = unregister-IsBalanced d c s h.bounded.distinct h.balanced;
    })

    -- After any calls, with a positive queue size: the ready queue holds exactly the cameras with
    -- waiting frames, each once; no queue is over its size, and there are no more cameras than
    -- configured; and every accepted frame is counted as emitted, dropped for room, dropped for
    -- age, removed with its camera, or is still pending.
    pub run-IsSound :
        (calls : List (Call I)) → IsSound (run calls 0 (init I)).0 (run calls 0 (init I)).1
    run-IsSound calls = run_from-IsSound calls 0 (init I) (record {
      ready = init-IsReady;
      bounded = init-IsBounded config;
      balanced = unfold pending in refl;
    })
