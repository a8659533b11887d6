-- ===== src/Scheduler/Loop.antt =====
-- The loop of `_pop_locked`: what one round does, when the loop ends, and what it gives out.
use mathlib.Core.List.{append-nil, append_assoc}
use vehicle_intelligence.Prelude.{
  ℕ, zero, suc, ◌+◌, ◌-◌, ◌≤◌, ◌<◌, ◌≡◌, refl, sym, ap, ◌∙◌, Str, ◌==◌, eq_iff, IsUnique, get,
  member, get-put, Option, none, some, List, [], ◌∷◌, ◌++◌, length, length-append, arith,
  Option-cases, List-cases, Bool-cases, ltb, ltb→lt, lt→ltb, is_some, if◌then◌else◌, ltb→ge, inl,
  inr, ◌⊎◌, true, false,
}
use vehicle_intelligence.Scheduler.{
  Scheduler, ScheduledFrame, SchedulerConfig, mark_ready, drop_stale, take_front, serve, push,
  pop_loop,
}

module _ {I : Type 0} (config : SchedulerConfig) (now : ℕ) where
  -- the first frame of the queue that is still fresh
  abbrev pub front : List (ScheduledFrame I) → Option (ScheduledFrame I)
  front [] = none
  front (item ∷ _) = some item

  unfoldable pub first_fresh : Option (List (ScheduledFrame I)) → Option (ScheduledFrame I)
  first_fresh none = none
  first_fresh (some queue) = front (drop_stale config now queue).1

  -- Any property of the batch and the scheduler that a round keeps holds at the end.
  pub pop_loop_inv {ℓ} :
      (P : List (ScheduledFrame I) → Scheduler I → Type ℓ)
      → ((batch : List (ScheduledFrame I)) (s : Scheduler I) (c : Str) (ready : List Str)
          → s.ready ≡ c ∷ ready
          → length batch < config.maximum_batch_size
          → P batch s
          → P (push batch (serve config now c ready s).0) (serve config now c ready s).1)
      → (fuel : ℕ) (batch : List (ScheduledFrame I)) (s : Scheduler I) → P batch s
      → P (pop_loop fuel config now batch s).0 (pop_loop fuel config now batch s).1
  unfolding pop_loop
  pop_loop_inv P keep zero batch s h = h
  pop_loop_inv P keep (suc fuel) batch s h = elim (List-cases s.ready) [
    | inl e ↦ rw (e, pop_loop) h
    | inr (c, ready, e) ↦ elim (Bool-cases (ltb (length batch) config.maximum_batch_size)) [
      | inl more ↦
          rw (e, pop_loop, more)
            (pop_loop_inv P keep fuel _ _ (keep batch s c ready e (ltb→lt _ _ more) h))
      | inr full ↦ rw (e, pop_loop, full) h
    ]
  ]

  pub serve-first_fresh :
      (c : Str) (ready : List Str) (s : Scheduler I)
      → (serve config now c ready s).0 ≡ first_fresh (get s.queues c)
  unfolding serve take_front first_fresh
  serve-first_fresh c ready s = ground arith

  take_front_ready :
      (c : Str) (queue : List (ScheduledFrame I)) (s : Scheduler I)
      → ((take_front c queue s).1.ready ≡ s.ready)
        ⊎ ((take_front c queue s).1.ready ≡ s.ready ++ c ∷ []) × (is_some (front queue) ≡ true)
  unfolding take_front mark_ready
  take_front_ready c [] s = inl refl
  take_front_ready c (item ∷ []) s = inl refl
  take_front_ready c (item ∷ next ∷ queue) s = elim (Bool-cases (member c s.ready_set)) [
    | inl in_set ↦ inl (rw in_set)
    | inr out ↦ inr (rw out, refl)
  ]

  -- A camera returns to the end of the queue only if the round gave out a frame.
  pub serve_ready :
      (c : Str) (ready : List Str) (s : Scheduler I)
      → ((serve config now c ready s).1.ready ≡ ready)
        ⊎ ((serve config now c ready s).1.ready ≡ ready ++ c ∷ [])
          × (is_some (first_fresh (get s.queues c)) ≡ true)
  unfolding serve first_fresh
  serve_ready c ready s = elim (Option-cases (get s.queues c)) [
    | inl gone ↦ inl (rw (gone, serve))
    | inr (queue, found) ↦
        rw (found, serve, first_fresh) (take_front_ready c (drop_stale config now queue).1 _)
  ]

  take_front_others :
      (c j : Str) (queue : List (ScheduledFrame I)) (s : Scheduler I)
      → (c == j) ≡ false
      → get (take_front c queue s).1.queues j ≡ get s.queues j
  unfolding take_front mark_ready
  take_front_others c j [] s other = rw (get-put s.queues c j [], other)
  take_front_others c j (item ∷ []) s other = rw (get-put s.queues c j [], other)
  take_front_others c j (item ∷ next ∷ queue) s other =
      ground (arith, get-put s.queues c j (next ∷ queue))

  pub serve_others :
      (c j : Str) (ready : List Str) (s : Scheduler I)
      → (c == j) ≡ false
      → get (serve config now c ready s).1.queues j ≡ get s.queues j
  unfolding serve
  serve_others c j ready s other = elim (Option-cases (get s.queues c)) [
    | inl gone ↦ rw (gone, serve)
    | inr (queue, found) ↦
        rw (found, serve) (take_front_others c j (drop_stale config now queue).1 _ other)
  ]

  pub length-push :
      (batch : List (ScheduledFrame I)) (o : Option (ScheduledFrame I))
      → length (push batch o) ≡ length batch + (if is_some o then 1 else 0)
  length-push batch none = omega arith
  length-push batch (some item) = omega (arith, length-append batch (item ∷ []))

  round_measure :
      (batch : List (ScheduledFrame I)) (s : Scheduler I) (c : Str) (ready : List Str) (fuel : ℕ)
      → s.ready ≡ c ∷ ready
      → length batch < config.maximum_batch_size
      → (config.maximum_batch_size - length batch) + length s.ready ≤ suc fuel
      → (config.maximum_batch_size - length (push batch (serve config now c ready s).0))
          + length (serve config now c ready s).1.ready
        ≤ fuel
  round_measure batch s c ready fuel e more h = ground (
    arith,
    e,
    serve-first_fresh c ready s,
    serve_ready c ready s,
    length-push batch (serve config now c ready s).0,
    length-append ready (c ∷ []),
  )

  -- With a round of fuel for each free place and each ready camera, the loop ends by its test.
  pub pop_loop_ends :
      (fuel : ℕ) (batch : List (ScheduledFrame I)) (s : Scheduler I)
      → (config.maximum_batch_size - length batch) + length s.ready ≤ fuel
      → ((pop_loop fuel config now batch s).1.ready ≡ [])
        ⊎ (config.maximum_batch_size ≤ length (pop_loop fuel config now batch s).0)
  unfolding pop_loop
  pop_loop_ends zero batch s h = elim (List-cases s.ready) [
    | inl e ↦ inl e
    | inr (c, ready, e) ↦ absurd (ground (arith, e))
  ]
  pop_loop_ends (suc fuel) batch s h = elim (List-cases s.ready) [
    | inl e ↦ inl (rw (e, pop_loop) e)
    | inr (c, ready, e) ↦ elim (Bool-cases (ltb (length batch) config.maximum_batch_size)) [
      | inl more ↦
          rw (e, pop_loop, more)
            (pop_loop_ends fuel _ _ (round_measure batch s c ready fuel e (ltb→lt _ _ more) h))
      | inr full ↦ inr (rw (e, pop_loop, full) (ltb→ge _ _ full))
    ]
  ]

  -- The first fresh frame of each camera in turn.
  unfoldable pub fronts : List Str → Scheduler I → List (ScheduledFrame I)
  fronts [] s = []
  fronts (c ∷ cs) s = push [] (first_fresh (get s.queues c)) ++ fronts cs s

  fronts_eq :
      (cs : List Str) (c : Str) (ready : List Str) (s : Scheduler I)
      → member c cs ≡ false
      → fronts cs (serve config now c ready s).1 ≡ fronts cs s
  unfolding fronts
  fronts_eq [] c ready s out = refl
  fronts_eq (j ∷ cs) c ready s out = rw (
    serve_others c j ready s (ground (arith, eq_iff c j)),
    fronts_eq cs c ready s (ground (arith, eq_iff c j)),
  )

  push_eq :
      (batch : List (ScheduledFrame I)) (o : Option (ScheduledFrame I))
      → push batch o ≡ batch ++ push [] o
  push_eq batch none = sym (append-nil batch)
  push_eq batch (some item) = refl

  pop_loop_extends :
      (fuel : ℕ) (batch : List (ScheduledFrame I)) (s : Scheduler I)
      → (rest : List (ScheduledFrame I)) × ((pop_loop fuel config now batch s).0 ≡ batch ++ rest)
  pop_loop_extends fuel batch s =
      pop_loop_inv (λ out _. (rest : List (ScheduledFrame I)) × (out ≡ batch ++ rest))
        (λ out t c ready e more h. (
          h.0 ++ push [] (serve config now c ready t).0,
          rw (push_eq out (serve config now c ready t).0, h.1) (append_assoc batch h.0 _),
        ))
        fuel batch s ([], sym (append-nil batch))

  pop_loop_step :
      (fuel : ℕ) (batch : List (ScheduledFrame I)) (s : Scheduler I) (c : Str) (ready : List Str)
      → s.ready ≡ c ∷ ready
      → length batch < config.maximum_batch_size
      → pop_loop (suc fuel) config now batch s
        ≡ pop_loop fuel config now
            (push batch (serve config now c ready s).0)
            (serve config now c ready s).1
  unfolding pop_loop
  pop_loop_step fuel batch s c ready e more = rw (e, pop_loop) (rw (lt→ltb _ _ more))

  regroup :
      (c : Str) (cs ready : List Str) (batch : List (ScheduledFrame I)) (s : Scheduler I)
      → member c cs ≡ false
      → push batch (serve config now c ready s).0 ++ fronts cs (serve config now c ready s).1
        ≡ batch ++ fronts (c ∷ cs) s
  unfolding fronts
  regroup c cs ready batch s out =
      rw
        (
          fronts_eq cs c ready s out,
          serve-first_fresh c ready s,
          push_eq batch (first_fresh (get s.queues c)),
        )
        (append_assoc batch _ _)

  -- The cameras `cs` at the front of the ready queue are served first, in order, one frame each.
  pub pop_loop-fronts :
      (cs later : List Str) (fuel : ℕ) (batch : List (ScheduledFrame I)) (s : Scheduler I)
      → s.ready ≡ cs ++ later
      → IsUnique cs
      → length batch + length cs ≤ config.maximum_batch_size
      → length cs ≤ fuel
      → (rest : List (ScheduledFrame I)) × ((pop_loop fuel config now batch s).0
          ≡ (batch ++ fronts cs s) ++ rest)
  unfolding pop_loop fronts
  pop_loop-fronts [] later fuel batch s e u room enough =
      rw append-nil (pop_loop_extends fuel batch s)
  pop_loop-fronts (c ∷ cs) later zero batch s e u room enough = absurd (omega arith)
  pop_loop-fronts (c ∷ cs) later (suc fuel) batch s e u room enough =
      let served = serve config now c (cs ++ later) s in
      let filled = push batch served.0 in
      let space : length filled + length cs ≤ config.maximum_batch_size =
        ground (arith, length-push batch served.0) in
      let more : ltb (length batch) config.maximum_batch_size ≡ true = ground arith in
      let ih : (rest : List (ScheduledFrame I)) × ((pop_loop fuel config now filled served.1).0
            ≡ (filled ++ fronts cs served.1) ++ rest) =
        elim (serve_ready c (cs ++ later) s) [
          | inl r ↦ pop_loop-fronts cs later fuel filled served.1 r u.1 space (omega arith)
          | inr r ↦
              pop_loop-fronts cs (later ++ c ∷ []) fuel filled served.1
                (r.0 ∙ append_assoc cs later (c ∷ [])) u.1 space (omega arith)
        ] in
      (
        ih.0,
        ap (λ r. r.0) (pop_loop_step fuel batch s c (cs ++ later) e (ltb→lt _ _ more))
            ∙ (ih.1 ∙ ap (λ out. out ++ ih.0) (regroup c cs (cs ++ later) batch s u.0)),
      )
