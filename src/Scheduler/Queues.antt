-- ===== src/Scheduler/Queues.antt =====
-- One camera's queue: the two ways in which the scheduler drops frames from its front.
use vehicle_intelligence.Prelude.{ℕ, ◌+◌, ◌<◌, ◌≡◌, false, List, [], ◌∷◌, length, arith}
use vehicle_intelligence.Scheduler.{
  ScheduledFrame, SchedulerConfig, make_room, drop_stale, is_stale,
}

module _ {I : Type 0} where
  -- Every frame that leaves is counted, and there is room for one more.
  pub make_room_lem :
      (limit : ℕ) (queue : List (ScheduledFrame I))
      → 0 < limit
      → ((make_room limit queue).0 + length (make_room limit queue).1 ≡ length queue)
        × (length (make_room limit queue).1 < limit)
  unfolding make_room
  make_room_lem limit [] h = omega arith
  make_room_lem limit (item ∷ queue) h = ground (arith, make_room_lem limit queue h)

  module _ (config : SchedulerConfig) (now : ℕ) where
    pub drop_stale_lem :
        (queue : List (ScheduledFrame I))
        → (drop_stale config now queue).0 + length (drop_stale config now queue).1 ≡ length queue
    unfolding drop_stale
    drop_stale_lem [] = omega arith
    drop_stale_lem (item ∷ queue) = ground (arith, drop_stale_lem queue)

    -- What is left at the front is fresh.
    pub drop_stale_fresh :
        (queue rest : List (ScheduledFrame I)) (item : ScheduledFrame I)
        → (drop_stale config now queue).1 ≡ item ∷ rest
        → is_stale config item now ≡ false
    unfolding drop_stale
    drop_stale_fresh [] rest item e = ground arith
    drop_stale_fresh (first ∷ queue) rest item e = ground (arith, drop_stale_fresh queue rest item)
