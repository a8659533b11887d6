-- ===== src/Realtime.antt =====
-- application/realtime.py: the fan-out of events to bounded subscriptions, with replay.
-- Events are of any type with an id. An event of the queue is `item`; `closed_marker` is _CLOSED.
pub mod Accounting
pub mod Hub
use vehicle_intelligence.Prelude.{
  ℕ, suc, ◌+◌, Str, codes, length, leb, eqb, if◌then◌else◌, Option, none, some, List, [], ◌∷◌, ◌++◌,
  Bool, true, false, Result, ok, err, subscription_closed, value_error,
}

pub data Item (E : Type 0) : Type 0 where
  item : E → Item E
  closed_marker : Item E

pub record RealtimeGap : Type 0 where
  pub reason : Str
  pub dropped_events : ℕ
  pub last_available_event_id : Option Str

-- exactly one of an event and a gap
pub data RealtimeDelivery (E : Type 0) : Type 0 where
  event : E → RealtimeDelivery E
  gap : RealtimeGap → RealtimeDelivery E

pub record RealtimeSubscription (E : Type 0) : Type 0 where
  pub id : Str
  pub queue_size : ℕ
  pub queue : List (Item E)
  pub pending_gap : Option RealtimeGap
  pub closed : Bool

-- `mark_gap`, on the gap that is pending
unfoldable pub merge_gap : Option RealtimeGap → Str → ℕ → Option Str → RealtimeGap
merge_gap none reason dropped_events last_available_event_id = record {
  reason = reason;
  dropped_events = dropped_events;
  last_available_event_id = last_available_event_id;
}
merge_gap (some existing) reason dropped_events last_available_event_id = record {
  reason = existing.reason;
  dropped_events = dropped_events + existing.dropped_events;
  last_available_event_id = last_available_event_id;
}

module _ {E : Type 0} where
  unfoldable pub new_subscription : Str → ℕ → RealtimeSubscription E
  new_subscription id queue_size = record {
    id = id;
    queue_size = queue_size;
    queue = [];
    pending_gap = none;
    closed = false;
  }

  unfoldable pub mark_gap : Str → ℕ → Option Str → RealtimeSubscription E → RealtimeSubscription E
  unfolding merge_gap
  mark_gap reason dropped_events last_available_event_id s = record s {
    pending_gap = some (merge_gap s.pending_gap reason dropped_events last_available_event_id);
  }

  -- Queue.get_nowait, for the queue that is left
  abbrev pub rest : List (Item E) → List (Item E)
  rest [] = []
  rest (_ ∷ queue) = queue

  -- asyncio.Queue.full
  abbrev pub is_full : RealtimeSubscription E → Bool
  is_full s = leb s.queue_size (length s.queue)

  module _ (id_of : E → Str) where
    -- whether the event was accepted, and how many were dropped for it
    unfoldable pub offer : E → RealtimeSubscription E → Bool × ℕ × RealtimeSubscription E
    unfolding mark_gap
    offer e s =
        if s.closed
        then (false, 0, s)
        else if is_full s
        then (
          true,
          1,
          mark_gap (codes "slow_consumer") 1 (some (id_of e))
              (record s { queue = rest s.queue ++ item e ∷ [] }),
        )
        else (true, 0, record s { queue = s.queue ++ item e ∷ [] })

  -- the head of the queue when the wait ends; an empty queue is a timeout
  unfoldable pub receive_item :
      List (Item E)
      → RealtimeSubscription E
      → Result (Option (RealtimeDelivery E)) × RealtimeSubscription E
  receive_item [] s = (ok none, s)
  receive_item (item e ∷ queue) s = (ok (some (event e)), record s { queue = queue })
  receive_item (closed_marker ∷ queue) s = (err subscription_closed, record s { queue = queue })

  -- `receive`, with its positive timeout
  unfoldable pub receive :
      RealtimeSubscription E → Result (Option (RealtimeDelivery E)) × RealtimeSubscription E
  unfolding receive_item
  receive s = elim s.pending_gap [
    | some g ↦ (ok (some (gap g)), record s { pending_gap = none })
    | none ↦ receive_item s.queue s
  ]

  unfoldable pub close : RealtimeSubscription E → RealtimeSubscription E
  close s = if s.closed then s else record s { closed = true; queue = closed_marker ∷ [] }
