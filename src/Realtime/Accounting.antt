-- ===== src/Realtime/Accounting.antt =====
-- A slow consumer loses events only with notice.
use mathlib.Core.Path.{subst}
use vehicle_intelligence.Prelude.{
  ℕ, ◌+◌, ◌-◌, ◌≤◌, ◌<◌, ◌≡◌, refl, ap, Str, length, length-append, if◌then◌else◌, Option, none,
  some, List, [], ◌∷◌, ◌++◌, Result, ok, err, arith, Option-cases, inl, inr,
}
use vehicle_intelligence.Realtime.{
  Item, item, closed_marker, RealtimeGap, RealtimeDelivery, event, gap, RealtimeSubscription, offer,
  receive, receive_item, new_subscription, rest,
}

module _ {E : Type 0} (id_of : E → Str) where
  pub data Call : Type 0 where
    offer_event : E → Call
    receive_next : Call

  -- what the client has: events, and events that it was told it missed
  pub record Seen : Type 0 where
    pub events : ℕ
    pub missed : ℕ

  abbrev pub note : Result (Option (RealtimeDelivery E)) → Seen → Seen
  note (ok (some (event e))) t = record t { events = t.events + 1 }
  note (ok (some (gap g))) t = record t { missed = t.missed + g.dropped_events }
  note (ok none) t = t
  note (err x) t = t

  -- the calls in turn: the events accepted, the client's view, and the subscription
  pub run : List Call → ℕ → Seen → RealtimeSubscription E → ℕ × Seen × RealtimeSubscription E
  unfolding offer receive
  run [] accepted t s = (accepted, t, s)
  run (offer_event e ∷ calls) accepted t s =
      let offered = offer id_of e s in
      run calls (accepted + (if offered.0 then 1 else 0)) t offered.2
  run (receive_next ∷ calls) accepted t s =
      let received = receive s in run calls accepted (note received.0 t) received.1

  abbrev pub pending : Option RealtimeGap → ℕ
  pending none = 0
  pending (some g) = g.dropped_events

  abbrev pub HoldsEvents : List (Item E) → Type 0
  HoldsEvents [] = Unit
  HoldsEvents (item e ∷ queue) = HoldsEvents queue
  HoldsEvents (closed_marker ∷ queue) = ⊥

  -- Every accepted event was received, or waits, or is in a gap that was told or will be told.
  pub record IsAccounted (accepted : ℕ) (t : Seen) (s : RealtimeSubscription E) : Type 0 where
    pub balance : accepted ≡ t.events + t.missed + length s.queue + pending s.pending_gap
    pub bounded : length s.queue ≤ s.queue_size
    pub positive : 0 < s.queue_size
    pub live : HoldsEvents s.queue

  HoldsEvents-append :
      (queue : List (Item E)) (e : E) → HoldsEvents queue → HoldsEvents (queue ++ item e ∷ [])
  HoldsEvents-append [] e h = tt
  HoldsEvents-append (item f ∷ queue) e h = HoldsEvents-append queue e h
  HoldsEvents-append (closed_marker ∷ queue) e h = absurd h

  HoldsEvents-rest : (queue : List (Item E)) → HoldsEvents queue → HoldsEvents (rest queue)
  HoldsEvents-rest [] h = tt
  HoldsEvents-rest (item f ∷ queue) h = h
  HoldsEvents-rest (closed_marker ∷ queue) h = absurd h

  length-rest : (queue : List (Item E)) → length (rest queue) ≡ length queue - 1
  length-rest [] = omega arith
  length-rest (x ∷ queue) = omega arith

  offer-IsAccounted :
      (n : ℕ) (t : Seen) (e : E) (s : RealtimeSubscription E)
      → IsAccounted n t s
      → IsAccounted (n + (if (offer id_of e s).0 then 1 else 0)) t (offer id_of e s).2
  unfolding offer
  offer-IsAccounted n t e s h = record {
    balance = ground (
      arith,
      h.balance,
      h.bounded,
      h.positive,
      length-rest s.queue,
      length-append s.queue (item e ∷ []),
      length-append (rest s.queue) (item e ∷ []),
    );
    bounded = ground (
      arith,
      h.bounded,
      h.positive,
      length-rest s.queue,
      length-append s.queue (item e ∷ []),
      length-append (rest s.queue) (item e ∷ []),
    );
    positive = ground (arith, h.positive);
    live = ground (
      arith,
      h.live,
      HoldsEvents-append s.queue e h.live,
      HoldsEvents-append (rest s.queue) e (HoldsEvents-rest s.queue h.live),
    );
  }

  receive_item-IsAccounted :
      (n : ℕ) (t : Seen) (queue : List (Item E)) (s : RealtimeSubscription E)
      → s.queue ≡ queue
      → s.pending_gap ≡ none
      → IsAccounted n t s
      → IsAccounted n (note (receive_item queue s).0 t) (receive_item queue s).1
  unfolding receive_item
  receive_item-IsAccounted n t [] s e quiet h = h
  receive_item-IsAccounted n t (item x ∷ queue) s e quiet h =
      let size = ap (λ (q : List (Item E)). length q) e in
      record {
        balance = ground (arith, h.balance, size);
        bounded = ground (arith, h.bounded, size);
        positive = h.positive;
        live = subst HoldsEvents e h.live;
      }
  receive_item-IsAccounted n t (closed_marker ∷ queue) s e quiet h =
      absurd (subst HoldsEvents e h.live)

  receive-IsAccounted :
      (n : ℕ) (t : Seen) (s : RealtimeSubscription E)
      → IsAccounted n t s
      → IsAccounted n (note (receive s).0 t) (receive s).1
  unfolding receive receive_item
  receive-IsAccounted n t s h = elim (Option-cases s.pending_gap) [
    | inr (g, told) ↦
        rw (told, receive)
          (record {
            balance = ground (arith, h.balance);
            bounded = h.bounded;
            positive = h.positive;
            live = h.live;
          })
    | inl quiet ↦ rw (quiet, receive) (receive_item-IsAccounted n t s.queue s refl quiet h)
  ]

  run-IsAccounted :
      (calls : List Call) (n : ℕ) (t : Seen) (s : RealtimeSubscription E)
      → IsAccounted n t s
      → IsAccounted (run calls n t s).0 (run calls n t s).1 (run calls n t s).2
  unfolding run
  run-IsAccounted [] n t s h = h
  run-IsAccounted (offer_event e ∷ calls) n t s h =
      run-IsAccounted calls _ t _ (offer-IsAccounted n t e s h)
  run-IsAccounted (receive_next ∷ calls) n t s h =
      run-IsAccounted calls n _ _ (receive-IsAccounted n t s h)

  -- Over any offers and receives on a new subscription with a positive queue size, every accepted
  -- event was received, or waits in the queue, or is counted in a gap that the client was told of
  -- or will be told of next; and the queue never holds more than its size.
  pub subscription_accounts :
      (calls : List Call) (id : Str) (queue_size : ℕ)
      → 0 < queue_size
      → let (accepted, t, s) =
          run calls 0 (record { events = 0; missed = 0 }) (new_subscription id queue_size) in
        (accepted ≡ t.events + t.missed + length s.queue + pending s.pending_gap)
        × (length s.queue ≤ s.queue_size)
  unfolding new_subscription
  subscription_accounts calls id queue_size p =
      let h =
        run-IsAccounted calls 0 (record { events = 0; missed = 0 }) (new_subscription id queue_size)
          (record { balance = omega arith; bounded = omega arith; positive = p; live = tt }) in
      (h.balance, h.bounded)
