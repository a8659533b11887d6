-- ===== src/Realtime/Hub/Replay.antt =====
-- What a client that connects again receives: the events after the last one that it has seen.
use vehicle_intelligence.Prelude.{
  ℕ, suc, ◌+◌, ◌-◌, ◌≤◌, ◌<◌, ◌≡◌, refl, ap, arith, Str, ◌==◌, codes, length, length-append, drop,
  ltb, leb, if◌then◌else◌, Option, none, some, Option-cases, List, [], ◌∷◌, ◌++◌, true, false,
  Bool-cases, inl, inr, put,
}
use mathlib.Core.Path.{subst}
use vehicle_intelligence.Realtime.{
  Item, item, RealtimeGap, RealtimeSubscription, new_subscription, mark_gap, merge_gap, offer, rest,
}
use vehicle_intelligence.Realtime.Hub.{
  RealtimeHub, replay_from, replay, id_of_last, last_of, replayed, begun, subscribe,
}
use vehicle_intelligence.Realtime.Hub.Window.{
  latest, length-drop, popleft, slid, latest-append, drop_nil,
}

module _ {E : Type 0} (id_of : E → Str) where
  abbrev pub items : List E → List (Item E)
  items [] = []
  items (e ∷ es) = item e ∷ items es

  items-append : (es : List E) (e : E) → items (es ++ e ∷ []) ≡ items es ++ item e ∷ []
  items-append [] e = refl
  items-append (d ∷ es) e = ap (λ x. item d ∷ x) (items-append es e)

  length-items : (es : List E) → length (items es) ≡ length es
  length-items [] = refl
  length-items (e ∷ es) = ap suc (length-items es)

  append-append : (es : List E) (e : E) (fs : List E) → (es ++ e ∷ []) ++ fs ≡ es ++ e ∷ fs
  append-append [] e fs = refl
  append-append (d ∷ es) e fs = ap (λ x. d ∷ x) (append-append es e fs)

  id_of_last-append : (es : List E) (e : E) → id_of_last id_of (es ++ e ∷ []) ≡ some (id_of e)
  id_of_last-append es e = rw (id_of_last, last_of-append es e) refl
    where
      last_of-append : (es : List E) (e : E) → last_of (es ++ e ∷ []) ≡ some e
      last_of-append [] e = refl
      last_of-append (d ∷ es) e = rw (last_of-append es e) refl

  -- The events after the one of an id, if the history holds it.
  abbrev pub since : List E → Str → Option (List E)
  since [] last_event_id = none
  since (e ∷ history) last_event_id =
      let later = since history last_event_id in
      if id_of e == last_event_id then some history else later

  -- The gap that a client is told of that missed all but the latest n of some events.
  abbrev pub gap_of : ℕ → List E → Option RealtimeGap
  gap_of n missed =
      if ltb n (length missed)
      then some (record {
        reason = codes "slow_consumer";
        dropped_events = length missed - n;
        last_available_event_id = id_of_last id_of missed;
      })
      else none

  -- A new subscription that was offered some events.
  abbrev pub offered : Str → ℕ → List E → RealtimeSubscription E
  offered id n missed = record {
    id = id;
    queue_size = n;
    queue = latest n (items missed);
    pending_gap = gap_of n missed;
    closed = false;
  }

  -- one round of the loop, when there is room and when there is none
  offer_room :
      (id : Str) (n : ℕ) (log : List E) (e : E)
      → length log < n
      → offer id_of e (offered id n log) ≡ (true, 0, offered id n (log ++ e ∷ []))
  unfolding offer slid
  offer_room id n log e room =
      let size : leb n (length (latest n (items log))) ≡ false =
        ground (arith, length-drop (length (items log) - n) (items log), length-items log, room) in
      let some_size : ltb 0 n ≡ true = ground (arith, room) in
      let quiet : ltb n (length log) ≡ false = ground (arith, room) in
      let still : ltb n (length (log ++ e ∷ [])) ≡ false =
        ground (arith, room, length-append log (e ∷ [])) in
      rw
        (
          size,
          quiet,
          still,
          items-append log e,
          latest-append n (items log) (item e),
          some_size,
          size,
        )
        refl

  rest-popleft : (queue : List (Item E)) → rest queue ≡ popleft queue
  rest-popleft [] = refl
  rest-popleft (x ∷ queue) = refl

  gap_of-append :
      (n : ℕ) (log : List E) (e : E)
      → n ≤ length log
      → gap_of n (log ++ e ∷ [])
        ≡ some (merge_gap (gap_of n log) (codes "slow_consumer") 1 (some (id_of e)))
  unfolding merge_gap
  gap_of-append n log e full =
      let longer = length-append log (e ∷ []) in
      let over : ltb n (length (log ++ e ∷ [])) ≡ true = ground (arith, longer, full) in
      elim (Bool-cases (ltb n (length log))) [
        | inl again ↦
            let count : length (log ++ e ∷ []) - n ≡ 1 + (length log - n) =
              ground (arith, longer, full) in
            rw (over, again, id_of_last-append log e, count) refl
        | inr first ↦
            let count : length (log ++ e ∷ []) - n ≡ 1 = ground (arith, longer, full, first) in
            rw (over, first, id_of_last-append log e, count) refl
      ]

  offer_full :
      (id : Str) (n : ℕ) (log : List E) (e : E)
      → 0 < n
      → n ≤ length log
      → offer id_of e (offered id n log) ≡ (true, 1, offered id n (log ++ e ∷ []))
  unfolding offer slid mark_gap
  offer_full id n log e positive full =
      let size : leb n (length (latest n (items log))) ≡ true =
        ground (arith, length-drop (length (items log) - n) (items log), length-items log, full) in
      let some_size : ltb 0 n ≡ true = ground (arith, positive) in
      rw
        (
          size,
          gap_of-append n log e full,
          items-append log e,
          latest-append n (items log) (item e),
          some_size,
          size,
          rest-popleft (latest n (items log)),
        )
        refl

  -- The loop of subscribe, from any point on.
  replay_lem :
      (id : Str) (n : ℕ) (es log : List E) (dropped : ℕ)
      → 0 < n
      → dropped ≡ length log - n
      → replay id_of es (offered id n log) dropped
        ≡ (offered id n (log ++ es), length (log ++ es) - n)
  unfolding replay
  replay_lem id n [] log dropped positive counted = rw (append_nil log, counted) refl
    where
      append_nil : (log : List E) → log ++ [] ≡ log
      append_nil [] = refl
      append_nil (x ∷ log) = ap (λ r. x ∷ r) (append_nil log)
  replay_lem id n (e ∷ es) log dropped positive counted = elim (Bool-cases (ltb (length log) n)) [
    | inl room ↦ rw (offer_room id n log e (ground (arith, room))) (
        subst
          (λ l.
            replay id_of es (offered id n (log ++ e ∷ [])) (dropped + 0)
            ≡ (offered id n l, length l - n))
          (append-append log e es)
          (replay_lem id n es (log ++ e ∷ []) (dropped + 0) positive
            (ground (arith, counted, room, length-append log (e ∷ [])))))
    | inr full ↦ rw (offer_full id n log e positive (ground (arith, full))) (
        subst
          (λ l.
            replay id_of es (offered id n (log ++ e ∷ [])) (dropped + 1)
            ≡ (offered id n l, length l - n))
          (append-append log e es)
          (replay_lem id n es (log ++ e ∷ []) (dropped + 1) positive
            (ground (arith, counted, full, length-append log (e ∷ [])))))
  ]

  -- The search for the last event of the client, and the slice behind it.
  replay_from-since :
      (history : List E) (last_event_id : Str)
      → since history last_event_id ≡ (elim (replay_from id_of history last_event_id) [
        | none ↦ none
        | some index ↦ some (drop (suc index) history)
      ])
  replay_from-since [] last_event_id = refl
  replay_from-since (e ∷ history) last_event_id = elim (Bool-cases (id_of e == last_event_id)) [
    | inl here ↦ rw here refl
    | inr later ↦ elim (Option-cases (replay_from id_of history last_event_id)) [
      | inl absent ↦ rw (later, absent, replay_from-since history last_event_id, absent) refl
      | inr (index, found) ↦ rw (later, found, replay_from-since history last_event_id, found) refl
    ]
  ]

  -- The subscription that a client is to begin with.
  abbrev pub unavailable : Str → ℕ → List E → RealtimeSubscription E
  unavailable id n history = record (offered id n []) {
    pending_gap = some (record {
      reason = codes "replay_unavailable";
      dropped_events = 0;
      last_available_event_id = id_of_last id_of history;
    });
  }

  abbrev pub resumed : Option (List E) → Str → ℕ → List E → RealtimeSubscription E × ℕ
  resumed none id n history = (unavailable id n history, 0)
  resumed (some missed) id n history = (offered id n missed, length missed - n)

  abbrev pub first_view : Option Str → Str → ℕ → List E → RealtimeSubscription E × ℕ
  first_view none id n history = (offered id n [], 0)
  first_view (some last_event_id) id n history = resumed (since history last_event_id) id n history

  new-offered : (id : Str) (n : ℕ) → new_subscription id n ≡ offered id n []
  unfolding new_subscription
  new-offered id n =
      let quiet : ltb n 0 ≡ false = ground arith in rw (drop_nil {A = Item E} (0 - n), quiet) refl

  replayed-resumed :
      (o : Option ℕ) (history : List E) (id : Str) (n : ℕ)
      → 0 < n
      → replayed id_of o history (new_subscription id n)
        ≡ resumed
            (elim o [ none ↦ none | some index ↦ some (drop (suc index) history) ])
            id
            n
            history
  unfolding mark_gap merge_gap
  replayed-resumed none history id n positive =
      let quiet : ltb n 0 ≡ false = ground arith in rw (new-offered id n, quiet) refl
  replayed-resumed (some index) history id n positive =
      rw (new-offered id n) (replay_lem id n (drop (suc index) history) [] 0 positive (omega arith))

  begun-first_view :
      (last_event_id : Option Str) (history : List E) (id : Str) (n : ℕ)
      → 0 < n
      → begun id_of last_event_id history (new_subscription id n)
        ≡ first_view last_event_id id n history
  begun-first_view none history id n positive = rw (new-offered id n) refl
  begun-first_view (some last_event_id) history id n positive =
      rw (replay_from-since history last_event_id)
        (replayed-resumed (replay_from id_of history last_event_id) history id n positive)

  -- What a new subscription begins with, in every case, for a positive queue size. Without a last
  -- event: nothing. With a last event that the history holds: the latest events after it, as many as
  -- the queue takes, in order, and for those before them a gap that counts them. With one that the
  -- history does not hold: no event, and a gap that names the last event there is. The hub keeps the
  -- subscription under its id and counts the events that were dropped; its history stays.
  pub subscribe-first_view :
      (id : Str) (last_event_id : Option Str) (h : RealtimeHub E)
      → 0 < h.queue_size
      → subscribe id_of id last_event_id h
        ≡ let (s, dropped) = first_view last_event_id id h.queue_size h.history in
          (
            s,
            record h {
              subscriptions = put h.subscriptions id s;
              stats = record h.stats {
                client_events_dropped = h.stats.client_events_dropped + dropped;
              };
            },
          )
  unfolding subscribe
  subscribe-first_view id last_event_id h positive =
      rw (begun-first_view last_event_id h.history id h.queue_size positive) refl
