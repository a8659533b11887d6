-- ===== src/Realtime/Hub.antt =====
-- RealtimeHub (application/realtime.py): one history of recent events and many subscriptions.
-- An id of a new subscription (uuid4) is an argument, as is the time. The subscriptions that a client
-- still holds when the hub has dropped them are closed; unsubscribe gives that object back.
pub mod Window
pub mod Log
pub mod Replay
use vehicle_intelligence.Prelude.{
  ℕ, suc, ◌+◌, Str, ◌==◌, codes, length, drop, leb, ltb, eqb, if◌then◌else◌, Option, none, some,
  List, [], ◌∷◌, ◌++◌, Bool, true, false, ◌&&◌, not, Dict, get, put, pop, size, values, member,
  discard,
}
use vehicle_intelligence.Realtime.{RealtimeSubscription, new_subscription, mark_gap, offer, close}

pub record RealtimeHubStats : Type 0 where
  pub subscribers : ℕ
  pub events_received : ℕ
  pub events_distributed : ℕ
  pub duplicate_events : ℕ
  pub client_events_dropped : ℕ
  pub last_event_at : Option ℕ

pub record RealtimeHub (E : Type 0) : Type 0 where
  pub queue_size : ℕ
  pub replay_size : ℕ
  pub history : List E
  pub history_ids : List Str
  pub subscriptions : Dict (RealtimeSubscription E)
  pub stats : RealtimeHubStats

abbrev pub last_of : {E : Type 0} → List E → Option E
last_of [] = none
last_of (e ∷ history) = elim (last_of history) [ none ↦ some e | some l ↦ some l ]

module _ {E : Type 0} where
  unfoldable pub new_hub : ℕ → ℕ → RealtimeHub E
  new_hub client_queue_size replay_size = record {
    queue_size = client_queue_size;
    replay_size = replay_size;
    history = [];
    history_ids = [];
    subscriptions = [];
    stats = record {
      subscribers = 0;
      events_received = 0;
      events_distributed = 0;
      duplicate_events = 0;
      client_events_dropped = 0;
      last_event_at = none;
    };
  }

  unfoldable pub hub_stats : RealtimeHub E → RealtimeHubStats
  hub_stats h = record h.stats { subscribers = size h.subscriptions }

  unfoldable pub unsubscribe : Str → RealtimeHub E → Option (RealtimeSubscription E) × RealtimeHub E
  unsubscribe id h = (
    elim (get h.subscriptions id) [ none ↦ none | some current ↦ some (close current) ],
    record h { subscriptions = pop h.subscriptions id },
  )

  abbrev pub close_each : List (RealtimeSubscription E) → List (RealtimeSubscription E)
  close_each [] = []
  close_each (s ∷ subscriptions) = close s ∷ close_each subscriptions

  unfoldable pub close_hub : RealtimeHub E → List (RealtimeSubscription E) × RealtimeHub E
  close_hub h = (close_each (values h.subscriptions), record h { subscriptions = [] })

  module _ (id_of : E → Str) where
    -- enumerate(history), to the first event of the id
    abbrev pub replay_from : List E → Str → Option ℕ
    replay_from [] last_event_id = none
    replay_from (e ∷ history) last_event_id =
        let later = replay_from history last_event_id in
        if id_of e == last_event_id
        then some 0
        else elim later [ none ↦ none | some index ↦ some (suc index) ]

    -- the loop of `subscribe`: the subscription, and what client_events_dropped grows by
    unfoldable pub replay : List E → RealtimeSubscription E → ℕ → RealtimeSubscription E × ℕ
    replay [] s dropped = (s, dropped)
    replay (e ∷ history) s dropped =
        let offered = offer id_of e s in
        replay history offered.2 (if offered.0 then dropped + offered.1 else dropped)

    abbrev pub id_of_last : List E → Option Str
    id_of_last history = elim (last_of history) [ none ↦ none | some e ↦ some (id_of e) ]

    abbrev pub replayed : Option ℕ → List E → RealtimeSubscription E → RealtimeSubscription E × ℕ
    replayed none history s = (mark_gap (codes "replay_unavailable") 0 (id_of_last history) s, 0)
    replayed (some index) history s = replay (drop (suc index) history) s 0

    abbrev pub begun : Option Str → List E → RealtimeSubscription E → RealtimeSubscription E × ℕ
    begun none history s = (s, 0)
    begun (some last_event_id) history s = replayed (replay_from history last_event_id) history s

    unfoldable pub subscribe :
        Str → Option Str → RealtimeHub E → RealtimeSubscription E × RealtimeHub E
    subscribe id last_event_id h =
        let (s, dropped) = begun last_event_id h.history (new_subscription id h.queue_size) in
        (
          s,
          record h {
            subscriptions = put h.subscriptions id s;
            stats = record h.stats {
              client_events_dropped = h.stats.client_events_dropped + dropped;
            };
          },
        )

    -- the loop of `publish`: how many accepted the event, how many events were dropped for it
    unfoldable pub offer_each :
        E → Dict (RealtimeSubscription E) → ℕ × ℕ × Dict (RealtimeSubscription E)
    offer_each e [] = (0, 0, [])
    offer_each e ((id, s) ∷ subscriptions) =
        let offered = offer id_of e s in
        let (distributed, dropped, rest) = offer_each e subscriptions in
        ((if offered.0 then 1 else 0) + distributed, offered.1 + dropped, (id, offered.2) ∷ rest)

    abbrev pub expire : RealtimeHub E → RealtimeHub E
    expire h = elim h.history [
      | [] ↦ h
      | expired ∷ rest ↦ record h {
        history = rest;
        history_ids = discard (id_of expired) h.history_ids;
      }
    ]

    -- history_ids.add
    abbrev pub add_id : Str → List Str → List Str
    add_id id ids = if member id ids then ids else ids ++ id ∷ []

    unfoldable pub remember : E → RealtimeHub E → RealtimeHub E
    remember e h =
        if ltb 0 h.replay_size
        then (let kept = if leb h.replay_size (length h.history) then expire h else h in
            record kept {
              history = kept.history ++ e ∷ [];
              history_ids = add_id (id_of e) kept.history_ids;
            })
        else h

    abbrev pub distribute : E → RealtimeHub E → RealtimeHub E
    distribute e h =
        let (distributed, dropped, subscriptions) = offer_each e h.subscriptions in
        record h {
          subscriptions = subscriptions;
          stats = record h.stats {
            events_distributed = h.stats.events_distributed + distributed;
            client_events_dropped = h.stats.client_events_dropped + dropped;
          };
        }

    abbrev pub received : ℕ → RealtimeHub E → RealtimeHub E
    received now h = record h {
      stats = record h.stats {
        events_received = h.stats.events_received + 1;
        last_event_at = some now;
      };
    }

    unfoldable pub publish : ℕ → E → RealtimeHub E → Bool × RealtimeHub E
    publish now e h =
        let noted = received now h in
        if member (id_of e) noted.history_ids
        then (
          false,
          record noted {
            stats = record noted.stats { duplicate_events = noted.stats.duplicate_events + 1 };
          },
        )
        else (true, distribute e (remember e noted))
