-- ===== src/Tests/RealtimeTests.antt =====
-- The realtime fan-out at concrete inputs.
use vehicle_intelligence.Prelude.{
  ◌==◌, ℕ, put, refl, some, true, false, ◌+◌, ◌≤◌, ◌≡◌, Str, codes, length, List, [], ◌∷◌, arith,
}
use vehicle_intelligence.Realtime.{new_subscription}
use vehicle_intelligence.Realtime.Hub.{
  RealtimeHub, new_hub, subscribe, publish, remember, offer_each,
}
use vehicle_intelligence.Realtime.Hub.Window.{latest, IsHistory}
use vehicle_intelligence.Realtime.Hub.Log.{publish_each, accepted_of, log_of, publish_each-refines}
use vehicle_intelligence.Realtime.Hub.Replay.{first_view, subscribe-first_view}
use vehicle_intelligence.Realtime.Accounting.{
  Call, offer_event, receive_next, run, pending, subscription_accounts,
}

abbrev id_of : Str → Str
id_of s = s

abbrev calls : List (Call id_of)
calls = offer_event (codes "e1") ∷ offer_event (codes "e2") ∷ receive_next ∷ receive_next ∷ []

subscription_accounts_example :
    let (accepted, t, s) =
      run id_of calls 0 (record { events = 0; missed = 0 }) (new_subscription (codes "s") 1) in
    (accepted ≡ t.events + t.missed + length s.queue + pending id_of s.pending_gap)
    × (length s.queue ≤ s.queue_size)
subscription_accounts_example = subscription_accounts id_of calls (codes "s") 1 (omega arith)

abbrev published : List (ℕ × Str)
published =
    (1, codes "e1") ∷ (2, codes "e2") ∷ (3, codes "e1") ∷ (4, codes "e3") ∷ (5, codes "e1") ∷ []

-- the second e1 comes while the first is still in the history, the third does not
published_results :
    (publish_each id_of published (new_hub 2 2)).0 ≡ true ∷ true ∷ false ∷ true ∷ true ∷ []
unfolding publish remember new_hub offer_each ◌==◌
published_results = refl

publish_each-refines_example :
    let (returned, h) = publish_each id_of published (new_hub 2 2) in
    (returned ≡ accepted_of id_of 2 [] published)
    × (h.history ≡ latest 2 (log_of id_of 2 [] published))
    × IsHistory id_of h
publish_each-refines_example = publish_each-refines id_of 2 2 published

abbrev small_hub : RealtimeHub Str
small_hub = record (new_hub 1 4) {
  history = codes "e1" ∷ codes "e2" ∷ codes "e3" ∷ [];
  history_ids = codes "e1" ∷ codes "e2" ∷ codes "e3" ∷ [];
}

subscribe-first_view_example :
    subscribe id_of (codes "s") (some (codes "e1")) small_hub
    ≡ let (s, dropped) =
        first_view id_of
          (some (codes "e1"))
          (codes "s")
          1
          (codes "e1" ∷ codes "e2" ∷ codes "e3" ∷ []) in
      (
        s,
        record small_hub {
          subscriptions = put small_hub.subscriptions (codes "s") s;
          stats = record small_hub.stats {
            client_events_dropped = small_hub.stats.client_events_dropped + dropped;
          };
        },
      )
unfolding new_hub
subscribe-first_view_example =
    subscribe-first_view id_of (codes "s") (some (codes "e1")) small_hub (omega arith)
