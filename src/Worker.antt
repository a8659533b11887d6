-- ===== src/Worker.antt =====
-- VehicleEventWorker (application/event_worker.py): messages of a broker become kept events.
-- The broker, the codec, the repository, the policy processor and the realtime publisher are outside:
-- what they answer for a message is a value, so the order in which the groups of the cameras run is
-- of no effect. An exception that the worker does not catch is a value too, and ends the group of its
-- camera. That the broker's own calls raise, and the texts of the logs, are left out.
pub mod Settling
pub mod Delivery
use vehicle_intelligence.Prelude.{
  ℕ, ◌+◌, Str, length, leb, if◌then◌else◌, Option, none, some, List, [], ◌∷◌, ◌++◌, Bool, true,
  false, Dict, get, put, Result, ok, err, ◌>>=◌, Error, Done, done,
}
use vehicle_intelligence.Rules.Processing.{EventPolicyResult}

pub record BrokerMessage : Type 0 where
  pub message_id : Str
  pub payload : Str

pub record EventWorkerStats : Type 0 where
  pub messages_read : ℕ
  pub messages_reclaimed : ℕ
  pub events_persisted : ℕ
  pub duplicate_events : ℕ
  pub invalid_messages : ℕ
  pub persistence_failures : ℕ
  pub policy_failures : ℕ
  pub matched_rules : ℕ
  pub actions_succeeded : ℕ
  pub actions_skipped : ℕ
  pub realtime_published : ℕ
  pub realtime_failures : ℕ

-- what the worker keeps
pub record Worker : Type 0 where
  pub next_reclaim_at : ℕ
  pub stats : EventWorkerStats

-- the publisher is not set up; it cannot be initialized, or its publish raises an EventBusError; it
-- publishes; it raises another exception
pub data RealtimeOutcome : Type 0 where
  no_publisher unavailable published : RealtimeOutcome
  publisher_raises : Error → RealtimeOutcome

-- a processor is not set up, raises a VehicleIntelligenceError, returns, or raises another exception
pub data PolicyOutcome : Type 0 where
  no_processor policy_failure : PolicyOutcome
  processed : EventPolicyResult → PolicyOutcome
  processor_raises : Error → PolicyOutcome

-- save raises a PersistenceError, tells whether the event is new, or raises another exception
pub data SaveOutcome : Type 0 where
  persistence_failure : SaveOutcome
  saved : Bool → SaveOutcome
  save_raises : Error → SaveOutcome

-- What the outside answers for one message.
pub record Answer : Type 0 where
  pub save : SaveOutcome
  pub policy : PolicyOutcome
  pub realtime : RealtimeOutcome

pub record Intake : Type 0 where
  pub now : ℕ
  pub stale : List BrokerMessage
  pub new : List BrokerMessage

unfoldable pub publish_realtime :
    RealtimeOutcome → EventWorkerStats → Result Done × EventWorkerStats
publish_realtime no_publisher s = (ok done, s)
publish_realtime unavailable s = (ok done, record s { realtime_failures = s.realtime_failures + 1 })
publish_realtime published s = (ok done, record s { realtime_published = s.realtime_published + 1 })
publish_realtime (publisher_raises e) s = (err e, s)

-- `await self._publish_realtime(event)`, then `return True`
abbrev pub publish_last : Result Done × EventWorkerStats → Result Bool × EventWorkerStats
publish_last (ok d, s) = (ok true, s)
publish_last (err e, s) = (err e, s)

-- after the save
unfoldable pub post_process :
    PolicyOutcome → RealtimeOutcome → EventWorkerStats → Result Bool × EventWorkerStats
post_process no_processor realtime s = publish_last (publish_realtime realtime s)
post_process policy_failure realtime s =
    (ok false, record s { policy_failures = s.policy_failures + 1 })
post_process (processed result) realtime s = publish_last (
    publish_realtime realtime (record s {
      matched_rules = s.matched_rules + result.matched_rules;
      actions_succeeded = s.actions_succeeded + result.actions_succeeded;
      actions_skipped = s.actions_skipped + result.actions_skipped;
    }))
post_process (processor_raises e) realtime s = (err e, s)

abbrev pub after_save :
    SaveOutcome
    → PolicyOutcome
    → RealtimeOutcome
    → EventWorkerStats
    → Result Bool × EventWorkerStats
after_save persistence_failure policy realtime s =
    (ok false, record s { persistence_failures = s.persistence_failures + 1 })
after_save (saved created) policy realtime s = post_process policy realtime (
    if created
    then record s { events_persisted = s.events_persisted + 1 }
    else record s { duplicate_events = s.duplicate_events + 1 })
after_save (save_raises e) policy realtime s = (err e, s)

-- whether the message is done with, or the exception that leaves the method
unfoldable pub process_event : Answer → EventWorkerStats → Result Bool × EventWorkerStats
process_event answer s = after_save answer.save answer.policy answer.realtime s

-- tuple(message_id for result in results if isinstance(result, tuple) for message_id in result)
abbrev pub acknowledged_of : Dict (Result (List Str)) → List Str
acknowledged_of [] = []
acknowledged_of ((camera_id, ok ids) ∷ results) = ids ++ acknowledged_of results
acknowledged_of ((camera_id, err e) ∷ results) = acknowledged_of results

-- the loop that raises the first exception of the groups, then the number of messages
abbrev pub returned_of : ℕ → Dict (Result (List Str)) → Result ℕ
returned_of messages [] = ok messages
returned_of messages ((camera_id, ok ids) ∷ results) = returned_of messages results
returned_of messages ((camera_id, err e) ∷ results) = err e

-- What a round gives: what the groups return or raise; what is acknowledged; the dead letters; what
-- the round returns or raises; the worker.
pub record Round : Type 0 where
  pub results : Dict (Result (List Str))
  pub acknowledged : List Str
  pub dead : List BrokerMessage
  pub returned : Result ℕ
  pub worker : Worker

-- stale messages when it is time for them, else new ones
abbrev pub read_messages : List BrokerMessage → Intake → Worker → List BrokerMessage × Worker
read_messages [] i w = (
  i.new,
  record w { stats = record w.stats { messages_read = w.stats.messages_read + length i.new } },
)
read_messages (message ∷ messages) i w = (
  message ∷ messages,
  record w {
    stats = record w.stats {
      messages_reclaimed = w.stats.messages_reclaimed + length (message ∷ messages);
    };
  },
)

unfoldable pub take_messages : ℕ → Intake → Worker → List BrokerMessage × Worker
take_messages reclaim_interval i w =
    if leb w.next_reclaim_at i.now
    then read_messages i.stale i (record w { next_reclaim_at = i.now + reclaim_interval })
    else read_messages [] i w

module _ {E : Type 0} (camera_of : E → Str) (decode : Str → Option E)
    (answer : BrokerMessage → Answer) where
  -- groups[event.camera.id].append((message, event))
  abbrev pub append_to :
      Dict (List (BrokerMessage × E)) → Str → BrokerMessage × E → Dict (List (BrokerMessage × E))
  append_to groups camera_id entry = elim (get groups camera_id) [
    | none ↦ put groups camera_id (entry ∷ [])
    | some entries ↦ put groups camera_id (entries ++ entry ∷ [])
  ]

  -- the groups, and the messages that go to the dead letters
  abbrev pub sort_message :
      Option E
      → BrokerMessage
      → Dict (List (BrokerMessage × E)) × List BrokerMessage
      → Dict (List (BrokerMessage × E)) × List BrokerMessage
  sort_message none message (groups, dead) = (groups, dead ++ message ∷ [])
  sort_message (some event) message (groups, dead) =
      (append_to groups (camera_of event) (message, event), dead)

  -- the loop over the messages
  unfoldable pub sort_messages :
      List BrokerMessage
      → Dict (List (BrokerMessage × E)) × List BrokerMessage
      → Dict (List (BrokerMessage × E)) × List BrokerMessage
  sort_messages [] sorted = sorted
  sort_messages (message ∷ messages) sorted =
      sort_messages messages (sort_message (decode message.payload) message sorted)

  -- the ids to acknowledge: up to the first event that is not done with; none if an event raises
  unfoldable pub process_group :
      List (BrokerMessage × E) → EventWorkerStats → Result (List Str) × EventWorkerStats
  process_group [] s = (ok [], s)
  process_group ((message, event) ∷ entries) s =
      let (outcome, after) = process_event (answer message) s in
      let (others, last) = process_group entries after in
      elim outcome [
        | err e ↦ (err e, after)
        | ok settled ↦
            if settled
            then (others >>= (λ ids. ok (message.message_id ∷ ids)), last)
            else (ok [], after)
      ]

  -- the groups of the cameras: what each gives to acknowledge, or raises
  unfoldable pub process_groups :
      Dict (List (BrokerMessage × E))
      → EventWorkerStats
      → Dict (Result (List Str)) × EventWorkerStats
  process_groups [] s = ([], s)
  process_groups ((camera_id, entries) ∷ groups) s =
      let (acknowledged, after) = process_group entries s in
      let (results, last) = process_groups groups after in
      ((camera_id, acknowledged) ∷ results, last)

  unfoldable pub run_once : ℕ → Intake → Worker → Round
  run_once reclaim_interval i w =
      let (messages, taken) = take_messages reclaim_interval i w in
      let (groups, dead) = sort_messages messages ([], []) in
      let (results, stats) =
        process_groups groups
          (record taken.stats { invalid_messages = taken.stats.invalid_messages + length dead }) in
      record {
        results = results;
        acknowledged = acknowledged_of results;
        dead = dead;
        returned = returned_of (length messages) results;
        worker = record taken { stats = stats };
      }
