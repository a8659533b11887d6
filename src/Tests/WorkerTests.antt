-- ===== src/Tests/WorkerTests.antt =====
-- The event worker at a concrete round.
use vehicle_intelligence.Prelude.{
  ◌==◌, ◌≡◌, refl, Str, codes, if◌then◌else◌, is_empty, take, true, Option, none, some, [], ◌∷◌,
  get, length, err, value_error,
}
use vehicle_intelligence.Worker.{
  BrokerMessage, Worker, Answer, persistence_failure, saved, no_processor, processor_raises,
  published, Intake, acknowledged_of, returned_of, take_messages, run_once, sort_messages,
  process_group, process_groups, process_event, post_process, publish_realtime,
}
use vehicle_intelligence.Worker.Settling.{or_nothing, IsDelivered}
use vehicle_intelligence.Worker.Delivery.{
  settled_ids, messages_of, undecoded, run_once-acknowledges,
}

-- an event is its payload, its camera the first character
abbrev camera_of : Str → Str
camera_of event = take 1 event

abbrev decode : Str → Option Str
decode payload = if is_empty payload then none else some payload

-- events of camera b cannot be saved, and those of c raise in the policy
abbrev answer : BrokerMessage → Answer
answer message = record {
  save = if take 1 message.payload == codes "b" then persistence_failure else saved true;
  policy =
      if take 1 message.payload == codes "c" then processor_raises value_error else no_processor;
  realtime = published;
}

abbrev message : Str → Str → BrokerMessage
message id payload = record { message_id = id; payload = payload }

abbrev intake : Intake
intake = record {
  now = 3;
  stale = [];
  new =
      message (codes "1") (codes "a1")
      ∷ message (codes "2") (codes "b1")
      ∷ message (codes "3") []
      ∷ message (codes "4") (codes "a2")
      ∷ message (codes "5") (codes "b2")
      ∷ message (codes "6") (codes "c1")
      ∷ [];
}

abbrev worker : Worker
worker = record {
  next_reclaim_at = 0;
  stats = record {
    messages_read = 0;
    messages_reclaimed = 0;
    events_persisted = 0;
    duplicate_events = 0;
    invalid_messages = 0;
    persistence_failures = 0;
    policy_failures = 0;
    matched_rules = 0;
    actions_succeeded = 0;
    actions_skipped = 0;
    realtime_published = 0;
    realtime_failures = 0;
  };
}

acknowledged_ids :
    (run_once camera_of decode answer 5 intake worker).acknowledged ≡ codes "1" ∷ codes "4" ∷ []
unfolding ◌==◌ run_once take_messages sort_messages process_groups process_group process_event
    post_process publish_realtime
acknowledged_ids = refl

raised : (run_once camera_of decode answer 5 intake worker).returned ≡ err value_error
unfolding ◌==◌ run_once take_messages sort_messages process_groups process_group process_event
    post_process publish_realtime
raised = refl

run_once-acknowledges_example :
    let round = run_once camera_of decode answer 5 intake worker in
    let messages = (take_messages 5 intake worker).0 in
    (or_nothing (get round.results (codes "c"))
      ≡ settled_ids camera_of decode answer (messages_of camera_of decode (codes "c") messages))
    × IsDelivered (or_nothing (get round.results (codes "c"))) round.acknowledged round.returned
    × (round.acknowledged ≡ acknowledged_of round.results)
    × (round.returned ≡ returned_of (length messages) round.results)
    × (round.dead ≡ undecoded camera_of decode messages)
run_once-acknowledges_example =
    run_once-acknowledges camera_of decode answer 5 intake worker (codes "c")
