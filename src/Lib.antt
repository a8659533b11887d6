-- ===== src/Lib.antt =====
-- Verification of the core of the vehicle intelligence platform, a Python system that reads
-- camera streams, recognises vehicles and plates, keeps vehicle events, and applies watchlists and
-- rules to them. The sources are under src/vehicle_intelligence/ of the repository.
--
-- Parts and files:
-- - Scheduler: application/gpu_scheduler.py, FairLatestFrameScheduler. Each camera has a queue of
--   its latest frames; a round-robin queue of ready cameras fills a batch. State: the record
--   Scheduler; operations submit, pop_batch, unregister, snapshot.
-- - Policy.Executions: application/actions.py, ActionEngine, over the action executions of
--   infrastructure/persistence/policy_memory.py. execute claims an execution, calls the handler, and
--   records the outcome.
-- - Policy.Circuit: the circuit breaker of external actions (application/actions.py). The requests of
--   a host overlap: one begins (begin_request) and ends (request_ended) in two steps.
-- - Policy.Versioned, Policy.Services, Policy.Watchlists, Rules.Service: the repositories of
--   watchlists and rules and WatchlistService and RuleService of application/policies.py, with
--   their optimistic revisions.
-- - Policy.Alerts: the alert record (domain/policy.py), its repository and AlertService.
-- - Rules: RuleEvaluator (application/rules.py), and in Rules.Cache and Rules.Processing the rule
--   cache and the process method of VehicleEventPolicyProcessor (application/event_policy.py), whose
--   action engine is a parameter.
-- - Events: domain/events.py, the event repository of infrastructure/persistence/memory.py, and the
--   plate review of application/review.py.
-- - Samples: domain/review.py and the dataset samples of
--   infrastructure/persistence/review_memory.py, which an export claims and marks.
-- - Topology: domain/topology.py, infrastructure/persistence/topology_memory.py and
--   CameraTopologyService (application/topology.py).
-- - Plates: VietnamPlateNormalizer (application/normalization.py) and its result (domain/plate.py).
-- - Realtime: RealtimeSubscription and RealtimeHub (application/realtime.py).
-- - Supervisor: CameraSupervisor (application/supervisor.py), with the records of domain/camera.py.
--   State: active workers, restart times, failure counts, the shared inference service.
-- - Worker: run_once of VehicleEventWorker (application/event_worker.py), which turns the messages of
--   a broker into kept events and acknowledges them; an exception ends the group of its camera.
-- - Identities: the identity repository of infrastructure/persistence/identity_memory.py, with the
--   records of domain/identity.py and domain/reid.py.
-- - Voting: edit_distance of application/voting.py.
-- - Persistence: what the listings share, their order and their pages with a cursor.
-- - Prelude: numbers, texts, dicts and results; Tests: the theorems at concrete inputs.
-- The parts meet as in the code: an event reaches the rules, a rule that matches reaches the
-- action engine, an action may create an alert, a reviewed event becomes a dataset sample.
--
-- Conventions. A method is a function from the state to its result and the next state; an exception
-- is a value of Result. A str is its list of code points, a dict an association list in insertion
-- order with keys that differ, a set a list. A datetime is an aware instant, in microseconds, so the
-- checks for naive ones have no counterpart; a float of seconds is a count of microseconds. A call
-- that reads in one step and writes in another gets the two states as two arguments, since other
-- calls may run between them, or is two operations of a sequence of calls; a body under one lock is
-- one step. hashlib, str.upper, urlsplit and
-- the test 0 <= x <= 1 on floats are parameters, as is the plate normalizer that the services are
-- given. What a record only carries (images, metadata, AI traces) has a type parameter. A cursor is
-- the key that it encodes. list.sort is insertion sort, which gives the same list, since the keys of
-- the stored records differ.
--
-- Loops are structural recursion, but for two on fuel: pop_loop has the batch size plus the number
-- of ready cameras, since each round fills a place or takes a camera off; a client that follows
-- cursors has one page more than the listing has records, since each page before the last has a
-- record.
--
-- Not modelled: exceptions of the broker's own calls in the event worker, the waiting of wait_batch and the fair inference coordinator (condition
-- variables), the broker loop of the realtime service, the waits and retries around the supervisor
-- and the event worker, journeys and the scores of re-identification, tracking, the scores of the
-- vote, direction and geometry (numeric vision code), the adapters of MongoDB, Redis, MinIO and
-- JSON lines, the HTTP and command-line interfaces, training, and the web application.
pub mod Prelude
pub mod Scheduler
pub mod Policy
pub mod Realtime
pub mod Persistence
pub mod Events
pub mod Rules
pub mod Topology
pub mod Samples
pub mod Plates
pub mod Supervisor
pub mod Worker
pub mod Identities
pub mod Voting
mod Tests
