-- ===== src/Worker/Settling.antt =====
-- When an event is settled, and what becomes of the result of its group.
use vehicle_intelligence.Prelude.{
  ℕ, ◌≡◌, refl, arith, Str, ◌==◌, Option, none, some, List, [], ◌∷◌, ◌++◌, Bool, true, false,
  Bool-cases, inl, inr, Dict, get, Result, ok, err, Error, All, member, eq_refl,
}
use vehicle_intelligence.Worker.{
  EventWorkerStats, Answer, SaveOutcome, persistence_failure, saved, save_raises, PolicyOutcome,
  no_processor, policy_failure, processed, processor_raises, RealtimeOutcome, no_publisher,
  unavailable, published, publisher_raises, publish_realtime, publish_last, post_process,
  after_save, process_event, acknowledged_of, returned_of,
}

abbrev pub or_nothing : Option (Result (List Str)) → Result (List Str)
or_nothing none = ok []
or_nothing (some result) = result

abbrev pub publish_settles : RealtimeOutcome → Result Bool
publish_settles (publisher_raises e) = err e
publish_settles _ = ok true

abbrev pub policy_settles : PolicyOutcome → RealtimeOutcome → Result Bool
policy_settles policy_failure realtime = ok false
policy_settles (processor_raises e) realtime = err e
policy_settles _ realtime = publish_settles realtime

-- An event is settled that was saved, new or known already, and whose policy did not fail; it raises
-- the first exception that the worker does not catch.
abbrev pub settles : SaveOutcome → PolicyOutcome → RealtimeOutcome → Result Bool
settles persistence_failure policy realtime = ok false
settles (save_raises e) policy realtime = err e
settles (saved created) policy realtime = policy_settles policy realtime

publish_last-settles :
    (realtime : RealtimeOutcome) (s : EventWorkerStats)
    → (publish_last (publish_realtime realtime s)).0 ≡ publish_settles realtime
unfolding publish_realtime
publish_last-settles no_publisher s = refl
publish_last-settles unavailable s = refl
publish_last-settles published s = refl
publish_last-settles (publisher_raises e) s = refl

post_process-settles :
    (policy : PolicyOutcome) (realtime : RealtimeOutcome) (s : EventWorkerStats)
    → (post_process policy realtime s).0 ≡ policy_settles policy realtime
unfolding post_process
post_process-settles no_processor realtime s = publish_last-settles realtime s
post_process-settles policy_failure realtime s = refl
post_process-settles (processed result) realtime s = publish_last-settles realtime _
post_process-settles (processor_raises e) realtime s = refl

after_save-settles :
    (save : SaveOutcome) (policy : PolicyOutcome) (realtime : RealtimeOutcome)
    (s : EventWorkerStats)
    → (after_save save policy realtime s).0 ≡ settles save policy realtime
after_save-settles persistence_failure policy realtime s = refl
after_save-settles (saved created) policy realtime s = post_process-settles policy realtime _
after_save-settles (save_raises e) policy realtime s = refl

pub process_event-settles :
    (answer : Answer) (s : EventWorkerStats)
    → (process_event answer s).0 ≡ settles answer.save answer.policy answer.realtime
unfolding process_event
process_event-settles answer s = after_save-settles answer.save answer.policy answer.realtime s

-- What becomes of the result of a group: its ids are acknowledged, or the round raises.
abbrev pub IsDelivered : Result (List Str) → List Str → Result ℕ → Type 0
IsDelivered (ok ids) acknowledged returned = All (λ id. member id acknowledged ≡ true) ids
IsDelivered (err e) acknowledged returned = (x : Error) × (returned ≡ err x)

member-later : (id : Str) (xs ys : List Str) → member id ys ≡ true → member id (xs ++ ys) ≡ true
member-later id [] ys h = h
member-later id (x ∷ xs) ys h = ground (arith, member-later id xs ys h)

-- more ids are acknowledged before those
IsDelivered-append :
    (o : Result (List Str)) (xs ys : List Str) (returned : Result ℕ)
    → IsDelivered o ys returned
    → IsDelivered o (xs ++ ys) returned
IsDelivered-append (err e) xs ys returned h = h
IsDelivered-append (ok []) xs ys returned h = tt
IsDelivered-append (ok (id ∷ ids)) xs ys returned h =
    (member-later id xs ys h.0, IsDelivered-append (ok ids) xs ys returned h.1)

own_ids : (ids ys : List Str) (returned : Result ℕ) → All (λ id. member id (ids ++ ys) ≡ true) ids
own_ids [] ys returned = tt
own_ids (id ∷ ids) ys returned = (
  ground (arith, eq_refl id),
  IsDelivered-append (ok ids) (id ∷ []) (ids ++ ys) returned (own_ids ids ys returned),
)

-- an earlier group raises
IsDelivered-raise :
    (o : Result (List Str)) (acknowledged : List Str) (returned : Result ℕ) (e : Error)
    → IsDelivered o acknowledged returned
    → IsDelivered o acknowledged (err e)
IsDelivered-raise (ok ids) acknowledged returned e h = h
IsDelivered-raise (err x) acknowledged returned e h = (e, refl)

pub results-IsDelivered :
    (results : Dict (Result (List Str))) (c : Str) (n : ℕ)
    → IsDelivered (or_nothing (get results c)) (acknowledged_of results) (returned_of n results)
results-IsDelivered [] c n = tt
results-IsDelivered ((i, ok ids) ∷ results) c n = elim (Bool-cases (i == c)) [
  | inl here ↦ rw here (own_ids ids (acknowledged_of results) (ok n))
  | inr other ↦ rw other (
      IsDelivered-append (or_nothing (get results c)) ids (acknowledged_of results) _
        (results-IsDelivered results c n))
]
results-IsDelivered ((i, err e) ∷ results) c n = elim (Bool-cases (i == c)) [
  | inl here ↦ rw here (e, refl)
  | inr other ↦ rw other (
      IsDelivered-raise (or_nothing (get results c)) (acknowledged_of results) _ e
        (results-IsDelivered results c n))
]
