-- ===== src/Worker/Delivery.antt =====
-- Which messages a round acknowledges.
use vehicle_intelligence.Prelude.{
  ℕ, ◌≡◌, refl, sym, ap, ◌∙◌, arith, Str, ◌==◌, eq_iff, if◌then◌else◌, Option, none, some,
  Option-cases, List, [], ◌∷◌, ◌++◌, Bool, true, false, Bool-cases, inl, inr, Dict, get, get-put,
  length, Result, ok, err, ◌>>=◌,
}
use vehicle_intelligence.Worker.{
  BrokerMessage, EventWorkerStats, Worker, Answer, Intake, process_event, append_to, sort_messages,
  process_group, process_groups, acknowledged_of, returned_of, take_messages, run_once,
}
use vehicle_intelligence.Worker.Settling.{
  or_nothing, settles, process_event-settles, IsDelivered, results-IsDelivered,
}

abbrev pub or_nil : {A : Type 0} → Option (List A) → List A
or_nil none = []
or_nil (some xs) = xs

append-nil : {A : Type 0} (xs : List A) → xs ++ [] ≡ xs
append-nil [] = refl
append-nil (x ∷ xs) = ap (λ r. x ∷ r) (append-nil xs)

append-append :
    {A : Type 0} (xs : List A) (y : A) (ys : List A) → (xs ++ y ∷ []) ++ ys ≡ xs ++ y ∷ ys
append-append [] y ys = refl
append-append (x ∷ xs) y ys = ap (λ r. x ∷ r) (append-append xs y ys)

module _ {E : Type 0} (camera_of : E → Str) (decode : Str → Option E) where
  -- The messages of one camera that can be decoded, in the order in which they came.
  abbrev pub kept_if :
      Option E → Str → BrokerMessage → List (BrokerMessage × E) → List (BrokerMessage × E)
  kept_if none camera_id message rest = rest
  kept_if (some event) camera_id message rest =
      if camera_of event == camera_id then (message, event) ∷ rest else rest

  abbrev pub messages_of : Str → List BrokerMessage → List (BrokerMessage × E)
  messages_of camera_id [] = []
  messages_of camera_id (message ∷ messages) =
      kept_if (decode message.payload) camera_id message (messages_of camera_id messages)

  -- The messages that cannot be decoded.
  abbrev pub undecoded : List BrokerMessage → List BrokerMessage
  undecoded [] = []
  undecoded (message ∷ messages) =
      let rest = undecoded messages in
      elim (decode message.payload) [ none ↦ message ∷ rest | some event ↦ rest ]

module _ {E : Type 0} (camera_of : E → Str) (decode : Str → Option E)
    (answer : BrokerMessage → Answer) where
  abbrev pub settled_before : Result Bool → Str → Result (List Str) → Result (List Str)
  settled_before (err e) id rest = err e
  settled_before (ok true) id rest = rest >>= (λ ids. ok (id ∷ ids))
  settled_before (ok false) id rest = ok []

  -- The ids up to the first message that is not settled, or the exception before that.
  abbrev pub settled_ids : List (BrokerMessage × E) → Result (List Str)
  settled_ids [] = ok []
  settled_ids ((message, event) ∷ entries) =
      settled_before
        (settles (answer message).save (answer message).policy (answer message).realtime)
        message.message_id (settled_ids entries)

  append_to_lem :
      (groups : Dict (List (BrokerMessage × E))) (i c : Str) (entry : BrokerMessage × E)
      (rest : List (BrokerMessage × E))
      → or_nil (get (append_to camera_of decode answer groups i entry) c) ++ rest
        ≡ or_nil (get groups c) ++ (if i == c then entry ∷ rest else rest)
  append_to_lem groups i c entry rest = elim (Bool-cases (i == c)) [
    | inr other ↦ elim (Option-cases (get groups i)) [
      | inl absent ↦ rw (absent, append_to, get-put groups i c (entry ∷ []), other) refl
      | inr (entries, there) ↦
          rw (there, append_to, get-put groups i c (entries ++ entry ∷ []), other) refl
    ]
    | inl here ↦
        let where_at : i ≡ c = ground (arith, eq_iff i c, here) in
        elim (Option-cases (get groups i)) [
          | inl absent ↦
              let absent_at : get groups c ≡ none = ap (get groups) (sym where_at) ∙ absent in
              rw (absent, append_to, get-put groups i c (entry ∷ []), here, absent_at) refl
          | inr (entries, there) ↦
              let there_at : get groups c ≡ some entries = ap (get groups) (sym where_at) ∙ there in
              rw (there, append_to, get-put groups i c (entries ++ entry ∷ []), here, there_at)
                (append-append entries entry rest)
        ]
  ]

  sort_messages_lem :
      (messages : List BrokerMessage) (groups : Dict (List (BrokerMessage × E)))
      (dead : List BrokerMessage) (c : Str)
      → let sorted = sort_messages camera_of decode answer messages (groups, dead) in
        (or_nil (get sorted.0 c) ≡ or_nil (get groups c) ++ messages_of camera_of decode c messages)
        × (sorted.1 ≡ dead ++ undecoded camera_of decode messages)
  unfolding sort_messages
  sort_messages_lem [] groups dead c =
      (sym (append-nil (or_nil (get groups c))), sym (append-nil dead))
  sort_messages_lem (message ∷ messages) groups dead c =
      elim (Option-cases (decode message.payload)) [
        | inl invalid ↦
            let (kept, given) = sort_messages_lem messages groups (dead ++ message ∷ []) c in
            rw (invalid, sort_messages, undecoded)
              (kept, given ∙ append-append dead message (undecoded camera_of decode messages))
        | inr (event, valid) ↦
            let entry : BrokerMessage × E = (message, event) in
            let (kept, given) =
              sort_messages_lem messages
                (append_to camera_of decode answer groups (camera_of event) entry) dead c in
            rw (valid, sort_messages, undecoded)
              (
                kept
                    ∙ append_to_lem groups (camera_of event) c entry
                        (messages_of camera_of decode c messages),
                given,
              )
      ]

  process_group_lem :
      (entries : List (BrokerMessage × E)) (s : EventWorkerStats)
      → (process_group camera_of decode answer entries s).0 ≡ settled_ids entries
  unfolding process_group
  process_group_lem [] s = refl
  process_group_lem ((message, event) ∷ entries) s =
      let next = process_event (answer message) s in
      outcomes next.0 next.1 (process_group_lem entries next.1)
      ∙ ap (λ o. settled_before o message.message_id (settled_ids entries))
          (process_event-settles (answer message) s)
    where
      outcomes :
          (outcome : Result Bool) (after : EventWorkerStats)
          → (process_group camera_of decode answer entries after).0 ≡ settled_ids entries
          → let step : Result (List Str) × EventWorkerStats = elim outcome [
            | err e ↦ (err e, after)
            | ok settled ↦
                if settled
                then (
                  (process_group camera_of decode answer entries after).0
                      >>= (λ ids. ok (message.message_id ∷ ids)),
                  (process_group camera_of decode answer entries after).1,
                )
                else (ok [], after)
          ] in
            step.0 ≡ settled_before outcome message.message_id (settled_ids entries)
      outcomes (err e) after h = refl
      outcomes (ok true) after h = ap (λ r. r >>= (λ ids. ok (message.message_id ∷ ids))) h
      outcomes (ok false) after h = refl

  process_groups_lem :
      (groups : Dict (List (BrokerMessage × E))) (s : EventWorkerStats) (c : Str)
      → or_nothing (get (process_groups camera_of decode answer groups s).0 c)
        ≡ settled_ids (or_nil (get groups c))
  unfolding process_groups
  process_groups_lem [] s c = refl
  process_groups_lem ((i, entries) ∷ groups) s c = elim (Bool-cases (i == c)) [
    | inl here ↦ rw here (process_group_lem entries s)
    | inr other ↦
        rw other (process_groups_lem groups (process_group camera_of decode answer entries s).1 c)
  ]

  -- For every camera, the group of a round gives the messages of the camera that the round read and
  -- that can be decoded, in their order, up to the first one whose event was not saved or whose policy
  -- failed; if one before that raises an exception that the worker does not catch, the group raises
  -- it. What the group gives is acknowledged, and if it raises, so does the round. In all, the round
  -- acknowledges exactly what the groups give that do not raise, and raises the first exception of the
  -- others, or else returns the number of messages. The messages that cannot be decoded are the
  -- dead letters, and nothing else is.
  pub run_once-acknowledges :
      (reclaim_interval : ℕ) (i : Intake) (w : Worker) (camera_id : Str)
      → let round = run_once camera_of decode answer reclaim_interval i w in
        let messages = (take_messages reclaim_interval i w).0 in
        (or_nothing (get round.results camera_id)
          ≡ settled_ids (messages_of camera_of decode camera_id messages))
        × IsDelivered (or_nothing (get round.results camera_id)) round.acknowledged round.returned
        × (round.acknowledged ≡ acknowledged_of round.results)
        × (round.returned ≡ returned_of (length messages) round.results)
        × (round.dead ≡ undecoded camera_of decode messages)
  unfolding run_once
  run_once-acknowledges reclaim_interval i w camera_id =
      let messages = (take_messages reclaim_interval i w).0 in
      let sorted = sort_messages camera_of decode answer messages ([], []) in
      let (kept, given) = sort_messages_lem messages [] [] camera_id in
      (
        process_groups_lem sorted.0 _ camera_id ∙ ap settled_ids kept,
        results-IsDelivered (process_groups camera_of decode answer sorted.0 _).0 camera_id
            (length messages),
        refl,
        refl,
        given,
      )
