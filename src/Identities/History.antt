-- ===== src/Identities/History.antt =====
-- What is registered and reviewed counts once, whatever other calls come between.
use vehicle_intelligence.Prelude.{
  ℕ, ◌≡◌, refl, ap, ◌∙◌, arith, Str, ◌==◌, eq_refl, List, [], ◌∷◌, true, false, ◌||◌, not,
  Bool-cases, inl, inr, get, contains, member, member-append, Result, ok, err,
}
use vehicle_intelligence.Identities.{VehicleFingerprint, VehicleIdentity, Floats}
use vehicle_intelligence.Identities.Repository.{
  Review, IdentityReviewResult, Repository, observed, stored, register_observation,
}
use vehicle_intelligence.Identities.Repeats.{
  IsKept, same-IsKept, review_id, review, review_known, review-IsKept, review_recorded,
}

-- the calls that write
pub data Call (C X : Type 0) : Type 0 where
  register : VehicleIdentity C X → VehicleFingerprint C X → Call C X
  decide : Review → ℕ → Call C X

module _ {C X : Type 0} (floats : Floats C) where
  stored-IsKept :
      (o : Result (VehicleIdentity C X)) (f : VehicleFingerprint C X) (r : Repository C X)
      → IsKept r (stored floats o f r).1
  stored-IsKept (err x) f r = same-IsKept r
  stored-IsKept (ok identity) f r = record {
    reviews = λ k p h. h;
    events = λ e h. elim (Bool-cases (member f.source_event_id r.source_events)) [
      | inl there ↦ rw there h
      | inr new ↦ rw new (ground (arith, member-append e r.source_events f.source_event_id, h))
    ];
  }

  register-IsKept :
      (i : VehicleIdentity C X) (f : VehicleFingerprint C X) (r : Repository C X)
      → IsKept r (register_observation floats i f r).1
  unfolding register_observation
  register-IsKept i f r = elim (Bool-cases (not (i.id == f.vehicle_id))) [
    | inl wrong ↦ rw wrong (same-IsKept r)
    | inr right ↦
        elim (Bool-cases
          (contains r.fingerprints f.id || member f.source_event_id r.source_events)) [
            | inl known ↦ rw (right, known) (same-IsKept r)
            | inr new ↦
                rw (right, new) (stored-IsKept (observed floats (get r.identities i.id) i) f r)
          ]
  ]

  stored_events :
      (o : Result (VehicleIdentity C X)) (f : VehicleFingerprint C X) (r : Repository C X)
      → (stored floats o f r).0 ≡ ok true
      → member f.source_event_id (stored floats o f r).1.source_events ≡ true
  stored_events (err x) f r h = ground (arith, h)
  stored_events (ok identity) f r h = elim (Bool-cases (member f.source_event_id r.source_events)) [
    | inl there ↦ rw there there
    | inr new ↦ rw new (
        ground (
          arith,
          member-append f.source_event_id r.source_events f.source_event_id,
          eq_refl f.source_event_id,
        ))
  ]

  register_events :
      (i : VehicleIdentity C X) (f : VehicleFingerprint C X) (r : Repository C X)
      → (register_observation floats i f r).0 ≡ ok true
      → member f.source_event_id (register_observation floats i f r).1.source_events ≡ true
  unfolding register_observation
  register_events i f r h = elim (Bool-cases (not (i.id == f.vehicle_id))) [
    | inl wrong ↦ ground (arith, rw wrong at h)
    | inr right ↦
        elim (Bool-cases
          (contains r.fingerprints f.id || member f.source_event_id r.source_events)) [
            | inl known ↦ ground (arith, rw (right, known) at h)
            | inr new ↦
                rw (right, new)
                  (stored_events (observed floats (get r.identities i.id) i) f r
                    (rw (right, new) at h))
          ]
  ]

  register_again :
      (i : VehicleIdentity C X) (f : VehicleFingerprint C X) (r : Repository C X)
      → (i.id == f.vehicle_id) ≡ true
      → member f.source_event_id r.source_events ≡ true
      → register_observation floats i f r ≡ (ok false, r)
  unfolding register_observation
  register_again i f r right known =
      let test : (contains r.fingerprints f.id || member f.source_event_id r.source_events) ≡ true =
        ground (arith, known) in
      rw (right, test) refl

module _ {C X : Type 0} (floats : Floats C) (text : Str → X) where
  unfoldable pub run : List (Call C X) → Repository C X → Repository C X
  run [] r = r
  run (register identity fingerprint ∷ calls) r =
      run calls (register_observation floats identity fingerprint r).1
  run (decide v n ∷ calls) r = run calls (review floats text v n r).1

  run-IsKept : (calls : List (Call C X)) (r : Repository C X) → IsKept r (run calls r)
  unfolding run
  run-IsKept [] r = same-IsKept r
  run-IsKept (register i f ∷ calls) r =
      let one = register-IsKept floats i f r in
      let rest = run-IsKept calls (register_observation floats i f r).1 in
      record {
        reviews = λ k p h. rest.reviews k p (one.reviews k p h);
        events = λ e h. rest.events e (one.events e h);
      }
  run-IsKept (decide v n ∷ calls) r =
      let one = review-IsKept floats text v n r in
      let rest = run-IsKept calls (review floats text v n r).1 in
      record {
        reviews = λ k p h. rest.reviews k p (one.reviews k p h);
        events = λ e h. rest.events e (one.events e h);
      }

  -- A review that returned a result returns the same one, marked as repeated, when it is requested
  -- again after any other calls, and then changes nothing.
  pub review-run-review :
      (v : Review) (n m : ℕ) (r : Repository C X) (calls : List (Call C X))
      (result : IdentityReviewResult)
      → (review floats text v n r).0 ≡ ok result
      → let later = run calls (review floats text v n r).1 in
        review floats text v m later ≡ (ok (record result { idempotent = true }), later)
  review-run-review v n m r calls result returned =
      let (prior, there, again) = review_recorded floats text v n r result returned in
      let later = run calls (review floats text v n r).1 in
      let still =
        (run-IsKept calls (review floats text v n r).1).reviews (review_id v) prior there in
      review_known floats text v m later prior still ∙ ap (λ o. (o, later)) again

  -- After an observation of an event was registered, another one of the same event, for any identity
  -- that its fingerprint names, is answered with False after any other calls, and changes nothing.
  pub register-run-register :
      (i j : VehicleIdentity C X) (f g : VehicleFingerprint C X) (r : Repository C X)
      (calls : List (Call C X))
      → (register_observation floats i f r).0 ≡ ok true
      → g.source_event_id ≡ f.source_event_id
      → (j.id == g.vehicle_id) ≡ true
      → let later = run calls (register_observation floats i f r).1 in
        register_observation floats j g later ≡ (ok false, later)
  register-run-register i j f g r calls returned same right =
      let later = run calls (register_observation floats i f r).1 in
      let still =
        (run-IsKept calls (register_observation floats i f r).1).events f.source_event_id
          (register_events floats i f r returned) in
      register_again floats j g later right (ap (λ e. member e later.source_events) same ∙ still)
